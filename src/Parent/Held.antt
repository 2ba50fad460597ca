-- ===== src/Parent/Held.antt =====
-- What the parent holds while it runs: a state machine over its calls, against which parent.go is judged.
-- A call that the machine does not allow has no next state. A resource is given up by the call that releases
-- it, whether that call succeeds or not: none is released twice.
use bcs_zc241t_study_project.Prelude.{
  Bool, true, false, not, ◌&&◌, ◌||◌, Option, none, some, [], ◌∷◌, if◌then◌else◌,
}
use bcs_zc241t_study_project.Parent.Steps.{
  Act, check_terminal, finish_progress, notify_signals, stop_signals, clean_limits,
  tear_down_bridge, set_up_firewall, make_pipe, close_read_end, close_write_end, close_pipe,
  close_terminal, watch_resize, stop_resize, attach_child, move_veth, make_raw, wait_child,
  kill_child, resolve_remote, resolve_local, prepare_limits, set_up_bridge, start_child,
  write_config, Log,
}

-- A child that runs is in the cgroup or not, and has its end of the veth pair or not.
pub data ChildState : Type 0 where
  gone : ChildState
  running : Bool → Bool → ChildState

pub record Held : Type 0 where
  pub signals : Bool
  pub limits : Bool
  pub bridge : Bool
  pub pipe : Bool
  pub terminal : Bool
  pub resize : Bool
  pub child : ChildState

abbrev pub nothing : Held
nothing = record {
  signals = false;
  limits = false;
  bridge = false;
  pipe = false;
  terminal = false;
  resize = false;
  child = gone;
}

abbrev pub is_gone : ChildState → Bool
is_gone gone = true
is_gone (running limited connected) = false

abbrev pub is_limited : ChildState → Bool
is_limited gone = false
is_limited (running limited connected) = limited

abbrev pub is_connected : ChildState → Bool
is_connected gone = false
is_connected (running limited connected) = connected

abbrev pub allowed : Bool → Held → Option Held
allowed b h = if b then some h else none

-- Resources are taken once, and given up once and only when they are held. No child runs when the bridge, the
-- pipe, the terminal or the cgroup is released, and these go in this order: the terminal, the pipe, the
-- bridge, the cgroup, the signals. The configuration, for which the child waits, is sent only to a child
-- in its cgroup and, if there is a bridge, with its interface.
unfoldable pub step : Act → Bool → Held → Option Held
step check_terminal done h = some h
step finish_progress done h = some h
step (resolve_remote remote) done h = some h
step (resolve_local path) done h = some h
step notify_signals done h = allowed (not h.signals) (record h { signals = true })
step stop_signals done h = allowed (h.signals && not h.limits) (record h { signals = false })
step (prepare_limits cpu memory processes) done h =
    allowed (h.signals && not h.limits) (if done then record h { limits = true } else h)
step clean_limits done h =
    allowed (h.limits && not h.bridge && not h.pipe && is_gone h.child)
      (record h { limits = false })
step (set_up_bridge cfg) done h =
    allowed (h.limits && not h.bridge) (if done then record h { bridge = true } else h)
step set_up_firewall done h = allowed (h.bridge && is_gone h.child) h
step tear_down_bridge done h =
    allowed (h.bridge && not h.pipe && is_gone h.child) (record h { bridge = false })
step make_pipe done h = allowed (not h.pipe) (if done then record h { pipe = true } else h)
step close_read_end done h = allowed (h.pipe && not (is_gone h.child)) h
step close_write_end done h = allowed (h.pipe && not (is_gone h.child)) h
step close_pipe done h =
    allowed (h.pipe && not h.terminal && is_gone h.child) (record h { pipe = false })
step (start_child attributes environment) done h =
    allowed (h.limits && h.pipe && is_gone h.child)
      (if done then record h { terminal = attributes.setctty; child = running false false } else h)
step close_terminal done h =
    allowed (h.terminal && not h.resize && is_gone h.child) (record h { terminal = false })
step watch_resize done h = allowed (h.terminal && not h.resize) (record h { resize = true })
step stop_resize done h = allowed (h.resize && is_gone h.child) (record h { resize = false })
step attach_child done h =
    allowed (not (is_gone h.child) && not (is_limited h.child))
      (if done then record h { child = running true false } else h)
step move_veth done h =
    allowed (h.bridge && is_limited h.child && not (is_connected h.child))
      (if done then record h { child = running true true } else h)
step make_raw done h = allowed (h.terminal && not (is_gone h.child)) h
step (write_config cfg) done h =
    allowed (is_limited h.child && (is_connected h.child || not h.bridge)) h
step wait_child done h = allowed (not (is_gone h.child)) (record h { child = gone })
step kill_child done h = allowed (not (is_gone h.child)) (record h { child = gone })

unfoldable pub advance : Option Held → Act → Bool → Option Held
advance none a done = none
advance (some h) a done = step a done h

-- The state that a log leaves, from nothing.
unfoldable pub replay : Log → Option Held
unfolding advance
replay [] = some nothing
replay (e ∷ log) = advance (replay log) e.act e.done
