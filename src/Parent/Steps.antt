-- ===== src/Parent/Steps.antt =====
-- sandbox/sandbox/parent/parent.go: what the parent does, as calls that succeed or not. The answers of
-- the system are a parameter: they may depend on all calls so far.
use bcs_zc241t_study_project.Prelude.{
  ℕ, Bool, true, false, not, Option, List, [], ◌∷◌, ◌==◌, if◌then◌else◌,
}
use bcs_zc241t_study_project.Prelude.Int.{ℤ}
use bcs_zc241t_study_project.Text.{Text}
use bcs_zc241t_study_project.Network.Types.{BridgeConfig, requires_net_ns}
use bcs_zc241t_study_project.Config.Types.{Config, RemoteRootFs}
use bcs_zc241t_study_project.Process.{WaitOutcome}

-- The flags of `clone`.
pub data Namespace : Type 0 where
  user_ns pid_ns mount_ns uts_ns net_ns : Namespace

-- `syscall.SysProcIDMap`.
pub record IdMap : Type 0 where
  pub container_id : ℕ
  pub host_id : ℕ
  pub size : ℕ

-- `syscall.SysProcAttr`. The child is killed when the parent dies.
pub record Attributes : Type 0 where
  pub namespaces : List Namespace
  pub setpgid : Bool
  pub setsid : Bool
  pub setctty : Bool
  pub killed_with_parent : Bool
  pub setgroups : Bool
  pub uid_mappings : List IdMap
  pub gid_mappings : List IdMap

-- The calls of `Parent`, with their arguments.
pub data Act : Type 0 where
  check_terminal finish_progress notify_signals stop_signals clean_limits tear_down_bridge : Act
  set_up_firewall make_pipe close_read_end close_write_end close_pipe close_terminal : Act
  watch_resize stop_resize attach_child move_veth make_raw wait_child kill_child : Act
  resolve_remote : RemoteRootFs → Act
  resolve_local : Text → Act
  prepare_limits : ℤ → ℤ → ℤ → Act
  set_up_bridge : BridgeConfig → Act
  start_child : Attributes → List Text → Act
  write_config : Config → Act

-- A call, and whether it succeeded.
pub record Entry : Type 0 where
  pub act : Act
  pub done : Bool

-- The last one first.
abbrev pub Log : Type 0
Log = List Entry

pub record Host : Type 0 where
  pub succeeds : Log → Act → Bool
  pub resolved : Log → Option Text
  pub outcome : Log → WaitOutcome
  pub environ : List Text
  pub term : Text
  pub uid : ℕ
  pub gid : ℕ

-- Code that ends with a result.
abbrev pub Ending : Type 0 → Type 0
Ending R = Log → R × Log

-- A call that reports no failure.
unfoldable pub call : {R : Type 0} → Act → Ending R → Ending R
call a next log = next (record { act = a; done = true } ∷ log)

-- A deferred call that reports no failure.
unfoldable pub deferred : Act → Ending ℕ → Ending ℕ
deferred a body log = let (r, log') = body log in (r, record { act = a; done = true } ∷ log')

-- The deferred `terminateChild`, after code that ends with the result and whether the child is reaped.
abbrev pub terminate : Bool → ℕ → Log → ℕ × Log
terminate true r log = (r, log)
terminate false r log = (r, record { act = kill_child; done = true } ∷ log)

unfoldable pub unless_reaped : Ending (ℕ × Bool) → Ending ℕ
unless_reaped body log = let (r, log') = body log in terminate r.1 r.0 log'

module _ (h : Host) where
  module _ {R : Type 0} where
    -- A call whose failure ends the function with this result.
    abbrev pub settle : Bool → R → Act → Ending R → Ending R
    settle true failure a next log = next (record { act = a; done = true } ∷ log)
    settle false failure a next log = (failure, record { act = a; done = false } ∷ log)

    unfoldable pub attempt : R → Act → Ending R → Ending R
    attempt failure a next log = settle (h.succeeds log a) failure a next log

  -- A deferred call whose failure turns the result 0 into 1.
  abbrev pub clean : Bool → Act → ℕ → Log → ℕ × Log
  clean true a r log = (r, record { act = a; done = true } ∷ log)
  clean false a r log = ((if r == 0 then 1 else r), record { act = a; done = false } ∷ log)

  unfoldable pub deferred_check : Act → Ending ℕ → Ending ℕ
  deferred_check a body log = let (r, log') = body log in clean (h.succeeds log' a) a r log'

  -- `cloneFlags` and `attributes`.
  unfoldable pub attributes : Config → Attributes
  attributes cfg = record {
    namespaces =
        user_ns
        ∷ pid_ns
        ∷ mount_ns
        ∷ uts_ns
        ∷ (if requires_net_ns cfg.network_mode then net_ns ∷ [] else []);
    setpgid = not cfg.interactive;
    setsid = cfg.interactive;
    setctty = cfg.interactive;
    killed_with_parent = true;
    setgroups = false;
    uid_mappings = record { container_id = 0; host_id = h.uid; size = 1 } ∷ [];
    gid_mappings = record { container_id = 0; host_id = h.gid; size = 1 } ∷ [];
  }
