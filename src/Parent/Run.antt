-- ===== src/Parent/Run.antt =====
-- sandbox/sandbox/parent/parent.go: `Parent`, with its deferred calls.
use bcs_zc241t_study_project.Prelude.{
  ℕ, Bool, true, false, Option, none, some, ◌∷◌, Result, ok, err, ◌=?◌, if◌then◌else◌,
}
use bcs_zc241t_study_project.Text.{Text}
use bcs_zc241t_study_project.Network.Types.{mode_bridge}
use bcs_zc241t_study_project.Config.Types.{Config, RemoteRootFs}
use bcs_zc241t_study_project.Config.Validate.{validate}
use bcs_zc241t_study_project.Config.Validate
use bcs_zc241t_study_project.Security.{validate_syscall_names}
use bcs_zc241t_study_project.Security
use bcs_zc241t_study_project.Process.{wait_for_child_code}
use bcs_zc241t_study_project.Parent.Environment.{
  configured_environment_value, term_name, interactive_environment, snapshot_environment,
  internal_child_environment,
}
use bcs_zc241t_study_project.Parent.Steps.{
  Act, check_terminal, finish_progress, notify_signals, stop_signals, clean_limits,
  tear_down_bridge, set_up_firewall, make_pipe, close_read_end, close_write_end, close_pipe,
  close_terminal, watch_resize, stop_resize, attach_child, move_veth, make_raw, wait_child,
  resolve_remote, resolve_local, prepare_limits, set_up_bridge, start_child, write_config, Host,
  Ending, attempt, call, deferred, unless_reaped, deferred_check, attributes,
}

abbrev pub is_bridge : Config → Bool
is_bridge cfg = cfg.network_mode =? mode_bridge

-- A step that is taken under a condition.
abbrev pub when : {R : Type 0} → Bool → (Ending R → Ending R) → Ending R → Ending R
when true step next = step next
when false step next = next

module _ (h : Host) where
  -- What `cmd.Wait` has returned, as an exit code.
  unfoldable pub waited : Ending (ℕ × Bool)
  unfolding wait_for_child_code
  waited log = ((wait_for_child_code (h.outcome log), true), log)

  -- `waitForChild`, after which the child is reaped.
  unfoldable pub wait_for_child : Ending (ℕ × Bool)
  unfolding call waited
  wait_for_child = call wait_child waited

  -- From `Attach` to the end of `Parent`.
  unfoldable pub supervise : Config → Ending (ℕ × Bool)
  unfolding attempt call wait_for_child ◌=?◌
  supervise cfg =
      attempt h (1, false) attach_child
        (when (is_bridge cfg) (attempt h (1, false) move_veth) (
          when cfg.interactive (attempt h (1, false) make_raw)
            (attempt h (1, false) (write_config cfg) (call close_write_end wait_for_child))))

  -- What follows the start of the child.
  unfoldable pub started : Config → Ending ℕ
  unfolding call deferred deferred_check unless_reaped supervise
  started cfg = when cfg.interactive (deferred_check h close_terminal) (
      call close_read_end (
        when cfg.interactive (λ next. call watch_resize (deferred stop_resize next))
          (unless_reaped (supervise cfg))))

  -- The pipe and the start of the child.
  unfoldable pub launch : Config → Ending ℕ
  unfolding attempt deferred attributes internal_child_environment started
  launch cfg = attempt h 1 make_pipe (
      deferred close_pipe (
        attempt h 1 (start_child (attributes h cfg) (internal_child_environment cfg.env_vars))
          (started cfg)))

  -- The bridge, with its firewall.
  unfoldable pub with_bridge : Config → Ending ℕ → Ending ℕ
  unfolding attempt deferred_check
  with_bridge cfg next =
      attempt h 1 (set_up_bridge cfg.bridge_config)
        (deferred_check h tear_down_bridge (attempt h 1 set_up_firewall next))

  -- From the signals to the end.
  unfoldable pub confine : Config → Ending ℕ
  unfolding call deferred deferred_check attempt with_bridge launch ◌=?◌
  confine cfg = call notify_signals (
      deferred stop_signals (
        attempt h 1 (prepare_limits cfg.cpu_limit_percent cfg.memory_limit_gb cfg.max_processes)
          (deferred_check h clean_limits (when (is_bridge cfg) (with_bridge cfg) (launch cfg)))))

  abbrev pub root_act : Config → Option RemoteRootFs → Act
  root_act cfg none = resolve_local cfg.rootfs_source
  root_act cfg (some remote) = resolve_remote remote

  -- The configuration for the child: the root that was found, and no remote one.
  abbrev pub with_root : Config → Text → Config
  with_root cfg path = record cfg { rootfs_source = path; remote_rootfs = none }

  abbrev pub resolved_root : Option Text → Act → Config → Ending ℕ
  resolved_root none a cfg log =
      call finish_progress (λ log'. (1, log')) (record { act = a; done = false } ∷ log)
  resolved_root (some path) a cfg log =
      call finish_progress (confine (with_root cfg path)) (record { act = a; done = true } ∷ log)

  -- From the progress renderer to the end.
  unfoldable pub provision : Config → Ending ℕ
  unfolding call deferred confine
  provision cfg =
      deferred finish_progress
        (λ log. resolved_root (h.resolved log) (root_act cfg cfg.remote_rootfs) cfg log)

  -- The configuration with the environment of the command.
  unfoldable pub with_environment : Config → Config
  unfolding snapshot_environment interactive_environment configured_environment_value
  with_environment cfg =
      let snapshot = snapshot_environment cfg h.environ in
      let (configured_term, configured) = configured_environment_value cfg.env_vars term_name in
      record snapshot {
        env_vars =
            if cfg.interactive
            then interactive_environment snapshot.env_vars h.term configured_term configured
            else snapshot.env_vars;
      }

  -- The two validations, each of which may end the function.
  abbrev pub admit : {E F A B : Type 0} → Result E A → Result F B → Ending ℕ → Ending ℕ
  admit (err e) names next log = (1, log)
  admit (ok _) (err e) next log = (1, log)
  admit (ok _) (ok _) next log = next log

  unfoldable pub accepted : Config → Ending ℕ
  unfolding attempt provision with_environment
  accepted cfg =
      when cfg.interactive (attempt h 1 check_terminal) (provision (with_environment cfg))

  -- `Parent`.
  unfoldable pub parent : Validate.Platform → Security.Platform → Config → Ending ℕ
  unfolding accepted
  parent platform registry cfg =
      admit (validate platform cfg) (validate_syscall_names registry cfg.blocked_syscalls)
        (accepted cfg)
