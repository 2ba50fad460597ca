-- ===== src/Child/Start.antt =====
-- sandbox/sandbox/child/child.go: `Child` and `runInit`. The functions that they call are stages, which
-- succeed or not; how the system answers is a parameter and may depend on all stages so far.
pub mod Confined
mod Tests
use bcs_zc241t_study_project.Prelude.{
  ℕ, Bool, true, false, Option, none, some, List, [], ◌∷◌, Result, ◌=?◌, if◌then◌else◌,
}
use bcs_zc241t_study_project.Prelude.Int.{ℤ}
use bcs_zc241t_study_project.Text.{Text}
use bcs_zc241t_study_project.Network.Types.{BridgeConfig, mode_none, mode_bridge}
use bcs_zc241t_study_project.Config.Types.{Config, BindMount}
use bcs_zc241t_study_project.Process.{
  Pid, WaitStatus, Waited, run_init_code, reap_until_payload_exits, Selected,
}

-- `ReadConfig`, `ApplyFileSizeLimit`, `ConfigureIsolatedLoopback`, `ConfigureChildIface`,
-- `IsolateRootFS`, `Chdir`, `dropCapabilities`, `ApplySeccompFilter`, `LookPath` and `payload.Start`,
-- with their arguments.
pub data Stage : Type 0 where
  read_config raise_loopback : Stage
  limit_file_size : ℤ → Stage
  configure_interface : BridgeConfig → Stage
  isolate_root : Text → List BindMount → Bool → List Text → Bool → Stage
  change_directory : Text → Stage
  drop_all : List Text → Stage
  apply_filter : Text → List Text → Stage
  look_path : Text → Stage
  start_payload : Text → List Text → List Text → Stage

-- A stage, and whether it succeeded.
pub record Entry : Type 0 where
  pub stage : Stage
  pub done : Bool

-- The last one first.
abbrev pub Log : Type 0
Log = List Entry

pub record System : Type 0 where
  pub succeeds : Log → Stage → Bool
  pub found : Log → Text → Option Text
  pub payload_pid : Pid
  pub answers : List Waited

-- An exit code, a panic of the Go program, or a process that still runs.
pub data End : Type 0 where
  code : ℕ → End
  panicked running : End

unfoldable pub end_of : Option (Result ℕ WaitStatus × List Waited) → End
unfolding run_init_code
end_of none = running
end_of (some (r, rest)) = code (run_init_code r)

module _ (sys : System) where
  -- A stage, and what the code does when it has succeeded and when it has not.
  abbrev pub settle : Bool → Stage → ℕ → (Log → End × Log) → Log → End × Log
  settle true s failure next log = next (record { stage = s; done = true } ∷ log)
  settle false s failure next log = (code failure, record { stage = s; done = false } ∷ log)

  unfoldable pub attempt : Stage → ℕ → (Log → End × Log) → Log → End × Log
  attempt s failure next log = settle (sys.succeeds log s) s failure next log

  -- `runInit`.
  unfoldable pub run_init : Text → List Text → List Text → Log → End × Log
  unfolding attempt end_of reap_until_payload_exits
  run_init binary command environment =
      attempt (start_payload binary command environment) 127
        λ log. (end_of (reap_until_payload_exits sys.payload_pid sys.answers), log)

  unfoldable pub look_up : Option Text → Text → (Text → Log → End × Log) → Log → End × Log
  look_up none name next log = (code 1, record { stage = look_path name; done = false } ∷ log)
  look_up (some path) name next log =
      next path (record { stage = look_path name; done = true } ∷ log)

  -- `exec.LookPath(cfg.Command[0])`, which panics on an empty command, and what follows it.
  unfoldable pub execute : List Text → List Text → Log → End × Log
  unfolding look_up run_init
  execute [] environment log = (panicked, log)
  execute (name ∷ arguments) environment log =
      look_up (sys.found log name) name (λ path. run_init path (name ∷ arguments) environment) log

  -- The `switch` over the network mode.
  unfoldable pub configure_network : Config → (Log → End × Log) → Log → End × Log
  unfolding ◌=?◌ attempt
  configure_network cfg next =
      if cfg.network_mode =? mode_none
      then attempt raise_loopback 1 next
      else if cfg.network_mode =? mode_bridge
      then attempt (configure_interface cfg.bridge_config) 1 next
      else next

  unfoldable pub run_child : Config → Log → End × Log
  unfolding attempt configure_network execute
  run_child cfg = attempt (limit_file_size cfg.file_size_limit_mb) 1 (
      configure_network cfg (
        attempt
          (isolate_root cfg.rootfs_source cfg.bind_mounts cfg.read_only_root cfg.dns_servers
            cfg.interactive)
          1
          (attempt (change_directory cfg.working_dir) 1 (
            attempt (drop_all cfg.drop_capabilities) 1 (
              attempt (apply_filter cfg.blocked_syscall_action cfg.blocked_syscalls) 1
                (execute cfg.command cfg.env_vars))))))

  -- `Child`.
  unfoldable pub child : Option Config → Log → End × Log
  unfolding run_child
  child none log = (code 1, record { stage = read_config; done = false } ∷ log)
  child (some cfg) log = run_child cfg (record { stage = read_config; done = true } ∷ log)
