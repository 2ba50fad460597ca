-- ===== src/Child/Start/Confined.antt =====
-- `Child` of child.go against the list of what has to happen before the command starts.
use bcs_zc241t_study_project.Prelude.{
  ◌≡◌, refl, ap, ◌⊎◌, inl, inr, true, false, none, some, List, [], ◌∷◌, ◌++◌, ◌=?◌, if◌then◌else◌,
  Bool-cases, Option-cases,
}
use bcs_zc241t_study_project.Text.{Text}
use bcs_zc241t_study_project.Network.Types.{mode_none, mode_bridge}
use bcs_zc241t_study_project.Config.Types.{Config}
use bcs_zc241t_study_project.Process.{reap_until_payload_exits}
use bcs_zc241t_study_project.Child.Start.{
  Stage, read_config, raise_loopback, limit_file_size, configure_interface, isolate_root,
  change_directory, drop_all, apply_filter, look_path, start_payload, Log, System, End, code,
  panicked, end_of, attempt, execute, run_child, child,
}

-- The network of the mode: loopback, the interface, or the host's.
abbrev pub network_stages : Config → List Stage
network_stages cfg =
    if cfg.network_mode =? mode_none
    then raise_loopback ∷ []
    else if cfg.network_mode =? mode_bridge
    then configure_interface cfg.bridge_config ∷ []
    else []

-- What has to be done, in order, before the command may run.
abbrev pub restrictions : Config → List Stage
restrictions cfg =
    (limit_file_size cfg.file_size_limit_mb ∷ network_stages cfg)
    ++ isolate_root cfg.rootfs_source cfg.bind_mounts cfg.read_only_root cfg.dns_servers
        cfg.interactive
      ∷ change_directory cfg.working_dir
      ∷ drop_all cfg.drop_capabilities
      ∷ apply_filter cfg.blocked_syscall_action cfg.blocked_syscalls
      ∷ []

-- A log with these stages done behind those that it has.
abbrev pub all_done : List Stage → Log → Log
all_done [] log = log
all_done (s ∷ plan) log = all_done plan (record { stage = s; done = true } ∷ log)

-- The configuration has been read.
abbrev pub configured : Log
configured = record { stage = read_config; done = true } ∷ []

module _ (sys : System) where
  -- The stages of a plan one after another, up to the first that fails.
  run_plan : List Stage → (Log → End × Log) → Log → End × Log
  unfolding attempt
  run_plan [] next = next
  run_plan (s ∷ plan) next = attempt sys s 1 (run_plan plan next)

  -- A plan stops at a stage that failed, after all stages before it, or is done.
  abbrev pub Stopped : List Stage → Log → End × Log → Type 0
  Stopped plan log end =
      (before : List Stage) × (s : Stage) × (after : List Stage) × (plan ≡ before ++ s ∷ after)
      × (end ≡ (code 1, record { stage = s; done = false } ∷ all_done before log))

  run_plan-ends :
      (plan : List Stage) (next : Log → End × Log) (log : Log)
      → Stopped plan log (run_plan plan next log)
        ⊎ (run_plan plan next log ≡ next (all_done plan log))
  unfolding run_plan
  run_plan-ends [] next log = inr refl
  run_plan-ends (s ∷ plan) next log = elim (Bool-cases (sys.succeeds log s)) [
    | inr e ↦ inl ([], s, plan, refl, rw e refl)
    | inl e ↦ rw e (elim (run_plan-ends plan next _) [
      | inl (before, t, after, split, stopped) ↦
          inl (s ∷ before, t, after, ap (λ l. s ∷ l) split, stopped)
      | inr done ↦ inr done
    ])
  ]

  run_child-plan :
      (cfg : Config) (log : Log)
      → run_child sys cfg log
        ≡ run_plan (restrictions cfg) (execute sys cfg.command cfg.env_vars) log
  unfolding run_child run_plan
  run_child-plan cfg log = elim (Bool-cases (cfg.network_mode =? mode_none)) [
    | inl e ↦ rw e refl
    | inr e ↦ elim (Bool-cases (cfg.network_mode =? mode_bridge)) [
      | inl f ↦ rw (e, f) refl
      | inr f ↦ rw (e, f) refl
    ]
  ]

  -- How the command ends under all restrictions, which `under` shows: there is none, it is not found, it
  -- does not start, or it runs and the init process ends as it does.
  abbrev pub Executed : List Text → List Text → Log → End × Log → Type 0
  Executed [] environment under end = end ≡ (panicked, under)
  Executed (name ∷ arguments) environment under end =
      ((sys.found under name ≡ none)
        × (end ≡ (code 1, record { stage = look_path name; done = false } ∷ under)))
      ⊎ ((path : Text) × (sys.found under name ≡ some path)
          × ((end ≡ (
            code 127,
            record { stage = start_payload path (name ∷ arguments) environment; done = false }
                ∷ record { stage = look_path name; done = true }
                ∷ under,
          ))
              ⊎ (end ≡ (
                end_of (reap_until_payload_exits sys.payload_pid sys.answers),
                record { stage = start_payload path (name ∷ arguments) environment; done = true }
                    ∷ record { stage = look_path name; done = true }
                    ∷ under,
              ))))

  execute-Executed :
      (command environment : List Text) (log : Log)
      → Executed command environment log (execute sys command environment log)
  unfolding execute
  execute-Executed [] environment log = refl
  execute-Executed (name ∷ arguments) environment log = elim (Option-cases (sys.found log name)) [
    | inl e ↦ inl (e, rw e refl)
    | inr (path, e) ↦
        elim (Bool-cases (
          sys.succeeds (record { stage = look_path name; done = true } ∷ log)
            (start_payload path (name ∷ arguments) environment))) [
              | inl started ↦ inr (path, e, inr (rw (e, started) refl))
              | inr refused ↦ inr (path, e, inl (rw (e, refused) refl))
            ]
  ]

  -- The child ends in one of two ways, whatever fails. Either a restriction failed: all before it in the
  -- list were made, none behind it was tried, the exit code is 1 and the command has not run. Or every
  -- restriction was made, in the order of the list, and only then was the command looked up and started:
  -- with a code of 1 if it is not found and 127 if it does not start.
  pub child-Confined :
      (cfg : Config)
      → let end = child sys (some cfg) [] in
        Stopped (restrictions cfg) configured end
        ⊎ Executed cfg.command cfg.env_vars (all_done (restrictions cfg) configured) end
  unfolding child
  child-Confined cfg =
      let next = execute sys cfg.command cfg.env_vars in
      rw (run_child-plan cfg) (elim (run_plan-ends (restrictions cfg) next configured) [
        | inl stopped ↦ inl stopped
        | inr done ↦ rw done (inr (execute-Executed cfg.command cfg.env_vars _))
      ])
