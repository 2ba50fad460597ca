-- ===== src/Resources/Lifecycle.antt =====
-- sandbox/sandbox/resources/cgroup.go: `PrepareResourceLimits` and the methods of `ResourceLimits`.
use bcs_zc241t_study_project.Prelude.{
  ℕ, ◌-◌, ◌*◌, ◌/◌, ◌%◌, ◌^◌, Bool, not, ◌&&◌, ◌||◌, Option, none, some, [], ◌∷◌, ◌++◌, Result, ok,
  err, reject, ltb, ◌==◌, if◌then◌else◌, codes,
}
use bcs_zc241t_study_project.Prelude.Int.{ℤ, pos, is_negative, pos_part, ltb_ℤ}
use bcs_zc241t_study_project.Prelude.Run.{◌>>=◌, ◌>>◌, lift}
use bcs_zc241t_study_project.Text.{Text}
use bcs_zc241t_study_project.Text.Decimal.{itoa_ℕ}
use bcs_zc241t_study_project.Paths.{join_paths}
use bcs_zc241t_study_project.Resources.Files.{
  Files, Log, made, Exec, CgroupError, answer, read, write, remove, cpu_out_of_range,
  memory_negative, processes_negative, type_unknown, not_cgroup2, cannot_create, no_quota,
  memory_overflow, invalid_pid, joined,
}
use bcs_zc241t_study_project.Resources.Cgroup.{
  parse_unified_cgroup_path, resolve_delegated_cgroup_path, is_positive, requested_controllers,
  check_controllers,
}

-- `ResourceLimits`; the mutex plays no part in a single thread. An empty path is a removed cgroup.
pub record ResourceLimits : Type 0 where
  pub path : Text

-- A line of a control file.
abbrev pub line : Text → Text
line s = s ++ 10 ∷ []

abbrev pub nothing : Exec (Unit {0})
nothing = lift (ok tt)

abbrev pub cpu_period : ℕ
cpu_period = 100000

abbrev pub is_zero : ℤ → Bool
is_zero z = not (is_negative z) && not (is_positive z)

module _ (fs : Files) where
  -- `configureQuota`.
  unfoldable pub configure_quota : Text → ℕ → Exec (Unit {0})
  unfolding join_paths itoa_ℕ
  configure_quota path percent =
      let quota = cpu_period * percent / 100 in
      if quota == 0
      then lift (err no_quota)
      else write fs (join_paths path (codes "cpu.max"))
          (line (itoa_ℕ quota ++ b' ' ∷ itoa_ℕ cpu_period))

  unfoldable pub configure_memory : Text → ℕ → Exec (Unit {0})
  unfolding join_paths itoa_ℕ
  configure_memory path memory_gb =
      if ltb ((2 ^ 64 - 1) / 2 ^ 30) memory_gb then lift (err memory_overflow) else do
        write fs (join_paths path (codes "memory.max"))
            (line (itoa_ℕ (memory_gb * 2 ^ 30 % 2 ^ 64)))
        write fs (join_paths path (codes "memory.swap.max")) (line (codes "0"))
        write fs (join_paths path (codes "memory.oom.group")) (line (codes "1"))

  unfoldable pub configure_processes : Text → ℕ → Exec (Unit {0})
  unfolding join_paths itoa_ℕ
  configure_processes path max_processes =
      write fs (join_paths path (codes "pids.max")) (line (itoa_ℕ max_processes))

  -- `configure`.
  unfoldable pub configure : Text → ℤ → ℤ → ℤ → Exec (Unit {0})
  unfolding configure_quota configure_memory configure_processes
  configure path cpu memory processes = do
    if is_positive cpu then configure_quota path (pos_part cpu) else nothing
    if is_positive memory then configure_memory path (pos_part memory) else nothing
    if is_positive processes then configure_processes path (pos_part processes) else nothing

  -- `Attach`, on a pointer that may be nil.
  unfoldable pub attach : Option ResourceLimits → ℤ → Exec (Unit {0})
  unfolding join_paths itoa_ℕ
  attach none pid = nothing
  attach (some limits) pid =
      if not (is_positive pid)
      then lift (err invalid_pid)
      else write fs (join_paths limits.path (codes "cgroup.procs")) (line (itoa_ℕ (pos_part pid)))

  abbrev pub after_removal :
      ResourceLimits
      → Result CgroupError (Unit {0}) × Log
      → ResourceLimits × Result CgroupError (Unit {0}) × Log
  after_removal limits (ok _, log) = (record { path = [] }, ok tt, log)
  after_removal limits (err e, log) = (limits, err e, log)

  abbrev release : Text → Log → ResourceLimits × Result CgroupError (Unit {0}) × Log
  release [] log = (record { path = [] }, ok tt, log)
  release (c ∷ path) log = after_removal (record { path = c ∷ path }) (remove fs (c ∷ path) log)

  -- `Cleanup`: the limits afterwards, the error, the log.
  unfoldable pub cleanup :
      ResourceLimits → Log → ResourceLimits × Result CgroupError (Unit {0}) × Log
  cleanup limits log = release limits.path log

  -- `errors.Join(e, limit.Cleanup())`.
  abbrev pub join_error : CgroupError → Result CgroupError (Unit {0}) → CgroupError
  join_error e (ok _) = e
  join_error e (err f) = joined e f

  -- What follows `configure`: the limits, or the removal of the cgroup that was made.
  unfoldable pub conclude :
      Text → Result CgroupError (Unit {0}) × Log → Result CgroupError (Option ResourceLimits) × Log
  unfolding cleanup
  conclude path (ok _, log) = (ok (some (record { path = path })), log)
  conclude path (err e, log) =
      let (_, r, log') = cleanup (record { path = path }) log in (err (join_error e r), log')

  unfoldable pub provision :
      ℤ → ℤ → ℤ → Option Text → Log → Result CgroupError (Option ResourceLimits) × Log
  unfolding conclude
  provision cpu memory processes none log = (err cannot_create, log)
  provision cpu memory processes (some path) log =
      conclude path (configure path cpu memory processes (made path ∷ log))

  -- `MkdirTemp` and what follows it.
  unfoldable pub create : ℤ → ℤ → ℤ → Text → Exec (Option ResourceLimits)
  unfolding provision
  create cpu memory processes delegated log =
      provision cpu memory processes (fs.mkdir_temp log delegated (codes "sandbox-")) log

  unfoldable pub filesystem_type : Text → Exec ℕ
  filesystem_type path log = (answer (fs.filesystem_type log path) type_unknown, log)

  -- What is read and tested before anything is changed: the delegated path.
  unfoldable pub find_delegation : ℤ → ℤ → ℤ → Text → Text → Exec Text
  unfolding read filesystem_type join_paths
  find_delegation cpu memory processes proc_path mount_path = do
    proc_data ← read fs proc_path
    relative ← lift (parse_unified_cgroup_path proc_data)
    delegated ← lift (resolve_delegated_cgroup_path mount_path relative)
    kind ← filesystem_type delegated
    lift (reject (not (kind == fs.cgroup2_magic)) not_cgroup2)
    controllers ← read fs (join_paths delegated (codes "cgroup.controllers"))
    subtree ← read fs (join_paths delegated (codes "cgroup.subtree_control"))
    lift (check_controllers controllers subtree (requested_controllers cpu memory processes))
    lift (ok delegated)

  -- `prepareResourceLimits`; `none` is the nil pointer.
  unfoldable pub prepare_resource_limits : ℤ → ℤ → ℤ → Text → Text → Exec (Option ResourceLimits)
  unfolding find_delegation create
  prepare_resource_limits cpu memory processes proc_path mount_path =
      if is_negative cpu || ltb_ℤ (pos 100) cpu
      then lift (err cpu_out_of_range)
      else if is_negative memory
      then lift (err memory_negative)
      else if is_negative processes
      then lift (err processes_negative)
      else if is_zero cpu && is_zero memory && is_zero processes
      then lift (ok none)
      else find_delegation cpu memory processes proc_path mount_path >>= create cpu memory processes
