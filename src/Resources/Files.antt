-- ===== src/Resources/Files.antt =====
-- The filesystem behind `cgroupFileSystem` of sandbox/sandbox/resources/cgroup.go. Its answers are a
-- parameter: they may depend on all changes so far.
use bcs_zc241t_study_project.Prelude.{
  ℕ, Bool, true, false, Option, none, some, List, ◌∷◌, Result, ok, err,
}
use bcs_zc241t_study_project.Prelude.Run.{Run}
use bcs_zc241t_study_project.Text.{Text}

-- A change that was asked for, and whether it was made. `made` is a directory that `MkdirTemp` made.
pub data Change : Type 0 where
  made : Text → Change
  written : Text → Text → Bool → Change
  removed : Text → Bool → Change

-- The changes, the last one first.
abbrev pub Log : Type 0
Log = List Change

pub record Files : Type 0 where
  pub read_file : Log → Text → Option Text
  pub mkdir_temp : Log → Text → Text → Option Text
  pub can_write : Log → Text → Text → Bool
  pub can_remove : Log → Text → Bool
  pub filesystem_type : Log → Text → Option ℕ
  pub cgroup2_magic : ℕ

pub data CgroupError : Type 0 where
  cpu_out_of_range memory_negative processes_negative : CgroupError
  file_unreadable : Text → CgroupError
  malformed_entry not_v2_entry : Text → CgroupError
  duplicate_entry : CgroupError
  malformed_path path_traverses : Text → CgroupError
  line_too_long entry_missing : CgroupError
  not_absolute not_canonical escapes_mount : CgroupError
  type_unknown not_cgroup2 : CgroupError
  controller_unavailable controller_not_delegated : Text → CgroupError
  cannot_create : CgroupError
  no_quota memory_overflow : CgroupError
  cannot_write cannot_remove : Text → CgroupError
  invalid_pid : CgroupError
  joined : CgroupError → CgroupError → CgroupError

abbrev pub Exec : Type 0 → Type 0
Exec = Run Log CgroupError

-- `ReadFile`, which changes nothing.
abbrev pub answer : {A : Type 0} → Option A → CgroupError → Result CgroupError A
answer none e = err e
answer (some a) e = ok a

abbrev pub settle : Bool → CgroupError → Change → Exec (Unit {0})
settle true e change log = (ok tt, change ∷ log)
settle false e change log = (err e, change ∷ log)

module _ (fs : Files) where
  unfoldable pub read : Text → Exec Text
  read path log = (answer (fs.read_file log path) (file_unreadable path), log)

  -- `WriteExistingFile`.
  unfoldable pub write : Text → Text → Exec (Unit {0})
  write path data_written log =
      let able = fs.can_write log path data_written in
      settle able (cannot_write path) (written path data_written able) log

  -- `Remove`.
  unfoldable pub remove : Text → Exec (Unit {0})
  remove path log =
      let able = fs.can_remove log path in settle able (cannot_remove path) (removed path able) log
