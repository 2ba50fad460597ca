-- ===== src/Isolation/Stage.antt =====
-- sandbox/sandbox/fs/isolation.go: the staging directory of the private root, which is an overlay.
use bcs_zc241t_study_project.Prelude.{
  Bool, true, false, not, ◌&&◌, Option, none, some, List, [], ◌∷◌, ◌++◌, Result, ok, err,
  if◌then◌else◌, codes,
}
use bcs_zc241t_study_project.Text.{Text, is_empty}
use bcs_zc241t_study_project.Isolation.Calls.{
  Fd, enoent, openat2, close, mkdirat, unmount, remove_directory, make_temporary, Log, Kernel,
  FsError, joined, Exec, perform, acquire,
}
use bcs_zc241t_study_project.Isolation.Mounts.{
  secure, open_secure, clone_mount, move, mount_tmpfs_with_mode, mount_overlay,
}
use bcs_zc241t_study_project.Isolation.Targets.{is_errno}

-- `overlayStage`; a descriptor of -1 is `none`.
pub record Stage : Type 0 where
  pub path : Text
  pub attached : Bool
  pub stage_fd : Option Fd
  pub upper_fd : Option Fd
  pub work_fd : Option Fd
  pub lower_fd : Option Fd
  pub staging_mount : Option Fd

abbrev pub fresh_stage : Text → Stage
fresh_stage path = record {
  path = path;
  attached = false;
  stage_fd = none;
  upper_fd = none;
  work_fd = none;
  lower_fd = none;
  staging_mount = none;
}

-- Errors that were collected.
abbrev pub Errors : Type 0
Errors = List FsError

abbrev pub errors_of : Result FsError (Unit {0}) × Log → Errors × Log
errors_of (ok _, log) = ([], log)
errors_of (err e, log) = (e ∷ [], log)

-- The second error is joined to the first.
abbrev pub join_errors : FsError → Errors → FsError
join_errors cause [] = cause
join_errors cause (e ∷ errs) = join_errors (joined cause e) errs

-- `filepath.Join(stagePath, name)`.
abbrev pub within : Text → Text → Text
within path name = path ++ b'/' ∷ name

module _ (k : Kernel) where
  -- `closeOwnedFD`: the descriptor is given up, whatever `close` reports.
  unfoldable pub close_owned_fd : Option Fd → Log → Errors × Log
  unfolding perform
  close_owned_fd none log = ([], log)
  close_owned_fd (some fd) log = errors_of (perform k (close fd) log)

  -- `if s.attached`: whether the mount is attached afterwards.
  unfoldable pub detach : Bool → Text → Log → Bool × Errors × Log
  unfolding perform
  detach false path log = (false, [], log)
  detach true path log =
      let (errs, log') = errors_of (perform k (unmount path) log) in (is_failed errs, errs, log')
    where
      is_failed : Errors → Bool
      is_failed [] = false
      is_failed (e ∷ errs) = true

  abbrev pub after_remove : Text → Result FsError (Unit {0}) × Log → Text × Errors × Log
  after_remove path (ok _, log) = ([], [], log)
  after_remove path (err e, log) = if is_errno enoent e then ([], [], log) else (path, e ∷ [], log)

  -- `if !s.attached && s.path != ""`: the path that is left.
  unfoldable pub remove_stage : Bool → Text → Log → Text × Errors × Log
  unfolding perform
  remove_stage attached path log =
      if not attached && not (is_empty path)
      then after_remove path (perform k (remove_directory path) log)
      else (path, [], log)

  -- `overlayStage.cleanup`: the stage that is left, the errors, the log.
  unfoldable pub cleanup : Stage → Log → Stage × Errors × Log
  unfolding detach close_owned_fd remove_stage
  cleanup s log =
      let (attached, e₁, l₁) = detach s.attached s.path log in
      let (e₂, l₂) = close_owned_fd s.upper_fd l₁ in
      let (e₃, l₃) = close_owned_fd s.work_fd l₂ in
      let (e₄, l₄) = close_owned_fd s.lower_fd l₃ in
      let (e₅, l₅) = close_owned_fd s.stage_fd l₄ in
      let (e₆, l₆) = close_owned_fd s.staging_mount l₅ in
      let (path, e₇, l₇) = remove_stage attached s.path l₆ in
      (
        record (fresh_stage path) { attached = attached },
        e₁ ++ (e₂ ++ (e₃ ++ (e₄ ++ (e₅ ++ (e₆ ++ e₇))))),
        l₇,
      )

  -- `cleanupOnError`.
  abbrev pub cleanup_on_error : {A : Type 0} → Stage → FsError → Log → Result FsError A × Log
  cleanup_on_error s cause log =
      let (left, errs, log') = cleanup s log in (err (join_errors cause errs), log')

  -- A step of `createOverlayRoot`: the stage is cleaned up where it fails.
  abbrev pub settle_step :
      {A B : Type 0} → Stage → Result FsError A × Log → (A → Exec B) → Result FsError B × Log
  settle_step s (ok a, log) next = next a log
  settle_step s (err e, log) next = cleanup_on_error s e log

  unfoldable pub staged : {A B : Type 0} → Stage → Exec A → (A → Exec B) → Exec B
  unfolding cleanup
  staged s m next log = settle_step s (m log) next

  abbrev pub settle_close : {B : Type 0} → Stage → Exec B → Errors × Log → Result FsError B × Log
  settle_close s next ([], log) = next log
  settle_close s next (e ∷ errs, log) = cleanup_on_error s e log

  -- `closeOwnedFD` as a step, on a stage that has given up the descriptor.
  unfoldable pub close_step : {B : Type 0} → Stage → Option Fd → Exec B → Exec B
  unfolding close_owned_fd cleanup
  close_step s fd next log = settle_close s next (close_owned_fd fd log)

  -- `moveMount` of the lower layer, whose descriptor is closed where that fails.
  abbrev pub close_failed : Fd → Result FsError (Unit {0}) × Log → Result FsError (Unit {0}) × Log
  close_failed fd (ok _, log) = (ok tt, log)
  close_failed fd (err e, log) =
      let (errs, log') = close_owned_fd (some fd) log in (err (join_errors e errs), log')

  unfoldable pub move_lower : Fd → Fd → Exec (Unit {0})
  unfolding move close_owned_fd
  move_lower lower_mount target log = close_failed lower_mount (move k lower_mount target log)

  abbrev directory_in : Fd → Text → Exec Fd
  directory_in dir name = acquire k (openat2 (some dir) name (secure true))

  -- From the three directories to the end, on a stage whose directory is `dir`.
  unfoldable pub fill_stage : Fd → Fd → Stage → Exec (Fd × Stage)
  unfolding staged perform acquire clone_mount move_lower close_step mount_overlay
  fill_stage root dir s = staged s (perform k (mkdirat dir (codes "upper") 0o700)) λ _.
      staged s (perform k (mkdirat dir (codes "work") 0o700)) λ _.
        staged s (perform k (mkdirat dir (codes "lower") 0o700)) λ _.
          staged s (directory_in dir (codes "upper")) λ upper.
            let s₁ = record s { upper_fd = some upper } in
            staged s₁ (directory_in dir (codes "work")) λ work.
              let s₂ = record s₁ { work_fd = some work } in
              staged s₂ (directory_in dir (codes "lower")) λ lower.
                let s₃ = record s₂ { lower_fd = some lower } in
                staged s₃ (clone_mount k root true) λ lower_mount.
                  staged s₃ (move_lower lower_mount lower) λ _. close_step s₃ (some lower_mount) (
                    staged s₃
                      (mount_overlay k (within s.path (codes "lower"))
                        (within s.path (codes "upper")) (within s.path (codes "work")))
                      λ overlay log. (ok (overlay, s₃), log))

  -- The staging filesystem, which hides the directory that it is mounted on.
  unfoldable pub mount_stage : Fd → Text → Exec (Fd × Stage)
  unfolding staged open_secure mount_tmpfs_with_mode move close_step fill_stage
  mount_stage root path =
      let s = fresh_stage path in
      staged s (open_secure k path true) λ dir.
        let s₁ = record s { stage_fd = some dir } in
        staged s₁ (mount_tmpfs_with_mode k []) λ mount.
          staged (record s₁ { staging_mount = some mount }) (move k mount dir)
            λ _.
              let s₂ = record s₁ { attached = true } in
              close_step s₂ (some mount) (
                close_step (record s₂ { stage_fd = none }) (some dir)
                  (staged (record s₂ { stage_fd = none }) (open_secure k path true)
                    λ inner. fill_stage root inner (record s₂ { stage_fd = some inner })))

  abbrev pub made : Fd → Text → Result FsError (Unit {0}) × Log → Result FsError (Fd × Stage) × Log
  made root path (ok _, log) = mount_stage root path log
  made root path (err e, log) = (err e, log)

  -- `createOverlayRoot`: the overlay and the stage, which its caller cleans up.
  unfoldable pub create_overlay_root : Fd → Exec (Fd × Stage)
  unfolding perform mount_stage
  create_overlay_root root log =
      let path = k.temporary log in made root path (perform k (make_temporary path) log)
