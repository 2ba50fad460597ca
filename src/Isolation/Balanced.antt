-- ===== src/Isolation/Balanced.antt =====
-- Which descriptors the mounts of isolation.go leave open.
use bcs_zc241t_study_project.Prelude.{
  ℕ, ◌+◌, ◌≡◌, refl, Bool, true, false, not, ◌&&◌, Option, none, some, List, [], ◌∷◌, Result, ok,
  err, reject, ◌=?◌, if◌then◌else◌, arith,
}
use bcs_zc241t_study_project.Text.{Text}
use bcs_zc241t_study_project.Config.Types.{BindMount}
use bcs_zc241t_study_project.Isolation.Calls.{Fd, Attrs, Kernel}
use bcs_zc241t_study_project.Isolation.Mounts.{
  open_secure, open_target, require_same_object, clone_mount, set_recursive_mount_attrs, move,
  mount_tmpfs_with_mode, mount_dev_pts, mount_overlay, mount_proc, check_object, check_filesystem,
  attach_mount, attach_bind_mount,
}
use bcs_zc241t_study_project.Isolation.Balance.{
  one, Left, left_by, Leaves, nothing, closed_fd, Leaves-perform, Leaves-acquire, Leaves-fstat,
  Leaves-fstatfs, Leaves-lift, Leaves-bind, Leaves-if, Leaves-using, Leaves-keeping,
  Leaves-tolerate, Returns, Returns-ok, Returns-bind,
}

pub ruleset balance = (
  Leaves-perform, Leaves-acquire, Leaves-fstat, Leaves-fstatfs, Leaves-lift, Leaves-bind, Leaves-if,
  Leaves-using, refl,
)

module _ (k : Kernel) where
  pub open_target-Leaves : (root : Fd) (path : Text) → Leaves one (open_target k root path)
  unfolding open_target
  open_target-Leaves root path = search balance depth 16

  pub open_secure-Leaves :
      (path : Text) (directory : Bool) → Leaves one (open_secure k path directory)
  unfolding open_secure
  open_secure-Leaves path directory = search balance

  pub move-Leaves : (source target : Fd) → Leaves nothing (move k source target)
  unfolding move
  move-Leaves source target = search balance

  pub clone_mount-Leaves : (fd : Fd) (recursive : Bool) → Leaves one (clone_mount k fd recursive)
  unfolding clone_mount
  clone_mount-Leaves fd recursive = search balance depth 16

  pub set_recursive_mount_attrs-Leaves :
      (fd : Fd) (attrs : Attrs) → Leaves nothing (set_recursive_mount_attrs k fd attrs)
  unfolding set_recursive_mount_attrs
  set_recursive_mount_attrs-Leaves fd attrs = search balance depth 16

  pub mount_tmpfs_with_mode-Leaves : (mode : Text) → Leaves one (mount_tmpfs_with_mode k mode)
  unfolding mount_tmpfs_with_mode
  mount_tmpfs_with_mode-Leaves mode = search balance depth 24

  pub mount_dev_pts-Leaves : Leaves one (mount_dev_pts k)
  unfolding mount_dev_pts
  mount_dev_pts-Leaves = search balance depth 24

  pub mount_overlay-Leaves :
      (lower upper work : Text) → Leaves one (mount_overlay k lower upper work)
  unfolding mount_overlay
  mount_overlay-Leaves lower upper work = search balance depth 30

  pub mount_proc-Leaves : Leaves one (mount_proc k)
  unfolding mount_proc
  mount_proc-Leaves = search balance depth 24

  check_object-Leaves :
      (expected : Option Fd) (fd : Fd) → Leaves nothing (check_object k expected fd)
  unfolding check_object require_same_object
  check_object-Leaves none fd = search balance
  check_object-Leaves (some e) fd = search balance depth 16

  check_filesystem-Leaves :
      (expected : Option ℕ) (fd : Fd) → Leaves nothing (check_filesystem k expected fd)
  unfolding check_filesystem
  check_filesystem-Leaves none fd = search balance
  check_filesystem-Leaves (some e) fd = search balance depth 16

  pub attach_mount-Leaves :
      (root target mount_fd : Fd) (path : Text) (expected : Option Fd) (kind : Option ℕ)
      → Leaves nothing (attach_mount k root target mount_fd path expected kind)
  unfolding attach_mount move
  attach_mount-Leaves root target mount_fd path expected kind =
      search (balance, open_target-Leaves, check_object-Leaves, check_filesystem-Leaves) depth 24

  -- `attachBindMount` closes every descriptor that it opens as often as it opens it, whichever of its calls
  -- fail and whatever the kernel reports.
  pub attach_bind_mount-Leaves :
      (root target : Fd) (bind : BindMount) (source : Fd) (is_dir : Bool)
      → Leaves nothing (attach_bind_mount k root target bind source is_dir)
  unfolding attach_bind_mount
  attach_bind_mount-Leaves root target bind source is_dir =
      search (balance, clone_mount-Leaves, set_recursive_mount_attrs-Leaves, attach_mount-Leaves)
        depth 24
