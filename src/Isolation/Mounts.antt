-- ===== src/Isolation/Mounts.antt =====
-- sandbox/sandbox/fs/isolation.go: paths, targets, and the mounts that are made by the new mount API.
use bcs_zc241t_study_project.Prelude.{
  ℕ, Bool, true, false, not, ◌&&◌, ◌||◌, Option, none, some, Result, ok, reject, ◌==◌, ◌=?◌,
  if◌then◌else◌, codes,
}
use bcs_zc241t_study_project.Prelude.Run.{◌>>=◌, ◌>>◌, lift}
use bcs_zc241t_study_project.Text.{Text, has_nul, is_empty, trim_prefix}
use bcs_zc241t_study_project.Paths.{is_abs, has_parent_component, clean}
use bcs_zc241t_study_project.Config.Types.{BindMount}
use bcs_zc241t_study_project.Isolation.Calls.{
  Fd, How, Attrs, openat2, fsopen, fsmount, open_tree, set_string, set_flag, create_context,
  mount_setattr, move_mount, FileType, directory_type, regular_type, character_type, other_type,
  Kernel, FsError, unsafe_path, wrong_type, wrong_object, wrong_filesystem, Exec, perform, acquire,
  using, fstat, fstatfs,
}

-- `validateIsolationPath`.
unfoldable pub validate_isolation_path : Text → Result FsError (Unit {0})
unfolding has_parent_component
validate_isolation_path path =
    reject (is_empty path || has_nul path || not (is_abs path) || has_parent_component path)
      (unsafe_path path)

-- The flags of the source's `OpenHow` values.
abbrev pub secure : Bool → How
secure directory = record {
  path_only = true;
  directory = directory;
  no_follow = false;
  beneath = false;
}

abbrev pub beneath_root : How
beneath_root = record { path_only = true; directory = false; no_follow = false; beneath = true }

abbrev pub is_directory : FileType → Bool
is_directory directory_type = true
is_directory t = false

abbrev pub is_regular : FileType → Bool
is_regular regular_type = true
is_regular t = false

abbrev pub is_character : FileType → Bool
is_character character_type = true
is_character t = false

abbrev pub same_type : FileType → FileType → Bool
same_type directory_type t = is_directory t
same_type regular_type t = is_regular t
same_type character_type t = is_character t
same_type other_type other_type = true
same_type other_type t = false

module _ (k : Kernel) where
  -- `openSecure` from the current directory, with `O_PATH` and `O_DIRECTORY` or not.
  unfoldable pub open_secure : Text → Bool → Exec Fd
  unfolding acquire
  open_secure path directory = acquire k (openat2 none path (secure directory))

  -- `openTarget`.
  unfoldable pub open_target : Fd → Text → Exec Fd
  unfolding acquire validate_isolation_path ◌=?◌
  open_target root path = do
    lift (validate_isolation_path path)
    lift (reject (clean path =? codes "/") (unsafe_path path))
    acquire k (openat2 (some root) (trim_prefix (clean path) (codes "/")) beneath_root)

  -- `requireDirectory`, `requireRegularFile`, `requireSameType` and `requireSameObject`.
  unfoldable pub require_directory : Fd → Exec (Unit {0})
  unfolding fstat
  require_directory fd = do
    stat ← fstat k fd
    lift (reject (not (is_directory stat.kind)) wrong_type)

  unfoldable pub require_regular_file : Fd → Exec (Unit {0})
  unfolding fstat
  require_regular_file fd = do
    stat ← fstat k fd
    lift (reject (not (is_regular stat.kind)) wrong_type)

  unfoldable pub require_same_type : Fd → Fd → Exec (Unit {0})
  unfolding fstat
  require_same_type source target = do
    from ← fstat k source
    to ← fstat k target
    lift (reject (not (same_type from.kind to.kind)) wrong_type)
    lift (reject (not (is_directory from.kind) && not (is_regular from.kind)) wrong_type)

  unfoldable pub require_same_object : Fd → Fd → Exec (Unit {0})
  unfolding fstat
  require_same_object expected actual = do
    from ← fstat k expected
    to ← fstat k actual
    lift (reject (not (from.dev == to.dev) || not (from.ino == to.ino)) wrong_object)

  -- `cloneMount`, `setRecursiveMountAttrs` and `moveMount`.
  unfoldable pub clone_mount : Fd → Bool → Exec Fd
  unfolding acquire
  clone_mount fd recursive = acquire k (open_tree fd recursive)

  unfoldable pub set_recursive_mount_attrs : Fd → Attrs → Exec (Unit {0})
  unfolding perform
  set_recursive_mount_attrs fd attrs = perform k (mount_setattr fd attrs)

  unfoldable pub move : Fd → Fd → Exec (Unit {0})
  unfolding perform
  move source target = perform k (move_mount source target)

  -- `mountTmpfsWithMode`; an empty mode is left out.
  unfoldable pub mount_tmpfs_with_mode : Text → Exec Fd
  unfolding acquire perform using
  mount_tmpfs_with_mode mode = using (acquire k (fsopen (codes "tmpfs"))) λ context. do
    if is_empty mode then lift (ok tt) else perform k (set_string context (codes "mode") mode)
    perform k (create_context context)
    acquire k (fsmount context)

  -- `mountDevPTS`.
  unfoldable pub mount_dev_pts : Exec Fd
  unfolding acquire perform using
  mount_dev_pts = using (acquire k (fsopen (codes "devpts"))) λ context. do
    perform k (set_flag context (codes "newinstance"))
    perform k (set_string context (codes "ptmxmode") (codes "0666"))
    perform k (create_context context)
    acquire k (fsmount context)

  -- `mountOverlay`.
  unfoldable pub mount_overlay : Text → Text → Text → Exec Fd
  unfolding acquire perform using
  mount_overlay lower upper work = using (acquire k (fsopen (codes "overlay"))) λ context. do
    perform k (set_string context (codes "lowerdir+") lower)
    perform k (set_string context (codes "upperdir") upper)
    perform k (set_string context (codes "workdir") work)
    perform k (create_context context)
    acquire k (fsmount context)

  -- `mountProc`.
  unfoldable pub mount_proc : Exec Fd
  unfolding acquire perform using
  mount_proc =
      using (acquire k (fsopen (codes "proc")))
        λ context. do perform k (create_context context); acquire k (fsmount context)

  -- The tests of `attachMount` on the target that was opened again.
  unfoldable pub check_object : Option Fd → Fd → Exec (Unit {0})
  unfolding require_same_object
  check_object none attached = lift (ok tt)
  check_object (some expected) attached = require_same_object expected attached

  unfoldable pub check_filesystem : Option ℕ → Fd → Exec (Unit {0})
  unfolding fstatfs
  check_filesystem none attached = lift (ok tt)
  check_filesystem (some expected) attached = do
    found ← fstatfs k attached
    lift (reject (not (found == expected)) wrong_filesystem)

  -- `attachMount`; the expected object and filesystem type are those of no test where they are `none`.
  unfoldable pub attach_mount : Fd → Fd → Fd → Text → Option Fd → Option ℕ → Exec (Unit {0})
  unfolding move open_target using check_object check_filesystem
  attach_mount root target mount_fd target_path expected_fd expected_type = do
    move mount_fd target
    using (open_target root target_path)
        λ attached. do check_object expected_fd attached; check_filesystem expected_type attached

  -- `attachBindMount`.
  unfoldable pub attach_bind_mount : Fd → Fd → BindMount → Fd → Bool → Exec (Unit {0})
  unfolding clone_mount using set_recursive_mount_attrs attach_mount
  attach_bind_mount root target bind source is_dir = using (clone_mount source is_dir) λ mount_fd.
      do
        set_recursive_mount_attrs mount_fd
            (record { nosuid = true; nodev = true; noexec = false; rdonly = not bind.writable })
        attach_mount root target mount_fd bind.container_path (some source) none
