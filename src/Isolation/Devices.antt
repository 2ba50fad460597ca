-- ===== src/Isolation/Devices.antt =====
-- sandbox/sandbox/fs/isolation.go: the private `/dev`.
use bcs_zc241t_study_project.Prelude.{ℕ, true, false, none, some, List, [], ◌∷◌, ◌++◌, ok, codes}
use bcs_zc241t_study_project.Prelude.Run.{◌>>=◌, ◌>>◌, lift}
use bcs_zc241t_study_project.Isolation.Calls.{Fd, Attrs, symlinkat, Kernel, Exec, perform, using}
use bcs_zc241t_study_project.Isolation.Mounts.{
  clone_mount, set_recursive_mount_attrs, mount_tmpfs_with_mode, mount_dev_pts, attach_mount,
}
use bcs_zc241t_study_project.Isolation.Targets.{
  TrustedDevice, open_directory_at, create_private_dev_directory, open_or_create_target,
}

-- `TMPFS_MAGIC` and `DEVPTS_SUPER_MAGIC`.
abbrev pub tmpfs_magic : ℕ
tmpfs_magic = 0x1021994

abbrev pub devpts_magic : ℕ
devpts_magic = 0x1cd1

-- No device of the host is reached through a mount, and nothing is executed from it.
abbrev pub device_attrs : Attrs
device_attrs = record { nosuid = true; nodev = false; noexec = true; rdonly = false }

-- A device that was opened, with its descriptor.
abbrev pub HeldDevice : Type 0
HeldDevice = TrustedDevice × Fd

module _ (k : Kernel) where
  -- `attachPrivateDevice`; `filepath.Join` of `/dev` and the name of a device adds a slash.
  unfoldable pub attach_private_device : Fd → HeldDevice → Exec (Unit {0})
  unfolding open_or_create_target clone_mount set_recursive_mount_attrs attach_mount using
  attach_private_device root (device, fd) =
      let path = codes "/dev/" ++ device.name in
      using (open_or_create_target k root path false) λ target.
        using (clone_mount k fd false) λ mount_fd. do
          set_recursive_mount_attrs k mount_fd device_attrs
          attach_mount k root target mount_fd path (some fd) none

  unfoldable pub attach_devices : Fd → List HeldDevice → Exec (Unit {0})
  unfolding attach_private_device
  attach_devices root [] = lift (ok tt)
  attach_devices root (device ∷ devices) = do
    attach_private_device root device
    attach_devices root devices

  -- The links in the order of the source, from targets to names.
  unfoldable pub make_links : Fd → Exec (Unit {0})
  unfolding perform
  make_links dir = do
    perform k (symlinkat (codes "/proc/self/fd") dir (codes "fd"))
    perform k (symlinkat (codes "/proc/self/fd/0") dir (codes "stdin"))
    perform k (symlinkat (codes "/proc/self/fd/1") dir (codes "stdout"))
    perform k (symlinkat (codes "/proc/self/fd/2") dir (codes "stderr"))

  unfoldable pub attach_dev_pts : Fd → Fd → Exec (Unit {0})
  unfolding mount_dev_pts set_recursive_mount_attrs attach_mount using
  attach_dev_pts root target = using (mount_dev_pts k) λ mount_fd. do
    set_recursive_mount_attrs k mount_fd device_attrs
    attach_mount k root target mount_fd (codes "/dev/pts") none (some devpts_magic)

  -- What `/dev` is filled with.
  unfoldable pub fill_private_dev : Fd → List HeldDevice → Fd → Exec (Unit {0})
  unfolding make_links create_private_dev_directory attach_devices attach_dev_pts perform using
  fill_private_dev root devices dir = do
    make_links dir
    shm ← create_private_dev_directory k dir (codes "shm") 0o1777
    using (create_private_dev_directory k dir (codes "pts") 0o755) λ pts. do
      attach_devices root devices
      attach_dev_pts root pts
      perform k (symlinkat (codes "pts/ptmx") dir (codes "ptmx"))

  -- `attachPrivateDev`.
  unfoldable pub attach_private_dev : Fd → Fd → List HeldDevice → Exec (Unit {0})
  unfolding mount_tmpfs_with_mode set_recursive_mount_attrs attach_mount open_directory_at
      fill_private_dev using
  attach_private_dev root target devices =
      using (mount_tmpfs_with_mode k (codes "0755")) λ mount_fd. do
        set_recursive_mount_attrs k mount_fd device_attrs
        attach_mount k root target mount_fd (codes "/dev") none (some tmpfs_magic)
        using (open_directory_at k root (codes "dev")) (fill_private_dev root devices)
