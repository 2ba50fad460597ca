-- ===== src/Isolation/Released.antt =====
-- The private `/dev` of isolation.go against what it leaves open.
use bcs_zc241t_study_project.Prelude.{none, some, List, [], ◌∷◌, Option, Result, ok, err, arith}
use bcs_zc241t_study_project.Prelude.Run.{◌>>=◌, continue}
use bcs_zc241t_study_project.Isolation.Calls.{Fd, close, Log, FsError, Kernel, Exec, using}
use bcs_zc241t_study_project.Isolation.Devices.{
  HeldDevice, attach_private_device, attach_devices, make_links, attach_dev_pts, fill_private_dev,
  attach_private_dev,
}
use bcs_zc241t_study_project.Isolation.Balance.{
  one, Left, left_by, Leaves, nothing, opens, Left-close, Left-trans, Leaves-bind, Left-after,
}
use bcs_zc241t_study_project.Isolation.Balanced.{
  balance, clone_mount-Leaves, set_recursive_mount_attrs-Leaves, attach_mount-Leaves,
  mount_tmpfs_with_mode-Leaves, mount_dev_pts-Leaves,
}
use bcs_zc241t_study_project.Isolation.Walked.{
  IsClosing, open_or_create_target-Leaves, create_private_dev_directory-Leaves,
  open_directory_at-Leaves,
}

module _ (k : Kernel) (closing : IsClosing k) where
  pub attach_private_device-Leaves :
      (root : Fd) (device : HeldDevice) → Leaves nothing (attach_private_device k root device)
  unfolding attach_private_device
  attach_private_device-Leaves root device =
      search
        (
          balance, open_or_create_target-Leaves, closing, clone_mount-Leaves,
          set_recursive_mount_attrs-Leaves, attach_mount-Leaves,
        )
        depth 24

  attach_devices-Leaves :
      (root : Fd) (devices : List HeldDevice) → Leaves nothing (attach_devices k root devices)
  unfolding attach_devices
  attach_devices-Leaves root [] = search balance
  attach_devices-Leaves root (device ∷ devices) =
      Leaves-bind nothing _ _ (attach_private_device-Leaves root device)
        λ _. attach_devices-Leaves root devices

  attach_dev_pts-Leaves : (root target : Fd) → Leaves nothing (attach_dev_pts k root target)
  unfolding attach_dev_pts
  attach_dev_pts-Leaves root target =
      search (balance, mount_dev_pts-Leaves, set_recursive_mount_attrs-Leaves, attach_mount-Leaves)
        depth 24

  make_links-Leaves : (dir : Fd) → Leaves nothing (make_links k dir)
  unfolding make_links
  make_links-Leaves dir = search balance depth 24

-- Code that leaves open at most one descriptor.
pub record Spills (m : Exec (Unit {0})) : Type 0 where
  pub at : (log : Log) → (extra : Option Fd) × ((x : Fd) → Left x (opens x extra) log (m log).1)

module _ {A : Type 0} where
  continue-Spills :
      (r : Result FsError A) (f : A → Exec (Unit {0})) (j log : Log)
      → ((x : Fd) → Left x (left_by nothing r x) j log)
      → ((a : A) → Spills (f a))
      → (extra : Option Fd) × ((x : Fd) → Left x (opens x extra) j (continue (r, log) f).1)
  continue-Spills (ok a) f j log p q =
      let (extra, left) = (q a).at log in (extra, λ x. Left-after x _ j log _ (p x) (left x))
  continue-Spills (err e) f j log p q = (none, p)

  Spills-bind :
      (m : Exec A) (f : A → Exec (Unit {0}))
      → Leaves nothing m
      → ((a : A) → Spills (f a))
      → Spills (m >>= f)
  Spills-bind m f p q = record {
    at = λ log. continue-Spills (m log).0 f log (m log).1 (p.at log) q;
  }

-- A descriptor that nothing closes.
dropped-Spills :
    (m : Exec Fd) (f : Fd → Exec (Unit {0}))
    → Leaves one m
    → ((fd : Fd) → Leaves nothing (f fd))
    → Spills (m >>= f)
dropped-Spills m f p q = record { at = λ log. dropped (m log).0 log (m log).1 (p.at log) }
  where
    kept :
        (r : Result FsError (Unit {0})) (fd x : Fd) (j log after : Log)
        → Left x (one fd x) j log
        → Left x (left_by nothing r x) log after
        → Left x (one fd x) j after
    kept (ok a) fd x j log after p q = omega (arith, p, q)
    kept (err e) fd x j log after p q = omega (arith, p, q)

    dropped :
        (r : Result FsError Fd) (j log : Log)
        → ((x : Fd) → Left x (left_by one r x) j log)
        → (extra : Option Fd) × ((x : Fd) → Left x (opens x extra) j (continue (r, log) f).1)
    dropped (ok fd) j log p = (some fd, λ x. kept (f fd log).0 fd x j log _ (p x) ((q fd).at log x))
    dropped (err e) j log p = (none, p)

Spills-using :
    (m : Exec Fd) (body : Fd → Exec (Unit {0}))
    → Leaves one m
    → ((fd : Fd) → Spills (body fd))
    → Spills (using m body)
unfolding using
Spills-using m body p q = record { at = λ log. used (m log).0 log (m log).1 (p.at log) }
  where
    used :
        (r : Result FsError Fd) (j log : Log)
        → ((x : Fd) → Left x (left_by one r x) j log)
        → (extra : Option Fd) × ((x : Fd)
            → Left x
                (opens x extra)
                j
                (continue
                  (r, log)
                  (λ fd log'. (
                    (body fd log').0,
                    record { call = close fd; opened = none } ∷ (body fd log').1,
                  ))).1)
    used (ok fd) j log p =
        let (extra, left) = (q fd).at log in
        (
          extra,
          λ x.
              Left-close x fd (opens x extra) j _
                (Left-trans x (one fd x) (opens x extra) j log _ (p x) (left x)),
        )
    used (err e) j log p = (none, p)

module _ (k : Kernel) (closing : IsClosing k) where
  fill_private_dev-Spills :
      (root : Fd) (devices : List HeldDevice) (dir : Fd)
      → Spills (fill_private_dev k root devices dir)
  unfolding fill_private_dev
  fill_private_dev-Spills root devices dir = Spills-bind _ _ (make_links-Leaves k closing dir) λ _.
      dropped-Spills _ _ (create_private_dev_directory-Leaves k dir _ _) λ shm.
        search
          (
            balance, create_private_dev_directory-Leaves, attach_devices-Leaves, closing,
            attach_dev_pts-Leaves,
          )
          depth 24

  -- With a kernel that closes descriptors without an error: `attachPrivateDev` leaves open at most one of
  -- the descriptors that it opens, whichever calls fail; every other one is closed as often as it was
  -- opened.
  pub attach_private_dev-Spills :
      (root target : Fd) (devices : List HeldDevice)
      → Spills (attach_private_dev k root target devices)
  unfolding attach_private_dev
  attach_private_dev-Spills root target devices =
      search
        (
          Spills-using, Spills-bind, mount_tmpfs_with_mode-Leaves, set_recursive_mount_attrs-Leaves,
          attach_mount-Leaves, open_directory_at-Leaves, fill_private_dev-Spills,
        )
        depth 24
