-- ===== src/Isolation/Held.antt =====
-- What `openTrustedDeviceSources` closes.
use bcs_zc241t_study_project.Prelude.{
  ℕ, ◌+◌, ◌≡◌, Bool, false, List, [], ◌∷◌, ◌++◌, Result, ok, err, arith,
}
use bcs_zc241t_study_project.Isolation.Calls.{Fd, Log, Kernel, FsError, Exec}
use bcs_zc241t_study_project.Isolation.Mounts.{open_secure}
use bcs_zc241t_study_project.Isolation.Targets.{
  TrustedDevice, trusted_device_sources, require_character_device,
}
use bcs_zc241t_study_project.Isolation.Devices.{HeldDevice}
use bcs_zc241t_study_project.Isolation.Sources.{
  close_trusted_device_sources, or_close, open_devices, open_trusted_device_sources,
}
use bcs_zc241t_study_project.Isolation.Balance.{
  one, Left, left_by, Leaves, nothing, Left-refl, Left-close,
}
use bcs_zc241t_study_project.Isolation.Balanced.{balance, open_secure-Leaves}
use bcs_zc241t_study_project.Isolation.Owned.{Takes}
use bcs_zc241t_study_project.Isolation.Steps.{Takes-due}

-- How often a descriptor is held.
unfoldable pub holds : List HeldDevice → Fd → ℕ
holds [] x = 0
holds ((device, fd) ∷ held) x = one fd x + holds held x

holds-append :
    (held : List HeldDevice) (device : TrustedDevice) (fd x : Fd)
    → holds (held ++ (device, fd) ∷ []) x ≡ holds held x + one fd x
unfolding holds
holds-append [] device fd x = omega arith
holds-append ((d, g) ∷ held) device fd x =
    let ih = holds-append held device fd x in omega (arith, ih)

close_trusted_device_sources-Left :
    (held : List HeldDevice) (j log : Log) (x : Fd)
    → Left x (holds held x) j log
    → Left x 0 j (close_trusted_device_sources held log)
unfolding holds close_trusted_device_sources
close_trusted_device_sources-Left [] j log x p = p
close_trusted_device_sources-Left ((device, fd) ∷ held) j log x p =
    close_trusted_device_sources-Left held j _ x (Left-close x fd (holds held x) j log p)

-- A step that fails closes what is held; one that does not goes on with what it opened.
Takes-or_close :
    {A : Type 0} (given : A → Fd → ℕ) (held : List HeldDevice) (m : Exec A)
    (next : A → Exec (List HeldDevice))
    → Leaves given m
    → ((a : A) → Takes (λ x. given a x + holds held x) holds (next a))
    → Takes (holds held) holds (λ log. or_close held (m log) next)
Takes-or_close {A = A} given held m next p q = record {
  at = λ j log x due. settled (m log).0 j log (m log).1 x due (p.at log x);
}
  where
    settled :
        (r : Result FsError A) (j log after : Log) (x : Fd)
        → Left x (holds held x) j log
        → Left x (left_by given r x) log after
        → let end = or_close held (r, after) next in Left x (left_by holds end.0 x) j end.1
    settled (ok a) j log after x due p = (q a).at j after x (omega (arith, due, p))
    settled (err e) j log after x due p =
        close_trusted_device_sources-Left held j after x (omega (arith, due, p))

module _ (k : Kernel) where
  require_character_device-Leaves :
      (fd : Fd) (device : TrustedDevice) → Leaves nothing (require_character_device k fd device)
  unfolding require_character_device
  require_character_device-Leaves fd device = search balance depth 16

  open_devices-Takes :
      (held : List HeldDevice) (devices : List TrustedDevice)
      → Takes (holds held) holds (open_devices k held devices)
  unfolding open_devices
  open_devices-Takes held [] = record { at = λ j log x p. p }
  open_devices-Takes held (device ∷ devices) =
      Takes-or_close one held (open_secure k device.path false) _
        (open_secure-Leaves k device.path false)
        λ fd. record {
          at = λ j log x due.
              let held' = held ++ (device, fd) ∷ [] in
              (Takes-or_close nothing held' (require_character_device k fd device) _
                  (require_character_device-Leaves fd device)
                  λ _.
                    Takes-due k holds (holds held') _ _ (λ y. omega arith)
                      (open_devices-Takes held' devices)).at
                j log x (omega (arith, due, holds-append held device fd x));
        }

  -- `openTrustedDeviceSources`, whichever call fails: on success what it opened is what it returns, on a
  -- failure it has closed everything that it opened, once.
  pub open_trusted_device_sources-Leaves :
      (interactive : Bool) → Leaves holds (open_trusted_device_sources k interactive)
  unfolding open_trusted_device_sources holds
  open_trusted_device_sources-Leaves interactive = record {
    at = λ log x.
        (open_devices-Takes [] (trusted_device_sources interactive)).at log log x (Left-refl x log);
  }
