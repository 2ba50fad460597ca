-- ===== src/Isolation/Sources.antt =====
-- sandbox/sandbox/fs/isolation.go: the devices of the host that are opened before the private root is made.
use bcs_zc241t_study_project.Prelude.{Bool, false, none, List, [], ◌∷◌, ◌++◌, Result, ok, err}
use bcs_zc241t_study_project.Isolation.Calls.{close, Log, Kernel, FsError, Exec}
use bcs_zc241t_study_project.Isolation.Mounts.{open_secure}
use bcs_zc241t_study_project.Isolation.Targets.{
  TrustedDevice, trusted_device_sources, require_character_device,
}
use bcs_zc241t_study_project.Isolation.Devices.{HeldDevice}

-- `closeTrustedDeviceSources`, which ignores the errors of `close`. A device that is not open has no
-- descriptor and is not in the list.
unfoldable pub close_trusted_device_sources : List HeldDevice → Log → Log
close_trusted_device_sources [] log = log
close_trusted_device_sources ((device, fd) ∷ held) log =
    close_trusted_device_sources held (record { call = close fd; opened = none } ∷ log)

-- A step of the loop: a failure closes what is held.
abbrev pub or_close :
    {A B : Type 0}
    → List HeldDevice
    → Result FsError A × Log
    → (A → Exec B)
    → Result FsError B × Log
or_close held (ok a, log) next = next a log
or_close held (err e, log) next = (err e, close_trusted_device_sources held log)

module _ (k : Kernel) where
  -- The loop, with the devices that are held so far.
  unfoldable pub open_devices : List HeldDevice → List TrustedDevice → Exec (List HeldDevice)
  unfolding open_secure require_character_device close_trusted_device_sources
  open_devices held [] log = (ok held, log)
  open_devices held (device ∷ devices) log =
      or_close held (open_secure k device.path false log) λ fd log'.
        let held' = held ++ (device, fd) ∷ [] in
        or_close held' (require_character_device k fd device log') λ _. open_devices held' devices

  -- `openTrustedDeviceSources`.
  unfoldable pub open_trusted_device_sources : Bool → Exec (List HeldDevice)
  unfolding open_devices trusted_device_sources
  open_trusted_device_sources interactive = open_devices [] (trusted_device_sources interactive)
