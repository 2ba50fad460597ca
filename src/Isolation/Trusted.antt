-- ===== src/Isolation/Trusted.antt =====
-- What `openTrustedDeviceSources` returns.
use bcs_zc241t_study_project.Prelude.{
  ◌≡◌, refl, Bool, true, false, not, ◌||◌, Option, none, some, List, [], ◌∷◌, ◌++◌, append-nil,
  append_assoc, Result, ok, err, ◌==◌, reject, ==_iff,
}
use bcs_zc241t_study_project.Prelude.Run.{◌>>◌, lift, continue}
use bcs_zc241t_study_project.Isolation.Calls.{
  Fd, Log, Kernel, FsError, Exec, Stat, no_stat, fstat, answered, wrong_type, wrong_device,
  character_type, directory_type, regular_type, other_type, FileType,
}
use bcs_zc241t_study_project.Isolation.Mounts.{open_secure, is_character}
use bcs_zc241t_study_project.Isolation.Targets.{
  TrustedDevice, trusted_device_sources, require_character_device,
}
use bcs_zc241t_study_project.Isolation.Devices.{HeldDevice}
use bcs_zc241t_study_project.Isolation.Sources.{or_close, open_devices, open_trusted_device_sources}
use bcs_zc241t_study_project.Isolation.Balance.{one}

-- What `requireCharacterDevice` makes of the kernel's answer.
abbrev judge : TrustedDevice → Stat → Exec (Unit {0})
judge device stat = do
  lift (reject (not (is_character stat.kind)) wrong_type)
  lift (reject (not (stat.major == device.major) || not (stat.minor == device.minor)) wrong_device)

is_character-eq : (kind : FileType) → is_character kind ≡ true → kind ≡ character_type
is_character-eq character_type h = refl
is_character-eq directory_type h = cc
is_character-eq regular_type h = cc
is_character-eq other_type h = cc

chain-ok :
    (character major minor : Bool) (log log' : Log)
    → (lift (reject (not character) wrong_type)
          >> lift (reject (not major || not minor) wrong_device))
        log
      ≡ (ok tt, log')
    → (character ≡ true) × (major ≡ true) × (minor ≡ true)
chain-ok true true true log log' h = (refl, refl, refl)
chain-ok true true false log log' h = cc
chain-ok true false minor log log' h = cc
chain-ok false major minor log log' h = cc

judge-ok :
    (device : TrustedDevice) (stat : Stat) (log log' : Log)
    → judge device stat log ≡ (ok tt, log')
    → (stat.kind ≡ character_type) × (stat.major ≡ device.major) × (stat.minor ≡ device.minor)
judge-ok device stat log log' h =
    let (character, major, minor) =
      chain-ok (is_character stat.kind) (stat.major == device.major) (stat.minor == device.minor)
        log log' h in
    (
      is_character-eq stat.kind character,
      (==_iff stat.major device.major).0 major,
      (==_iff stat.minor device.minor).0 minor,
    )

module _ (k : Kernel) where
  -- A descriptor for which the kernel reported, at some time, a character device with the numbers of the
  -- device.
  abbrev pub IsTrusted : HeldDevice → Type 0
  IsTrusted (device, fd) =
      (log : Log) × (stat : Stat) × (k.stat log fd ≡ some stat)
      × (stat.kind ≡ character_type)
      × (stat.major ≡ device.major)
      × (stat.minor ≡ device.minor)

  -- All of these, for the devices of a list in its order.
  unfoldable pub AreTrusted : List TrustedDevice → List HeldDevice → Type 0
  AreTrusted [] [] = Unit
  AreTrusted [] (h ∷ held) = ⊥
  AreTrusted (d ∷ devices) [] = ⊥
  AreTrusted (d ∷ devices) ((device, fd) ∷ held) =
      (device ≡ d) × IsTrusted (device, fd) × AreTrusted devices held

  require_character_device-IsTrusted :
      (fd : Fd) (device : TrustedDevice) (log log' : Log)
      → require_character_device k fd device log ≡ (ok tt, log')
      → IsTrusted (device, fd)
  unfolding require_character_device fstat answered
  require_character_device-IsTrusted fd device log log' h = read (k.stat log fd) refl h
    where
      read :
          (a : Option Stat)
          → k.stat log fd ≡ a
          → continue (answered a (no_stat fd), log) (judge device) ≡ (ok tt, log')
          → IsTrusted (device, fd)
      read none same h = cc
      read (some stat) same h =
          let (character, major, minor) = judge-ok device stat log log' h in
          (log, stat, same, character, major, minor)

  AreTrusted-append :
      (devices : List TrustedDevice) (held : List HeldDevice) (device : TrustedDevice) (fd : Fd)
      → AreTrusted devices held
      → IsTrusted (device, fd)
      → AreTrusted (devices ++ device ∷ []) (held ++ (device, fd) ∷ [])
  unfolding AreTrusted
  AreTrusted-append [] [] device fd all one = (refl, one, tt)
  AreTrusted-append [] (h ∷ held) device fd all one = elim all [ ]
  AreTrusted-append (d ∷ devices) [] device fd all one = elim all [ ]
  AreTrusted-append (d ∷ devices) ((e, g) ∷ held) device fd (same, first, rest) one =
      (same, first, AreTrusted-append devices held device fd rest one)

  open_devices-AreTrusted :
      (done : List TrustedDevice) (held : List HeldDevice) (devices : List TrustedDevice)
      (log log' : Log) (all : List HeldDevice)
      → AreTrusted done held
      → open_devices k held devices log ≡ (ok all, log')
      → AreTrusted (done ++ devices) all
  unfolding open_devices
  open_devices-AreTrusted done held [] log log' all before h =
      rw (append-nil done) (rw held_all before)
    where
      held_all : all ≡ held
      held_all = cc
  open_devices-AreTrusted done held (device ∷ devices) log log' all before h =
      opened
        (λ fd m longer.
          open_devices-AreTrusted (done ++ device ∷ []) (held ++ (device, fd) ∷ []) devices m log'
            all longer)
        (open_secure k device.path false log).0 (open_secure k device.path false log).1 h
    where
      Again : Type 0
      Again =
          (fd : Fd) (m : Log)
          → AreTrusted (done ++ device ∷ []) (held ++ (device, fd) ∷ [])
          → open_devices k (held ++ (device, fd) ∷ []) devices m ≡ (ok all, log')
          → AreTrusted ((done ++ device ∷ []) ++ devices) all

      next : Fd → Exec (List HeldDevice)
      next fd log₁ =
          or_close (held ++ (device, fd) ∷ []) (require_character_device k fd device log₁)
            λ _. open_devices k (held ++ (device, fd) ∷ []) devices

      checked :
          Again
          → (fd : Fd) (r : Result FsError (Unit {0})) (l m : Log)
          → require_character_device k fd device l ≡ (r, m)
          → or_close
              (held ++ (device, fd) ∷ [])
              (r, m)
              (λ _. open_devices k (held ++ (device, fd) ∷ []) devices)
            ≡ (ok all, log')
          → AreTrusted (done ++ device ∷ devices) all
      checked again fd (ok _) l m same h =
          let longer =
            AreTrusted-append done held device fd before
              (require_character_device-IsTrusted fd device l m same) in
          rw (← append_assoc done (device ∷ []) devices) (again fd m longer h)
      checked again fd (err e) l m same h = cc

      opened :
          Again
          → (r : Result FsError Fd) (l : Log) → or_close held (r, l) next ≡ (ok all, log')
          → AreTrusted (done ++ device ∷ devices) all
      opened again (ok fd) l h =
          checked again fd (require_character_device k fd device l).0 l
            (require_character_device k fd device l).1 refl h
      opened again (err e) l h = cc

  -- The devices that `openTrustedDeviceSources` returns are those of the table of the program, in its
  -- order, and for the descriptor of each the kernel reported a character device with the numbers that the
  -- table gives it.
  pub open_trusted_device_sources-AreTrusted :
      (interactive : Bool) (log log' : Log) (held : List HeldDevice)
      → open_trusted_device_sources k interactive log ≡ (ok held, log')
      → AreTrusted (trusted_device_sources interactive) held
  unfolding open_trusted_device_sources AreTrusted
  open_trusted_device_sources-AreTrusted interactive log log' held h =
      open_devices-AreTrusted [] [] (trusted_device_sources interactive) log log' held tt h
