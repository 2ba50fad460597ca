-- ===== src/Isolation/Targets.antt =====
-- sandbox/sandbox/fs/isolation.go: the sources of mounts, and targets that may have to be made.
use bcs_zc241t_study_project.Prelude.{
  ℕ, Bool, true, false, not, ◌&&◌, ◌||◌, none, some, List, [], ◌∷◌, ◌++◌, Result, ok, err, reject,
  ◌==◌, ◌=?◌, if◌then◌else◌, codes,
}
use bcs_zc241t_study_project.Prelude.Run.{◌>>=◌, ◌>>◌, lift}
use bcs_zc241t_study_project.Text.{Text, is_empty, trim_prefix, contains_byte, split}
use bcs_zc241t_study_project.Paths.{clean, is_dot, is_dot_dot}
use bcs_zc241t_study_project.Isolation.Calls.{
  Fd, Errno, enoent, eexist, openat2, create_file, close, mkdirat, fchmod, Log, Kernel, FsError,
  refused, unsafe_path, unsafe_component, wrong_type, wrong_device, Exec, perform, acquire, fstat,
}
use bcs_zc241t_study_project.Isolation.Mounts.{
  validate_isolation_path, beneath_root, is_directory, is_regular, is_character, open_secure,
  require_directory, require_regular_file,
}

-- `trustedDevice`, without the descriptor.
pub record TrustedDevice : Type 0 where
  pub name : Text
  pub path : Text
  pub major : ℕ
  pub minor : ℕ

-- `privateDeviceSources` and `interactiveDeviceSource`.
abbrev pub private_device_sources : List TrustedDevice
private_device_sources =
    record { name = codes "null"; path = codes "/dev/null"; major = 1; minor = 3 }
    ∷ record { name = codes "zero"; path = codes "/dev/zero"; major = 1; minor = 5 }
    ∷ record { name = codes "full"; path = codes "/dev/full"; major = 1; minor = 7 }
    ∷ record { name = codes "random"; path = codes "/dev/random"; major = 1; minor = 8 }
    ∷ record { name = codes "urandom"; path = codes "/dev/urandom"; major = 1; minor = 9 }
    ∷ []

abbrev pub interactive_device_source : TrustedDevice
interactive_device_source = record {
  name = codes "tty";
  path = codes "/dev/tty";
  major = 5;
  minor = 0;
}

-- `trustedDeviceSources`.
unfoldable pub trusted_device_sources : Bool → List TrustedDevice
trusted_device_sources interactive =
    private_device_sources ++ (if interactive then interactive_device_source ∷ [] else [])

-- `errors.Is(err, errno)` on the error of a call.
abbrev pub is_errno : Errno → FsError → Bool
is_errno errno (refused c e) = e == errno
is_errno errno e = false

-- A failure with this error number is passed over.
abbrev pub tolerate : Errno → Result FsError (Unit {0}) × Log → Result FsError (Unit {0}) × Log
tolerate errno (ok _, log) = (ok tt, log)
tolerate errno (err e, log) = if is_errno errno e then (ok tt, log) else (err e, log)

abbrev pub is_nil : List Text → Bool
is_nil [] = true
is_nil (part ∷ rest) = false

-- A descriptor is closed where what follows fails.
abbrev pub close_on_error : {A : Type 0} → Fd → Result FsError A × Log → Result FsError A × Log
close_on_error fd (ok a, log) = (ok a, log)
close_on_error fd (err e, log) = (err e, record { call = close fd; opened = none } ∷ log)

unfoldable pub keeping : {A : Type 0} → Exec Fd → (Fd → Exec A) → Exec A
keeping m body = m >>= λ fd log. close_on_error fd (body fd log)

module _ (k : Kernel) where
  -- `openBindSource`: the descriptor, and whether it is a directory.
  unfoldable pub open_bind_source : Text → Exec (Fd × Bool)
  unfolding validate_isolation_path open_secure keeping fstat
  open_bind_source path = do
    lift (validate_isolation_path path)
    keeping (open_secure k path false) λ fd. do
      stat ← fstat k fd
      lift (reject (not (is_directory stat.kind) && not (is_regular stat.kind)) wrong_type)
      lift (ok (fd, is_directory stat.kind))

  -- `requireCharacterDevice`.
  unfoldable pub require_character_device : Fd → TrustedDevice → Exec (Unit {0})
  unfolding fstat
  require_character_device fd device = do
    stat ← fstat k fd
    lift (reject (not (is_character stat.kind)) wrong_type)
    lift
        (reject (not (stat.major == device.major) || not (stat.minor == device.minor)) wrong_device)

  -- `openSecureBeneath` and `openDirectoryAt`.
  unfoldable pub open_secure_beneath : Fd → Text → Exec Fd
  unfolding acquire
  open_secure_beneath dir path = acquire k (openat2 (some dir) path beneath_root)

  unfoldable pub open_directory_at : Fd → Text → Exec Fd
  unfolding acquire ◌=?◌
  open_directory_at dir name = do
    lift (
        reject (is_empty name || contains_byte b'/' name || is_dot name || is_dot_dot name)
          unsafe_component)
    acquire k (
        openat2 (some dir) name
          (record { path_only = false; directory = true; no_follow = true; beneath = true }))

  -- `createPrivateDevDirectory`.
  unfoldable pub create_private_dev_directory : Fd → Text → ℕ → Exec Fd
  unfolding perform open_directory_at keeping require_directory
  create_private_dev_directory parent name mode = do
    λ log. tolerate eexist (perform k (mkdirat parent name mode) log)
    keeping (open_directory_at parent name)
        λ fd. do require_directory k fd; perform k (fchmod fd mode); lift (ok fd)

  -- The file that is created is closed at once; one that is there already is left.
  abbrev pub after_creation : Result FsError Fd × Log → Result FsError (Unit {0}) × Log
  after_creation (ok created, log) = perform k (close created) log
  after_creation (err e, log) = if is_errno eexist e then (ok tt, log) else (err e, log)

  -- A missing component is made: a file if it is the last one of a file, else a directory.
  unfoldable pub make_component : Fd → Text → Bool → Exec (Unit {0})
  unfolding perform acquire
  make_component dir part false = λ log. tolerate eexist (perform k (mkdirat dir part 0o755) log)
  make_component dir part true = λ log. after_creation (acquire k (create_file dir part 0o644) log)

  -- A component that is not there is made and opened.
  abbrev pub or_made : Fd → Text → Bool → Result FsError Fd × Log → Result FsError Fd × Log
  or_made dir part as_file (ok fd, log) = (ok fd, log)
  or_made dir part as_file (err e, log) =
      if is_errno enoent e
      then (make_component dir part as_file >> open_secure_beneath dir part) log
      else (err e, log)

  unfoldable pub open_component : Fd → Text → Bool → Exec Fd
  unfolding open_secure_beneath make_component
  open_component dir part as_file log = or_made dir part as_file (open_secure_beneath dir part log)

  -- The deferred function: the descriptor is closed unless it is the one of the root.
  abbrev pub close_owned : Bool → Fd → Log → Log
  close_owned true fd log = record { call = close fd; opened = none } ∷ log
  close_owned false fd log = log

  abbrev pub finish : Bool → Fd → Result FsError (Unit {0}) × Log → Result FsError Fd × Log
  finish owned fd (ok _, log) = (ok fd, log)
  finish owned fd (err e, log) = (err e, close_owned owned fd log)

  -- The step from a component to the next one, which closes the one before.
  abbrev pub leave : Bool → Fd → Fd → Exec Fd → Exec Fd
  leave false current fd next log = next log
  leave true current fd next log = left (perform k (close current) log)
    where
      left : Result FsError (Unit {0}) × Log → Result FsError Fd × Log
      left (ok _, log') = next log'
      left (err e, log') = (
        err e,
        record { call = close current; opened = none }
            ∷ record { call = close fd; opened = none }
            ∷ log',
      )

  abbrev pub proceed :
      Bool → Fd → (Fd → Exec Fd) → Result FsError Fd × Log → Result FsError Fd × Log
  proceed owned current next (ok fd, log) = leave owned current fd (next fd) log
  proceed owned current next (err e, log) = (err e, close_owned owned current log)

  -- The loop of `openOrCreateTarget`, from `current` on, which is closed if it is `owned`.
  unfoldable pub walk : Bool → Bool → Fd → List Text → Exec Fd
  unfolding open_component require_directory require_regular_file
  walk directory owned current [] log =
      finish owned current
        ((if directory then require_directory k current else require_regular_file k current) log)
  walk directory owned current (part ∷ rest) log =
      proceed owned current (λ fd. walk directory true fd rest)
        (open_component current part (is_nil rest && not directory) log)

  -- `openOrCreateTarget`.
  unfoldable pub open_or_create_target : Fd → Text → Bool → Exec Fd
  unfolding validate_isolation_path walk ◌=?◌
  open_or_create_target root path directory = do
    lift (validate_isolation_path path)
    lift (reject (clean path =? codes "/") (unsafe_path path))
    walk directory false root (split b'/' (trim_prefix (clean path) (codes "/")))
