-- ===== src/Isolation/Calls.antt =====
-- The system calls of sandbox/sandbox/fs/isolation.go. The kernel's answers are a parameter: they may
-- depend on all calls so far. Descriptors are numbered in the order in which they are opened.
use bcs_zc241t_study_project.Prelude.{
  ℕ, Bool, Option, none, some, List, ◌∷◌, Result, ok, err, length,
}
use bcs_zc241t_study_project.Prelude.Run.{Run, ◌>>=◌}
use bcs_zc241t_study_project.Text.{Text}

abbrev pub Fd : Type 0
Fd = ℕ

abbrev pub Errno : Type 0
Errno = ℕ

abbrev pub enoent : Errno
enoent = 2

abbrev pub eexist : Errno
eexist = 17

-- The flags that `Openat2` is given beyond `O_CLOEXEC`, and whether it stays beneath the directory.
pub record How : Type 0 where
  pub path_only : Bool
  pub directory : Bool
  pub no_follow : Bool
  pub beneath : Bool

-- `unix.MountAttr`, by the attributes that are set.
pub record Attrs : Type 0 where
  pub nosuid : Bool
  pub nodev : Bool
  pub noexec : Bool
  pub rdonly : Bool

-- The calls that open a descriptor are `openat2`, `create_file`, `open_file`, `fsopen`, `fsmount` and
-- `open_tree`. A directory of `none` is the current one.
pub data Call : Type 0 where
  openat2 : Option Fd → Text → How → Call
  create_file : Fd → Text → ℕ → Call
  open_file : Fd → Text → Call
  fsopen : Text → Call
  fsmount : Fd → Call
  open_tree : Fd → Bool → Call
  close : Fd → Call
  set_string : Fd → Text → Text → Call
  set_flag : Fd → Text → Call
  create_context : Fd → Call
  mkdirat : Fd → Text → ℕ → Call
  symlinkat : Text → Fd → Text → Call
  fchmod : Fd → ℕ → Call
  mount_setattr : Fd → Attrs → Call
  move_mount : Fd → Fd → Call
  unmount : Text → Call
  remove_directory : Text → Call
  make_temporary : Text → Call

-- A call, and the descriptor that it opened, if it succeeded and opens one.
pub record Entry : Type 0 where
  pub call : Call
  pub opened : Option Fd

-- The last one first.
abbrev pub Log : Type 0
Log = List Entry

pub data FileType : Type 0 where
  directory_type regular_type character_type other_type : FileType

-- `unix.Stat_t`, as far as it is read.
pub record Stat : Type 0 where
  pub kind : FileType
  pub major : ℕ
  pub minor : ℕ
  pub dev : ℕ
  pub ino : ℕ

-- The error of a call, `none` for success; the answers of `Fstat` and of `Fstatfs`; the name that
-- `MkdirTemp` finds for a directory.
pub record Kernel : Type 0 where
  pub answer : Log → Call → Option Errno
  pub stat : Log → Fd → Option Stat
  pub filesystem : Log → Fd → Option ℕ
  pub temporary : Log → Text

pub data FsError : Type 0 where
  unsafe_path : Text → FsError
  refused : Call → Errno → FsError
  no_stat : Fd → FsError
  wrong_type wrong_object wrong_filesystem wrong_device unsafe_component : FsError
  joined : FsError → FsError → FsError

abbrev pub Exec : Type 0 → Type 0
Exec = Run Log FsError

-- `fd, err := m; if err != nil { return err }; defer unix.Close(fd); body(fd)`.
unfoldable pub using : {A : Type 0} → Exec Fd → (Fd → Exec A) → Exec A
using m body = m >>= λ fd log.
    let (r, log') = body fd log in (r, record { call = close fd; opened = none } ∷ log')

unfoldable pub answered : {A : Type 0} → Option A → FsError → Result FsError A
answered none e = err e
answered (some a) e = ok a

module _ (k : Kernel) where
  -- A call that opens nothing. A descriptor is closed even where `close` reports an error.
  abbrev pub settle : Option Errno → Call → Exec (Unit {0})
  settle none c log = (ok tt, record { call = c; opened = none } ∷ log)
  settle (some e) c log = (err (refused c e), record { call = c; opened = none } ∷ log)

  unfoldable pub perform : Call → Exec (Unit {0})
  perform c log = settle (k.answer log c) c log

  -- A call that opens a descriptor.
  abbrev pub settle_open : Option Errno → Call → Exec Fd
  settle_open none c log = (ok (length log), record { call = c; opened = some (length log) } ∷ log)
  settle_open (some e) c log = (err (refused c e), record { call = c; opened = none } ∷ log)

  unfoldable pub acquire : Call → Exec Fd
  acquire c log = settle_open (k.answer log c) c log

  unfoldable pub fstat : Fd → Exec Stat
  unfolding answered
  fstat fd log = (answered (k.stat log fd) (no_stat fd), log)

  unfoldable pub fstatfs : Fd → Exec ℕ
  unfolding answered
  fstatfs fd log = (answered (k.filesystem log fd) (no_stat fd), log)
