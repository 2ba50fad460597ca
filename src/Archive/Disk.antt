-- ===== src/Archive/Disk.antt =====
-- What sandbox/sandbox/rootfs/extract.go takes from the archive library and from the operating system.
-- Both are parameters; the answers of the system may depend on all changes so far.
use bcs_zc241t_study_project.Prelude.{ℕ, Bool, true, false, Option, List, ◌∷◌, Result, ok, err}
use bcs_zc241t_study_project.Prelude.Int.{ℤ}
use bcs_zc241t_study_project.Prelude.Run.{Run}
use bcs_zc241t_study_project.Text.{Text}
use bcs_zc241t_study_project.Archive.Names.{Kind, Entries, NameError, ConflictError, LinkError}

-- `tar.Header`, as far as it is read; the type flag is told apart from the two that matter.
pub data Flag : Type 0 where
  flag_char flag_link flag_other : Flag

pub record Header : Type 0 where
  pub flag : Flag
  pub size : ℤ
  pub major : ℤ
  pub minor : ℤ

-- The bits of `fs.FileMode` that are read, and the permissions.
pub record Mode : Type 0 where
  pub is_dir : Bool
  pub is_symlink : Bool
  pub is_char_device : Bool
  pub is_regular : Bool
  pub perm : ℕ

-- The data of a file: how many bytes come, and which calls fail; `extra` says that a read behind the
-- copied bytes yields one more.
pub record Stream : Type 0 where
  pub available : ℕ
  pub copies : Bool
  pub extra : Bool
  pub finishes : Bool
  pub closes : Bool

-- `archives.FileInfo`.
pub record ArchiveEntry : Type 0 where
  pub name : Text
  pub mode : Mode
  pub header : Option Header
  pub size : ℤ
  pub link_target : Text
  pub stream : Option Stream

pub data Action : Type 0 where
  make_dir : Text → ℕ → Action
  create : Text → ℕ → Action
  fill : Text → ℕ → Action
  set_mode : Text → ℕ → Action
  close remove : Text → Action
  make_symlink make_link : Text → Text → Action

pub data Stat : Type 0 where
  missing unknown : Stat
  found : Kind → Stat

-- The actions, the last one first, each with whether it succeeded.
abbrev pub Log : Type 0
Log = List (Action × Bool)

pub record Disk : Type 0 where
  pub lstat : Log → Text → Stat
  pub succeeds : Log → Action → Bool

pub data ExtractError : Type 0 where
  cannot_open unknown_format not_an_archive broken_archive : ExtractError
  too_many_entries : ExtractError
  bad_name : NameError → ExtractError
  root_not_directory : ExtractError
  untrusted_device non_empty_device unknown_device wrong_device unsupported_type : ExtractError
  conflict : ConflictError → ExtractError
  parent_unknown parent_not_directory directory_unknown directory_conflict : ExtractError
  file_too_large total_too_large not_opened size_changed more_data not_finished not_closed :
      ExtractError
  bad_link : LinkError → ExtractError
  symlink_conflict symlink_unknown : ExtractError
  link_target_invalid link_target_missing link_target_not_regular : ExtractError
  failed : Action → ExtractError
  joined : ExtractError → ExtractError → ExtractError

-- The variables of `extractArchiveWithProgress`, and the log.
pub record World : Type 0 where
  pub log : Log
  pub entries : Entries
  pub modes : List (Text × ℕ)
  pub extracted : ℕ
  pub largest : ℕ
  pub count : ℕ

abbrev pub Extract : Type 0 → Type 0
Extract = Run World ExtractError

abbrev pub outcome : Bool → Action → Result ExtractError (Unit {0})
outcome true a = ok tt
outcome false a = err (failed a)

module _ (disk : Disk) where
  -- An action of the system.
  unfoldable pub act : Action → Extract (Unit {0})
  act a w =
      let able = disk.succeeds w.log a in (outcome able a, record w { log = (a, able) ∷ w.log })

  unfoldable pub stat : Text → Extract Stat
  stat path w = (ok (disk.lstat w.log path), w)
