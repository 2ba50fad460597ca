-- ===== src/Archive/Extract.antt =====
-- sandbox/sandbox/rootfs/extract.go: how the entries of an archive are extracted. The progress reports
-- are left out: they change nothing else.
use Prim.Native.Nat.{bit_or}
use bcs_zc241t_study_project.Prelude.{
  ℕ, Bool, false, not, ◌||◌, Option, none, some, List, [], ◌∷◌, ◌++◌, Result, ok, err, wrap, ◌==◌,
  ◌=?◌, if◌then◌else◌, codes,
}
use bcs_zc241t_study_project.Prelude.Int.{ℤ, pos, negsuc}
use bcs_zc241t_study_project.Prelude.Run.{◌>>=◌, ◌>>◌, lift}
use bcs_zc241t_study_project.Text.{Text, split}
use bcs_zc241t_study_project.Paths.{slash, dir, is_dot}
use bcs_zc241t_study_project.Archive.Names.{
  Kind, directory, regular, symlink, hardlink, device, is_directory, normalize_archive_path,
  validate_internal_target,
}
use bcs_zc241t_study_project.Archive.Disk.{
  flag_char, flag_link, flag_other, Header, ArchiveEntry, make_dir, make_symlink, make_link, Stat,
  missing, unknown, found, Disk, ExtractError, Extract, act, stat, bad_name, untrusted_device,
  non_empty_device, unknown_device, wrong_device, unsupported_type, parent_unknown,
  parent_not_directory, directory_unknown, directory_conflict, bad_link, symlink_conflict,
  symlink_unknown, link_target_invalid, link_target_missing, link_target_not_regular,
}

-- `rootfsLimits`.
pub record RootfsLimits : Type 0 where
  pub max_total_bytes : ℕ
  pub max_file_bytes : ℕ
  pub max_entries : ℕ

-- `extractionStats`.
pub record ExtractionStats : Type 0 where
  pub total_bytes : ℕ
  pub largest_file_bytes : ℕ
  pub entries : ℕ

-- `standardDevicePlaceholders`.
abbrev pub placeholders : List (Text × ℕ × ℕ)
placeholders =
    (codes "dev/console", 5, 1)
    ∷ (codes "dev/full", 1, 7)
    ∷ (codes "dev/null", 1, 3)
    ∷ (codes "dev/ptmx", 5, 2)
    ∷ (codes "dev/random", 1, 8)
    ∷ (codes "dev/tty", 5, 0)
    ∷ (codes "dev/urandom", 1, 9)
    ∷ (codes "dev/zero", 1, 5)
    ∷ []

unfoldable pub find_placeholder : Text → List (Text × ℕ × ℕ) → Option (ℕ × ℕ)
unfolding ◌=?◌
find_placeholder name [] = none
find_placeholder name ((n, major, minor) ∷ ps) =
    let rest = find_placeholder name ps in if n =? name then some (major, minor) else rest

abbrev is_number : ℤ → ℕ → Bool
is_number (pos m) n = m == n
is_number (negsuc m) n = false

unfoldable pub check_device : Text → Header → Option (ℕ × ℕ) → Result ExtractError Kind
check_device name h none = err unknown_device
check_device name h (some (major, minor)) =
    if not (is_number h.major major) || not (is_number h.minor minor)
    then err wrong_device
    else ok device

unfoldable pub device_kind : Text → Option Header → Result ExtractError Kind
unfolding check_device find_placeholder
device_kind name none = err untrusted_device
device_kind name (some h) = elim h.flag [
  | flag_char ↦
      if not (is_number h.size 0)
      then err non_empty_device
      else check_device name h (find_placeholder name placeholders)
  | flag_link ↦ err untrusted_device
  | flag_other ↦ err untrusted_device
]

abbrev regular_kind : Option Header → Kind
regular_kind none = regular
regular_kind (some h) = elim h.flag [
  | flag_char ↦ regular
  | flag_link ↦ hardlink
  | flag_other ↦ regular
]

-- `archiveEntryKind`.
unfoldable pub archive_entry_kind : Text → ArchiveEntry → Result ExtractError Kind
unfolding device_kind
archive_entry_kind name e =
    if e.mode.is_dir
    then ok directory
    else if e.mode.is_symlink
    then ok symlink
    else if e.mode.is_char_device
    then device_kind name e.header
    else if not e.mode.is_regular
    then err unsupported_type
    else ok (regular_kind e.header)

-- `filepathJoin`; the separator is the slash.
abbrev pub file_path : Text → Text → Text
file_path base relative = base ++ slash ∷ relative

abbrev pub nothing : Extract (Unit {0})
nothing = lift (ok tt)

module _ (disk : Disk) where
  abbrev pub enter_parent : Text → Stat → Extract (Unit {0})
  enter_parent path missing = act disk (make_dir path 448)
  enter_parent path unknown = lift (err parent_unknown)
  enter_parent path (found kind) =
      if is_directory kind then nothing else lift (err parent_not_directory)

  -- The loop of `ensureParentDirectories`.
  unfoldable pub ensure_components : Text → List Text → Extract (Unit {0})
  unfolding act stat
  ensure_components current [] = nothing
  ensure_components current (c ∷ cs) = do
    s ← stat disk (file_path current c)
    enter_parent (file_path current c) s
    ensure_components (file_path current c) cs

  -- `ensureParentDirectories`.
  unfoldable pub ensure_parent_directories : Text → Text → Extract (Unit {0})
  unfolding ensure_components dir is_dot split
  ensure_parent_directories destination name =
      if is_dot (dir name) then nothing else ensure_components destination (split slash (dir name))

  abbrev pub enter_directory : Text → ℕ → Stat → Extract (Unit {0})
  enter_directory path perm missing = act disk (make_dir path (bit_or perm 448))
  enter_directory path perm unknown = lift (err directory_unknown)
  enter_directory path perm (found kind) =
      if is_directory kind then nothing else lift (err directory_conflict)

  abbrev pub add_mode : Text → ℕ → Extract (Unit {0})
  add_mode name perm w = (ok tt, record w { modes = (name, perm) ∷ w.modes })

  -- `extractDirectory`: 448 is 0700.
  unfoldable pub extract_directory : Text → Text → ℕ → Extract (Unit {0})
  unfolding act stat
  extract_directory destination name perm = do
    s ← stat disk (file_path destination name)
    enter_directory (file_path destination name) perm s
    add_mode name perm

  abbrev pub place_symlink : Text → Text → Stat → Extract (Unit {0})
  place_symlink path target missing = act disk (make_symlink target path)
  place_symlink path target unknown = lift (err symlink_unknown)
  place_symlink path target (found kind) = lift (err symlink_conflict)

  -- `extractSymlink`, behind `validateInternalTarget`.
  unfoldable pub extract_symlink : Text → Text → Text → Extract (Unit {0})
  unfolding act stat validate_internal_target
  extract_symlink destination name target = do
    lift (wrap bad_link (validate_internal_target name target))
    s ← stat disk (file_path destination name)
    place_symlink (file_path destination name) target s

  abbrev pub place_link : Text → Text → Stat → Extract (Unit {0})
  place_link path target (found regular) = act disk (make_link target path)
  place_link path target missing = lift (err link_target_missing)
  place_link path target unknown = lift (err link_target_missing)
  place_link path target (found kind) = lift (err link_target_not_regular)

  abbrev pub link_name : Result ExtractError (Option Text) → Result ExtractError Text
  link_name (ok (some name)) = ok name
  link_name (ok none) = err link_target_invalid
  link_name (err e) = err e

  -- `extractHardlink`.
  unfoldable pub extract_hardlink : Text → Text → Text → Extract (Unit {0})
  unfolding act stat normalize_archive_path
  extract_hardlink destination name target = do
    normalized ← lift (link_name (wrap bad_name (normalize_archive_path target)))
    s ← stat disk (file_path destination normalized)
    place_link (file_path destination name) (file_path destination normalized) s
