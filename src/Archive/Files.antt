-- ===== src/Archive/Files.antt =====
-- sandbox/sandbox/rootfs/extract.go: `extractRegularFile`, and the extraction of a whole archive.
use bcs_zc241t_study_project.Prelude.{
  ℕ, suc, ◌+◌, ◌-◌, Bool, true, false, not, ◌&&◌, ◌||◌, Option, none, some, List, [], ◌∷◌, length,
  Result, ok, err, wrap, reject, ltb, ◌==◌, ◌=?◌, if◌then◌else◌,
}
use bcs_zc241t_study_project.Prelude.Int.{pos_part, is_negative}
use bcs_zc241t_study_project.Prelude.Run.{◌>>=◌, ◌>>◌, lift}
use bcs_zc241t_study_project.Text.{Text, split}
use bcs_zc241t_study_project.Paths.{slash}
use bcs_zc241t_study_project.Archive.Names.{
  Kind, directory, regular, symlink, hardlink, device, normalize_archive_path,
  check_entry_conflicts,
}
use bcs_zc241t_study_project.Archive.Disk.{
  Stream, ArchiveEntry, Action, create, fill, set_mode, close, remove, Log, Disk, ExtractError,
  World, Extract, act, cannot_open, unknown_format, not_an_archive, broken_archive,
  too_many_entries, bad_name, root_not_directory, conflict, file_too_large, total_too_large,
  not_opened, size_changed, more_data, not_finished, not_closed, joined,
}
use bcs_zc241t_study_project.Archive.Extract.{
  RootfsLimits, ExtractionStats, archive_entry_kind, file_path, nothing, ensure_parent_directories,
  extract_directory, extract_symlink, extract_hardlink,
}

abbrev pub least : ℕ → ℕ → ℕ
least a b = if ltb b a then b else a

-- An archive, once it is opened and identified: its entries, and whether the library reads them to the
-- end.
pub data Opened : Type 0 where
  no_file no_format only_compressed : Opened
  entries_of : List ArchiveEntry → Bool → Opened

-- The test of the copied bytes against the limit and the declared size.
unfoldable pub check_count : RootfsLimits → ℕ → ℕ → ℕ → Result ExtractError (Unit {0})
check_count limits read_limit declared count =
    if ltb read_limit count
    then (if read_limit == limits.max_file_bytes then err file_too_large else err total_too_large)
    else if not (count == declared)
    then err size_changed
    else ok tt

module _ (disk : Disk) where
  -- An action whose own failure is ignored, when what precedes it has failed.
  abbrev pub on_error :
      Action → Result ExtractError (Unit {0}) × World → Result ExtractError (Unit {0}) × World
  on_error a (ok _, w) = (ok tt, w)
  on_error a (err e, w) = let (_, w') = act disk a w in (err e, w')

  -- A step with the output open: it is closed when the step fails.
  abbrev pub or_close : Text → Extract (Unit {0}) → Extract (Unit {0})
  or_close path m w = on_error (close path) (m w)

  abbrev pub add_bytes : ℕ → Extract (Unit {0})
  add_bytes n w = (ok tt, record w { extracted = w.extracted + n })

  -- The copy of `count` bytes, and the tests behind it.
  unfoldable pub copy_file : RootfsLimits → Text → ℕ → ℕ → ℕ → ℕ → Stream → Extract (Unit {0})
  unfolding act check_count
  copy_file limits path perm read_limit declared count s = do
    act disk (fill path count)
    lift (reject (not s.copies) not_finished)
    lift (check_count limits read_limit declared count)
    lift (reject s.extra more_data)
    lift (reject (not s.finishes) not_finished)
    act disk (set_mode path perm)

  -- What is done with the output of a file, from the copy to the close. `io.LimitReader` lets one byte
  -- more than the limit through.
  unfoldable pub fill_file : RootfsLimits → Text → ℕ → ℕ → ℕ → Stream → Extract (Unit {0})
  unfolding act copy_file
  fill_file limits path perm read_limit declared s = do
    or_close path
        (copy_file limits path perm read_limit declared (least s.available (suc read_limit)) s)
    act disk (close path)
    add_bytes (least s.available (suc read_limit))

  -- The deferred removal of a file that is not complete.
  abbrev pub or_remove : Text → Extract (Unit {0}) → Extract (Unit {0})
  or_remove path m w = on_error (remove path) (m w)

  -- The deferred close of the input, whose error is joined.
  abbrev pub close_input :
      Bool → Result ExtractError (Unit {0}) × World → Result ExtractError (Unit {0}) × World
  close_input true p = p
  close_input false (ok _, w) = (err not_closed, w)
  close_input false (err e, w) = (err (joined e not_closed), w)

  abbrev pub from_stream : RootfsLimits → Text → ℕ → ℕ → ℕ → Option Stream → Extract (Unit {0})
  from_stream limits path perm read_limit declared none = lift (err not_opened)
  from_stream limits path perm read_limit declared (some s) = λ w. close_input s.closes (
      (act disk (create path perm)
          >> or_remove path (fill_file limits path perm read_limit declared s))
        w)

  -- `extractRegularFile`.
  unfoldable pub extract_regular_file :
      RootfsLimits → Text → Text → ArchiveEntry → Extract (Unit {0})
  unfolding fill_file
  extract_regular_file limits destination name e w =
      let declared = pos_part e.size in
      if is_negative e.size || ltb limits.max_file_bytes declared
      then (err file_too_large, w)
      else if ltb limits.max_total_bytes w.extracted
      then (err total_too_large, w)
      else from_stream limits (file_path destination name) e.mode.perm
          (least limits.max_file_bytes (limits.max_total_bytes - w.extracted)) declared e.stream w

  abbrev pub grow_largest : ℕ → Extract (Unit {0})
  grow_largest n w = (ok tt, record w { largest = if ltb w.largest n then n else w.largest })

  -- The switch over the kinds.
  unfoldable pub extract_kind :
      RootfsLimits → Text → Text → ArchiveEntry → Kind → Extract (Unit {0})
  unfolding extract_directory extract_regular_file extract_symlink extract_hardlink
  extract_kind limits destination name e directory =
      extract_directory disk destination name e.mode.perm
  extract_kind limits destination name e regular = do
    extract_regular_file limits destination name e
    grow_largest (pos_part e.size)
  extract_kind limits destination name e symlink =
      extract_symlink disk destination name e.link_target
  extract_kind limits destination name e hardlink =
      extract_hardlink disk destination name e.link_target
  extract_kind limits destination name e device = nothing

  abbrev pub is_device : Kind → Bool
  is_device device = true
  is_device kind = false

  abbrev pub record_entry : Text → Kind → Extract (Unit {0})
  record_entry name kind w = (ok tt, record w { entries = (name, kind) ∷ w.entries })

  abbrev pub check_conflicts : Text → Kind → Extract (Unit {0})
  check_conflicts name kind w = (wrap conflict (check_entry_conflicts name kind w.entries), w)

  -- The entry of a name: the conflicts with the entries so far, the parents, the entry itself.
  unfoldable pub extract_named :
      RootfsLimits → Text → ArchiveEntry → Option Text → Extract (Unit {0})
  unfolding archive_entry_kind check_entry_conflicts ensure_parent_directories extract_kind
  extract_named limits destination e none = lift (reject (not e.mode.is_dir) root_not_directory)
  extract_named limits destination e (some name) = do
    kind ← lift (archive_entry_kind name e)
    check_conflicts name kind
    if is_device kind then nothing else ensure_parent_directories disk destination name
    extract_kind limits destination name e kind
    record_entry name kind

  abbrev pub count_entry : RootfsLimits → Extract (Unit {0})
  count_entry limits w = (
    reject (ltb limits.max_entries (suc w.count)) too_many_entries,
    record w { count = suc w.count },
  )

  -- The function that is called for each entry.
  unfoldable pub extract_entry : RootfsLimits → Text → ArchiveEntry → Extract (Unit {0})
  unfolding extract_named normalize_archive_path
  extract_entry limits destination e = do
    count_entry limits
    name ← lift (wrap bad_name (normalize_archive_path e.name))
    extract_named limits destination e name

  unfoldable pub extract_entries : RootfsLimits → Text → List ArchiveEntry → Extract (Unit {0})
  unfolding extract_entry
  extract_entries limits destination [] = nothing
  extract_entries limits destination (e ∷ es) = do
    extract_entry limits destination e
    extract_entries limits destination es

  unfoldable pub apply_modes : Text → List (Text × ℕ) → Extract (Unit {0})
  unfolding act
  apply_modes destination [] = nothing
  apply_modes destination ((name, perm) ∷ modes) = do
    act disk (set_mode (file_path destination name) perm)
    apply_modes destination modes

-- The order of the directories for their modes: deeper ones first, then by name.
unfoldable pub text_before : Text → Text → Bool
text_before s [] = false
text_before [] (d ∷ t) = true
text_before (c ∷ s) (d ∷ t) = let rest = text_before s t in ltb c d || (c == d && rest)

abbrev depth : Text → ℕ
depth name = length (split slash name)

unfoldable pub comes_first : Text → Text → Bool
unfolding text_before split
comes_first m n = ltb (depth n) (depth m) || (depth m == depth n && text_before m n)

-- A name once, with the mode that was set last, at its place.
unfoldable pub insert_mode : Text × ℕ → List (Text × ℕ) → List (Text × ℕ)
unfolding comes_first ◌=?◌
insert_mode (m, perm) [] = (m, perm) ∷ []
insert_mode (m, perm) ((n, old) ∷ modes) =
    let later = insert_mode (m, perm) modes in
    if m =? n
    then (m, perm) ∷ modes
    else if comes_first m n
    then (m, perm) ∷ (n, old) ∷ modes
    else (n, old) ∷ later

unfoldable pub sort_modes : List (Text × ℕ) → List (Text × ℕ)
unfolding insert_mode
sort_modes [] = []
sort_modes (mode ∷ modes) = insert_mode mode (sort_modes modes)

module _ (disk : Disk) where
  abbrev pub finish : Text → Bool → Extract (Unit {0})
  finish destination complete w =
      if complete
      then apply_modes disk destination (sort_modes w.modes) w
      else (err broken_archive, w)

  abbrev pub statistics : Extract ExtractionStats
  statistics w = (
    ok (record { total_bytes = w.extracted; largest_file_bytes = w.largest; entries = w.count }),
    w,
  )

  abbrev pub empty_world : Log → World
  empty_world log = record {
    log = log;
    entries = [];
    modes = [];
    extracted = 0;
    largest = 0;
    count = 0;
  }

  -- `extractArchiveWithProgress`, on an archive as the library opens it.
  unfoldable pub extract_archive :
      RootfsLimits → Text → Opened → Log → Result ExtractError ExtractionStats × World
  unfolding extract_entries apply_modes sort_modes
  extract_archive limits destination no_file log = (err cannot_open, empty_world log)
  extract_archive limits destination no_format log = (err unknown_format, empty_world log)
  extract_archive limits destination only_compressed log = (err not_an_archive, empty_world log)
  extract_archive limits destination (entries_of es complete) log =
      (extract_entries disk limits destination es >>= λ _.
      finish destination complete >>= λ _. statistics)
        (empty_world log)
