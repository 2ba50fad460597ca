-- ===== src/Archive/Tests.antt =====
-- An archive to try sandbox/sandbox/rootfs/extract.go on: a directory and a file in it.
use bcs_zc241t_study_project.Prelude.{
  ◌+◌, ◌≤◌, ◌≡◌, refl, ◌++◌, true, false, none, some, [], ◌∷◌, Result, ok, codes, All,
}
use bcs_zc241t_study_project.Prelude.Int.{pos}
use bcs_zc241t_study_project.Text.{split, join, contains_byte}
use bcs_zc241t_study_project.Paths.{slash, elements, clean_elements, clean, up_to_slash}
use bcs_zc241t_study_project.Paths.Laws.{IsComponent}
use bcs_zc241t_study_project.Archive.Names.{normalize_archive_path}
use bcs_zc241t_study_project.Archive.Disk.{ArchiveEntry, missing, Disk, ExtractError, World}
use bcs_zc241t_study_project.Archive.Extract.{RootfsLimits, ExtractionStats, file_path}
use bcs_zc241t_study_project.Archive.Files.{entries_of, extract_archive}
use bcs_zc241t_study_project.Archive.Inside.{normalize_archive_path-IsInside}
use bcs_zc241t_study_project.Archive.Within.{entries_in, extract_archive-IsWithin}
use bcs_zc241t_study_project.Archive.Limits.{filled_bytes, greatest_fill, larger}

normalized : normalize_archive_path (codes "./etc/passwd") ≡ ok (some (codes "etc/passwd"))
unfolding normalize_archive_path contains_byte elements clean_elements join
normalized = refl

base_clean : clean (codes "/var/cache/root") ≡ codes "/var/cache/root"
unfolding clean join elements clean_elements split
base_clean = refl

normalize_archive_path-IsInside_example :
    All IsComponent (split slash (codes "etc/passwd"))
    × (elements (file_path (codes "/var/cache/root") (codes "etc/passwd"))
        ≡ elements (codes "/var/cache/root") ++ split slash (codes "etc/passwd"))
normalize_archive_path-IsInside_example =
    normalize_archive_path-IsInside (codes "./etc/passwd") (codes "etc/passwd")
      (codes "/var/cache/root") refl base_clean normalized

abbrev etc : ArchiveEntry
etc = record {
  name = codes "etc/";
  mode = record {
    is_dir = true;
    is_symlink = false;
    is_char_device = false;
    is_regular = false;
    perm = 493;
  };
  header = none;
  size = pos 0;
  link_target = [];
  stream = none;
}

abbrev passwd : ArchiveEntry
passwd = record {
  name = codes "etc/passwd";
  mode = record {
    is_dir = false;
    is_symlink = false;
    is_char_device = false;
    is_regular = true;
    perm = 420;
  };
  header = none;
  size = pos 12;
  link_target = [];
  stream =
      some
        (record { available = 12; copies = true; extra = false; finishes = true; closes = true });
}

abbrev disk : Disk
disk = record { lstat = λ log path. missing; succeeds = λ log action. true }

abbrev limits : RootfsLimits
limits = record { max_total_bytes = 100; max_file_bytes = 50; max_entries = 10 }

abbrev extracted : Result ExtractError ExtractionStats × World
unfolding extract_archive
extracted = extract_archive disk limits (codes "/root") (entries_of (etc ∷ passwd ∷ []) true) []

abbrev statistics : ExtractionStats
statistics = record { total_bytes = 12; largest_file_bytes = 12; entries = 2 }

extraction_succeeds :
    extract_archive disk limits (codes "/root") (entries_of (etc ∷ passwd ∷ []) true) []
    ≡ (ok statistics, extracted.1)
unfolding extract_archive extracted contains_byte elements clean_elements join up_to_slash
extraction_succeeds = refl

extract_archive-IsWithin_example :
    ((12 ≤ 100) × (filled_bytes extracted.1.log ≡ filled_bytes [] + 12))
    × ((12 ≤ 50) × (greatest_fill extracted.1.log ≡ larger 12 (greatest_fill [])))
    × ((2 ≤ 10) × (2 ≡ entries_in (entries_of (etc ∷ passwd ∷ []) true)))
extract_archive-IsWithin_example =
    extract_archive-IsWithin disk limits (codes "/root") (entries_of (etc ∷ passwd ∷ []) true) []
      statistics extracted.1 extraction_succeeds
