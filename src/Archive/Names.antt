-- ===== src/Archive/Names.antt =====
-- sandbox/sandbox/rootfs/extract.go: the tests on the names of an archive's entries.
use bcs_zc241t_study_project.Prelude.{
  ℕ, zero, suc, Bool, true, false, not, ◌&&◌, ◌||◌, Option, none, some, List, [], ◌∷◌, ◌++◌, any,
  length, Result, ok, err, ◌=?◌, if◌then◌else◌, codes,
}
use bcs_zc241t_study_project.Text.{
  Text, has_nul, is_empty, has_prefix, trim_prefix, ends_with, trim_suffix, split,
}
use bcs_zc241t_study_project.Paths.{slash, is_dot, is_dot_dot, clean, dir, join_paths}

pub data NameError : Type 0 where
  empty_or_nul absolute_name empty_name empty_component unsafe_component escapes_root : NameError

-- `for strings.HasPrefix(name, "./")`: each round takes two characters, so the length is fuel enough.
unfoldable pub strip_dots : ℕ → Text → Text
unfolding has_prefix trim_prefix
strip_dots zero name = name
strip_dots (suc fuel) name =
    let rest = strip_dots fuel (trim_prefix name (codes "./")) in
    if has_prefix name (codes "./") then rest else name

-- A component that is refused.
unfoldable pub is_unsafe : Text → Bool
unfolding is_dot is_dot_dot
is_unsafe c = is_empty c || is_dot c || is_dot_dot c

-- The tests on a name without `./` before it and `/` behind it.
unfoldable pub check_name : Text → Result NameError Text
unfolding is_unsafe split any clean ◌=?◌ has_prefix
check_name name =
    if any is_unsafe (split slash name)
    then err unsafe_component
    else if not (clean name =? name)
        || is_dot (clean name)
        || is_dot_dot (clean name)
        || has_prefix (clean name) (codes "../")
    then err escapes_root
    else ok (clean name)

unfoldable pub normalize_stripped : Text → Result NameError Text
unfolding check_name ends_with trim_suffix
normalize_stripped name =
    let shorter = trim_suffix slash name in
    if is_empty name
    then err empty_name
    else if ends_with slash name
    then (if is_empty shorter || ends_with slash shorter
        then err empty_component
        else check_name shorter)
    else check_name name

-- `normalizeArchivePath`: `none` is the root marker.
unfoldable pub normalize_archive_path : Text → Result NameError (Option Text)
unfolding normalize_stripped strip_dots ◌=?◌ has_prefix
normalize_archive_path name =
    if is_empty name || has_nul name
    then err empty_or_nul
    else if has_prefix name (slash ∷ [])
    then err absolute_name
    else if name =? codes "." || name =? codes "./"
    then ok none
    else elim (normalize_stripped (strip_dots (length name) name)) [
      | err e ↦ err e
      | ok clean_name ↦ ok (some clean_name)
    ]

-- The types of entries that are told apart.
pub data Kind : Type 0 where
  directory regular symlink hardlink device : Kind

abbrev pub is_directory : Kind → Bool
is_directory directory = true
is_directory kind = false

-- The map `entries`, the last one first.
abbrev pub Entries : Type 0
Entries = List (Text × Kind)

unfoldable pub lookup_entry : Text → Entries → Option Kind
unfolding ◌=?◌
lookup_entry name [] = none
lookup_entry name ((n, kind) ∷ entries) =
    let rest = lookup_entry name entries in if n =? name then some kind else rest

pub data ConflictError : Type 0 where
  duplicate_entry : Text → Kind → ConflictError
  through_file : Text → ConflictError
  over_children : ConflictError

abbrev blocks : Option Kind → Bool
blocks none = false
blocks (some kind) = not (is_directory kind)

-- The loop over the parents `path.Dir(name)`, up to `.`: each is shorter than the one before, so the
-- length is fuel enough.
unfoldable pub check_parents : ℕ → Text → Entries → Result ConflictError (Unit {0})
unfolding lookup_entry dir is_dot
check_parents zero parent entries = ok tt
check_parents (suc fuel) parent entries =
    let rest = check_parents fuel (dir parent) entries in
    if is_dot parent
    then ok tt
    else if blocks (lookup_entry parent entries)
    then err (through_file parent)
    else rest

-- `checkEntryConflicts`.
unfoldable pub check_entry_conflicts : Text → Kind → Entries → Result ConflictError (Unit {0})
unfolding check_parents lookup_entry dir any has_prefix
check_entry_conflicts name kind entries = elim (lookup_entry name entries) [
  | some previous ↦ err (duplicate_entry name previous)
  | none ↦ elim (check_parents (length name) (dir name) entries) [
    | err e ↦ err e
    | ok _ ↦
        if not (is_directory kind) && any (λ e. has_prefix e.0 (name ++ slash ∷ [])) entries
        then err over_children
        else ok tt
  ]
]

pub data LinkError : Type 0 where
  empty_target absolute_target link_escapes : LinkError

-- The target, read from the root of the tree.
unfoldable pub link_candidate : Text → Text → Text
unfolding has_prefix trim_prefix join_paths dir
link_candidate name target =
    if has_prefix target (slash ∷ [])
    then trim_prefix target (slash ∷ [])
    else join_paths (dir name) target

unfoldable pub check_link : Text → Result LinkError (Unit {0})
unfolding clean is_dot_dot has_prefix
check_link candidate =
    if is_empty candidate
    then ok tt
    else if is_dot_dot (clean candidate) || has_prefix (clean candidate) (codes "../")
    then err link_escapes
    else ok tt

-- `validateInternalTarget`.
unfoldable pub validate_internal_target : Text → Text → Result LinkError (Unit {0})
unfolding check_link link_candidate has_prefix
validate_internal_target name target =
    if is_empty target || has_nul target
    then err empty_target
    else if has_prefix target (codes "//")
    then err absolute_target
    else check_link (link_candidate name target)
