-- ===== src/Resources/Cgroup.antt =====
-- sandbox/sandbox/resources/cgroup.go: the cgroup that carries the limits of one run.
use bcs_zc241t_study_project.Prelude.{
  zero, suc, Bool, true, false, not, ◌||◌, Option, none, some, List, [], ◌∷◌, ◌++◌, any, Result, ok,
  err, leb, ◌=?◌, if◌then◌else◌, codes, length,
}
use bcs_zc241t_study_project.Prelude.Int.{ℤ, pos, negsuc}
use bcs_zc241t_study_project.Text.{
  Text, split, has_nul, is_empty, is_space, trim_prefix, trim_suffix, has_prefix,
}
use bcs_zc241t_study_project.Paths.{
  slash, is_abs, is_dot, is_dot_dot, clean, join_paths, rel, dot_dot,
}
use bcs_zc241t_study_project.Resources.Files.{
  CgroupError, malformed_entry, not_v2_entry, duplicate_entry, malformed_path, path_traverses,
  line_too_long, entry_missing, not_absolute, not_canonical, escapes_mount, controller_unavailable,
  controller_not_delegated,
}

-- The lines that `bufio.Scanner` yields: no empty one at the end.
unfoldable pub scan_lines : List Text → List Text
scan_lines [] = []
scan_lines (l ∷ []) = if is_empty l then [] else l ∷ []
scan_lines (l ∷ k ∷ ls) = l ∷ scan_lines (k ∷ ls)

unfoldable pub check_candidate : Text → Result CgroupError Text
unfolding is_dot is_dot_dot split clean ◌=?◌ trim_prefix any
check_candidate candidate =
    if is_empty candidate
      || has_nul candidate
      || not (is_abs candidate)
      || not (clean candidate =? candidate)
    then err (malformed_path candidate)
    else if any (λ c. is_dot c || is_dot_dot c) (split slash (trim_prefix candidate (slash ∷ [])))
    then err (path_traverses candidate)
    else ok candidate

-- An entry, in its parts between colons.
unfoldable pub parse_entry : Text → Option Text → List Text → Result CgroupError Text
unfolding check_candidate ◌=?◌
parse_entry line found (hierarchy ∷ controllers ∷ candidate ∷ []) =
    if not (hierarchy =? codes "0") || not (is_empty controllers)
    then err (not_v2_entry line)
    else elim found [ none ↦ check_candidate candidate | some path ↦ err duplicate_entry ]
parse_entry line found parts = err (malformed_entry line)

-- A line behind the entry found so far; a scanner's line is shorter than 64 KiB.
unfoldable pub scan_line : Option Text → Text → Result CgroupError Text
unfolding parse_entry
scan_line found line =
    if leb 65536 (length line)
    then err line_too_long
    else let text = trim_suffix 13 line in parse_entry text found (split b':' text)

unfoldable pub scan_entries : Option Text → List Text → Result CgroupError (Option Text)
unfolding scan_line
scan_entries found [] = ok found
scan_entries found (line ∷ lines) = elim (scan_line found line) [
  | err e ↦ err e
  | ok path ↦ scan_entries (some path) lines
]

-- `parseUnifiedCgroupPath`.
unfoldable pub parse_unified_cgroup_path : Text → Result CgroupError Text
unfolding scan_entries scan_lines
parse_unified_cgroup_path text = elim (scan_entries none (scan_lines (split 10 text))) [
  | err e ↦ err e
  | ok none ↦ err entry_missing
  | ok (some path) ↦ ok path
]

-- `resolveDelegatedCgroupPath`.
unfoldable pub resolve_delegated_cgroup_path : Text → Text → Result CgroupError Text
unfolding clean ◌=?◌ join_paths rel trim_prefix
resolve_delegated_cgroup_path mount relative =
    let root = clean mount in
    let delegated = join_paths root (trim_prefix relative (slash ∷ [])) in
    let relation = rel root delegated in
    if not (is_abs mount) || not (is_abs relative)
    then err not_absolute
    else if not (clean relative =? relative)
    then err not_canonical
    else if relation =? dot_dot || has_prefix relation (codes "../")
    then err escapes_mount
    else ok delegated

abbrev pub is_positive : ℤ → Bool
is_positive (pos zero) = false
is_positive (pos (suc n)) = true
is_positive (negsuc n) = false

-- `requestedControllers`.
unfoldable pub requested_controllers : ℤ → ℤ → ℤ → List Text
requested_controllers cpu memory processes =
    (if is_positive cpu then codes "cpu" ∷ [] else [])
    ++ (if is_positive memory then codes "memory" ∷ [] else [])
    ++ (if is_positive processes then codes "pids" ∷ [] else [])

-- `strings.Fields`; `word` is the field that is being read, in order.
unfoldable pub fields : Text → Text → List Text
unfolding is_space
fields word [] = if is_empty word then [] else word ∷ []
fields word (c ∷ s) =
    let fresh = fields [] s in
    let longer = fields (word ++ c ∷ []) s in
    if is_space c then (if is_empty word then fresh else word ∷ fresh) else longer

-- `containsWord`.
unfoldable pub contains_word : Text → Text → Bool
unfolding fields ◌=?◌ any
contains_word value want = any (λ word. word =? want) (fields [] value)

unfoldable pub check_controllers : Text → Text → List Text → Result CgroupError (Unit {0})
unfolding contains_word
check_controllers controllers subtree [] = ok tt
check_controllers controllers subtree (c ∷ cs) =
    if not (contains_word controllers c)
    then err (controller_unavailable c)
    else if not (contains_word subtree c)
    then err (controller_not_delegated c)
    else check_controllers controllers subtree cs
