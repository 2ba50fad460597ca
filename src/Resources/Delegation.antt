-- ===== src/Resources/Delegation.antt =====
-- Where `parseUnifiedCgroupPath` and `resolveDelegatedCgroupPath` of cgroup.go lead.
use bcs_zc241t_study_project.Prelude.{
  ◌≡◌, refl, sym, ap, ◌∙◌, true, false, Option, none, some, List, [], ◌∷◌, ◌++◌, ok, Result-cases,
  inl, inr, =?_iff, if◌then◌else◌, arith,
}
use bcs_zc241t_study_project.Text.{Text, split, join, has_prefix, skip, trim_prefix, trim_suffix}
use bcs_zc241t_study_project.Paths.{
  slash, is_abs, clean, elements, spell, join_paths, rel, rel_elements,
}
use bcs_zc241t_study_project.Paths.Laws.{elements-IsComponent, clean_abs, elements-clean}
use bcs_zc241t_study_project.Paths.Below.{elements-join_paths, rel_elements-below, spell-stays}
use bcs_zc241t_study_project.Resources.Cgroup.{
  check_candidate, parse_entry, scan_lines, scan_line, scan_entries, parse_unified_cgroup_path,
  resolve_delegated_cgroup_path,
}

-- An absolute path that `filepath.Clean` leaves as it is.
pub record IsCanonical (p : Text) : Type 0 where
  pub absolute : is_abs p ≡ true
  pub cleaned : clean p ≡ p

check_candidate-IsCanonical : (c p : Text) → check_candidate c ≡ ok p → IsCanonical p
unfolding check_candidate
check_candidate-IsCanonical c p h = record {
  absolute = ground (arith, =?_iff (clean c) c);
  cleaned = ground (arith, =?_iff (clean c) c);
}

parse_entry-IsCanonical :
    (line : Text) (found : Option Text) (parts : List Text) (p : Text)
    → parse_entry line found parts ≡ ok p
    → IsCanonical p
unfolding parse_entry
parse_entry-IsCanonical line found [] p h = cc
parse_entry-IsCanonical line found (a ∷ []) p h = cc
parse_entry-IsCanonical line found (a ∷ b ∷ []) p h = cc
parse_entry-IsCanonical line (some q) (a ∷ b ∷ c ∷ []) p h = absurd (ground arith)
parse_entry-IsCanonical line none (a ∷ b ∷ c ∷ []) p h =
    check_candidate-IsCanonical c p (ground arith)
parse_entry-IsCanonical line found (a ∷ b ∷ c ∷ d ∷ parts) p h = cc

scan_line-IsCanonical :
    (found : Option Text) (line p : Text) → scan_line found line ≡ ok p → IsCanonical p
unfolding scan_line
scan_line-IsCanonical found line p h =
    let text = trim_suffix 13 line in
    parse_entry-IsCanonical text found (split b':' text) p (ground arith)

scan_entries-IsCanonical :
    (found : Option Text) (lines : List Text) (p : Text)
    → ((q : Text) → found ≡ some q → IsCanonical q)
    → scan_entries found lines ≡ ok (some p)
    → IsCanonical p
unfolding scan_entries
scan_entries-IsCanonical found [] p k h = k p (ground arith)
scan_entries-IsCanonical found (line ∷ lines) p k h = elim (Result-cases (scan_line found line)) [
  | inl (e, s) ↦ absurd (ground arith)
  | inr (path, s) ↦
      scan_entries-IsCanonical (some path) lines p
        (λ q e. scan_line-IsCanonical found line q (ground (arith, s, e))) (ground arith)
]

parsed-IsCanonical : (text p : Text) → parse_unified_cgroup_path text ≡ ok p → IsCanonical p
unfolding parse_unified_cgroup_path
parsed-IsCanonical text p h =
    scan_entries-IsCanonical none (scan_lines (split 10 text)) p (λ q e. cc) (ground arith)

-- A canonical path without its leading slash.
trimmed : (p : Text) → IsCanonical p → trim_prefix p (slash ∷ []) ≡ join slash (elements p)
unfolding trim_prefix has_prefix skip
trimmed p k =
    let spelt : p ≡ spell true (elements p) = sym k.cleaned ∙ clean_abs p k.absolute in
    ap (λ q. if (has_prefix q (slash ∷ [])) then skip q (slash ∷ []) else q) spelt

resolved :
    (mount relative : Text)
    → is_abs mount ≡ true
    → IsCanonical relative
    → (d : Text) × (resolve_delegated_cgroup_path mount relative ≡ ok d)
      × (elements d ≡ elements mount ++ elements relative)
unfolding resolve_delegated_cgroup_path
resolved mount relative a k =
    let root = clean mount in
    let rs = elements relative in
    let delegated = join_paths root (trim_prefix relative (slash ∷ [])) in
    let cleaned = clean_abs mount a in
    let rooted : is_abs root ≡ true = rw cleaned refl in
    let named : elements root ≡ elements mount = elements-clean mount a in
    let again : clean root ≡ root = clean_abs root rooted ∙ ap (spell true) named ∙ sym cleaned in
    let below : elements delegated ≡ elements root ++ rs =
      ap (λ t. elements (join_paths root t)) (trimmed relative k)
      ∙ elements-join_paths root rs rooted again (elements-IsComponent relative k.absolute) in
    let related : rel root delegated ≡ spell false rs =
      unfold rel in
      ap (λ ds. spell false (rel_elements (elements root) ds)) below
      ∙ ap (spell false) (rel_elements-below (elements root) rs) in
    (
      delegated,
      ground (
        arith,
        spell-stays rs (elements-IsComponent relative k.absolute),
        related,
        =?_iff (clean relative) relative,
        k,
        a,
      ),
      below ∙ ap (λ es. es ++ rs) named,
    )

-- Whatever `/proc/self/cgroup` says, if `parseUnifiedCgroupPath` accepts it, then
-- `resolveDelegatedCgroupPath` finds the path under an absolute mount point, and the result is the path
-- whose elements are those of the mount point, then those of the entry: it is never outside the mount.
pub delegated_path-IsBelow :
    (text mount relative : Text)
    → is_abs mount ≡ true
    → parse_unified_cgroup_path text ≡ ok relative
    → (d : Text) × (resolve_delegated_cgroup_path mount relative ≡ ok d)
      × (elements d ≡ elements mount ++ elements relative)
delegated_path-IsBelow text mount relative a h =
    resolved mount relative a (parsed-IsCanonical text relative h)
