-- ===== src/Archive/Inside.antt =====
-- Which names `normalizeArchivePath` of extract.go accepts, and where they lead.
use bcs_zc241t_study_project.Prelude.{
  ◌≡◌, refl, sym, ap, ◌∙◌, true, false, some, List, [], ◌∷◌, ◌++◌, any, ok, Bool-cases, ◌≢◌,
  Result-cases, inl, inr, =?_iff, arith, All, length,
}
use bcs_zc241t_study_project.Text.{Text, split, join, ends_with, trim_suffix}
use bcs_zc241t_study_project.Text.Laws.{Lacks, split-Lacks, join-split, split-ne-nil}
use bcs_zc241t_study_project.Paths.{slash, is_abs, clean, elements, spell}
use bcs_zc241t_study_project.Paths.Laws.{IsComponent, elements-IsComponent, clean_abs}
use bcs_zc241t_study_project.Paths.Below.{elements-below}
use bcs_zc241t_study_project.Archive.Extract.{file_path}
use bcs_zc241t_study_project.Archive.Names.{
  is_unsafe, check_name, normalize_stripped, strip_dots, normalize_archive_path,
}

components : (cs : List Text) → All (Lacks slash) cs → any is_unsafe cs ≡ false → All IsComponent cs
unfolding any is_unsafe
components [] l h = tt
components (c ∷ cs) (l, ls) h = (
  record { filled = ground arith; not_dot = ground arith; not_dot_dot = ground arith; lone = l },
  components cs ls (ground arith),
)

check_name-IsComponent : (name n : Text) → check_name name ≡ ok n → All IsComponent (split slash n)
unfolding check_name
check_name-IsComponent name n h =
    let same : n ≡ name = ground (arith, =?_iff (clean name) name) in
    rw same (components (split slash name) (split-Lacks slash name) (ground arith))

stripped-IsComponent :
    (name n : Text) → normalize_stripped name ≡ ok n → All IsComponent (split slash n)
unfolding normalize_stripped
stripped-IsComponent name n h = elim (Bool-cases (ends_with slash name)) [
  | inl e ↦ check_name-IsComponent (trim_suffix slash name) n (ground arith)
  | inr e ↦ check_name-IsComponent name n (ground arith)
]

below_list :
    (es cs : List Text)
    → All IsComponent es
    → All IsComponent cs
    → cs ≢ []
    → elements (spell true es ++ slash ∷ join slash cs) ≡ es ++ cs
below_list es [] he hc filled = absurd (filled refl)
below_list es (c ∷ cs) he hc filled = elements-below es c cs he hc

-- A path below an absolute, cleaned directory.
inside :
    (base n : Text)
    → is_abs base ≡ true
    → clean base ≡ base
    → All IsComponent (split slash n)
    → elements (base ++ slash ∷ n) ≡ elements base ++ split slash n
inside base n a k h =
    let spelt : base ≡ spell true (elements base) = sym k ∙ clean_abs base a in
    ap (λ b. elements (b ++ slash ∷ n)) spelt
    ∙ ap (λ m. elements (spell true (elements base) ++ slash ∷ m)) (sym (join-split slash n))
    ∙ below_list (elements base) (split slash n) (elements-IsComponent base a) h
        (split-ne-nil slash n)

accepted-IsComponent :
    (name n : Text) → normalize_archive_path name ≡ ok (some n) → All IsComponent (split slash n)
unfolding normalize_archive_path
accepted-IsComponent name n h =
    elim (Result-cases (normalize_stripped (strip_dots (length name) name))) [
      | inl (e, s) ↦ absurd (ground arith)
      | inr (m, s) ↦ stripped-IsComponent (strip_dots (length name) name) n (ground arith)
    ]

-- A name that `normalizeArchivePath` accepts, other than the root marker, consists of proper names between
-- slashes: none is empty, `.` or `..`. So the path that `filepathJoin` makes of it and an absolute,
-- cleaned directory has the elements of the directory, then these names: it lies inside.
pub normalize_archive_path-IsInside :
    (name n base : Text)
    → is_abs base ≡ true
    → clean base ≡ base
    → normalize_archive_path name ≡ ok (some n)
    → All IsComponent (split slash n)
      × (elements (file_path base n) ≡ elements base ++ split slash n)
normalize_archive_path-IsInside name n base a k h =
    let parts = accepted-IsComponent name n h in (parts, inside base n a k parts)
