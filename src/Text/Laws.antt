-- ===== src/Text/Laws.antt =====
-- Laws of the text functions.
use bcs_zc241t_study_project.Prelude.{
  ℕ, ◌≡◌, ◌≢◌, refl, ap, ◌∙◌, true, false, ◌||◌, List, [], ◌∷◌, ◌++◌, ◌==◌, All, arith, Bool-cases,
  inl, inr,
}
use bcs_zc241t_study_project.Text.{Text, contains_byte, push, split, join, has_prefix, skip}

pub contains_byte-append :
    (c : ℕ) (s t : Text) → contains_byte c (s ++ t) ≡ (contains_byte c s || contains_byte c t)
unfolding contains_byte
contains_byte-append c [] t = refl
contains_byte-append c (d ∷ s) t = ground (arith, contains_byte-append c s t)

-- A separator-free text in front of a separator is the first part.
pub split-append :
    (sep : ℕ) (p rest : Text)
    → contains_byte sep p ≡ false
    → split sep (p ++ sep ∷ rest) ≡ p ∷ split sep rest
unfolding split contains_byte
split-append sep [] rest h = ground arith
split-append sep (c ∷ p) rest h = ground (arith, split-append sep p rest)

pub split_lone : (sep : ℕ) (p : Text) → contains_byte sep p ≡ false → split sep p ≡ p ∷ []
unfolding split contains_byte
split_lone sep [] h = refl
split_lone sep (c ∷ p) h = ground (arith, split_lone sep p)

abbrev pub Lacks : ℕ → Text → Type 0
Lacks sep p = contains_byte sep p ≡ false

-- Splitting a join of separator-free parts gives the parts back.
pub split-join :
    (sep : ℕ) (p : Text) (ps : List Text)
    → Lacks sep p
    → All (Lacks sep) ps
    → split sep (join sep (p ∷ ps)) ≡ p ∷ ps
unfolding join
split-join sep p [] h hs = split_lone sep p h
split-join sep p (q ∷ ps) h (hq, hs) =
    split-append sep p (join sep (q ∷ ps)) h ∙ ap (λ r. p ∷ r) (split-join sep q ps hq hs)

push-Lacks :
    (sep c : ℕ) (ps : List Text)
    → (c == sep) ≡ false
    → All (Lacks sep) ps
    → All (Lacks sep) (push c ps)
unfolding contains_byte
push-Lacks sep c [] h hs = (ground arith, tt)
push-Lacks sep c (p ∷ ps) h (hp, hs) = (ground arith, hs)

-- No part of a split holds the separator.
pub split-Lacks : (sep : ℕ) (s : Text) → All (Lacks sep) (split sep s)
unfolding split
split-Lacks sep [] = (unfold contains_byte in refl, tt)
split-Lacks sep (c ∷ s) = elim (Bool-cases (c == sep)) [
  | inl e ↦ rw e (unfold contains_byte in refl, split-Lacks sep s)
  | inr e ↦ rw e (push-Lacks sep c (split sep s) e (split-Lacks sep s))
]

push-ne-nil : (c : ℕ) (ps : List Text) → push c ps ≢ []
push-ne-nil c [] h = cc
push-ne-nil c (p ∷ ps) h = cc

pub split-ne-nil : (sep : ℕ) (s : Text) → split sep s ≢ []
unfolding split
split-ne-nil sep [] = λ h. cc
split-ne-nil sep (c ∷ s) = elim (Bool-cases (c == sep)) [
  | inl e ↦ rw e (λ h. cc)
  | inr e ↦ rw e (push-ne-nil c (split sep s))
]

join-push : (sep c : ℕ) (ps : List Text) → join sep (push c ps) ≡ c ∷ join sep ps
unfolding join
join-push sep c [] = refl
join-push sep c (p ∷ []) = refl
join-push sep c (p ∷ q ∷ ps) = refl

join-cons-nil : (sep : ℕ) (ps : List Text) → ps ≢ [] → join sep ([] ∷ ps) ≡ sep ∷ join sep ps
unfolding join
join-cons-nil sep [] h = absurd (h refl)
join-cons-nil sep (p ∷ ps) h = refl

-- Joining the parts of a split gives the text back.
pub join-split : (sep : ℕ) (s : Text) → join sep (split sep s) ≡ s
unfolding split
join-split sep [] = unfold join in refl
join-split sep (c ∷ s) = ground (
  arith,
  join-split sep s,
  join-push sep c (split sep s),
  join-cons-nil sep (split sep s) (split-ne-nil sep s),
)

-- A prefix is what `HasPrefix` says.
pub has_prefix_sound : (s prefix : Text) → has_prefix s prefix ≡ true → s ≡ prefix ++ skip s prefix
unfolding has_prefix skip
has_prefix_sound s [] h = refl
has_prefix_sound [] (p ∷ prefix) h = cc
has_prefix_sound (c ∷ s) (p ∷ prefix) h = ground (arith, has_prefix_sound s prefix)

pub has_prefix-append : (prefix s : Text) → has_prefix (prefix ++ s) prefix ≡ true
unfolding has_prefix
has_prefix-append [] s = refl
has_prefix-append (p ∷ prefix) s = ground (arith, has_prefix-append prefix s)
