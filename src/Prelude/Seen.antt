-- ===== src/Prelude/Seen.antt =====
-- The map `seen` of the source's loops over texts, and what such a loop establishes: no text comes
-- twice.
use mathlib.Core.Path.{◌≡◌, refl}
use mathlib.Core.Logic.{inl, inr}
use mathlib.Core.Bool.{Bool, true, false, ◌||◌}
use mathlib.Core.List.{List, [], ◌∷◌}
use Prim.Native.Nat.{ℕ}
use native.Mathlib.Omega.{arith}
use bcs_zc241t_study_project.Prelude.Tests.{◌=?◌, =?_iff}
use bcs_zc241t_study_project.Prelude.Lists.{Has, All}

-- `_, ok := seen[k]`.
unfoldable pub contains : List (List ℕ) → List ℕ → Bool
contains [] k = false
contains (j ∷ m) k = j =? k || contains m k

pub contains_sound : (m : List (List ℕ)) (k : List ℕ) → contains m k ≡ true → Has k m
unfolding contains
contains_sound [] k h = cc
contains_sound (j ∷ m) k h = grind (arith, =?_iff j k, contains_sound m k)

pub contains_complete : (m : List (List ℕ)) (k : List ℕ) → Has k m → contains m k ≡ true
unfolding contains
contains_complete [] k h = absurd h
contains_complete (j ∷ m) k (inl e) = ground (arith, =?_iff j k)
contains_complete (j ∷ m) k (inr r) = ground (arith, contains_complete m k r)

-- No text stands twice in the list.
abbrev pub Distinct : List (List ℕ) → Type 0
Distinct [] = Unit
Distinct (k ∷ ks) = (contains ks k ≡ false) × Distinct ks

-- What the loop tests as it goes, from the texts seen before it.
abbrev pub Fresh : List (List ℕ) → List (List ℕ) → Type 0
Fresh seen [] = Unit
Fresh seen (k ∷ ks) = (contains seen k ≡ false) × Fresh (k ∷ seen) ks

-- None of the texts is among those seen.
abbrev Avoids : List (List ℕ) → List (List ℕ) → Type 0
Avoids seen = All (λ k. contains seen k ≡ false)

Avoids-cons :
    (j : List ℕ) (seen ks : List (List ℕ))
    → Avoids (j ∷ seen) ks
    → Avoids seen ks × (contains ks j ≡ false)
unfolding contains
Avoids-cons j seen [] h = (tt, refl)
Avoids-cons j seen (k ∷ ks) (hk, hks) =
    let (rest, apart) = Avoids-cons j seen ks hks in
    ((ground arith, rest), ground (arith, =?_iff j k, =?_iff k j))

cons-Avoids :
    (j : List ℕ) (seen ks : List (List ℕ))
    → Avoids seen ks
    → contains ks j ≡ false
    → Avoids (j ∷ seen) ks
unfolding contains
cons-Avoids j seen [] h apart = tt
cons-Avoids j seen (k ∷ ks) (hk, hks) apart =
    (ground (arith, =?_iff j k, =?_iff k j), cons-Avoids j seen ks hks (ground arith))

Fresh-split : (seen ks : List (List ℕ)) → Fresh seen ks → Avoids seen ks × Distinct ks
Fresh-split seen [] h = (tt, tt)
Fresh-split seen (k ∷ ks) (hk, hks) =
    let (avoids, distinct) = Fresh-split (k ∷ seen) ks hks in
    let (rest, apart) = Avoids-cons k seen ks avoids in ((hk, rest), (apart, distinct))

Fresh-join : (seen ks : List (List ℕ)) → Avoids seen ks → Distinct ks → Fresh seen ks
Fresh-join seen [] h d = tt
Fresh-join seen (k ∷ ks) (hk, hks) (apart, d) =
    (hk, Fresh-join (k ∷ seen) ks (cons-Avoids k seen ks hks apart) d)

Avoids-nil : (ks : List (List ℕ)) → Avoids [] ks
unfolding contains
Avoids-nil [] = tt
Avoids-nil (k ∷ ks) = (refl, Avoids-nil ks)

pub Fresh-Distinct : (ks : List (List ℕ)) → Fresh [] ks → Distinct ks
Fresh-Distinct ks h = (Fresh-split [] ks h).1

pub Distinct-Fresh : (ks : List (List ℕ)) → Distinct ks → Fresh [] ks
Distinct-Fresh ks h = Fresh-join [] ks (Avoids-nil ks) h
