-- ===== src/Prelude/Tests.antt =====
-- Boolean tests on the native numbers and on lists of them, and the conditional.
use Prim.Native.Nat.{ℕ, ◌≤◌, ◌<◌, compare, Ordering}
use mathlib.Core.Path.{◌≡◌, refl}
use mathlib.Core.Logic.{◌↔◌, ◌⊎◌, inl, inr}
use mathlib.Core.Bool.{Bool, true, false, ◌&&◌}
use mathlib.Core.List.{List, [], ◌∷◌}
use mathlib.Core.Option.{Option, none, some}
use native.Mathlib.Omega.{arith}

abbrev pub ltb : ℕ → ℕ → Bool
ltb a b = elim (compare a b) [ Ordering.lt ↦ true | _ ↦ false ]

abbrev pub leb : ℕ → ℕ → Bool
leb a b = elim (compare a b) [ Ordering.gt ↦ false | _ ↦ true ]

infix 50 ◌==◌ ◌=?◌
abbrev pub ◌==◌ : ℕ → ℕ → Bool
a == b = elim (compare a b) [ Ordering.eq ↦ true | _ ↦ false ]

-- Equality of texts, as lists of code points.
unfoldable pub ◌=?◌ : List ℕ → List ℕ → Bool
[] =? [] = true
[] =? (y ∷ ys) = false
(x ∷ xs) =? [] = false
(x ∷ xs) =? (y ∷ ys) = x == y && xs =? ys

infix 1 if◌then◌else◌
abbrev pub if◌then◌else◌ {ℓ} : {A : Type ℓ} → Bool → A → A → A
if true then x else y = x
if false then x else y = y

pub ltb→lt : (a b : ℕ) → ltb a b ≡ true → a < b
ltb→lt a b h = ground arith

pub lt→ltb : (a b : ℕ) → a < b → ltb a b ≡ true
lt→ltb a b h = ground arith

pub leb→le : (a b : ℕ) → leb a b ≡ true → a ≤ b
leb→le a b h = ground arith

pub ==_iff : (a b : ℕ) → ((a == b) ≡ true) ↔ (a ≡ b)
==_iff a b = ground arith

pub Bool-cases : (b : Bool) → (b ≡ true) ⊎ (b ≡ false)
Bool-cases true = inl refl
Bool-cases false = inr refl

pub Option-cases {ℓ} : {A : Type ℓ} (o : Option A) → (o ≡ none) ⊎ ((a : A) × (o ≡ some a))
Option-cases none = inl refl
Option-cases (some a) = inr (a, refl)

pub =?_sound : (xs ys : List ℕ) → (xs =? ys) ≡ true → xs ≡ ys
unfolding ◌=?◌
=?_sound [] [] h = refl
=?_sound [] (y ∷ ys) h = cc
=?_sound (x ∷ xs) [] h = cc
=?_sound (x ∷ xs) (y ∷ ys) h = ground (arith, =?_sound xs ys)

pub =?_refl : (xs : List ℕ) → (xs =? xs) ≡ true
unfolding ◌=?◌
=?_refl [] = refl
=?_refl (x ∷ xs) = ground (arith, =?_refl xs)

pub =?_iff : (xs ys : List ℕ) → ((xs =? ys) ≡ true) ↔ (xs ≡ ys)
=?_iff xs ys = (=?_sound xs ys, λ e. λ i. complete e i)
  where
    complete : xs ≡ ys → (xs =? ys) ≡ true
    complete e = rw (← e) (=?_refl xs)
