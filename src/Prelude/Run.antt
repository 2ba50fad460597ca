-- ===== src/Prelude/Run.antt =====
-- Code that fails and changes a state: on a failure the state keeps what was done before.
use mathlib.Core.Path.{◌≡◌, refl}
use bcs_zc241t_study_project.Prelude.Fallible.{Result, ok, err}

abbrev pub Run : Type 0 → Type 0 → Type 0 → Type 0
Run S E A = S → Result E A × S

module _ {S E : Type 0} where
  abbrev pub continue : {A B : Type 0} → Result E A × S → (A → Run S E B) → Result E B × S
  continue (ok a, s) f = f a s
  continue (err e, s) f = (err e, s)

  infixl 10 ◌>>=◌ ◌>>◌
  abbrev pub ◌>>=◌ : {A B : Type 0} → Run S E A → (A → Run S E B) → Run S E B
  ◌>>=◌ m f s = continue (m s) f

  abbrev pub ◌>>◌ : {B : Type 0} → Run S E (Unit {0}) → Run S E B → Run S E B
  m >> k = m >>= λ _. k

  -- A step that leaves the state alone.
  abbrev pub lift : {A : Type 0} → Result E A → Run S E A
  lift r s = (r, s)

  -- A chain that succeeded had a successful first part.
  pub continue-eq-ok :
      {A B : Type 0} (p : Result E A × S) (f : A → Run S E B) {b : B} {s : S}
      → continue p f ≡ (ok b, s)
      → (a : A) × (t : S) × (p ≡ (ok a, t)) × (f a t ≡ (ok b, s))
  continue-eq-ok (ok a, t) f h = (a, t, refl, h)
  continue-eq-ok (err e, t) f h = cc
