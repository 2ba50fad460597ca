-- ===== src/Child/Capabilities/Bounding.antt =====
-- The loop of `dropCapabilities` of child.go over the bounding set.
use bcs_zc241t_study_project.Prelude.{
  ℕ, zero, suc, ◌+◌, ◌≡◌, ◌≢◌, refl, ◌∙◌, sym, Bool, true, not, ◌||◌, List, [], ◌∷◌, ◌++◌,
  append_assoc, Result, ok, ◌==◌, All, All-append, Has, arith, Bool-cases, inl, inr,
}
use bcs_zc241t_study_project.Prelude.Run.{continue, continue-eq-ok}
use bcs_zc241t_study_project.Child.Capabilities.{
  CapCall, CapError, bounding_drop, CapLog, CapKernel, flag_at, cap_setpcap, perform, drop_bounding,
}

-- The call drops a capability whose flag is set, from `number` on, other than `CAP_SETPCAP`.
abbrev pub IsOrdinary : ℕ → List Bool → CapCall → Type 0
IsOrdinary number flags c =
    (i : ℕ) × (c ≡ bounding_drop (number + i))
    × (flag_at i flags ≡ true)
    × (number + i ≢ cap_setpcap)

-- The flags from the next number on.
IsOrdinary-later :
    (number : ℕ) (b : Bool) (flags : List Bool) (calls : List CapCall)
    → All (IsOrdinary (suc number) flags) calls
    → All (IsOrdinary number (b ∷ flags)) calls
unfolding flag_at
IsOrdinary-later number b flags [] all = tt
IsOrdinary-later number b flags (c ∷ calls) ((i, same, set, other), all) =
    let z : number + suc i ≡ suc number + i = omega arith in
    ((suc i, rw z same, set, rw z other), IsOrdinary-later number b flags calls all)

-- The loop over the bounding set has dropped each selected capability other than `CAP_SETPCAP`.
pub record IsDropping (number : ℕ) (flags : List Bool) (log log' : CapLog) : Type 0 where
  pub calls : List CapCall
  pub added : log' ≡ calls ++ log
  pub ordinary : All (IsOrdinary number flags) calls
  pub each :
      (i : ℕ)
      → flag_at i flags ≡ true
      → number + i ≢ cap_setpcap
      → Has (bounding_drop (number + i)) calls

-- One round, which skips its number or drops it: what holds of the later numbers holds of all of them.
module _ (number : ℕ) (b : Bool) (flags : List Bool) (calls : List CapCall)
    (later : (i : ℕ)
      → flag_at i flags ≡ true
      → suc number + i ≢ cap_setpcap
      → Has (bounding_drop (suc number + i)) calls) where
  each_round :
      (b ≡ true → number ≢ cap_setpcap → Has (bounding_drop number) calls)
      → (i : ℕ) → flag_at i (b ∷ flags) ≡ true
      → number + i ≢ cap_setpcap
      → Has (bounding_drop (number + i)) calls
  unfolding flag_at
  each_round first zero e other =
      let z : number + 0 ≡ number = omega arith in rw z (first e (rw (← z) other))
  each_round first (suc i) e other =
      let z : number + suc i ≡ suc number + i = omega arith in rw z (later i e (rw (← z) other))

module _ {A : Type 0} (a : A) where
  Has-append_left : (xs ys : List A) → Has a xs → Has a (xs ++ ys)
  Has-append_left [] ys m = absurd m
  Has-append_left (x ∷ xs) ys (inl e) = inl e
  Has-append_left (x ∷ xs) ys (inr m) = inr (Has-append_left xs ys m)

  Has-append_right : (xs ys : List A) → Has a ys → Has a (xs ++ ys)
  Has-append_right [] ys m = m
  Has-append_right (x ∷ xs) ys m = inr (Has-append_right xs ys m)

drop_round :
    {number : ℕ} {b : Bool} {flags : List Bool} {log log' : CapLog}
    → number ≢ cap_setpcap
    → b ≡ true
    → IsDropping (suc number) flags (bounding_drop number ∷ log) log'
    → IsDropping number (b ∷ flags) log log'
unfolding flag_at
drop_round {number} {b} {flags} other set r = record {
  calls = r.calls ++ bounding_drop number ∷ [];
  added = r.added ∙ sym (append_assoc r.calls (bounding_drop number ∷ []) _);
  ordinary =
      All-append (IsOrdinary number (b ∷ flags)) r.calls (bounding_drop number ∷ [])
        (IsOrdinary-later number b flags r.calls r.ordinary)
        (let z : number + 0 ≡ number = omega arith in ((0, rw z refl, set, rw z other), tt));
  each =
      each_round number b flags (r.calls ++ bounding_drop number ∷ [])
        (λ i e o. Has-append_left _ r.calls _ (r.each i e o))
        (λ _ _. Has-append_right _ r.calls _ (inl refl));
}

module _ (k : CapKernel) where
  pub perform-ok :
      (c : CapCall) (log log' : CapLog)
      → perform k c log ≡ (ok tt, log')
      → (k.succeeds log c ≡ true) × (log' ≡ c ∷ log)
  unfolding perform
  perform-ok c log log' h = elim (Bool-cases (k.succeeds log c)) [ inl e ↦ (e, cc) | inr e ↦ cc ]

  pub perform_then :
      (c : CapCall) (next : CapLog → Result CapError (Unit {0}) × CapLog) (log log' : CapLog)
      → continue (perform k c log) (λ _. next) ≡ (ok tt, log')
      → next (c ∷ log) ≡ (ok tt, log')
  perform_then c next log log' h =
      let (_, l, p, q) = continue-eq-ok (perform k c log) _ h in
      let (_, e) = perform-ok c log l p in rw (← e) q

  pub drop_bounding-IsDropping :
      (number : ℕ) (flags : List Bool) (log log' : CapLog)
      → drop_bounding k number flags log ≡ (ok tt, log')
      → IsDropping number flags log log'
  unfolding drop_bounding
  drop_bounding-IsDropping number [] log log' h = record {
    calls = [];
    added = cc;
    ordinary = tt;
    each = λ i e. unfold flag_at in cc;
  }
  drop_bounding-IsDropping number (b ∷ flags) log log' h =
      elim (Bool-cases (number == cap_setpcap || not b)) [
        | inl e ↦
            let r = drop_bounding-IsDropping (suc number) flags log log' cc in
            record {
              calls = r.calls;
              added = r.added;
              ordinary = IsOrdinary-later number b flags r.calls r.ordinary;
              each = each_round number b flags r.calls r.each (λ set other. ground arith);
            }
        | inr e ↦ drop_round (ground arith) (ground arith) (
            drop_bounding-IsDropping (suc number) flags (bounding_drop number ∷ log) log' (
              perform_then (bounding_drop number) (drop_bounding k (suc number) flags) log log' cc))
      ]
