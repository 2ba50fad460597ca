-- ===== src/Archive/Limits.antt =====
-- The limits of an extraction in extract.go: what its counters can reach.
use bcs_zc241t_study_project.Prelude.{
  ℕ, suc, ◌+◌, ◌≤◌, ◌≡◌, refl, sym, ap, ◌∙◌, Bool, true, false, not, [], ◌∷◌, ltb, Result, ok, err,
  reject, if◌then◌else◌, arith,
}
use bcs_zc241t_study_project.Prelude.Run.{continue-eq-ok, ◌>>=◌, ◌>>◌, lift}
use bcs_zc241t_study_project.Text.{Text}
use bcs_zc241t_study_project.Archive.Disk.{
  Log, Stream, Action, close, fill, set_mode, more_data, not_finished, Disk, ExtractError, World,
  Extract, act, stat,
}
use bcs_zc241t_study_project.Archive.Extract.{RootfsLimits, add_mode}
use bcs_zc241t_study_project.Archive.Files.{
  least, check_count, on_error, or_close, copy_file, fill_file,
}

-- The bytes that an action copies into a file.
abbrev pub size_of : Action → ℕ
size_of (fill path n) = n
size_of a = 0

abbrev pub larger : ℕ → ℕ → ℕ
larger a b = if ltb a b then b else a

-- The bytes that were copied in all, and into the file that got most.
unfoldable pub filled_bytes : Log → ℕ
filled_bytes [] = 0
filled_bytes ((a, done) ∷ log) = size_of a + filled_bytes log

unfoldable pub greatest_fill : Log → ℕ
greatest_fill [] = 0
greatest_fill ((a, done) ∷ log) = larger (size_of a) (greatest_fill log)

-- The counters are the same, and nothing was copied.
pub record Same (w w' : World) : Type 0 where
  pub filled : filled_bytes w'.log ≡ filled_bytes w.log
  pub greatest : greatest_fill w'.log ≡ greatest_fill w.log
  pub extracted : w'.extracted ≡ w.extracted
  pub largest : w'.largest ≡ w.largest
  pub count : w'.count ≡ w.count

Same-refl : (w : World) → Same w w
Same-refl w = record {
  filled = refl;
  greatest = refl;
  extracted = refl;
  largest = refl;
  count = refl;
}

Same-trans : {u v w : World} → Same u v → Same v w → Same u w
Same-trans p q = record {
  filled = q.filled ∙ p.filled;
  greatest = q.greatest ∙ p.greatest;
  extracted = q.extracted ∙ p.extracted;
  largest = q.largest ∙ p.largest;
  count = q.count ∙ p.count;
}

-- `n` bytes more were copied, into one file, and these counters are the same.
pub record Added (n : ℕ) (w w' : World) : Type 0 where
  pub filled : filled_bytes w'.log ≡ filled_bytes w.log + n
  pub greatest : greatest_fill w'.log ≡ larger n (greatest_fill w.log)
  pub largest : w'.largest ≡ w.largest
  pub count : w'.count ≡ w.count

-- A step that leaves the counters alone, when it succeeds.
pub record Plain {A : Type 0} (m : Extract A) : Type 0 where
  pub at : (w w' : World) (a : A) → m w ≡ (ok a, w') → Same w w'

pub Plain-lift : {A : Type 0} (r : Result ExtractError A) → Plain (lift r)
Plain-lift r = record { at = λ w w' a h. rw (← ap (λ p. p.1) h) (Same-refl w) }

pub Plain-bind :
    {A B : Type 0} (m : Extract A) (f : A → Extract B)
    → Plain m
    → ((a : A) → Plain (f a))
    → Plain (m >>= f)
Plain-bind m f p q = record {
  at = λ w w' b h.
      let (a, v, first, rest) = continue-eq-ok (m w) f h in
      Same-trans (p.at w v a first) ((q a).at v w' b rest);
}

pub Plain-if :
    {A : Type 0} (b : Bool) (m k : Extract A) → Plain m → Plain k → Plain (if b then m else k)
Plain-if true m k p q = p
Plain-if false m k p q = q

module _ (disk : Disk) where
  -- An action that copies nothing.
  pub Plain-act : (a : Action) → size_of a ≡ 0 → Plain (act disk a)
  unfolding act filled_bytes greatest_fill
  Plain-act a none = record {
    at = λ w w' _ h. rw (← ap (λ p. p.1) h) (record {
      filled = omega (arith, none);
      greatest = ground (arith, none);
      extracted = refl;
      largest = refl;
      count = refl;
    });
  }

  pub Plain-stat : (path : Text) → Plain (stat disk path)
  unfolding stat
  Plain-stat path = record { at = λ w w' _ h. rw (← ap (λ p. p.1) h) (Same-refl w) }

  pub Plain-add_mode : (name : Text) (perm : ℕ) → Plain (add_mode disk name perm)
  Plain-add_mode name perm = record {
    at = λ w w' _ h.
        rw (← ap (λ p. p.1) h) (record {
          filled = refl;
          greatest = refl;
          extracted = refl;
          largest = refl;
          count = refl;
        });
  }

  pub on_error_done :
      (a : Action) (p : Result ExtractError (Unit {0}) × World) (w' : World)
      → on_error disk a p ≡ (ok tt, w')
      → p ≡ (ok tt, w')
  on_error_done a (ok _, w) w' h = h
  on_error_done a (err e, w) w' h = cc

  Plain-or_close : (path : Text) (m : Extract (Unit {0})) → Plain m → Plain (or_close disk path m)
  Plain-or_close path m p = record {
    at = λ w w' a h. p.at w w' tt (on_error_done (close path) (m w) w' h);
  }

  check_count-eq-ok :
      (limits : RootfsLimits) (read_limit declared count : ℕ)
      → check_count limits read_limit declared count ≡ ok tt
      → (count ≤ read_limit) × (count ≡ declared)
  unfolding check_count
  check_count-eq-ok limits read_limit declared count h = ground arith

  copy_file-checked :
      (limits : RootfsLimits) (path : Text) (perm read_limit declared count : ℕ) (s : Stream)
      (w w' : World)
      → copy_file disk limits path perm read_limit declared count s w ≡ (ok tt, w')
      → check_count limits read_limit declared count ≡ ok tt
  unfolding copy_file
  copy_file-checked limits path perm read_limit declared count s w w' h =
      let (_, w₁, a, r₁) = continue-eq-ok (act disk (fill path count) w) _ h in
      let (_, w₂, b, r₂) = continue-eq-ok (lift (reject (not s.copies) not_finished) w₁) _ r₁ in
      let (_, w₃, c, r₃) =
        continue-eq-ok (lift (check_count limits read_limit declared count) w₂) _ r₂ in
      ap (λ p. p.0) c

  -- What follows the copy.
  abbrev copied : RootfsLimits → Text → ℕ → ℕ → ℕ → ℕ → Stream → Extract (Unit {0})
  copied limits path perm read_limit declared count s = do
    lift (reject (not s.copies) not_finished)
    lift (check_count limits read_limit declared count)
    lift (reject s.extra more_data)
    lift (reject (not s.finishes) not_finished)
    act disk (set_mode path perm)

  copied-Plain :
      (limits : RootfsLimits) (path : Text) (perm read_limit declared count : ℕ) (s : Stream)
      → Plain (copied limits path perm read_limit declared count s)
  copied-Plain limits path perm read_limit declared count s =
      search (Plain-bind, Plain-act, Plain-lift) depth 20

  act_fill :
      (path : Text) (n : ℕ) (w w' : World)
      → act disk (fill path n) w ≡ (ok tt, w')
      → Added n w w' × (w'.extracted ≡ w.extracted)
  unfolding act filled_bytes greatest_fill
  act_fill path n w w' h =
      rw (← ap (λ p. p.1) h)
        (record { filled = omega arith; greatest = refl; largest = refl; count = refl }, refl)

  -- The copy adds its bytes to the log, and not yet to the counters.
  copy_file-Added :
      (limits : RootfsLimits) (path : Text) (perm read_limit declared n : ℕ) (s : Stream)
      (w w' : World)
      → copy_file disk limits path perm read_limit declared n s w ≡ (ok tt, w')
      → Added n w w' × (w'.extracted ≡ w.extracted)
  unfolding copy_file
  copy_file-Added limits path perm read_limit declared n s w w' h =
      let rest = copied limits path perm read_limit declared n s in
      let (_, v, a, r) = continue-eq-ok (act disk (fill path n) w) (λ _. rest) h in
      let (added, same) = act_fill path n w v a in
      let p = (copied-Plain limits path perm read_limit declared n s).at v w' tt r in
      (
        record {
          filled = omega (arith, added.filled, p.filled);
          greatest = p.greatest ∙ added.greatest;
          largest = p.largest ∙ added.largest;
          count = p.count ∙ added.count;
        },
        p.extracted ∙ same,
      )

  pub fill_file-Added :
      (limits : RootfsLimits) (path : Text) (perm read_limit declared : ℕ) (s : Stream)
      (w w' : World)
      → fill_file disk limits path perm read_limit declared s w ≡ (ok tt, w')
      → (declared ≤ read_limit) × Added declared w w' × (w'.extracted ≡ w.extracted + declared)
  unfolding fill_file
  fill_file-Added limits path perm read_limit declared s w w' h =
      let n = least s.available (suc read_limit) in
      let copy = copy_file disk limits path perm read_limit declared n s in
      let (_, w₁, a, r₁) = continue-eq-ok (or_close disk path copy w) _ h in
      let (_, w₂, b, r₂) = continue-eq-ok (act disk (close path) w₁) _ r₁ in
      let done = on_error_done (close path) (copy w) w₁ a in
      let (few, exact) =
        check_count-eq-ok limits read_limit declared n
          (copy_file-checked limits path perm read_limit declared n s w w₁ done) in
      let (p, kept) = copy_file-Added limits path perm read_limit declared n s w w₁ done in
      let q = (Plain-act (close path) refl).at w₁ w₂ tt b in
      let e : w' ≡ record w₂ { extracted = w₂.extracted + n } = sym (ap (λ p. p.1) r₂) in
      (
        omega (arith, few, exact),
        record {
          filled = omega (arith, exact, p.filled, q.filled, ap (λ v. filled_bytes v.log) e);
          greatest = rw (← exact) (ap (λ v. greatest_fill v.log) e ∙ q.greatest ∙ p.greatest);
          largest = ap (λ v. v.largest) e ∙ q.largest ∙ p.largest;
          count = ap (λ v. v.count) e ∙ q.count ∙ p.count;
        },
        omega (arith, exact, kept, q.extracted, ap (λ v. v.extracted) e),
      )
