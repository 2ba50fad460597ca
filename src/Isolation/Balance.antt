-- ===== src/Isolation/Balance.antt =====
-- How often descriptors are opened and closed: one rule for each way in which isolation.go puts calls
-- together.
use bcs_zc241t_study_project.Prelude.{
  ℕ, ◌+◌, ◌≡◌, Bool, true, false, Option, none, some, [], ◌∷◌, Result, ok, err, ◌==◌, if◌then◌else◌,
  length, arith,
}
use bcs_zc241t_study_project.Prelude.Run.{continue, ◌>>=◌, lift}
use bcs_zc241t_study_project.Isolation.Targets.{close_on_error, keeping, tolerate}
use bcs_zc241t_study_project.Isolation.Calls.{
  Fd, Errno, Call, close, Log, Kernel, FsError, Exec, settle, perform, settle_open, acquire, Stat,
  no_stat, using, answered, fstat, fstatfs,
}

-- One for the descriptor itself, nothing for any other.
unfoldable pub one : Fd → Fd → ℕ
one fd x = if fd == x then 1 else 0

abbrev pub opens : Fd → Option Fd → ℕ
opens x none = 0
opens x (some fd) = one fd x

abbrev pub closed_fd : Call → Option Fd
closed_fd (close fd) = some fd
closed_fd c = none

-- How often a descriptor has been opened, and closed.
unfoldable pub opened_times : Fd → Log → ℕ
opened_times x [] = 0
opened_times x (e ∷ log) = opens x e.opened + opened_times x log

unfoldable pub closed_times : Fd → Log → ℕ
closed_times x [] = 0
closed_times x (e ∷ log) = opens x (closed_fd e.call) + closed_times x log

-- From one log to the other, the descriptor `x` was opened `n` times more than it was closed.
abbrev pub Left : Fd → ℕ → Log → Log → Type 0
Left x n log log' =
    opened_times x log' + closed_times x log ≡ opened_times x log + closed_times x log' + n

abbrev pub left_by : {A : Type 0} → (A → Fd → ℕ) → Result FsError A → Fd → ℕ
left_by own (ok a) x = own a x
left_by own (err e) x = 0

-- Code that leaves open what its result owns, and nothing when it fails.
pub record Leaves {A : Type 0} (own : A → Fd → ℕ) (m : Exec A) : Type 0 where
  pub at : (log : Log) (x : Fd) → Left x (left_by own (m log).0 x) log (m log).1

abbrev pub nothing : {A : Type 0} → A → Fd → ℕ
nothing a x = 0

pub Left-refl : (x : Fd) (log : Log) → Left x 0 log log
Left-refl x log = omega arith

-- A call that opens and closes nothing, on top of a log.
pub Left-cons :
    (x : Fd) (c : Call) (log : Log)
    → closed_fd c ≡ none
    → Left x 0 log (record { call = c; opened = none } ∷ log)
unfolding opened_times closed_times
Left-cons x c log h = rw h (omega arith)

pub Left-close :
    (x fd : Fd) (n : ℕ) (log log' : Log)
    → Left x (one fd x + n) log log'
    → Left x n log (record { call = close fd; opened = none } ∷ log')
unfolding opened_times closed_times
Left-close x fd n log log' h = omega (arith, h)

Left-open :
    (x fd : Fd) (c : Call) (log : Log)
    → closed_fd c ≡ none
    → Left x (one fd x) log (record { call = c; opened = some fd } ∷ log)
unfolding opened_times closed_times
Left-open x fd c log h = rw h (omega arith)

pub Left-trans : (x : Fd) (m n : ℕ) (j k l : Log) → Left x m j k → Left x n k l → Left x (m + n) j l
Left-trans x m n j k l p q = omega (arith, p, q)

module _ (k : Kernel) where
  pub Leaves-perform : (c : Call) → closed_fd c ≡ none → Leaves nothing (perform k c)
  unfolding perform
  Leaves-perform c h = record { at = λ log x. settled (k.answer log c) log x }
    where
      settled :
          (a : Option Errno) (log : Log) (x : Fd)
          → Left x (left_by nothing (settle k a c log).0 x) log (settle k a c log).1
      settled none log x = Left-cons x c log h
      settled (some e) log x = Left-cons x c log h

  pub Leaves-acquire : (c : Call) → closed_fd c ≡ none → Leaves one (acquire k c)
  unfolding acquire
  Leaves-acquire c h = record { at = λ log x. settled (k.answer log c) log x }
    where
      settled :
          (a : Option Errno) (log : Log) (x : Fd)
          → Left x (left_by one (settle_open k a c log).0 x) log (settle_open k a c log).1
      settled none log x = Left-open x (length log) c log h
      settled (some e) log x = Left-cons x c log h

  pub Leaves-fstat : (fd : Fd) → Leaves nothing (fstat k fd)
  unfolding fstat answered
  Leaves-fstat fd = record { at = λ log x. same (k.stat log fd) log x }
    where
      same :
          (a : Option Stat) (log : Log) (x : Fd)
          → Left x (left_by nothing (answered a (no_stat fd)) x) log log
      same none log x = Left-refl x log
      same (some a) log x = Left-refl x log

  pub Leaves-fstatfs : (fd : Fd) → Leaves nothing (fstatfs k fd)
  unfolding fstatfs answered
  Leaves-fstatfs fd = record { at = λ log x. same (k.filesystem log fd) log x }
    where
      same :
          (a : Option ℕ) (log : Log) (x : Fd)
          → Left x (left_by nothing (answered a (no_stat fd)) x) log log
      same none log x = Left-refl x log
      same (some a) log x = Left-refl x log

pub Leaves-lift : (r : Result FsError (Unit {0})) → Leaves nothing (lift r)
Leaves-lift (ok a) = record { at = λ log x. Left-refl x log }
Leaves-lift (err e) = record { at = λ log x. Left-refl x log }

pub Left-after : (x : Fd) (n : ℕ) (j k l : Log) → Left x 0 j k → Left x n k l → Left x n j l
Left-after x n j k l p q = omega (arith, p, q)

module _ {A B : Type 0} (own : B → Fd → ℕ) where
  continue-Left :
      (r : Result FsError A) (given : A → Fd → ℕ) (f : A → Exec B) (j log : Log) (x : Fd)
      → Left x (left_by given r x) j log
      → ((a : A) → Left x (given a x) j log → Left x (left_by own (f a log).0 x) j (f a log).1)
      → Left x (left_by own (continue (r, log) f).0 x) j (continue (r, log) f).1
  continue-Left (ok a) given f j log x p next = next a p
  continue-Left (err e) given f j log x p next = p

  pub Leaves-bind :
      (m : Exec A) (f : A → Exec B)
      → Leaves nothing m
      → ((a : A) → Leaves own (f a))
      → Leaves own (m >>= f)
  Leaves-bind m f p q = record {
    at = λ log x.
        continue-Left (m log).0 nothing f log (m log).1 x (p.at log x)
          λ a before. Left-after x _ log (m log).1 _ before ((q a).at (m log).1 x);
  }

pub Leaves-if :
    {B : Type 0} (own : B → Fd → ℕ) (b : Bool) (m n : Exec B)
    → Leaves own m
    → Leaves own n
    → Leaves own (if b then m else n)
Leaves-if own true m n p q = p
Leaves-if own false m n p q = q

module _ {B : Type 0} (own : B → Fd → ℕ) where
  pub Leaves-using :
      (m : Exec Fd) (body : Fd → Exec B)
      → Leaves one m
      → ((fd : Fd) → Leaves own (body fd))
      → Leaves own (using m body)
  unfolding using
  Leaves-using m body p q = record {
    at = λ log x. continue-Left own (m log).0 one _ log (m log).1 x (p.at log x) λ fd before.
        Left-close x fd _ log (body fd (m log).1).1
          (Left-trans x (one fd x) _ log (m log).1 _ before ((q fd).at (m log).1 x));
  }

-- A result owns just the descriptor `fd`.
abbrev Owns : {A : Type 0} → Fd → (A → Fd → ℕ) → Fd → Result FsError A → Type 0
Owns fd own x (ok a) = own a x ≡ one fd x
Owns fd own x (err e) = Unit

-- Code that leaves nothing open and whose result owns just the descriptor `fd`.
pub record Returns {A : Type 0} (fd : Fd) (own : A → Fd → ℕ) (m : Exec A) : Type 0 where
  pub at : (log : Log) (x : Fd) → Left x 0 log (m log).1 × Owns fd own x (m log).0

module _ {A : Type 0} (fd : Fd) (own : A → Fd → ℕ) where
  pub Returns-ok : (a : A) → ((x : Fd) → own a x ≡ one fd x) → Returns fd own (lift (ok a))
  Returns-ok a e = record { at = λ log x. (Left-refl x log, e x) }

  continue-Returns :
      {B : Type 0} (r : Result FsError B) (f : B → Exec A) (j log : Log) (x : Fd)
      → Left x (left_by nothing r x) j log
      → ((b : B) → Returns fd own (f b))
      → Left x 0 j (continue (r, log) f).1 × Owns fd own x (continue (r, log) f).0
  continue-Returns (ok b) f j log x p q =
      let (keeps, owns) = (q b).at log x in (Left-after x 0 j log _ p keeps, owns)
  continue-Returns (err e) f j log x p q = (p, tt)

  pub Returns-bind :
      {B : Type 0} (m : Exec B) (f : B → Exec A)
      → Leaves nothing m
      → ((b : B) → Returns fd own (f b))
      → Returns fd own (m >>= f)
  Returns-bind m f p q = record {
    at = λ log x. continue-Returns (m log).0 f log (m log).1 x (p.at log x) q;
  }

  -- The descriptor is closed when the code fails.
  closed-Left :
      (r : Result FsError A) (j log log' : Log) (x : Fd)
      → Left x (one fd x) j log
      → Left x 0 log log'
      → Owns fd own x r
      → Left x (left_by own (close_on_error fd (r, log')).0 x) j (close_on_error fd (r, log')).1
  closed-Left (ok a) j log log' x p q owns = rw owns (omega (arith, p, q))
  closed-Left (err e) j log log' x p q owns = Left-close x fd 0 j log' (omega (arith, p, q))

module _ {A : Type 0} (own : A → Fd → ℕ) where
  pub Leaves-keeping :
      (m : Exec Fd) (body : Fd → Exec A)
      → Leaves one m
      → ((fd : Fd) → Returns fd own (body fd))
      → Leaves own (keeping m body)
  unfolding keeping
  Leaves-keeping m body p q = record {
    at = λ log x. continue-Left own (m log).0 one _ log (m log).1 x (p.at log x) λ fd before.
        let (keeps, owns) = (q fd).at (m log).1 x in
        closed-Left fd own (body fd (m log).1).0 log (m log).1 (body fd (m log).1).1 x before keeps
          owns;
  }

-- A failure that is passed over.
pub Leaves-tolerate :
    (errno : Errno) (m : Exec (Unit {0}))
    → Leaves nothing m
    → Leaves nothing (λ log. tolerate errno (m log))
Leaves-tolerate errno m p = record { at = λ log x. passed (m log).0 log (m log).1 x (p.at log x) }
  where
    passed :
        (r : Result FsError (Unit {0})) (j log : Log) (x : Fd)
        → Left x (left_by nothing r x) j log
        → Left x (left_by nothing (tolerate errno (r, log)).0 x) j (tolerate errno (r, log)).1
    passed (ok a) j log x p = p
    passed (err e) j log x p = ground (arith, p)
