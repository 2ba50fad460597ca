-- ===== src/Isolation/Walked.antt =====
-- The walk to a target in isolation.go: which descriptors stay open.
use bcs_zc241t_study_project.Prelude.{
  ℕ, ◌+◌, ◌≡◌, refl, Bool, true, false, not, ◌&&◌, ◌||◌, none, List, [], ◌∷◌, Result, ok, err, ◌==◌,
  if◌then◌else◌, arith, Bool-cases, inl, inr,
}
use bcs_zc241t_study_project.Prelude.Run.{◌>>◌}
use bcs_zc241t_study_project.Text.{Text, push, split}
use bcs_zc241t_study_project.Isolation.Calls.{
  Fd, enoent, close, Log, Kernel, FsError, Exec, perform, acquire,
}
use bcs_zc241t_study_project.Isolation.Mounts.{open_secure, require_directory, require_regular_file}
use bcs_zc241t_study_project.Isolation.Targets.{
  is_nil, is_errno, after_creation, make_component, or_made, open_component, open_secure_beneath,
  open_directory_at, finish, proceed, walk, open_or_create_target, create_private_dev_directory,
  open_bind_source,
}
use bcs_zc241t_study_project.Isolation.Balance.{
  one, Left, left_by, Leaves, nothing, Left-refl, Left-close, Left-after, Left-trans,
  Leaves-acquire, Leaves-if, Leaves-keeping, Leaves-tolerate, Returns-ok, Returns-bind,
}
use bcs_zc241t_study_project.Isolation.Balanced.{balance}

module _ (k : Kernel) where
  require_directory-Leaves : (fd : Fd) → Leaves nothing (require_directory k fd)
  unfolding require_directory
  require_directory-Leaves fd = search balance depth 16

  require_regular_file-Leaves : (fd : Fd) → Leaves nothing (require_regular_file k fd)
  unfolding require_regular_file
  require_regular_file-Leaves fd = search balance depth 16

  pub open_directory_at-Leaves :
      (dir : Fd) (name : Text) → Leaves one (open_directory_at k dir name)
  unfolding open_directory_at
  open_directory_at-Leaves dir name = search balance depth 16

  pub create_private_dev_directory-Leaves :
      (parent : Fd) (name : Text) (mode : ℕ)
      → Leaves one (create_private_dev_directory k parent name mode)
  unfolding create_private_dev_directory
  create_private_dev_directory-Leaves parent name mode =
      search
        (
          balance, open_directory_at-Leaves, require_directory-Leaves, Leaves-keeping,
          Leaves-tolerate, Returns-ok, Returns-bind,
        )
        depth 24

  -- The first descriptor of a pair.
  pub open_bind_source-Leaves :
      (path : Text) → Leaves (λ (r : Fd × Bool). one r.0) (open_bind_source k path)
  unfolding open_bind_source open_secure
  open_bind_source-Leaves path = search (balance, Leaves-keeping, Returns-ok, Returns-bind) depth 24

push-nonempty : (c : ℕ) (parts : List Text) → is_nil (push c parts) ≡ false
push-nonempty c [] = refl
push-nonempty c (p ∷ ps) = refl

split-nonempty : (sep : ℕ) (s : Text) → is_nil (split sep s) ≡ false
unfolding split
split-nonempty sep [] = refl
split-nonempty sep (c ∷ s) = elim (Bool-cases (c == sep)) [
  | inl e ↦ rw e refl
  | inr e ↦ rw e (push-nonempty c (split sep s))
]

-- A kernel that closes descriptors without an error.
abbrev pub IsClosing : Kernel → Type 0
IsClosing k = (log : Log) (fd : Fd) → k.answer log (close fd) ≡ none

module _ (k : Kernel) (closing : IsClosing k) where
  close-Left :
      (fd : Fd) (j log : Log) (x : Fd)
      → Left x (one fd x) j log
      → Left x (left_by nothing (perform k (close fd) log).0 x) j (perform k (close fd) log).1
  unfolding perform
  close-Left fd j log x p = rw (closing log fd) (Left-close x fd 0 j log (omega (arith, p)))

  after_creation-Left :
      (r : Result FsError Fd) (j log : Log) (x : Fd)
      → Left x (left_by one r x) j log
      → Left x (left_by nothing (after_creation k (r, log)).0 x) j (after_creation k (r, log)).1
  after_creation-Left (ok fd) j log x p = close-Left fd j log x p
  after_creation-Left (err e) j log x p = ground (arith, p)

  make_component-Leaves :
      (dir : Fd) (part : Text) (as_file : Bool) → Leaves nothing (make_component k dir part as_file)
  unfolding make_component
  make_component-Leaves dir part false = search (balance, Leaves-tolerate) depth 16
  make_component-Leaves dir part true = record {
    at = λ log x.
        after_creation-Left (acquire k _ log).0 log (acquire k _ log).1 x
          ((Leaves-acquire k _ refl).at log x);
  }

  made-Leaves :
      (dir : Fd) (part : Text) (as_file : Bool)
      → Leaves one (make_component k dir part as_file >> open_secure_beneath k dir part)
  unfolding open_secure_beneath
  made-Leaves dir part as_file = search (balance, make_component-Leaves) depth 16

  open_component-Leaves :
      (dir : Fd) (part : Text) (as_file : Bool) → Leaves one (open_component k dir part as_file)
  unfolding open_component open_secure_beneath
  open_component-Leaves dir part as_file = record {
    at = λ log x.
        made (acquire k _ log).0 log (acquire k _ log).1 x ((Leaves-acquire k _ refl).at log x);
  }
    where
      made :
          (r : Result FsError Fd) (j log : Log) (x : Fd)
          → Left x (left_by one r x) j log
          → Left x
              (left_by one (or_made k dir part as_file (r, log)).0 x)
              j
              (or_made k dir part as_file (r, log)).1
      made (ok fd) j log x p = p
      made (err e) j log x p = chosen (is_errno enoent e) j log x p
        where
          chosen :
              (b : Bool) (j log : Log) (x : Fd)
              → Left x 0 j log
              → let end =
                  if b
                  then (make_component k dir part as_file >> open_secure_beneath k dir part) log
                  else (err e, log) in
                Left x (left_by one end.0 x) j end.1
          chosen true j log x p = Left-after x _ j log _ p ((made-Leaves dir part as_file).at log x)
          chosen false j log x p = p

  -- What the walk still has to close.
  abbrev due : Bool → Fd → Fd → ℕ
  due true fd x = one fd x
  due false fd x = 0

  finish-Left :
      (owned : Bool) (fd : Fd) (r : Result FsError (Unit {0})) (j log : Log) (x : Fd)
      → owned ≡ true
      → Left x (due owned fd x) j log
      → Left x (left_by one (finish k owned fd (r, log)).0 x) j (finish k owned fd (r, log)).1
  finish-Left true fd (ok _) j log x o p = p
  finish-Left true fd (err e) j log x o p = Left-close x fd 0 j log (omega (arith, p))
  finish-Left false fd r j log x o p = cc

  leave-Left :
      (fd : Fd) (r : Result FsError (Unit {0})) (j log : Log) (x : Fd)
      → Left x (due true fd x) j log
      → (after : Log) → Left x (left_by nothing r x) log after
      → Left x (due true fd x) j after
  leave-Left fd (ok _) j log x p after q = omega (arith, p, q)
  leave-Left fd (err e) j log x p after q = omega (arith, p, q)

  proceed-Left :
      (owned : Bool) (current : Fd) (next : Fd → Exec Fd) (r : Result FsError Fd) (j log : Log)
      (x : Fd)
      → Left x (due owned current x + left_by one r x) j log
      → ((fd : Fd) (log : Log)
          → Left x (one fd x) j log
          → Left x (left_by one (next fd log).0 x) j (next fd log).1)
      → let end = proceed k owned current next (r, log) in Left x (left_by one end.0 x) j end.1
  unfolding perform
  proceed-Left true current next (ok fd) j log x p go =
      rw (closing log current) (go fd _ (Left-close x current (one fd x) j log p))
  proceed-Left true current next (err e) j log x p go = Left-close x current 0 j log p
  proceed-Left false current next (ok fd) j log x p go = go fd log (omega (arith, p))
  proceed-Left false current next (err e) j log x p go = omega (arith, p)

  -- The walk from `current` on: what was due before is closed, and the result is left open.
  walk-Left :
      (directory owned : Bool) (current : Fd) (parts : List Text) (j log : Log) (x : Fd)
      → (owned || not (is_nil parts)) ≡ true
      → Left x (due owned current x) j log
      → let end = walk k directory owned current parts log in Left x (left_by one end.0 x) j end.1
  unfolding walk
  walk-Left directory true current [] j log x start p =
      let check =
        if directory then require_directory k current else require_regular_file k current in
      let kept =
        Leaves-if nothing directory (require_directory k current) (require_regular_file k current)
          (require_directory-Leaves k current) (require_regular_file-Leaves k current) in
      finish-Left true current (check log).0 j (check log).1 x refl
        (leave-Left current (check log).0 j log x p _ (kept.at log x))
  walk-Left directory false current [] j log x start p = cc
  walk-Left directory owned current (part ∷ rest) j log x start p =
      let opening = open_component k current part (is_nil rest && not directory) in
      proceed-Left owned current (λ fd. walk k directory true fd rest) (opening log).0 j
        (opening log).1 x
        (Left-trans x (due owned current x) (left_by one (opening log).0 x) j log (opening log).1 p
          ((open_component-Leaves current part (is_nil rest && not directory)).at log x))
        λ fd log'. walk-Left directory true fd rest j log' x refl

  walk-Leaves :
      (directory : Bool) (root : Fd) (path : Text)
      → Leaves one (walk k directory false root (split b'/' path))
  walk-Leaves directory root path = record {
    at = λ log x.
        walk-Left directory false root (split b'/' path) log log x
          (rw (split-nonempty b'/' path) refl) (Left-refl x log);
  }

  pub open_or_create_target-Leaves :
      (root : Fd) (path : Text) (directory : Bool)
      → Leaves one (open_or_create_target k root path directory)
  unfolding open_or_create_target
  open_or_create_target-Leaves root path directory = search (balance, walk-Leaves) depth 16
