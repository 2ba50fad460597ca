-- ===== src/Isolation/Owned.antt =====
-- Who owns which descriptor while isolation.go makes the private root.
use bcs_zc241t_study_project.Prelude.{
  ℕ, ◌+◌, ◌≡◌, refl, Bool, true, false, Option, none, some, [], ◌∷◌, Result, ok, err, arith,
}
use bcs_zc241t_study_project.Text.{Text}
use bcs_zc241t_study_project.Isolation.Calls.{
  Fd, Errno, Call, close, unmount, remove_directory, Log, Kernel, FsError, Exec, settle, perform,
}
use bcs_zc241t_study_project.Isolation.Stage.{
  Stage, errors_of, close_owned_fd, detach, after_remove, remove_stage, cleanup,
}
use bcs_zc241t_study_project.Isolation.Balance.{
  one, opens, Left, left_by, Leaves, nothing, Left-close, Leaves-perform,
}

-- What a stage has to close.
unfoldable pub owns : Stage → Fd → ℕ
owns s x =
    opens x s.stage_fd
    + opens x s.upper_fd
    + opens x s.work_fd
    + opens x s.lower_fd
    + opens x s.staging_mount

-- Code that takes over what is due, and leaves open what its result owns.
pub record Takes {A : Type 0} (due : Fd → ℕ) (own : A → Fd → ℕ) (m : Exec A) : Type 0 where
  pub at :
      (j log : Log) (x : Fd) → Left x (due x) j log → Left x (left_by own (m log).0 x) j (m log).1

module _ (k : Kernel) where
  closed_by :
      (fd : Fd) (n : ℕ) (j log : Log) (x : Fd)
      → Left x (one fd x + n) j log
      → Left x n j (perform k (close fd) log).1
  unfolding perform
  closed_by fd n j log x p = settled (k.answer log (close fd))
    where
      settled : (a : Option Errno) → Left x n j (settle k a (close fd) log).1
      settled none = Left-close x fd n j log p
      settled (some e) = Left-close x fd n j log p

  errors_of-log : (r : Result FsError (Unit {0})) (log : Log) → (errors_of (r, log)).1 ≡ log
  errors_of-log (ok _) log = refl
  errors_of-log (err e) log = refl

  pub close_owned_fd-Left :
      (fd : Option Fd) (n : ℕ) (j log : Log) (x : Fd)
      → Left x (opens x fd + n) j log
      → Left x n j (close_owned_fd k fd log).1
  unfolding close_owned_fd
  close_owned_fd-Left none n j log x p = omega (arith, p)
  close_owned_fd-Left (some fd) n j log x p =
      rw (errors_of-log (perform k (close fd) log).0 (perform k (close fd) log).1)
        (closed_by fd n j log x p)

  call-Left :
      (c : Call) (n : ℕ) (j log : Log) (x : Fd)
      → Leaves nothing (perform k c)
      → Left x n j log
      → Left x n j (perform k c log).1
  call-Left c n j log x q p = passed (perform k c log).0 (q.at log x)
    where
      passed :
          (r : Result FsError (Unit {0}))
          → Left x (left_by nothing r x) log (perform k c log).1
          → Left x n j (perform k c log).1
      passed (ok _) s = omega (arith, p, s)
      passed (err e) s = omega (arith, p, s)

  detach-Left :
      (attached : Bool) (path : Text) (n : ℕ) (j log : Log) (x : Fd)
      → Left x n j log
      → Left x n j (detach k attached path log).2
  unfolding detach
  detach-Left false path n j log x p = p
  detach-Left true path n j log x p =
      rw (errors_of-log (perform k (unmount path) log).0 (perform k (unmount path) log).1)
        (call-Left (unmount path) n j log x (Leaves-perform k (unmount path) refl) p)

  after_remove-log :
      (path : Text) (r : Result FsError (Unit {0})) (log : Log)
      → (after_remove k path (r, log)).2 ≡ log
  after_remove-log path (ok _) log = refl
  after_remove-log path (err e) log = ground arith

  remove_stage-Left :
      (attached : Bool) (path : Text) (n : ℕ) (j log : Log) (x : Fd)
      → Left x n j log
      → Left x n j (remove_stage k attached path log).2
  unfolding remove_stage
  remove_stage-Left true path n j log x p = p
  remove_stage-Left false [] n j log x p = p
  remove_stage-Left false (c ∷ path) n j log x p =
      let removing = perform k (remove_directory (c ∷ path)) log in
      rw (after_remove-log (c ∷ path) removing.0 removing.1)
        (call-Left _ n j log x (Leaves-perform k (remove_directory (c ∷ path)) refl) p)

  pub cleanup-Left :
      (s : Stage) (j log : Log) (x : Fd) → Left x (owns s x) j log → Left x 0 j (cleanup k s log).2
  unfolding cleanup owns
  cleanup-Left s j log x p =
      let l₁ = (detach k s.attached s.path log).2 in
      let l₂ = (close_owned_fd k s.upper_fd l₁).1 in
      let l₃ = (close_owned_fd k s.work_fd l₂).1 in
      let l₄ = (close_owned_fd k s.lower_fd l₃).1 in
      let l₅ = (close_owned_fd k s.stage_fd l₄).1 in
      let stage = opens x s.stage_fd in
      let lower = opens x s.lower_fd in
      let work = opens x s.work_fd in
      let staging = opens x s.staging_mount in
      let p₁ = detach-Left s.attached s.path (owns s x) j log x p in
      let p₂ =
        close_owned_fd-Left s.upper_fd (stage + work + lower + staging) j l₁ x
          (omega (arith, p₁)) in
      let p₃ = close_owned_fd-Left s.work_fd (stage + lower + staging) j l₂ x (omega (arith, p₂)) in
      let p₄ = close_owned_fd-Left s.lower_fd (stage + staging) j l₃ x (omega (arith, p₃)) in
      let p₅ = close_owned_fd-Left s.stage_fd staging j l₄ x (omega (arith, p₄)) in
      let p₆ = close_owned_fd-Left s.staging_mount 0 j l₅ x (omega (arith, p₅)) in
      remove_stage-Left (detach k s.attached s.path log).0 s.path 0 j _ x p₆
