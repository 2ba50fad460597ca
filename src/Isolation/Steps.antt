-- ===== src/Isolation/Steps.antt =====
-- The steps of `createOverlayRoot`, each with the descriptors that it takes over.
use bcs_zc241t_study_project.Prelude.{
  ℕ, ◌+◌, ◌≡◌, refl, Option, some, [], ◌∷◌, Result, ok, err, arith,
}
use bcs_zc241t_study_project.Isolation.Calls.{move_mount, Fd, Log, Kernel, FsError, Exec, perform}
use bcs_zc241t_study_project.Isolation.Mounts.{move}
use bcs_zc241t_study_project.Isolation.Stage.{
  Stage, Errors, join_errors, close_owned_fd, cleanup_on_error, settle_step, staged, settle_close,
  close_step, close_failed, move_lower,
}
use bcs_zc241t_study_project.Isolation.Balance.{
  one, opens, Left, left_by, Leaves, nothing, Leaves-perform,
}
use bcs_zc241t_study_project.Isolation.Owned.{owns, Takes, cleanup-Left, close_owned_fd-Left}

module _ (k : Kernel) where
  module _ {B : Type 0} (own : B → Fd → ℕ) where
    failed-Left :
        (s : Stage) (e : FsError) (j log : Log) (x : Fd)
        → Left x (owns s x) j log
        → let end = cleanup_on_error k {A = B} s e log in Left x (left_by own end.0 x) j end.1
    failed-Left s e j log x p = cleanup-Left k s j log x p

    pub Takes-staged :
        {A : Type 0} (given : A → Fd → ℕ) (s : Stage) (m : Exec A) (next : A → Exec B)
        → Leaves given m
        → ((a : A) → Takes (λ x. given a x + owns s x) own (next a))
        → Takes (owns s) own (staged k s m next)
    unfolding staged
    Takes-staged {A = A} given s m next p q = record {
      at = λ j log x due. settled (m log).0 j log (m log).1 x due (p.at log x);
    }
      where
        settled :
            (r : Result FsError A) (j log after : Log) (x : Fd)
            → Left x (owns s x) j log
            → Left x (left_by given r x) log after
            → let end = settle_step k s (r, after) next in Left x (left_by own end.0 x) j end.1
        settled (ok a) j log after x due p = (q a).at j after x (omega (arith, due, p))
        settled (err e) j log after x due p = failed-Left s e j after x (omega (arith, due, p))

    pub Takes-close :
        (s : Stage) (fd : Option Fd) (next : Exec B)
        → Takes (owns s) own next
        → Takes (λ x. opens x fd + owns s x) own (close_step k s fd next)
    unfolding close_step
    Takes-close s fd next q = record {
      at = λ j log x due.
          settled (close_owned_fd k fd log).0 j (close_owned_fd k fd log).1 x
            (close_owned_fd-Left k fd (owns s x) j log x due);
    }
      where
        settled :
            (errs : Errors) (j log : Log) (x : Fd)
            → Left x (owns s x) j log
            → let end = settle_close k s next (errs, log) in Left x (left_by own end.0 x) j end.1
        settled [] j log x p = q.at j log x p
        settled (e ∷ errs) j log x p = failed-Left s e j log x p

    pub Takes-due :
        (due due' : Fd → ℕ) (m : Exec B)
        → ((x : Fd) → due' x ≡ due x)
        → Takes due own m
        → Takes due' own m
    Takes-due due due' m e q = record { at = λ j log x p. q.at j log x (rw (← e) p) }

  -- The lower layer's mount is closed where it cannot be attached.
  module _ {B : Type 0} (own : B → Fd → ℕ) where
    pub Takes-move :
        (s : Stage) (lower_mount target : Fd) (next : Exec B)
        → Takes (λ x. one lower_mount x + owns s x) own next
        → Takes
            (λ x. one lower_mount x + owns s x)
            own
            (staged k s (move_lower k lower_mount target) (λ _. next))
    unfolding staged move_lower move
    Takes-move s lower_mount target next q = record {
      at = λ j log x due.
          let moving = perform k (move_mount lower_mount target) log in
          settled moving.0 j log moving.1 x due
            ((Leaves-perform k (move_mount lower_mount target) refl).at log x);
    }
      where
        settled :
            (r : Result FsError (Unit {0})) (j log after : Log) (x : Fd)
            → Left x (one lower_mount x + owns s x) j log
            → Left x (left_by nothing r x) log after
            → let end = settle_step k s (close_failed k lower_mount (r, after)) (λ _. next) in
              Left x (left_by own end.0 x) j end.1
        settled (ok _) j log after x due p = q.at j after x (omega (arith, due, p))
        settled (err e) j log after x due p =
            let (errs, closed) = close_owned_fd k (some lower_mount) after in
            failed-Left own s (join_errors e errs) j closed x (
              close_owned_fd-Left k (some lower_mount) (owns s x) j after x (omega (arith, due, p)))
