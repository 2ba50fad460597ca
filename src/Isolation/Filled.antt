-- ===== src/Isolation/Filled.antt =====
-- From the directories of the staging filesystem to the overlay: who owns which descriptor.
use bcs_zc241t_study_project.Prelude.{ℕ, ◌+◌, ◌≡◌, refl, true, Option, none, some, ok, arith, codes}
use bcs_zc241t_study_project.Text.{Text}
use bcs_zc241t_study_project.Isolation.Calls.{Fd, mkdirat, openat2, Kernel, Exec, perform, acquire}
use bcs_zc241t_study_project.Isolation.Mounts.{secure, clone_mount, mount_overlay}
use bcs_zc241t_study_project.Isolation.Stage.{Stage, staged, close_step, move_lower, fill_stage}
use bcs_zc241t_study_project.Isolation.Balance.{
  one, Leaves, nothing, Leaves-perform, Leaves-acquire,
}
use bcs_zc241t_study_project.Isolation.Balanced.{clone_mount-Leaves, mount_overlay-Leaves}
use bcs_zc241t_study_project.Isolation.Owned.{owns, Takes}
use bcs_zc241t_study_project.Isolation.Steps.{Takes-staged, Takes-close, Takes-due, Takes-move}

-- The overlay and what its stage has to close.
abbrev pub both : Fd × Stage → Fd → ℕ
both (overlay, s) x = one overlay x + owns s x

-- A stage with these descriptors.
abbrev pub holding : Text → Option Fd → Option Fd → Option Fd → Option Fd → Stage
holding path dir upper work lower = record {
  path = path;
  attached = true;
  stage_fd = dir;
  upper_fd = upper;
  work_fd = work;
  lower_fd = lower;
  staging_mount = none;
}

module _ (k : Kernel) where
  Takes-end :
      (s : Stage) (overlay : Fd)
      → Takes (λ x. one overlay x + owns s x) both (λ log. (ok (overlay, s), log))
  Takes-end s overlay = record { at = λ j log x p. p }

  -- A step after which the stage has what the step opened.
  pub Takes-step :
      {A : Type 0} (given : A → Fd → ℕ) (s : Stage) (s' : A → Stage) (m : Exec A)
      (next : A → Exec (Fd × Stage))
      → ((a : A) (x : Fd) → given a x + owns s x ≡ owns (s' a) x)
      → Leaves given m
      → ((a : A) → Takes (owns (s' a)) both (next a))
      → Takes (owns s) both (staged k s m next)
  Takes-step given s s' m next e p q =
      Takes-staged k both given s m next p
        λ a. Takes-due k both (owns (s' a)) _ (next a) (e a) (q a)

  mkdirat-Leaves :
      (dir : Fd) (name : Text) (mode : ℕ) → Leaves nothing (perform k (mkdirat dir name mode))
  mkdirat-Leaves dir name mode = Leaves-perform k (mkdirat dir name mode) refl

  directory-Leaves :
      (dir : Fd) (name : Text) → Leaves one (acquire k (openat2 (some dir) name (secure true)))
  directory-Leaves dir name = Leaves-acquire k (openat2 (some dir) name (secure true)) refl

  -- From the clone of the lower layer on.
  layered-Takes :
      (root dir upper work lower : Fd) (path : Text) (next : Exec (Fd × Stage))
      → let s = holding path (some dir) (some upper) (some work) (some lower) in
        Takes (owns s) both next
        → Takes (owns s) both (
            staged k s (clone_mount k root true) λ lower_mount.
              staged k s
                (move_lower k lower_mount lower)
                λ _. close_step k s (some lower_mount) next)
  layered-Takes root dir upper work lower path next q =
      let s = holding path (some dir) (some upper) (some work) (some lower) in
      Takes-staged k both one s (clone_mount k root true) _ (clone_mount-Leaves k root true)
        λ lower_mount.
          Takes-move k both s lower_mount lower _ (Takes-close k both s (some lower_mount) next q)

  kept_lower :
      (path : Text) (dir upper work lower x : Fd)
      → one lower x + owns (holding path (some dir) (some upper) (some work) none) x
        ≡ owns (holding path (some dir) (some upper) (some work) (some lower)) x
  unfolding owns
  kept_lower path dir upper work lower x = omega arith

  kept_work :
      (path : Text) (dir upper work x : Fd)
      → one work x + owns (holding path (some dir) (some upper) none none) x
        ≡ owns (holding path (some dir) (some upper) (some work) none) x
  unfolding owns
  kept_work path dir upper work x = omega arith

  kept_upper :
      (path : Text) (dir upper x : Fd)
      → one upper x + owns (holding path (some dir) none none none) x
        ≡ owns (holding path (some dir) (some upper) none none) x
  unfolding owns
  kept_upper path dir upper x = omega arith

  -- The overlay, at the end.
  overlay-Takes :
      (s : Stage) (lower upper work : Text)
      → Takes
          (owns s)
          both
          (staged k s (mount_overlay k lower upper work) λ overlay log. (ok (overlay, s), log))
  overlay-Takes s lower upper work =
      Takes-staged k both one s (mount_overlay k lower upper work) _
        (mount_overlay-Leaves k lower upper work) (Takes-end s)

  pub fill_stage-Takes :
      (root dir : Fd) (path : Text)
      → Takes
          (owns (holding path (some dir) none none none))
          both
          (fill_stage k root dir (holding path (some dir) none none none))
  unfolding fill_stage
  fill_stage-Takes root dir path =
      let s = holding path (some dir) none none none in
      let same : (a : Unit {0}) (x : Fd) → 0 + owns s x ≡ owns s x = λ a x. omega arith in
      Takes-step nothing s (λ _. s) _ _ same (mkdirat-Leaves dir (codes "upper") 0o700)
        λ _.
          Takes-step nothing s (λ _. s) _ _ same (mkdirat-Leaves dir (codes "work") 0o700)
            λ _.
              Takes-step nothing s (λ _. s) _ _ same (mkdirat-Leaves dir (codes "lower") 0o700)
                λ _.
                  Takes-step one s (λ upper. holding path (some dir) (some upper) none none) _ _
                    (kept_upper path dir) (directory-Leaves dir (codes "upper"))
                    λ upper.
                      Takes-step one _
                        (λ work. holding path (some dir) (some upper) (some work) none) _ _
                        (kept_work path dir upper) (directory-Leaves dir (codes "work"))
                        λ work.
                          Takes-step one _
                            (λ lower. holding path (some dir) (some upper) (some work) (some lower))
                            _ _ (kept_lower path dir upper work)
                            (directory-Leaves dir (codes "lower"))
                            λ lower.
                              layered-Takes root dir upper work lower path _ (overlay-Takes _ _ _ _)
