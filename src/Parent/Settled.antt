-- ===== src/Parent/Settled.antt =====
-- What `Parent` of parent.go has given up when it ends, and what is reported where a release failed.
use bcs_zc241t_study_project.Prelude.{ℕ, ◌<◌, ◌≡◌, ◌⊎◌, some, [], All, arith, inl, inr}
use bcs_zc241t_study_project.Config.Types.{Config}
use bcs_zc241t_study_project.Config.Validate
use bcs_zc241t_study_project.Security
use bcs_zc241t_study_project.Parent.Steps.{Host}
use bcs_zc241t_study_project.Parent.Run.{parent}
use bcs_zc241t_study_project.Parent.Held.{nothing, replay}
use bcs_zc241t_study_project.Parent.Released.{replay-parent}
use bcs_zc241t_study_project.Parent.Result.{IsDone, parent-Tells}

told : {A B C : Type 0} (r : ℕ) → ((r ≡ 1) × A) ⊎ (((0 < r) ⊎ B) × C) → (0 < r) ⊎ B
told r (inl (one, _)) = inl (omega (arith, one))
told r (inr (said, _)) = said

-- However `Parent` ends, with whichever calls failing, its calls are a run of the machine that leads from
-- nothing back to nothing: for every resource that was taken, the call that releases it was made, once,
-- and in the order that the machine asks for, with no child left; and the configuration was sent, if at
-- all, to a child in its cgroup that has its interface when there is a bridge. A release whose call fails
-- counts as made; but unless the result is positive, every call succeeded, and so each of the releases.
pub parent-releases :
    (h : Host) (platform : Validate.Platform) (registry : Security.Platform) (cfg : Config)
    → let (r, log) = parent h platform registry cfg [] in
      (replay log ≡ some nothing) × ((0 < r) ⊎ All IsDone log)
parent-releases h platform registry cfg =
    (replay-parent h platform registry cfg, told _ (parent-Tells h platform registry cfg))
