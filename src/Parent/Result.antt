-- ===== src/Parent/Result.antt =====
-- The result of `Parent` of parent.go: the exit code of the child, or 1.
use bcs_zc241t_study_project.Prelude.{
  ℕ, ◌≡◌, ◌<◌, ◌⊎◌, refl, Bool, true, false, Option, none, some, [], ◌∷◌, ◌==◌, All, Has, arith,
  inl, inr, Bool-cases,
}
use bcs_zc241t_study_project.Text.{Text}
use bcs_zc241t_study_project.Config.Types.{Config}
use bcs_zc241t_study_project.Config.Validate
use bcs_zc241t_study_project.Security
use bcs_zc241t_study_project.Process.{wait_for_child_code}
use bcs_zc241t_study_project.Parent.Steps.{
  Act, finish_progress, wait_child, kill_child, Entry, Log, Host, Ending, settle, attempt, call,
  deferred, clean, deferred_check, terminate, unless_reaped,
}
use bcs_zc241t_study_project.Parent.Run.{
  when, waited, wait_for_child, supervise, started, launch, with_bridge, confine, with_root,
  resolved_root, provision, accepted, parent,
}
use bcs_zc241t_study_project.Parent.Released.{parent-cases}

abbrev pub IsDone : Entry → Type 0
IsDone e = e.done ≡ true

abbrev same_code : ℕ → ℕ
same_code r = r

abbrev reaped_code : ℕ × Bool → ℕ
reaped_code r = r.0

-- The child was waited for, and this is its exit code.
abbrev pub IsChildCode : Host → ℕ → Log → Type 0
IsChildCode h r log =
    (before : Log) × Has (record { act = wait_child; done = true }) log
    × (r ≡ wait_for_child_code (h.outcome (record { act = wait_child; done = true } ∷ before)))

-- A call failed, and the result says so.
abbrev pub IsFailure : ℕ → Log → Type 0
IsFailure r log = (r ≡ 1) × ((a : Act) × Has (record { act = a; done = false }) log)

module _ (h : Host) where
  -- What a result tells about the calls made since `log`.
  pub record Tells (r : ℕ) (log log' : Log) : Type 0 where
    pub success : r ≡ 0 → All IsDone log → All IsDone log'
    pub origin : IsChildCode h r log' ⊎ IsFailure r log'

  record Telling {R : Type 0} (code : R → ℕ) (m : Ending R) : Type 0 where
    at : (log : Log) → Tells (code (m log).0) log (m log).1

  -- A call that was made on top changes neither where a result comes from.
  origin-cons :
      {r : ℕ} (log : Log) (e : Entry)
      → IsChildCode h r log ⊎ IsFailure r log
      → IsChildCode h r (e ∷ log) ⊎ IsFailure r (e ∷ log)
  origin-cons log e (inl (before, reaped, same)) = inl (before, inr reaped, same)
  origin-cons log e (inr (one, (a, failed))) = inr (one, (a, inr failed))

  Tells-cons :
      {r : ℕ} {log log' : Log} (a : Act)
      → Tells r log log'
      → Tells r log (record { act = a; done = true } ∷ log')
  Tells-cons a t = record {
    success = λ e d. (refl, t.success e d);
    origin = origin-cons _ _ t.origin;
  }

  -- The code goes on after a call that was made.
  Tells-after :
      {r : ℕ} {log log' : Log} (a : Act)
      → Tells r (record { act = a; done = true } ∷ log) log'
      → Tells r log log'
  Tells-after a t = record { success = λ e d. t.success e (refl, d); origin = t.origin }

  Tells-failed : (a : Act) (log : Log) → Tells 1 log (record { act = a; done = false } ∷ log)
  Tells-failed a log = record {
    success = λ e. absurd (omega arith);
    origin = inr (refl, (a, inl refl));
  }

  module _ {R : Type 0} (code : R → ℕ) where
    Telling-call : (a : Act) (next : Ending R) → Telling code next → Telling code (call a next)
    unfolding call
    Telling-call a next t = record { at = λ log. Tells-after a (t.at _) }

    Telling-attempt :
        (failure : R) (a : Act) (next : Ending R)
        → code failure ≡ 1
        → Telling code next
        → Telling code (attempt h failure a next)
    unfolding attempt
    Telling-attempt failure a next one t = record { at = λ log. settled (h.succeeds log a) log }
      where
        settled :
            (b : Bool) (log : Log)
            → Tells (code (settle h b failure a next log).0) log (settle h b failure a next log).1
        settled true log = Tells-after a (t.at _)
        settled false log = rw one (Tells-failed a log)

    Telling-when :
        (b : Bool) (with : Ending R → Ending R) (next : Ending R)
        → Telling code (with next)
        → Telling code next
        → Telling code (when b with next)
    Telling-when true with next t u = t
    Telling-when false with next t u = u

  Telling-deferred :
      (a : Act) (body : Ending ℕ) → Telling same_code body → Telling same_code (deferred a body)
  unfolding deferred
  Telling-deferred a body t = record { at = λ log. Tells-cons a (t.at log) }

  Telling-deferred_check :
      (a : Act) (body : Ending ℕ)
      → Telling same_code body
      → Telling same_code (deferred_check h a body)
  unfolding deferred_check
  Telling-deferred_check a body t = record {
    at = λ log. cleaned (h.succeeds (body log).1 a) (body log).0 log (body log).1 (t.at log);
  }
    where
      cleaned :
          (b : Bool) (r : ℕ) (log log' : Log)
          → Tells r log log'
          → Tells (clean h b a r log').0 log (clean h b a r log').1
      cleaned true r log log' t = Tells-cons a t
      cleaned false r log log' t = elim (Bool-cases (r == 0)) [
        | inl zero ↦
            rw zero
              (record { success = λ e. absurd (omega arith); origin = inr (refl, (a, inl refl)) })
        | inr other ↦
            rw other
              (record { success = λ e. absurd (ground arith); origin = origin-cons _ _ t.origin })
      ]

  Telling-unless_reaped :
      (body : Ending (ℕ × Bool)) → Telling reaped_code body → Telling same_code (unless_reaped body)
  unfolding unless_reaped
  Telling-unless_reaped body t = record {
    at = λ log. ended (body log).0.1 (body log).0.0 log (body log).1 (t.at log);
  }
    where
      ended :
          (b : Bool) (r : ℕ) (log log' : Log)
          → Tells r log log'
          → Tells (terminate b r log').0 log (terminate b r log').1
      ended true r log log' t = t
      ended false r log log' t = Tells-cons kill_child t

  Telling-wait_for_child : Telling reaped_code (wait_for_child h)
  unfolding wait_for_child waited call
  Telling-wait_for_child = record {
    at = λ log. record { success = λ e d. (refl, d); origin = inl (log, inl refl, refl) };
  }

  ruleset telling = (
    Telling-call, Telling-attempt, Telling-when, Telling-deferred, Telling-deferred_check,
    Telling-unless_reaped, Telling-wait_for_child, refl,
  )

  supervise-Telling : (cfg : Config) → Telling reaped_code (supervise h cfg)
  unfolding supervise
  supervise-Telling cfg = search telling depth 24

  started-Telling : (cfg : Config) → Telling same_code (started h cfg)
  unfolding started
  started-Telling cfg = search (telling, supervise-Telling) depth 24

  launch-Telling : (cfg : Config) → Telling same_code (launch h cfg)
  unfolding launch
  launch-Telling cfg = search (telling, started-Telling) depth 24

  confine-Telling : (cfg : Config) → Telling same_code (confine h cfg)
  unfolding confine with_bridge
  confine-Telling cfg = search (telling, launch-Telling) depth 24

  resolved_root-Tells :
      (found : Option Text) (a : Act) (cfg : Config) (log : Log)
      → Tells (resolved_root h found a cfg log).0 log (resolved_root h found a cfg log).1
  unfolding call
  resolved_root-Tells none a cfg log = Tells-cons finish_progress (Tells-failed a log)
  resolved_root-Tells (some path) a cfg log =
      Tells-after a (Tells-after finish_progress ((confine-Telling (with_root h cfg path)).at _))

  provision-Telling : (cfg : Config) → Telling same_code (provision h cfg)
  unfolding provision
  provision-Telling cfg =
      Telling-deferred finish_progress _
        (record { at = λ log. resolved_root-Tells (h.resolved log) _ cfg log })

  accepted-Telling : (cfg : Config) → Telling same_code (accepted h cfg)
  unfolding accepted
  accepted-Telling cfg = search (telling, provision-Telling) depth 24

  success_or : {A : Type 0} (r : ℕ) → (r ≡ 0 → A) → (0 < r) ⊎ A
  success_or r f = elim (Bool-cases (r == 0)) [
    | inl zero ↦ inr (f (ground arith))
    | inr other ↦ inl (ground arith)
  ]

  -- The result of `Parent`: it ends without a call, as the configuration is refused, or the result is the
  -- exit code of the child, which was waited for, or it is 1 and a call failed. It is 0 only when every
  -- call that was made succeeded, the clean-up included.
  pub parent-Tells :
      (platform : Validate.Platform) (registry : Security.Platform) (cfg : Config)
      → let (r, log) = parent h platform registry cfg [] in
        ((r ≡ 1) × (log ≡ []))
        ⊎ (((0 < r) ⊎ All IsDone log) × (IsChildCode h r log ⊎ IsFailure r log))
  parent-Tells platform registry cfg = elim (parent-cases h platform registry cfg []) [
    | inl refused ↦ inl (rw refused (refl, refl))
    | inr same ↦
        let t = (accepted-Telling cfg).at [] in
        rw same (inr (success_or _ (λ e. t.success e tt), t.origin))
  ]
