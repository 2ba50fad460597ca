-- ===== src/Parent/Ends.antt =====
-- How code of the parent changes what is held: one rule for each way in which `Parent` of parent.go puts
-- calls together.
use bcs_zc241t_study_project.Prelude.{ℕ, ◌≡◌, refl, Bool, true, false, some, ◌∷◌}
use bcs_zc241t_study_project.Parent.Steps.{
  Act, kill_child, Log, Host, Ending, settle, attempt, call, deferred, clean, deferred_check,
  terminate, unless_reaped,
}
use bcs_zc241t_study_project.Parent.Run.{when}
use bcs_zc241t_study_project.Parent.Held.{Held, step, advance, replay}

-- From the state `pre`, the code ends in a state that is related to its result.
pub record Ends {R : Type 0} (pre : Held) (Q : R → Held → Type 0) (m : Ending R) : Type 0 where
  pub at :
      (log : Log)
      → replay log ≡ some pre
      → (post : Held) × (replay (m log).1 ≡ some post) × Q (m log).0 post

-- The code ends in this state.
abbrev pub Leaves : Held → Held → Ending ℕ → Type 0
Leaves pre post = Ends pre (λ _ h. h ≡ post)

pub replayed :
    (log : Log) {pre post : Held} (a : Act) (done : Bool)
    → replay log ≡ some pre
    → step a done pre ≡ some post
    → replay (record { act = a; done = done } ∷ log) ≡ some post
unfolding replay advance
replayed log a done h e = rw h e

module _ {R : Type 0} {Q : R → Held → Type 0} where
  pub Ends-done : {pre : Held} (r : R) → Q r pre → Ends pre Q (λ log. (r, log))
  Ends-done {pre} r q = record { at = λ log h. (pre, h, q) }

  pub Ends-call :
      {pre mid : Held} {next : Ending R} (a : Act)
      → step a true pre ≡ some mid
      → Ends mid Q next
      → Ends pre Q (call a next)
  unfolding call
  Ends-call a e n = record { at = λ log h. n.at _ (replayed log a true h e) }

  pub Ends-attempt :
      {pre mid fail : Held} {next : Ending R} (h : Host) (failure : R) (a : Act)
      → step a true pre ≡ some mid
      → step a false pre ≡ some fail
      → Q failure fail
      → Ends mid Q next
      → Ends pre Q (attempt h failure a next)
  unfolding attempt
  Ends-attempt {pre} {mid} {fail} {next} h failure a e f q n = record {
    at = λ log held. settled (h.succeeds log a) log held;
  }
    where
      settled :
          (b : Bool) (log : Log)
          → replay log ≡ some pre
          → (post : Held) × (replay (settle h b failure a next log).1 ≡ some post)
            × Q (settle h b failure a next log).0 post
      settled true log held = n.at _ (replayed log a true held e)
      settled false log held = (fail, replayed log a false held f, q)

  pub Ends-when :
      {pre : Held} (b : Bool) (with : Ending R → Ending R) (next : Ending R)
      → (b ≡ true → Ends pre Q (with next))
      → (b ≡ false → Ends pre Q next)
      → Ends pre Q (when b with next)
  Ends-when true with next t f = t refl
  Ends-when false with next t f = f refl

pub Leaves-deferred :
    {pre mid post : Held} {body : Ending ℕ} (a : Act)
    → step a true mid ≡ some post
    → Leaves pre mid body
    → Leaves pre post (deferred a body)
unfolding deferred
Leaves-deferred {post = post} a e b = record {
  at =
      λ log held. let (h, r, same) = b.at log held in (post, replayed _ a true r (rw same e), refl);
}

pub Leaves-deferred_check :
    {pre mid post : Held} {body : Ending ℕ} (h : Host) (a : Act)
    → step a true mid ≡ some post
    → step a false mid ≡ some post
    → Leaves pre mid body
    → Leaves pre post (deferred_check h a body)
unfolding deferred_check
Leaves-deferred_check {mid = mid} {post} {body} h a e f b = record {
  at = λ log held.
      let (end, r, same) = b.at log held in
      cleaned (h.succeeds (body log).1 a) (body log).0 (body log).1 (rw (← same) r);
}
  where
    cleaned :
        (b : Bool) (r : ℕ) (log : Log)
        → replay log ≡ some mid
        → (end : Held) × (replay (clean h b a r log).1 ≡ some end) × (end ≡ post)
    cleaned true r log held = (post, replayed log a true held e, refl)
    cleaned false r log held = (post, replayed log a false held f, refl)

-- Not reaped is a child that may be killed; reaped is one that is gone.
abbrev pub IsReapedInto : Held → (ℕ × Bool) → Held → Type 0
IsReapedInto post (r, true) h = h ≡ post
IsReapedInto post (r, false) h = step kill_child true h ≡ some post

pub Leaves-unless_reaped :
    {pre post : Held} {body : Ending (ℕ × Bool)}
    → Ends pre (IsReapedInto post) body
    → Leaves pre post (unless_reaped body)
unfolding unless_reaped
Leaves-unless_reaped {post = post} {body} b = record {
  at = λ log held.
      let (h, r, q) = b.at log held in ended (body log).0.1 (body log).0.0 (body log).1 h r q;
}
  where
    ended :
        (reaped : Bool) (r : ℕ) (log : Log) (h : Held)
        → replay log ≡ some h
        → IsReapedInto post (r, reaped) h
        → (end : Held) × (replay (terminate reaped r log).1 ≡ some end) × (end ≡ post)
    ended true r log h held q = (h, held, q)
    ended false r log h held q = (post, replayed log kill_child true held q, refl)
