-- ===== src/Child/Capabilities/Dropped.antt =====
-- What the thread has lost when `dropCapabilities` of child.go succeeds.
use bcs_zc241t_study_project.Prelude.{
  ℕ, zero, suc, [], length, ◌≢◌, ◌+◌, ◌<◌, ◌≡◌, refl, ap, ◌∙◌, Bool, true, false, not, ◌&&◌, List,
  ◌∷◌, ◌++◌, ok, ◌==◌, if◌then◌else◌, All, Has, any, arith, Bool-cases, inl, inr,
}
use bcs_zc241t_study_project.Prelude.Bits.{and_not}
use bcs_zc241t_study_project.Prelude.Run.{◌>>◌, continue, continue-eq-ok}
use bcs_zc241t_study_project.Text.{Text}
use bcs_zc241t_study_project.Child.Capabilities.{
  CapUserData, CapSets, CapCall, bounding_drop, get_sets, clear_ambient, set_sets, CapLog,
  CapKernel, flag_at, width, clear_bit, is_all, last_capability, clear_selected, cap_setpcap,
  perform, capget, drop_bounding, drop_setpcap, drop_selected, drop_capabilities, select,
}
use bcs_zc241t_study_project.Child.Capabilities.Selected.{is_wanted, IsSelected, select-IsSelected}
use bcs_zc241t_study_project.Child.Capabilities.Sets.{holds, holds-clear_selected}
use bcs_zc241t_study_project.Child.Capabilities.Bounding.{
  IsOrdinary, IsDropping, perform-ok, perform_then, drop_bounding-IsDropping,
}

-- A set keeps exactly the capabilities that are not wanted.
abbrev pub Keeps : (CapUserData → ℕ) → List Text → ℕ → CapSets → CapSets → Type 0
Keeps set requested last before after =
    (n : ℕ)
    → n < width
    → holds set n after ≡ (holds set n before && not (is_wanted requested last n))

-- The call drops a capability that is wanted, other than `CAP_SETPCAP`.
abbrev pub IsOther : List Text → ℕ → CapCall → Type 0
IsOther requested last c =
    (n : ℕ) × (c ≡ bounding_drop n)
    × (n < width)
    × (is_wanted requested last n ≡ true)
    × (n ≢ cap_setpcap)

-- The calls show what was dropped: those on the bounding set other than the one for `CAP_SETPCAP`, then
-- that one if it is wanted, then the sets read and written and the ambient set cleared.
pub record IsDropped (k : CapKernel) (requested : List Text) (log log' : CapLog) : Type 0 where
  pub last : ℕ
  pub known :
      any is_all requested ≡ true
      → (last_capability (k.cap_last_cap log) ≡ ok last) × (last < width)
  pub others : List CapCall
  pub ordinary : All (IsOther requested last) others
  pub dropped : List CapCall
  pub setpcap_last : dropped ≡ (
      if is_wanted requested last cap_setpcap then bounding_drop cap_setpcap ∷ others else others)
  pub after : CapSets
  pub changes : log' ≡ clear_ambient ∷ set_sets after ∷ get_sets ∷ (dropped ++ log)
  pub bounding :
      (n : ℕ) → n < width → is_wanted requested last n ≡ true → Has (bounding_drop n) dropped
  pub effective :
      Keeps (λ w. w.effective) requested last (k.sets (get_sets ∷ (dropped ++ log))) after
  pub permitted :
      Keeps (λ w. w.permitted) requested last (k.sets (get_sets ∷ (dropped ++ log))) after
  pub inheritable :
      Keeps (λ w. w.inheritable) requested last (k.sets (get_sets ∷ (dropped ++ log))) after

flag_at-within : (i : ℕ) (flags : List Bool) → flag_at i flags ≡ true → i < length flags
unfolding flag_at
flag_at-within i [] h = cc
flag_at-within zero (b ∷ flags) h = omega arith
flag_at-within (suc i) (b ∷ flags) h = let ih = flag_at-within i flags h in omega (arith, ih)

module _ (k : CapKernel) where
  drop_setpcap-ok :
      (wanted : Bool) (log log' : CapLog)
      → drop_setpcap k wanted log ≡ (ok tt, log')
      → log' ≡ (if wanted then bounding_drop cap_setpcap ∷ log else log)
  unfolding drop_setpcap
  drop_setpcap-ok false log log' h = cc
  drop_setpcap-ok true log log' h = (perform-ok k (bounding_drop cap_setpcap) log log' h).1

  -- The three calls at the end.
  finish-ok :
      (flags : List Bool) (log log' : CapLog)
      → continue
          (capget k log)
          (λ sets. perform k (set_sets (clear_selected 0 flags sets)) >> perform k clear_ambient)
        ≡ (ok tt, log')
      → log'
        ≡ clear_ambient
          ∷ set_sets (clear_selected 0 flags (k.sets (get_sets ∷ log)))
          ∷ get_sets
          ∷ log
  unfolding capget
  finish-ok flags log log' h =
      let (sets, l, p, q) = continue-eq-ok (capget k log) _ h in
      let (_, l₀, p₀, e) = continue-eq-ok (perform k get_sets log) _ p in
      let (_, read) = perform-ok k get_sets log l₀ p₀ in
      let (_, final) = perform-ok k clear_ambient _ log' (
        perform_then k (set_sets (clear_selected 0 flags sets)) (perform k clear_ambient) l log'
          q) in
      cc

  drop_selected-ok :
      (flags : List Bool) (log log' : CapLog)
      → drop_selected k flags log ≡ (ok tt, log')
      → (mid : CapLog) × IsDropping 0 flags log mid
        × (let final = if flag_at cap_setpcap flags then bounding_drop cap_setpcap ∷ mid else mid in
            log'
            ≡ clear_ambient
              ∷ set_sets (clear_selected 0 flags (k.sets (get_sets ∷ final)))
              ∷ get_sets
              ∷ final)
  unfolding drop_selected
  drop_selected-ok flags log log' h =
      let (_, mid, p, q) = continue-eq-ok (drop_bounding k 0 flags log) _ h in
      let (_, low, r, s) = continue-eq-ok (drop_setpcap k (flag_at cap_setpcap flags) mid) _ q in
      (
        mid,
        drop_bounding-IsDropping k 0 flags log mid p,
        rw (← drop_setpcap-ok (flag_at cap_setpcap flags) mid low r) (finish-ok flags low log' s),
      )

  -- One of the three sets after the selection, written with the flags of what is wanted.
  lost :
      (set : CapUserData → ℕ)
      → ((bit : ℕ) (w : CapUserData) → set (clear_bit bit w) ≡ and_not (set w) bit)
      → {requested : List Text} {log : CapLog} {flags : List Bool}
      → (s : IsSelected k requested log flags) → (before : CapSets)
      → Keeps set requested s.last before (clear_selected 0 flags before)
  lost set clears {requested} {log} {flags} s before n h = ground (
    arith,
    holds-clear_selected set clears 0 flags before n (omega (arith, s.size)) h,
    s.wanted n h,
  )

  all_dropped :
      {flags : List Bool} {log mid : CapLog} (d : IsDropping 0 flags log mid) (n : ℕ)
      → flag_at n flags ≡ true
      → Has
          (bounding_drop n)
          (if flag_at cap_setpcap flags then bounding_drop cap_setpcap ∷ d.calls else d.calls)
  all_dropped {flags} d n e = elim (Bool-cases (n == cap_setpcap)) [
    | inl same ↦
        let z : n ≡ cap_setpcap = ground arith in
        let set : flag_at cap_setpcap flags ≡ true = rw (← z) e in rw set (inl (rw z refl))
    | inr other ↦
        let z : 0 + n ≡ n = omega arith in
        let m : Has (bounding_drop n) d.calls = rw (← z) (d.each n e (ground arith)) in
        elim (Bool-cases (flag_at cap_setpcap flags)) [
          | inl set ↦ rw set (inr m)
          | inr set ↦ rw set m
        ]
  ]

  others_wanted :
      {requested : List Text} {log : CapLog} {flags : List Bool}
      → (s : IsSelected k requested log flags) → (calls : List CapCall)
      → All (IsOrdinary 0 flags) calls
      → All (IsOther requested s.last) calls
  others_wanted s [] all = tt
  others_wanted {requested} {log} {flags} s (c ∷ calls) ((i, same, set, other), all) =
      let z : 0 + i ≡ i = omega arith in
      let small : i < width = rw (← s.size) (flag_at-within i flags set) in
      (
        (i, rw (← z) same, small, ground (arith, s.wanted i small, set), rw (← z) other),
        others_wanted s calls all,
      )

  appended :
      (b : Bool) (c : CapCall) (calls log : CapLog)
      → (if b then c ∷ (calls ++ log) else calls ++ log) ≡ (if b then c ∷ calls else calls) ++ log
  appended true c calls log = refl
  appended false c calls log = refl

  assemble :
      (requested : List Text) (log mid log' : CapLog) (flags : List Bool)
      → (s : IsSelected k requested log flags) → (d : IsDropping 0 flags log mid)
      → let final = if flag_at cap_setpcap flags then bounding_drop cap_setpcap ∷ mid else mid in
        log'
          ≡ clear_ambient
            ∷ set_sets (clear_selected 0 flags (k.sets (get_sets ∷ final)))
            ∷ get_sets
            ∷ final
        → IsDropped k requested log log'
  assemble requested log mid log' flags s d e =
      let dropped =
        if flag_at cap_setpcap flags then bounding_drop cap_setpcap ∷ d.calls else d.calls in
      let whole : (if flag_at cap_setpcap flags then bounding_drop cap_setpcap ∷ mid else mid)
          ≡ dropped ++ log =
        rw d.added (appended (flag_at cap_setpcap flags) (bounding_drop cap_setpcap) d.calls log) in
      let before = k.sets (get_sets ∷ (dropped ++ log)) in
      record {
        last = s.last;
        known = s.known;
        others = d.calls;
        ordinary = others_wanted s d.calls d.ordinary;
        dropped = dropped;
        setpcap_last = rw (← s.wanted cap_setpcap (omega arith)) refl;
        after = clear_selected 0 flags before;
        changes =
            e
            ∙ ap
                (λ l.
                  clear_ambient
                  ∷ set_sets (clear_selected 0 flags (k.sets (get_sets ∷ l)))
                  ∷ get_sets
                  ∷ l)
                whole;
        bounding = λ n h wanted. all_dropped d n (s.wanted n h ∙ wanted);
        effective = lost (λ w. w.effective) (λ bit w. refl) s before;
        permitted = lost (λ w. w.permitted) (λ bit w. refl) s before;
        inheritable = lost (λ w. w.inheritable) (λ bit w. refl) s before;
      }

  -- If `dropCapabilities` succeeds on a list that is not empty, whatever the kernel answers: each
  -- capability that is listed, or that the kernel knows when `ALL` is listed, was dropped from the
  -- bounding set, `CAP_SETPCAP` after all others, and no other capability was; then the effective, permitted and inheritable sets
  -- were written without these capabilities and with all others as they were; then the ambient set was
  -- cleared; and no other call was made.
  pub drop_capabilities-IsDropped :
      (raw : Text) (requested : List Text) (log log' : CapLog)
      → drop_capabilities k (raw ∷ requested) log ≡ (ok tt, log')
      → IsDropped k (raw ∷ requested) log log'
  unfolding drop_capabilities
  drop_capabilities-IsDropped raw requested log log' h =
      let (flags, l, p, q) = continue-eq-ok (select k (raw ∷ requested) log, log) _ h in
      let chosen : select k (raw ∷ requested) log ≡ ok flags = ap (λ r. r.0) p in
      let same : log ≡ l = ap (λ r. r.1) p in
      let (mid, d, e) = drop_selected-ok flags log log' cc in
      assemble (raw ∷ requested) log mid log' flags (select-IsSelected k _ log flags chosen) d e
