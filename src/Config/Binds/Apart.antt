-- ===== src/Config/Binds/Apart.antt =====
-- What `validateBindPolicies` of config.go accepts, in terms of the elements of the paths.
use bcs_zc241t_study_project.Prelude.{
  ◌≡◌, refl, ap, ◌∙◌, ◌≢◌, ◌⊎◌, inl, inr, Bool, true, false, ◌&&◌, ◌||◌, List, [], ◌∷◌, ◌++◌, map,
  append-nil, ok, reject, ◌>>◌, ◌=?◌, =?_iff, codes, All, arith, >>-eq-ok_iff, reject-eq-ok_iff,
  append_assoc,
}
use bcs_zc241t_study_project.Text.{Text, has_prefix, join}
use bcs_zc241t_study_project.Paths.{clean, slash, is_abs, spell, elements}
use bcs_zc241t_study_project.Paths.Laws.{clean_abs, spell_below, IsComponent, elements-IsComponent}
use bcs_zc241t_study_project.Config.Types.{BindMount}
use bcs_zc241t_study_project.Config.Binds.{
  is_path_ancestor, check_target, check_targets, check_against, check_pairs, validate_bind_policies,
  duplicate, overlapping, in_dev, in_proc, over_resolv_conf,
}

-- The path with the elements `ys` is the one with the elements `xs`, or lies below it.
abbrev pub Beneath : List Text → List Text → Type 0
Beneath xs ys = (zs : List Text) × (ys ≡ xs ++ zs)

-- Neither path is the other or lies below it.
abbrev pub AreApart : Text → Text → Type 0
AreApart s t = (¬ Beneath (elements s) (elements t)) × (¬ Beneath (elements t) (elements s))

-- A component stands first, so the path is not the root.
not_root : (x : Text) (xs : List Text) → IsComponent x → (spell true (x ∷ xs) =? codes "/") ≡ false
unfolding ◌=?◌ join
not_root [] xs h = absurd (ground (arith, h.filled))
not_root (c ∷ x) [] h = refl
not_root (c ∷ x) (y ∷ ys) h = refl

-- Where one path lies beneath another one, the code finds them equal or `isPathAncestor` tells.
ancestor_complete :
    (x : Text) (xs ys : List Text)
    → IsComponent x
    → Beneath (x ∷ xs) ys
    → (spell true (x ∷ xs) =? spell true ys
        || is_path_ancestor (spell true (x ∷ xs)) (spell true ys))
      ≡ true
unfolding is_path_ancestor
ancestor_complete x xs ys h ([], e) =
    ground (
      arith,
      =?_iff (spell true (x ∷ xs)) (spell true ys),
      ap (spell true) (e ∙ append-nil (x ∷ xs)),
    )
ancestor_complete x xs ys h (z ∷ zs, e) =
    rw e (ground (arith, not_root x xs h, spell_below x xs z zs))

ancestor_elements :
    (s t : Text)
    → is_abs s ≡ true
    → is_abs t ≡ true
    → elements s ≢ []
    → Beneath (elements s) (elements t)
    → (clean s =? clean t || is_path_ancestor (clean s) (clean t)) ≡ true
ancestor_elements s t hs ht filled b =
    rw (clean_abs s hs, clean_abs t ht)
      (beneath (elements s) (elements t) filled (elements-IsComponent s hs) b)
  where
    beneath :
        (xs ys : List Text)
        → xs ≢ []
        → All IsComponent xs
        → Beneath xs ys
        → (spell true xs =? spell true ys || is_path_ancestor (spell true xs) (spell true ys))
          ≡ true
    beneath [] ys filled h b = absurd (filled refl)
    beneath (x ∷ xs) ys filled (hx, _) b = ancestor_complete x xs ys hx b

-- A target that the theorem below speaks of: absolute, and not the root.
pub record IsTarget (t : Text) : Type 0 where
  pub absolute : is_abs t ≡ true
  pub below_root : elements t ≢ []

pair-AreApart :
    (s t : Text)
    → IsTarget s
    → IsTarget t
    → (clean t =? clean s) ≡ false
    → (is_path_ancestor (clean t) (clean s) || is_path_ancestor (clean s) (clean t)) ≡ false
    → AreApart s t
pair-AreApart s t hs ht differ apart =
    let same = =?_iff (clean s) (clean t) in
    let same' = =?_iff (clean t) (clean s) in
    (
      λ b.
          ground
            (arith, same, same', ancestor_elements s t hs.absolute ht.absolute hs.below_root b),
      λ b.
          ground
            (arith, same, same', ancestor_elements t s ht.absolute hs.absolute ht.below_root b),
    )

abbrev pub target : BindMount → Text
target m = m.container_path

abbrev Targets : List BindMount → Type 0
Targets = All (λ m. IsTarget (target m))

-- No two targets in the list overlap.
abbrev pub ArePairwiseApart : List BindMount → Type 0
ArePairwiseApart [] = Unit
ArePairwiseApart (m ∷ ms) = All (λ n. AreApart (target m) (target n)) ms × ArePairwiseApart ms

abbrev cleaned : BindMount → Text
cleaned m = clean m.container_path

check_against_sound :
    (s : BindMount) (before after : List Text) (t : Text)
    → check_against (before ++ cleaned s ∷ after) t ≡ ok tt
    → ((t =? cleaned s) ≡ false)
      × ((is_path_ancestor t (cleaned s) || is_path_ancestor (cleaned s) t) ≡ false)
unfolding check_against
check_against_sound s [] after t h =
    let c = cleaned s in
    let new = reject (t =? c) duplicate in
    let apart = reject (is_path_ancestor t c || is_path_ancestor c t) overlapping in
    ground (
      arith,
      >>-eq-ok_iff new (apart >> check_against after t) tt,
      >>-eq-ok_iff apart (check_against after t) tt,
      reject-eq-ok_iff (t =? c) duplicate,
      reject-eq-ok_iff (is_path_ancestor t c || is_path_ancestor c t) overlapping,
    )
check_against_sound s (b ∷ before) after t h =
    let new = reject (t =? b) duplicate in
    let apart = reject (is_path_ancestor t b || is_path_ancestor b t) overlapping in
    let rest = check_against (before ++ cleaned s ∷ after) t in
    check_against_sound s before after t
      (ground (arith, >>-eq-ok_iff new (apart >> rest) tt, >>-eq-ok_iff apart rest tt))

check_pairs_sound :
    (s : BindMount) (before after : List Text) (ms : List BindMount)
    → IsTarget (target s)
    → Targets ms
    → check_pairs (before ++ cleaned s ∷ after) (map cleaned ms) ≡ ok tt
    → All (λ m. AreApart (target s) (target m)) ms
unfolding check_pairs
check_pairs_sound s before after [] hs ht h = tt
check_pairs_sound s before after (m ∷ ms) hs (hm, hms) h =
    let (first, rest) =
      (>>-eq-ok_iff (check_against (before ++ cleaned s ∷ after) (cleaned m)) _ tt).0 h in
    let (differ, apart) = check_against_sound s before after (cleaned m) first in
    (
      pair-AreApart (target s) (target m) hs hm differ apart,
      check_pairs_sound s before (after ++ cleaned m ∷ []) ms hs hms
          (rw (← append_assoc before (cleaned s ∷ after) (cleaned m ∷ [])) rest),
    )

check_pairs-ArePairwiseApart :
    (earlier : List Text) (ms : List BindMount)
    → Targets ms
    → check_pairs earlier (map cleaned ms) ≡ ok tt
    → ArePairwiseApart ms
unfolding check_pairs
check_pairs-ArePairwiseApart earlier [] ht h = tt
check_pairs-ArePairwiseApart earlier (m ∷ ms) (hm, hms) h =
    let (_, rest) = (>>-eq-ok_iff (check_against earlier (cleaned m)) _ tt).0 h in
    (
      check_pairs_sound m earlier [] ms hm hms rest,
      check_pairs-ArePairwiseApart (earlier ++ cleaned m ∷ []) ms hms rest,
    )

-- A tree `/name` that is refused as a target.
outside_tree :
    (name t : Text)
    → is_abs t ≡ true
    → (clean t =? spell true (name ∷ [])
        || has_prefix (clean t) (spell true (name ∷ []) ++ slash ∷ []))
      ≡ false
    → ¬ Beneath (name ∷ []) (elements t)
outside_tree name t h free ([], e) =
    ground (arith, =?_iff (clean t) (spell true (name ∷ [])), clean_abs t h, ap (spell true) e)
outside_tree name t h free (z ∷ zs, e) =
    ground (arith, spell_below name [] z zs, clean_abs t h, ap (spell true) e)

-- What is said of each single target.
pub record IsAllowed (dns_configured : Bool) (t : Text) : Type 0 where
  pub outside_dev : ¬ Beneath (codes "dev" ∷ []) (elements t)
  pub outside_proc : ¬ Beneath (codes "proc" ∷ []) (elements t)
  pub not_resolv_conf :
      (dns_configured ≡ false) ⊎ (elements t ≢ codes "etc" ∷ codes "resolv.conf" ∷ [])

not_shadowed :
    (dns : Bool) (t : Text)
    → is_abs t ≡ true
    → (dns && clean t =? codes "/etc/resolv.conf") ≡ false
    → (dns ≡ false) ⊎ (elements t ≢ codes "etc" ∷ codes "resolv.conf" ∷ [])
unfolding join
not_shadowed false t h e = inl refl
not_shadowed true t h e = inr λ same.
    ground (arith, clean_abs t h, ap (spell true) same, =?_iff (clean t) (codes "/etc/resolv.conf"))

check_target-IsAllowed :
    (dns : Bool) (m : BindMount)
    → is_abs (target m) ≡ true
    → check_target dns m ≡ ok tt
    → IsAllowed dns (target m)
unfolding check_target join
check_target-IsAllowed dns m h passed =
    let t = clean (target m) in
    let dev = t =? codes "/dev" || has_prefix t (codes "/dev/") in
    let proc = t =? codes "/proc" || has_prefix t (codes "/proc/") in
    let conf = dns && t =? codes "/etc/resolv.conf" in
    let (a, rest) = (>>-eq-ok_iff (reject dev (in_dev (target m))) _ tt).0 passed in
    let (b, c) = (>>-eq-ok_iff (reject proc (in_proc (target m))) _ tt).0 rest in
    record {
      outside_dev = outside_tree (codes "dev") (target m) h ((reject-eq-ok_iff dev _).0 a);
      outside_proc = outside_tree (codes "proc") (target m) h ((reject-eq-ok_iff proc _).0 b);
      not_resolv_conf =
          not_shadowed dns (target m) h ((reject-eq-ok_iff conf over_resolv_conf).0 c);
    }

check_targets-IsAllowed :
    (dns : Bool) (ms : List BindMount)
    → Targets ms
    → check_targets dns ms ≡ ok tt
    → All (λ m. IsAllowed dns (target m)) ms
unfolding check_targets
check_targets-IsAllowed dns [] ht h = tt
check_targets-IsAllowed dns (m ∷ ms) (hm, hms) h =
    let (first, rest) = (>>-eq-ok_iff (check_target dns m) (check_targets dns ms) tt).0 h in
    (check_target-IsAllowed dns m hm.absolute first, check_targets-IsAllowed dns ms hms rest)

-- If `validateBindPolicies` accepts mounts whose targets are absolute and not the root: no target is
-- another one or lies below it, by the elements of the cleaned paths; none is `/dev` or `/proc` or
-- lies below them; and with DNS servers none is `/etc/resolv.conf`.
pub validate_bind_policies-ArePairwiseApart :
    (ms : List BindMount) (dns : Bool)
    → All (λ m. IsTarget (target m)) ms
    → validate_bind_policies ms dns ≡ ok tt
    → ArePairwiseApart ms × All (λ m. IsAllowed dns (target m)) ms
unfolding validate_bind_policies
validate_bind_policies-ArePairwiseApart ms dns ht h =
    let (first, rest) =
      (>>-eq-ok_iff (check_targets dns ms) (check_pairs [] (map cleaned ms)) tt).0 h in
    (check_pairs-ArePairwiseApart [] ms ht rest, check_targets-IsAllowed dns ms ht first)
