-- ===== src/Child/Capabilities/Sets.antt =====
-- The loop of `dropCapabilities` of child.go that clears bits of the capability sets.
use bcs_zc241t_study_project.Prelude.{
  ℕ, suc, ◌+◌, ◌/◌, ◌%◌, ◌<◌, ◌^◌, ◌-◌, leb, ◌≡◌, refl, Bool, true, false, not, ◌&&◌, List, [], ◌∷◌,
  length, ◌==◌, if◌then◌else◌, arith,
}
use bcs_zc241t_study_project.Prelude.Bits.{and_not, has_bit, has_bit-and_not}
use bcs_zc241t_study_project.Child.Capabilities.{
  CapUserData, CapSets, flag_at, width, clear_bit, clear_number, clear_selected,
}

-- A set holds a capability: the digit of its word.
abbrev pub holds : (CapUserData → ℕ) → ℕ → CapSets → Bool
holds set n sets = has_bit (n % 32) (set (if n / 32 == 0 then sets.low else sets.high))

flag_at_front :
    (number n : ℕ) (b : Bool) (flags : List Bool)
    → number ≡ n
    → flag_at (n - number) (b ∷ flags) ≡ b
unfolding flag_at
flag_at_front number n b flags e = let z : n - number ≡ 0 = omega arith in rw z refl

flag_at_behind :
    (number n : ℕ) (b : Bool) (flags : List Bool)
    → number < n
    → flag_at (n - number) (b ∷ flags) ≡ flag_at (n - suc number) flags
unfolding flag_at
flag_at_behind number n b flags h =
    let z : n - number ≡ suc (n - suc number) = omega arith in rw z refl

-- One of the three sets, whose words lose the bits that are cleared.
module _ (set : CapUserData → ℕ)
    (clears : (bit : ℕ) (w : CapUserData) → set (clear_bit bit w) ≡ and_not (set w) bit) where
  holds-clear_number :
      (number n : ℕ) (sets : CapSets)
      → number < width
      → n < width
      → holds set n (clear_number number sets) ≡ (holds set n sets && not (number == n))
  unfolding clear_number
  holds-clear_number number n sets hn h = ground (
    arith,
    clears (2 ^ (number % 32)) sets.low,
    clears (2 ^ (number % 32)) sets.high,
    has_bit-and_not (number % 32) (n % 32) (set sets.low),
    has_bit-and_not (number % 32) (n % 32) (set sets.high),
  )

  -- A capability is lost when its flag is set, among the flags from `number` on.
  pub holds-clear_selected :
      (number : ℕ) (flags : List Bool) (sets : CapSets) (n : ℕ)
      → number + length flags ≡ width
      → n < width
      → holds set n (clear_selected number flags sets)
        ≡ (holds set n sets && not (leb number n && flag_at (n - number) flags))
  unfolding clear_selected flag_at
  holds-clear_selected number [] sets n h lt = ground arith
  holds-clear_selected number (false ∷ flags) sets n h lt = ground (
    arith,
    holds-clear_selected (suc number) flags sets n (omega arith) lt,
    flag_at_front number n false flags,
    flag_at_behind number n false flags,
  )
  holds-clear_selected number (true ∷ flags) sets n h lt = ground (
    arith,
    holds-clear_selected (suc number) flags (clear_number number sets) n (omega arith) lt,
    holds-clear_number number n sets (omega arith) lt,
    flag_at_front number n true flags,
    flag_at_behind number n true flags,
  )
