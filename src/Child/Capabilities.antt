-- ===== src/Child/Capabilities.antt =====
-- sandbox/sandbox/child/child.go: `dropCapabilities` and `lastCapability`. The kernel's answers are a
-- parameter: they may depend on all calls so far.
pub mod Selected
pub mod Sets
pub mod Bounding
pub mod Dropped
mod Tests
use bcs_zc241t_study_project.Prelude.{
  ℕ, zero, suc, ◌+◌, ◌/◌, ◌%◌, ◌^◌, Bool, true, false, not, ◌||◌, Option, none, some, List, [], ◌∷◌,
  Result, ok, err, ◌==◌, ◌=?◌, leb, if◌then◌else◌, codes,
}
use bcs_zc241t_study_project.Prelude.Bits.{and_not}
use bcs_zc241t_study_project.Prelude.Run.{Run, continue, ◌>>=◌, ◌>>◌, lift}
use bcs_zc241t_study_project.Text.{Text, trim_space, to_upper}
use bcs_zc241t_study_project.Text.Decimal.{parse_uint}
use bcs_zc241t_study_project.Config.Capability.{capability_number}

-- `unix.CapUserData`: a word of each set.
pub record CapUserData : Type 0 where
  pub effective : ℕ
  pub permitted : ℕ
  pub inheritable : ℕ

-- `[2]unix.CapUserData`.
pub record CapSets : Type 0 where
  pub low : CapUserData
  pub high : CapUserData

-- The calls that read or change the capabilities of the thread.
pub data CapCall : Type 0 where
  bounding_drop : ℕ → CapCall
  get_sets clear_ambient : CapCall
  set_sets : CapSets → CapCall

-- The calls that succeeded, the last one first. Whoever fails makes no further call.
abbrev pub CapLog : Type 0
CapLog = List CapCall

pub record CapKernel : Type 0 where
  pub succeeds : CapLog → CapCall → Bool
  pub sets : CapLog → CapSets
  pub cap_last_cap : CapLog → Option Text

pub data CapError : Type 0 where
  unknown_capability too_wide : Text → CapError
  last_unreadable last_malformed : CapError
  last_too_wide : ℕ → CapError
  refused : CapCall → CapError

abbrev pub Exec : Type 0 → Type 0
Exec = Run CapLog CapError

-- `drop`, a slice of 64 flags.
abbrev pub width : ℕ
width = 64

unfoldable pub no_flags : ℕ → List Bool
no_flags zero = []
no_flags (suc n) = false ∷ no_flags n

-- `drop[number] = true`.
unfoldable pub set_flag : ℕ → List Bool → List Bool
set_flag n [] = []
set_flag zero (b ∷ flags) = true ∷ flags
set_flag (suc n) (b ∷ flags) = b ∷ set_flag n flags

-- `drop[number]`.
unfoldable pub flag_at : ℕ → List Bool → Bool
flag_at n [] = false
flag_at zero (b ∷ flags) = b
flag_at (suc n) (b ∷ flags) = flag_at n flags

-- The name that is looked up: `strings.ToUpper(strings.TrimSpace(raw))`.
abbrev pub capability_key : Text → Text
capability_key raw = to_upper (trim_space raw)

unfoldable pub is_all : Text → Bool
unfolding ◌=?◌
is_all raw = capability_key raw =? codes "ALL"

unfoldable pub mark : Text → Option ℕ → List Bool → Result CapError (List Bool)
unfolding set_flag
mark raw none flags = err (unknown_capability raw)
mark raw (some number) flags =
    if leb width number then err (too_wide raw) else ok (set_flag number flags)

-- The loop over the names: the flags, and whether `ALL` is among them.
unfoldable pub select_requested : List Text → List Bool → Bool → Result CapError (List Bool × Bool)
unfolding is_all
select_requested [] flags all = ok (flags, all)
select_requested (raw ∷ rest) flags all =
    let everything = select_requested rest flags true in
    if is_all raw
    then everything
    else elim (mark raw (capability_number (capability_key raw)) flags) [
      | ok marked ↦ select_requested rest marked all
      | err e ↦ err e
    ]

-- `for number := 0; number <= last; number++ { drop[number] = true }`, from the greatest number down.
unfoldable pub mark_through : ℕ → List Bool → List Bool
unfolding set_flag
mark_through zero flags = set_flag zero flags
mark_through (suc last) flags = set_flag (suc last) (mark_through last flags)

-- `lastCapability`, from the contents of the file.
unfoldable pub last_capability : Option Text → Result CapError ℕ
unfolding parse_uint
last_capability none = err last_unreadable
last_capability (some text) = elim (parse_uint 32 (trim_space text)) [
  | none ↦ err last_malformed
  | some last ↦ ok last
]

-- `if all { ... }`.
unfoldable pub select_all : Bool → Option Text → List Bool → Result CapError (List Bool)
unfolding mark_through
select_all false contents flags = ok flags
select_all true contents flags = elim (last_capability contents) [
  | err e ↦ err e
  | ok last ↦ if leb width last then err (last_too_wide last) else ok (mark_through last flags)
]

abbrev pub clear_bit : ℕ → CapUserData → CapUserData
clear_bit bit data_word = record {
  effective = and_not data_word.effective bit;
  permitted = and_not data_word.permitted bit;
  inheritable = and_not data_word.inheritable bit;
}

-- `data[number/32]` loses the bit `1 << (number % 32)` in its three sets.
unfoldable pub clear_number : ℕ → CapSets → CapSets
unfolding and_not
clear_number number sets =
    let bit = 2 ^ (number % 32) in
    if number / 32 == 0
    then record sets { low = clear_bit bit sets.low }
    else record sets { high = clear_bit bit sets.high }

-- The loop over the flags from `number` on.
unfoldable pub clear_selected : ℕ → List Bool → CapSets → CapSets
unfolding clear_number
clear_selected number [] sets = sets
clear_selected number (b ∷ flags) sets =
    clear_selected (suc number) flags (if b then clear_number number sets else sets)

abbrev pub cap_setpcap : ℕ
cap_setpcap = 8

module _ (k : CapKernel) where
  abbrev pub settle : Bool → CapCall → Exec (Unit {0})
  settle true c log = (ok tt, c ∷ log)
  settle false c log = (err (refused c), log)

  unfoldable pub perform : CapCall → Exec (Unit {0})
  perform c log = settle (k.succeeds log c) c log

  -- `Capget`.
  unfoldable pub capget : Exec CapSets
  unfolding perform
  capget = perform get_sets >>= λ _ log. (ok (k.sets log), log)

  -- The loop over the flags from `number` on, which leaves out `CAP_SETPCAP`.
  unfoldable pub drop_bounding : ℕ → List Bool → Exec (Unit {0})
  unfolding perform
  drop_bounding number [] = lift (ok tt)
  drop_bounding number (b ∷ flags) =
      let rest = drop_bounding (suc number) flags in
      if number == cap_setpcap || not b then rest else (perform (bounding_drop number) >> rest)

  -- `if drop[unix.CAP_SETPCAP]`.
  unfoldable pub drop_setpcap : Bool → Exec (Unit {0})
  unfolding perform
  drop_setpcap false = lift (ok tt)
  drop_setpcap true = perform (bounding_drop cap_setpcap)

  -- What follows the selection.
  unfoldable pub drop_selected : List Bool → Exec (Unit {0})
  unfolding drop_bounding drop_setpcap flag_at capget clear_selected
  drop_selected flags = do
    drop_bounding 0 flags
    drop_setpcap (flag_at cap_setpcap flags)
    sets ← capget
    perform (set_sets (clear_selected 0 flags sets))
    perform clear_ambient

  unfoldable pub select : List Text → CapLog → Result CapError (List Bool)
  unfolding select_requested select_all no_flags
  select requested log = elim (select_requested requested (no_flags width) false) [
    | err e ↦ err e
    | ok chosen ↦ let (flags, all) = chosen in select_all all (k.cap_last_cap log) flags
  ]

  -- `dropCapabilities`.
  unfoldable pub drop_capabilities : List Text → Exec (Unit {0})
  unfolding select drop_selected
  drop_capabilities [] = lift (ok tt)
  drop_capabilities (raw ∷ requested) = do
    flags ← λ log. (select (raw ∷ requested) log, log)
    drop_selected flags
