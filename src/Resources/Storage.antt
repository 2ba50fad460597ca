-- ===== src/Resources/Storage.antt =====
-- sandbox/sandbox/resources/storage.go. The system calls `Getrlimit` and `Setrlimit` are parameters;
-- limits are 64-bit words, `RLIM_INFINITY` the greatest.
use bcs_zc241t_study_project.Prelude.{
  ℕ, zero, suc, ◌-◌, ◌*◌, ◌/◌, ◌%◌, ◌^◌, ◌≤◌, ◌≡◌, refl, Bool, not, ◌&&◌, Option, none, some,
  Result, ok, err, ltb, ◌==◌, if◌then◌else◌, arith, reject, ◌>>◌,
}
use bcs_zc241t_study_project.Prelude.Int.{ℤ, pos, negsuc, is_negative, pos_part}

pub record Rlimit : Type 0 where
  pub cur : ℕ
  pub max : ℕ

pub data StorageError : Type 0 where
  limit_negative limit_overflow inherited_unreadable limit_rejected : StorageError

abbrev pub infinity : ℕ
infinity = 2 ^ 64 - 1

-- A ceiling lowered to an inherited limit that is finite and stricter.
unfoldable pub lower_to : ℕ → ℕ → ℕ
lower_to inherited ceiling =
    if not (inherited == infinity) && ltb inherited ceiling then inherited else ceiling

-- The new limit, from the limit in MB and the inherited one.
unfoldable pub new_limit : ℕ → Rlimit → Rlimit
unfolding lower_to
new_limit limit_mb inherited =
    let bytes = limit_mb * 2 ^ 20 % 2 ^ 64 in
    let ceiling = lower_to inherited.max (lower_to inherited.cur bytes) in
    record { cur = ceiling; max = ceiling }

unfoldable pub set_limit : (Rlimit → Bool) → Rlimit → Result StorageError (Option Rlimit)
set_limit setrlimit limit = if setrlimit limit then ok (some limit) else err limit_rejected

unfoldable pub lower_limit :
    Option Rlimit → (Rlimit → Bool) → ℕ → Result StorageError (Option Rlimit)
unfolding new_limit set_limit
lower_limit none setrlimit limit_mb = err inherited_unreadable
lower_limit (some inherited) setrlimit limit_mb = set_limit setrlimit (new_limit limit_mb inherited)

-- `ApplyFileSizeLimit`: the limit that the process has set, `none` where it leaves the limits alone.
unfoldable pub apply_file_size_limit :
    Option Rlimit → (Rlimit → Bool) → ℤ → Result StorageError (Option Rlimit)
unfolding lower_limit
apply_file_size_limit getrlimit setrlimit (negsuc n) = err limit_negative
apply_file_size_limit getrlimit setrlimit (pos zero) = ok none
apply_file_size_limit getrlimit setrlimit (pos (suc n)) = do
  reject (ltb ((2 ^ 64 - 1) / 2 ^ 20) (suc n)) limit_overflow
  lower_limit getrlimit setrlimit (suc n)

-- The least of three.
abbrev pub least : ℕ → ℕ → ℕ → ℕ
least a b c = if ltb a b then (if ltb a c then a else c) else if ltb b c then b else c

new_limit_lem :
    (n : ℕ) (inherited : Rlimit)
    → inherited.cur ≤ infinity
    → inherited.max ≤ infinity
    → n ≤ (2 ^ 64 - 1) / 2 ^ 20
    → new_limit n inherited ≡ record {
      cur = least (n * 2 ^ 20) inherited.cur inherited.max;
      max = least (n * 2 ^ 20) inherited.cur inherited.max;
    }
unfolding new_limit lower_to
new_limit_lem n inherited hc hm hn =
    let exact : n * 2 ^ 20 % 2 ^ 64 ≡ n * 2 ^ 20 = omega (arith, hn) in
    rw exact (ground (arith, hc, hm, hn))

-- Limits that were read are words of 64 bits.
abbrev pub AreWords : Option Rlimit → Type 0
AreWords none = Unit
AreWords (some inherited) = (inherited.cur ≤ infinity) × (inherited.max ≤ infinity)

-- What is asked for when the limit fits: the least of it and the inherited limits.
abbrev pub asked : Option Rlimit → (Rlimit → Bool) → ℕ → Result StorageError (Option Rlimit)
asked none setrlimit bytes = err inherited_unreadable
asked (some inherited) setrlimit bytes =
    let ceiling = least bytes inherited.cur inherited.max in
    if setrlimit (record { cur = ceiling; max = ceiling })
    then ok (some (record { cur = ceiling; max = ceiling }))
    else err limit_rejected

-- A limit in MB, with inherited limits that are words of 64 bits where they can be read: a negative limit
-- is refused; 0 changes nothing, whatever the system answers; a limit that does not fit 64 bits in bytes
-- is refused; any other one fails where the inherited limits cannot be read, and else asks for the least of
-- it and the two inherited limits, as both the soft and the hard limit, so no inherited limit is ever
-- weakened; it fails if the system refuses that.
pub apply_file_size_limit_lem :
    (getrlimit : Option Rlimit) (setrlimit : Rlimit → Bool) (limit : ℤ)
    → AreWords getrlimit
    → apply_file_size_limit getrlimit setrlimit limit ≡ (
        if is_negative limit
        then err limit_negative
        else if pos_part limit == 0
        then ok none
        else if ltb (2 ^ 64 - 1) (pos_part limit * 2 ^ 20)
        then err limit_overflow
        else asked getrlimit setrlimit (pos_part limit * 2 ^ 20))
unfolding apply_file_size_limit
apply_file_size_limit_lem getrlimit setrlimit (negsuc n) words = refl
apply_file_size_limit_lem getrlimit setrlimit (pos zero) words = refl
apply_file_size_limit_lem none setrlimit (pos (suc n)) words = ground arith
apply_file_size_limit_lem (some inherited) setrlimit (pos (suc n)) (hc, hm) =
    ground (arith, new_limit_lem (suc n) inherited hc hm)
