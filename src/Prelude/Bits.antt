-- ===== src/Prelude/Bits.antt =====
-- Masks as arithmetic: the and of a number with high or low ones, and the or with low ones.
use Prim.Native.Nat.{
  ℕ, zero, suc, ◌+◌, ◌-◌, ◌*◌, ◌/◌, ◌%◌, ◌^◌, ◌≤◌, ◌<◌, min, max, bit_and, bit_or, digits,
  bit_and-bitwise, bit_or-bitwise,
}
use mathlib.Core.Path.{◌≡◌, refl, ap}
use mathlib.Core.Bool.{Bool, not, ◌&&◌}
use bcs_zc241t_study_project.Prelude.Tests.{◌==◌}
use native.Mathlib.Omega.{arith}
use native.Mathlib.Nat.{pow-suc, one-le-pow}

-- The recursion over the digits gives the same at every count of rounds that is large enough.
digits_rounds :
    (z : ℕ → ℕ) (f : ℕ → ℕ → ℕ) (n m a b : ℕ) → a ≤ n → a ≤ m → digits z f n a b ≡ digits z f m a b
digits_rounds z f zero zero a b h k = refl
digits_rounds z f zero (suc m) zero b h k = refl
digits_rounds z f zero (suc m) (suc a) b h k = elim h [ ]
digits_rounds z f (suc n) zero zero b h k = refl
digits_rounds z f (suc n) zero (suc a) b h k = elim k [ ]
digits_rounds z f (suc n) (suc m) zero b h k = refl
digits_rounds z f (suc n) (suc m) (suc a) b h k =
    ap (λ (t : ℕ). t * 2 + f (suc a % 2) (b % 2))
      (digits_rounds z f n m (suc a / 2) (b / 2) (omega arith) (omega arith))

zero-bit_and : (b : ℕ) → bit_and 0 b ≡ 0
zero-bit_and b = bit_and-bitwise 0 b

zero-bit_or : (b : ℕ) → bit_or 0 b ≡ b
zero-bit_or b = bit_or-bitwise 0 b

bit_and_halves : (a b : ℕ) → 2 * bit_and (a / 2) (b / 2) + min (a % 2) (b % 2) ≡ bit_and a b
bit_and_halves zero b = let half = zero-bit_and (b / 2) in omega (arith, half, zero-bit_and b)
bit_and_halves (suc a) b =
    let rounds =
      digits_rounds (λ b. zero) min a (suc a / 2) (suc a / 2) (b / 2) (omega arith) (omega arith) in
    omega (arith, rounds, bit_and-bitwise (suc a / 2) (b / 2), bit_and-bitwise (suc a) b)

bit_or_halves : (a b : ℕ) → 2 * bit_or (a / 2) (b / 2) + max (a % 2) (b % 2) ≡ bit_or a b
bit_or_halves zero b = let half = zero-bit_or (b / 2) in omega (arith, half, zero-bit_or b)
bit_or_halves (suc a) b =
    let rounds =
      digits_rounds (λ b. b) max a (suc a / 2) (suc a / 2) (b / 2) (omega arith) (omega arith) in
    omega (arith, rounds, bit_or-bitwise (suc a / 2) (b / 2), bit_or-bitwise (suc a) b)

double_block : (q k : ℕ) → q * 2 ^ suc k ≡ 2 * (q * 2 ^ k)
double_block q k = omega (arith, ap (λ (t : ℕ). q * t) (pow-suc 2 k))

bit_and-zero : (n a : ℕ) → a ≤ n → bit_and a 0 ≡ 0
bit_and-zero n zero h = refl
bit_and-zero zero (suc a) h = elim h [ ]
bit_and-zero (suc n) (suc a) h =
    omega (arith, bit_and_halves (suc a) 0, bit_and-zero n (suc a / 2) (omega arith))

bit_or-zero : (n a : ℕ) → a ≤ n → bit_or a 0 ≡ a
bit_or-zero n zero h = refl
bit_or-zero zero (suc a) h = elim h [ ]
bit_or-zero (suc n) (suc a) h =
    omega (arith, bit_or_halves (suc a) 0, bit_or-zero n (suc a / 2) (omega arith))

-- `a & (2^j - 1)` keeps a number of `j` digits.
pub bit_and_low_ones : (j a : ℕ) → a < 2 ^ j → bit_and a (2 ^ j - 1) ≡ a
bit_and_low_ones zero a h = ground (arith, bit_and-zero a a (omega arith))
bit_and_low_ones (suc j) a h = ground (
  arith,
  bit_and_halves a (2 ^ suc j - 1),
  pow-suc 2 j,
  one-le-pow j 2,
  bit_and_low_ones j (a / 2),
)

-- The low digits that are zero on both sides stay zero.
pub bit_and_blocks : (k a b : ℕ) → bit_and (a * 2 ^ k) (b * 2 ^ k) ≡ bit_and a b * 2 ^ k
bit_and_blocks zero a b = ground arith
bit_and_blocks (suc k) a b = ground (
  arith,
  bit_and_halves (a * 2 ^ suc k) (b * 2 ^ suc k),
  double_block a k,
  double_block b k,
  double_block (bit_and a b) k,
  bit_and_blocks k a b,
)

-- `x | (2^k - 1)` adds the ones where `x` ends in `k` zeros.
pub bit_or_low_ones : (k q : ℕ) → bit_or (q * 2 ^ k) (2 ^ k - 1) ≡ q * 2 ^ k + (2 ^ k - 1)
bit_or_low_ones zero q = ground (arith, bit_or-zero q q (omega arith))
bit_or_low_ones (suc k) q = ground (
  arith,
  bit_or_halves (q * 2 ^ suc k) (2 ^ suc k - 1),
  double_block q k,
  pow-suc 2 k,
  one-le-pow k 2,
  bit_or_low_ones k q,
)

-- `a &^ b`: the digits of `a` where `b` has none.
unfoldable pub and_not : ℕ → ℕ → ℕ
and_not a b = a - bit_and a b

-- The digit of `a` at a place.
unfoldable pub has_bit : ℕ → ℕ → Bool
has_bit zero a = a % 2 == 1
has_bit (suc n) a = has_bit n (a / 2)

bit_and-le : (n a b : ℕ) → a ≤ n → bit_and a b ≤ a
bit_and-le n zero b h = omega (arith, zero-bit_and b)
bit_and-le zero (suc a) b h = elim h [ ]
bit_and-le (suc n) (suc a) b h =
    omega (arith, bit_and_halves (suc a) b, bit_and-le n (suc a / 2) (b / 2) (omega arith))

and_not_one : (a : ℕ) → and_not a 1 ≡ 2 * (a / 2)
unfolding and_not
and_not_one a = omega (arith, bit_and_halves a 1, bit_and-zero (a / 2) (a / 2) (omega arith))

and_not_double : (n a : ℕ) → and_not a (2 ^ suc n) ≡ 2 * and_not (a / 2) (2 ^ n) + a % 2
unfolding and_not
and_not_double n a =
    let halves : 2 * bit_and (a / 2) (2 ^ n) ≡ bit_and a (2 ^ suc n) =
      ground (arith, bit_and_halves a (2 ^ suc n), pow-suc 2 n) in
    omega (arith, halves, bit_and-le (a / 2) (a / 2) (2 ^ n) (omega arith))

-- `a &^ (1 << n)` clears the digit at `n` and keeps all others.
pub has_bit-and_not : (n m a : ℕ) → has_bit m (and_not a (2 ^ n)) ≡ (has_bit m a && not (n == m))
unfolding has_bit
has_bit-and_not zero zero a = rw (and_not_one a) (ground arith)
has_bit-and_not zero (suc m) a =
    let half : and_not a 1 / 2 ≡ a / 2 = omega (arith, and_not_one a) in rw half (ground arith)
has_bit-and_not (suc n) zero a = rw (and_not_double n a) (ground arith)
has_bit-and_not (suc n) (suc m) a =
    let half : and_not a (2 ^ suc n) / 2 ≡ and_not (a / 2) (2 ^ n) =
      omega (arith, and_not_double n a) in
    rw half (ground (arith, has_bit-and_not n m (a / 2)))
