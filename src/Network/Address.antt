-- ===== src/Network/Address.antt =====
-- IPv4 addresses and prefixes as Go's `net/netip` reads them: what its functions return at the texts
-- and prefixes that sandbox/sandbox/network hands them. An address is its 32-bit number.
use bcs_zc241t_study_project.Prelude.{
  ℕ, suc, ◌+◌, ◌-◌, ◌*◌, ◌/◌, ◌^◌, ◌<◌, ◌≡◌, refl, Bool, ◌&&◌, Option, none, some, List, [], ◌∷◌,
  ltb, leb, ◌==◌, if◌then◌else◌, codes, arith,
}
use bcs_zc241t_study_project.Text.{Text, split, cut}

abbrev pub is_digit : ℕ → Bool
is_digit c = leb b'0' c && leb c b'9'

-- Decimal digits behind the number `n`, none of whose values passes `most`.
unfoldable pub number_below : ℕ → ℕ → Text → Option ℕ
number_below most n [] = some n
number_below most n (c ∷ s) =
    let n' = n * 10 + (c - b'0') in
    let rest = number_below most n' s in
    if is_digit c then (if ltb most n' then none else rest) else none

-- A number without a leading zero.
unfoldable pub plain_number : ℕ → Text → Option ℕ
plain_number most [] = none
plain_number most (c ∷ []) = number_below most 0 (c ∷ [])
plain_number most (c ∷ d ∷ s) = if c == b'0' then none else number_below most 0 (c ∷ d ∷ s)

unfoldable pub four_octets : List Text → Option ℕ
four_octets (a ∷ b ∷ c ∷ d ∷ []) = elim (plain_number 255 a) [
  | none ↦ none
  | some a' ↦ elim (plain_number 255 b) [
    | none ↦ none
    | some b' ↦ elim (plain_number 255 c) [
      | none ↦ none
      | some c' ↦ elim (plain_number 255 d) [
        | none ↦ none
        | some d' ↦ some (((a' * 256 + b') * 256 + c') * 256 + d')
      ]
    ]
  ]
]
four_octets parts = none

-- `netip.ParseAddr(s)` with `Is4`: `none` for an error and for an IPv6 address alike.
unfoldable pub parse_addr : Text → Option ℕ
parse_addr s = four_octets (split b'.' s)

pub record Prefix : Type 0 where
  pub addr : ℕ
  pub bits : ℕ

abbrev pub some_prefix : Option ℕ → Option ℕ → Option Prefix
some_prefix (some a) (some b) = some (record { addr = a; bits = b })
some_prefix (some a) none = none
some_prefix none b = none

-- `netip.ParsePrefix(s)` with `Addr().Is4`.
unfoldable pub parse_prefix : Text → Option Prefix
parse_prefix s =
    let (before, after, found) = cut b'/' s in
    if found then some_prefix (parse_addr before) (plain_number 32 after) else none

-- The number of addresses that share the prefix.
abbrev pub block : Prefix → ℕ
block p = 2 ^ (32 - p.bits)

-- `prefix.Masked()`.
abbrev pub masked : Prefix → Prefix
masked p = record p { addr = p.addr / block p * block p }

-- `prefix.Contains(ip)`.
abbrev pub contains_ip : Prefix → ℕ → Bool
contains_ip p ip = ip / block p == p.addr / block p

abbrev min_bits : Prefix → Prefix → ℕ
min_bits p q = if leb p.bits q.bits then p.bits else q.bits

-- `p.Overlaps(q)`: the shorter prefix covers both.
unfoldable pub overlaps : Prefix → Prefix → Bool
overlaps p q = p.addr / 2 ^ (32 - min_bits p q) == q.addr / 2 ^ (32 - min_bits p q)

-- A result that there is, is below the bound.
abbrev pub Below : ℕ → Option ℕ → Type 0
Below m none = Unit
Below m (some r) = r < m

number_below-Below :
    (most n : ℕ) (s : Text) → n < suc most → Below (suc most) (number_below most n s)
unfolding number_below
number_below-Below most n [] h = h
number_below-Below most n (c ∷ s) h =
    ground (arith, number_below-Below most (n * 10 + (c - b'0')) s)

plain_number-Below : (most : ℕ) (s : Text) → Below (suc most) (plain_number most s)
unfolding plain_number
plain_number-Below most [] = tt
plain_number-Below most (c ∷ []) = number_below-Below most 0 (c ∷ []) (omega arith)
plain_number-Below most (c ∷ d ∷ s) = ground (arith, number_below-Below most 0 (c ∷ d ∷ s))

four_octets-Below : (parts : List Text) → Below (2 ^ 32) (four_octets parts)
unfolding four_octets
four_octets-Below (a ∷ b ∷ c ∷ d ∷ []) = ground (
  arith,
  plain_number-Below 255 a,
  plain_number-Below 255 b,
  plain_number-Below 255 c,
  plain_number-Below 255 d,
)
four_octets-Below parts = tt

-- An address is a 32-bit number.
pub parse_addr-Below : (s : Text) → Below (2 ^ 32) (parse_addr s)
unfolding parse_addr
parse_addr-Below s = four_octets-Below (split b'.' s)

-- A prefix has a 32-bit address and at most 32 bits.
pub parse_prefix_bounds :
    (s : Text) {p : Prefix} → parse_prefix s ≡ some p → (p.addr < 2 ^ 32) × (p.bits < 33)
unfolding parse_prefix
parse_prefix_bounds s {p} e =
    ground (arith, parse_addr-Below (cut b'/' s).0, plain_number-Below 32 (cut b'/' s).1)

parse_tests :
    (parse_prefix (codes "10.0.100.0/24") ≡ some (record { addr = 167797760; bits = 24 }))
    × (parse_prefix (codes "10.0.100.0/024") ≡ none)
    × (parse_addr (codes "10.0.0.256") ≡ none)
    × (parse_addr (codes "10.0.01.2") ≡ none)
unfolding parse_prefix parse_addr four_octets plain_number number_below split cut
parse_tests = (refl, refl, refl, refl)
