-- ===== src/Text/Decimal.antt =====
-- `strconv.Itoa`, `strconv.ParseUint` and `hex.EncodeToString`.
use bcs_zc241t_study_project.Prelude.{
  ℕ, zero, suc, ◌+◌, ◌-◌, ◌*◌, ◌/◌, ◌%◌, ◌^◌, ◌≡◌, refl, Bool, ◌&&◌, Option, none, some, List, [],
  ◌∷◌, ◌++◌, ltb, leb, if◌then◌else◌, codes,
}
use bcs_zc241t_study_project.Prelude.Int.{ℤ, pos, negsuc}
use bcs_zc241t_study_project.Text.{Text}

-- The digits of `n` in front of those written so far; `n` rounds are enough.
unfoldable pub write_digits : ℕ → ℕ → Text → Text
write_digits zero n out = out
write_digits (suc fuel) n out =
    let more = write_digits fuel (n / 10) ((b'0' + n % 10) ∷ out) in
    if ltb n 10 then (b'0' + n) ∷ out else more

unfoldable pub itoa_ℕ : ℕ → Text
unfolding write_digits
itoa_ℕ n = write_digits (suc n) n []

unfoldable pub itoa : ℤ → Text
itoa (pos n) = itoa_ℕ n
itoa (negsuc n) = b'-' ∷ itoa_ℕ (suc n)

abbrev pub hex_digit : ℕ → ℕ
hex_digit n = if ltb n 10 then b'0' + n else b'a' + n - 10

unfoldable pub encode_hex : List ℕ → Text
encode_hex [] = []
encode_hex (b ∷ bs) = hex_digit (b / 16) ∷ hex_digit (b % 16) ∷ encode_hex bs

spelled : itoa_ℕ 65535 ++ itoa (negsuc 41) ++ encode_hex (0x0a ∷ 0xff ∷ []) ≡ codes "65535-420aff"
unfolding itoa_ℕ itoa encode_hex
spelled = refl

abbrev pub is_digit : ℕ → Bool
is_digit c = leb b'0' c && leb c b'9'

unfoldable pub digits_value : ℕ → Text → Option ℕ
digits_value value [] = some value
digits_value value (c ∷ s) =
    let rest = digits_value (value * 10 + (c - b'0')) s in if is_digit c then rest else none

-- `strconv.ParseUint(s, 10, bits)`: digits only, at least one, and a value below `2 ^ bits`.
unfoldable pub parse_uint : ℕ → Text → Option ℕ
unfolding digits_value
parse_uint bits [] = none
parse_uint bits (c ∷ s) = elim (digits_value 0 (c ∷ s)) [
  | none ↦ none
  | some value ↦ if ltb value (2 ^ bits) then some value else none
]

read_back : parse_uint 32 (codes "4294967295") ≡ some 4294967295
unfolding parse_uint
read_back = refl
