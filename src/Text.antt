-- ===== src/Text.antt =====
-- Go's strings as lists of code points, and the functions of its package `strings` that the program
-- calls. Bytes of UTF-8 are not modelled: every separator and every test of the program is ASCII.
pub mod Laws
pub mod Decimal
use bcs_zc241t_study_project.Prelude.{
  ℕ, zero, suc, ◌+◌, ◌-◌, ◌≤◌, ◌≡◌, refl, Bool, true, false, not, ◌&&◌, ◌||◌, Option, none, some,
  List, [], ◌∷◌, ◌++◌, map, ltb, leb, ◌==◌, ◌=?◌, if◌then◌else◌, any, codes,
}

abbrev pub Text : Type 0
Text = List ℕ

-- `strings.IndexByte(s, c) >= 0`.
unfoldable pub contains_byte : ℕ → Text → Bool
contains_byte c [] = false
contains_byte c (d ∷ s) = d == c || contains_byte c s

abbrev pub has_nul : Text → Bool
has_nul = contains_byte 0

abbrev pub is_empty : Text → Bool
is_empty [] = true
is_empty (c ∷ s) = false

-- `strings.Cut(s, sep)` at a one-byte separator: the part before it, the part behind it, and whether
-- it was found.
unfoldable pub cut : ℕ → Text → Text × Text × Bool
cut sep [] = ([], [], false)
cut sep (c ∷ s) =
    let (before, after, found) = cut sep s in
    if c == sep then ([], s, true) else (c ∷ before, after, found)

abbrev pub push : ℕ → List Text → List Text
push c [] = (c ∷ []) ∷ []
push c (p ∷ ps) = (c ∷ p) ∷ ps

-- `strings.Split(s, sep)` at a one-byte separator.
unfoldable pub split : ℕ → Text → List Text
split sep [] = [] ∷ []
split sep (c ∷ s) = let parts = split sep s in if c == sep then [] ∷ parts else push c parts

-- `strings.Join(parts, sep)` for a one-byte separator.
unfoldable pub join : ℕ → List Text → Text
join sep [] = []
join sep (p ∷ []) = p
join sep (p ∷ q ∷ ps) = p ++ sep ∷ join sep (q ∷ ps)

unfoldable pub has_prefix : Text → Text → Bool
has_prefix s [] = true
has_prefix [] (p ∷ ps) = false
has_prefix (c ∷ s) (p ∷ ps) = c == p && has_prefix s ps

-- `strings.TrimPrefix(s, prefix)`, once the prefix is known to be there.
unfoldable pub skip : Text → Text → Text
skip s [] = s
skip [] (p ∷ ps) = []
skip (c ∷ s) (p ∷ ps) = skip s ps

unfoldable pub trim_prefix : Text → Text → Text
unfolding has_prefix skip
trim_prefix s prefix = if has_prefix s prefix then skip s prefix else s

-- `strings.HasSuffix(s, c)` and `strings.TrimSuffix(s, c)` for one byte.
unfoldable pub ends_with : ℕ → Text → Bool
ends_with c [] = false
ends_with c (d ∷ []) = d == c
ends_with c (d ∷ e ∷ s) = ends_with c (e ∷ s)

unfoldable pub drop_last : Text → Text
drop_last [] = []
drop_last (d ∷ []) = []
drop_last (d ∷ e ∷ s) = d ∷ drop_last (e ∷ s)

unfoldable pub trim_suffix : ℕ → Text → Text
unfolding ends_with drop_last
trim_suffix c s = if ends_with c s then drop_last s else s

-- `unicode.IsSpace`.
unfoldable pub is_space : ℕ → Bool
is_space c =
    (leb 9 c && leb c 13)
    || c == 32
    || c == 0x85
    || c == 0xa0
    || c == 0x1680
    || (leb 0x2000 c && leb c 0x200a)
    || c == 0x2028
    || c == 0x2029
    || c == 0x202f
    || c == 0x205f
    || c == 0x3000

unfoldable pub trim_left : Text → Text
unfolding is_space
trim_left [] = []
trim_left (c ∷ s) = if is_space c then trim_left s else c ∷ s

-- Keeps everything up to the last character that is no space.
unfoldable pub trim_right : Text → Text
unfolding is_space
trim_right [] = []
trim_right (c ∷ s) = let rest = trim_right s in if is_space c && is_empty rest then [] else c ∷ rest

-- `strings.TrimSpace(s)`.
unfoldable pub trim_space : Text → Text
unfolding trim_left trim_right
trim_space s = trim_right (trim_left s)

-- `unicode.ToUpper` as far as its results are ASCII: a to z, the dotless i and the long s. No other
-- character has an ASCII upper case, so none of the program's comparisons tells the rest apart.
unfoldable pub upper : ℕ → ℕ
upper c =
    if leb b'a' c && leb c b'z'
    then c - 32
    else if c == 0x131
    then b'I'
    else if c == 0x17f
    then b'S'
    else c

unfoldable pub to_upper : Text → Text
unfolding upper
to_upper = map upper

-- `strings.EqualFold(s, "ALL")`: none of its letters has a fold outside ASCII.
abbrev pub lower_ascii : ℕ → ℕ
lower_ascii c = if leb b'A' c && leb c b'Z' then c + 32 else c

unfoldable pub equal_fold_ascii : Text → Text → Bool
unfolding ◌=?◌
equal_fold_ascii s t = map lower_ascii s =? map lower_ascii t
