-- ===== src/Config/Capability/Number.antt =====
-- `CapabilityNumber` of config.go against the places of the names.
use bcs_zc241t_study_project.Prelude.{
  ℕ, zero, suc, ◌+◌, ◌≡◌, refl, ap, ◌∙◌, ◌↔◌, inl, inr, Bool, true, not, ◌&&◌, Option, none, some,
  List, [], ◌∷◌, ◌=?◌, =?_iff, contains, Distinct, arith, Bool-cases,
}
use bcs_zc241t_study_project.Text.{Text, trim_space, to_upper}
use bcs_zc241t_study_project.Config.Capability.{
  capability_names, find_capability, capability_number,
}

-- The name at a place of a list.
abbrev pub get_elem? : List Text → ℕ → Option Text
get_elem? [] n = none
get_elem? (x ∷ xs) zero = some x
get_elem? (x ∷ xs) (suc n) = get_elem? xs n

all_distinct : List Text → Bool
unfolding contains ◌=?◌
all_distinct [] = true
all_distinct (k ∷ ks) = not (contains ks k) && all_distinct ks

all_distinct-Distinct : (ks : List Text) → all_distinct ks ≡ true → Distinct ks
unfolding all_distinct
all_distinct-Distinct [] h = tt
all_distinct-Distinct (k ∷ ks) h = (ground arith, all_distinct-Distinct ks (ground arith))

names_all_distinct : all_distinct capability_names ≡ true
unfolding all_distinct
names_all_distinct = refl

names-Distinct : Distinct capability_names
names-Distinct = all_distinct-Distinct capability_names names_all_distinct

find_capability_sound :
    (start : ℕ) (names : List Text) (name : Text) (n : ℕ)
    → find_capability start names name ≡ some n
    → (i : ℕ) × (n ≡ start + i) × (get_elem? names i ≡ some name)
unfolding find_capability
find_capability_sound start [] name n h = cc
find_capability_sound start (c ∷ cs) name n h = elim (Bool-cases (c =? name)) [
  | inl e ↦ (0, ground arith, ground (arith, =?_iff c name))
  | inr e ↦
      let (i, place, found) = find_capability_sound (suc start) cs name n (ground arith) in
      (suc i, omega arith, found)
]

get_elem-Has :
    (names : List Text) (i : ℕ) (name : Text)
    → get_elem? names i ≡ some name
    → contains names name ≡ true
unfolding contains
get_elem-Has [] i name h = cc
get_elem-Has (c ∷ cs) zero name h = ground (arith, =?_iff c name)
get_elem-Has (c ∷ cs) (suc i) name h = ground (arith, get_elem-Has cs i name h)

find_capability_complete :
    (start : ℕ) (names : List Text) (name : Text) (i : ℕ)
    → Distinct names
    → get_elem? names i ≡ some name
    → find_capability start names name ≡ some (start + i)
unfolding find_capability
find_capability_complete start [] name i d h = cc
find_capability_complete start (c ∷ cs) name zero d h = ground (arith, =?_iff c name)
find_capability_complete start (c ∷ cs) name (suc i) (new, d) h = ground (
  arith,
  =?_iff c name,
  get_elem-Has cs i name h,
  find_capability_complete (suc start) cs name i d h,
)

-- `CapabilityNumber` gives a number exactly when the trimmed name in upper case stands at that place of
-- the list of names, in which the kernel's numbers are the places.
pub capability_number_exact :
    (name : Text) (n : ℕ)
    → (capability_number name ≡ some n)
      ↔ (get_elem? capability_names n ≡ some (to_upper (trim_space name)))
unfolding capability_number
capability_number_exact name n = (sound, complete)
  where
    sound :
        capability_number name ≡ some n
        → get_elem? capability_names n ≡ some (to_upper (trim_space name))
    sound h =
        let (i, place, found) =
          find_capability_sound 0 capability_names (to_upper (trim_space name)) n h in
        let same : n ≡ i = omega (arith, place) in rw same found

    complete :
        get_elem? capability_names n ≡ some (to_upper (trim_space name))
        → capability_number name ≡ some n
    complete h =
        let zero_plus : 0 + n ≡ n = omega arith in
        find_capability_complete 0 capability_names (to_upper (trim_space name)) n names-Distinct h
        ∙ ap some zero_plus
