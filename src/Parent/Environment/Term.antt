-- ===== src/Parent/Environment/Term.antt =====
-- The environments of the parent as maps from names to values, through the first entry of a name.
use bcs_zc241t_study_project.Prelude.{
  ℕ, ◌≤◌, ◌↔◌, length, ◌≡◌, refl, ap, ◌⊎◌, All, Bool, true, false, List, [], ◌∷◌, ◌++◌, ◌=?◌,
  =?_iff, if◌then◌else◌, codes, arith, Bool-cases, inl, inr,
}
use bcs_zc241t_study_project.Text.{Text, cut}
use bcs_zc241t_study_project.Parent.Environment.{
  sets_name, value_of, configured_environment_value, term_name, term_value, is_terminal_name,
  is_alphanumeric, is_term_char, all_term_chars, without, interactive_environment,
  internal_child_environment,
}

same_name :
    (name other entry : Text)
    → sets_name name entry ≡ true
    → sets_name other entry ≡ true
    → name ≡ other
unfolding sets_name
same_name name other entry h k =
    let (key, _, _) = cut b'=' entry in ground (arith, =?_iff key name, =?_iff key other)

-- Entries of another name stay, those of the name go.
value-without :
    (removed name : Text) (entries : List Text)
    → configured_environment_value (without removed entries) name
      ≡ (if removed =? name then ([], false) else configured_environment_value entries name)
unfolding configured_environment_value without
value-without removed name [] = ground arith
value-without removed name (entry ∷ rest) =
    ground
      (arith, value-without removed name rest, same_name removed name entry, =?_iff removed name)

-- An entry behind others is seen by the names that these do not set.
value-append :
    (entries : List Text) (entry name : Text)
    → configured_environment_value (entries ++ entry ∷ []) name ≡ (
        if (configured_environment_value entries name).1
        then configured_environment_value entries name
        else if sets_name name entry
        then (value_of entry, true)
        else ([], false))
unfolding configured_environment_value
value-append [] entry name = ground arith
value-append (e ∷ entries) entry name = ground (arith, value-append entries entry name)

unset_value :
    (entries : List Text) (name : Text)
    → (configured_environment_value entries name).1 ≡ false
    → configured_environment_value entries name ≡ ([], false)
unfolding configured_environment_value
unset_value [] name h = refl
unset_value (e ∷ entries) name h = ground (arith, unset_value entries name)

sets-term_entry :
    (value name : Text) → sets_name name (codes "TERM=" ++ value) ≡ (term_name =? name)
unfolding sets_name cut
sets-term_entry value name = refl

value-term_entry : (value : Text) → value_of (codes "TERM=" ++ value) ≡ value
unfolding value_of cut
value-term_entry value = refl

replaced :
    (entries : List Text) (value name : Text)
    → configured_environment_value (without term_name entries ++ (codes "TERM=" ++ value) ∷ []) name
      ≡ (if term_name =? name then (value, true) else configured_environment_value entries name)
replaced entries value name =
    rw
      (
        value-append (without term_name entries) (codes "TERM=" ++ value) name,
        value-without term_name name entries,
        sets-term_entry,
        value-term_entry,
      )
      (elim (Bool-cases (term_name =? name)) [
        | inl e ↦ rw e refl
        | inr e ↦ rw e (ground (arith, unset_value entries name))
      ])

term_value_lem :
    (host_term configured_term : Text) (configured : Bool)
    → term_value host_term configured_term configured ≡ (
        if configured
        then configured_term
        else if is_terminal_name host_term
        then host_term
        else codes "dumb")
unfolding term_value
term_value_lem host_term configured_term true = refl
term_value_lem host_term configured_term false = refl

-- A letter or a digit.
abbrev pub IsAlphanumeric : ℕ → Type 0
IsAlphanumeric c = ((b'A' ≤ c) × (c ≤ b'Z')) ⊎ ((b'a' ≤ c) × (c ≤ b'z')) ⊎ ((b'0' ≤ c) × (c ≤ b'9'))

abbrev pub IsTermChar : ℕ → Type 0
IsTermChar c = IsAlphanumeric c ⊎ (c ≡ b'.') ⊎ (c ≡ b'_') ⊎ (c ≡ b'+') ⊎ (c ≡ b'-')

-- A text that `terminalNamePattern` matches: a letter or a digit, and up to 31 such characters, dots,
-- underscores, plus and minus signs.
abbrev pub IsTerminalName : Text → Type 0
IsTerminalName [] = ⊥
IsTerminalName (c ∷ s) = IsAlphanumeric c × All IsTermChar s × (length s ≤ 31)

is_alphanumeric_iff : (c : ℕ) → (is_alphanumeric c ≡ true) ↔ IsAlphanumeric c
is_alphanumeric_iff c = ground arith

is_term_char_iff : (c : ℕ) → (is_term_char c ≡ true) ↔ IsTermChar c
is_term_char_iff c = ground arith

all_term_chars_iff : (s : Text) → (all_term_chars s ≡ true) ↔ All IsTermChar s
all_term_chars_iff [] = (λ _. tt, λ _. refl)
all_term_chars_iff (c ∷ s) =
    let (to, from) = is_term_char_iff c in
    let (all_to, all_from) = all_term_chars_iff s in
    (
      λ h. (to (ground arith), all_to (ground arith)),
      λ (p, q). let a = from p in let b = all_from q in ground arith,
    )

is_terminal_name_iff : (s : Text) → (is_terminal_name s ≡ true) ↔ IsTerminalName s
unfolding is_terminal_name
is_terminal_name_iff [] = (λ h. cc, λ h. absurd h)
is_terminal_name_iff (c ∷ s) =
    let (to, from) = is_alphanumeric_iff c in
    let (all_to, all_from) = all_term_chars_iff s in
    (
      λ h. (to (ground arith), all_to (ground arith), ground arith),
      λ (p, q, r). let a = from p in let b = all_from q in ground arith,
    )

-- The environment of an interactive command is the environment before with one value replaced: `TERM`
-- is the configured value if there is one, else the host's if it matches `terminalNamePattern`, else
-- `dumb`; every other name has the first value that it had, or none. A text matches the pattern exactly if
-- it is a letter or a digit with up to 31 letters, digits, dots, underscores, plus and minus signs behind it.
pub value-interactive_environment :
    (entries : List Text) (host_term configured_term : Text) (configured : Bool) (name : Text)
    → configured_environment_value
          (interactive_environment entries host_term configured_term configured)
          name
        ≡ (if term_name =? name
            then (
              (if configured
                  then configured_term
                  else if is_terminal_name host_term
                  then host_term
                  else codes "dumb"),
              true,
            )
            else configured_environment_value entries name)
      × ((is_terminal_name host_term ≡ true) ↔ IsTerminalName host_term)
unfolding interactive_environment
value-interactive_environment entries host_term configured_term configured name = (
  rw (← term_value_lem host_term configured_term configured)
      (replaced entries (term_value host_term configured_term configured) name),
  is_terminal_name_iff host_term,
)

abbrev SetsNoPath : Text → Type 0
SetsNoPath entry = sets_name (codes "PATH") entry ≡ false

-- The result is the first entry of `PATH`, alone.
abbrev pub IsFirstPath : List Text → List Text → Type 0
IsFirstPath entries result =
    (before : List Text) × (entry : Text) × (after : List Text) × (entries
      ≡ before ++ entry ∷ after)
    × All SetsNoPath before
    × (sets_name (codes "PATH") entry ≡ true)
    × (result ≡ entry ∷ [])

abbrev pub IsPathOnly : List Text → List Text → Type 0
IsPathOnly entries result = (All SetsNoPath entries × (result ≡ [])) ⊎ IsFirstPath entries result

-- One entry more, which does not set `PATH`.
passed_over :
    (entry : Text) (rest result : List Text)
    → SetsNoPath entry
    → IsPathOnly rest result
    → IsPathOnly (entry ∷ rest) result
passed_over entry rest result other (inl (none_sets, e)) = inl ((other, none_sets), e)
passed_over entry rest result other (inr (before, found, after, e, others, sets, r)) =
    inr (entry ∷ before, found, after, ap (λ l. entry ∷ l) e, (other, others), sets, r)

one_more :
    (b : Bool) (entry : Text) (rest result : List Text)
    → sets_name (codes "PATH") entry ≡ b
    → IsPathOnly rest result
    → IsPathOnly (entry ∷ rest) (if b then entry ∷ [] else result)
one_more true entry rest result sets p = inr ([], entry, rest, refl, tt, sets, refl)
one_more false entry rest result other p = passed_over entry rest result other p

-- The child process itself starts with the first entry that sets `PATH` and no other entry, or with none if
-- no entry sets it.
pub internal_child_environment-IsPathOnly :
    (entries : List Text) → IsPathOnly entries (internal_child_environment entries)
unfolding internal_child_environment
internal_child_environment-IsPathOnly [] = inl (tt, refl)
internal_child_environment-IsPathOnly (entry ∷ rest) =
    one_more (sets_name (codes "PATH") entry) entry rest (internal_child_environment rest) refl
      (internal_child_environment-IsPathOnly rest)
