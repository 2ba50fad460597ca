-- ===== src/Config/Environment/Lookup.antt =====
-- What a command finds in the environment that `Config.Environment` of config.go builds, and which
-- lists `validateEnvironment` accepts.
use bcs_zc241t_study_project.Prelude.{
  ◌≡◌, refl, ◌↔◌, Bool, true, false, not, ◌&&◌, ◌||◌, Option, none, some, List, [], ◌∷◌, ◌++◌, map,
  ok, reject, ◌=?◌, =?_iff, if◌then◌else◌, All, contains, Distinct, Fresh, Fresh-Distinct,
  Distinct-Fresh, arith, >>-eq-ok_iff, reject-eq-ok_iff, ◌>>◌,
}
use bcs_zc241t_study_project.Text.{Text, has_nul}
use bcs_zc241t_study_project.Config.Environment.{
  key_of, has_equals, inherit, environment, entry_key, is_environment_name, check_entry,
  check_entries, validate_environment, invalid_key, duplicate_key, not_key_value, entry_has_nul,
}

-- The first entry `KEY=VALUE` of a key, as `getenv` reads an environment.
unfoldable pub find : Text → List Text → Option Text
unfolding ◌=?◌
find k [] = none
find k (entry ∷ rest) =
    let later = find k rest in if has_equals entry && key_of entry =? k then some entry else later

find-inherit :
    (allowed seen host : List Text) (k : Text)
    → find k (inherit allowed seen host)
      ≡ (if not (contains seen k) && contains allowed k then find k host else none)
unfolding find inherit contains
find-inherit allowed seen [] k = ground arith
find-inherit allowed seen (entry ∷ rest) k = ground (
  arith,
  =?_iff (key_of entry) k,
  find-inherit allowed seen rest k,
  find-inherit allowed (key_of entry ∷ seen) rest k,
)

find-append :
    (vars more : List Text) (k : Text)
    → All (λ e. has_equals e ≡ true) vars
    → find k (vars ++ more) ≡ (if contains (map key_of vars) k then find k vars else find k more)
unfolding find contains
find-append [] more k h = refl
find-append (entry ∷ rest) more k (e, h) = ground (arith, find-append rest more k h)

-- When each entry of `EnvVars` is `KEY=VALUE`: a key that `EnvVars` sets has its first value there. Any
-- other key has the value of the host's environment if the key is on the whitelist, and none otherwise.
pub find-environment :
    (vars allowed host : List Text) (k : Text)
    → All (λ e. has_equals e ≡ true) vars
    → find k (environment vars allowed host) ≡ (
        if contains (map key_of vars) k
        then find k vars
        else if contains allowed k
        then find k host
        else none)
unfolding environment
find-environment vars allowed host k h = ground (
  arith,
  find-append vars (inherit allowed (map key_of vars) host) k h,
  find-inherit allowed (map key_of vars) host k,
)

map-append : (xs ys : List Text) → map key_of (xs ++ ys) ≡ map key_of xs ++ map key_of ys
map-append [] ys = refl
map-append (x ∷ xs) ys = cc (map-append xs ys)

inherit_avoids :
    (allowed seen host : List Text) (k : Text)
    → contains seen k ≡ true
    → contains (map key_of (inherit allowed seen host)) k ≡ false
unfolding inherit contains
inherit_avoids allowed seen [] k h = refl
inherit_avoids allowed seen (entry ∷ rest) k h = ground (
  arith,
  =?_iff (key_of entry) k,
  inherit_avoids allowed seen rest k h,
  inherit_avoids allowed (key_of entry ∷ seen) rest k,
)

head_avoids :
    (allowed seen host : List Text) (k : Text)
    → contains (map key_of (inherit allowed (k ∷ seen) host)) k ≡ false
head_avoids allowed seen host k =
    inherit_avoids allowed (k ∷ seen) host k (unfold contains in ground (arith, =?_iff k k))

inherit-Distinct :
    (allowed seen host : List Text) → Distinct (map key_of (inherit allowed seen host))
unfolding inherit
inherit-Distinct allowed seen [] = tt
inherit-Distinct allowed seen (entry ∷ rest) = ground (
  arith,
  head_avoids allowed seen rest (key_of entry),
  inherit-Distinct allowed seen rest,
  inherit-Distinct allowed (key_of entry ∷ seen) rest,
)

contains-append :
    (xs ys : List Text) (k : Text) → contains (xs ++ ys) k ≡ (contains xs k || contains ys k)
unfolding contains
contains-append [] ys k = refl
contains-append (x ∷ xs) ys k = ground (arith, contains-append xs ys k)

append-Distinct :
    (xs ys : List Text)
    → Distinct xs
    → Distinct ys
    → ((k : Text) → contains xs k ≡ true → contains ys k ≡ false)
    → Distinct (xs ++ ys)
append-Distinct [] ys dx dy apart = dy
append-Distinct (x ∷ xs) ys (hx, dx) dy apart =
    let here : contains ys x ≡ false = apart x (unfold contains in ground (arith, =?_iff x x)) in
    (
      ground (arith, contains-append xs ys x),
      append-Distinct xs ys dx dy λ k h. apart k (unfold contains in ground arith),
    )

-- When no key of `EnvVars` is set twice, no key of the environment that `Environment` builds is.
pub environment-Distinct :
    (vars allowed host : List Text)
    → Distinct (map key_of vars)
    → Distinct (map key_of (environment vars allowed host))
unfolding environment
environment-Distinct vars allowed host d =
    rw (map-append vars (inherit allowed (map key_of vars) host)) (
      append-Distinct (map key_of vars) _ d (inherit-Distinct allowed (map key_of vars) host)
        (inherit_avoids allowed (map key_of vars) host))

-- An entry that `validateEnvironment` lets through on its own.
unfoldable pub is_entry : Bool → Text → Bool
unfolding entry_key is_environment_name
is_entry values e =
    (not values || (has_equals e && not (has_nul e))) && is_environment_name (entry_key values e)

check_entry_iff :
    (values : Bool) (e : Text)
    → (check_entry values e ≡ ok tt) ↔ ((not values || (has_equals e && not (has_nul e))) ≡ true)
unfolding check_entry
check_entry_iff false e = ground arith
check_entry_iff true e = ground (
  arith,
  >>-eq-ok_iff (reject (not (has_equals e)) (not_key_value e))
      (reject (has_nul e) (entry_has_nul e)) tt,
  reject-eq-ok_iff (not (has_equals e)) (not_key_value e),
  reject-eq-ok_iff (has_nul e) (entry_has_nul e),
)

check_entries_iff :
    (values : Bool) (seen entries : List Text)
    → (check_entries values seen entries ≡ ok tt)
      ↔ (All (λ e. is_entry values e ≡ true) entries × Fresh seen (map (entry_key values) entries))
unfolding check_entries is_entry
check_entries_iff values seen [] = (λ _. (tt, tt), λ _. refl)
check_entries_iff values seen (e ∷ es) =
    let k = entry_key values e in
    let named = reject (not (is_environment_name k)) (invalid_key k) in
    let new = reject (contains seen k) (duplicate_key k) in
    let rest = check_entries values (k ∷ seen) es in
    ground (
      arith,
      >>-eq-ok_iff (check_entry values e) (named >> (new >> rest)) tt,
      >>-eq-ok_iff named (new >> rest) tt,
      >>-eq-ok_iff new rest tt,
      reject-eq-ok_iff (not (is_environment_name k)) (invalid_key k),
      reject-eq-ok_iff (contains seen k) (duplicate_key k),
      check_entry_iff values e,
      check_entries_iff values (k ∷ seen) es,
    )

-- `validateEnvironment` accepts a list exactly when each entry is well formed (with values: it has a
-- `=` and no NUL; always: its key is a name of letters, digits and underscores that starts with no
-- digit) and no key stands twice.
pub validate_environment_exact :
    (entries : List Text) (values : Bool)
    → (validate_environment entries values ≡ ok tt)
      ↔ (All (λ e. is_entry values e ≡ true) entries × Distinct (map (entry_key values) entries))
unfolding validate_environment
validate_environment_exact entries values = ground (
  arith,
  check_entries_iff values [] entries,
  Fresh-Distinct (map (entry_key values) entries),
  Distinct-Fresh (map (entry_key values) entries),
)
