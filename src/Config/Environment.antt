-- ===== src/Config/Environment.antt =====
-- sandbox/sandbox/config/config.go: `Config.Environment` and `validateEnvironment`.
pub mod Lookup
use bcs_zc241t_study_project.Prelude.{
  ℕ, Bool, true, false, not, ◌&&◌, ◌||◌, List, [], ◌∷◌, ◌++◌, map, Result, ok, err, ◌>>◌, reject,
  ltb, leb, ◌==◌, ◌=?◌, if◌then◌else◌, contains,
}
use bcs_zc241t_study_project.Text.{Text, cut, has_nul}

-- The key of `KEY=VALUE`, by `strings.Cut`; all of an entry without `=`.
unfoldable pub key_of : Text → Text
key_of entry = let (key, _, _) = cut b'=' entry in key

unfoldable pub has_equals : Text → Bool
has_equals entry = let (_, _, found) = cut b'=' entry in found

-- The loop over the host's environment, with the keys seen before.
unfoldable pub inherit : List Text → List Text → List Text → List Text
unfolding contains
inherit allowed seen [] = []
inherit allowed seen (entry ∷ rest) =
    let skipped = inherit allowed seen rest in
    let taken = inherit allowed (key_of entry ∷ seen) rest in
    if not (has_equals entry)
    then skipped
    else if not (contains allowed (key_of entry))
    then skipped
    else if contains seen (key_of entry)
    then skipped
    else entry ∷ taken

-- `Config.Environment`, from `EnvVars`, `EnvWhitelist` and the host's environment.
unfoldable pub environment : List Text → List Text → List Text → List Text
unfolding key_of
environment env_vars env_whitelist host =
    env_vars ++ inherit env_whitelist (map key_of env_vars) host

abbrev is_letter : ℕ → Bool
is_letter c = (leb b'A' c && leb c b'Z') || (leb b'a' c && leb c b'z') || c == b'_'

abbrev is_name_char : ℕ → Bool
is_name_char c = is_letter c || (leb b'0' c && leb c b'9')

abbrev name_tail : Text → Bool
name_tail [] = true
name_tail (c ∷ s) = is_name_char c && name_tail s

-- The regular expression `environmentName`.
unfoldable pub is_environment_name : Text → Bool
is_environment_name [] = false
is_environment_name (c ∷ s) = is_letter c && name_tail s

pub data EnvironmentError : Type 0 where
  not_key_value entry_has_nul invalid_key duplicate_key : Text → EnvironmentError

-- `key, _, ok = strings.Cut(entry, "=")` where values are expected, the whole entry elsewhere.
unfoldable pub entry_key : Bool → Text → Text
unfolding key_of
entry_key false entry = entry
entry_key true entry = key_of entry

unfoldable pub check_entry : Bool → Text → Result EnvironmentError (Unit {0})
unfolding has_equals
check_entry false entry = ok tt
check_entry true entry = do
  reject (not (has_equals entry)) (not_key_value entry)
  reject (has_nul entry) (entry_has_nul entry)

-- The loop of `validateEnvironment`, with the keys seen so far.
unfoldable pub check_entries : Bool → List Text → List Text → Result EnvironmentError (Unit {0})
unfolding check_entry entry_key is_environment_name contains
check_entries values seen [] = ok tt
check_entries values seen (entry ∷ rest) = do
  check_entry values entry
  reject (not (is_environment_name (entry_key values entry))) (invalid_key (entry_key values entry))
  reject (contains seen (entry_key values entry)) (duplicate_key (entry_key values entry))
  check_entries values (entry_key values entry ∷ seen) rest

-- `validateEnvironment`; `values` says whether entries are `KEY=VALUE`.
unfoldable pub validate_environment : List Text → Bool → Result EnvironmentError (Unit {0})
unfolding check_entries
validate_environment entries values = check_entries values [] entries
