-- ===== src/Parent/Environment.antt =====
-- sandbox/sandbox/parent/terminal.go and parent.go: the environments that the parent makes.
pub mod Term
mod Tests
use bcs_zc241t_study_project.Prelude.{
  ℕ, suc, ◌≤◌, Bool, true, false, not, ◌&&◌, ◌||◌, List, [], ◌∷◌, ◌++◌, leb, ◌==◌, ◌=?◌, length,
  if◌then◌else◌, codes,
}
use bcs_zc241t_study_project.Text.{Text, cut}
use bcs_zc241t_study_project.Config.Types.{Config}
use bcs_zc241t_study_project.Config.Environment.{environment}

-- `key, value, ok := strings.Cut(entry, "="); ok && key == name`, with the value.
unfoldable pub sets_name : Text → Text → Bool
unfolding ◌=?◌
sets_name name entry = let (key, value, found) = cut b'=' entry in found && key =? name

unfoldable pub value_of : Text → Text
value_of entry = let (key, value, found) = cut b'=' entry in value

-- `configuredEnvironmentValue`.
unfoldable pub configured_environment_value : List Text → Text → Text × Bool
unfolding sets_name value_of
configured_environment_value [] name = ([], false)
configured_environment_value (entry ∷ rest) name =
    let later = configured_environment_value rest name in
    if sets_name name entry then (value_of entry, true) else later

abbrev pub is_alphanumeric : ℕ → Bool
is_alphanumeric c =
    (leb b'A' c && leb c b'Z') || (leb b'a' c && leb c b'z') || (leb b'0' c && leb c b'9')

abbrev pub is_term_char : ℕ → Bool
is_term_char c = is_alphanumeric c || c == b'.' || c == b'_' || c == b'+' || c == b'-'

abbrev pub all_term_chars : Text → Bool
all_term_chars [] = true
all_term_chars (c ∷ s) = is_term_char c && all_term_chars s

-- The regular expression `terminalNamePattern`.
unfoldable pub is_terminal_name : Text → Bool
is_terminal_name [] = false
is_terminal_name (c ∷ s) = is_alphanumeric c && all_term_chars s && leb (length s) 31

abbrev pub term_name : Text
term_name = codes "TERM"

unfoldable pub term_value : Text → Text → Bool → Text
unfolding is_terminal_name
term_value host_term configured_term true = configured_term
term_value host_term configured_term false =
    if is_terminal_name host_term then host_term else codes "dumb"

-- The loop of `interactiveEnvironment`.
unfoldable pub without : Text → List Text → List Text
unfolding sets_name
without name [] = []
without name (entry ∷ rest) =
    let others = without name rest in if sets_name name entry then others else entry ∷ others

-- `interactiveEnvironment`.
unfoldable pub interactive_environment : List Text → Text → Text → Bool → List Text
unfolding without term_value
interactive_environment entries host_term configured_term configured =
    without term_name entries
    ++ (codes "TERM=" ++ term_value host_term configured_term configured) ∷ []

-- `snapshotEnvironment`.
unfoldable pub snapshot_environment : Config → List Text → Config
unfolding environment
snapshot_environment cfg host_environment = record cfg {
  env_vars = environment cfg.env_vars cfg.env_whitelist host_environment;
  env_whitelist = [];
}

-- `internalChildEnvironment`.
unfoldable pub internal_child_environment : List Text → List Text
unfolding sets_name
internal_child_environment [] = []
internal_child_environment (entry ∷ rest) =
    let later = internal_child_environment rest in
    if sets_name (codes "PATH") entry then entry ∷ [] else later
