-- ===== src/Config/Tests.antt =====
-- Configurations to try sandbox/sandbox/config on.
use bcs_zc241t_study_project.Prelude.{
  ◌≡◌, refl, ◌≢◌, ◌↔◌, true, false, none, some, List, [], ◌∷◌, map, ok, ◌=?◌, if◌then◌else◌, codes,
  All, Distinct, contains, ltb, length,
}
use bcs_zc241t_study_project.Text.{Text, cut, split, join, contains_byte, trim_space, to_upper}
use bcs_zc241t_study_project.Paths.{elements, clean_elements, is_dot_dot}
use bcs_zc241t_study_project.Config.Types.{Config, BindMount, default_config, action_is_valid}
use bcs_zc241t_study_project.Config.Environment.{
  key_of, has_equals, environment, inherit, entry_key, validate_environment,
}
use bcs_zc241t_study_project.Config.Environment.Lookup.{
  find, find-environment, environment-Distinct, is_entry, validate_environment_exact,
}
use bcs_zc241t_study_project.Config.Capability.{
  capability_names, capability_number, is_known_capability,
}
use bcs_zc241t_study_project.Config.Capability.Number.{get_elem?, capability_number_exact}
use bcs_zc241t_study_project.Config.Binds.Apart.{IsAllowed, ArePairwiseApart, target}
use bcs_zc241t_study_project.Network.Types.{mode_is_valid}
use bcs_zc241t_study_project.Config.Binds.{validate_bind_policies}
use bcs_zc241t_study_project.Config.Validate.{Platform, validate}
use bcs_zc241t_study_project.Config.Validate.Accepted.{IsAccepted}
use bcs_zc241t_study_project.Config.Validate.Sound.{validate-IsAccepted, validate-ArePairwiseApart}

abbrev variables : List Text
variables = codes "PATH=/bin" ∷ codes "TERM=dumb" ∷ []

abbrev host_variables : List Text
host_variables = codes "LANG=C" ∷ codes "TERM=xterm" ∷ codes "HOME=/root" ∷ codes "LANG=de" ∷ []

abbrev allowed : List Text
allowed = codes "LANG" ∷ codes "TERM" ∷ []

all_keyed : All (λ e. has_equals e ≡ true) variables
unfolding cut has_equals
all_keyed = (refl, (refl, tt))

inherited :
    environment variables allowed host_variables
    ≡ codes "PATH=/bin" ∷ codes "TERM=dumb" ∷ codes "LANG=C" ∷ []
unfolding environment inherit has_equals cut ◌=?◌
inherited = refl

find-environment_example : find (codes "LANG") (environment variables allowed host_variables) ≡ (
    if contains (map key_of variables) (codes "LANG")
    then find (codes "LANG") variables
    else if contains allowed (codes "LANG")
    then find (codes "LANG") host_variables
    else none)
find-environment_example =
    find-environment variables allowed host_variables (codes "LANG") all_keyed

keys-Distinct : Distinct (map key_of variables)
unfolding cut contains ◌=?◌ key_of
keys-Distinct = (refl, (refl, tt))

environment-Distinct_example : Distinct (map key_of (environment variables allowed host_variables))
environment-Distinct_example = environment-Distinct variables allowed host_variables keys-Distinct

validate_environment_exact_example :
    (validate_environment variables true ≡ ok tt)
    ↔ (All (λ e. is_entry true e ≡ true) variables × Distinct (map (entry_key true) variables))
validate_environment_exact_example = validate_environment_exact variables true

capability_number_exact_example :
    (capability_number (codes " cap_kill ") ≡ some 5)
    ↔ (get_elem? capability_names 5 ≡ some (to_upper (trim_space (codes " cap_kill "))))
capability_number_exact_example = capability_number_exact (codes " cap_kill ") 5

abbrev platform : Platform
platform = record { parse_url = λ u. none; is_ip = λ s. true; goarch = codes "amd64" }

abbrev shared : BindMount
shared = record {
  host_path = codes "/srv/data";
  container_path = codes "/data/shared";
  writable = true;
}

abbrev tools : BindMount
tools = record {
  host_path = codes "/opt/tools";
  container_path = codes "/data/tools/";
  writable = false;
}

abbrev mounted : Config
mounted = record default_config {
  command = codes "/bin/sh" ∷ codes "-c" ∷ codes "true" ∷ [];
  rootfs_source = codes "/var/rootfs";
  read_only_root = false;
  bind_mounts = shared ∷ tools ∷ [];
  dns_servers = codes "9.9.9.9" ∷ [];
  env_whitelist = codes "TERM" ∷ [];
}

mounted_accepted : validate platform mounted ≡ ok tt
unfolding validate mode_is_valid trim_space contains_byte action_is_valid is_known_capability split
    is_dot_dot validate_bind_policies join elements clean_elements validate_environment cut
mounted_accepted = refl

validate-IsAccepted_example : IsAccepted platform mounted
validate-IsAccepted_example = validate-IsAccepted platform mounted mounted_accepted

below_root : All (λ m. elements (target m) ≢ []) mounted.bind_mounts
unfolding elements clean_elements split is_dot_dot
below_root = (λ e. cc, (λ e. cc, tt))

validate-ArePairwiseApart_example :
    ArePairwiseApart mounted.bind_mounts
    × All (λ m. IsAllowed (ltb 0 (length mounted.dns_servers)) (target m)) mounted.bind_mounts
validate-ArePairwiseApart_example =
    validate-ArePairwiseApart platform mounted below_root mounted_accepted
