-- ===== src/Resources/Tests.antt =====
-- A filesystem to try sandbox/sandbox/resources on.
use bcs_zc241t_study_project.Prelude.{
  ◌*◌, ◌-◌, ◌^◌, ◌≡◌, refl, Bool, true, false, Option, none, some, [], ◌∷◌, ◌++◌, Result, ok, err,
  ltb, ◌==◌, ◌=?◌, if◌then◌else◌, codes, arith,
}
use bcs_zc241t_study_project.Prelude.Int.{pos}
use bcs_zc241t_study_project.Text.{Text, trim_suffix, contains_byte, join}
use bcs_zc241t_study_project.Paths.{elements, clean_elements, rel_elements}
use bcs_zc241t_study_project.Prelude.Int.{is_negative, pos_part}
use bcs_zc241t_study_project.Resources.Storage.{
  Rlimit, asked, limit_negative, apply_file_size_limit, apply_file_size_limit_lem, limit_overflow,
  infinity,
}
use bcs_zc241t_study_project.Resources.Files.{Files, Log, CgroupError, cannot_write, write, remove}
use bcs_zc241t_study_project.Resources.Cgroup.{
  check_controllers, requested_controllers, parse_unified_cgroup_path,
  resolve_delegated_cgroup_path,
}
use bcs_zc241t_study_project.Resources.Lifecycle.{
  ResourceLimits, configure, prepare_resource_limits,
}
use bcs_zc241t_study_project.Resources.Released.{
  live, is_joined, IsSound, prepare_resource_limits-Released,
}
use bcs_zc241t_study_project.Resources.Delegation.{delegated_path-IsBelow}
use bcs_zc241t_study_project.Resources.Prepared.{IsPrepared, prepare_resource_limits-IsPrepared}

abbrev inherited : Rlimit
inherited = record { cur = 3000000; max = infinity }

apply_file_size_limit_lem_example : apply_file_size_limit (some inherited) (λ r. true) (pos 100) ≡ (
    if is_negative (pos 100)
    then err limit_negative
    else if pos_part (pos 100) == 0
    then ok none
    else if ltb (2 ^ 64 - 1) (pos_part (pos 100) * 2 ^ 20)
    then err limit_overflow
    else asked (some inherited) (λ r. true) (pos_part (pos 100) * 2 ^ 20))
apply_file_size_limit_lem_example =
    apply_file_size_limit_lem (some inherited) (λ r. true) (pos 100) (omega arith, omega arith)

abbrev entry : Text
entry = codes "0::/user.slice/run" ++ 10 ∷ []

abbrev directory : Text
directory = codes "/sys/fs/cgroup/user.slice/run/sandbox-1"

-- A delegated hierarchy, in which `pids.max` can be written or not.
abbrev delegated : Bool → Files
delegated writable = record {
  read_file = λ log path.
      if path =? codes "/proc/self/cgroup" then some entry else some (codes "cpu memory pids");
  mkdir_temp = λ log dir pattern. some directory;
  can_write = λ log path text. writable;
  can_remove = λ log path. true;
  filesystem_type = λ log path. some 1667723888;
  cgroup2_magic = 1667723888;
}

delegated-IsSound : (writable : Bool) → IsSound (delegated writable)
delegated-IsSound writable = record { names_directory = λ log dir pattern path e. cc }

entry_parsed : parse_unified_cgroup_path entry ≡ ok (codes "/user.slice/run")
unfolding parse_unified_cgroup_path trim_suffix contains_byte join elements clean_elements
entry_parsed = refl

delegated_path-IsBelow_example :
    (d : Text) × (resolve_delegated_cgroup_path (codes "/sys/fs/cgroup") (codes "/user.slice/run")
      ≡ ok d)
    × (elements d ≡ elements (codes "/sys/fs/cgroup") ++ elements (codes "/user.slice/run"))
delegated_path-IsBelow_example =
    delegated_path-IsBelow entry (codes "/sys/fs/cgroup") (codes "/user.slice/run") refl
      entry_parsed

abbrev run_on : Bool → Result CgroupError (Option ResourceLimits) × Log
unfolding prepare_resource_limits
run_on writable =
    prepare_resource_limits (delegated writable) (pos 0) (pos 2) (pos 16)
      (codes "/proc/self/cgroup") (codes "/sys/fs/cgroup") []

run_fails : run_on false ≡ (err (cannot_write (directory ++ codes "/memory.max")), (run_on false).1)
unfolding run_on ◌=?◌ parse_unified_cgroup_path trim_suffix contains_byte join elements
    clean_elements resolve_delegated_cgroup_path rel_elements check_controllers
    requested_controllers configure write remove
run_fails = refl

run_succeeds : run_on true ≡ (ok (some (record { path = directory })), (run_on true).1)
unfolding run_on ◌=?◌ parse_unified_cgroup_path trim_suffix contains_byte join elements
    clean_elements resolve_delegated_cgroup_path rel_elements check_controllers
    requested_controllers configure write
run_succeeds = refl

nothing_live : live directory [] ≡ false
unfolding live
nothing_live = refl

plain : is_joined (cannot_write (directory ++ codes "/memory.max")) ≡ false
unfolding is_joined
plain = refl

prepare_resource_limits-Released_example : live directory (run_on false).1 ≡ false
unfolding prepare_resource_limits run_on
prepare_resource_limits-Released_example =
    prepare_resource_limits-Released (delegated false) (delegated-IsSound false) directory (pos 0)
      (pos 2) (pos 16) (codes "/proc/self/cgroup") (codes "/sys/fs/cgroup") [] (run_on false).1
      (cannot_write (directory ++ codes "/memory.max")) nothing_live run_fails plain

prepare_resource_limits-IsPrepared_example :
    IsPrepared
      (delegated true)
      (pos 0)
      (pos 2)
      (pos 16)
      (codes "/proc/self/cgroup")
      (codes "/sys/fs/cgroup")
      []
      (run_on true).1
      directory
unfolding prepare_resource_limits run_on
prepare_resource_limits-IsPrepared_example =
    prepare_resource_limits-IsPrepared (delegated true) (pos 0) (pos 2) (pos 16)
      (codes "/proc/self/cgroup") (codes "/sys/fs/cgroup") [] (run_on true).1
      (record { path = directory }) refl run_succeeds
