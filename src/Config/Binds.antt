-- ===== src/Config/Binds.antt =====
-- sandbox/sandbox/config/config.go: `validateBindPolicies` and `isPathAncestor`.
pub mod Apart
use bcs_zc241t_study_project.Prelude.{
  Bool, true, false, not, ◌&&◌, ◌||◌, List, [], ◌∷◌, ◌++◌, map, Result, ok, err, ◌>>=◌, ◌>>◌,
  reject, ◌=?◌, if◌then◌else◌, codes,
}
use bcs_zc241t_study_project.Text.{Text, has_prefix}
use bcs_zc241t_study_project.Paths.{clean, slash}
use bcs_zc241t_study_project.Config.Types.{BindMount}

pub data BindError : Type 0 where
  in_dev in_proc : Text → BindError
  over_resolv_conf duplicate overlapping : BindError

-- `isPathAncestor`.
unfoldable pub is_path_ancestor : Text → Text → Bool
unfolding ◌=?◌ has_prefix
is_path_ancestor parent child =
    if parent =? codes "/" || parent =? child
    then false
    else has_prefix child (parent ++ slash ∷ [])

-- The policies on a single target.
unfoldable pub check_target : Bool → BindMount → Result BindError (Unit {0})
unfolding ◌=?◌ has_prefix clean
check_target dns_configured m = do
  let target = clean m.container_path
  reject (target =? codes "/dev" || has_prefix target (codes "/dev/")) (in_dev m.container_path)
  reject (target =? codes "/proc" || has_prefix target (codes "/proc/")) (in_proc m.container_path)
  reject (dns_configured && target =? codes "/etc/resolv.conf") over_resolv_conf

unfoldable pub check_targets : Bool → List BindMount → Result BindError (Unit {0})
unfolding check_target
check_targets dns_configured [] = ok tt
check_targets dns_configured (m ∷ ms) = do
  check_target dns_configured m
  check_targets dns_configured ms

-- The inner loop, over the targets before `t`.
unfoldable pub check_against : List Text → Text → Result BindError (Unit {0})
unfolding is_path_ancestor ◌=?◌
check_against [] t = ok tt
check_against (s ∷ earlier) t = do
  reject (t =? s) duplicate
  reject (is_path_ancestor t s || is_path_ancestor s t) overlapping
  check_against earlier t

-- The outer loop, with the targets that precede in order.
unfoldable pub check_pairs : List Text → List Text → Result BindError (Unit {0})
unfolding check_against
check_pairs earlier [] = ok tt
check_pairs earlier (t ∷ ts) = do check_against earlier t; check_pairs (earlier ++ t ∷ []) ts

-- `validateBindPolicies`.
unfoldable pub validate_bind_policies : List BindMount → Bool → Result BindError (Unit {0})
unfolding check_targets check_pairs clean
validate_bind_policies mounts dns_configured = do
  check_targets dns_configured mounts
  check_pairs [] (map (λ m. clean m.container_path) mounts)
