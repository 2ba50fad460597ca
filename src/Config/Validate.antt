-- ===== src/Config/Validate.antt =====
-- sandbox/sandbox/config/config.go: `Config.Validate`. What it takes from Go's `net`, `net/url` and
-- `runtime` is a parameter.
pub mod Accepted
pub mod Sound
use bcs_zc241t_study_project.Prelude.{
  ℕ, Bool, true, false, not, ◌&&◌, ◌||◌, Option, none, some, List, [], ◌∷◌, any, Result, ok, err,
  ◌>>=◌, ◌>>◌, reject, wrap, ltb, length, ◌=?◌, if◌then◌else◌, codes,
}
use bcs_zc241t_study_project.Prelude.Int.{ℤ, pos, is_negative, ltb_ℤ}
use bcs_zc241t_study_project.Text.{Text, has_nul, is_empty, trim_space}
use bcs_zc241t_study_project.Paths.{is_abs, has_parent_component}
use bcs_zc241t_study_project.Network.Types.{
  BridgeError, mode_is_valid, mode_bridge, validate_bridge,
}
use bcs_zc241t_study_project.Config.Types.{Config, BindMount, RemoteRootFs, action_is_valid}
use bcs_zc241t_study_project.Config.Environment.{EnvironmentError, validate_environment}
use bcs_zc241t_study_project.Config.Capability.{means_all, is_known_capability}
use bcs_zc241t_study_project.Config.Remote.{Url, RemoteError, validate_remote_rootfs}
use bcs_zc241t_study_project.Config.Binds.{BindError, validate_bind_policies}

-- `url.Parse`, `net.ParseIP(s) != nil` and `runtime.GOARCH`.
pub record Platform : Type 0 where
  pub parse_url : Text → Option Url
  pub is_ip : Text → Bool
  pub goarch : Text

pub data ConfigError : Type 0 where
  invalid_mode : Text → ConfigError
  invalid_bridge : BridgeError → ConfigError
  no_command bad_executable argument_has_nul : ConfigError
  invalid_action : Text → ConfigError
  empty_syscall all_not_alone empty_capability : ConfigError
  unknown_capability : Text → ConfigError
  negative_file_size cpu_out_of_range negative_memory negative_processes : ConfigError
  path_empty path_invalid : Text → ConfigError
  two_root_filesystems remote_not_read_only managed_not_read_only mount_over_root : ConfigError
  invalid_remote : RemoteError → ConfigError
  invalid_binds : BindError → ConfigError
  invalid_dns : Text → ConfigError
  invalid_environment : Text → EnvironmentError → ConfigError

abbrev pub Checked : Type 0
Checked = Result ConfigError (Unit {0})

-- The first item that fails stops the loop.
abbrev pub each : {A : Type 0} → (A → Checked) → List A → Checked
each check [] = ok tt
each check (x ∷ xs) = check x >> each check xs

-- `validateAbsolutePath`.
unfoldable pub validate_absolute_path : Text → Text → Bool → Checked
unfolding has_parent_component
validate_absolute_path name [] required = reject required (path_empty name)
validate_absolute_path name (c ∷ value) required =
    reject (has_nul (c ∷ value) || not (is_abs (c ∷ value)) || has_parent_component (c ∷ value))
      (path_invalid name)

abbrev blank : Text → Bool
blank s = is_empty (trim_space s)

unfoldable pub check_command : List Text → Checked
check_command [] = err no_command
check_command (executable ∷ arguments) = do
  reject (blank executable || has_nul executable) bad_executable
  each (λ a. reject (has_nul a) argument_has_nul) (executable ∷ arguments)

unfoldable pub check_capability : Text → Checked
check_capability name = do
  reject (blank name) empty_capability
  reject (not (is_known_capability name)) (unknown_capability name)

unfoldable pub check_capabilities : List Text → Checked
unfolding check_capability any
check_capabilities names = do
  reject (ltb 1 (length names) && any means_all names) all_not_alone
  each check_capability names

unfoldable pub check_limits : Config → Checked
check_limits c = do
  reject (is_negative c.file_size_limit_mb) negative_file_size
  reject (is_negative c.cpu_limit_percent || ltb_ℤ (pos 100) c.cpu_limit_percent) cpu_out_of_range
  reject (is_negative c.memory_limit_gb) negative_memory
  reject (is_negative c.max_processes) negative_processes

abbrev pub is_remote : Option RemoteRootFs → Bool
is_remote none = false
is_remote (some r) = true

unfoldable pub check_remote : Platform → Bool → Option RemoteRootFs → Checked
check_remote platform read_only none = ok tt
check_remote platform read_only (some r) = do
  reject (not read_only) remote_not_read_only
  wrap invalid_remote (validate_remote_rootfs platform.parse_url platform.goarch r)

unfoldable pub check_mount : BindMount → Checked
unfolding validate_absolute_path ◌=?◌
check_mount m = do
  validate_absolute_path (codes "bind_mount host_path") m.host_path true
  validate_absolute_path (codes "bind_mount container_path") m.container_path true
  reject (m.container_path =? codes "/") mount_over_root

unfoldable pub check_network : Config → Checked
unfolding ◌=?◌
check_network c = do
  reject (not (mode_is_valid c.network_mode)) (invalid_mode c.network_mode)
  if c.network_mode =? mode_bridge
      then wrap invalid_bridge (validate_bridge c.bridge_config)
      else ok tt

-- The root filesystem, the working directory and the mounts.
unfoldable pub check_filesystem : Platform → Config → Checked
unfolding validate_absolute_path check_remote check_mount
check_filesystem platform c = do
  validate_absolute_path (codes "rootfs_source") c.rootfs_source false
  reject (not (is_empty c.rootfs_source) && is_remote c.remote_rootfs) two_root_filesystems
  check_remote platform c.read_only_root c.remote_rootfs
  validate_absolute_path (codes "working_dir") c.working_dir true
  each check_mount c.bind_mounts
  reject (is_empty c.rootfs_source && not (is_remote c.remote_rootfs) && not c.read_only_root)
      managed_not_read_only
  wrap invalid_binds (validate_bind_policies c.bind_mounts (ltb 0 (length c.dns_servers)))

-- `Config.Validate`.
unfoldable pub validate : Platform → Config → Checked
unfolding check_network check_command check_capabilities check_limits check_filesystem
validate platform c = do
  check_network c
  check_command c.command
  reject (not (action_is_valid c.blocked_syscall_action)) (invalid_action c.blocked_syscall_action)
  each (λ name. reject (blank name) empty_syscall) c.blocked_syscalls
  check_capabilities c.drop_capabilities
  check_limits c
  check_filesystem platform c
  each (λ dns. reject (blank dns || not (platform.is_ip dns)) (invalid_dns dns)) c.dns_servers
  wrap (invalid_environment (codes "env_vars")) (validate_environment c.env_vars true)
  wrap (invalid_environment (codes "env_whitelist")) (validate_environment c.env_whitelist false)
