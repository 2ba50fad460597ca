-- ===== src/Config/Types.antt =====
-- sandbox/sandbox/config/config.go: `Config` and the types of its fields. An `int` is an integer, a
-- pointer that may be nil an option.
use bcs_zc241t_study_project.Prelude.{
  Bool, true, false, ◌||◌, Option, none, List, [], ◌∷◌, ◌=?◌, codes,
}
use bcs_zc241t_study_project.Prelude.Int.{ℤ, pos}
use bcs_zc241t_study_project.Text.{Text}
use bcs_zc241t_study_project.Network.Types.{BridgeConfig, default_bridge_config, mode_none}

-- `SeccompAction`, a string type, and its method `IsValid`.
unfoldable pub action_is_valid : Text → Bool
unfolding ◌=?◌
action_is_valid a = a =? codes "kill" || a =? codes "trap"

pub record BindMount : Type 0 where
  pub host_path : Text
  pub container_path : Text
  pub writable : Bool

pub record RemoteRootFs : Type 0 where
  pub url : Text
  pub architecture : Text
  pub archive_sha256 : Text
  pub max_extracted_size_mb : ℤ
  pub max_file_size_mb : ℤ
  pub max_entries : ℤ

pub record Config : Type 0 where
  pub command : List Text
  pub interactive : Bool
  pub env_vars : List Text
  pub read_only_root : Bool
  pub blocked_syscall_action : Text
  pub blocked_syscalls : List Text
  pub drop_capabilities : List Text
  pub file_size_limit_mb : ℤ
  pub cpu_limit_percent : ℤ
  pub memory_limit_gb : ℤ
  pub max_processes : ℤ
  pub network_mode : Text
  pub bridge_config : BridgeConfig
  pub working_dir : Text
  pub rootfs_source : Text
  pub remote_rootfs : Option RemoteRootFs
  pub bind_mounts : List BindMount
  pub dns_servers : List Text
  pub env_whitelist : List Text

-- `DefaultConfig`.
abbrev pub default_config : Config
default_config = record {
  command = [];
  interactive = false;
  env_vars = codes "PATH=/bin:/usr/bin" ∷ [];
  read_only_root = true;
  blocked_syscall_action = codes "kill";
  blocked_syscalls =
      codes "mount" ∷ codes "reboot" ∷ codes "ptrace" ∷ codes "swapon" ∷ codes "syslog" ∷ [];
  drop_capabilities = codes "ALL" ∷ [];
  file_size_limit_mb = pos 100;
  cpu_limit_percent = pos 0;
  memory_limit_gb = pos 0;
  max_processes = pos 0;
  network_mode = mode_none;
  bridge_config = default_bridge_config;
  working_dir = codes "/";
  rootfs_source = [];
  remote_rootfs = none;
  bind_mounts = [];
  dns_servers = [];
  env_whitelist = [];
}
