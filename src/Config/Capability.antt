-- ===== src/Config/Capability.antt =====
-- sandbox/sandbox/config/config.go: the names of the capabilities.
pub mod Number
use bcs_zc241t_study_project.Prelude.{
  ℕ, suc, Bool, true, false, ◌||◌, Option, none, some, List, [], ◌∷◌, ◌=?◌, if◌then◌else◌, codes,
}
use bcs_zc241t_study_project.Text.{Text, trim_space, to_upper, equal_fold_ascii}

-- A capability's number is its place in this list.
abbrev pub capability_names : List Text
capability_names =
    codes "CAP_CHOWN"
    ∷ codes "CAP_DAC_OVERRIDE"
    ∷ codes "CAP_DAC_READ_SEARCH"
    ∷ codes "CAP_FOWNER"
    ∷ codes "CAP_FSETID"
    ∷ codes "CAP_KILL"
    ∷ codes "CAP_SETGID"
    ∷ codes "CAP_SETUID"
    ∷ codes "CAP_SETPCAP"
    ∷ codes "CAP_LINUX_IMMUTABLE"
    ∷ codes "CAP_NET_BIND_SERVICE"
    ∷ codes "CAP_NET_BROADCAST"
    ∷ codes "CAP_NET_ADMIN"
    ∷ codes "CAP_NET_RAW"
    ∷ codes "CAP_IPC_LOCK"
    ∷ codes "CAP_IPC_OWNER"
    ∷ codes "CAP_SYS_MODULE"
    ∷ codes "CAP_SYS_RAWIO"
    ∷ codes "CAP_SYS_CHROOT"
    ∷ codes "CAP_SYS_PTRACE"
    ∷ codes "CAP_SYS_PACCT"
    ∷ codes "CAP_SYS_ADMIN"
    ∷ codes "CAP_SYS_BOOT"
    ∷ codes "CAP_SYS_NICE"
    ∷ codes "CAP_SYS_RESOURCE"
    ∷ codes "CAP_SYS_TIME"
    ∷ codes "CAP_SYS_TTY_CONFIG"
    ∷ codes "CAP_MKNOD"
    ∷ codes "CAP_LEASE"
    ∷ codes "CAP_AUDIT_WRITE"
    ∷ codes "CAP_AUDIT_CONTROL"
    ∷ codes "CAP_SETFCAP"
    ∷ codes "CAP_MAC_OVERRIDE"
    ∷ codes "CAP_MAC_ADMIN"
    ∷ codes "CAP_SYSLOG"
    ∷ codes "CAP_WAKE_ALARM"
    ∷ codes "CAP_BLOCK_SUSPEND"
    ∷ codes "CAP_AUDIT_READ"
    ∷ codes "CAP_PERFMON"
    ∷ codes "CAP_BPF"
    ∷ codes "CAP_CHECKPOINT_RESTORE"
    ∷ []

-- The loop of `CapabilityNumber`: `number` is the index of the first name.
unfoldable pub find_capability : ℕ → List Text → Text → Option ℕ
unfolding ◌=?◌
find_capability number [] name = none
find_capability number (c ∷ cs) name =
    if c =? name then some number else find_capability (suc number) cs name

-- `CapabilityNumber`.
unfoldable pub capability_number : Text → Option ℕ
unfolding find_capability
capability_number name = find_capability 0 capability_names (to_upper (trim_space name))

abbrev is_found : Option ℕ → Bool
is_found none = false
is_found (some n) = true

-- `strings.EqualFold(strings.TrimSpace(name), "ALL")`.
unfoldable pub means_all : Text → Bool
unfolding equal_fold_ascii
means_all name = equal_fold_ascii (trim_space name) (codes "ALL")

-- `isKnownCapability`.
unfoldable pub is_known_capability : Text → Bool
unfolding means_all capability_number
is_known_capability name = means_all name || is_found (capability_number name)
