-- ===== src/Config/Validate/Accepted.antt =====
-- What holds of a configuration that `Config.Validate` of config.go accepts.
use bcs_zc241t_study_project.Prelude.{
  ℕ, ◌≤◌, ◌≡◌, refl, ◌≢◌, ◌⊎◌, inl, inr, Bool, true, false, not, ◌&&◌, ◌||◌, Option, none, some,
  List, [], ◌∷◌, map, any, Result, ok, err, ◌>>◌, reject, wrap, ◌=?◌, =?_iff, if◌then◌else◌, All,
  Distinct, length, ltb, arith, >>-eq-ok_iff, reject-eq-ok_iff, codes,
}
use bcs_zc241t_study_project.Prelude.Int.{ℤ, pos, negsuc, is_negative, ltb_ℤ}
use bcs_zc241t_study_project.Text.{Text, has_nul, is_empty, trim_space}
use bcs_zc241t_study_project.Paths.{is_abs, has_parent_component}
use bcs_zc241t_study_project.Network.Address.{Prefix}
use bcs_zc241t_study_project.Network.Types.{mode_is_valid, mode_bridge, validate_bridge}
use bcs_zc241t_study_project.Network.Types.Usable.{IsUsable, validate_bridge-IsUsable}
use bcs_zc241t_study_project.Config.Types.{Config, BindMount, RemoteRootFs, action_is_valid}
use bcs_zc241t_study_project.Config.Environment.{entry_key}
use bcs_zc241t_study_project.Config.Environment.Lookup.{is_entry}
use bcs_zc241t_study_project.Config.Capability.{means_all, is_known_capability}
use bcs_zc241t_study_project.Config.Remote.{validate_remote_rootfs}
use bcs_zc241t_study_project.Config.Remote.Usable.{
  IsUsableRemote, validate_remote_rootfs-IsUsableRemote,
}
use bcs_zc241t_study_project.Config.Binds.{validate_bind_policies}
use bcs_zc241t_study_project.Config.Validate.{
  Platform, Checked, each, validate_absolute_path, check_command, check_capability,
  check_capabilities, check_limits, is_remote, check_remote, check_mount, check_network,
  check_filesystem, path_invalid, two_root_filesystems, managed_not_read_only, invalid_binds,
  bad_executable, mount_over_root, invalid_remote, argument_has_nul, empty_capability,
  unknown_capability, all_not_alone, negative_file_size, cpu_out_of_range, negative_memory,
  negative_processes, invalid_mode, invalid_bridge,
}

-- An absolute path without NUL, none of whose parts is `..`.
pub record IsPlainPath (p : Text) : Type 0 where
  pub absolute : is_abs p ≡ true
  pub no_nul : has_nul p ≡ false
  pub no_escape : has_parent_component p ≡ false

-- A limit that is a natural number up to `n`.
abbrev pub IsNatural : ℤ → Type 0
IsNatural z = (n : ℕ) × (z ≡ pos n)

pub record IsMount (m : BindMount) : Type 0 where
  pub below_root : m.container_path ≢ codes "/"
  pub host : IsPlainPath m.host_path
  pub container : IsPlainPath m.container_path

-- The name of the command is more than spaces.
abbrev pub IsNamed : List Text → Type 0
IsNamed [] = ⊥
IsNamed (executable ∷ arguments) = trim_space executable ≢ []

pub record IsAccepted (platform : Platform) (c : Config) : Type 0 where
  pub mode : mode_is_valid c.network_mode ≡ true
  pub bridge :
      (c.network_mode ≢ mode_bridge)
      ⊎ ((p : Prefix) × (g : ℕ) × (h : ℕ) × (mtu : ℕ) × IsUsable c.bridge_config p g h mtu)
  pub command : IsNamed c.command
  pub arguments : All (λ a. has_nul a ≡ false) c.command
  pub syscalls : All (λ name. trim_space name ≢ []) c.blocked_syscalls
  pub action : action_is_valid c.blocked_syscall_action ≡ true
  pub capabilities : All (λ name. is_known_capability name ≡ true) c.drop_capabilities
  pub all_alone : (length c.drop_capabilities ≤ 1) ⊎ (any means_all c.drop_capabilities ≡ false)
  pub file_size : IsNatural c.file_size_limit_mb
  pub cpu : (n : ℕ) × (c.cpu_limit_percent ≡ pos n) × (n ≤ 100)
  pub memory : IsNatural c.memory_limit_gb
  pub processes : IsNatural c.max_processes
  pub one_root : (c.rootfs_source ≡ []) ⊎ (c.remote_rootfs ≡ none)
  pub writable_root : (c.read_only_root ≡ true) ⊎ IsPlainPath c.rootfs_source
  pub source : (c.rootfs_source ≡ []) ⊎ IsPlainPath c.rootfs_source
  pub remote :
      (c.remote_rootfs ≡ none)
      ⊎ ((r : RemoteRootFs) × (c.remote_rootfs ≡ some r)
          × (c.read_only_root ≡ true)
          × IsUsableRemote platform.parse_url platform.goarch r)
  pub working : IsPlainPath c.working_dir
  pub mounts : All IsMount c.bind_mounts
  pub servers : All (λ dns. platform.is_ip dns ≡ true) c.dns_servers
  pub variables : All (λ e. is_entry true e ≡ true) c.env_vars
  pub whitelist : All (λ e. is_entry false e ≡ true) c.env_whitelist
  pub variables_distinct : Distinct (map (entry_key true) c.env_vars)
  pub whitelist_distinct : Distinct (map (entry_key false) c.env_whitelist)

pub each-All :
    {A : Type 0} {P : A → Type 0} (check : A → Checked)
    → ((x : A) → check x ≡ ok tt → P x)
    → (xs : List A) → each check xs ≡ ok tt
    → All P xs
each-All check f [] h = tt
each-All check f (x ∷ xs) h =
    let (a, b) = (>>-eq-ok_iff (check x) (each check xs) tt).0 h in (f x a, each-All check f xs b)

required_path : (name p : Text) → validate_absolute_path name p true ≡ ok tt → IsPlainPath p
unfolding validate_absolute_path
required_path name [] h = cc
required_path name (c ∷ p) h =
    let ok_p = (reject-eq-ok_iff _ (path_invalid name)).0 h in
    record { absolute = ground arith; no_nul = ground arith; no_escape = ground arith }

optional_path :
    (name p : Text) → validate_absolute_path name p false ≡ ok tt → (p ≡ []) ⊎ IsPlainPath p
unfolding validate_absolute_path
optional_path name [] h = inl refl
optional_path name (c ∷ p) h =
    let ok_p = (reject-eq-ok_iff _ (path_invalid name)).0 h in
    inr (record { absolute = ground arith; no_nul = ground arith; no_escape = ground arith })

check_mount-IsMount : (m : BindMount) → check_mount m ≡ ok tt → IsMount m
unfolding check_mount
check_mount-IsMount m h =
    let (a, rest) = (>>-eq-ok_iff (validate_absolute_path _ m.host_path true) _ tt).0 h in
    let (b, c) = (>>-eq-ok_iff (validate_absolute_path _ m.container_path true) _ tt).0 rest in
    let apart = (reject-eq-ok_iff (m.container_path =? codes "/") mount_over_root).0 c in
    record {
      below_root = λ same. ground (arith, =?_iff m.container_path (codes "/"));
      host = required_path _ m.host_path a;
      container = required_path _ m.container_path b;
    }

natural : (z : ℤ) → is_negative z ≡ false → IsNatural z
natural (pos n) h = (n, refl)
natural (negsuc n) h = cc

percent : (z : ℤ) → (is_negative z || ltb_ℤ (pos 100) z) ≡ false → (n : ℕ) × (z ≡ pos n) × (n ≤ 100)
percent (pos n) h = (n, refl, ground arith)
percent (negsuc n) h = absurd (ground arith)

pub wrap-eq-ok : {E F : Type 0} (f : E → F) (r : Result E (Unit {0})) → wrap f r ≡ ok tt → r ≡ ok tt
wrap-eq-ok f (ok _) h = refl
wrap-eq-ok f (err e) h = cc

pub not_blank : (s : Text) → is_empty (trim_space s) ≡ false → trim_space s ≢ []
not_blank s h = λ e. let z : is_empty (trim_space s) ≡ true = rw e refl in cc

pub command_facts :
    (command : List Text)
    → check_command command ≡ ok tt
    → IsNamed command × All (λ a. has_nul a ≡ false) command
unfolding check_command
command_facts [] h = cc
command_facts (executable ∷ arguments) h =
    let (named, rest) =
      (>>-eq-ok_iff (reject _ bad_executable)
          (each (λ a. reject (has_nul a) argument_has_nul) (executable ∷ arguments)) tt).0
        h in
    (
      not_blank executable (ground (arith, (reject-eq-ok_iff _ bad_executable).0 named)),
      each-All _ (λ a. (reject-eq-ok_iff (has_nul a) argument_has_nul).0) (executable ∷ arguments)
          rest,
    )

known_capability : (name : Text) → check_capability name ≡ ok tt → is_known_capability name ≡ true
unfolding check_capability
known_capability name h =
    let unknown = reject (not (is_known_capability name)) (unknown_capability name) in
    let (_, b) =
      (>>-eq-ok_iff (reject (is_empty (trim_space name)) empty_capability) unknown tt).0 h in
    ground
      (arith, (reject-eq-ok_iff (not (is_known_capability name)) (unknown_capability name)).0 b)

pub capability_facts :
    (names : List Text)
    → check_capabilities names ≡ ok tt
    → All (λ name. is_known_capability name ≡ true) names
      × ((length names ≤ 1) ⊎ (any means_all names ≡ false))
unfolding check_capabilities
capability_facts names h =
    let (a, rest) =
      (>>-eq-ok_iff (reject (ltb 1 (length names) && any means_all names) all_not_alone) _ tt).0
        h in
    let alone = (reject-eq-ok_iff _ all_not_alone).0 a in
    (each-All check_capability known_capability names rest, ground arith)

-- A check that passed, then the rest of the chain.
pub first : (m : Checked) {k : Checked} → (m >> k) ≡ ok tt → (m ≡ ok tt) × (k ≡ ok tt)
first m {k} h = (>>-eq-ok_iff m k tt).0 h

bridge_facts :
    (c : Config) (b : Bool)
    → (c.network_mode =? mode_bridge) ≡ b
    → (if b then wrap invalid_bridge (validate_bridge c.bridge_config) else ok tt) ≡ ok tt
    → (c.network_mode ≢ mode_bridge)
      ⊎ ((p : Prefix) × (g : ℕ) × (h : ℕ) × (mtu : ℕ) × IsUsable c.bridge_config p g h mtu)
bridge_facts c false e h = inl λ same. ground (arith, =?_iff c.network_mode mode_bridge)
bridge_facts c true e h = inr (
    validate_bridge-IsUsable c.bridge_config
      (wrap-eq-ok invalid_bridge (validate_bridge c.bridge_config) h))

pub network_facts :
    (c : Config)
    → check_network c ≡ ok tt
    → (mode_is_valid c.network_mode ≡ true)
      × ((c.network_mode ≢ mode_bridge)
          ⊎ ((p : Prefix) × (g : ℕ) × (h : ℕ) × (mtu : ℕ) × IsUsable c.bridge_config p g h mtu))
unfolding check_network
network_facts c h =
    let (a, rest) =
      first (reject (not (mode_is_valid c.network_mode)) (invalid_mode c.network_mode)) h in
    (
      ground (
        arith,
        (reject-eq-ok_iff (not (mode_is_valid c.network_mode)) (invalid_mode c.network_mode)).0 a,
      ),
      bridge_facts c (c.network_mode =? mode_bridge) refl rest,
    )

pub limit_facts :
    (c : Config)
    → check_limits c ≡ ok tt
    → IsNatural c.file_size_limit_mb
      × ((n : ℕ) × (c.cpu_limit_percent ≡ pos n) × (n ≤ 100))
      × IsNatural c.memory_limit_gb
      × IsNatural c.max_processes
unfolding check_limits
limit_facts c h =
    let cpu = is_negative c.cpu_limit_percent || ltb_ℤ (pos 100) c.cpu_limit_percent in
    let (a, rest₁) = first (reject (is_negative c.file_size_limit_mb) negative_file_size) h in
    let (b, rest₂) = first (reject cpu cpu_out_of_range) rest₁ in
    let (d, e) = first (reject (is_negative c.memory_limit_gb) negative_memory) rest₂ in
    (
      natural c.file_size_limit_mb
          ((reject-eq-ok_iff (is_negative c.file_size_limit_mb) negative_file_size).0 a),
      percent c.cpu_limit_percent ((reject-eq-ok_iff cpu cpu_out_of_range).0 b),
      natural c.memory_limit_gb
          ((reject-eq-ok_iff (is_negative c.memory_limit_gb) negative_memory).0 d),
      natural c.max_processes
          ((reject-eq-ok_iff (is_negative c.max_processes) negative_processes).0 e),
    )

remote_facts :
    (platform : Platform) (read_only : Bool) (remote : Option RemoteRootFs)
    → check_remote platform read_only remote ≡ ok tt
    → (remote ≡ none) ⊎ (read_only ≡ true)
unfolding check_remote
remote_facts platform read_only none h = inl refl
remote_facts platform false (some r) h = cc
remote_facts platform true (some r) h = inr refl

usable_remote :
    (platform : Platform) (read_only : Bool) (remote : Option RemoteRootFs)
    → check_remote platform read_only remote ≡ ok tt
    → (remote ≡ none)
      ⊎ ((r : RemoteRootFs) × (remote ≡ some r)
          × (read_only ≡ true)
          × IsUsableRemote platform.parse_url platform.goarch r)
unfolding check_remote
usable_remote platform read_only none h = inl refl
usable_remote platform false (some r) h = cc
usable_remote platform true (some r) h = inr (
  r,
  refl,
  refl,
  validate_remote_rootfs-IsUsableRemote platform.parse_url platform.goarch r
      (wrap-eq-ok invalid_remote (validate_remote_rootfs platform.parse_url platform.goarch r) h),
)

-- What `Validate` has found out about the files once it has passed them.
pub record IsFiled (platform : Platform) (c : Config) : Type 0 where
  pub one_root : (c.rootfs_source ≡ []) ⊎ (c.remote_rootfs ≡ none)
  pub writable_root : (c.read_only_root ≡ true) ⊎ IsPlainPath c.rootfs_source
  pub source : (c.rootfs_source ≡ []) ⊎ IsPlainPath c.rootfs_source
  pub remote :
      (c.remote_rootfs ≡ none)
      ⊎ ((r : RemoteRootFs) × (c.remote_rootfs ≡ some r)
          × (c.read_only_root ≡ true)
          × IsUsableRemote platform.parse_url platform.goarch r)
  pub working : IsPlainPath c.working_dir
  pub mounts : All IsMount c.bind_mounts
  pub binds : validate_bind_policies c.bind_mounts (ltb 0 (length c.dns_servers)) ≡ ok tt

one_of :
    (source : Text) (remote : Option RemoteRootFs)
    → (not (is_empty source) && is_remote remote) ≡ false
    → (source ≡ []) ⊎ (remote ≡ none)
one_of [] remote h = inl refl
one_of (s ∷ source) none h = inr refl
one_of (s ∷ source) (some r) h = cc

read_only_or_source :
    (source : Text) (remote : Option RemoteRootFs) (read_only : Bool)
    → (source ≡ []) ⊎ IsPlainPath source
    → (remote ≡ none) ⊎ (read_only ≡ true)
    → (is_empty source && not (is_remote remote) && not read_only) ≡ false
    → (read_only ≡ true) ⊎ IsPlainPath source
read_only_or_source source remote true k r h = inl refl
read_only_or_source source remote false (inr p) r h = inr p
read_only_or_source source remote false (inl e) (inl n) h = absurd (ground arith)
read_only_or_source source remote false (inl e) (inr n) h = cc

pub filesystem_facts :
    (platform : Platform) (c : Config) → check_filesystem platform c ≡ ok tt → IsFiled platform c
unfolding check_filesystem
filesystem_facts platform c h =
    let two = not (is_empty c.rootfs_source) && is_remote c.remote_rootfs in
    let managed =
      is_empty c.rootfs_source && not (is_remote c.remote_rootfs) && not c.read_only_root in
    let (a, r₁) = first (validate_absolute_path (codes "rootfs_source") c.rootfs_source false) h in
    let (b, r₂) = first (reject two two_root_filesystems) r₁ in
    let (d, r₃) = first (check_remote platform c.read_only_root c.remote_rootfs) r₂ in
    let (e, r₄) = first (validate_absolute_path (codes "working_dir") c.working_dir true) r₃ in
    let (f, r₅) = first (each check_mount c.bind_mounts) r₄ in
    let (g, r₆) = first (reject managed managed_not_read_only) r₅ in
    record {
      one_root =
          one_of c.rootfs_source c.remote_rootfs ((reject-eq-ok_iff two two_root_filesystems).0 b);
      writable_root =
          read_only_or_source c.rootfs_source c.remote_rootfs c.read_only_root
            (optional_path (codes "rootfs_source") c.rootfs_source a)
            (remote_facts platform c.read_only_root c.remote_rootfs d)
            ((reject-eq-ok_iff managed managed_not_read_only).0 g);
      source = optional_path (codes "rootfs_source") c.rootfs_source a;
      remote = usable_remote platform c.read_only_root c.remote_rootfs d;
      working = required_path (codes "working_dir") c.working_dir e;
      mounts = each-All check_mount check_mount-IsMount c.bind_mounts f;
      binds =
          wrap-eq-ok invalid_binds
            (validate_bind_policies c.bind_mounts (ltb 0 (length c.dns_servers))) r₆;
    }
