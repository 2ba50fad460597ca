-- ===== src/Config/Validate/Sound.antt =====
-- `Config.Validate` of config.go: what every accepted configuration satisfies.
use bcs_zc241t_study_project.Prelude.{
  ◌≡◌, ◌≢◌, true, false, not, ◌||◌, List, [], ◌∷◌, ok, reject, wrap, ltb, length, All, arith,
  reject-eq-ok_iff, codes,
}
use bcs_zc241t_study_project.Text.{Text, is_empty, trim_space}
use bcs_zc241t_study_project.Paths.{elements}
use bcs_zc241t_study_project.Config.Types.{Config, BindMount, action_is_valid}
use bcs_zc241t_study_project.Config.Environment.{validate_environment}
use bcs_zc241t_study_project.Config.Environment.Lookup.{validate_environment_exact}
use bcs_zc241t_study_project.Config.Binds.Apart.{
  IsTarget, IsAllowed, ArePairwiseApart, validate_bind_policies-ArePairwiseApart, target,
}
use bcs_zc241t_study_project.Config.Validate.{
  Platform, Checked, each, check_command, check_capabilities, check_limits, check_network,
  check_filesystem, validate, invalid_action, empty_syscall, invalid_dns, invalid_environment,
}
use bcs_zc241t_study_project.Config.Validate.Accepted.{
  IsMount, IsAccepted, IsFiled, each-All, first, wrap-eq-ok, not_blank, command_facts,
  capability_facts, network_facts, limit_facts, filesystem_facts,
}

is_server : (platform : Platform) → Text → Checked
is_server platform dns =
    reject (is_empty (trim_space dns) || not (platform.is_ip dns)) (invalid_dns dns)

server_known :
    (platform : Platform) (dns : Text) → is_server platform dns ≡ ok tt → platform.is_ip dns ≡ true
unfolding is_server
server_known platform dns h =
    let bad = is_empty (trim_space dns) || not (platform.is_ip dns) in
    ground (arith, (reject-eq-ok_iff bad (invalid_dns dns)).0 h)

filled :
    (name : Text) → reject (is_empty (trim_space name)) empty_syscall ≡ ok tt → trim_space name ≢ []
filled name h = not_blank name ((reject-eq-ok_iff _ empty_syscall).0 h)

accepted :
    (platform : Platform) (c : Config)
    → validate platform c ≡ ok tt
    → IsAccepted platform c × IsFiled platform c
unfolding validate is_server
accepted platform c h =
    let bad_action = not (action_is_valid c.blocked_syscall_action) in
    let (a, r₁) = first (check_network c) h in
    let (b, r₂) = first (check_command c.command) r₁ in
    let (d, r₃) = first (reject bad_action (invalid_action c.blocked_syscall_action)) r₂ in
    let (named, r₄) =
      first (each (λ n. reject (is_empty (trim_space n)) empty_syscall) c.blocked_syscalls) r₃ in
    let (e, r₅) = first (check_capabilities c.drop_capabilities) r₄ in
    let (f, r₆) = first (check_limits c) r₅ in
    let (g, r₇) = first (check_filesystem platform c) r₆ in
    let (s, r₈) = first (each (is_server platform) c.dns_servers) r₇ in
    let (v, w) =
      first (wrap (invalid_environment (codes "env_vars")) (validate_environment c.env_vars true))
        r₈ in
    let (mode, bridge) = network_facts c a in
    let (nonempty, arguments) = command_facts c.command b in
    let (known, alone) = capability_facts c.drop_capabilities e in
    let (file_size, cpu, memory, processes) = limit_facts c f in
    let filed = filesystem_facts platform c g in
    let (entries, distinct) =
      (validate_environment_exact c.env_vars true).0
        (wrap-eq-ok _ (validate_environment c.env_vars true) v) in
    let (names, names_distinct) =
      (validate_environment_exact c.env_whitelist false).0
        (wrap-eq-ok _ (validate_environment c.env_whitelist false) w) in
    (
      record {
        mode = mode;
        bridge = bridge;
        command = nonempty;
        arguments = arguments;
        syscalls = each-All _ filled c.blocked_syscalls named;
        action =
            ground
              (arith, (reject-eq-ok_iff bad_action (invalid_action c.blocked_syscall_action)).0 d);
        capabilities = known;
        all_alone = alone;
        file_size = file_size;
        cpu = cpu;
        memory = memory;
        processes = processes;
        one_root = filed.one_root;
        writable_root = filed.writable_root;
        source = filed.source;
        remote = filed.remote;
        working = filed.working;
        mounts = filed.mounts;
        servers = each-All (is_server platform) (server_known platform) c.dns_servers s;
        variables = entries;
        whitelist = names;
        variables_distinct = distinct;
        whitelist_distinct = names_distinct;
      },
      filed,
    )

-- A configuration that `Validate` accepts has: a known mode, and in bridge mode a usable bridge; a
-- command that is not blank and whose arguments have no NUL; a known action on blocked system calls, none
-- of whose names is blank; known capabilities, `ALL` only alone; limits that are no negative numbers, the
-- CPU's at most 100; not both a local and a remote root; a local root, if any, with a plain absolute path; a
-- remote root, if any, on a read-only root, with a plain `https` address, the architecture of the machine,
-- a digest of 64 hexadecimal digits in lower case, and limits that are no negative numbers and fit, the
-- file's within the total; a writable root only if it is a local directory; a working directory and
-- mounts with plain absolute paths, no mount with the target `/`; addresses of DNS servers; and
-- well-formed variables and names of the whitelist, no key of which stands twice in either list.
pub validate-IsAccepted :
    (platform : Platform) (c : Config) → validate platform c ≡ ok tt → IsAccepted platform c
validate-IsAccepted platform c h = (accepted platform c h).0

-- If `Validate` accepts a configuration none of whose mounts is over the root, spelt in any way, then no
-- target of a mount is another one or lies below it, none is in `/dev` or `/proc`, and none is
-- `/etc/resolv.conf` when DNS servers are set.
pub validate-ArePairwiseApart :
    (platform : Platform) (c : Config)
    → All (λ m. elements (target m) ≢ []) c.bind_mounts
    → validate platform c ≡ ok tt
    → ArePairwiseApart c.bind_mounts
      × All (λ m. IsAllowed (ltb 0 (length c.dns_servers)) (target m)) c.bind_mounts
validate-ArePairwiseApart platform c below h =
    let filed = (accepted platform c h).1 in
    validate_bind_policies-ArePairwiseApart c.bind_mounts _
      (targets c.bind_mounts filed.mounts below) filed.binds
  where
    targets :
        (ms : List BindMount)
        → All IsMount ms
        → All (λ m. elements (target m) ≢ []) ms
        → All (λ m. IsTarget (target m)) ms
    targets [] h b = tt
    targets (m ∷ ms) (hm, hms) (bm, bms) =
        (record { absolute = hm.container.absolute; below_root = bm }, targets ms hms bms)
