-- ===== src/Parent/Sent.antt =====
-- What the parent hands on: the configuration, the attributes and the environment of the child, and the
-- arguments of the set-up, in parent.go.
use bcs_zc241t_study_project.Prelude.{
  ℕ, ◌≡◌, refl, Bool, true, false, Option, none, some, List, [], ◌∷◌, not, ◌||◌, ◌=?◌,
  if◌then◌else◌, codes, All, inl, inr,
}
use bcs_zc241t_study_project.Text.{Text}
use bcs_zc241t_study_project.Config.Types.{Config, RemoteRootFs}
use bcs_zc241t_study_project.Config.Validate
use bcs_zc241t_study_project.Security
use bcs_zc241t_study_project.Parent.Steps.{
  Act, user_ns, pid_ns, mount_ns, uts_ns, net_ns, check_terminal, resolve_local, resolve_remote,
  wait_child, kill_child, prepare_limits, set_up_bridge, start_child, write_config, Entry, Log,
  Host, Ending, settle, attempt, call, deferred, clean, deferred_check, terminate, unless_reaped,
  attributes,
}
use bcs_zc241t_study_project.Parent.Environment.{
  internal_child_environment, configured_environment_value, interactive_environment,
  snapshot_environment,
}
use bcs_zc241t_study_project.Parent.Environment.Term.{
  IsPathOnly, internal_child_environment-IsPathOnly,
}
use bcs_zc241t_study_project.Config.Environment.{environment}
use bcs_zc241t_study_project.Network.Types.{requires_net_ns}
use bcs_zc241t_study_project.Parent.Run.{
  when, waited, wait_for_child, supervise, started, launch, with_bridge, confine, root_act,
  with_root, resolved_root, provision, with_environment, accepted, parent,
}
use bcs_zc241t_study_project.Parent.Released.{parent-cases}

-- Code that adds only entries with a property to the log.
record Adds (P : Act → Type 0) {R : Type 0} (m : Ending R) : Type 0 where
  at : (log : Log) → All (λ (e : Entry). P e.act) log → All (λ (e : Entry). P e.act) (m log).1

module _ (h : Host) (P : Act → Type 0) where
  module _ {R : Type 0} where
    Adds-call : (a : Act) (next : Ending R) → P a → Adds P next → Adds P (call a next)
    unfolding call
    Adds-call a next p n = record { at = λ log d. n.at _ (p, d) }

    Adds-attempt :
        (failure : R) (a : Act) (next : Ending R)
        → P a
        → Adds P next
        → Adds P (attempt h failure a next)
    unfolding attempt
    Adds-attempt failure a next p n = record { at = λ log d. settled (h.succeeds log a) log d }
      where
        settled :
            (b : Bool) (log : Log)
            → All (λ (e : Entry). P e.act) log
            → All (λ (e : Entry). P e.act) (settle h b failure a next log).1
        settled true log d = n.at _ (p, d)
        settled false log d = (p, d)

    Adds-when :
        (b : Bool) (with : Ending R → Ending R) (next : Ending R)
        → Adds P (with next)
        → Adds P next
        → Adds P (when b with next)
    Adds-when true with next t u = t
    Adds-when false with next t u = u

  Adds-deferred : (a : Act) (body : Ending ℕ) → P a → Adds P body → Adds P (deferred a body)
  unfolding deferred
  Adds-deferred a body p b = record { at = λ log d. (p, b.at log d) }

  Adds-deferred_check :
      (a : Act) (body : Ending ℕ) → P a → Adds P body → Adds P (deferred_check h a body)
  unfolding deferred_check
  Adds-deferred_check a body p b = record {
    at = λ log d. cleaned (h.succeeds (body log).1 a) (body log).0 (body log).1 (b.at log d);
  }
    where
      cleaned :
          (b : Bool) (r : ℕ) (log : Log)
          → All (λ (e : Entry). P e.act) log
          → All (λ (e : Entry). P e.act) (clean h b a r log).1
      cleaned true r log d = (p, d)
      cleaned false r log d = (p, d)

  Adds-unless_reaped :
      (body : Ending (ℕ × Bool)) → P kill_child → Adds P body → Adds P (unless_reaped body)
  unfolding unless_reaped
  Adds-unless_reaped body p b = record {
    at = λ log d. ended (body log).0.1 (body log).0.0 (body log).1 (b.at log d);
  }
    where
      ended :
          (b : Bool) (r : ℕ) (log : Log)
          → All (λ (e : Entry). P e.act) log
          → All (λ (e : Entry). P e.act) (terminate b r log).1
      ended true r log d = d
      ended false r log d = (p, d)

  Adds-wait_for_child : P wait_child → Adds P (wait_for_child h)
  unfolding wait_for_child waited call
  Adds-wait_for_child p = record { at = λ log d. (p, d) }

ruleset adds = (
  Adds-call, Adds-attempt, Adds-when, Adds-deferred, Adds-deferred_check, Adds-unless_reaped,
  Adds-wait_for_child, tt, refl,
)

-- The environment of the command, from that of the parent and the configuration.
abbrev pub command_environment : Host → Config → List Text
command_environment h cfg =
    let base = environment cfg.env_vars cfg.env_whitelist h.environ in
    let (term, configured) = configured_environment_value cfg.env_vars (codes "TERM") in
    if cfg.interactive then interactive_environment base h.term term configured else base

-- The calls before the root is looked for.
abbrev pub before_root : Bool → Log
before_root true = record { act = check_terminal; done = true } ∷ []
before_root false = []

-- The arguments are those of the configuration, written out: the child's configuration is the one that was
-- given, with the environment of the command and the root that was found; the child process has the
-- namespaces of the mode and at most `PATH` in its environment.
abbrev pub IsMeant : Host → Config → Act → Type 0
IsMeant h cfg (write_config sent) =
    (path : Text) × (h.resolved (before_root cfg.interactive) ≡ some path)
    × (sent ≡ record cfg {
      env_vars = command_environment h cfg;
      env_whitelist = [];
      rootfs_source = path;
      remote_rootfs = none;
    })
IsMeant h cfg (start_child attrs environment) =
    (attrs ≡ record {
      namespaces =
          user_ns
          ∷ pid_ns
          ∷ mount_ns
          ∷ uts_ns
          ∷ (if cfg.network_mode =? codes "none" || cfg.network_mode =? codes "bridge"
              then net_ns ∷ []
              else []);
      setpgid = not cfg.interactive;
      setsid = cfg.interactive;
      setctty = cfg.interactive;
      killed_with_parent = true;
      setgroups = false;
      uid_mappings = record { container_id = 0; host_id = h.uid; size = 1 } ∷ [];
      gid_mappings = record { container_id = 0; host_id = h.gid; size = 1 } ∷ [];
    })
    × IsPathOnly (command_environment h cfg) environment
IsMeant h cfg (set_up_bridge config) = config ≡ cfg.bridge_config
IsMeant h cfg (prepare_limits cpu memory processes) =
    (cpu ≡ cfg.cpu_limit_percent) × (memory ≡ cfg.memory_limit_gb) × (processes ≡ cfg.max_processes)
IsMeant h cfg (resolve_local path) = (cfg.remote_rootfs ≡ none) × (path ≡ cfg.rootfs_source)
IsMeant h cfg (resolve_remote remote) = cfg.remote_rootfs ≡ some remote
IsMeant h cfg _ = Unit

module _ (h : Host) (cfg : Config) where
  -- With the root that is found behind these calls.
  module _ (path : Text) (found : h.resolved (before_root cfg.interactive) ≡ some path) where
    write_config-IsMeant : IsMeant h cfg (write_config (with_root h (with_environment h cfg) path))
    unfolding with_environment snapshot_environment
    write_config-IsMeant = (path, found, refl)

    supervise-Adds : Adds (IsMeant h cfg) (supervise h (with_root h (with_environment h cfg) path))
    unfolding supervise
    supervise-Adds = search (adds, write_config-IsMeant) depth 24

    start_child-IsMeant :
        let c = with_root h (with_environment h cfg) path in
        IsMeant h cfg (start_child (attributes h c) (internal_child_environment c.env_vars))
    unfolding with_environment snapshot_environment attributes requires_net_ns
    start_child-IsMeant = (refl, internal_child_environment-IsPathOnly _)

    launch-Adds : Adds (IsMeant h cfg) (launch h (with_root h (with_environment h cfg) path))
    unfolding launch started
    launch-Adds = search (adds, supervise-Adds, start_child-IsMeant) depth 30

    confine-Adds : Adds (IsMeant h cfg) (confine h (with_root h (with_environment h cfg) path))
    unfolding confine with_bridge with_environment snapshot_environment
    confine-Adds = search (adds, launch-Adds) depth 30

  root-IsMeant :
      IsMeant h cfg (root_act h (with_environment h cfg) (with_environment h cfg).remote_rootfs)
  unfolding with_environment snapshot_environment
  root-IsMeant = act_of cfg.remote_rootfs refl
    where
      act_of :
          (remote : Option RemoteRootFs)
          → cfg.remote_rootfs ≡ remote
          → IsMeant h cfg (root_act h (with_environment h cfg) remote)
      act_of none e = (e, refl)
      act_of (some remote) e = e

  provision-All :
      All (λ (e : Entry). IsMeant h cfg e.act) (before_root cfg.interactive)
      → All
          (λ (e : Entry). IsMeant h cfg e.act)
          (provision h (with_environment h cfg) (before_root cfg.interactive)).1
  unfolding provision deferred call
  provision-All before = (tt, searched (h.resolved (before_root cfg.interactive)) refl)
    where
      searched :
          (path : Option Text)
          → h.resolved (before_root cfg.interactive) ≡ path
          → All
              (λ (e : Entry). IsMeant h cfg e.act)
              (resolved_root h path
                (root_act h (with_environment h cfg) (with_environment h cfg).remote_rootfs)
                (with_environment h cfg)
                (before_root cfg.interactive)).1
      searched none e = (tt, (root-IsMeant, before))
      searched (some path) e = (confine-Adds path e).at _ (tt, (root-IsMeant, before))

  -- The terminal is checked first where there is one.
  entered :
      (interactive : Bool) (next : Ending ℕ)
      → (All (λ (e : Entry). IsMeant h cfg e.act) (before_root interactive)
          → All (λ (e : Entry). IsMeant h cfg e.act) (next (before_root interactive)).1)
      → All
          (λ (e : Entry). IsMeant h cfg e.act)
          (when interactive (attempt h 1 check_terminal) next []).1
  unfolding attempt
  entered false next p = p tt
  entered true next p = settled (h.succeeds [] check_terminal)
    where
      settled :
          (b : Bool)
          → All (λ (e : Entry). IsMeant h cfg e.act) (settle h b 1 check_terminal next []).1
      settled true = p (tt, tt)
      settled false = (tt, tt)

  accepted-All : All (λ (e : Entry). IsMeant h cfg e.act) (accepted h cfg []).1
  unfolding accepted
  accepted-All = entered cfg.interactive (provision h (with_environment h cfg)) provision-All

  -- In every run of `Parent`: the root that is looked for is the remote one of the configuration, or else
  -- its local one; the limits and the bridge that are set up are those of the configuration; the child
  -- starts in the namespaces that its mode asks for, under one mapped user and group, with at most the
  -- first `PATH` of the command's environment in its own; and the configuration that it is sent is the one
  -- that was given, but for the environment of the command, the root that was found, and neither a remote
  -- root nor a whitelist.
  pub parent-IsMeant :
      (platform : Validate.Platform) (registry : Security.Platform)
      → All (λ (e : Entry). IsMeant h cfg e.act) (parent h platform registry cfg []).1
  parent-IsMeant platform registry = elim (parent-cases h platform registry cfg []) [
    | inl refused ↦ rw refused tt
    | inr same ↦ rw same accepted-All
  ]
