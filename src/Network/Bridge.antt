-- ===== src/Network/Bridge.antt =====
-- sandbox/sandbox/network/bridge.go, network.go and mac.go: the host side of the bridge, its clean-up,
-- and the interface of the child.
pub mod Links
pub mod Quiet
pub mod Release
pub mod Setup
use Prim.Native.Nat.{bit_and, bit_or}
use bcs_zc241t_study_project.Prelude.{
  ℕ, ◌+◌, ◌-◌, Bool, true, false, not, ◌&&◌, ◌||◌, Option, none, some, List, [], ◌∷◌, ◌++◌, map,
  Result, ok, err, ◌==◌, ◌=?◌, if◌then◌else◌, codes, any, contains,
}
use bcs_zc241t_study_project.Prelude.Int.{ℤ}
use bcs_zc241t_study_project.Text.{Text}
use bcs_zc241t_study_project.Text.Decimal.{itoa, itoa_ℕ, encode_hex}
use bcs_zc241t_study_project.Network.Address.{Prefix, parse_prefix, overlaps}
use bcs_zc241t_study_project.Network.Types.{BridgeConfig, validate_bridge}
use bcs_zc241t_study_project.Network.Host.{
  Host, Log, Entry, Call, Route, Exec, ◌>>=◌, ◌>>◌, lift, perform, list_links, list_routes,
  read_random, NetError, CleanError, bridge_add, bridge_del, veth_create, veth_delete,
  link_set_master, link_set_up, link_set_mtu, link_set_mac, link_set_name, addr_add, disable_ipv6,
  run_ip, failed, invalid_config, route_overlaps, route_missing, no_random, not_owned,
  unexpected_interfaces, joined, link_kept, link_unknown,
}
use bcs_zc241t_study_project.Network.State.{FirewallRule, Manager, BridgeState}
use bcs_zc241t_study_project.Network.Firewall.{remove_firewall_rules, join_errors}

pub record Names : Type 0 where
  pub bridge : Text
  pub host_veth : Text
  pub ns_veth : Text

-- `resourceNames`, from the six random bytes.
unfoldable pub resource_names : List ℕ → Names
resource_names random =
    let suffix = encode_hex random in
    record {
      bridge = codes "sb" ++ suffix;
      host_veth = codes "vh" ++ suffix;
      ns_veth = codes "vc" ++ suffix;
    }

-- `generateRandomMAC`: `(mac[0] | 2) &^ 1`, the last bit cleared.
unfoldable pub random_mac : List ℕ → List ℕ
random_mac [] = []
random_mac (b ∷ bs) = (bit_or b 2 - bit_and (bit_or b 2) 1) ∷ bs

-- The prefix that a validated subnet stands for; the zero value where it is none.
abbrev or_zero : Option Prefix → Prefix
or_zero none = record { addr = 0; bits = 0 }
or_zero (some p) = p

abbrev pub prefix_of : BridgeConfig → Prefix
prefix_of c = or_zero (parse_prefix c.subnet)

-- The first route that overlaps the subnet, if any.
unfoldable pub find_overlap : Prefix → List Route → Option Route
find_overlap p [] = none
find_overlap p (r ∷ rs) = if overlaps r.prefix p then some r else find_overlap p rs

unfoldable pub refuse_overlap : Option Route → Result NetError (Unit {0})
refuse_overlap none = ok tt
refuse_overlap (some r) = err (route_overlaps r)

abbrev same_prefix : Prefix → Prefix → Bool
same_prefix p q = p.addr == q.addr && p.bits == q.bits

-- The loop over the routes after the subnet's route was added: a foreign route must not overlap, and
-- the bridge's own route must be there.
unfoldable pub check_routes : Prefix → Text → List Route → Bool → Result NetError (Unit {0})
unfolding ◌=?◌
check_routes p bridge [] owned = if owned then ok tt else err route_missing
check_routes p bridge (r ∷ rs) owned =
    let rest = check_routes p bridge rs (owned || (same_prefix r.prefix p && r.device =? bridge)) in
    if not (r.device =? bridge) && overlaps r.prefix p then err (route_overlaps r) else rest

abbrev pub report : List CleanError → Option CleanError → List CleanError
report errs none = errs
report errs (some e) = errs ++ e ∷ []

abbrev pub still_owned : Option CleanError → Bool
still_owned none = false
still_owned (some e) = true

-- `deleteOwnedLink`: a failed deletion is no error once the link is not listed any more. `none` is
-- success.
unfoldable pub judge_deletion : Text → Result NetError (List Text) → Option CleanError
judge_deletion name (ok names) = if contains names name then some (link_kept name) else none
judge_deletion name (err e) = some (link_unknown name)

module _ (h : Host) where
  unfoldable pub after_deletion : Text → Result NetError (Unit {0}) × Log → Option CleanError × Log
  after_deletion name (ok _, log) = (none, log)
  after_deletion name (err e, log) =
      let (names, log') = list_links h log in (judge_deletion name names, log')

  unfoldable pub delete_owned_link : Text → Call → Log → Option CleanError × Log
  unfolding after_deletion
  delete_owned_link name delete log = after_deletion name (perform h delete log)

  -- One owned link of `cleanup`: whether it is owned afterwards, the errors, the log.
  unfoldable pub release_link :
      Bool → Text → Call → List CleanError → Log → Bool × List CleanError × Log
  unfolding delete_owned_link
  release_link false name delete errs log = (false, errs, log)
  release_link true name delete errs log =
      let (e, log') = delete_owned_link name delete log in (still_owned e, report errs e, log')

  -- `BridgeState.cleanup`: the firewall first, then the veth pair, then the bridge.
  unfoldable pub cleanup : BridgeState → Log → BridgeState × List CleanError × Log
  cleanup state log =
      let (kept, errs₁, log₁) = remove_firewall_rules h state.firewall log in
      let (veth, errs₂, log₂) =
        release_link state.owned_veth state.host_veth (veth_delete state.host_veth) errs₁ log₁ in
      let (bridge, errs₃, log₃) =
        release_link state.owned_bridge state.bridge (bridge_del state.bridge) errs₂ log₂ in
      (record state { firewall = kept; owned_veth = veth; owned_bridge = bridge }, errs₃, log₃)

  -- `setupFailure`.
  unfoldable pub setup_failure : NetError → BridgeState → Log → Result NetError BridgeState × Log
  setup_failure e state log =
      let (state', errs, log') = cleanup state log in (err (join_errors e errs), log')

  -- The steps of `setupParentBridge` behind the creation of the links.
  unfoldable pub configure : BridgeConfig → Names → Exec (Unit {0})
  configure cfg n = do
    perform h (link_set_master n.host_veth n.bridge)
    perform h (link_set_mtu n.bridge cfg.mtu)
    perform h (link_set_mtu n.host_veth cfg.mtu)
    perform h (link_set_up n.bridge)
    perform h (link_set_up n.host_veth)
    perform h (
        run_ip (
          codes "addr"
          ∷ codes "add"
          ∷ (cfg.gateway_ip ++ b'/' ∷ itoa_ℕ (prefix_of cfg).bits)
          ∷ codes "dev"
          ∷ n.bridge
          ∷ codes "noprefixroute"
          ∷ []))
    perform h (
        run_ip (
          codes "route"
          ∷ codes "add"
          ∷ cfg.subnet
          ∷ codes "dev"
          ∷ n.bridge
          ∷ codes "src"
          ∷ cfg.gateway_ip
          ∷ codes "proto"
          ∷ codes "static"
          ∷ []))
    routes ← list_routes h
    lift (check_routes (prefix_of cfg) n.bridge routes false)

  -- The state once the bridge is created, and whether the veth pair is.
  abbrev pub fresh_state : Manager → BridgeConfig → Names → Bool → BridgeState
  fresh_state m cfg n veth = record {
    config = cfg;
    manager = m;
    firewall = [];
    bridge = n.bridge;
    host_veth = n.host_veth;
    ns_veth = n.ns_veth;
    owned_bridge = true;
    owned_veth = veth;
  }

  unfoldable pub settle :
      BridgeState → Result NetError (Unit {0}) × Log → Result NetError BridgeState × Log
  settle state (ok _, log) = (ok state, log)
  settle state (err e, log) = setup_failure e state log

  -- The creation of the veth pair and all that follows, on a bridge that exists.
  unfoldable pub with_veth :
      Manager
      → BridgeConfig
      → Names
      → Result NetError (Unit {0}) × Log
      → Result NetError BridgeState × Log
  unfolding settle
  with_veth m cfg n (ok _, log) = settle (fresh_state m cfg n true) (configure cfg n log)
  with_veth m cfg n (err e, log) = setup_failure e (fresh_state m cfg n false) log

  unfoldable pub with_bridge :
      Manager
      → BridgeConfig
      → Names
      → Result NetError (Unit {0}) × Log
      → Result NetError BridgeState × Log
  unfolding with_veth
  with_bridge m cfg n (ok _, log) =
      with_veth m cfg n (perform h (veth_create n.host_veth n.ns_veth) log)
  with_bridge m cfg n (err e, log) = (err e, log)

  -- What precedes the first change of the host: validation, the routes, and the names.
  unfoldable pub prepare : BridgeConfig → Exec Names
  prepare cfg = do
    lift (elim (validate_bridge cfg) [ ok _ ↦ ok tt | err e ↦ err (invalid_config e) ])
    routes ← list_routes h
    lift (refuse_overlap (find_overlap (prefix_of cfg) routes))
    random ← read_random h
    lift (ok (resource_names random))

  unfoldable pub create :
      Manager → BridgeConfig → Result NetError Names × Log → Result NetError BridgeState × Log
  unfolding with_bridge
  create m cfg (ok n, log) = with_bridge m cfg n (perform h (bridge_add n.bridge) log)
  create m cfg (err e, log) = (err e, log)

  -- `setupParentBridge`.
  unfoldable pub setup_parent_bridge :
      Manager → BridgeConfig → Log → Result NetError BridgeState × Log
  unfolding prepare create
  setup_parent_bridge m cfg log = create m cfg (prepare cfg log)

  -- `moveVethToChild`.
  unfoldable pub move_veth_to_child : Manager → BridgeState → ℕ → Exec (Unit {0})
  move_veth_to_child m state pid log =
      if not (state.manager.identity == m.identity) || not state.owned_veth
      then (err not_owned, log)
      else perform h
          (run_ip (codes "link" ∷ codes "set" ∷ state.ns_veth ∷ codes "netns" ∷ itoa_ℕ pid ∷ []))
          log

  -- The one interface besides `lo`.
  unfoldable pub only_interface : List Text → Text → Result NetError Text
  unfolding ◌=?◌
  only_interface [] [] = err unexpected_interfaces
  only_interface [] (c ∷ iface) = ok (c ∷ iface)
  only_interface (name ∷ names) [] = only_interface names (if name =? codes "lo" then [] else name)
  only_interface (name ∷ names) (c ∷ iface) =
      let rest = only_interface names (c ∷ iface) in
      if name =? codes "lo" then rest else err unexpected_interfaces

  -- `configureChildIface`.
  unfoldable pub configure_child_iface : BridgeConfig → Exec (Unit {0})
  configure_child_iface cfg = do
    perform h disable_ipv6
    names ← list_links h
    iface ← lift (only_interface names [])
    random ← read_random h
    perform h (link_set_mac iface (random_mac random))
    perform h (link_set_name iface (codes "eth0"))
    perform h (addr_add (codes "eth0") (cfg.container_ip ++ b'/' ∷ itoa_ℕ (prefix_of cfg).bits))
    perform h (link_set_mtu (codes "eth0") cfg.mtu)
    perform h (link_set_up (codes "eth0"))
    perform h (link_set_up (codes "lo"))
    perform h
        (run_ip (codes "route" ∷ codes "add" ∷ codes "default" ∷ codes "via" ∷ cfg.gateway_ip ∷ []))
