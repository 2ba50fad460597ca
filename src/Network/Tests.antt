-- ===== src/Network/Tests.antt =====
-- Hosts and configurations to try sandbox/sandbox/network on.
use bcs_zc241t_study_project.Prelude.{
  ℕ, ◌≡◌, refl, Bool, true, false, not, ◌||◌, some, List, [], ◌∷◌, ok, err, ◌=?◌, codes, contains,
  any, arith,
}
use bcs_zc241t_study_project.Text.{Text, cut, split}
use bcs_zc241t_study_project.Network.Address.{
  Prefix, parse_addr, parse_prefix, overlaps, four_octets, plain_number, number_below,
}
use bcs_zc241t_study_project.Network.Types.{
  default_bridge_config, validate_bridge, or_fail, canonical, validate_hosts, last_address,
  network_value,
}
use bcs_zc241t_study_project.Network.Types.Usable.{IsUsable, validate_bridge-IsUsable}
use bcs_zc241t_study_project.Network.Host.{
  Host, Log, Call, bridge_add, bridge_del, veth_create, veth_delete, link_set_up, firewall_add,
  failed, ◌>>=◌, lift, attempt, perform, list_links, list_routes, read_random,
}
use bcs_zc241t_study_project.Network.State.{Manager, BridgeState}
use bcs_zc241t_study_project.Network.Loopback.{
  LoopKernel, open_socket, close_socket, get_flags, set_flags, configure_isolated_loopback,
  IsLoopbackEnd, configure_isolated_loopback-IsLoopbackEnd,
}
use bcs_zc241t_study_project.Network.Firewall.{
  firewall_rules, setup_firewall, remove_firewall_rules, drop_rule, settle_deletion,
}
use bcs_zc241t_study_project.Network.Firewall.Tables.{Key, table_after, stack, keys}
use bcs_zc241t_study_project.Network.Firewall.Installed.{setup_firewall_table}
use bcs_zc241t_study_project.Network.Firewall.Outcome.{Ending, setup_firewall-Ending}
use bcs_zc241t_study_project.Network.Bridge.{
  setup_parent_bridge, prepare, create, configure, with_bridge, with_veth, settle, setup_failure,
  cleanup, release_link, delete_owned_link, after_deletion, judge_deletion, find_overlap,
  refuse_overlap, check_routes, resource_names,
}
use bcs_zc241t_study_project.Text.Decimal.{encode_hex, itoa_ℕ, write_digits}
use bcs_zc241t_study_project.Network.Bridge.Links.{
  bridge_live, veth_live, IsHonest, bridge_step, veth_step,
}
use bcs_zc241t_study_project.Network.Bridge.Setup.{is_joined, setup_parent_bridge-Released}

default_accepted : validate_bridge default_bridge_config ≡ ok tt
unfolding validate_bridge or_fail parse_prefix cut parse_addr four_octets split plain_number
    number_below canonical validate_hosts last_address network_value
default_accepted = refl

validate_bridge-IsUsable_example :
    (p : Prefix) × (g : ℕ) × (h : ℕ) × (mtu : ℕ) × IsUsable default_bridge_config p g h mtu
validate_bridge-IsUsable_example = validate_bridge-IsUsable default_bridge_config default_accepted

-- The link that a call makes; no name where it makes none.
abbrev made : Call → Text
made (bridge_add n) = n
made (veth_create n peer) = n
made c = []

abbrev all_made : Log → List Text
all_made [] = []
all_made (e ∷ log) = made e.call ∷ all_made log

-- It refuses to bring links up and to add the third firewall rule, and lists every link ever made.
abbrev accepts : Call → Bool
accepts (link_set_up n) = false
accepts (firewall_add args) = not (any (λ a. a =? codes "ESTABLISHED,RELATED") args)
accepts c = true

abbrev stubborn : Host
stubborn = record {
  succeeds = λ log c. accepts c;
  names = λ log. some (all_made log);
  routes = λ log. some [];
  random = λ log. some (1 ∷ 2 ∷ 3 ∷ 4 ∷ 5 ∷ 6 ∷ []);
}

bridge_made :
    (b : Text) (c : Call) (done there : Bool)
    → bridge_step b c done there ≡ true
    → (made c =? b || there) ≡ true
unfolding bridge_step
bridge_made b (bridge_add n) done there e = ground arith
bridge_made b (bridge_del n) done there e = ground arith
bridge_made b c done there e = ground arith

bridge_listed : (b : Text) (log : Log) → bridge_live b log ≡ true → contains (all_made log) b ≡ true
unfolding bridge_live contains
bridge_listed b [] e = absurd (ground arith)
bridge_listed b (x ∷ log) e =
    ground (arith, bridge_made b x.call x.done (bridge_live b log) e, bridge_listed b log)

veth_made :
    (v : Text) (c : Call) (done there : Bool)
    → veth_step v c done there ≡ true
    → (made c =? v || there) ≡ true
unfolding veth_step
veth_made v (veth_create n peer) done there e = ground arith
veth_made v (veth_delete n) done there e = ground arith
veth_made v c done there e = ground arith

veth_listed : (v : Text) (log : Log) → veth_live v log ≡ true → contains (all_made log) v ≡ true
unfolding veth_live contains
veth_listed v [] e = absurd (ground arith)
veth_listed v (x ∷ log) e =
    ground (arith, veth_made v x.call x.done (veth_live v log) e, veth_listed v log)

stubborn-IsHonest : IsHonest stubborn
stubborn-IsHonest = record {
  lists_bridge = λ b log names e live. cc (e, bridge_listed b log live);
  lists_veth = λ v log names e live. cc (e, veth_listed v log live);
}

abbrev manager : Manager
manager = record { identity = 1; run_id = codes "sandbox-1" }

abbrev the_bridge : Text
the_bridge = codes "sb010203040506"

abbrev the_veth : Text
the_veth = codes "vh010203040506"

-- The calls of a setup that fails.
abbrev final_log : Log
unfolding setup_parent_bridge
final_log = (setup_parent_bridge stubborn manager default_bridge_config []).1

nothing_there : bridge_live the_bridge [] ≡ false
unfolding bridge_live
nothing_there = refl

no_veth_there : veth_live the_veth [] ≡ false
unfolding veth_live
no_veth_there = refl

plain : is_joined (failed (link_set_up the_bridge)) ≡ false
unfolding is_joined
plain = refl

set_up_fails :
    setup_parent_bridge stubborn manager default_bridge_config []
    ≡ (err (failed (link_set_up the_bridge)), final_log)
unfolding setup_parent_bridge prepare create configure with_bridge with_veth settle setup_failure
    cleanup release_link delete_owned_link after_deletion judge_deletion find_overlap refuse_overlap
    check_routes resource_names ◌>>=◌ lift attempt perform list_links list_routes read_random
    overlaps remove_firewall_rules drop_rule settle_deletion validate_bridge or_fail parse_prefix
    cut parse_addr four_octets split plain_number number_below canonical validate_hosts last_address
    network_value encode_hex itoa_ℕ write_digits ◌=?◌ contains
set_up_fails = refl

setup_parent_bridge-Released_example :
    (bridge_live the_bridge final_log ≡ false) × (veth_live the_veth final_log ≡ false)
setup_parent_bridge-Released_example =
    setup_parent_bridge-Released stubborn stubborn-IsHonest the_bridge the_veth manager
      default_bridge_config [] final_log (failed (link_set_up the_bridge)) nothing_there
      no_veth_there set_up_fails plain

abbrev owned_bridge_state : BridgeState
owned_bridge_state = record {
  config = default_bridge_config;
  manager = manager;
  firewall = [];
  bridge = the_bridge;
  host_veth = the_veth;
  ns_veth = codes "vc010203040506";
  owned_bridge = true;
  owned_veth = true;
}

abbrev docker_rule : Key
docker_rule = record {
  table = codes "filter";
  chain = codes "FORWARD";
  spec = codes "-j" ∷ codes "DOCKER-USER" ∷ [];
}

-- The third of the six rules is refused, and the two before it are removed.
setup_firewall_table_example :
    table_after (docker_rule ∷ []) (setup_firewall stubborn manager owned_bridge_state []).2
    ≡ stack
        (keys (setup_firewall stubborn manager owned_bridge_state []).0.firewall)
        (table_after (docker_rule ∷ []) [])
setup_firewall_table_example =
    setup_firewall_table stubborn manager owned_bridge_state [] (docker_rule ∷ []) refl

setup_firewall-Ending_example :
    Ending (firewall_rules default_bridge_config.subnet the_bridge (codes "sandbox-1")) [] (
      (setup_firewall stubborn manager owned_bridge_state []).0.firewall,
      (setup_firewall stubborn manager owned_bridge_state []).1,
      (setup_firewall stubborn manager owned_bridge_state []).2,
    )
setup_firewall-Ending_example =
    setup_firewall-Ending stubborn manager owned_bridge_state [] refl refl refl

-- The interface has the flag for broadcasts, and may be raised.
abbrev lowered : LoopKernel
lowered = record { opens = true; request = true; flags = some 2; sets = λ flags. true }

configure_isolated_loopback-IsLoopbackEnd_example :
    IsLoopbackEnd lowered
      (configure_isolated_loopback lowered).0
      (configure_isolated_loopback lowered).1
configure_isolated_loopback-IsLoopbackEnd_example =
    configure_isolated_loopback-IsLoopbackEnd lowered

raised :
    configure_isolated_loopback lowered
    ≡ (ok tt, close_socket ∷ set_flags 3 ∷ get_flags ∷ open_socket ∷ [])
unfolding configure_isolated_loopback
raised = refl
