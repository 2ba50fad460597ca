-- ===== src/Network/Exported.antt =====
-- sandbox/sandbox/network/bridge.go and iptables.go: the exported functions on a bridge state, which may
-- be nil. A state that is there has a manager.
use bcs_zc241t_study_project.Prelude.{ℕ, Option, none, some, List, [], err}
use bcs_zc241t_study_project.Network.Host.{Host, Log, CleanError, NetError, Exec, not_owned}
use bcs_zc241t_study_project.Network.State.{BridgeState}
use bcs_zc241t_study_project.Network.Firewall.{setup_firewall}
use bcs_zc241t_study_project.Network.Bridge.{cleanup, move_veth_to_child}

module _ (h : Host) where
  -- `SetupFirewallForBridge`: the state, the error, the log.
  unfoldable pub setup_firewall_for_bridge :
      Option BridgeState → Log → Option BridgeState × Option NetError × Log
  unfolding setup_firewall
  setup_firewall_for_bridge none log = (none, some not_owned, log)
  setup_firewall_for_bridge (some state) log =
      let (state', e, log') = setup_firewall h state.manager state log in (some state', e, log')

  -- `MoveVethToChild`.
  unfoldable pub move_veth_of : Option BridgeState → ℕ → Exec (Unit {0})
  unfolding move_veth_to_child
  move_veth_of none pid log = (err not_owned, log)
  move_veth_of (some state) pid log = move_veth_to_child h state.manager state pid log

  -- `TeardownParentBridge`: the state, the errors, the log.
  unfoldable pub teardown_parent_bridge :
      Option BridgeState → Log → Option BridgeState × List CleanError × Log
  unfolding cleanup
  teardown_parent_bridge none log = (none, [], log)
  teardown_parent_bridge (some state) log =
      let (state', errs, log') = cleanup h state log in (some state', errs, log')
