-- ===== src/Network/State.antt =====
-- `bridgeManager`, `BridgeState` and `firewallRule` of sandbox/sandbox/network/types.go. A manager is
-- compared by identity, which is a number here; its mutex plays no part in a single thread.
use bcs_zc241t_study_project.Prelude.{ℕ, Bool, List}
use bcs_zc241t_study_project.Text.{Text}
use bcs_zc241t_study_project.Network.Types.{BridgeConfig}

pub record FirewallRule : Type 0 where
  pub add : List Text
  pub del : List Text

pub record Manager : Type 0 where
  pub identity : ℕ
  pub run_id : Text

pub record BridgeState : Type 0 where
  pub config : BridgeConfig
  pub manager : Manager
  pub firewall : List FirewallRule
  pub bridge : Text
  pub host_veth : Text
  pub ns_veth : Text
  pub owned_bridge : Bool
  pub owned_veth : Bool
