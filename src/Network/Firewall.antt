-- ===== src/Network/Firewall.antt =====
-- sandbox/sandbox/network/iptables.go: the rules of a bridge, their installation and their removal.
pub mod Tables
pub mod Installed
pub mod Outcome
use bcs_zc241t_study_project.Prelude.{
  ℕ, Bool, true, false, not, ◌||◌, Option, none, some, List, [], ◌∷◌, ◌++◌, map, Result, ok, err,
  ◌==◌, if◌then◌else◌, codes,
}
use bcs_zc241t_study_project.Text.{Text}
use bcs_zc241t_study_project.Network.Host.{
  Host, Log, Call, Entry, firewall_add, firewall_delete, NetError, CleanError, rule_kept, failed,
  joined, not_owned, already_installed, perform,
}
use bcs_zc241t_study_project.Network.Types.{BridgeConfig}
use bcs_zc241t_study_project.Network.State.{FirewallRule, Manager, BridgeState}

-- The closure `withComment`.
abbrev pub with_comment : Text → List Text → Text → List Text
with_comment label base target =
    base ++ (codes "-m" ∷ codes "comment" ∷ codes "--comment" ∷ label ∷ codes "-j" ∷ target ∷ [])

-- One rule: its table, chain, tests and target; the arguments that add it at the head of the chain and
-- those that delete it.
abbrev pub filter_rule : Text → Text → List Text → Text → FirewallRule
filter_rule label chain tests target = record {
  add = with_comment label (codes "-I" ∷ chain ∷ codes "1" ∷ tests) target;
  del = with_comment label (codes "-D" ∷ chain ∷ tests) target;
}

abbrev pub nat_rule : Text → Text → List Text → Text → FirewallRule
nat_rule label chain tests target = record {
  add =
      with_comment label (codes "-t" ∷ codes "nat" ∷ codes "-I" ∷ chain ∷ codes "1" ∷ tests) target;
  del = with_comment label (codes "-t" ∷ codes "nat" ∷ codes "-D" ∷ chain ∷ tests) target;
}

abbrev pub conntrack : Text → Text → List Text
conntrack bridge states =
    codes "-o" ∷ bridge ∷ codes "-m" ∷ codes "conntrack" ∷ codes "--ctstate" ∷ states ∷ []

unfoldable pub firewall_rules : Text → Text → Text → List FirewallRule
firewall_rules subnet bridge label =
    filter_rule label (codes "FORWARD") (codes "-i" ∷ bridge ∷ []) (codes "ACCEPT")
    ∷ filter_rule label (codes "FORWARD") (conntrack bridge (codes "NEW")) (codes "REJECT")
    ∷ filter_rule label (codes "FORWARD") (conntrack bridge (codes "ESTABLISHED,RELATED"))
        (codes "ACCEPT")
    ∷ filter_rule label (codes "INPUT") (codes "-i" ∷ bridge ∷ []) (codes "REJECT")
    ∷ filter_rule label (codes "FORWARD")
        (codes "-i" ∷ bridge ∷ codes "-d" ∷ codes "169.254.0.0/16" ∷ []) (codes "REJECT")
    ∷ nat_rule label (codes "POSTROUTING")
        (codes "-s" ∷ subnet ∷ codes "!" ∷ codes "-o" ∷ bridge ∷ []) (codes "MASQUERADE")
    ∷ []

-- One round of the removal: a rule whose deletion fails stays in the state, and is reported.
unfoldable pub settle_deletion :
    FirewallRule
    → List FirewallRule
    → List CleanError
    → Result NetError (Unit {0}) × Log
    → List FirewallRule × List CleanError × Log
settle_deletion rule kept errs (ok _, log) = (kept, errs, log)
settle_deletion rule kept errs (err _, log) = (rule ∷ kept, errs ++ rule_kept rule.del ∷ [], log)

-- `errors.Join(e, rollback)`.
abbrev pub join_errors : NetError → List CleanError → NetError
join_errors e [] = e
join_errors e (c ∷ cs) = joined e (c ∷ cs)

abbrev pub is_nil : List FirewallRule → Bool
is_nil [] = true
is_nil (r ∷ rs) = false

module _ (h : Host) where
  unfoldable pub drop_rule :
      FirewallRule
      → List FirewallRule × List CleanError × Log
      → List FirewallRule × List CleanError × Log
  unfolding settle_deletion
  drop_rule rule (kept, errs, log) =
      settle_deletion rule kept errs (perform h (firewall_delete rule.del) log)

  -- `removeFirewallRulesLocked`, from the last rule to the first: the rules that are left, the errors,
  -- and the calls.
  unfoldable pub remove_firewall_rules :
      List FirewallRule → Log → List FirewallRule × List CleanError × Log
  remove_firewall_rules [] log = ([], [], log)
  remove_firewall_rules (rule ∷ rules) log = drop_rule rule (remove_firewall_rules rules log)

  -- One round of `setupFirewall`: on an error the rules installed so far are removed.
  unfoldable pub settle_addition :
      FirewallRule
      → List FirewallRule
      → (List FirewallRule → Log → List FirewallRule × Option NetError × Log)
      → Result NetError (Unit {0}) × Log
      → List FirewallRule × Option NetError × Log
  settle_addition rule installed more (ok _, log) = more (installed ++ rule ∷ []) log
  settle_addition rule installed more (err e, log) =
      let (kept, errs, log') = remove_firewall_rules installed log in
      (kept, some (join_errors e errs), log')

  -- The loop of `setupFirewall`: the rules installed by the end, and the error if there is one.
  unfoldable pub install_rules :
      List FirewallRule → List FirewallRule → Log → List FirewallRule × Option NetError × Log
  install_rules [] installed log = (installed, none, log)
  install_rules (rule ∷ rules) installed log =
      settle_addition rule installed (install_rules rules) (perform h (firewall_add rule.add) log)

  unfoldable pub install_all : BridgeState → Text → Log → BridgeState × Option NetError × Log
  install_all state run_id log =
      let (installed, e, log') =
        install_rules (firewall_rules state.config.subnet state.bridge run_id) [] log in
      (record state { firewall = installed }, e, log')

  -- `setupFirewall` of the manager `m` on a state that is not nil.
  unfoldable pub setup_firewall : Manager → BridgeState → Log → BridgeState × Option NetError × Log
  setup_firewall m state log =
      if not (state.manager.identity == m.identity)
      then (state, some not_owned, log)
      else if not state.owned_bridge
      then (state, some not_owned, log)
      else if not (is_nil state.firewall)
      then (state, some already_installed, log)
      else install_all state m.run_id log
