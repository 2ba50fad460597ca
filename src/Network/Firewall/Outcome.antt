-- ===== src/Network/Firewall/Outcome.antt =====
-- How `setupFirewall` of iptables.go ends.
use bcs_zc241t_study_project.Prelude.{
  ◌<◌, ◌≡◌, refl, ap, Bool, true, false, Option, none, some, List, [], ◌∷◌, ◌++◌, map, length,
  arith, append_assoc, append-nil, ◌==◌, if◌then◌else◌,
}
use bcs_zc241t_study_project.Network.Host.{
  Host, Log, Entry, firewall_add, firewall_delete, NetError, CleanError, attempt, perform, failed,
  joined, rule_kept,
}
use bcs_zc241t_study_project.Network.State.{FirewallRule, Manager, BridgeState}
use bcs_zc241t_study_project.Network.Firewall.{
  firewall_rules, settle_addition, settle_deletion, drop_rule, remove_firewall_rules, install_rules,
  install_all, setup_firewall, join_errors,
}

-- The rules whose deletion failed, by the entries of their deletions.
abbrev pub kept_of : List FirewallRule → List Entry → List FirewallRule
kept_of [] entries = []
kept_of (rule ∷ rules) [] = rule ∷ rules
kept_of (rule ∷ rules) (e ∷ entries) =
    let rest = kept_of rules entries in if e.done then rest else rule ∷ rest

-- One error for each rule, the last rule first.
unfoldable pub reports : List FirewallRule → List CleanError
reports [] = []
reports (rule ∷ rules) = reports rules ++ rule_kept rule.del ∷ []

-- Each rule of `rules` was deleted by one call, the last one first, and no other call was made; the rules
-- whose deletion failed are kept, and one error for each is reported.
pub record RolledBack (rules kept : List FirewallRule) (errs : List CleanError) (before after : Log)
    : Type 0 where
  pub deletions : List Entry
  pub added : after ≡ deletions ++ before
  pub calls : map (λ e. e.call) deletions ≡ map (λ r. firewall_delete r.del) rules
  pub left : kept ≡ kept_of rules deletions
  pub reported : errs ≡ reports kept

settle_deletion-RolledBack :
    (b : Bool) (rule : FirewallRule) (rules kept : List FirewallRule) (errs : List CleanError)
    (before after : Log)
    → RolledBack rules kept errs before after
    → let end = settle_deletion rule kept errs (attempt b (firewall_delete rule.del) after) in
      RolledBack (rule ∷ rules) end.0 end.1 before end.2
unfolding settle_deletion attempt reports
settle_deletion-RolledBack true rule rules kept errs before after r = record {
  deletions = record { call = firewall_delete rule.del; done = true } ∷ r.deletions;
  added = ap (λ l. record { call = firewall_delete rule.del; done = true } ∷ l) r.added;
  calls = ap (λ l. firewall_delete rule.del ∷ l) r.calls;
  left = r.left;
  reported = r.reported;
}
settle_deletion-RolledBack false rule rules kept errs before after r = record {
  deletions = record { call = firewall_delete rule.del; done = false } ∷ r.deletions;
  added = ap (λ l. record { call = firewall_delete rule.del; done = false } ∷ l) r.added;
  calls = ap (λ l. firewall_delete rule.del ∷ l) r.calls;
  left = ap (λ l. rule ∷ l) r.left;
  reported = ap (λ l. l ++ rule_kept rule.del ∷ []) r.reported;
}

remove_firewall_rules-RolledBack :
    (h : Host) (rules : List FirewallRule) (log : Log)
    → let end = remove_firewall_rules h rules log in RolledBack rules end.0 end.1 log end.2
unfolding remove_firewall_rules drop_rule perform reports
remove_firewall_rules-RolledBack h [] log = record {
  deletions = [];
  added = refl;
  calls = refl;
  left = refl;
  reported = refl;
}
remove_firewall_rules-RolledBack h (rule ∷ rules) log =
    settle_deletion-RolledBack (h.succeeds _ _) rule rules _ _ log _
      (remove_firewall_rules-RolledBack h rules log)

-- The log once these rules were added, in their order.
unfoldable pub additions : List FirewallRule → Log → Log
additions [] log = log
additions (rule ∷ rules) log =
    additions rules (record { call = firewall_add rule.add; done = true } ∷ log)

additions-append :
    (done : List FirewallRule) (rule : FirewallRule) (log : Log)
    → additions (done ++ rule ∷ []) log
      ≡ record { call = firewall_add rule.add; done = true } ∷ additions done log
unfolding additions
additions-append [] rule log = refl
additions-append (d ∷ done) rule log = additions-append done rule _

abbrev pub refusal : FirewallRule → List FirewallRule → Log → Log
refusal rule done log = record { call = firewall_add rule.add; done = false } ∷ additions done log

-- All rules are installed; or adding one failed, those before it were removed and none is left; or
-- adding one failed, and each rule whose removal failed is left and reported.
pub data Ending (rules : List FirewallRule) (log : Log)
    (r : List FirewallRule × Option NetError × Log) : Type 0 where
  complete : r.0 ≡ rules → r.1 ≡ none → r.2 ≡ additions rules log → Ending rules log r
  undone :
      (done : List FirewallRule) (rule : FirewallRule) (more : List FirewallRule)
      → rules ≡ done ++ rule ∷ more
      → RolledBack done [] [] (refusal rule done log) r.2
      → r.0 ≡ []
      → r.1 ≡ some (failed (firewall_add rule.add))
      → Ending rules log r
  left_over :
      (done : List FirewallRule) (rule : FirewallRule) (more : List FirewallRule)
      (errs : List CleanError)
      → rules ≡ done ++ rule ∷ more
      → RolledBack done r.0 errs (refusal rule done log) r.2
      → r.1 ≡ some (joined (failed (firewall_add rule.add)) errs)
      → 0 < length r.0
      → Ending rules log r

snoc-not_nil : (xs : List CleanError) (x : CleanError) → [] ≡ xs ++ x ∷ [] → ⊥
snoc-not_nil [] x e = cc
snoc-not_nil (y ∷ xs) x e = cc

rolled_back :
    (done : List FirewallRule) (rule : FirewallRule) (more kept : List FirewallRule)
    (errs : List CleanError) (log after : Log)
    → RolledBack done kept errs (refusal rule done log) after
    → Ending
        (done ++ rule ∷ more)
        log
        (kept, some (join_errors (failed (firewall_add rule.add)) errs), after)
rolled_back done rule more [] [] log after r = undone done rule more refl r refl refl
rolled_back done rule more [] (x ∷ errs) log after r =
    let e : x ∷ errs ≡ [] = unfold reports in r.reported in cc
rolled_back done rule more (k ∷ kept) [] log after r =
    absurd (snoc-not_nil (reports kept) (rule_kept k.del) (unfold reports in r.reported))
rolled_back done rule more (k ∷ kept) (x ∷ errs) log after r =
    left_over done rule more (x ∷ errs) refl r refl (omega arith)

module _ (h : Host) where
  settle_addition-Ending :
      (b : Bool) (rule : FirewallRule) (done rules : List FirewallRule)
      (more : List FirewallRule → Log → List FirewallRule × Option NetError × Log) (log : Log)
      → Ending
          (done ++ rule ∷ rules)
          log
          (more (done ++ rule ∷ []) (additions (done ++ rule ∷ []) log))
      → Ending (done ++ rule ∷ rules) log (
          settle_addition h rule done more (attempt b (firewall_add rule.add) (additions done log)))
  unfolding settle_addition attempt
  settle_addition-Ending true rule done rules more log go = rw (← additions-append done rule log) go
  settle_addition-Ending false rule done rules more log go =
      rolled_back done rule rules _ _ log _ (remove_firewall_rules-RolledBack h done _)

  install_rules-Ending :
      (rules done : List FirewallRule) (log : Log)
      → Ending (done ++ rules) log (install_rules h rules done (additions done log))
  unfolding install_rules perform
  install_rules-Ending [] done log = rw append-nil (complete refl refl refl)
  install_rules-Ending (rule ∷ rules) done log =
      settle_addition-Ending (h.succeeds _ _) rule done rules (install_rules h rules) log (
        rw (← append_assoc done (rule ∷ []) rules)
          (install_rules-Ending rules (done ++ rule ∷ []) log))

-- On a bridge that the manager owns, without rules so far, `setupFirewall` ends in one of three ways.
-- It reports success, the state lists all six rules, and the calls have added these in their order. Or
-- adding one of the rules failed, each rule before it was deleted by a call that succeeded, the last one
-- first, the error is the call that failed, and the state lists no rule. Or adding one failed, each rule
-- before it was deleted by a call, the state lists those whose deletion failed, and the error is the call
-- that failed joined with one error for each of these. No other call is made.
pub setup_firewall-Ending :
    (h : Host) (m : Manager) (state : BridgeState) (log : Log)
    → (state.manager.identity == m.identity) ≡ true
    → state.owned_bridge ≡ true
    → state.firewall ≡ []
    → Ending (firewall_rules state.config.subnet state.bridge m.run_id) log (
      (setup_firewall h m state log).0.firewall,
      (setup_firewall h m state log).1,
      (setup_firewall h m state log).2,
    )
unfolding setup_firewall install_all additions
setup_firewall-Ending h m state log same owned e =
    rw (same, owned, e)
      (install_rules-Ending h (firewall_rules state.config.subnet state.bridge m.run_id) [] log)
