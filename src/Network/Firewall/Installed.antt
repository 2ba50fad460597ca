-- ===== src/Network/Firewall/Installed.antt =====
-- `setupFirewall` of iptables.go: the state against the kernel's tables.
use bcs_zc241t_study_project.Prelude.{
  ◌≡◌, refl, ap, Bool, true, false, Option, List, [], ◌∷◌, ◌++◌, All, arith, append_assoc,
}
use bcs_zc241t_study_project.Network.Host.{Host, Log, firewall_add, NetError, attempt, perform}
use bcs_zc241t_study_project.Network.State.{FirewallRule, Manager, BridgeState}
use bcs_zc241t_study_project.Network.Firewall.{
  firewall_rules, settle_addition, install_rules, install_all, setup_firewall,
}
use bcs_zc241t_study_project.Network.Firewall.Tables.{
  Key, key_of, keys, stack, table_after, effect, apply, IsPaired, AreApart, Differs,
  remove_firewall_rules-table, firewall_rules-IsPaired, firewall_rules-AreApart,
}

stack-append :
    (ks : List Key) (k : Key) (rest : List Key) → stack (ks ++ k ∷ []) rest ≡ k ∷ stack ks rest
stack-append [] k rest = refl
stack-append (j ∷ ks) k rest = stack-append ks k (j ∷ rest)

keys-append :
    (rs : List FirewallRule) (r : FirewallRule) → keys (rs ++ r ∷ []) ≡ keys rs ++ key_of r ∷ []
keys-append [] r = refl
keys-append (s ∷ rs) r = ap (λ ks. key_of s ∷ ks) (keys-append rs r)

All-prefix : (Q : FirewallRule → Type 0) (rs ss : List FirewallRule) → All Q (rs ++ ss) → All Q rs
All-prefix Q [] ss h = tt
All-prefix Q (r ∷ rs) ss (q, h) = (q, All-prefix Q rs ss h)

All-middle :
    (Q : FirewallRule → Type 0) (rs : List FirewallRule) (s : FirewallRule) (ss : List FirewallRule)
    → All Q (rs ++ s ∷ ss)
    → Q s
All-middle Q [] s ss h = h.0
All-middle Q (r ∷ rs) s ss h = All-middle Q rs s ss h.1

AreApart-prefix : (rs ss : List FirewallRule) → AreApart (rs ++ ss) → AreApart rs
AreApart-prefix [] ss h = tt
AreApart-prefix (r ∷ rs) ss (d, h) =
    (All-prefix (λ s. Differs (key_of r) (key_of s)) rs ss d, AreApart-prefix rs ss h)

module _ (h : Host) (before base : List Key) where
  abbrev Outcome : Type 0
  Outcome = List FirewallRule × Option NetError × Log

  -- The rules that a round leaves in the state are those on top of the base.
  abbrev Agrees : Outcome → Type 0
  Agrees r = table_after before r.2 ≡ stack (keys r.0) base

  settle_addition-Agrees :
      (b : Bool) (rule : FirewallRule) (done : List FirewallRule)
      (more : List FirewallRule → Log → Outcome) (log : Log)
      → ((log' : Log)
          → table_after before log' ≡ stack (keys (done ++ rule ∷ [])) base
          → Agrees (more (done ++ rule ∷ []) log'))
      → IsPaired rule
      → All IsPaired done
      → AreApart done
      → table_after before log ≡ stack (keys done) base
      → Agrees (settle_addition h rule done more (attempt b (firewall_add rule.add) log))
  unfolding settle_addition attempt table_after effect apply
  settle_addition-Agrees true rule done more log go p ps a e = go _ (
      rw (keys-append done rule, stack-append (keys done) (key_of rule) base, p.adds)
        (ap (λ ks. key_of rule ∷ ks) e))
  settle_addition-Agrees false rule done more log go p ps a e =
      remove_firewall_rules-table h before done _ base ps a e

  install_rules-Agrees :
      (rules done : List FirewallRule) (log : Log)
      → All IsPaired (done ++ rules)
      → AreApart (done ++ rules)
      → table_after before log ≡ stack (keys done) base
      → Agrees (install_rules h rules done log)
  unfolding install_rules perform
  install_rules-Agrees [] done log p a e = e
  install_rules-Agrees (rule ∷ rules) done log p a e =
      settle_addition-Agrees (h.succeeds _ _) rule done (install_rules h rules) log
        (λ log' e'.
          install_rules-Agrees rules (done ++ rule ∷ []) log'
            (rw (append_assoc done (rule ∷ []) rules) p)
            (rw (append_assoc done (rule ∷ []) rules) a) e')
        (All-middle IsPaired done rule rules p) (All-prefix IsPaired done (rule ∷ rules) p)
        (AreApart-prefix done (rule ∷ rules) a) e

-- After `setupFirewall` on a state without rules, whatever calls the host refuses, in the loop or in
-- the rollback: the kernel has the rules that the state lists, the last one first, on top of the rules
-- that it had before, and no other.
pub setup_firewall_table :
    (h : Host) (m : Manager) (state : BridgeState) (log : Log) (before : List Key)
    → state.firewall ≡ []
    → table_after before (setup_firewall h m state log).2
      ≡ stack (keys (setup_firewall h m state log).0.firewall) (table_after before log)
unfolding setup_firewall install_all
setup_firewall_table h m state log before e =
    let rules = firewall_rules state.config.subnet state.bridge m.run_id in
    ground (
      arith,
      install_rules-Agrees h before (table_after before log) rules [] log
          (firewall_rules-IsPaired state.config.subnet state.bridge m.run_id)
          (firewall_rules-AreApart state.config.subnet state.bridge m.run_id) refl,
    )
