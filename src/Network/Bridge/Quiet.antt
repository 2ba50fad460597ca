-- ===== src/Network/Bridge/Quiet.antt =====
-- Which calls of bridge.go and iptables.go leave the links of the host alone.
use bcs_zc241t_study_project.Prelude.{
  ◌≡◌, refl, ◌∙◌, Bool, true, false, List, [], ◌∷◌, Result, ok, err,
}
use bcs_zc241t_study_project.Prelude.Int.{ℤ}
use bcs_zc241t_study_project.Text.{Text}
use bcs_zc241t_study_project.Network.Host.{
  Host, Log, Call, Exec, bridge_del, veth_delete, link_set_master, link_set_mtu, link_set_up,
  run_ip, firewall_delete, NetError, CleanError, attempt, perform, list_links, list_routes,
  read_random, lift, ◌>>=◌, continue,
}
use bcs_zc241t_study_project.Network.Types.{BridgeConfig}
use bcs_zc241t_study_project.Network.State.{FirewallRule}
use bcs_zc241t_study_project.Network.Firewall.{remove_firewall_rules, drop_rule, settle_deletion}
use bcs_zc241t_study_project.Network.Bridge.{after_deletion, configure, prepare, Names}
use bcs_zc241t_study_project.Network.Bridge.Links.{bridge_live, veth_live, bridge_step, veth_step}

-- The links `x` and `y` are there after the log `l` as they are after `k`.
pub record SameLinks (x y : Text) (k l : Log) : Type 0 where
  pub bridge : bridge_live x l ≡ bridge_live x k
  pub veth : veth_live y l ≡ veth_live y k

pub SameLinks-refl : (x y : Text) (l : Log) → SameLinks x y l l
SameLinks-refl x y l = record { bridge = refl; veth = refl }

pub SameLinks-trans :
    {x y : Text} {j k l : Log} → SameLinks x y j k → SameLinks x y k l → SameLinks x y j l
SameLinks-trans p q = record { bridge = q.bridge ∙ p.bridge; veth = q.veth ∙ p.veth }

-- An action that leaves the links alone.
pub record Quiet (x y : Text) {A : Type 0} (m : Exec A) : Type 0 where
  pub at : (log : Log) → SameLinks x y log (m log).1

module _ (h : Host) (x y : Text) where
  attempt-bridge_del :
      (b : Bool) (name : Text) (log : Log)
      → veth_live y (after_deletion h name (attempt b (bridge_del name) log)).1 ≡ veth_live y log
  unfolding after_deletion attempt list_links veth_live
  attempt-bridge_del true name log = refl
  attempt-bridge_del false name log = refl

  pub veth-bridge_del :
      (b : Bool) (name : Text) (log : Log)
      → veth_live y (after_deletion h name (attempt b (bridge_del name) log)).1 ≡ veth_live y log
  veth-bridge_del = attempt-bridge_del

  pub bridge-veth_delete :
      (b : Bool) (name : Text) (log : Log)
      → bridge_live x (after_deletion h name (attempt b (veth_delete name) log)).1
        ≡ bridge_live x log
  unfolding after_deletion attempt list_links bridge_live
  bridge-veth_delete true name log = refl
  bridge-veth_delete false name log = refl

  firewall_step :
      (b : Bool) (rule : FirewallRule) (kept : List FirewallRule) (errs : List CleanError)
      (log : Log)
      → SameLinks x y log
          (settle_deletion rule kept errs (attempt b (firewall_delete rule.del) log)).2
  unfolding settle_deletion attempt bridge_live veth_live
  firewall_step true rule kept errs log = record { bridge = refl; veth = refl }
  firewall_step false rule kept errs log = record { bridge = refl; veth = refl }

  pub remove_firewall_rules-SameLinks :
      (rules : List FirewallRule) (log : Log)
      → SameLinks x y log (remove_firewall_rules h rules log).2
  unfolding remove_firewall_rules drop_rule perform
  remove_firewall_rules-SameLinks [] log = SameLinks-refl x y log
  remove_firewall_rules-SameLinks (rule ∷ rules) log =
      SameLinks-trans (remove_firewall_rules-SameLinks rules log)
        (firewall_step (h.succeeds _ _) rule _ _ _)

  continue-Quiet :
      {A B : Type 0} (r : Result NetError A) (f : A → Exec B) (log : Log)
      → ((a : A) → Quiet x y (f a))
      → SameLinks x y log (continue r f log).1
  continue-Quiet (ok a) f log q = (q a).at log
  continue-Quiet (err e) f log q = SameLinks-refl x y log

  Quiet-bind :
      {A B : Type 0} (m : Exec A) (f : A → Exec B)
      → Quiet x y m
      → ((a : A) → Quiet x y (f a))
      → Quiet x y (m >>= f)
  unfolding ◌>>=◌
  Quiet-bind m f q r = record {
    at = λ log. SameLinks-trans (q.at log) (continue-Quiet (m log).0 f (m log).1 r);
  }

  Quiet-lift : {A : Type 0} (r : Result NetError A) → Quiet x y (lift r)
  unfolding lift
  Quiet-lift r = record { at = SameLinks-refl x y }

  Quiet-list_routes : Quiet x y (list_routes h)
  unfolding list_routes bridge_live veth_live
  Quiet-list_routes = record { at = λ log. record { bridge = refl; veth = refl } }

  Quiet-read_random : Quiet x y (read_random h)
  unfolding read_random
  Quiet-read_random = record { at = SameLinks-refl x y }

  attempt-SameLinks :
      (c : Call)
      → ((done there : Bool) → bridge_step x c done there ≡ there)
      → ((done there : Bool) → veth_step y c done there ≡ there)
      → (b : Bool) (log : Log) → SameLinks x y log (attempt b c log).1
  unfolding attempt bridge_live veth_live
  attempt-SameLinks c hb hv true log = record { bridge = hb true _; veth = hv true _ }
  attempt-SameLinks c hb hv false log = record { bridge = hb false _; veth = hv false _ }

  Quiet-perform :
      (c : Call)
      → ((done there : Bool) → bridge_step x c done there ≡ there)
      → ((done there : Bool) → veth_step y c done there ≡ there)
      → Quiet x y (perform h c)
  unfolding perform
  Quiet-perform c hb hv = record { at = λ log. attempt-SameLinks c hb hv (h.succeeds log c) log }

  Quiet-link_set_master : (a b : Text) → Quiet x y (perform h (link_set_master a b))
  unfolding bridge_step veth_step
  Quiet-link_set_master a b = Quiet-perform (link_set_master a b) (λ d t. refl) (λ d t. refl)

  Quiet-link_set_mtu : (a : Text) (n : ℤ) → Quiet x y (perform h (link_set_mtu a n))
  unfolding bridge_step veth_step
  Quiet-link_set_mtu a n = Quiet-perform (link_set_mtu a n) (λ d t. refl) (λ d t. refl)

  Quiet-link_set_up : (a : Text) → Quiet x y (perform h (link_set_up a))
  unfolding bridge_step veth_step
  Quiet-link_set_up a = Quiet-perform (link_set_up a) (λ d t. refl) (λ d t. refl)

  Quiet-run_ip : (args : List Text) → Quiet x y (perform h (run_ip args))
  unfolding bridge_step veth_step
  Quiet-run_ip args = Quiet-perform (run_ip args) (λ d t. refl) (λ d t. refl)

  ruleset quiet = (
    Quiet-bind, Quiet-lift, Quiet-list_routes, Quiet-read_random, Quiet-link_set_master,
    Quiet-link_set_mtu, Quiet-link_set_up, Quiet-run_ip,
  )

  pub prepare-Quiet : (cfg : BridgeConfig) → Quiet x y (prepare h cfg)
  unfolding prepare
  prepare-Quiet cfg = search quiet

  pub configure-Quiet : (cfg : BridgeConfig) (n : Names) → Quiet x y (configure h cfg n)
  unfolding configure
  configure-Quiet cfg n = search quiet depth 24
