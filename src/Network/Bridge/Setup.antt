-- ===== src/Network/Bridge/Setup.antt =====
-- How `setupParentBridge` of bridge.go ends, and the links that it leaves on the host.
use bcs_zc241t_study_project.Prelude.{
  ◌≡◌, refl, ap, ◌∙◌, Bool, true, false, not, ◌&&◌, ◌||◌, List, [], ◌∷◌, Result, ok, err, ◌=?◌,
  arith,
}
use bcs_zc241t_study_project.Text.{Text}
use bcs_zc241t_study_project.Network.Types.{BridgeConfig}
use bcs_zc241t_study_project.Network.Host.{
  Host, Log, bridge_add, bridge_del, veth_create, veth_delete, NetError, CleanError, joined,
  attempt, perform,
}
use bcs_zc241t_study_project.Network.State.{Manager, BridgeState}
use bcs_zc241t_study_project.Network.Firewall.{remove_firewall_rules, join_errors}
use bcs_zc241t_study_project.Network.Bridge.Links.{bridge_live, veth_live, IsHonest}
use bcs_zc241t_study_project.Network.Bridge.Quiet.{
  veth-bridge_del, bridge-veth_delete, remove_firewall_rules-SameLinks, prepare-Quiet,
  configure-Quiet,
}
use bcs_zc241t_study_project.Network.Bridge.Release.{is_nil, Ensures, release_bridge, release_veth}
use bcs_zc241t_study_project.Network.Bridge.{
  Names, release_link, delete_owned_link, cleanup, setup_failure, settle, with_veth, with_bridge,
  create, fresh_state, prepare, setup_parent_bridge,
}

-- The error carries errors of the clean-up.
unfoldable pub is_joined : NetError → Bool
is_joined (joined e errs) = true
is_joined e = false

-- The link is gone, or the errors tell.
abbrev gone_or_told : Bool → Bool → Bool
gone_or_told there told = not there || told

abbrev told_by : Result NetError BridgeState → Bool
told_by (ok state) = true
told_by (err e) = is_joined e

join_errors-told :
    (e : NetError) (errs : List CleanError) → (is_nil errs || is_joined (join_errors e errs)) ≡ true
unfolding is_joined
join_errors-told e [] = refl
join_errors-told e (x ∷ errs) = refl

module _ (h : Host) (honest : IsHonest h) (x y : Text) where
  link_bridge :
      (own : Bool) (name : Text) (errs : List CleanError) (log : Log)
      → (not (bridge_live x log) || (name =? x && own)) ≡ true
      → let (own', errs', log') = release_link h own name (bridge_del name) errs log in
        Ensures (bridge_live x log') own' errs errs' (name =? x)
  unfolding release_link delete_owned_link perform
  link_bridge false name errs log k = ground arith
  link_bridge true name errs log k =
      release_bridge h honest x name (h.succeeds _ _) errs log (ground arith)

  link_veth :
      (own : Bool) (name : Text) (errs : List CleanError) (log : Log)
      → (not (veth_live y log) || (name =? y && own)) ≡ true
      → let (own', errs', log') = release_link h own name (veth_delete name) errs log in
        Ensures (veth_live y log') own' errs errs' (name =? y)
  unfolding release_link delete_owned_link perform
  link_veth false name errs log k = ground arith
  link_veth true name errs log k =
      release_veth h honest y name (h.succeeds _ _) errs log (ground arith)

  same_bridge :
      (own : Bool) (name : Text) (errs : List CleanError) (log : Log)
      → bridge_live x (release_link h own name (veth_delete name) errs log).2 ≡ bridge_live x log
  unfolding release_link delete_owned_link perform
  same_bridge false name errs log = refl
  same_bridge true name errs log = bridge-veth_delete h x y (h.succeeds _ _) name log

  same_veth :
      (own : Bool) (name : Text) (errs : List CleanError) (log : Log)
      → veth_live y (release_link h own name (bridge_del name) errs log).2 ≡ veth_live y log
  unfolding release_link delete_owned_link perform
  same_veth false name errs log = refl
  same_veth true name errs log = veth-bridge_del h x y (h.succeeds _ _) name log

  -- What is known of a log and a state: a link that is there is the one that the state owns.
  Accounted : BridgeState → Log → Type 0
  Accounted state log =
      ((not (bridge_live x log) || (state.bridge =? x && state.owned_bridge)) ≡ true)
      × ((not (veth_live y log) || (state.host_veth =? y && state.owned_veth)) ≡ true)

  -- Both links are gone, or `told` holds.
  Settled : Bool → Log → Type 0
  Settled told log =
      (gone_or_told (bridge_live x log) told ≡ true) × (gone_or_told (veth_live y log) told ≡ true)

  cleanup-Settled :
      (state : BridgeState) (log : Log)
      → Accounted state log
      → let (state', errs, log') = cleanup h state log in Settled (not (is_nil errs)) log'
  unfolding Accounted Settled cleanup
  cleanup-Settled state log (kb, kv) =
      let links = remove_firewall_rules-SameLinks h x y state.firewall log in
      let (_, errs₁, log₁) = remove_firewall_rules h state.firewall log in
      let (_, errs₂, log₂) =
        release_link h state.owned_veth state.host_veth (veth_delete state.host_veth) errs₁ log₁ in
      let v =
        link_veth state.owned_veth state.host_veth errs₁ log₁ (ground (arith, links.veth, kv)) in
      let same_b = same_bridge state.owned_veth state.host_veth errs₁ log₁ in
      let b =
        link_bridge state.owned_bridge state.bridge errs₂ log₂
          (ground (arith, links.bridge, same_b, kb)) in
      let same_v = same_veth state.owned_bridge state.bridge errs₂ log₂ in
      (ground (arith, b), ground (arith, v, b, same_v))

  setup_failure-Settled :
      (e : NetError) (state : BridgeState) (log : Log)
      → Accounted state log
      → let (r, log') = setup_failure h e state log in Settled (told_by r) log'
  unfolding Settled setup_failure
  setup_failure-Settled e state log k =
      let (b, v) = cleanup-Settled state log k in
      let j = join_errors-told e (cleanup h state log).1 in
      (ground (arith, b, j), ground (arith, v, j))

  settle-Settled :
      (state : BridgeState) (p : Result NetError (Unit {0}) × Log)
      → Accounted state p.1
      → let (r, log') = settle h state p in Settled (told_by r) log'
  unfolding settle Settled
  settle-Settled state (ok _, log) k = (ground arith, ground arith)
  settle-Settled state (err e, log) k = setup_failure-Settled e state log k

  with_veth-Settled :
      (b : Bool) (m : Manager) (cfg : BridgeConfig) (n : Names) (log : Log)
      → (not (bridge_live x log) || n.bridge =? x) ≡ true
      → veth_live y log ≡ false
      → let (r, log') = with_veth h m cfg n (attempt b (veth_create n.host_veth n.ns_veth) log) in
        Settled (told_by r) log'
  unfolding with_veth attempt Accounted
  with_veth-Settled true m cfg n log k kv =
      let quiet =
        (configure-Quiet h x y cfg n).at
          (record { call = veth_create n.host_veth n.ns_veth; done = true } ∷ log) in
      settle-Settled (fresh_state h m cfg n true) _ (
        unfold bridge_live veth_live in
        (ground (arith, quiet.bridge, k), ground (arith, quiet.veth, kv)))
  with_veth-Settled false m cfg n log k kv =
      setup_failure-Settled _ (fresh_state h m cfg n false) _
        (unfold bridge_live veth_live in (ground (arith, k), ground (arith, kv)))

  with_bridge-Settled :
      (b : Bool) (m : Manager) (cfg : BridgeConfig) (n : Names) (log : Log)
      → bridge_live x log ≡ false
      → veth_live y log ≡ false
      → let (r, log') = with_bridge h m cfg n (attempt b (bridge_add n.bridge) log) in
        Settled (told_by r) log'
  unfolding with_bridge attempt Settled perform
  with_bridge-Settled true m cfg n log kb kv =
      with_veth-Settled (h.succeeds _ _) m cfg n _ (unfold bridge_live in ground (arith, kb))
        (unfold veth_live in kv)
  with_bridge-Settled false m cfg n log kb kv =
      (unfold bridge_live in ground (arith, kb), unfold veth_live in ground (arith, kv))

  create-Settled :
      (m : Manager) (cfg : BridgeConfig) (p : Result NetError Names × Log)
      → bridge_live x p.1 ≡ false
      → veth_live y p.1 ≡ false
      → let (r, log') = create h m cfg p in Settled (told_by r) log'
  unfolding create perform Settled
  create-Settled m cfg (ok n, log) kb kv = with_bridge-Settled (h.succeeds _ _) m cfg n log kb kv
  create-Settled m cfg (err e, log) kb kv = (ground (arith, kb), ground (arith, kv))

-- On a host that lists all its links, and on which neither the bridge `x` nor the veth pair `y` is there
-- at first: when `setupParentBridge` fails with an error that joins no errors of the clean-up, neither is
-- there at the end, whichever call failed.
pub setup_parent_bridge-Released :
    (h : Host) (honest : IsHonest h) (x y : Text) (m : Manager) (cfg : BridgeConfig)
    (log log' : Log) (e : NetError)
    → bridge_live x log ≡ false
    → veth_live y log ≡ false
    → setup_parent_bridge h m cfg log ≡ (err e, log')
    → is_joined e ≡ false
    → (bridge_live x log' ≡ false) × (veth_live y log' ≡ false)
unfolding setup_parent_bridge Settled
setup_parent_bridge-Released h honest x y m cfg log log' e kb kv run plain =
    let quiet = (prepare-Quiet h x y cfg).at log in
    let (b, v) =
      create-Settled h honest x y m cfg (prepare h cfg log) (quiet.bridge ∙ kb) (quiet.veth ∙ kv) in
    let told = ap (λ p. told_by p.0) run in
    (
      ground (arith, b, plain, told, ap (λ p. bridge_live x p.1) run),
      ground (arith, v, plain, told, ap (λ p. veth_live y p.1) run),
    )
