-- ===== src/Network/Bridge/Links.antt =====
-- The links that the calls of bridge.go leave on the host, read off the log of the calls.
use bcs_zc241t_study_project.Prelude.{
  ◌≡◌, Bool, true, false, ◌&&◌, some, List, [], ◌∷◌, ◌=?◌, if◌then◌else◌, contains,
}
use bcs_zc241t_study_project.Text.{Text}
use bcs_zc241t_study_project.Network.Host.{
  Host, Log, Call, bridge_add, bridge_del, veth_create, veth_delete,
}

-- Whether a call leaves the bridge `b` on the host, if it was there before or not.
unfoldable pub bridge_step : Text → Call → Bool → Bool → Bool
bridge_step b (bridge_add n) done there = if n =? b && done then true else there
bridge_step b (bridge_del n) done there = if n =? b && done then false else there
bridge_step b c done there = there

-- The bridge has been created and not been deleted since.
unfoldable pub bridge_live : Text → Log → Bool
unfolding bridge_step
bridge_live b [] = false
bridge_live b (e ∷ log) = bridge_step b e.call e.done (bridge_live b log)

unfoldable pub veth_step : Text → Call → Bool → Bool → Bool
veth_step v (veth_create n peer) done there = if n =? v && done then true else there
veth_step v (veth_delete n) done there = if n =? v && done then false else there
veth_step v c done there = there

-- The host end of the pair has been created and not been deleted since.
unfoldable pub veth_live : Text → Log → Bool
unfolding veth_step
veth_live v [] = false
veth_live v (e ∷ log) = veth_step v e.call e.done (veth_live v log)

-- The host lists every link that it has.
pub record IsHonest (h : Host) : Type 0 where
  pub lists_bridge :
      (b : Text) (log : Log) (names : List Text)
      → h.names log ≡ some names
      → bridge_live b log ≡ true
      → contains names b ≡ true
  pub lists_veth :
      (v : Text) (log : Log) (names : List Text)
      → h.names log ≡ some names
      → veth_live v log ≡ true
      → contains names v ≡ true
