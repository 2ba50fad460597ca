-- ===== src/Network/Bridge/Release.antt =====
-- The clean-up of bridge.go against the links that the calls made so far leave on the host.

use bcs_zc241t_study_project.Prelude.{
  ◌≡◌, refl, ◌∙◌, Bool, true, false, not, ◌&&◌, ◌||◌, Option, none, some, List, [], ◌∷◌, ◌++◌, ◌=?◌,
  =?_iff, contains, arith,
}
use bcs_zc241t_study_project.Text.{Text}
use bcs_zc241t_study_project.Network.Host.{
  Host, Log, bridge_del, veth_delete, CleanError, attempt, list_links, link_names, answer, failed,
  link_kept, link_unknown,
}
use bcs_zc241t_study_project.Network.Bridge.Links.{bridge_live, veth_live, IsHonest}
use bcs_zc241t_study_project.Network.Bridge.{after_deletion, judge_deletion, still_owned, report}

abbrev pub is_nil : List CleanError → Bool
is_nil [] = true
is_nil (e ∷ errs) = false

append-nonempty : (errs : List CleanError) (e : CleanError) → is_nil (errs ++ e ∷ []) ≡ false
append-nonempty [] e = refl
append-nonempty (x ∷ errs) e = refl

-- What releasing a link ensures, for a link `x`: it is there only if it is the one that is still owned;
-- what is still owned is reported, and reports are kept.
abbrev pub Ensures : Bool → Bool → List CleanError → List CleanError → Bool → Type 0
Ensures there own errs errs' same =
    ((not there || (same && own)) ≡ true)
    × ((not own || not (is_nil errs')) ≡ true)
    × ((is_nil errs || not (is_nil errs')) ≡ true)

module _ (h : Host) (honest : IsHonest h) (x name : Text) where
  -- After a failed deletion the link list decides. A link that is not listed is not there.
  judged :
      (there : Bool) (names : Option (List Text)) (errs : List CleanError)
      → (not there || name =? x) ≡ true
      → ((ns : List Text) → names ≡ some ns → there ≡ true → contains ns x ≡ true)
      → let e = judge_deletion name (answer h names (failed link_names)) in
        Ensures there (still_owned e) errs (report errs e) (name =? x)
  unfolding judge_deletion
  judged there none errs k listed = ground (arith, append-nonempty errs (link_unknown name))
  judged there (some ns) errs k listed =
      ground (arith, append-nonempty errs (link_kept name), listed ns refl, =?_iff name x)

  failed_bridge_del :
      (log : Log)
      → bridge_live x (record { call = bridge_del name; done = false } ∷ log) ≡ bridge_live x log
  unfolding bridge_live
  failed_bridge_del log = ground arith

  listed_bridge :
      (e : Bool) (log : Log)
      → bridge_live x (record { call = link_names; done = e } ∷ log) ≡ bridge_live x log
  unfolding bridge_live
  listed_bridge e log = refl

  pub release_bridge :
      (b : Bool) (errs : List CleanError) (log : Log)
      → (not (bridge_live x log) || name =? x) ≡ true
      → let (e, log') = after_deletion h name (attempt b (bridge_del name) log) in
        Ensures (bridge_live x log') (still_owned e) errs (report errs e) (name =? x)
  unfolding after_deletion attempt list_links
  release_bridge true errs log k = unfold bridge_live in ground arith
  release_bridge false errs log k =
      rw (listed_bridge, failed_bridge_del)
        (judged (bridge_live x log) (h.names _) errs k
          λ ns e there. honest.lists_bridge x _ ns e (failed_bridge_del log ∙ there))

  failed_veth_delete :
      (log : Log)
      → veth_live x (record { call = veth_delete name; done = false } ∷ log) ≡ veth_live x log
  unfolding veth_live
  failed_veth_delete log = ground arith

  listed_veth :
      (e : Bool) (log : Log)
      → veth_live x (record { call = link_names; done = e } ∷ log) ≡ veth_live x log
  unfolding veth_live
  listed_veth e log = refl

  pub release_veth :
      (b : Bool) (errs : List CleanError) (log : Log)
      → (not (veth_live x log) || name =? x) ≡ true
      → let (e, log') = after_deletion h name (attempt b (veth_delete name) log) in
        Ensures (veth_live x log') (still_owned e) errs (report errs e) (name =? x)
  unfolding after_deletion attempt list_links
  release_veth true errs log k = unfold veth_live in ground arith
  release_veth false errs log k =
      rw (listed_veth, failed_veth_delete)
        (judged (veth_live x log) (h.names _) errs k
          λ ns e there. honest.lists_veth x _ ns e (failed_veth_delete log ∙ there))
