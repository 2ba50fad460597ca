-- ===== src/Parent/Tests.antt =====
-- Runs of `Parent`, and the theorems about it at concrete inputs.
use bcs_zc241t_study_project.Prelude.{
  ◌<◌, ◌≡◌, ◌⊎◌, refl, Bool, true, false, not, none, some, [], ◌∷◌, All, codes,
}
use bcs_zc241t_study_project.Network.Types.{mode_bridge}
use bcs_zc241t_study_project.Config.Types.{Config, default_config}
use bcs_zc241t_study_project.Config.Validate
use bcs_zc241t_study_project.Security
use bcs_zc241t_study_project.Process.{exit_error}
use bcs_zc241t_study_project.Parent.Steps.{Act, move_veth, tear_down_bridge, Entry, Host}
use bcs_zc241t_study_project.Parent.Run.{accepted, parent}
use bcs_zc241t_study_project.Parent.Held.{nothing, step, replay}
use bcs_zc241t_study_project.Parent.Settled.{parent-releases}
use bcs_zc241t_study_project.Parent.Result.{IsDone, IsChildCode, IsFailure, parent-Tells}
use bcs_zc241t_study_project.Parent.Sent.{IsMeant, parent-IsMeant}

abbrev cfg : Config
cfg = record default_config {
  command = codes "sh" ∷ [];
  interactive = true;
  network_mode = mode_bridge;
}

abbrev platform : Validate.Platform
platform = record { parse_url = λ u. none; is_ip = λ s. true; goarch = codes "amd64" }

abbrev registry : Security.Platform
registry = record { audit_architecture = 1; x32_abi_bit = 0; syscall_number = λ name. some 7 }

-- Nothing fails, and the child exits with 3.
abbrev willing : Host
willing = record {
  succeeds = λ log a. true;
  resolved = λ log. some (codes "/cache/root");
  outcome = λ log. exit_error 768;
  environ = codes "LANG=C" ∷ [];
  term = codes "xterm";
  uid = 1000;
  gid = 1000;
}

is_act : Act → Bool
is_act move_veth = true
is_act tear_down_bridge = true
is_act a = false

-- The veth pair cannot be moved, and the bridge cannot be removed.
abbrev stubborn : Host
stubborn = record willing { succeeds = λ log a. not (is_act a) }

exits_with_3 : (accepted willing cfg []).0 ≡ 3
unfolding accepted
exits_with_3 = refl

killed_and_cleaned :
    ((accepted stubborn cfg []).0 ≡ 1) × (replay (accepted stubborn cfg []).1 ≡ some nothing)
unfolding accepted is_act replay step
killed_and_cleaned = (refl, refl)

parent-releases_example :
    let (r, log) = parent stubborn platform registry cfg [] in
    (replay log ≡ some nothing) × ((0 < r) ⊎ All IsDone log)
parent-releases_example = parent-releases stubborn platform registry cfg

parent-Tells_example :
    let (r, log) = parent stubborn platform registry cfg [] in
    ((r ≡ 1) × (log ≡ []))
    ⊎ (((0 < r) ⊎ All IsDone log) × (IsChildCode stubborn r log ⊎ IsFailure r log))
parent-Tells_example = parent-Tells stubborn platform registry cfg

parent-IsMeant_example :
    All (λ (e : Entry). IsMeant stubborn cfg e.act) (parent stubborn platform registry cfg []).1
parent-IsMeant_example = parent-IsMeant stubborn cfg platform registry
