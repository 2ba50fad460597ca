-- ===== src/Child/Start/Tests.antt =====
-- Runs of `Child`, and the theorem about it at one of them.
use bcs_zc241t_study_project.Prelude.{◌≡◌, refl, ◌⊎◌, Bool, true, false, some, [], ◌∷◌, codes}
use bcs_zc241t_study_project.Network.Types.{mode_bridge}
use bcs_zc241t_study_project.Config.Types.{Config, default_config}
use bcs_zc241t_study_project.Process.{reaped}
use bcs_zc241t_study_project.Child.Start.{Stage, apply_filter, Log, System, code, child}
use bcs_zc241t_study_project.Child.Start.Confined.{
  Stopped, restrictions, configured, all_done, Executed, child-Confined,
}

abbrev cfg : Config
cfg = record default_config { command = codes "sh" ∷ []; network_mode = mode_bridge }

-- The payload exits with 3, and nothing fails.
abbrev willing : System
willing = record {
  succeeds = λ log s. true;
  found = λ log name. some (codes "/bin/sh");
  payload_pid = 2;
  answers = reaped 9 0 ∷ reaped 2 768 ∷ [];
}

is_filter : Stage → Bool
is_filter (apply_filter a b) = true
is_filter s = false

-- The kernel refuses the filter.
abbrev unfiltered : System
unfiltered = record willing {
  succeeds = λ log s. elim (is_filter s) [ true ↦ false | false ↦ true ];
}

exits_with_3 : (child willing (some cfg) []).0 ≡ code 3
unfolding child
exits_with_3 = refl

child-Confined_example :
    Stopped unfiltered (restrictions cfg) configured (child unfiltered (some cfg) [])
    ⊎ Executed unfiltered cfg.command cfg.env_vars
        (all_done (restrictions cfg) configured)
        (child unfiltered (some cfg) [])
child-Confined_example = child-Confined unfiltered cfg

first : Log → Bool
first [] = true
first (e ∷ log) = e.done

filter_refused :
    ((child unfiltered (some cfg) []).0 ≡ code 1)
    × (first (child unfiltered (some cfg) []).1 ≡ false)
unfolding child first is_filter
filter_refused = (refl, refl)
