-- ===== src/Parent/Environment/Tests.antt =====
-- Runs of the environments of the parent, and the theorems about them at concrete inputs.
use bcs_zc241t_study_project.Prelude.{
  ◌↔◌, ◌≡◌, refl, true, false, List, [], ◌∷◌, ◌=?◌, if◌then◌else◌, codes,
}
use bcs_zc241t_study_project.Text.{Text, cut}
use bcs_zc241t_study_project.Parent.Environment.{
  configured_environment_value, term_name, is_terminal_name, interactive_environment,
  internal_child_environment,
}
use bcs_zc241t_study_project.Parent.Environment.Term.{
  IsTerminalName, value-interactive_environment, IsPathOnly, internal_child_environment-IsPathOnly,
}

abbrev entries : List Text
entries = codes "TERM=old" ∷ codes "PATH=/bin" ∷ codes "LANG=C" ∷ []

value-interactive_environment_example :
    configured_environment_value
        (interactive_environment entries (codes "xterm-256color") [] false)
        (codes "TERM")
      ≡ (if term_name =? codes "TERM"
          then (
            (if false
                then []
                else if is_terminal_name (codes "xterm-256color")
                then codes "xterm-256color"
                else codes "dumb"),
            true,
          )
          else configured_environment_value entries (codes "TERM"))
    × ((is_terminal_name (codes "xterm-256color") ≡ true) ↔ IsTerminalName (codes "xterm-256color"))
value-interactive_environment_example =
    value-interactive_environment entries (codes "xterm-256color") [] false (codes "TERM")

internal_child_environment-IsPathOnly_example :
    IsPathOnly entries (internal_child_environment entries)
internal_child_environment-IsPathOnly_example = internal_child_environment-IsPathOnly entries

without_terminal :
    interactive_environment entries (codes "bad term") [] false
    ≡ codes "PATH=/bin" ∷ codes "LANG=C" ∷ codes "TERM=dumb" ∷ []
unfolding interactive_environment cut
without_terminal = refl

path_only : internal_child_environment entries ≡ codes "PATH=/bin" ∷ []
unfolding internal_child_environment cut
path_only = refl
