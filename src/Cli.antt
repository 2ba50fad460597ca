-- ===== src/Cli.antt =====
-- sandbox/sandbox/args.go: lists on the command line.
use bcs_zc241t_study_project.Prelude.{List, [], ◌∷◌, if◌then◌else◌}
use bcs_zc241t_study_project.Text.{Text, split, trim_space, is_empty}

-- The loop of `splitCSV`: the parts, trimmed, without the empty ones.
unfoldable pub filled_parts : List Text → List Text
unfolding trim_space
filled_parts [] = []
filled_parts (part ∷ parts) =
    let rest = filled_parts parts in
    if is_empty (trim_space part) then rest else trim_space part ∷ rest

-- `splitCSV`.
unfoldable pub split_csv : Text → List Text
unfolding filled_parts split
split_csv value = filled_parts (split b',' value)
