-- ===== src/Paths.antt =====
-- The functions of Go's packages `path` and `path/filepath` (on Linux) that the program calls, by the
-- rules of their documentation: a path is cleaned one element at a time.
pub mod Laws
pub mod Below
use bcs_zc241t_study_project.Prelude.{
  ℕ, ◌≡◌, refl, Bool, true, false, not, ◌&&◌, ◌||◌, Option, none, some, List, [], ◌∷◌, ◌++◌, map,
  ◌==◌, ◌=?◌, if◌then◌else◌, any, codes,
}
use mathlib.Core.List.{reverse}
use bcs_zc241t_study_project.Text.{Text, split, join, has_prefix, skip, is_empty}

abbrev pub slash : ℕ
slash = b'/'

abbrev pub dot : Text
dot = b'.' ∷ []

abbrev pub dot_dot : Text
dot_dot = b'.' ∷ b'.' ∷ []

unfoldable pub is_dot : Text → Bool
unfolding ◌=?◌
is_dot s = s =? dot

unfoldable pub is_dot_dot : Text → Bool
unfolding ◌=?◌
is_dot_dot s = s =? dot_dot

-- `filepath.IsAbs(p)`.
abbrev pub is_abs : Text → Bool
is_abs [] = false
is_abs (c ∷ s) = c == slash

-- `..` behind the elements kept so far, which stand in reverse.
unfoldable pub go_up : Bool → List Text → List Text
unfolding is_dot_dot
go_up true [] = []
go_up false [] = dot_dot ∷ []
go_up rooted (e ∷ kept) = if is_dot_dot e then dot_dot ∷ e ∷ kept else kept

-- One element: empty ones and `.` vanish, `..` takes the element before it away.
unfoldable pub clean_step : Bool → List Text → Text → List Text
unfolding is_dot go_up
clean_step rooted kept e =
    if is_empty e || is_dot e then kept else if is_dot_dot e then go_up rooted kept else e ∷ kept

unfoldable pub clean_elements : Bool → List Text → List Text → List Text
unfolding clean_step
clean_elements rooted kept [] = kept
clean_elements rooted kept (e ∷ es) = clean_elements rooted (clean_step rooted kept e) es

abbrev pub spell : Bool → List Text → Text
spell true es = slash ∷ join slash es
spell false [] = dot
spell false (e ∷ es) = join slash (e ∷ es)

-- The elements of a cleaned path, in order.
unfoldable pub elements : Text → List Text
elements p = reverse (clean_elements (is_abs p) [] (split slash p))

-- `path.Clean(p)`.
unfoldable pub clean : Text → Text
clean p = if is_empty p then dot else spell (is_abs p) (elements p)

-- `path.Join(a, b)`.
unfoldable pub join_paths : Text → Text → Text
join_paths [] [] = []
join_paths [] (c ∷ b) = clean (c ∷ b)
join_paths (c ∷ a) [] = clean (c ∷ a)
join_paths (c ∷ a) (d ∷ b) = clean ((c ∷ a) ++ slash ∷ (d ∷ b))

-- Everything up to the last slash, the slash included: the directory part of `path.Split(p)`.
unfoldable pub up_to_slash : Text → Text
up_to_slash [] = []
up_to_slash (c ∷ s) =
    let rest = up_to_slash s in
    if is_empty rest then (if c == slash then c ∷ [] else []) else c ∷ rest

-- `path.Dir(p)`.
unfoldable pub dir : Text → Text
dir p = clean (up_to_slash p)

-- `pathHasParentEscape` of config.go and `hasParentComponent` of fs/isolation.go.
unfoldable pub has_parent_component : Text → Bool
has_parent_component p = any is_dot_dot (split slash p)

-- The elements of `targ` behind those that it shares with `base`, one `..` for each that is left of
-- `base`.
unfoldable pub rel_elements : List Text → List Text → List Text
unfolding ◌=?◌
rel_elements [] targ = targ
rel_elements (b ∷ base) [] = map (λ _. dot_dot) (b ∷ base)
rel_elements (b ∷ base) (t ∷ targ) =
    let deeper = rel_elements base targ in
    if b =? t then deeper else map (λ _. dot_dot) (b ∷ base) ++ t ∷ targ

-- `filepath.Rel(base, targ)` for absolute paths, where it has no error.
unfoldable pub rel : Text → Text → Text
rel base targ = spell false (rel_elements (elements base) (elements targ))

clean_tests :
    (clean (codes "/a/./b//../c/") ≡ codes "/a/c")
    × (clean (codes "/../..") ≡ codes "/")
    × (clean (codes "a/../../b") ≡ codes "../b")
    × (clean [] ≡ codes ".")
    × (dir (codes "usr/bin/sh") ≡ codes "usr/bin")
    × (dir (codes "sh") ≡ codes ".")
    × (join_paths (codes ".") (codes "../x") ≡ codes "../x")
    × (rel (codes "/a/b") (codes "/a/b/c/d") ≡ codes "c/d")
    × (rel (codes "/a/b") (codes "/a") ≡ codes "..")
unfolding clean dir join_paths rel elements rel_elements clean_elements split join up_to_slash
clean_tests = (refl, refl, refl, refl, refl, refl, refl, refl, refl)
