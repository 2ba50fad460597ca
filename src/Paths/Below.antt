-- ===== src/Paths/Below.antt =====
-- Joining a path below another one, and the way back by `filepath.Rel`.
use bcs_zc241t_study_project.Prelude.{
  ◌≡◌, refl, sym, ap, ◌∙◌, true, false, ◌||◌, List, [], ◌∷◌, ◌++◌, append-nil, ◌=?◌, =?_iff, All,
  All-append, arith, codes,
}
use bcs_zc241t_study_project.Text.{Text, split, join, contains_byte, has_prefix, is_empty}
use bcs_zc241t_study_project.Paths.{
  slash, dot_dot, is_dot_dot, is_abs, clean_step, clean_elements, elements, clean, spell,
  join_paths, rel_elements,
}
use bcs_zc241t_study_project.Paths.Laws.{
  IsComponent, elements-IsComponent, elements-spell, clean_abs, elements-clean, join-append,
}

double_slash : (s : Text) → elements (slash ∷ slash ∷ s) ≡ elements (slash ∷ s)
unfolding elements split clean_elements clean_step
double_slash s = refl

-- A path below another one, both made of proper names.
pub elements-below :
    (es : List Text) (r : Text) (rs : List Text)
    → All IsComponent es
    → All IsComponent (r ∷ rs)
    → elements (spell true es ++ slash ∷ join slash (r ∷ rs)) ≡ es ++ r ∷ rs
elements-below [] r rs he hr =
    unfold join in double_slash (join slash (r ∷ rs)) ∙ elements-spell (r ∷ rs) hr
elements-below (e ∷ es) r rs he hr =
    ap (λ s. elements (slash ∷ s)) (sym (join-append e es r rs))
    ∙ elements-spell ((e ∷ es) ++ r ∷ rs) (All-append IsComponent (e ∷ es) (r ∷ rs) he hr)

-- The text of proper names starts with a proper name.
pub join-filled :
    (r : Text) (rs : List Text) → IsComponent r → is_empty (join slash (r ∷ rs)) ≡ false
unfolding join
join-filled [] rs h = absurd (ground (arith, h.filled))
join-filled (c ∷ r) [] h = refl
join-filled (c ∷ r) (s ∷ rs) h = refl

join_paths-filled :
    (a b : Text) → is_empty a ≡ false → is_empty b ≡ false → join_paths a b ≡ clean (a ++ slash ∷ b)
unfolding join_paths
join_paths-filled [] b ha hb = cc
join_paths-filled (c ∷ a) [] ha hb = cc
join_paths-filled (c ∷ a) (d ∷ b) ha hb = refl

join_paths-nil : (a : Text) → is_empty a ≡ false → join_paths a [] ≡ clean a
unfolding join_paths
join_paths-nil [] h = cc
join_paths-nil (c ∷ a) h = refl

is_abs-append : (a b : Text) → is_abs a ≡ true → is_abs (a ++ b) ≡ true
is_abs-append [] b h = cc
is_abs-append (c ∷ a) b h = h

filled_abs : (a : Text) → is_abs a ≡ true → is_empty a ≡ false
filled_abs [] h = cc
filled_abs (c ∷ a) h = refl

pub elements-join_paths :
    (root : Text) (rs : List Text)
    → is_abs root ≡ true
    → clean root ≡ root
    → All IsComponent rs
    → elements (join_paths root (join slash rs)) ≡ elements root ++ rs
elements-join_paths root [] a k h =
    let lone : join_paths root (join slash []) ≡ clean root =
      unfold join in join_paths-nil root (filled_abs root a) in
    ap elements (lone ∙ k) ∙ sym (append-nil (elements root))
elements-join_paths root (r ∷ rs) a k h =
    let below = slash ∷ join slash (r ∷ rs) in
    let spelt : root ≡ spell true (elements root) = sym k ∙ clean_abs root a in
    ap elements
      (join_paths-filled root (join slash (r ∷ rs)) (filled_abs root a) (join-filled r rs h.0))
    ∙ elements-clean (root ++ below) (is_abs-append root below a)
    ∙ ap (λ p. elements (p ++ below)) spelt
    ∙ elements-below (elements root) r rs (elements-IsComponent root a) h

pub rel_elements-below : (es rs : List Text) → rel_elements es (es ++ rs) ≡ rs
unfolding rel_elements
rel_elements-below [] rs = refl
rel_elements-below (e ∷ es) rs = ground (arith, =?_iff e e, rel_elements-below es rs)

component_stays : (r : Text) → IsComponent r → (r =? dot_dot || has_prefix r (codes "../")) ≡ false
unfolding contains_byte is_dot_dot ◌=?◌ has_prefix
component_stays [] h = ground (arith, h.filled)
component_stays (c ∷ []) h = ground (arith, h.not_dot_dot)
component_stays (c ∷ d ∷ []) h = ground (arith, h.not_dot_dot)
component_stays (c ∷ d ∷ e ∷ r) h = ground (arith, h.lone)

path_stays :
    (r t : Text)
    → IsComponent r
    → ((r ++ slash ∷ t) =? dot_dot || has_prefix (r ++ slash ∷ t) (codes "../")) ≡ false
unfolding contains_byte is_dot_dot ◌=?◌ has_prefix
path_stays [] t h = ground (arith, h.filled)
path_stays (c ∷ []) t h = ground (arith, h.not_dot_dot)
path_stays (c ∷ d ∷ []) t h = ground (arith, h.not_dot_dot)
path_stays (c ∷ d ∷ e ∷ r) t h = ground (arith, h.lone)

-- A relative path of proper names is not above its base.
pub spell-stays :
    (rs : List Text)
    → All IsComponent rs
    → (spell false rs =? dot_dot || has_prefix (spell false rs) (codes "../")) ≡ false
unfolding join ◌=?◌ has_prefix
spell-stays [] h = refl
spell-stays (r ∷ []) h = component_stays r h.0
spell-stays (r ∷ s ∷ rs) h = path_stays r (join slash (s ∷ rs)) h.0
