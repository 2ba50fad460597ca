-- ===== src/Paths/Laws.antt =====
-- Laws of cleaned paths.
use mathlib.Core.List.{reverse_aux, reverse-reverse}
use bcs_zc241t_study_project.Prelude.{
  ◌≡◌, ◌↔◌, refl, sym, ap, ◌∙◌, true, false, List, [], ◌∷◌, ◌++◌, All, arith, append_assoc,
}
use bcs_zc241t_study_project.Text.{Text, split, join, is_empty, contains_byte, has_prefix}
use bcs_zc241t_study_project.Text.Laws.{
  Lacks, split-Lacks, split-join, split-append, has_prefix-append,
}
use bcs_zc241t_study_project.Paths.{
  slash, is_dot, is_dot_dot, is_abs, clean_step, clean_elements, elements, clean, spell,
}

-- A proper name of a directory entry: not empty, not `.`, not `..`, and with no slash in it.
pub record IsComponent (e : Text) : Type 0 where
  pub filled : is_empty e ≡ false
  pub not_dot : is_dot e ≡ false
  pub not_dot_dot : is_dot_dot e ≡ false
  pub lone : Lacks slash e

clean_step-IsComponent :
    (kept : List Text) (e : Text)
    → All IsComponent kept
    → Lacks slash e
    → All IsComponent (clean_step true kept e)
unfolding clean_step
clean_step-IsComponent [] e h l = ground arith
clean_step-IsComponent (k ∷ kept) e h l = ground arith

clean_elements-IsComponent :
    (es kept : List Text)
    → All IsComponent kept
    → All (Lacks slash) es
    → All IsComponent (clean_elements true kept es)
unfolding clean_elements
clean_elements-IsComponent [] kept h l = h
clean_elements-IsComponent (e ∷ es) kept h l =
    clean_elements-IsComponent es (clean_step true kept e) (clean_step-IsComponent kept e h l.0) l.1

All-reverse_aux :
    (P : Text → Type 0) (es kept : List Text) → All P es → All P kept → All P (reverse_aux es kept)
All-reverse_aux P [] kept h hk = hk
All-reverse_aux P (e ∷ es) kept h hk = All-reverse_aux P es (e ∷ kept) h.1 (h.0, hk)

-- The elements of an absolute path are proper names: no `..` is left.
pub elements-IsComponent : (p : Text) → is_abs p ≡ true → All IsComponent (elements p)
unfolding elements
elements-IsComponent p h = rw h (
    All-reverse_aux IsComponent (clean_elements true [] (split slash p)) []
      (clean_elements-IsComponent (split slash p) [] tt (split-Lacks slash p)) tt)

clean_step_component :
    (kept : List Text) (e : Text) → IsComponent e → clean_step true kept e ≡ e ∷ kept
unfolding clean_step
clean_step_component kept e h = ground arith

-- Cleaning leaves proper names as they are.
clean_elements_components :
    (es kept : List Text) → All IsComponent es → clean_elements true kept es ≡ reverse_aux es kept
unfolding clean_elements
clean_elements_components [] kept h = refl
clean_elements_components (e ∷ es) kept h =
    rw (clean_step_component kept e h.0) (clean_elements_components es (e ∷ kept) h.1)

All-lone : (es : List Text) → All IsComponent es → All (Lacks slash) es
All-lone [] h = tt
All-lone (e ∷ es) h = (h.0.lone, All-lone es h.1)

split-rooted :
    (e : Text) (es : List Text)
    → All IsComponent (e ∷ es)
    → split slash (spell true (e ∷ es)) ≡ [] ∷ e ∷ es
split-rooted e es h =
    split-append slash [] (join slash (e ∷ es)) (unfold contains_byte in refl)
    ∙ ap (λ r. [] ∷ r) (split-join slash e es h.0.lone (All-lone es h.1))

-- Reading the elements of a rooted path back from its text.
pub elements-spell : (es : List Text) → All IsComponent es → elements (spell true es) ≡ es
unfolding elements
elements-spell [] h = unfold split clean_elements clean_step join in refl
elements-spell (e ∷ es) h = rw (split-rooted e es h) (
    unfold clean_elements clean_step is_dot in
    rw (clean_elements_components (e ∷ es) [] h) (reverse-reverse (e ∷ es)))

pub clean_abs : (p : Text) → is_abs p ≡ true → clean p ≡ spell true (elements p)
unfolding clean
clean_abs [] h = cc
clean_abs (c ∷ p) h = rw h

-- Cleaning keeps the elements.
pub elements-clean : (p : Text) → is_abs p ≡ true → elements (clean p) ≡ elements p
elements-clean p h = rw (clean_abs p h) (elements-spell (elements p) (elements-IsComponent p h))

-- Two absolute paths with the same clean text have the same elements, and the other way round.
pub clean-eq_iff :
    (p q : Text)
    → is_abs p ≡ true
    → is_abs q ≡ true
    → (clean p ≡ clean q) ↔ (elements p ≡ elements q)
clean-eq_iff p q hp hq = (
  λ e. cc (elements-clean p hp, elements-clean q hq, ap elements e),
  λ e. cc (clean_abs p hp, clean_abs q hq, ap (spell true) e),
)

pub join-append :
    (x : Text) (xs : List Text) (y : Text) (ys : List Text)
    → join slash ((x ∷ xs) ++ (y ∷ ys)) ≡ join slash (x ∷ xs) ++ slash ∷ join slash (y ∷ ys)
unfolding join
join-append x [] y ys = refl
join-append x (x' ∷ xs) y ys = rw (join-append x' xs y ys) (sym (append_assoc x _ _))

-- If the elements of one path go on from those of another, its text goes on behind a slash.
pub spell_below :
    (x : Text) (xs : List Text) (y : Text) (ys : List Text)
    → has_prefix (spell true ((x ∷ xs) ++ (y ∷ ys))) (spell true (x ∷ xs) ++ slash ∷ []) ≡ true
spell_below x xs y ys = rw (join-append x xs y ys) (
    rw (← append_assoc (join slash (x ∷ xs)) (slash ∷ []) (join slash (y ∷ ys)))
      (has_prefix-append (slash ∷ (join slash (x ∷ xs) ++ slash ∷ [])) (join slash (y ∷ ys))))
