-- ===== src/Child/Capabilities/Selected.antt =====
-- Which capabilities `dropCapabilities` of child.go selects: the flags against the names.
use bcs_zc241t_study_project.Prelude.{
  ℕ, zero, suc, ◌<◌, ◌≡◌, refl, ◌∙◌, Bool, true, false, not, ◌&&◌, ◌||◌, Option, none, some, List,
  [], ◌∷◌, length, any, ok, ◌==◌, leb, arith, Bool-cases, Result-cases, inl, inr,
}
use bcs_zc241t_study_project.Text.{Text}
use bcs_zc241t_study_project.Config.Capability.{capability_number}
use bcs_zc241t_study_project.Child.Capabilities.{
  CapLog, CapKernel, width, no_flags, set_flag, flag_at, capability_key, is_all, mark,
  select_requested, mark_through, last_capability, select_all, select,
}

abbrev is_number : ℕ → Option ℕ → Bool
is_number n none = false
is_number n (some m) = m == n

-- The text names the capability with this number.
unfoldable pub names_number : ℕ → Text → Bool
names_number n raw = not (is_all raw) && is_number n (capability_number (capability_key raw))

-- The capability is listed, or all are and the kernel knows it.
unfoldable pub is_wanted : List Text → ℕ → ℕ → Bool
is_wanted requested last n = any (names_number n) requested || (any is_all requested && leb n last)

length-set_flag : (n : ℕ) (flags : List Bool) → length (set_flag n flags) ≡ length flags
unfolding set_flag
length-set_flag n [] = refl
length-set_flag zero (b ∷ flags) = refl
length-set_flag (suc n) (b ∷ flags) = omega (arith, length-set_flag n flags)

flag_at-set_flag :
    (n m : ℕ) (flags : List Bool)
    → m < length flags
    → flag_at m (set_flag n flags) ≡ (n == m || flag_at m flags)
unfolding set_flag flag_at
flag_at-set_flag n m [] h = elim h [ ]
flag_at-set_flag zero zero (b ∷ flags) h = refl
flag_at-set_flag zero (suc m) (b ∷ flags) h = ground arith
flag_at-set_flag (suc n) zero (b ∷ flags) h = ground arith
flag_at-set_flag (suc n) (suc m) (b ∷ flags) h = ground (arith, flag_at-set_flag n m flags)

length-mark_through :
    (last : ℕ) (flags : List Bool) → length (mark_through last flags) ≡ length flags
unfolding mark_through
length-mark_through zero flags = length-set_flag zero flags
length-mark_through (suc last) flags =
    length-set_flag (suc last) (mark_through last flags) ∙ length-mark_through last flags

flag_at-mark_through :
    (last m : ℕ) (flags : List Bool)
    → m < length flags
    → flag_at m (mark_through last flags) ≡ (leb m last || flag_at m flags)
unfolding mark_through
flag_at-mark_through zero m flags h = ground (arith, flag_at-set_flag zero m flags)
flag_at-mark_through (suc last) m flags h = ground (
  arith,
  flag_at-set_flag (suc last) m (mark_through last flags),
  length-mark_through last flags,
  flag_at-mark_through last m flags,
)

-- What a loop over names adds to the flags.
record IsMarked (requested : List Text) (flags : List Bool) (all : Bool) (flags' : List Bool)
    (all' : Bool) : Type 0 where
  same : length flags' ≡ length flags
  everything : all' ≡ (all || any is_all requested)
  marked :
      (m : ℕ)
      → m < length flags
      → flag_at m flags' ≡ (flag_at m flags || any (names_number m) requested)

mark-ok :
    (raw : Text) (o : Option ℕ) (flags flags' : List Bool)
    → mark raw o flags ≡ ok flags'
    → (length flags' ≡ length flags)
      × ((m : ℕ) → m < length flags → flag_at m flags' ≡ (flag_at m flags || is_number m o))
unfolding mark
mark-ok raw none flags flags' h = cc
mark-ok raw (some number) flags flags' h =
    let e : set_flag number flags ≡ flags' = ground arith in
    rw (← e)
      (length-set_flag number flags, λ m lt. ground (arith, flag_at-set_flag number m flags lt))

-- A step of the loop at `ALL`, and one at the name of a capability.
module _ {raw : Text} {rest : List Text} {flags : List Bool} {all : Bool} {flags' : List Bool}
    {all' : Bool} where
  all_step :
      IsMarked rest flags true flags' all'
      → is_all raw ≡ true
      → IsMarked (raw ∷ rest) flags all flags' all'
  unfolding any names_number
  all_step r e = record {
    same = r.same;
    everything = ground (arith, r.everything);
    marked = λ m lt. ground (arith, r.marked m lt);
  }

  named_step :
      {marked : List Bool}
      → IsMarked rest marked all flags' all'
      → is_all raw ≡ false
      → mark raw (capability_number (capability_key raw)) flags ≡ ok marked
      → IsMarked (raw ∷ rest) flags all flags' all'
  unfolding any names_number
  named_step {marked} r e good =
      let (same_length, set) =
        mark-ok raw (capability_number (capability_key raw)) flags marked good in
      record {
        same = r.same ∙ same_length;
        everything = ground (arith, r.everything);
        marked = λ m lt. ground (arith, r.marked m, set m);
      }

select_requested-IsMarked :
    (requested : List Text) (flags : List Bool) (all : Bool) (flags' : List Bool) (all' : Bool)
    → select_requested requested flags all ≡ ok (flags', all')
    → IsMarked requested flags all flags' all'
unfolding select_requested any
select_requested-IsMarked [] flags all flags' all' h =
    let (same_flags, same_all) : (flags ≡ flags') × (all ≡ all') = (cc, cc) in
    rw (← same_flags, ← same_all)
      (record { same = refl; everything = ground arith; marked = λ m lt. ground arith })
select_requested-IsMarked (raw ∷ rest) flags all flags' all' h = elim (Bool-cases (is_all raw)) [
  | inl e ↦ all_step (select_requested-IsMarked rest flags true flags' all' cc) e
  | inr e ↦ elim (Result-cases (mark raw (capability_number (capability_key raw)) flags)) [
    | inl (x, bad) ↦ cc
    | inr (marked, good) ↦
        named_step (select_requested-IsMarked rest marked all flags' all' cc) e good
  ]
]

-- `select` chooses 64 flags, set exactly for the capabilities that are wanted; if all are, up to the
-- last one of the kernel, which the file says and which the flags have room for.
pub record IsSelected (k : CapKernel) (requested : List Text) (log : CapLog) (flags : List Bool)
    : Type 0 where
  pub last : ℕ
  pub size : length flags ≡ width
  pub known :
      any is_all requested ≡ true
      → (last_capability (k.cap_last_cap log) ≡ ok last) × (last < width)
  pub wanted : (n : ℕ) → n < width → flag_at n flags ≡ is_wanted requested last n

flag_at-no_flags : (size n : ℕ) → flag_at n (no_flags size) ≡ false
unfolding flag_at no_flags
flag_at-no_flags zero n = refl
flag_at-no_flags (suc size) zero = refl
flag_at-no_flags (suc size) (suc n) = flag_at-no_flags size n

length-no_flags : (size : ℕ) → length (no_flags size) ≡ size
unfolding no_flags
length-no_flags zero = refl
length-no_flags (suc size) = omega (arith, length-no_flags size)

mark_all-ok :
    (contents : Option Text) (marked flags : List Bool)
    → select_all true contents marked ≡ ok flags
    → (last : ℕ) × (last_capability contents ≡ ok last)
      × (last < width)
      × (mark_through last marked ≡ flags)
unfolding select_all
mark_all-ok contents marked flags h = elim (Result-cases (last_capability contents)) [
  | inl (x, bad) ↦ cc
  | inr (last, good) ↦ elim (Bool-cases (leb width last)) [
    | inl wide ↦ cc
    | inr fits ↦ (last, good, ground arith, cc)
  ]
]

select_all-ok :
    (all : Bool) (contents : Option Text) (marked flags : List Bool)
    → select_all all contents marked ≡ ok flags
    → (last : ℕ) × (length flags ≡ length marked)
      × (all ≡ true → (last_capability contents ≡ ok last) × (last < width))
      × ((n : ℕ) → n < length marked → flag_at n flags ≡ (flag_at n marked || (all && leb n last)))
select_all-ok false contents marked flags h =
    let e : marked ≡ flags = unfold select_all in cc in
    rw (← e) (0, refl, λ t. cc, λ n lt. ground arith)
select_all-ok true contents marked flags h =
    let (last, read, fits, e) = mark_all-ok contents marked flags h in
    rw (← e) (
      last,
      length-mark_through last marked,
      λ t. (read, fits),
      λ n lt. ground (arith, flag_at-mark_through last n marked lt),
    )

pub select-IsSelected :
    (k : CapKernel) (requested : List Text) (log : CapLog) (flags : List Bool)
    → select k requested log ≡ ok flags
    → IsSelected k requested log flags
unfolding select select_all is_wanted
select-IsSelected k requested log flags h =
    elim (Result-cases (select_requested requested (no_flags width) false)) [
      | inl (x, bad) ↦ cc
      | inr (chosen, good) ↦
          let m = select_requested-IsMarked requested _ false chosen.0 chosen.1 good in
          let (last, same, known, all) =
            select_all-ok chosen.1 (k.cap_last_cap log) chosen.0 flags cc in
          record {
            last = last;
            size = same ∙ m.same ∙ length-no_flags width;
            known = λ e. known (m.everything ∙ e);
            wanted = λ n lt. ground (
              arith,
              all n,
              m.everything,
              m.marked n,
              m.same,
              length-no_flags width,
              flag_at-no_flags width n,
            );
          }
    ]
