-- ===== src/Isolation/Staged.antt =====
-- The clean-up of the staging directory of isolation.go.
use bcs_zc241t_study_project.Prelude.{
  ◌≡◌, refl, ap, ◌∙◌, sym, Bool, true, false, Option, none, some, ◌==◌, ==_iff, List, [], ◌∷◌, ◌++◌,
  Result, ok, err, arith, Bool-cases, inl, inr,
}
use bcs_zc241t_study_project.Text.{Text}
use bcs_zc241t_study_project.Isolation.Calls.{
  enoent, Fd, Errno, Call, close, unmount, settle, remove_directory, Log, Kernel, FsError, perform,
}
use bcs_zc241t_study_project.Isolation.Targets.{is_errno}
use bcs_zc241t_study_project.Isolation.Stage.{
  Stage, fresh_stage, errors_of, close_owned_fd, detach, after_remove, remove_stage, cleanup,
}

append-eq-nil : {A : Type 0} (xs ys : List A) → xs ++ ys ≡ [] → (xs ≡ []) × (ys ≡ [])
append-eq-nil [] ys h = (refl, h)
append-eq-nil (x ∷ xs) ys h = cc

-- A call without an error, or a removal of what is missing.
abbrev pub IsFine : Option Errno → Call → Type 0
IsFine none c = Unit
IsFine (some e) (remove_directory path) = e ≡ enoent
IsFine (some e) c = ⊥

-- From one log to the other, these calls were made, in this order and without an error.
unfoldable pub Made : Kernel → List Call → Log → Log → Type 0
Made k [] log log' = log' ≡ log
Made k (c ∷ calls) log log' =
    IsFine (k.answer log c) c × Made k calls (record { call = c; opened = none } ∷ log) log'

abbrev pub closing : Option Fd → List Call
closing none = []
closing (some fd) = close fd ∷ []

abbrev pub unmounting : Bool → Text → List Call
unmounting false path = []
unmounting true path = unmount path ∷ []

abbrev pub removing : Text → List Call
removing [] = []
removing (c ∷ path) = remove_directory (c ∷ path) ∷ []

-- All that there is to clean up.
abbrev pub cleaning : Stage → List Call
cleaning s =
    unmounting s.attached s.path
    ++ (closing s.upper_fd
        ++ (closing s.work_fd
            ++ (closing s.lower_fd
                ++ (closing s.stage_fd ++ (closing s.staging_mount ++ removing s.path)))))

module _ (k : Kernel) where
  Made-append :
      (first later : List Call) (j log log' : Log)
      → Made k first j log
      → Made k later log log'
      → Made k (first ++ later) j log'
  unfolding Made
  Made-append [] later j log log' p q = rw (← p) q
  Made-append (c ∷ first) later j log log' (fine, p) q =
      (fine, Made-append first later _ log log' p q)

  close_owned_fd-Made :
      (fd : Option Fd) (log : Log)
      → (close_owned_fd k fd log).0 ≡ []
      → Made k (closing fd) log (close_owned_fd k fd log).1
  unfolding Made close_owned_fd perform
  close_owned_fd-Made none log h = refl
  close_owned_fd-Made (some fd) log h = answered_close (k.answer log (close fd)) h
    where
      answered_close :
          (a : Option Errno)
          → (errors_of (settle k a (close fd) log)).0 ≡ []
          → IsFine a (close fd)
            × ((errors_of (settle k a (close fd) log)).1
                ≡ record { call = close fd; opened = none } ∷ log)
      answered_close none h = (tt, refl)
      answered_close (some e) h = cc

  detach-Made :
      (attached : Bool) (path : Text) (log : Log)
      → (detach k attached path log).1 ≡ []
      → Made k (unmounting attached path) log (detach k attached path log).2
  unfolding Made detach perform
  detach-Made false path log h = refl
  detach-Made true path log h = answered_unmount (k.answer log (unmount path)) h
    where
      answered_unmount :
          (a : Option Errno)
          → (errors_of (settle k a (unmount path) log)).0 ≡ []
          → IsFine a (unmount path)
            × ((errors_of (settle k a (unmount path) log)).1
                ≡ record { call = unmount path; opened = none } ∷ log)
      answered_unmount none h = (tt, refl)
      answered_unmount (some e) h = cc

  remove_stage-Made :
      (attached : Bool) (path : Text) (log : Log)
      → attached ≡ false
      → (remove_stage k attached path log).1 ≡ []
      → Made k (removing path) log (remove_stage k attached path log).2
  unfolding Made remove_stage perform
  remove_stage-Made true path log off h = cc
  remove_stage-Made false [] log off h = refl
  remove_stage-Made false (c ∷ path) log off h =
      answered_removal (k.answer log (remove_directory (c ∷ path))) h
    where
      answered_removal :
          (a : Option Errno)
          → (after_remove k (c ∷ path) (settle k a (remove_directory (c ∷ path)) log)).1 ≡ []
          → IsFine a (remove_directory (c ∷ path))
            × ((after_remove k (c ∷ path) (settle k a (remove_directory (c ∷ path)) log)).2
                ≡ record { call = remove_directory (c ∷ path); opened = none } ∷ log)
      answered_removal none h = (tt, refl)
      answered_removal (some e) h = elim (Bool-cases (e == enoent)) [
        | inl missing ↦ rw missing ((==_iff e enoent).0 missing, refl)
        | inr other ↦ ground arith
      ]

  detach-done :
      (attached : Bool) (path : Text) (log : Log)
      → (detach k attached path log).1 ≡ []
      → (detach k attached path log).0 ≡ false
  unfolding detach
  detach-done false path log h = refl
  detach-done true path log h = rw h refl

  removed :
      (path : Text) (r : Result FsError (Unit {0})) (log : Log)
      → (after_remove k path (r, log)).1 ≡ []
      → (after_remove k path (r, log)).0 ≡ []
  removed path (ok _) log h = refl
  removed path (err e) log h = elim (Bool-cases (is_errno enoent e)) [
    | inl missing ↦ rw missing refl
    | inr other ↦ ground arith
  ]

  remove_stage-done :
      (attached : Bool) (path : Text) (log : Log)
      → attached ≡ false
      → (remove_stage k attached path log).1 ≡ []
      → (remove_stage k attached path log).0 ≡ []
  unfolding remove_stage
  remove_stage-done true path log off h = cc
  remove_stage-done false [] log off h = refl
  remove_stage-done false (c ∷ path) log off h =
      let removing = perform k (remove_directory (c ∷ path)) log in
      removed (c ∷ path) removing.0 removing.1 h

  -- A clean-up without errors has made these calls and no other: it has unmounted the directory if a mount
  -- was attached, closed every descriptor of the stage, and removed the directory if there was one, none
  -- of them with an error but that the directory is missing. It leaves nothing to clean up, so that another
  -- clean-up makes no call and reports nothing.
  pub cleanup-cleanup :
      (s left : Stage) (log log' again : Log)
      → cleanup k s log ≡ (left, [], log')
      → Made k (cleaning s) log log'
        × (left ≡ fresh_stage [])
        × (cleanup k left again ≡ (left, [], again))
  unfolding cleanup close_owned_fd
  cleanup-cleanup s left log log' again h =
      let (attached, e₁, l₁) = detach k s.attached s.path log in
      let (e₂, l₂) = close_owned_fd k s.upper_fd l₁ in
      let (e₃, l₃) = close_owned_fd k s.work_fd l₂ in
      let (e₄, l₄) = close_owned_fd k s.lower_fd l₃ in
      let (e₅, l₅) = close_owned_fd k s.stage_fd l₄ in
      let (e₆, l₆) = close_owned_fd k s.staging_mount l₅ in
      let (path, e₇, l₇) = remove_stage k attached s.path l₆ in
      let errors : e₁ ++ (e₂ ++ (e₃ ++ (e₄ ++ (e₅ ++ (e₆ ++ e₇))))) ≡ [] = ap (λ r. r.1) h in
      let (z₁, r₁) = append-eq-nil e₁ _ errors in
      let (z₂, r₂) = append-eq-nil e₂ _ r₁ in
      let (z₃, r₃) = append-eq-nil e₃ _ r₂ in
      let (z₄, r₄) = append-eq-nil e₄ _ r₃ in
      let (z₅, r₅) = append-eq-nil e₅ _ r₄ in
      let (z₆, z₇) = append-eq-nil e₆ _ r₅ in
      let off : attached ≡ false = detach-done s.attached s.path log z₁ in
      let gone : path ≡ [] = remove_stage-done attached s.path l₆ off z₇ in
      let kept : left ≡ record (fresh_stage path) { attached = attached } = ap (λ r. r.0) (sym h) in
      let same : left ≡ fresh_stage [] =
        kept
        ∙ (ap (λ p. record (fresh_stage p) { attached = attached }) gone)
        ∙ ap (λ b. record (fresh_stage []) { attached = b }) off in
      let made : Made k (cleaning s) log l₇ =
        Made-append _ _ log l₁ l₇ (detach-Made s.attached s.path log z₁) (
          Made-append _ _ l₁ l₂ l₇ (close_owned_fd-Made s.upper_fd l₁ z₂) (
            Made-append _ _ l₂ l₃ l₇ (close_owned_fd-Made s.work_fd l₂ z₃) (
              Made-append _ _ l₃ l₄ l₇ (close_owned_fd-Made s.lower_fd l₃ z₄) (
                Made-append _ _ l₄ l₅ l₇ (close_owned_fd-Made s.stage_fd l₄ z₅) (
                  Made-append _ _ l₅ l₆ l₇ (close_owned_fd-Made s.staging_mount l₅ z₆)
                    (remove_stage-Made attached s.path l₆ off z₇)))))) in
      (rw (← ap (λ r. r.2) h) made, same, rw same refl)
