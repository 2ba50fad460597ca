-- ===== src/Resources/Prepared.antt =====
-- The whole of `prepareResourceLimits` of cgroup.go, where it returns limits.
use bcs_zc241t_study_project.Prelude.{
  ℕ, ◌≡◌, sym, ap, ◌∙◌, Bool, true, false, not, ◌&&◌, ◌||◌, Option, none, some, Option-cases, ◌∷◌,
  ◌++◌, Result, ok, err, ◌==◌, if◌then◌else◌, arith, codes, inl, inr, reject,
}
use bcs_zc241t_study_project.Prelude.Int.{ℤ, pos, is_negative, ltb_ℤ}
use bcs_zc241t_study_project.Prelude.Run.{continue-eq-ok, ◌>>=◌, lift}
use bcs_zc241t_study_project.Text.{Text}
use bcs_zc241t_study_project.Paths.{is_abs, elements, join_paths}
use bcs_zc241t_study_project.Resources.Files.{
  Files, Log, made, Exec, CgroupError, answer, read, file_unreadable, cpu_out_of_range,
  memory_negative, processes_negative, not_cgroup2,
}
use bcs_zc241t_study_project.Resources.Cgroup.{
  requested_controllers, check_controllers, parse_unified_cgroup_path,
  resolve_delegated_cgroup_path,
}
use bcs_zc241t_study_project.Resources.Delegation.{delegated_path-IsBelow}
use bcs_zc241t_study_project.Resources.Settings.{recorded, settings, configure_writes}
use bcs_zc241t_study_project.Resources.Lifecycle.{
  ResourceLimits, configure, conclude, provision, create, filesystem_type, find_delegation,
  prepare_resource_limits, is_zero,
}

-- What limits that were returned rest on.
pub record IsPrepared (fs : Files) (cpu memory processes : ℤ) (proc mount : Text) (log log' : Log)
    (path : Text) : Type 0 where
  pub proc_data : Text
  pub relative : Text
  pub delegated : Text
  pub proc_read : fs.read_file log proc ≡ some proc_data
  pub entry : parse_unified_cgroup_path proc_data ≡ ok relative
  pub below_mount : elements delegated ≡ elements mount ++ elements relative
  pub created : fs.mkdir_temp log delegated (codes "sandbox-") ≡ some path
  pub changes : log' ≡ recorded (settings path cpu memory processes) (made path ∷ log)

module _ (fs : Files) where
  answer-eq-ok :
      {A : Type 0} (o : Option A) (e : CgroupError) (a : A) → answer o e ≡ ok a → o ≡ some a
  answer-eq-ok none e a h = cc
  answer-eq-ok (some a) e b h = cc

  read-eq-ok :
      (path text : Text) (log log' : Log)
      → read fs path log ≡ (ok text, log')
      → (fs.read_file log path ≡ some text) × (log' ≡ log)
  unfolding read
  read-eq-ok path text log log' h = (
    answer-eq-ok (fs.read_file log path) (file_unreadable path) text (ap (λ p. p.0) h),
    sym (ap (λ p. p.1) h),
  )

  type-eq-ok :
      (path : Text) (n : ℕ) (log log' : Log)
      → filesystem_type fs path log ≡ (ok n, log')
      → log' ≡ log
  unfolding filesystem_type
  type-eq-ok path n log log' h = sym (ap (λ p. p.1) h)

  lift-eq-ok :
      {A : Type 0} (r : Result CgroupError A) (a : A) (log log' : Log)
      → lift r log ≡ (ok a, log')
      → (r ≡ ok a) × (log' ≡ log)
  lift-eq-ok r a log log' h = (ap (λ p. p.0) h, sym (ap (λ p. p.1) h))

  find_delegation-eq-ok :
      (cpu memory processes : ℤ) (proc mount delegated : Text) (log log' : Log)
      → find_delegation fs cpu memory processes proc mount log ≡ (ok delegated, log')
      → (proc_data : Text) × (relative : Text) × (fs.read_file log proc ≡ some proc_data)
        × (parse_unified_cgroup_path proc_data ≡ ok relative)
        × (resolve_delegated_cgroup_path mount relative ≡ ok delegated)
        × (log' ≡ log)
  unfolding find_delegation
  find_delegation-eq-ok cpu memory processes proc mount delegated log log' h =
      let (proc_data, l₁, a, r₁) = continue-eq-ok (read fs proc log) _ h in
      let (relative, l₂, b, r₂) =
        continue-eq-ok (lift (parse_unified_cgroup_path proc_data) l₁) _ r₁ in
      let (d, l₃, c, r₃) =
        continue-eq-ok (lift (resolve_delegated_cgroup_path mount relative) l₂) _ r₂ in
      let (kind, l₄, e, r₄) = continue-eq-ok (filesystem_type fs d l₃) _ r₃ in
      let (_, l₅, f, r₅) =
        continue-eq-ok (lift (reject (not (kind == fs.cgroup2_magic)) not_cgroup2) l₄) _ r₄ in
      let (cs, l₆, g, r₆) =
        continue-eq-ok (read fs (join_paths d (codes "cgroup.controllers")) l₅) _ r₅ in
      let (ss, l₇, i, r₇) =
        continue-eq-ok (read fs (join_paths d (codes "cgroup.subtree_control")) l₆) _ r₆ in
      let (_, l₈, j, r₈) =
        continue-eq-ok
          (lift (check_controllers cs ss (requested_controllers cpu memory processes)) l₇) _ r₇ in
      let (read_proc, s₁) = read-eq-ok proc proc_data log l₁ a in
      let (parsed, s₂) = lift-eq-ok (parse_unified_cgroup_path proc_data) relative l₁ l₂ b in
      let (resolved, s₃) = lift-eq-ok (resolve_delegated_cgroup_path mount relative) d l₂ l₃ c in
      let s₄ = type-eq-ok d kind l₃ l₄ e in
      let (_, s₆) = read-eq-ok _ cs l₅ l₆ g in
      let (_, s₇) = read-eq-ok _ ss l₆ l₇ i in
      let (same, s₈) = lift-eq-ok (ok d) delegated l₈ log' r₈ in
      (
        proc_data,
        relative,
        read_proc,
        parsed,
        resolved ∙ same,
        s₈
            ∙ (lift-eq-ok _ tt l₇ l₈ j).1
            ∙ s₇
            ∙ s₆
            ∙ (lift-eq-ok _ tt l₄ l₅ f).1
            ∙ s₄
            ∙ s₃
            ∙ s₂
            ∙ s₁,
      )

  conclude-eq-ok :
      (path : Text) (q : Result CgroupError (Unit {0}) × Log) (limits : ResourceLimits) (log' : Log)
      → conclude fs path q ≡ (ok (some limits), log')
      → (path ≡ limits.path) × (q ≡ (ok tt, log'))
  unfolding conclude
  conclude-eq-ok path (ok _, log) limits log' h = (cc, cc)
  conclude-eq-ok path (err e, log) limits log' h = cc

  create-eq-ok :
      (cpu memory processes : ℤ) (delegated : Text) (limits : ResourceLimits) (log log' : Log)
      → create fs cpu memory processes delegated log ≡ (ok (some limits), log')
      → (fs.mkdir_temp log delegated (codes "sandbox-") ≡ some limits.path)
        × (log' ≡ recorded (settings limits.path cpu memory processes) (made limits.path ∷ log))
  unfolding create provision
  create-eq-ok cpu memory processes delegated limits log log' h =
      elim (Option-cases (fs.mkdir_temp log delegated (codes "sandbox-"))) [
        | inl none_made ↦ absurd (ground arith)
        | inr (path, some_made) ↦
            let (same, configured) =
              conclude-eq-ok path (configure fs path cpu memory processes (made path ∷ log)) limits
                log' (ground arith) in
            let changes =
              configure_writes fs path cpu memory processes (made path ∷ log) log' configured in
            (
              some_made ∙ ap some same,
              changes ∙ ap (λ p. recorded (settings p cpu memory processes) (made p ∷ log)) same,
            )
      ]

  refused_not :
      (b : Bool) (e : CgroupError) (k : Exec (Option ResourceLimits)) (limits : ResourceLimits)
      (log log' : Log)
      → (if b then lift (err e) else k) log ≡ (ok (some limits), log')
      → k log ≡ (ok (some limits), log')
  refused_not true e k limits log log' h = cc
  refused_not false e k limits log log' h = h

  skipped_not :
      (b : Bool) (k : Exec (Option ResourceLimits)) (limits : ResourceLimits) (log log' : Log)
      → (if b then lift (ok none) else k) log ≡ (ok (some limits), log')
      → k log ≡ (ok (some limits), log')
  skipped_not true k limits log log' h = cc
  skipped_not false k limits log log' h = h

  not_stopped :
      (cpu memory processes : ℤ) (proc mount : Text) (limits : ResourceLimits) (log log' : Log)
      → prepare_resource_limits fs cpu memory processes proc mount log ≡ (ok (some limits), log')
      → (find_delegation fs cpu memory processes proc mount >>= create fs cpu memory processes) log
        ≡ (ok (some limits), log')
  unfolding prepare_resource_limits
  not_stopped cpu memory processes proc mount limits log log' h =
      let k =
        find_delegation fs cpu memory processes proc mount >>= create fs cpu memory processes in
      skipped_not (is_zero cpu && is_zero memory && is_zero processes) k limits log log' (
        refused_not (is_negative processes) processes_negative _ limits log log' (
          refused_not (is_negative memory) memory_negative _ limits log log' (
            refused_not (is_negative cpu || ltb_ℤ (pos 100) cpu) cpu_out_of_range _ limits log log'
              h)))

-- If `prepareResourceLimits` returns limits, under an absolute mount point: their directory was made by
-- `MkdirTemp` in the directory below the mount point that `/proc/self/cgroup` names, and the changes
-- are that directory, then exactly the settings of the limits that are not zero, in order, each
-- written with success: the quota, the bytes without wrap-around, no swap, the kill of the whole group, and the count.
pub prepare_resource_limits-IsPrepared :
    (fs : Files) (cpu memory processes : ℤ) (proc mount : Text) (log log' : Log)
    (limits : ResourceLimits)
    → is_abs mount ≡ true
    → prepare_resource_limits fs cpu memory processes proc mount log ≡ (ok (some limits), log')
    → IsPrepared fs cpu memory processes proc mount log log' limits.path
prepare_resource_limits-IsPrepared fs cpu memory processes proc mount log log' limits a h =
    let (delegated, middle, found, rest) =
      continue-eq-ok (find_delegation fs cpu memory processes proc mount log)
        (create fs cpu memory processes)
        (not_stopped fs cpu memory processes proc mount limits log log' h) in
    let (proc_data, relative, proc_read, entry, resolved, still) =
      find_delegation-eq-ok fs cpu memory processes proc mount delegated log middle found in
    let (d, resolved', below) = delegated_path-IsBelow proc_data mount relative a entry in
    let (created, changes) =
      create-eq-ok fs cpu memory processes delegated limits middle log' rest in
    record {
      proc_data = proc_data;
      relative = relative;
      delegated = delegated;
      proc_read = proc_read;
      entry = entry;
      below_mount = ground (arith, resolved, resolved', below);
      created = ap (λ l. fs.mkdir_temp l delegated (codes "sandbox-")) (sym still) ∙ created;
      changes =
          changes
          ∙ ap (λ l. recorded (settings limits.path cpu memory processes) (made limits.path ∷ l))
              still;
    }
