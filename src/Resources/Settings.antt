-- ===== src/Resources/Settings.antt =====
-- What `prepareResourceLimits` of cgroup.go has written once it returns the limits.
use bcs_zc241t_study_project.Prelude.{
  ℕ, ◌-◌, ◌*◌, ◌/◌, ◌%◌, ◌^◌, ◌≡◌, refl, sym, ap, ◌∙◌, Bool, true, false, List, [], ◌∷◌, ◌++◌, ok,
  err, ltb, ◌==◌, if◌then◌else◌, arith, codes, Bool-cases, inl, inr,
}
use bcs_zc241t_study_project.Prelude.Int.{ℤ, pos_part}
use bcs_zc241t_study_project.Prelude.Run.{continue-eq-ok, ◌>>◌, lift}
use bcs_zc241t_study_project.Text.{Text}
use bcs_zc241t_study_project.Text.Decimal.{itoa_ℕ}
use bcs_zc241t_study_project.Paths.{join_paths}
use bcs_zc241t_study_project.Resources.Files.{
  Files, Log, written, Exec, CgroupError, write, settle, no_quota, memory_overflow, cannot_write,
}
use bcs_zc241t_study_project.Resources.Cgroup.{is_positive}
use bcs_zc241t_study_project.Resources.Lifecycle.{
  line, nothing, cpu_period, configure_quota, configure_memory, configure_processes, configure,
}

-- A control file of the cgroup, and its text.
abbrev pub Setting : Type 0
Setting = Text × Text

-- The settings, all written, on top of a log.
abbrev pub recorded : List Setting → Log → Log
recorded [] log = log
recorded ((path, text) ∷ ss) log = recorded ss (written path text true ∷ log)

abbrev setting : Text → Text → Text → Setting
setting path name value = (join_paths path name, line value)

-- The files of the cgroup: 1% of the CPU is 1000 of the 100000 microseconds of a period, and 1 GB is
-- 2^30 bytes.
abbrev pub settings : Text → ℤ → ℤ → ℤ → List Setting
settings path cpu memory processes =
    (if is_positive cpu
      then setting path (codes "cpu.max") (itoa_ℕ (1000 * pos_part cpu) ++ b' ' ∷ itoa_ℕ 100000)
        ∷ []
      else [])
    ++ ((if is_positive memory
          then setting path (codes "memory.max") (itoa_ℕ (pos_part memory * 2 ^ 30))
            ∷ setting path (codes "memory.swap.max") (codes "0")
            ∷ setting path (codes "memory.oom.group") (codes "1")
            ∷ []
          else [])
        ++ (if is_positive processes
            then setting path (codes "pids.max") (itoa_ℕ (pos_part processes)) ∷ []
            else []))

-- An action that, when it succeeds, has written these settings and no more.
record Writes (m : Exec (Unit {0})) (ss : List Setting) : Type 0 where
  pub at : (log log' : Log) → m log ≡ (ok tt, log') → log' ≡ recorded ss log

recorded-append :
    (ss ts : List Setting) (log : Log) → recorded (ss ++ ts) log ≡ recorded ts (recorded ss log)
recorded-append [] ts log = refl
recorded-append ((path, text) ∷ ss) ts log = recorded-append ss ts _

module _ (fs : Files) where
  Writes-nothing : Writes nothing []
  Writes-nothing = record { at = λ log log' h. cc }

  Writes-fail : (e : CgroupError) (ss : List Setting) → Writes (lift (err e)) ss
  Writes-fail e ss = record { at = λ log log' h. cc }

  settle_done :
      (b : Bool) (e : CgroupError) (path text : Text) (log log' : Log)
      → settle b e (written path text b) log ≡ (ok tt, log')
      → log' ≡ written path text true ∷ log
  settle_done true e path text log log' h = cc
  settle_done false e path text log log' h = cc

  Writes-write : (path text : Text) → Writes (write fs path text) ((path, text) ∷ [])
  unfolding write
  Writes-write path text = record {
    at = λ log log' h.
        settle_done (fs.can_write log path text) (cannot_write path) path text log log' h;
  }

  Writes-then :
      (m k : Exec (Unit {0})) (ss ts : List Setting)
      → Writes m ss
      → Writes k ts
      → Writes (m >> k) (ss ++ ts)
  Writes-then m k ss ts p q = record {
    at = λ log log' h.
        let (_, middle, first, rest) = continue-eq-ok (m log) (λ _. k) h in
        q.at middle log' rest
        ∙ ap (recorded ts) (p.at log middle first)
        ∙ sym (recorded-append ss ts log);
  }

  Writes-if :
      (b : Bool) (m k : Exec (Unit {0})) (ss ts : List Setting)
      → Writes m ss
      → Writes k ts
      → Writes (if b then m else k) (if b then ss else ts)
  Writes-if true m k ss ts p q = p
  Writes-if false m k ss ts p q = q

  Writes-quota :
      (path : Text) (n : ℕ)
      → Writes
          (configure_quota fs path n)
          (setting path (codes "cpu.max") (itoa_ℕ (1000 * n) ++ b' ' ∷ itoa_ℕ 100000) ∷ [])
  unfolding configure_quota
  Writes-quota path n =
      let quota : cpu_period * n / 100 ≡ 1000 * n = omega arith in
      rw quota (elim (Bool-cases (1000 * n == 0)) [
        | inl e ↦ rw e (Writes-fail no_quota _)
        | inr e ↦ rw e (Writes-write _ _)
      ])

  Writes-memory :
      (path : Text) (n : ℕ)
      → Writes (configure_memory fs path n) (
          setting path (codes "memory.max") (itoa_ℕ (n * 2 ^ 30))
          ∷ setting path (codes "memory.swap.max") (codes "0")
          ∷ setting path (codes "memory.oom.group") (codes "1")
          ∷ [])
  unfolding configure_memory
  Writes-memory path n = elim (Bool-cases (ltb ((2 ^ 64 - 1) / 2 ^ 30) n)) [
    | inl e ↦ rw e (Writes-fail memory_overflow _)
    | inr e ↦
        let exact : n * 2 ^ 30 % 2 ^ 64 ≡ n * 2 ^ 30 = ground arith in
        rw (e, exact)
          (Writes-then _ _ (_ ∷ []) (_ ∷ _ ∷ []) (Writes-write _ _)
            (Writes-then _ _ (_ ∷ []) (_ ∷ []) (Writes-write _ _) (Writes-write _ _)))
  ]

  Writes-processes :
      (path : Text) (n : ℕ)
      → Writes (configure_processes fs path n) (setting path (codes "pids.max") (itoa_ℕ n) ∷ [])
  unfolding configure_processes
  Writes-processes path n = Writes-write _ _

  configure-Writes :
      (path : Text) (cpu memory processes : ℤ)
      → Writes (configure fs path cpu memory processes) (settings path cpu memory processes)
  unfolding configure
  configure-Writes path cpu memory processes =
      Writes-then _ _ _ _
        (Writes-if (is_positive cpu) _ _ _ [] (Writes-quota path (pos_part cpu)) Writes-nothing)
        (Writes-then _ _ _ _
          (Writes-if (is_positive memory) _ _ _ [] (Writes-memory path (pos_part memory))
            Writes-nothing)
          (Writes-if (is_positive processes) _ _ _ [] (Writes-processes path (pos_part processes))
            Writes-nothing))

  pub configure_writes :
      (path : Text) (cpu memory processes : ℤ) (log log' : Log)
      → configure fs path cpu memory processes log ≡ (ok tt, log')
      → log' ≡ recorded (settings path cpu memory processes) log
  configure_writes path cpu memory processes = (configure-Writes path cpu memory processes).at
