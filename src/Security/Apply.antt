-- ===== src/Security/Apply.antt =====
-- sandbox/sandbox/security/seccomp.go: `ApplySeccompFilter`. How the kernel answers the two calls is a
-- parameter.
use bcs_zc241t_study_project.Prelude.{
  ℕ, ◌^◌, ◌%◌, ◌<◌, ◌≡◌, refl, Bool, true, false, not, List, [], ◌∷◌, length, Result, ok, err, ◌==◌,
  if◌then◌else◌, arith, Result-cases, inl, inr, some,
}
use bcs_zc241t_study_project.Security.{
  Action, Abi, Platform, SockFilter, FilterError, build_filter, blocked_syscall_numbers,
  action_to_return,
}
use bcs_zc241t_study_project.Security.Bpf.{SeccompData, run}
use bcs_zc241t_study_project.Security.Verdict.{policy, run-build_filter}

-- What the filter's system call returns: an error number, 0 for none, and a result.
pub record Answer : Type 0 where
  pub errno : ℕ
  pub result : ℕ

-- `Prctl(PR_SET_NO_NEW_PRIVS, 1)`, and the loading of a program on all threads, whose length is passed
-- as 16 bits.
pub data SeccompCall : Type 0 where
  set_no_new_privs : SeccompCall
  load_filter : ℕ → List SockFilter → SeccompCall

pub record SeccompKernel : Type 0 where
  pub no_new_privs : Bool
  pub answer : List SockFilter → Answer

pub data ApplyError : Type 0 where
  not_built : FilterError → ApplyError
  no_new_privs_refused : ApplyError
  filter_refused thread_not_synchronized : ℕ → ApplyError

unfoldable pub judge_answer : Answer → Result ApplyError (Unit {0})
judge_answer a =
    if not (a.errno == 0)
    then err (filter_refused a.errno)
    else if not (a.result == 0)
    then err (thread_not_synchronized a.result)
    else ok tt

module _ (k : SeccompKernel) where
  -- The two calls: the result, and the calls made, the last one first.
  unfoldable pub load : Bool → List SockFilter → Result ApplyError (Unit {0}) × List SeccompCall
  unfolding judge_answer
  load false program = (err no_new_privs_refused, set_no_new_privs ∷ [])
  load true program = (
    judge_answer (k.answer program),
    load_filter (length program % 2 ^ 16) program ∷ set_no_new_privs ∷ [],
  )

  -- `ApplySeccompFilter`.
  unfoldable pub apply_seccomp_filter :
      Abi → Platform → Action → List (List ℕ) → Result ApplyError (Unit {0}) × List SeccompCall
  unfolding load
  apply_seccomp_filter abi p action names = elim (build_filter abi p action names) [
    | err e ↦ (err (not_built e), [])
    | ok program ↦ load k.no_new_privs program
  ]

-- What is in force when the filter is applied: the calls, in order, and what the program decides.
pub record IsApplied (k : SeccompKernel) (abi : Abi) (p : Platform) (action : Action)
    (names : List (List ℕ)) (calls : List SeccompCall) : Type 0 where
  pub program : List SockFilter
  pub numbers : List ℕ
  pub value : ℕ
  pub made : calls ≡ load_filter (length program) program ∷ set_no_new_privs ∷ []
  pub privileges : k.no_new_privs ≡ true
  pub accepted : ((k.answer program).errno ≡ 0) × ((k.answer program).result ≡ 0)
  pub denied : blocked_syscall_numbers p names ≡ ok numbers
  pub verdict : action_to_return abi action ≡ ok value
  pub decides : (d : SeccompData) → run d program 0 0 ≡ some (policy abi p value numbers d)

judge_answer-ok : (a : Answer) → judge_answer a ≡ ok tt → (a.errno ≡ 0) × (a.result ≡ 0)
unfolding judge_answer
judge_answer-ok a h = ground arith

load-ok :
    (k : SeccompKernel) (allowed : Bool) (program : List SockFilter) (calls : List SeccompCall)
    → load k allowed program ≡ (ok tt, calls)
    → (allowed ≡ true)
      × (judge_answer (k.answer program) ≡ ok tt)
      × (calls ≡ load_filter (length program % 2 ^ 16) program ∷ set_no_new_privs ∷ [])
unfolding load
load-ok k false program calls h = cc
load-ok k true program calls h = (refl, cc, cc)

-- If `ApplySeccompFilter` succeeds, where the kernel takes fewer than 2 ^ 16 instructions: new
-- privileges were given up first, then one program was loaded, at its whole length, and the kernel took
-- it without error and on every thread; and for every architecture and number the program decides as
-- the policy over the numbers of the configured names.
pub apply_seccomp_filter-IsApplied :
    (k : SeccompKernel) (abi : Abi) (p : Platform) (action : Action) (names : List (List ℕ))
    (calls : List SeccompCall)
    → abi.max_insns < 2 ^ 16
    → apply_seccomp_filter k abi p action names ≡ (ok tt, calls)
    → IsApplied k abi p action names calls
unfolding apply_seccomp_filter
apply_seccomp_filter-IsApplied k abi p action names calls fits h =
    elim (Result-cases (build_filter abi p action names)) [
      | inl (e, bad) ↦ cc
      | inr (program, built) ↦
          let (allowed, judged, made) = load-ok k k.no_new_privs program calls cc in
          let at = λ (d : SeccompData). run-build_filter abi p action names d fits built in
          let (numbers, value, en, ev, _, _, _, whole) = at (record { nr = 0; arch = 0 }) in
          record {
            program = program;
            numbers = numbers;
            value = value;
            made = rw (← whole) made;
            privileges = allowed;
            accepted = judge_answer-ok (k.answer program) judged;
            denied = en;
            verdict = ev;
            decides = λ d.
                let (_, _, en', ev', decided, _, _, _) =
                  run-build_filter abi p action names d fits built in
                cc;
          }
    ]
