-- ===== src/Security/Verdict.antt =====
-- The filter of security/seccomp.go, run by the machine of Bpf.antt.
use Prim.Native.Nat.{bit_and}
use bcs_zc241t_study_project.Prelude.{
  ℕ, ◌≤◌, ◌<◌, ◌%◌, ◌^◌, ◌≡◌, refl, Bool, false, not, ◌&&◌, ◌||◌, some, List, [], ◌∷◌, ◌++◌, ok,
  err, ltb, ◌==◌, if◌then◌else◌, length, arith, >>=-eq-ok,
}
use bcs_zc241t_study_project.Security.{
  Abi, Platform, Action, SockFilter, return, guard_architecture, guard_x32, deny_numbers,
  instructions, build_filter, blocked_syscall_numbers, action_to_return, invalid_count,
}
use bcs_zc241t_study_project.Security.Bpf.{SeccompData, run}

-- The numbers among which the policy looks the system call up.
abbrev pub among : ℕ → List ℕ → Bool
among n [] = false
among n (m ∷ ms) = n == m || among n ms

-- The policy: a foreign architecture and the x32 interface are killed, a blocked number gets the
-- configured action, all else is allowed.
abbrev pub policy : Abi → Platform → ℕ → List ℕ → SeccompData → ℕ
policy abi p action numbers d =
    if not (d.arch == p.audit_architecture)
    then abi.ret_kill_process
    else if not (p.x32_abi_bit == 0) && not (bit_and d.nr p.x32_abi_bit == 0)
    then abi.ret_kill_process
    else if among d.nr numbers
    then action
    else abi.ret_allow

run-deny_numbers :
    (d : SeccompData) (action allow : ℕ) (numbers : List ℕ) (a : ℕ)
    → run d (deny_numbers action numbers ++ return allow ∷ []) 0 a
      ≡ some (if among a numbers then action else allow)
unfolding run deny_numbers
run-deny_numbers d action allow [] a = refl
run-deny_numbers d action allow (n ∷ numbers) a =
    ground (arith, run-deny_numbers d action allow numbers a)

run-guards :
    (abi : Abi) (p : Platform) (d : SeccompData) (rest : List SockFilter)
    → run d (guard_architecture abi p ++ (guard_x32 abi p ++ rest)) 0 0 ≡ (
        if not (d.arch == p.audit_architecture)
        then some abi.ret_kill_process
        else if not (p.x32_abi_bit == 0) && not (bit_and d.nr p.x32_abi_bit == 0)
        then some abi.ret_kill_process
        else run d rest 0 d.nr)
unfolding run guard_architecture guard_x32
run-guards abi p d rest = ground arith

run-instructions :
    (abi : Abi) (p : Platform) (action : ℕ) (numbers : List ℕ) (d : SeccompData)
    → run d (instructions abi p action numbers) 0 0 ≡ some (policy abi p action numbers d)
unfolding instructions
run-instructions abi p action numbers d = ground (
  arith,
  run-guards abi p d (deny_numbers action numbers ++ return abi.ret_allow ∷ []),
  run-deny_numbers d action abi.ret_allow numbers d.nr,
)

counted :
    (built : List SockFilter) (most : ℕ) {program : List SockFilter}
    → (if length built == 0 || ltb most (length built)
        then err (invalid_count (length built))
        else ok built)
      ≡ ok program
    → (program ≡ built) × (0 < length program) × (length program ≤ most)
counted [] most h = ground arith
counted (i ∷ built) most h = ground arith

-- What `buildFilter` returns is the program of the collected numbers, within the kernel's bound.
build_filter-eq-ok :
    (abi : Abi) (p : Platform) (action : Action) (names : List (List ℕ)) {program : List SockFilter}
    → build_filter abi p action names ≡ ok program
    → (numbers : List ℕ) × (value : ℕ) × (blocked_syscall_numbers p names ≡ ok numbers)
      × (action_to_return abi action ≡ ok value)
      × (program ≡ instructions abi p value numbers)
      × (0 < length program)
      × (length program ≤ abi.max_insns)
unfolding build_filter
build_filter-eq-ok abi p action names {program} h =
    let (numbers, en, h') = >>=-eq-ok (blocked_syscall_numbers p names) _ h in
    let (value, ev, h'') = >>=-eq-ok (action_to_return abi action) _ h' in
    let (e, lo, hi) = counted (instructions abi p value numbers) abi.max_insns h'' in
    (numbers, value, en, ev, e, lo, hi)

-- If `buildFilter` accepts an action and names, these name system calls with known numbers and the
-- action has a return value, and for every architecture and number the filter that it returns
-- decides as the policy over those numbers. The filter has at least one instruction, at most
-- `max_insns`, and its count is not cut by `uint16` while that bound is below 2 ^ 16.
pub run-build_filter :
    (abi : Abi) (p : Platform) (action : Action) (names : List (List ℕ)) (d : SeccompData)
    {program : List SockFilter}
    → abi.max_insns < 2 ^ 16
    → build_filter abi p action names ≡ ok program
    → (numbers : List ℕ) × (value : ℕ) × (blocked_syscall_numbers p names ≡ ok numbers)
      × (action_to_return abi action ≡ ok value)
      × (run d program 0 0 ≡ some (policy abi p value numbers d))
      × (0 < length program)
      × (length program ≤ abi.max_insns)
      × (length program % 2 ^ 16 ≡ length program)
run-build_filter abi p action names d fits h =
    let (numbers, value, en, ev, e, lo, hi) = build_filter-eq-ok abi p action names h in
    (numbers, value, en, ev, rw e (run-instructions abi p value numbers d), lo, hi, grind arith)
