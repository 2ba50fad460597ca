-- ===== src/Security/Tests.antt =====
-- Runs of security/seccomp.go at concrete inputs. The numbers are those of Linux on amd64.
use Prim.Native.Nat.{ℕ}
use bcs_zc241t_study_project.Prelude.{
  true, ◌^◌, ◌%◌, ◌≡◌, ◌≢◌, ◌<◌, ◌≤◌, ◌↔◌, refl, List, [], ◌∷◌, ok, err, some, codes, arith,
  contains, length, Distinct,
}
use bcs_zc241t_study_project.Security.{
  Abi, Platform, SyscallNumbers, amd64, action_kill, instructions, build_filter,
  blocked_syscall_numbers, collect_numbers, number_of, action_to_return, listed_twice,
  guard_architecture, guard_x32, deny_numbers,
}
use bcs_zc241t_study_project.Security.Bpf.{SeccompData, run}
use bcs_zc241t_study_project.Security.Names.{Numbered, blocked_syscall_numbers_exact}
use bcs_zc241t_study_project.Security.Verdict.{policy, run-build_filter}
use bcs_zc241t_study_project.Security.Apply.{
  SeccompKernel, set_no_new_privs, load_filter, apply_seccomp_filter, IsApplied,
  apply_seccomp_filter-IsApplied, thread_not_synchronized,
}

abbrev linux : Abi
linux = record {
  ret_kill_process = 0x80000000;
  ret_trap = 0x30000;
  ret_allow = 0x7fff0000;
  max_insns = 4096;
}

abbrev numbers_amd64 : SyscallNumbers
numbers_amd64 = record {
  audit_arch = 0xc000003e;
  reboot = 169;
  mount = 165;
  ptrace = 101;
  swapon = 167;
  syslog = 103;
  init_module = 175;
  finit_module = 313;
  delete_module = 176;
  iopl = 172;
  ioperm = 173;
  kcmp = 312;
  process_vm_readv = 310;
  process_vm_writev = 311;
}

abbrev default_names : List (List ℕ)
default_names =
    codes "mount" ∷ codes "reboot" ∷ codes "ptrace" ∷ codes "swapon" ∷ codes "syslog" ∷ []

abbrev default_numbers : List ℕ
default_numbers = 165 ∷ 169 ∷ 101 ∷ 167 ∷ 103 ∷ []

abbrev host : Platform
unfolding amd64
host = amd64 numbers_amd64

abbrev mount_call : SeccompData
mount_call = record { nr = 165; arch = 0xc000003e }

twice_is_refused :
    blocked_syscall_numbers (amd64 numbers_amd64) (codes "kcmp" ∷ codes "kcmp" ∷ [])
    ≡ err (listed_twice (codes "kcmp"))
unfolding blocked_syscall_numbers collect_numbers number_of amd64 contains
twice_is_refused = refl

default_numbers_found :
    blocked_syscall_numbers (amd64 numbers_amd64) default_names ≡ ok default_numbers
unfolding blocked_syscall_numbers collect_numbers number_of amd64 contains
default_numbers_found = refl

default_filter_built :
    build_filter linux (amd64 numbers_amd64) action_kill default_names
    ≡ ok (instructions linux (amd64 numbers_amd64) 0x80000000 default_numbers)
unfolding build_filter blocked_syscall_numbers collect_numbers number_of amd64 contains
    action_to_return instructions guard_architecture guard_x32 deny_numbers
default_filter_built = refl

run-build_filter_example :
    (numbers : List ℕ) × (value : ℕ) × (blocked_syscall_numbers (amd64 numbers_amd64) default_names
      ≡ ok numbers)
    × (action_to_return linux action_kill ≡ ok value)
    × (run mount_call (instructions linux (amd64 numbers_amd64) 0x80000000 default_numbers) 0 0
        ≡ some (policy linux (amd64 numbers_amd64) value numbers mount_call))
    × (0 < length (instructions linux (amd64 numbers_amd64) 0x80000000 default_numbers))
    × (length (instructions linux (amd64 numbers_amd64) 0x80000000 default_numbers) ≤ 4096)
    × (length (instructions linux (amd64 numbers_amd64) 0x80000000 default_numbers) % 2 ^ 16
        ≡ length (instructions linux (amd64 numbers_amd64) 0x80000000 default_numbers))
run-build_filter_example =
    run-build_filter linux (amd64 numbers_amd64) action_kill default_names mount_call (omega arith)
      default_filter_built

blocked_syscall_numbers_exact_example :
    (blocked_syscall_numbers (amd64 numbers_amd64) default_names ≡ ok default_numbers) ↔ (
      ((amd64 numbers_amd64).audit_architecture ≢ 0)
      × Distinct default_names
      × Numbered (amd64 numbers_amd64) default_names default_numbers)
blocked_syscall_numbers_exact_example =
    blocked_syscall_numbers_exact (amd64 numbers_amd64) default_names default_numbers

abbrev willing : SeccompKernel
willing = record { no_new_privs = true; answer = λ program. record { errno = 0; result = 0 } }

default_filter_applied :
    apply_seccomp_filter willing linux (amd64 numbers_amd64) action_kill default_names ≡ (
      ok tt,
      load_filter 17 (instructions linux (amd64 numbers_amd64) 0x80000000 default_numbers)
          ∷ set_no_new_privs
          ∷ [],
    )
unfolding apply_seccomp_filter build_filter blocked_syscall_numbers amd64 collect_numbers number_of
    contains action_to_return instructions guard_architecture guard_x32 deny_numbers
default_filter_applied = refl

apply_seccomp_filter-IsApplied_example :
    IsApplied willing linux (amd64 numbers_amd64) action_kill default_names (
      load_filter 17 (instructions linux (amd64 numbers_amd64) 0x80000000 default_numbers)
      ∷ set_no_new_privs
      ∷ [])
apply_seccomp_filter-IsApplied_example =
    apply_seccomp_filter-IsApplied willing linux (amd64 numbers_amd64) action_kill default_names _
      (omega arith) default_filter_applied

-- A thread that does not take the filter is reported.
other_thread :
    (apply_seccomp_filter
      (record willing { answer = λ program. record { errno = 0; result = 41 } })
      linux
      (amd64 numbers_amd64)
      action_kill
      default_names).0
    ≡ err (thread_not_synchronized 41)
unfolding apply_seccomp_filter build_filter blocked_syscall_numbers amd64 collect_numbers number_of
    contains action_to_return instructions guard_architecture guard_x32 deny_numbers
other_thread = refl
