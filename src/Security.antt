-- ===== src/Security.antt =====
-- sandbox/sandbox/security/seccomp.go and seccomp_arch_amd64.go: the seccomp filter, from the
-- configured names to the instructions handed to the kernel. The numbers of `golang.org/x/sys/unix`
-- are fields of `Abi` and `SyscallNumbers`.
pub mod Bpf
pub mod Names
pub mod Verdict
pub mod Apply
mod Tests
use bcs_zc241t_study_project.Prelude.{
  ℕ, ◌+◌, ◌^◌, ◌%◌, ◌≡◌, refl, Bool, true, false, not, ◌||◌, Option, none, some, List, [], ◌∷◌,
  ◌++◌, Result, ok, err, wrap, reject, ◌>>=◌, ◌>>◌, ltb, ◌==◌, ◌=?◌, contains, if◌then◌else◌,
  length, codes,
}

-- `config.SeccompAction`, a string type.
abbrev pub Action : Type 0
Action = List ℕ

abbrev pub action_kill : Action
action_kill = codes "kill"

abbrev pub action_trap : Action
action_trap = codes "trap"

-- The constants of the kernel interface that the filter is made of.
pub record Abi : Type 0 where
  pub ret_kill_process : ℕ
  pub ret_trap : ℕ
  pub ret_allow : ℕ
  pub max_insns : ℕ

-- The build-tagged registry: `auditArchitecture`, `x32ABIBit` and `syscallNameToNumber`.
pub record Platform : Type 0 where
  pub audit_architecture : ℕ
  pub x32_abi_bit : ℕ
  pub syscall_number : List ℕ → Option ℕ

pub record SyscallNumbers : Type 0 where
  pub audit_arch : ℕ
  pub reboot : ℕ
  pub mount : ℕ
  pub ptrace : ℕ
  pub swapon : ℕ
  pub syslog : ℕ
  pub init_module : ℕ
  pub finit_module : ℕ
  pub delete_module : ℕ
  pub iopl : ℕ
  pub ioperm : ℕ
  pub kcmp : ℕ
  pub process_vm_readv : ℕ
  pub process_vm_writev : ℕ

pub lookup : List ℕ → List (List ℕ × ℕ) → Option ℕ
lookup k [] = none
lookup k ((j, v) ∷ m) = if j =? k then some v else lookup k m

unfoldable pub amd64 : SyscallNumbers → Platform
unfolding lookup ◌=?◌
amd64 s = record {
  audit_architecture = s.audit_arch;
  x32_abi_bit = 2 ^ 30;
  syscall_number = λ name. lookup name (
      (codes "reboot", s.reboot)
      ∷ (codes "mount", s.mount)
      ∷ (codes "ptrace", s.ptrace)
      ∷ (codes "swapon", s.swapon)
      ∷ (codes "syslog", s.syslog)
      ∷ (codes "init_module", s.init_module)
      ∷ (codes "finit_module", s.finit_module)
      ∷ (codes "delete_module", s.delete_module)
      ∷ (codes "iopl", s.iopl)
      ∷ (codes "ioperm", s.ioperm)
      ∷ (codes "kcmp", s.kcmp)
      ∷ (codes "process_vm_readv", s.process_vm_readv)
      ∷ (codes "process_vm_writev", s.process_vm_writev)
      ∷ []);
}

pub data FilterError : Type 0 where
  invalid_action unsupported_architecture : FilterError
  listed_twice unavailable : List ℕ → FilterError
  invalid_count : ℕ → FilterError

-- The operation codes that the filter uses: load a word, jump if equal, jump if set, return.
pub data Op : Type 0 where
  ld_w_abs jeq_k jset_k ret_k : Op

-- `unix.SockFilter`.
pub record SockFilter : Type 0 where
  pub code : Op
  pub jt : ℕ
  pub jf : ℕ
  pub k : ℕ

abbrev pub seccomp_data_arch_offset : ℕ
seccomp_data_arch_offset = 4

abbrev pub seccomp_data_nr_offset : ℕ
seccomp_data_nr_offset = 0

module _ (abi : Abi) where
  unfoldable pub action_to_return : Action → Result FilterError ℕ
  action_to_return action =
      if action =? action_kill
      then ok abi.ret_kill_process
      else if action =? action_trap
      then ok abi.ret_trap
      else err invalid_action

module _ (p : Platform) where
  unfoldable pub validate_architecture : Result FilterError (Unit {0})
  validate_architecture = reject (p.audit_architecture == 0) unsupported_architecture

  -- The number of one name, with the two refusals of the loop.
  unfoldable pub number_of : List (List ℕ) → List ℕ → Result FilterError ℕ
  number_of seen name =
      if contains seen name
      then err (listed_twice name)
      else elim (p.syscall_number name) [ none ↦ err (unavailable name) | some nr ↦ ok nr ]

  -- The loop of `blockedSyscallNumbers`, over the names seen and the numbers collected.
  unfoldable pub collect_numbers :
      List (List ℕ) → List (List ℕ) → List ℕ → Result FilterError (List ℕ)
  collect_numbers [] seen result = ok result
  collect_numbers (name ∷ names) seen result =
      number_of seen name >>= λ nr. collect_numbers names (name ∷ seen) (result ++ nr ∷ [])

  unfoldable pub blocked_syscall_numbers : List (List ℕ) → Result FilterError (List ℕ)
  unfolding validate_architecture
  blocked_syscall_numbers names = validate_architecture >> collect_numbers names [] []

  unfoldable pub validate_syscall_names : List (List ℕ) → Result FilterError (Unit {0})
  validate_syscall_names names = do _ ← blocked_syscall_numbers names; ok tt

-- One instruction without jumps.
abbrev pub load : ℕ → SockFilter
load offset = record { code = ld_w_abs; jt = 0; jf = 0; k = offset }

abbrev pub return : ℕ → SockFilter
return value = record { code = ret_k; jt = 0; jf = 0; k = value }

unfoldable pub deny_numbers : ℕ → List ℕ → List SockFilter
deny_numbers action [] = []
deny_numbers action (number ∷ numbers) =
    record { code = jeq_k; jt = 0; jf = 1; k = number }
    ∷ return action
    ∷ deny_numbers action numbers

module _ (abi : Abi) (p : Platform) where
  unfoldable pub guard_architecture : List SockFilter
  guard_architecture =
      load seccomp_data_arch_offset
      ∷ record { code = jeq_k; jt = 1; jf = 0; k = p.audit_architecture }
      ∷ return abi.ret_kill_process
      ∷ load seccomp_data_nr_offset
      ∷ []

  unfoldable pub guard_x32 : List SockFilter
  guard_x32 =
      if not (p.x32_abi_bit == 0)
      then record { code = jset_k; jt = 0; jf = 1; k = p.x32_abi_bit }
        ∷ return abi.ret_kill_process
        ∷ []
      else []

  unfoldable pub instructions : ℕ → List ℕ → List SockFilter
  instructions action numbers =
      guard_architecture
      ++ (guard_x32 ++ (deny_numbers action numbers ++ return abi.ret_allow ∷ []))

  unfoldable pub build_filter : Action → List (List ℕ) → Result FilterError (List SockFilter)
  build_filter action names = do
    numbers ← blocked_syscall_numbers p names
    return_action ← action_to_return abi action
    let program = instructions return_action numbers
    let count = length program
    if count == 0 || ltb abi.max_insns count then err (invalid_count count) else ok program
