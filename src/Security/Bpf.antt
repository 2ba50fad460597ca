-- ===== src/Security/Bpf.antt =====
-- What the kernel does with a filter: the documented machine of classic BPF, over the two words of
-- `seccomp_data` that the sandbox's filter loads. It is the yardstick for security/seccomp.go.
use Prim.Native.Nat.{bit_and}
use bcs_zc241t_study_project.Prelude.{
  ℕ, zero, suc, Option, none, some, List, [], ◌∷◌, ◌==◌, if◌then◌else◌,
}
use bcs_zc241t_study_project.Security.{
  SockFilter, Op, ld_w_abs, jeq_k, jset_k, ret_k, seccomp_data_nr_offset, seccomp_data_arch_offset,
}

pub record SeccompData : Type 0 where
  pub nr : ℕ
  pub arch : ℕ

-- A load outside the two words is no valid filter.
abbrev word_at : SeccompData → ℕ → Option ℕ
word_at d offset =
    if offset == seccomp_data_nr_offset
    then some d.nr
    else if offset == seccomp_data_arch_offset
    then some d.arch
    else none

-- One round: the value returned, or the instructions to skip and the accumulator.
pub data Outcome : Type 0 where
  done : Option ℕ → Outcome
  goes_on : ℕ → ℕ → Outcome

module _ (d : SeccompData) where
  loaded : Option ℕ → Outcome
  loaded none = done none
  loaded (some w) = goes_on 0 w

  exec_op : Op → SockFilter → ℕ → Outcome
  unfolding loaded
  exec_op ld_w_abs i a = loaded (word_at d i.k)
  exec_op jeq_k i a = goes_on (if a == i.k then i.jt else i.jf) a
  exec_op jset_k i a = goes_on (if bit_and a i.k == 0 then i.jf else i.jt) a
  exec_op ret_k i a = done (some i.k)

  abbrev exec : SockFilter → ℕ → Outcome
  unfolding exec_op
  exec i a = exec_op i.code i a

  -- Running past the end gives no value.
  unfoldable pub run : List SockFilter → ℕ → ℕ → Option ℕ
  unfolding exec_op
  run [] skip a = none
  run (i ∷ rest) (suc skip) a = run rest skip a
  run (i ∷ rest) zero a = elim (exec_op i.code i a) [
    | done r ↦ r
    | goes_on skip a' ↦ run rest skip a'
  ]
