-- ===== src/Process/Wait.antt =====
-- `runInit` of child.go followed by `waitForChild` of parent.go: exit codes, and the ends of the loops.
use bcs_zc241t_study_project.Prelude.{
  ℕ, ◌+◌, ◌≤◌, ◌≡◌, refl, ◌⊎◌, true, false, some, List, [], ◌∷◌, ◌++◌, map, Result, ok, err, ◌==◌,
  All, arith,
}
use bcs_zc241t_study_project.Process.{
  Pid, WaitStatus, exited, exit_status, signaled, signal_of, exit_word, run_init_code, wait_outcome,
  wait_for_child_code, Waited, interrupted, failed, reaped, reap_until_payload_exits, Selected,
  done, received, forward_signals,
}

-- The exit code that the caller sees for the status of the command.
abbrev pub seen_code : WaitStatus → ℕ
seen_code status = wait_for_child_code (wait_outcome (exit_word (run_init_code (ok status))))

-- For every status that `runInit` waits for: the code that it exits with passes unchanged through the
-- exit of the init process and `waitForChild`, and is at most 255. It is the status of a command that
-- exited, 128 and the signal of a command that was killed, and 1 for any other status.
pub wait_for_child-run_init :
    (status : WaitStatus)
    → (seen_code status ≡ run_init_code (ok status))
      × (seen_code status ≤ 255)
      × (((exited status ≡ true) × (seen_code status ≡ exit_status status))
          ⊎ ((signaled status ≡ true) × (seen_code status ≡ 128 + signal_of status))
          ⊎ ((exited status ≡ false) × (signaled status ≡ false) × (seen_code status ≡ 1)))
unfolding wait_for_child_code wait_outcome run_init_code
wait_for_child-run_init status = ground arith

-- An answer that does not end the waiting: an interruption, or an orphan that is not the payload.
abbrev pub IsPassed : Pid → Waited → Type 0
IsPassed payload interrupted = Unit
IsPassed payload (failed e) = ⊥
IsPassed payload (reaped pid status) = (pid == payload) ≡ false

-- An answer that ends it, with the result.
abbrev pub IsFinal : Pid → Waited → Result ℕ WaitStatus → Type 0
IsFinal payload interrupted result = ⊥
IsFinal payload (failed e) result = result ≡ err e
IsFinal payload (reaped pid status) result = ((pid == payload) ≡ true) × (result ≡ ok status)

-- `reapUntilPayloadExits` returns as soon as the kernel reports the payload's end or an error: however
-- many interruptions and ends of orphans come first, the result is that of the first such answer, and
-- later answers are left alone.
pub reap_until_payload_exits-IsFinal :
    (payload : Pid) (before : List Waited) (final : Waited) (result : Result ℕ WaitStatus)
    (rest : List Waited)
    → All (IsPassed payload) before
    → IsFinal payload final result
    → reap_until_payload_exits payload (before ++ final ∷ rest) ≡ some (result, rest)
unfolding reap_until_payload_exits
reap_until_payload_exits-IsFinal payload [] interrupted result rest h f = absurd f
reap_until_payload_exits-IsFinal payload [] (failed e) result rest h f = rw f refl
reap_until_payload_exits-IsFinal payload [] (reaped pid status) result rest h f = rw (f.0, f.1) refl
reap_until_payload_exits-IsFinal payload (interrupted ∷ before) final result rest h f =
    reap_until_payload_exits-IsFinal payload before final result rest h.1 f
reap_until_payload_exits-IsFinal payload (failed e ∷ before) final result rest h f = absurd h.0
reap_until_payload_exits-IsFinal payload (reaped pid s ∷ before) final result rest h f =
    rw (h.0) (reap_until_payload_exits-IsFinal payload before final result rest h.1 f)

-- `forwardPayloadSignals` and `forwardSignals` send every signal that they took before `done`, in order
-- and once, to the one process, and return at `done`.
pub forward_signals-done :
    (pid : Pid) (signals : List ℕ) (rest : List Selected)
    → forward_signals pid (map (λ s. received (some s)) signals ++ done ∷ rest)
      ≡ some (map (λ s. (pid, s)) signals, rest)
unfolding forward_signals
forward_signals-done pid [] rest = refl
forward_signals-done pid (s ∷ signals) rest = rw (forward_signals-done pid signals rest) refl
