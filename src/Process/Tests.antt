-- ===== src/Process/Tests.antt =====
-- Runs of the functions of Process, and the theorems about them at concrete inputs.
use bcs_zc241t_study_project.Prelude.{
  ◌+◌, ◌≤◌, ◌≡◌, refl, ◌⊎◌, true, false, none, some, [], ◌∷◌, ok,
}
use bcs_zc241t_study_project.Process.{
  exited, exit_status, signaled, signal_of, run_init_code, interrupted, failed, reaped,
  reap_until_payload_exits, done, received, forward_signals,
}
use bcs_zc241t_study_project.Process.Wait.{
  seen_code, wait_for_child-run_init, reap_until_payload_exits-IsFinal, forward_signals-done,
}

-- A command killed by the signal 9, with a core dump.
wait_for_child-run_init_example :
    (seen_code 137 ≡ run_init_code (ok 137))
    × (seen_code 137 ≤ 255)
    × (((exited 137 ≡ true) × (seen_code 137 ≡ exit_status 137))
        ⊎ ((signaled 137 ≡ true) × (seen_code 137 ≡ 128 + signal_of 137))
        ⊎ ((exited 137 ≡ false) × (signaled 137 ≡ false) × (seen_code 137 ≡ 1)))
wait_for_child-run_init_example = wait_for_child-run_init 137

killed_by_9 : run_init_code (ok 137) ≡ 137
unfolding run_init_code
killed_by_9 = refl

-- The payload 7 exits with 3, after an interruption and an orphan.
reap_until_payload_exits-IsFinal_example :
    reap_until_payload_exits 7 (interrupted ∷ reaped 12 0 ∷ reaped 7 768 ∷ failed 10 ∷ [])
    ≡ some (ok 768, failed 10 ∷ [])
reap_until_payload_exits-IsFinal_example =
    reap_until_payload_exits-IsFinal 7 (interrupted ∷ reaped 12 0 ∷ []) (reaped 7 768) (ok 768)
      (failed 10 ∷ []) (tt, (refl, tt)) (refl, refl)

still_waiting : reap_until_payload_exits 7 (reaped 12 0 ∷ interrupted ∷ []) ≡ none
unfolding reap_until_payload_exits
still_waiting = refl

forward_signals-done_example :
    forward_signals 7 (received (some 15) ∷ received (some 1) ∷ done ∷ received (some 2) ∷ [])
    ≡ some ((7, 15) ∷ (7, 1) ∷ [], received (some 2) ∷ [])
forward_signals-done_example = forward_signals-done 7 (15 ∷ 1 ∷ []) (received (some 2) ∷ [])

without_number :
    forward_signals 7 (received none ∷ received (some 15) ∷ done ∷ []) ≡ some ((7, 15) ∷ [], [])
unfolding forward_signals
without_number = refl
