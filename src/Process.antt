-- ===== src/Process.antt =====
-- The processes of sandbox/sandbox/child/child.go and sandbox/sandbox/parent/parent.go: how a process
-- ended, waiting for it, and the signals that are forwarded to it meanwhile. A `syscall.WaitStatus` is
-- the word of Linux.
pub mod Wait
mod Tests
use bcs_zc241t_study_project.Prelude.{
  ℕ, ◌+◌, ◌*◌, ◌/◌, ◌%◌, Bool, true, false, not, ◌&&◌, Option, none, some, List, [], ◌∷◌, Result,
  ok, err, ◌==◌, if◌then◌else◌,
}

abbrev pub Pid : Type 0
Pid = ℕ

abbrev pub WaitStatus : Type 0
WaitStatus = ℕ

-- The low seven bits: 0 for an exit, 127 for a stop, the signal otherwise.
abbrev pub exited : WaitStatus → Bool
exited w = w % 128 == 0

abbrev pub exit_status : WaitStatus → ℕ
exit_status w = w / 256 % 256

abbrev pub signaled : WaitStatus → Bool
signaled w = not (w % 128 == 127) && not (w % 128 == 0)

abbrev pub signal_of : WaitStatus → ℕ
signal_of w = w % 128

-- The word that Linux makes of `os.Exit(code)`.
abbrev pub exit_word : ℕ → WaitStatus
exit_word code = code % 256 * 256

-- The end of `runInit`: the exit code for the outcome of waiting; the error is an error number.
unfoldable pub run_init_code : Result ℕ WaitStatus → ℕ
run_init_code (err e) = 1
run_init_code (ok status) =
    if exited status
    then exit_status status
    else if signaled status
    then 128 + signal_of status
    else 1

-- What `cmd.Wait` returns: no error, an `ExitError` with its status, or another error.
pub data WaitOutcome : Type 0 where
  success wait_failed : WaitOutcome
  exit_error : WaitStatus → WaitOutcome

-- `cmd.Wait` on a process that ended: an error unless it exited with 0.
unfoldable pub wait_outcome : WaitStatus → WaitOutcome
wait_outcome status =
    if exited status && exit_status status == 0 then success else exit_error status

-- The end of `waitForChild`: `ExitCode` is negative unless the process exited.
unfoldable pub wait_for_child_code : WaitOutcome → ℕ
wait_for_child_code success = 0
wait_for_child_code wait_failed = 1
wait_for_child_code (exit_error status) =
    if exited status
    then exit_status status
    else if signaled status
    then 128 + signal_of status
    else 1

-- One answer of `Wait4(-1, ...)`.
pub data Waited : Type 0 where
  interrupted : Waited
  failed : ℕ → Waited
  reaped : Pid → WaitStatus → Waited

-- `reapUntilPayloadExits` on the answers to come: its result and the answers that it left; `none` while
-- it still waits.
unfoldable pub reap_until_payload_exits :
    Pid → List Waited → Option (Result ℕ WaitStatus × List Waited)
reap_until_payload_exits payload [] = none
reap_until_payload_exits payload (interrupted ∷ rest) = reap_until_payload_exits payload rest
reap_until_payload_exits payload (failed e ∷ rest) = some (err e, rest)
reap_until_payload_exits payload (reaped pid status ∷ rest) =
    let later = reap_until_payload_exits payload rest in
    if pid == payload then some (ok status, rest) else later

-- What the `select` of a forwarding loop takes: the closed channel `done`, or a signal. A signal that is
-- no `syscall.Signal` has no number.
pub data Selected : Type 0 where
  done : Selected
  received : Option ℕ → Selected

-- `forwardPayloadSignals` and `forwardSignals`: the calls of `Kill`, with process and signal, and the
-- choices that the loop left; `none` while it still runs.
unfoldable pub forward_signals : Pid → List Selected → Option (List (Pid × ℕ) × List Selected)
forward_signals pid [] = none
forward_signals pid (done ∷ rest) = some ([], rest)
forward_signals pid (received none ∷ rest) = forward_signals pid rest
forward_signals pid (received (some signal) ∷ rest) = elim (forward_signals pid rest) [
  | none ↦ none
  | some later ↦ let (kills, rest) = later in some ((pid, signal) ∷ kills, rest)
]
