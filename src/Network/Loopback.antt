-- ===== src/Network/Loopback.antt =====
-- sandbox/sandbox/network/loopback_linux.go: `ConfigureIsolatedLoopback`. The kernel's answers are a
-- parameter; flags are a word of 16 bits.
use Prim.Native.Nat.{bit_and, bit_or}
use bcs_zc241t_study_project.Prelude.{
  ℕ, ◌≡◌, ◌≢◌, ◌⊎◌, refl, Bool, true, false, not, Option, none, some, List, [], ◌∷◌, Result, ok,
  err, ◌==◌, if◌then◌else◌, arith, Option-cases, Bool-cases, inl, inr,
}

-- The system calls on the control socket, and the closing of it.
pub data LoopCall : Type 0 where
  open_socket close_socket get_flags : LoopCall
  set_flags : ℕ → LoopCall

-- The descriptor is opened or not; `NewIfreq("lo")` succeeds or not; the flags; whether they may be set.
pub record LoopKernel : Type 0 where
  pub opens : Bool
  pub request : Bool
  pub flags : Option ℕ
  pub sets : ℕ → Bool

pub data LoopError : Type 0 where
  no_socket no_request flags_unread flags_refused : LoopError

abbrev pub iff_up : ℕ
iff_up = 1

module _ (k : LoopKernel) where
  -- Setting the flag, unless it is set: the result and the calls, the last one first, in front of those
  -- before.
  unfoldable pub raise : Option ℕ → List LoopCall → Result LoopError (Unit {0}) × List LoopCall
  raise none calls = (err flags_unread, get_flags ∷ calls)
  raise (some flags) calls =
      let wanted = bit_or flags iff_up in
      if not (bit_and flags iff_up == 0) then (ok tt, get_flags ∷ calls) else (
        (if k.sets wanted then ok tt else err flags_refused),
        set_flags wanted ∷ get_flags ∷ calls,
      )

  -- `defer unix.Close(fd)`.
  abbrev close_after :
      Result LoopError (Unit {0}) × List LoopCall → Result LoopError (Unit {0}) × List LoopCall
  close_after (r, calls) = (r, close_socket ∷ calls)

  -- `ConfigureIsolatedLoopback`.
  unfoldable pub configure_isolated_loopback : Result LoopError (Unit {0}) × List LoopCall
  unfolding raise
  configure_isolated_loopback =
      if not k.opens
      then (err no_socket, [])
      else close_after (
          if not k.request
          then (err no_request, open_socket ∷ [])
          else raise k.flags (open_socket ∷ []))

-- How the configuration ends, by what the kernel answers: which calls were made, and with which result.
abbrev pub IsLoopbackEnd : LoopKernel → Result LoopError (Unit {0}) → List LoopCall → Type 0
IsLoopbackEnd k r calls =
    ((k.opens ≡ false) × (r ≡ err no_socket) × (calls ≡ []))
    ⊎ ((k.opens ≡ true)
        × (k.request ≡ false)
        × (r ≡ err no_request)
        × (calls ≡ close_socket ∷ open_socket ∷ []))
    ⊎ ((k.opens ≡ true)
        × (k.request ≡ true)
        × (k.flags ≡ none)
        × (r ≡ err flags_unread)
        × (calls ≡ close_socket ∷ get_flags ∷ open_socket ∷ []))
    ⊎ ((k.opens ≡ true)
        × (k.request ≡ true)
        × (flags : ℕ) × (k.flags ≡ some flags)
        × (((bit_and flags iff_up ≢ 0)
              × (r ≡ ok tt)
              × (calls ≡ close_socket ∷ get_flags ∷ open_socket ∷ []))
            ⊎ ((bit_and flags iff_up ≡ 0)
                × (r ≡ (if k.sets (bit_or flags iff_up) then ok tt else err flags_refused))
                × (calls
                    ≡ close_socket
                      ∷ set_flags (bit_or flags iff_up)
                      ∷ get_flags
                      ∷ open_socket
                      ∷ []))))

-- `ConfigureIsolatedLoopback` ends with the error of the first call that fails, and makes no call behind
-- it; with no failure it succeeds, and then the interface was up, and nothing was set, or its own flags
-- were set together with `IFF_UP`. A socket that was opened is closed in each case, as the last call.
pub configure_isolated_loopback-IsLoopbackEnd :
    (k : LoopKernel)
    → IsLoopbackEnd k (configure_isolated_loopback k).0 (configure_isolated_loopback k).1
unfolding configure_isolated_loopback
configure_isolated_loopback-IsLoopbackEnd k = elim (Bool-cases k.opens) [
  | inr shut ↦ rw shut (inl (refl, refl, refl))
  | inl open_now ↦ elim (Bool-cases k.request) [
    | inr bad ↦ rw (open_now, bad) (inr (inl (refl, refl, refl, refl)))
    | inl good ↦ elim (Option-cases k.flags) [
      | inl e ↦ rw (open_now, good, e) (inr (inr (inl (refl, refl, refl, refl, refl))))
      | inr (flags, e) ↦
          rw (open_now, good, e) (inr (inr (inr (refl, refl, flags, refl, ground arith))))
    ]
  ]
]
