-- ===== src/Security/Names.antt =====
-- `blockedSyscallNumbers` of security/seccomp.go: exactly which lists of names it accepts.
use mathlib.Core.List.{append-nil}
use bcs_zc241t_study_project.Prelude.{
  ℕ, ◌≡◌, ◌≢◌, ◌↔◌, false, some, List, [], ◌∷◌, ◌++◌, ok, >>=-eq-ok, contains, Fresh, Distinct,
  Fresh-Distinct, Distinct-Fresh, append_assoc, arith, ◌∙◌, ap,
}
use bcs_zc241t_study_project.Security.{
  Platform, number_of, collect_numbers, blocked_syscall_numbers, validate_architecture,
}

-- Each name has the number beside it on the platform.
abbrev pub Numbered : Platform → List (List ℕ) → List ℕ → Type 0
Numbered p [] [] = Unit
Numbered p [] (nr ∷ numbers) = ⊥
Numbered p (name ∷ names) [] = ⊥
Numbered p (name ∷ names) (nr ∷ numbers) =
    (p.syscall_number name ≡ some nr) × Numbered p names numbers

number_of_sound :
    (p : Platform) (seen : List (List ℕ)) (name : List ℕ) (nr : ℕ)
    → number_of p seen name ≡ ok nr
    → (contains seen name ≡ false) × (p.syscall_number name ≡ some nr)
unfolding number_of
number_of_sound p seen name nr h = ground arith

number_of_complete :
    (p : Platform) (seen : List (List ℕ)) (name : List ℕ) (nr : ℕ)
    → contains seen name ≡ false
    → p.syscall_number name ≡ some nr
    → number_of p seen name ≡ ok nr
unfolding number_of
number_of_complete p seen name nr h k = ground arith

collect_numbers_sound :
    (p : Platform) (names seen : List (List ℕ)) (done result : List ℕ)
    → collect_numbers p names seen done ≡ ok result
    → (numbers : List ℕ) × (result ≡ done ++ numbers) × Numbered p names numbers × Fresh seen names
unfolding collect_numbers
collect_numbers_sound p [] seen done result h = ([], ground (arith, append-nil done), tt, tt)
collect_numbers_sound p (name ∷ names) seen done result h =
    let (nr, found, rest) = >>=-eq-ok (number_of p seen name) _ h in
    let (new, number) = number_of_sound p seen name nr found in
    let (numbers, e, numbered, fresh) =
      collect_numbers_sound p names (name ∷ seen) (done ++ nr ∷ []) result rest in
    (nr ∷ numbers, e ∙ append_assoc done (nr ∷ []) numbers, (number, numbered), (new, fresh))

collect_numbers_complete :
    (p : Platform) (names seen : List (List ℕ)) (done numbers : List ℕ)
    → Numbered p names numbers
    → Fresh seen names
    → collect_numbers p names seen done ≡ ok (done ++ numbers)
unfolding collect_numbers
collect_numbers_complete p [] seen done [] h f = rw append-nil
collect_numbers_complete p [] seen done (nr ∷ numbers) h f = absurd h
collect_numbers_complete p (name ∷ names) seen done [] h f = absurd h
collect_numbers_complete p (name ∷ names) seen done (nr ∷ numbers) (number, h) (new, f) =
    rw (number_of_complete p seen name nr new number) (
      collect_numbers_complete p names (name ∷ seen) (done ++ nr ∷ []) numbers h f
      ∙ ap ok (append_assoc done (nr ∷ []) numbers))

-- `blockedSyscallNumbers` returns a list of numbers exactly when the architecture is supported, no
-- name is listed twice, and the list holds the platform's number of each name, in order.
pub blocked_syscall_numbers_exact :
    (p : Platform) (names : List (List ℕ)) (numbers : List ℕ)
    → (blocked_syscall_numbers p names ≡ ok numbers)
      ↔ ((p.audit_architecture ≢ 0) × Distinct names × Numbered p names numbers)
unfolding blocked_syscall_numbers validate_architecture
blocked_syscall_numbers_exact p names numbers = (sound, complete)
  where
    sound :
        blocked_syscall_numbers p names ≡ ok numbers
        → (p.audit_architecture ≢ 0) × Distinct names × Numbered p names numbers
    sound h =
        let (_, supported, rest) = >>=-eq-ok (validate_architecture p) _ h in
        let (found, e, numbered, fresh) = collect_numbers_sound p names [] [] numbers rest in
        (ground arith, Fresh-Distinct names fresh, rw e numbered)

    complete :
        (p.audit_architecture ≢ 0) × Distinct names × Numbered p names numbers
        → blocked_syscall_numbers p names ≡ ok numbers
    complete (supported, distinct, numbered) = ground (
      arith,
      collect_numbers_complete p names [] [] numbers numbered (Distinct-Fresh names distinct),
    )
