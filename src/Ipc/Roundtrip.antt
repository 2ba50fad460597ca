-- ===== src/Ipc/Roundtrip.antt =====
-- ipc.go: the writer followed by the reader.
use bcs_zc241t_study_project.Prelude.{
  ℕ, zero, suc, ◌+◌, ◌*◌, ◌/◌, ◌%◌, ◌^◌, ◌≤◌, ◌<◌, ◌≡◌, refl, sym, ap, ◌∙◌, true, false, some, [],
  ◌∷◌, ◌++◌, append_assoc, append-nil, length, take, drop, ok, ltb, arith,
}
use bcs_zc241t_study_project.Ipc.{
  Bytes, Codec, max_snapshot_size, header, Writer, write_full, send, write_config, read_full,
  accept, read_data, read_config,
}

-- A pipe without errors: each write takes at least one byte, and not more than it is offered.
pub record IsWorking (write : Writer) : Type 0 where
  pub takes :
      (pipe : Bytes) (b : ℕ) (rest : Bytes)
      → (n : ℕ) × (write pipe (b ∷ rest) ≡ some (suc n)) × (n ≤ length rest)

-- JSON reads back what it has written, with nothing behind it, and writes one byte at least.
pub record IsFaithful {C : Type 0} (codec : Codec C) : Type 0 where
  pub reads_back :
      (c : C) (bytes : Bytes)
      → codec.marshal c ≡ some bytes
      → (codec.decode bytes ≡ some c) × (codec.at_end bytes ≡ true) × (0 < length bytes)

take-drop : (n : ℕ) (xs : Bytes) → take n xs ++ drop n xs ≡ xs
take-drop zero xs = refl
take-drop (suc n) [] = refl
take-drop (suc n) (x ∷ xs) = ap (λ r. x ∷ r) (take-drop n xs)

length-drop : (n : ℕ) (xs : Bytes) → length (drop n xs) ≤ length xs
length-drop zero xs = omega arith
length-drop (suc n) [] = omega arith
length-drop (suc n) (x ∷ xs) = omega (arith, length-drop n xs)

-- A working pipe takes all bytes, in however many writes; their number is fuel enough.
write_full-all :
    (write : Writer) (works : IsWorking write) (fuel : ℕ) (pipe bytes : Bytes)
    → length bytes ≤ fuel
    → write_full write fuel pipe bytes ≡ (ok tt, pipe ++ bytes)
unfolding write_full
write_full-all write works fuel pipe [] h = ap (λ p. (ok tt, p)) (sym (append-nil pipe))
write_full-all write works zero pipe (b ∷ bytes) h = absurd (omega arith)
write_full-all write works (suc fuel) pipe (b ∷ bytes) h =
    let (n, took, few) = works.takes pipe b bytes in
    let rest =
      write_full-all write works fuel (pipe ++ take (suc n) (b ∷ bytes)) (drop n bytes)
        (omega (arith, h, length-drop n bytes)) in
    rw (write_full, took)
      (rest
        ∙ ap (λ p. (ok tt, p))
            (append_assoc pipe (take (suc n) (b ∷ bytes)) (drop n bytes)
              ∙ ap (λ r. pipe ++ b ∷ r) (take-drop n bytes)))

header_value :
    (n : ℕ)
    → n < 2 ^ 32
    → n / 2 ^ 24 % 256 * 2 ^ 24 + n / 2 ^ 16 % 256 * 2 ^ 16 + n / 2 ^ 8 % 256 * 2 ^ 8 + n % 256 ≡ n
header_value n h = omega arith

take-all : (xs : Bytes) → take (length xs) xs ≡ xs
take-all [] = refl
take-all (x ∷ xs) = ap (λ r. x ∷ r) (take-all xs)

drop-all : (xs : Bytes) → drop (length xs) xs ≡ []
drop-all [] = refl
drop-all (x ∷ xs) = drop-all xs

module _ {C : Type 0} (codec : Codec C) where
  accepted :
      (c : C) (bytes : Bytes)
      → codec.decode bytes ≡ some c
      → codec.at_end bytes ≡ true
      → codec.is_valid c ≡ true
      → accept codec bytes ≡ ok c
  unfolding accept
  accepted c bytes d e v = rw (accept, d, e, v) refl

  read_all : (bytes : Bytes) → read_full codec (length bytes) bytes ≡ some (bytes, [])
  unfolding read_full
  read_all bytes = ground (arith, take-all bytes, drop-all bytes)

  framed :
      (c : C) (bytes : Bytes)
      → 0 < length bytes
      → length bytes ≤ max_snapshot_size
      → accept codec bytes ≡ ok c
      → read_config codec (header (length bytes) ++ bytes) ≡ ok c
  unfolding read_config read_data header
  framed c bytes lo hi a =
      rw (header_value (length bytes) (omega (arith, hi)))
        (ground (arith, lo, hi, a, read_all bytes))

-- With a pipe that takes at least one byte each time, and a JSON codec that reads back what it has
-- written: a valid configuration whose text has at most 2^20 bytes is written without error, however
-- the writes are cut, and `ReadConfig` returns it from the bytes in the pipe.
pub write_config-read_config :
    {C : Type 0} (codec : Codec C) (write : Writer) (cfg : C) (bytes : Bytes)
    → IsWorking write
    → IsFaithful codec
    → codec.marshal cfg ≡ some bytes
    → length bytes ≤ max_snapshot_size
    → codec.is_valid cfg ≡ true
    → ((write_config codec write cfg).0 ≡ ok tt)
      × (read_config codec (write_config codec write cfg).1 ≡ ok cfg)
unfolding write_config send
write_config-read_config codec write cfg bytes works faithful m size valid =
    let (d, e, lo) = faithful.reads_back cfg bytes m in
    let frame = header (length bytes) ++ bytes in
    let all = write_full-all write works (length frame) [] frame (omega arith) in
    let read = framed codec cfg bytes lo size (accepted codec cfg bytes d e valid) in
    let fits : ltb max_snapshot_size (length bytes) ≡ false = ground arith in
    rw (m, fits, all) (refl, read)
