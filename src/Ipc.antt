-- ===== src/Ipc.antt =====
-- sandbox/sandbox/internal/ipc/ipc.go: the configuration snapshot that the parent sends to the child
-- through a pipe. JSON and the validation are parameters.
pub mod Roundtrip
mod Tests
use bcs_zc241t_study_project.Prelude.{
  ℕ, zero, suc, ◌+◌, ◌-◌, ◌*◌, ◌/◌, ◌%◌, ◌^◌, Bool, true, false, ◌||◌, Option, none, some, List, [],
  ◌∷◌, ◌++◌, length, take, drop, Result, ok, err, ltb, leb, ◌==◌, if◌then◌else◌,
}

abbrev pub Bytes : Type 0
Bytes = List ℕ

-- `json.Marshal`; a decoder that reads one value with known fields, and whether only white space
-- follows it; `cfg.Validate() == nil`.
pub record Codec (C : Type 0) : Type 0 where
  pub marshal : C → Option Bytes
  pub decode : Bytes → Option C
  pub at_end : Bytes → Bool
  pub is_valid : C → Bool

pub data IpcError : Type 0 where
  not_encoded too_large write_failed short_write : IpcError
  no_length : IpcError
  invalid_length : ℕ → IpcError
  no_data not_decoded trailing_data not_valid : IpcError

abbrev pub max_snapshot_size : ℕ
max_snapshot_size = 2 ^ 20

-- The length in four bytes, the high one first; `byte(...)` keeps the low eight bits.
unfoldable pub header : ℕ → Bytes
header n = (n / 2 ^ 24 % 256) ∷ (n / 2 ^ 16 % 256) ∷ (n / 2 ^ 8 % 256) ∷ (n % 256) ∷ []

-- One `Write` on the pipe: how many bytes it took of those offered, from the bytes in the pipe so far;
-- `none` is an error.
abbrev pub Writer : Type 0
Writer = Bytes → Bytes → Option ℕ

-- `writeFull`, on fuel: the result, and the bytes in the pipe.
unfoldable pub write_full : Writer → ℕ → Bytes → Bytes → Result IpcError (Unit {0}) × Bytes
write_full write fuel pipe [] = (ok tt, pipe)
write_full write zero pipe (b ∷ data_left) = (err short_write, pipe)
write_full write (suc fuel) pipe (b ∷ data_left) = elim (write pipe (b ∷ data_left)) [
  | none ↦ (err write_failed, pipe)
  | some zero ↦ (err short_write, pipe)
  | some (suc n) ↦ write_full write fuel (pipe ++ take (suc n) (b ∷ data_left)) (drop n data_left)
]

module _ {C : Type 0} (codec : Codec C) where
  unfoldable pub send : Writer → Option Bytes → Result IpcError (Unit {0}) × Bytes
  unfolding write_full header
  send write none = (err not_encoded, [])
  send write (some encoded) =
      if ltb max_snapshot_size (length encoded)
      then (err too_large, [])
      else let frame = header (length encoded) ++ encoded in
        write_full write (length frame) [] frame

  -- `WriteConfig`: the result, and the bytes that it leaves in the pipe. Each write takes a byte at
  -- least, so the length of the frame is fuel enough.
  unfoldable pub write_config : Writer → C → Result IpcError (Unit {0}) × Bytes
  unfolding send
  write_config write cfg = send write (codec.marshal cfg)

  -- `io.ReadFull` of `n` bytes from those that are in the pipe, which the other side has closed.
  unfoldable pub read_full : ℕ → Bytes → Option (Bytes × Bytes)
  read_full n pipe = if ltb (length pipe) n then none else some (take n pipe, drop n pipe)

  -- The value, behind its bytes.
  unfoldable pub accept : Bytes → Result IpcError C
  accept encoded = elim (codec.decode encoded) [
    | none ↦ err not_decoded
    | some cfg ↦
        if codec.at_end encoded
        then (if codec.is_valid cfg then ok cfg else err not_valid)
        else err trailing_data
  ]

  unfoldable pub read_data : ℕ → Bytes → Result IpcError C
  unfolding read_full accept
  read_data n pipe =
      if n == 0 || ltb max_snapshot_size n
      then err (invalid_length n)
      else elim (read_full n pipe) [ none ↦ err no_data | some (encoded, rest) ↦ accept encoded ]

  -- `ReadConfig`, from the bytes in the pipe.
  unfoldable pub read_config : Bytes → Result IpcError C
  unfolding read_data
  read_config (a ∷ b ∷ c ∷ d ∷ pipe) = read_data (a * 2 ^ 24 + b * 2 ^ 16 + c * 2 ^ 8 + d) pipe
  read_config pipe = err no_length
