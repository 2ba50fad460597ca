-- ===== src/Ipc/Tests.antt =====
-- Snapshots to try sandbox/sandbox/internal/ipc on: a configuration is a byte here, written as itself
-- behind a brace, through a pipe that takes one byte at a time.
use bcs_zc241t_study_project.Prelude.{
  ℕ, ◌<◌, ◌≡◌, refl, true, Option, none, some, [], ◌∷◌, length, ok, arith,
}
use bcs_zc241t_study_project.Ipc.{Bytes, Codec, Writer, write_config, read_config}
use bcs_zc241t_study_project.Ipc.Roundtrip.{IsWorking, IsFaithful, write_config-read_config}

abbrev read_byte : Bytes → Option ℕ
read_byte (a ∷ b ∷ []) = some b
read_byte bytes = none

abbrev codec : Codec ℕ
codec = record {
  marshal = λ c. some (123 ∷ c ∷ []);
  decode = read_byte;
  at_end = λ b. true;
  is_valid = λ c. true;
}

abbrev byte_by_byte : Writer
byte_by_byte pipe offered = some 1

works : IsWorking byte_by_byte
works = record { takes = λ pipe b rest. (0, refl, omega arith) }

decoded : (c : ℕ) (bytes : Bytes) → some (123 ∷ c ∷ []) ≡ some bytes → read_byte bytes ≡ some c
decoded c [] h = cc
decoded c (a ∷ []) h = cc
decoded c (a ∷ b ∷ []) h = cc
decoded c (a ∷ b ∷ d ∷ bytes) h = cc

filled : (c : ℕ) (bytes : Bytes) → some (123 ∷ c ∷ []) ≡ some bytes → 0 < length bytes
filled c [] h = cc
filled c (a ∷ bytes) h = omega arith

faithful : IsFaithful codec
faithful = record { reads_back = λ c bytes m. (decoded c bytes m, refl, filled c bytes m) }

write_config-read_config_example :
    ((write_config codec byte_by_byte 7).0 ≡ ok tt)
    × (read_config codec (write_config codec byte_by_byte 7).1 ≡ ok 7)
write_config-read_config_example =
    write_config-read_config codec byte_by_byte 7 (123 ∷ 7 ∷ []) works faithful refl (omega arith)
      refl
