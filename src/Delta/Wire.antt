-- ===== src/Delta/Wire.antt =====
-- The delta's byte format in src/core/sync/delta.rs: the op tags, the little-endian fields, and the
-- writers and readers of one op. A reader's `buf` is the rest of the buffer, from `pos` on.
use auto_sync.Prelude.{
  ℕ, zero, suc, ◌+◌, ◌*◌, ◌/◌, ◌%◌, ◌^◌, ◌<◌, ◌≡◌, refl, List, [], ◌∷◌, ◌++◌, arith, ap, ltb,
  ge→ltb, if◌then◌else◌, length, take, drop, Result, ok, err,
}

pub data DeltaError : Type 0 where
  truncated truncated_u32 truncated_u64 literal_overrun unexpected_eof : DeltaError
  unknown_op : ℕ → DeltaError

abbrev pub op_literal : ℕ
op_literal = 0x00

abbrev pub op_copy : ℕ
op_copy = 0x01

abbrev pub op_end : ℕ
op_end = 0x02

-- `to_le_bytes` and `from_le_bytes` at a width in bytes.
abbrev pub to_le_bytes : ℕ → ℕ → List ℕ
to_le_bytes zero value = []
to_le_bytes (suc width) value = value % 256 ∷ to_le_bytes width (value / 256)

abbrev pub from_le_bytes : List ℕ → ℕ
from_le_bytes [] = 0
from_le_bytes (byte ∷ bytes) = byte + 256 * from_le_bytes bytes

unfoldable pub emit_literal : List ℕ → List ℕ → List ℕ
emit_literal out [] = out
emit_literal out (byte ∷ bytes) =
    out ++ op_literal ∷ (to_le_bytes 4 (length (byte ∷ bytes) % 2 ^ 32) ++ byte ∷ bytes)

unfoldable pub emit_copy : List ℕ → ℕ → ℕ → List ℕ
emit_copy out offset len = out ++ op_copy ∷ (to_le_bytes 8 offset ++ to_le_bytes 4 len)

unfoldable pub read_u32 : List ℕ → Result DeltaError (ℕ × List ℕ)
read_u32 buf =
    if ltb (length buf) 4 then err truncated_u32 else ok (from_le_bytes (take 4 buf), drop 4 buf)

unfoldable pub read_u64 : List ℕ → Result DeltaError (ℕ × List ℕ)
read_u64 buf =
    if ltb (length buf) 8 then err truncated_u64 else ok (from_le_bytes (take 8 buf), drop 8 buf)

u32_field : (value : ℕ) → value < 2 ^ 32 → from_le_bytes (to_le_bytes 4 value) ≡ value
u32_field value h = omega arith

u64_field : (value : ℕ) → value < 2 ^ 64 → from_le_bytes (to_le_bytes 8 value) ≡ value
u64_field value h = omega arith

-- A field that was written is read back, and the reader stands behind it.
pub read_u32-to_le_bytes :
    (value : ℕ) (rest : List ℕ)
    → value < 2 ^ 32
    → read_u32 (to_le_bytes 4 value ++ rest) ≡ ok (value, rest)
unfolding read_u32
read_u32-to_le_bytes value rest h =
    rw (ge→ltb (length (to_le_bytes 4 value ++ rest)) 4 (omega arith))
      (ap (λ v. ok (v, rest)) (u32_field value h))

pub read_u64-to_le_bytes :
    (value : ℕ) (rest : List ℕ)
    → value < 2 ^ 64
    → read_u64 (to_le_bytes 8 value ++ rest) ≡ ok (value, rest)
unfolding read_u64
read_u64-to_le_bytes value rest h =
    rw (ge→ltb (length (to_le_bytes 8 value ++ rest)) 8 (omega arith))
      (ap (λ v. ok (v, rest)) (u64_field value h))

pub length-to_le_bytes : (width value : ℕ) → length (to_le_bytes width value) ≡ width
length-to_le_bytes zero value = refl
length-to_le_bytes (suc width) value = omega (arith, length-to_le_bytes width (value / 256))
