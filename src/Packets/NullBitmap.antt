-- ===== src/Packets/NullBitmap.antt =====
-- src/packets/mod.rs, `NullBitmap`, with the offset of src/value/mod.rs's sides.
use rust_mysql_common.Base.{
  ℕ, zero, suc, ◌+◌, ◌-◌, ◌/◌, ◌%◌, ◌^◌, bit_and, bit_or, Bool, Option, none, some, [], ◌∷◌, ltb,
  leb, if◌then◌else◌, length, take, drop, replicate, get_elem?,
}
use rust_mysql_common.Base.Bytes.{Bytes}
use rust_mysql_common.Base.Result.{Result, ok, panic, ◌>>=◌}
use rust_mysql_common.Io.ParseBuf.{IoError, checked_eat}
use rust_mysql_common.Raw.{MyDeserialize, ok_or_eof}
pub mod Laws

pub data Side : Type 0 where
  server_side client_side : Side

-- `SerializationSide::BIT_OFFSET`
abbrev pub bit_offset : Side → ℕ
bit_offset server_side = 2
bit_offset client_side = 0

-- `vec[i] = f(vec[i])` within the bounds.
unfoldable pub modify : (ℕ → ℕ) → ℕ → Bytes → Bytes
modify f i [] = []
modify f zero (x ∷ xs) = f x ∷ xs
modify f (suc i) (x ∷ xs) = x ∷ modify f i xs

-- The byte at an index that is within the bounds, or 0.
abbrev pub byte_at : Option ℕ → ℕ
byte_at none = 0
byte_at (some x) = x

module _ (T : Side) where
  unfoldable pub bitmap_len : ℕ → ℕ
  bitmap_len num_columns = (num_columns + 7 + bit_offset T) / 8

  unfoldable pub byte_and_bit : Bytes → ℕ → Result IoError (ℕ × ℕ)
  byte_and_bit bitmap column_index =
      let offset : ℕ = column_index + bit_offset T in
      if ltb (offset / 8) (length bitmap) then ok (offset / 8, 2 ^ (offset % 8)) else panic

  unfoldable pub is_null : Bytes → ℕ → Result IoError Bool
  is_null bitmap column_index = byte_and_bit bitmap column_index >>= λ (byte, bit).
      ok (ltb 0 (bit_and (byte_at (get_elem? bitmap byte)) bit))

  -- `!bit` on a byte `x` leaves `x` without the bits of `x & bit`.
  unfoldable pub set : Bytes → ℕ → Bool → Result IoError Bytes
  set bitmap column_index null = byte_and_bit bitmap column_index >>= λ (byte, bit). ok (
      if null
      then modify (λ x. bit_or x bit) byte bitmap
      else modify (λ x. x - bit_and x bit) byte bitmap)

  unfoldable pub new : ℕ → Bytes
  new num_columns = replicate (bitmap_len num_columns) 0

  unfoldable pub read : Bytes → ℕ → Result IoError (Bytes × Bytes)
  read input num_columns =
      let n : ℕ = bitmap_len num_columns in
      if leb n (length input) then ok (take n input, drop n input) else panic

  unfoldable pub null_bitmap : MyDeserialize ℕ Bytes
  null_bitmap = record {
    size = none;
    deserialize = λ num_columns. ok_or_eof (checked_eat (bitmap_len num_columns));
  }
