-- ===== src/Raw/Int.antt =====
-- src/misc/raw/int.rs: the representations of integers.
use rust_mysql_common.Base.{ℕ, ◌*◌, ◌/◌, ◌%◌, ◌^◌, bit_and, Option, none, some, ◌==◌, if◌then◌else◌}
use rust_mysql_common.Base.Bytes.{Bytes}
use rust_mysql_common.Base.Int.{ℤ, signed}
use rust_mysql_common.Base.Result.{err}
use rust_mysql_common.Io.BufMut.{BufMut}
use rust_mysql_common.Io.Write.{
  put_lenenc_int, put_u24_le, put_i24_le, put_u48_le, put_u56_le, put_i56_le,
}
use rust_mysql_common.Io.ParseBuf.{
  invalid_data, Parser, pure, ◌>>=◌, map_parser, eat_num_le, eat_sized_le,
}
use rust_mysql_common.Io.Lenenc.{checked_eat_lenenc_int}
use rust_mysql_common.Raw.{MyDeserialize, MySerialize, ok_or_eof}

-- `P` is the primitive type.
pub record IntRepr (P : Type 0) : Type 0 where
  pub size : Option ℕ
  pub serialize : P → Bytes → Bytes
  pub deserialize : Parser P

-- `RawInt<T>`
unfoldable pub raw_int : {P : Type 0} → IntRepr P → MyDeserialize (Unit {0}) P
raw_int R = record { size = R.size; deserialize = λ _. R.deserialize }

unfoldable pub serialize_int : {P : Type 0} → IntRepr P → MySerialize P
serialize_int R = R.serialize

module _ (B : BufMut) where
  open B use {
    put_u8, put_i8, put_u16_le, put_u32_le, put_u64_le, put_i16_le, put_i32_le, put_i64_le,
  }

  unfoldable pub u8 : IntRepr ℕ
  u8 = record { size = some 1; serialize = λ val buf. put_u8 buf val; deserialize = eat_num_le 1 }

  unfoldable pub i8 : IntRepr ℤ
  i8 = record {
    size = some 1;
    serialize = λ val buf. put_i8 buf val;
    deserialize = map_parser (signed 7) (eat_num_le 1);
  }

  unfoldable pub le_u16 : IntRepr ℕ
  le_u16 = record {
    size = some 2;
    serialize = λ val buf. put_u16_le buf val;
    deserialize = eat_num_le 2;
  }

  unfoldable pub le_u24 : IntRepr ℕ
  le_u24 = record {
    size = some 3;
    serialize = λ val buf. put_u24_le B buf val;
    deserialize = eat_sized_le 4 3 0;
  }

  unfoldable pub le_u32 : IntRepr ℕ
  le_u32 = record {
    size = some 4;
    serialize = λ val buf. put_u32_le buf val;
    deserialize = eat_num_le 4;
  }

  unfoldable pub le_u48 : IntRepr ℕ
  le_u48 = record {
    size = some 6;
    serialize = λ val buf. put_u48_le B buf val;
    deserialize = eat_sized_le 8 6 0;
  }

  unfoldable pub le_u56 : IntRepr ℕ
  le_u56 = record {
    size = some 7;
    serialize = λ val buf. put_u56_le B buf val;
    deserialize = eat_sized_le 8 7 0;
  }

  unfoldable pub le_u64 : IntRepr ℕ
  le_u64 = record {
    size = some 8;
    serialize = λ val buf. put_u64_le buf val;
    deserialize = eat_num_le 8;
  }

  unfoldable pub le_i16 : IntRepr ℤ
  le_i16 = record {
    size = some 2;
    serialize = λ val buf. put_i16_le buf val;
    deserialize = map_parser (signed 15) (eat_num_le 2);
  }

  -- The bytes are put together as an `i32`, without a sign.
  unfoldable pub le_i24 : IntRepr ℤ
  le_i24 = record {
    size = some 3;
    serialize = λ val buf. put_i24_le B buf val;
    deserialize = map_parser (signed 31) (eat_sized_le 4 3 0);
  }

  unfoldable pub le_i32 : IntRepr ℤ
  le_i32 = record {
    size = some 4;
    serialize = λ val buf. put_i32_le buf val;
    deserialize = map_parser (signed 31) (eat_num_le 4);
  }

  unfoldable pub le_i56 : IntRepr ℤ
  le_i56 = record {
    size = some 7;
    serialize = λ val buf. put_i56_le B buf val;
    deserialize = map_parser (signed 63) (eat_sized_le 8 7 0);
  }

  unfoldable pub le_i64 : IntRepr ℤ
  le_i64 = record {
    size = some 8;
    serialize = λ val buf. put_i64_le buf val;
    deserialize = map_parser (signed 63) (eat_num_le 8);
  }

  unfoldable pub len_enc : IntRepr ℕ
  len_enc = record {
    size = none;
    serialize = λ val buf. put_lenenc_int B buf val;
    deserialize = ok_or_eof checked_eat_lenenc_int;
  }

  unfoldable pub le_u32_lower_half : IntRepr ℕ
  le_u32_lower_half = record {
    size = some 2;
    serialize = λ val buf. IntRepr.serialize le_u16 (bit_and val 0xffff % 2 ^ 16) buf;
    deserialize = IntRepr.deserialize le_u16;
  }

  unfoldable pub le_u32_upper_half : IntRepr ℕ
  le_u32_upper_half = record {
    size = some 2;
    serialize = λ val buf. IntRepr.serialize le_u16 (val / 2 ^ 16 % 2 ^ 16) buf;
    deserialize = map_parser (λ x. x * 2 ^ 16 % 2 ^ 32) (IntRepr.deserialize le_u16);
  }

  -- `ConstU8<T, N>`
  unfoldable pub serialize_const_u8 : ℕ → Bytes → Bytes
  serialize_const_u8 n buf = put_u8 buf n

  -- `ConstU32<T, N>`
  unfoldable pub serialize_const_u32 : ℕ → Bytes → Bytes
  serialize_const_u32 n buf = put_u32_le buf n

unfoldable pub const_u8 : ℕ → MyDeserialize (Unit {0}) (Unit {0})
const_u8 n = record {
  size = some 1;
  deserialize = λ _. eat_num_le 1 >>= λ x. if x == n then pure tt else (λ buf. err invalid_data);
}

unfoldable pub const_u32 : ℕ → MyDeserialize (Unit {0}) (Unit {0})
const_u32 n = record {
  size = some 4;
  deserialize = λ _. eat_num_le 4 >>= λ x. if x == n then pure tt else (λ buf. err invalid_data);
}
