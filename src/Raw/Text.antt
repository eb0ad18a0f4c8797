-- ===== src/Raw/Text.antt =====
-- src/misc/raw/bytes.rs: the representations of byte strings.
use rust_mysql_common.Base.{
  ℕ, zero, suc, ◌-◌, ◌^◌, Bool, true, false, ◌&&◌, Option, none, some, [], ◌∷◌, ◌==◌, if◌then◌else◌,
  length, take, min,
}
use rust_mysql_common.Base.Bytes.{Bytes}
use rust_mysql_common.Base.Result.{err}
use rust_mysql_common.Io.BufMut.{BufMut}
use rust_mysql_common.Io.Write.{put_lenenc_int, put_u8_str, put_u32_str}
use rust_mysql_common.Io.ParseBuf.{
  invalid_data, Parser, pure, ◌>>=◌, skip, eat, checked_eat, eat_all,
}
use rust_mysql_common.Io.Lenenc.{checked_eat_u32_str, position}
use rust_mysql_common.Raw.{
  MyDeserialize, MySerialize, ok_or_eof, parse, parse_unchecked, byte_array,
}
use rust_mysql_common.Raw.Int.{raw_int, u8, len_enc}
use rust_mysql_common.Raw.VarLen.{var_len}

-- `C` is the type of the context.
pub record BytesRepr (C : Type 0) : Type 0 where
  pub max_len : ℕ
  pub size : Option ℕ
  pub serialize : Bytes → Bytes → Bytes
  pub deserialize : C → Parser Bytes

-- `RawBytes<'a, T>`
unfoldable pub raw_bytes : {C : Type 0} → BytesRepr C → MyDeserialize C Bytes
raw_bytes R = record { size = R.size; deserialize = R.deserialize }

unfoldable pub serialize_raw : {C : Type 0} → BytesRepr C → MySerialize Bytes
serialize_raw R = R.serialize

-- `RawBytes::len` and `RawBytes::as_bytes`
unfoldable pub effective_len : {C : Type 0} → BytesRepr C → Bytes → ℕ
effective_len R text = min (length text) R.max_len

unfoldable pub as_bytes : {C : Type 0} → BytesRepr C → Bytes → Bytes
as_bytes R text = take (effective_len R text) text

-- `usize::MAX`
abbrev pub usize_max : ℕ
usize_max = 2 ^ 64 - 1

-- `put_u8(0)`, `n` times
unfoldable pub pad : BufMut → ℕ → Bytes → Bytes
pad B zero buf = buf
pad B (suc n) buf = pad B n (B.put_u8 buf 0)

-- `unwrap_or_else(|| n)`
abbrev pub unwrap_or : ℕ → Option ℕ → ℕ
unwrap_or n none = n
unwrap_or n (some i) = i

-- The `match` on the place of the terminator.
abbrev pub eat_terminated : Option ℕ → Parser Bytes
eat_terminated (some i) = eat i >>= λ out. skip 1 >>= λ _. pure out
eat_terminated none = λ buf. err invalid_data

module _ (B : BufMut) where
  open B use {put_slice, put_u8}

  unfoldable pub len_enc_bytes : BytesRepr (Unit {0})
  len_enc_bytes = record {
    max_len = usize_max;
    size = none;
    serialize = λ text buf. put_slice (put_lenenc_int B buf (length text)) text;
    deserialize = λ _. parse (raw_int (len_enc B)) tt >>= λ n. ok_or_eof (checked_eat n);
  }

  unfoldable pub u8_bytes : BytesRepr (Unit {0})
  u8_bytes = record {
    max_len = 255;
    size = none;
    serialize = λ text buf. put_u8_str B buf text;
    deserialize = λ _. parse (raw_int (u8 B)) tt >>= λ n. ok_or_eof (checked_eat n);
  }

  unfoldable pub u32_bytes : BytesRepr (Unit {0})
  u32_bytes = record {
    max_len = 2 ^ 32 - 1;
    size = none;
    serialize = λ text buf. put_u32_str B buf text;
    deserialize = λ _. ok_or_eof checked_eat_u32_str;
  }

  unfoldable pub null_bytes : BytesRepr (Unit {0})
  null_bytes = record {
    max_len = usize_max;
    size = none;
    serialize = λ text buf.
        put_u8 (put_slice buf (take (unwrap_or (length text) (position 0 text)) text)) 0;
    deserialize = λ _ buf. eat_terminated (position 0 buf) buf;
  }

  unfoldable pub eof_bytes : BytesRepr (Unit {0})
  eof_bytes = record {
    max_len = usize_max;
    size = none;
    serialize = λ text buf. put_slice buf text;
    deserialize = λ _. eat_all;
  }

  -- `BareBytes<MAX_LEN>`
  unfoldable pub bare_bytes : ℕ → BytesRepr ℕ
  bare_bytes max_len = record {
    max_len = max_len;
    size = none;
    serialize = λ text buf. put_slice buf (take (min (length text) max_len) text);
    deserialize = λ n. ok_or_eof (checked_eat n);
  }

  -- `FixedLengthText<LEN>`; its `SIZE` is never `None`.
  unfoldable pub fixed_length_text : ℕ → BytesRepr (Unit {0})
  fixed_length_text n = record {
    max_len = n;
    size = some n;
    serialize = λ text buf.
        let len : ℕ = min n (length text) in pad B (n - len) (put_slice buf (take len text));
    deserialize = λ _. eat n;
  }

  -- The length is written as a length-encoded integer, and read as a `VarLen`.
  unfoldable pub var_len_bytes : BytesRepr (Unit {0})
  var_len_bytes = record {
    max_len = 2 ^ 32 - 1;
    size = none;
    serialize = λ text buf. put_slice (put_lenenc_int B buf (length text)) text;
    deserialize = λ _. var_len B >>= λ n. ok_or_eof (checked_eat n);
  }

  -- `ConstBytes<T, LEN>` with the value `value`.
  unfoldable pub serialize_const_bytes : Bytes → Bytes → Bytes
  serialize_const_bytes value buf = put_slice buf value

  -- `SmallVec`
  unfoldable pub small_vec : MyDeserialize (Unit {0}) Bytes
  small_vec = record { size = none; deserialize = λ _. parse (raw_bytes len_enc_bytes) tt }

  unfoldable pub serialize_small_vec : MySerialize Bytes
  serialize_small_vec bytes buf = put_slice buf bytes

-- The equality of arrays of bytes.
unfoldable pub bytes_eq : Bytes → Bytes → Bool
bytes_eq [] [] = true
bytes_eq [] (y ∷ ys) = false
bytes_eq (x ∷ xs) [] = false
bytes_eq (x ∷ xs) (y ∷ ys) = (x == y) && bytes_eq xs ys

unfoldable pub const_bytes : Bytes → MyDeserialize (Unit {0}) (Unit {0})
const_bytes value = record {
  size = some (length value);
  deserialize = λ _. parse_unchecked (byte_array (length value)) tt >>= λ bytes.
      if bytes_eq bytes value then pure tt else (λ buf. err invalid_data);
}
