-- ===== src/Raw/Constant.antt =====
-- src/misc/raw/_const.rs and src/misc/raw/flags.rs: integers that stand for an enumeration or for
-- flags. `try_from` and `into` are the conversions of the enumeration.
use rust_mysql_common.Base.{ℕ, Option, none, some}
use rust_mysql_common.Base.Result.{err}
use rust_mysql_common.Io.ParseBuf.{invalid_data, Parser, pure, ◌>>=◌}
use rust_mysql_common.Raw.{MyDeserialize, MySerialize, parse_unchecked}
use rust_mysql_common.Raw.Int.{IntRepr, raw_int, serialize_int}

-- `map_err(|e| io::Error::new(io::ErrorKind::InvalidData, e))`
abbrev pub ok_or_invalid : {A : Type 0} → Option A → Parser A
ok_or_invalid (some e) = pure e
ok_or_invalid none = λ buf. err invalid_data

-- `Const<T, U>`
unfoldable pub constant : {P A : Type 0} → IntRepr P → (P → Option A) → MyDeserialize (Unit {0}) A
constant R try_from = record {
  size = R.size;
  deserialize = λ _. parse_unchecked (raw_int R) tt >>= λ raw_val. ok_or_invalid (try_from raw_val);
}

unfoldable pub serialize_constant : {P A : Type 0} → IntRepr P → (A → P) → MySerialize A
serialize_constant R into e buf = serialize_int R (into e) buf

-- `RawConst<T, U>`
unfoldable pub raw_const : {P : Type 0} → IntRepr P → MyDeserialize (Unit {0}) P
raw_const R = record { size = R.size; deserialize = λ _. parse_unchecked (raw_int R) tt }

unfoldable pub raw_const_get : {P A : Type 0} → (P → Option A) → P → Option A
raw_const_get try_from value = try_from value

-- `RawFlags<T, U>` whose bits take `size` bytes.
unfoldable pub raw_flags : {P : Type 0} → ℕ → IntRepr P → MyDeserialize (Unit {0}) P
raw_flags size R = record { size = some size; deserialize = λ _. parse_unchecked (raw_int R) tt }

unfoldable pub serialize_raw_int : {P : Type 0} → IntRepr P → MySerialize P
serialize_raw_int R value buf = serialize_int R value buf
