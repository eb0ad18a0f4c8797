-- ===== src/Raw.antt =====
-- src/proto/mod.rs and src/misc/raw: the traits of values that are read and written, `parse`, and
-- the values of src/misc/raw/mod.rs.
use rust_mysql_common.Base.{ℕ, Option, none, some, [], replicate, ◌++◌}
use rust_mysql_common.Base.Bytes.{Bytes}
use rust_mysql_common.Base.Result
use rust_mysql_common.Base.Result.{Result, err}
use rust_mysql_common.Io.BufMut.{BufMut}
use rust_mysql_common.Io.ParseBuf.{
  IoError, unexpected_eof, Parser, pure, ◌>>=◌, map_parser, skip, eat, checked_eat, checked_eat_buf,
}
pub mod Int
pub mod VarLen
pub mod Text
pub mod Sequence
pub mod Constant
pub mod Parse
pub mod Numbers
pub mod Unsigned
pub mod Signed
pub mod VarLenRuns
pub mod Texts
pub mod Sequences

-- `ok_or_else(unexpected_buf_eof)`
unfoldable pub ok_or_eof {ℓ} : {A : Type ℓ} → Parser (Option A) → Parser A
ok_or_eof p = p >>= elim [ none ↦ (λ buf. err unexpected_eof) | some a ↦ pure a ]

-- `A` read in a context `C`.
pub record MyDeserialize (C A : Type 0) : Type 0 where
  pub size : Option ℕ
  pub deserialize : C → Parser A

-- A value written behind what the vector holds.
abbrev pub MySerialize : Type 0 → Type 0
MySerialize A = A → Bytes → Bytes

unfoldable pub parse_unchecked : {C A : Type 0} → MyDeserialize C A → C → Parser A
parse_unchecked D ctx = D.deserialize ctx

unfoldable pub parse_buf : MyDeserialize ℕ Bytes
parse_buf = record { size = none; deserialize = λ len. ok_or_eof (checked_eat_buf len) }

-- The value of a parser that has a buffer of its own.
abbrev pub within {ℓ} : {A : Type ℓ} → Parser A → Bytes → Parser A
within p sub buf = Result.◌>>=◌ (p sub) (λ (a, _). pure a buf)

-- The `match` on `T::SIZE`.
abbrev pub parse_by_size : {C A : Type 0} → Option ℕ → MyDeserialize C A → C → Parser A
parse_by_size (some size) D ctx = parse_unchecked parse_buf size >>= within (parse_unchecked D ctx)
parse_by_size none D ctx = parse_unchecked D ctx

unfoldable pub parse : {C A : Type 0} → MyDeserialize C A → C → Parser A
parse D ctx = parse_by_size D.size D ctx

-- `&[u8]`
unfoldable pub byte_slice : MyDeserialize ℕ Bytes
byte_slice = record { size = none; deserialize = λ len. ok_or_eof (checked_eat len) }

-- `[u8; LEN]`
unfoldable pub byte_array : ℕ → MyDeserialize (Unit {0}) Bytes
byte_array n = record { size = some n; deserialize = λ _. eat n }

-- `Skip<LEN>`
unfoldable pub skipped : ℕ → MyDeserialize (Unit {0}) (Unit {0})
skipped n = record { size = some n; deserialize = λ _. skip n }

-- `Either<T, U>`
pub data Either (A B : Type 0) : Type 0 where
  left : A → Either A B
  right : B → Either A B

unfoldable pub either :
    {C D A B : Type 0}
    → MyDeserialize C A
    → MyDeserialize D B
    → MyDeserialize (Either C D) (Either A B)
either T U = record {
  size = none;
  deserialize = elim [
    | left ctx ↦ map_parser left (T.deserialize ctx)
    | right ctx ↦ map_parser right (U.deserialize ctx)
  ];
}

unfoldable pub serialize_either :
    {A B : Type 0} → MySerialize A → MySerialize B → MySerialize (Either A B)
serialize_either T U (left x) buf = T x buf
serialize_either T U (right x) buf = U x buf

module _ (B : BufMut) where
  -- `[u8]` and `[u8; LEN]`
  unfoldable pub serialize_bytes : MySerialize Bytes
  serialize_bytes s buf = B.put_slice buf s

  unfoldable pub serialize_skipped : ℕ → Bytes → Bytes
  serialize_skipped n buf = B.put_slice buf (replicate n 0)
