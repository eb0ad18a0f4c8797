-- ===== src/Io/Lenenc.antt =====
-- src/io.rs, `ParseBuf`: length-encoded integers and strings, strings with a length prefix, and
-- null-terminated strings. src/misc/mod.rs: the length of a length-encoded value.
use rust_mysql_common.Base.{
  ℕ, ◌+◌, Option, none, some, [], ◌∷◌, ltb, leb, ◌==◌, if◌then◌else◌, length,
}
use rust_mysql_common.Base.Bytes.{Bytes}
use rust_mysql_common.Io.ParseBuf.{
  Parser, pure, map_parser, ◌>>=◌, and_then, len, eat, checked, checked_eat, eat_num_le,
  eat_sized_le,
}

-- The arms of the `match` on the first byte, in both methods.
unfoldable pub lenenc_arms : ℕ → Parser ℕ
lenenc_arms x =
    if leb x 0xfa
    then pure x
    else if x == 0xfc
    then eat_num_le 2
    else if x == 0xfd
    then eat_sized_le 4 3 0
    else if x == 0xfe
    then eat_num_le 8
    else pure 0

unfoldable pub checked_lenenc_arms : ℕ → Parser (Option ℕ)
checked_lenenc_arms x =
    if leb x 0xfa
    then pure (some x)
    else if x == 0xfc
    then checked 2 (eat_num_le 2)
    else if x == 0xfd
    then checked 3 (eat_sized_le 4 3 0)
    else if x == 0xfe
    then checked 8 (eat_num_le 8)
    else pure (some 0)

unfoldable pub eat_lenenc_int : Parser ℕ
eat_lenenc_int = eat_num_le 1 >>= lenenc_arms

unfoldable pub checked_eat_lenenc_int : Parser (Option ℕ)
checked_eat_lenenc_int = and_then (checked 1 (eat_num_le 1)) checked_lenenc_arms

-- On a 64-bit machine `len as usize` keeps the length.
unfoldable pub eat_lenenc_str : Parser Bytes
eat_lenenc_str = do len ← eat_lenenc_int; eat len

unfoldable pub checked_eat_lenenc_str : Parser (Option Bytes)
checked_eat_lenenc_str = and_then checked_eat_lenenc_int checked_eat

unfoldable pub eat_u8_str : Parser Bytes
eat_u8_str = do len ← eat_num_le 1; eat len

unfoldable pub checked_eat_u8_str : Parser (Option Bytes)
checked_eat_u8_str = and_then (checked 1 (eat_num_le 1)) checked_eat

unfoldable pub eat_u32_str : Parser Bytes
eat_u32_str = do len ← eat_num_le 4; eat len

unfoldable pub checked_eat_u32_str : Parser (Option Bytes)
checked_eat_u32_str = and_then (checked 4 (eat_num_le 4)) checked_eat

-- `iter().position(|x| *x == b)`.
unfoldable pub position : ℕ → Bytes → Option ℕ
position b [] = none
position b (x ∷ xs) =
    if x == b then some 0 else elim (position b xs) [ none ↦ none | some i ↦ some (i + 1) ]

-- `[head @ .., 0_u8] => head, x => x`.
unfoldable pub strip_null : Bytes → Bytes
strip_null [] = []
strip_null (x ∷ []) = if x == 0 then [] else x ∷ []
strip_null (x ∷ y ∷ xs) = x ∷ strip_null (y ∷ xs)

unfoldable pub eat_null_str : Parser Bytes
eat_null_str buf =
    let pos : ℕ = elim (position 0 buf) [ some x ↦ x + 1 | none ↦ len buf ] in
    map_parser strip_null (eat pos) buf

unfoldable pub lenenc_int_len : ℕ → ℕ
lenenc_int_len x =
    if ltb x 251 then 1 else if ltb x 65_536 then 3 else if ltb x 16_777_216 then 4 else 9

unfoldable pub lenenc_str_len : Bytes → ℕ
lenenc_str_len s = let len = length s in lenenc_int_len len + len
