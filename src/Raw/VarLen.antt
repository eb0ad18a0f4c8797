-- ===== src/Raw/VarLen.antt =====
-- src/misc/raw/int.rs, `VarLen`: the variable-length integers of JSONB.
use rust_mysql_common.Base.{
  ℕ, zero, suc, ◌+◌, ◌*◌, ◌/◌, ◌%◌, ◌^◌, ◌-◌, bit_and, bit_or, Option, none, some, ltb, ◌==◌,
  if◌then◌else◌,
}
use rust_mysql_common.Base.Bytes.{Bytes}
use rust_mysql_common.Base.Result.{err}
use rust_mysql_common.Io.BufMut.{BufMut}
use rust_mysql_common.Io.ParseBuf.{invalid_data, Parser, pure, ◌>>=◌}
use rust_mysql_common.Raw.{parse}
use rust_mysql_common.Raw.Int.{raw_int, u8}

-- `VarLen::serialize`: `none` if the loop is not left within `fuel` rounds.
unfoldable pub serialize_var_len : BufMut → ℕ → ℕ → Bytes → Option Bytes
serialize_var_len B zero val buf = none
serialize_var_len B (suc fuel) val buf =
    let byte : ℕ = bit_and val 0x7f % 256 in
    let again = serialize_var_len B fuel (val / 2 ^ 7) (B.put_u8 buf byte) in
    if val / 2 ^ 7 == 0 then again else some (B.put_u8 buf (bit_or byte 0x80))

-- The loop of `VarLen::deserialize`: the rounds that are left, `i` and `len`.
unfoldable pub var_len_loop : BufMut → ℕ → ℕ → ℕ → Parser ℕ
var_len_loop B zero i len = λ buf. err invalid_data
var_len_loop B (suc rounds) i len = parse (raw_int (u8 B)) tt >>= λ byte.
    let len' : ℕ = bit_or len (bit_and byte 0x7f * 2 ^ (7 * i) % 2 ^ 64) in
    let more = var_len_loop B rounds (i + 1) len' in
    if bit_and byte 0x80 == 0
    then (if ltb (2 ^ 32 - 1) len' then (λ buf. err invalid_data) else pure (len' % 2 ^ 32))
    else more

abbrev pub max_repr_len : ℕ
max_repr_len = 5

unfoldable pub var_len : BufMut → Parser ℕ
var_len B = var_len_loop B max_repr_len 0 0
