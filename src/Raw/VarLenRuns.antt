-- ===== src/Raw/VarLenRuns.antt =====
-- src/misc/raw/int.rs, `VarLen`: what its loops do.
use rust_mysql_common.Base.{ℕ, zero, suc, ◌/◌, ◌%◌, ◌<◌, ◌≡◌, refl, bit_and, none, arith}
use rust_mysql_common.Base.Bytes.{Bytes}
use rust_mysql_common.Io.BufMut.{BufMut}
use rust_mysql_common.Raw.VarLen.{serialize_var_len}

-- Below 128 `serialize` never leaves its loop: no number of rounds is enough.
pub serialize_var_len_loops :
    (B : BufMut) (fuel val : ℕ) (buf : Bytes) → val < 128 → serialize_var_len B fuel val buf ≡ none
unfolding serialize_var_len
serialize_var_len_loops B zero val buf h = refl
serialize_var_len_loops B (suc fuel) val buf h =
    let e : val / 128 ≡ 0 = omega arith in
    rw (e, serialize_var_len_loops B fuel 0 (B.put_u8 buf (bit_and val 0x7f % 256)) (omega arith))
