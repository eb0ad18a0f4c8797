-- ===== src/Io/Write.antt =====
-- src/io.rs, `BufMutExt`: what is written in MySql's formats. Each writer takes what the buffer
-- holds and returns what it holds afterwards.
use rust_mysql_common.Base.{ℕ, ◌-◌, ◌^◌, ◌%◌, ltb, if◌then◌else◌, length, take, min}
use rust_mysql_common.Base.Bytes.{Bytes}
use rust_mysql_common.Base.Int.{ℤ}
use rust_mysql_common.Io.BufMut.{BufMut}

module _ (B : BufMut) where
  open B use {put_slice, put_u8, put_u32_le, put_uint_le, put_int_le}

  unfoldable pub put_lenenc_int : Bytes → ℕ → Bytes
  put_lenenc_int buf n =
      if ltb n 251
      then put_u8 buf (n % 256)
      else if ltb n 65_536
      then put_uint_le (put_u8 buf 0xfc) n 2
      else if ltb n 16_777_216
      then put_uint_le (put_u8 buf 0xfd) n 3
      else put_uint_le (put_u8 buf 0xfe) n 8

  -- A slice is shorter than 2 ^ 64 bytes, so `s.len() as u64` keeps its length.
  unfoldable pub put_lenenc_str : Bytes → Bytes → Bytes
  put_lenenc_str buf s = put_slice (put_lenenc_int buf (length s)) s

  unfoldable pub put_u24_le : Bytes → ℕ → Bytes
  put_u24_le buf x = put_uint_le buf x 3

  unfoldable pub put_i24_le : Bytes → ℤ → Bytes
  put_i24_le buf x = put_int_le buf x 3

  unfoldable pub put_u48_le : Bytes → ℕ → Bytes
  put_u48_le buf x = put_uint_le buf x 6

  unfoldable pub put_u56_le : Bytes → ℕ → Bytes
  put_u56_le buf x = put_uint_le buf x 7

  unfoldable pub put_i56_le : Bytes → ℤ → Bytes
  put_i56_le buf x = put_int_le buf x 7

  unfoldable pub put_u8_str : Bytes → Bytes → Bytes
  put_u8_str buf s = let len = min (length s) 255 in put_slice (put_u8 buf (len % 256)) (take len s)

  unfoldable pub put_u32_str : Bytes → Bytes → Bytes
  put_u32_str buf s =
      let len = min (length s) (2 ^ 32 - 1) in
      put_slice (put_u32_le buf (len % 2 ^ 32)) (take len s)
