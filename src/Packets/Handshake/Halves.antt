-- ===== src/Packets/Handshake/Halves.antt =====
-- src/packets/mod.rs: the halves of the capabilities in `HandshakePacket`.
use rust_mysql_common.Base.{ℕ, ◌*◌, ◌/◌, ◌%◌, ◌^◌, ◌<◌, ◌≡◌, ap, ◌∙◌, bit_and, arith}
use rust_mysql_common.Base.Bytes.{to_le_bytes}
use rust_mysql_common.Base.Masks.{bit_and-low}
use rust_mysql_common.Base.Result.{ok}
use rust_mysql_common.Io.BufMut.{BufMut}
use rust_mysql_common.Raw.{parse_unchecked}
use rust_mysql_common.Raw.Int.{serialize_int, raw_int, le_u16, le_u32_lower_half, le_u32_upper_half}
use rust_mysql_common.Raw.Numbers.{w16}
use rust_mysql_common.Raw.Constant.{raw_const, serialize_constant}
use rust_mysql_common.Packets.Fields.{Writes, Reads, Reads-map, unsigned-Reads_unchecked}

module _ (B : BufMut) where
  -- The halves of the capabilities.
  pub lower-Writes :
      (x : ℕ)
      → x < 2 ^ 16
      → Writes (serialize_constant (le_u32_lower_half B) (λ bits. bits) x) (to_le_bytes 2 x)
  unfolding serialize_constant serialize_int le_u32_lower_half le_u16
  lower-Writes x h buf =
      let e : bit_and x 0xffff % 2 ^ 16 ≡ x = omega (arith, bit_and-low 16 x h) in
      ap (λ v. B.put_u16_le buf v) e ∙ B.put_u16_le_lem buf x h

  pub lower-Reads_unchecked :
      (x : ℕ)
      → x < 2 ^ 16
      → Reads (parse_unchecked (raw_const (le_u32_lower_half B)) tt) (to_le_bytes 2 x) x
  unfolding raw_const raw_int le_u32_lower_half le_u16 parse_unchecked
  lower-Reads_unchecked x h = record { on = (unsigned-Reads_unchecked B w16 x h).on }

  pub upper-Writes :
      (x : ℕ)
      → x < 2 ^ 32
      → Writes
          (serialize_constant (le_u32_upper_half B) (λ bits. bits) x)
          (to_le_bytes 2 (x / 2 ^ 16))
  unfolding serialize_constant serialize_int le_u32_upper_half le_u16
  upper-Writes x h buf =
      let e : x / 2 ^ 16 % 2 ^ 16 ≡ x / 2 ^ 16 = omega arith in
      ap (λ v. B.put_u16_le buf v) e ∙ B.put_u16_le_lem buf (x / 2 ^ 16) (omega arith)

  pub upper-Reads_unchecked :
      (x : ℕ)
      → x < 2 ^ 32
      → x % 2 ^ 16 ≡ 0
      → Reads (parse_unchecked (raw_const (le_u32_upper_half B)) tt) (to_le_bytes 2 (x / 2 ^ 16)) x
  unfolding raw_const raw_int le_u32_upper_half le_u16 parse_unchecked
  upper-Reads_unchecked x h low =
      let e : x / 2 ^ 16 * 2 ^ 16 % 2 ^ 32 ≡ x = omega arith in
      record {
        on = λ rest.
            (Reads-map (λ v. v * 2 ^ 16 % 2 ^ 32)
                (unsigned-Reads_unchecked B w16 (x / 2 ^ 16) (omega arith))).on
              rest
            ∙ ap (λ v. ok (v, rest)) e;
      }
