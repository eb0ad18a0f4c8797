-- ===== src/Raw/Unsigned.antt =====
-- src/misc/raw/int.rs: the representations of unsigned integers, length-encoded ones and the halves of
-- a word among them.
use rust_mysql_common.Base.{
  ℕ, ◌*◌, ◌/◌, ◌%◌, ◌^◌, ◌<◌, ◌≡◌, refl, ap, ◌∙◌, bit_and, arith, [], ◌++◌,
}
use rust_mysql_common.Base.Bytes.{to_le_bytes}
use rust_mysql_common.Base.Masks.{bit_and-low}
use rust_mysql_common.Base.Result
use rust_mysql_common.Base.Result.{ok}
use rust_mysql_common.Io.BufMut.{BufMut}
use rust_mysql_common.Io.ParseBuf.{eat_num_le}
use rust_mysql_common.Io.Numbers.{eat_num_le-to_le_bytes}
use rust_mysql_common.Io.RoundTrip.{lenenc, put_lenenc_int-lenenc}
use rust_mysql_common.Raw.Int.{
  IntRepr, raw_int, serialize_int, le_u16, len_enc, le_u32_lower_half, le_u32_upper_half,
}
use rust_mysql_common.Raw.Parse.{RoundTrips}
use rust_mysql_common.Raw.Numbers.{Width, bytes_of, unsigned, unsigned-RoundTrips, sized-RoundTrips}
use rust_mysql_common.Raw.Texts.{parse-len_enc}

-- The representations: those of a number of bytes, `LenEnc`, `LeU32LowerHalf` and `LeU32UpperHalf`.
pub data Unsigned : Type 0 where
  of_width : Width → Unsigned
  length_encoded lower_half upper_half : Unsigned

abbrev pub representation : BufMut → Unsigned → IntRepr ℕ
representation B (of_width w) = unsigned B w
representation B length_encoded = len_enc B
representation B lower_half = le_u32_lower_half B
representation B upper_half = le_u32_upper_half B

-- The numbers that a representation can hold.
abbrev pub Holds : Unsigned → ℕ → Type 0
Holds (of_width w) x = x < 256 ^ bytes_of w
Holds length_encoded x = x < 2 ^ 64
Holds lower_half x = x < 2 ^ 16
Holds upper_half x = (x < 2 ^ 32) × (x % 2 ^ 16 ≡ 0)

-- Every number that a representation holds, up to 8, 16, 24, 32, 48, 56 or 64 bits, below 2 ^ 64 for
-- `LenEnc`, below 2 ^ 16 for `LeU32LowerHalf` and a multiple of 2 ^ 16 below 2 ^ 32 for
-- `LeU32UpperHalf`, is read back by `parse`, whatever follows it, and nothing more is consumed.
pub representation-RoundTrips :
    (B : BufMut) (r : Unsigned) (x : ℕ)
    → Holds r x
    → RoundTrips (serialize_int (representation B r)) (raw_int (representation B r)) tt x
unfolding serialize_int len_enc le_u16 le_u32_lower_half le_u32_upper_half
representation-RoundTrips B (of_width w) x h = unsigned-RoundTrips B w x h
representation-RoundTrips B length_encoded x h = record {
  written = lenenc x;
  writes = λ buf. put_lenenc_int-lenenc B buf x h;
  reads = λ rest. parse-len_enc B x rest h;
}
representation-RoundTrips B lower_half x h =
    let e : bit_and x 0xffff % 2 ^ 16 ≡ x = omega (arith, bit_and-low 16 x h) in
    sized-RoundTrips (le_u32_lower_half B) x 2 x refl
      (λ buf. ap (λ v. B.put_u16_le buf v) e ∙ B.put_u16_le_lem buf x h)
      (eat_num_le-to_le_bytes 2 x [] h)
representation-RoundTrips B upper_half x (h, low) =
    let high : ℕ = x / 2 ^ 16 in
    let e : high % 2 ^ 16 ≡ high = omega arith in
    let back : high * 2 ^ 16 % 2 ^ 32 ≡ x = omega arith in
    sized-RoundTrips (le_u32_upper_half B) x 2 high refl
      (λ buf. ap (λ v. B.put_u16_le buf v) e ∙ B.put_u16_le_lem buf high (omega arith))
      (Result.>>=-ok (eat_num_le 2 (to_le_bytes 2 high ++ [])) _
          (eat_num_le-to_le_bytes 2 high [] (omega arith))
        ∙ ap (λ v. ok (v, [])) back)
