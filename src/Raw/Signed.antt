-- ===== src/Raw/Signed.antt =====
-- src/misc/raw/int.rs: the representations of signed integers, written and read.
use native.Mathlib.Nat.{two-pow-succ, one-le-pow, mod-eq_of_lt, mod-lt}
use rust_mysql_common.Base.{
  ℕ, suc, ◌-◌, ◌/◌, ◌%◌, ◌^◌, ◌<◌, ◌≡◌, refl, ap, sym, ◌∙◌, [], ◌++◌, arith, append-nil, lt→ltb,
  le→ltb_false,
}
use rust_mysql_common.Base.Bytes.{Bytes, to_le_bytes, length-to_le_bytes}
use rust_mysql_common.Base.Int.{ℤ, pos, negsuc, wrap, signed, IsInt}
use rust_mysql_common.Base.Result
use rust_mysql_common.Base.Result.{ok}
use rust_mysql_common.Io.BufMut.{BufMut}
use rust_mysql_common.Io.Write.{put_i24_le}
use rust_mysql_common.Io.ParseBuf.{map_parser, eat_num_le, eat_sized_le}
use rust_mysql_common.Io.Numbers.{eat_num_le-to_le_bytes}
use rust_mysql_common.Raw.{parse}
use rust_mysql_common.Raw.Int.{IntRepr, raw_int, serialize_int, i8, le_i16, le_i24, le_i32, le_i64}
use rust_mysql_common.Raw.Parse.{RoundTrips, parse-sized}
use rust_mysql_common.Raw.Numbers.{sized-RoundTrips, eat_sized-ok}

-- A word of two's complement is read back.
signed-wrap : (w : ℕ) (z : ℤ) → IsInt w z → signed w (wrap (suc w) z) ≡ z
unfolding signed wrap
signed-wrap w (pos n) h =
    let e : n % 2 ^ suc w ≡ n = mod-eq_of_lt (omega (arith, two-pow-succ w)) in
    rw (e, lt→ltb n (2 ^ w) h)
signed-wrap w (negsuc n) h =
    let e : n % 2 ^ suc w ≡ n = mod-eq_of_lt (omega (arith, two-pow-succ w)) in
    let back : 2 ^ suc w - 1 - (2 ^ suc w - 1 - n) ≡ n = omega (arith, two-pow-succ w) in
    rw (e, le→ltb_false (2 ^ suc w - 1 - n) (2 ^ w) (omega (arith, two-pow-succ w)), back)

wrap-lt : (w : ℕ) (z : ℤ) → wrap w z < 2 ^ w
unfolding wrap
wrap-lt w (pos n) = mod-lt n (one-le-pow w 2 (omega arith))
wrap-lt w (negsuc n) = omega (arith, one-le-pow w 2 (omega arith))

-- The widths of the signed integers that a primitive type has.
pub data SignedWidth : Type 0 where
  s8 s16 s32 s64 : SignedWidth

-- The bits beside the sign.
abbrev pub magnitude : SignedWidth → ℕ
magnitude s8 = 7
magnitude s16 = 15
magnitude s32 = 31
magnitude s64 = 63

abbrev pub signed_repr : BufMut → SignedWidth → IntRepr ℤ
signed_repr B s8 = i8 B
signed_repr B s16 = le_i16 B
signed_repr B s32 = le_i32 B
signed_repr B s64 = le_i64 B

eat_signed :
    (n w : ℕ) (z : ℤ) (x : ℕ)
    → x < 256 ^ n
    → signed w x ≡ z
    → map_parser (signed w) (eat_num_le n) (to_le_bytes n x ++ []) ≡ ok (z, [])
eat_signed n w z x h e =
    Result.>>=-ok (eat_num_le n (to_le_bytes n x ++ [])) _ (eat_num_le-to_le_bytes n x [] h)
    ∙ ap (λ y. ok (y, [])) e

-- For every integer of a primitive type's width, what `serialize` writes is read back by `parse`,
-- sign and all, whatever follows it.
pub signed-RoundTrips :
    (B : BufMut) (w : SignedWidth) (z : ℤ)
    → IsInt (magnitude w) z
    → RoundTrips (serialize_int (signed_repr B w)) (raw_int (signed_repr B w)) tt z
unfolding i8 le_i16 le_i32 le_i64
signed-RoundTrips B s8 z h =
    sized-RoundTrips (i8 B) z 1 (wrap 8 z) refl (λ buf. B.put_i8_lem buf z)
      (eat_signed 1 7 z (wrap 8 z) (wrap-lt 8 z) (signed-wrap 7 z h))
signed-RoundTrips B s16 z h =
    sized-RoundTrips (le_i16 B) z 2 (wrap 16 z) refl (λ buf. B.put_i16_le_lem buf z)
      (eat_signed 2 15 z (wrap 16 z) (wrap-lt 16 z) (signed-wrap 15 z h))
signed-RoundTrips B s32 z h =
    sized-RoundTrips (le_i32 B) z 4 (wrap 32 z) refl (λ buf. B.put_i32_le_lem buf z)
      (eat_signed 4 31 z (wrap 32 z) (wrap-lt 32 z) (signed-wrap 31 z h))
signed-RoundTrips B s64 z h =
    sized-RoundTrips (le_i64 B) z 8 (wrap 64 z) refl (λ buf. B.put_i64_le_lem buf z)
      (eat_signed 8 63 z (wrap 64 z) (wrap-lt 64 z) (signed-wrap 63 z h))

small_signed : (x : ℕ) → x < 2 ^ 24 → signed 31 x ≡ pos x
unfolding signed
small_signed x h = rw (lt→ltb x (2 ^ 31) (omega arith))

-- The low three bytes of a word.
low_24 : (x : ℕ) → to_le_bytes 3 x ≡ to_le_bytes 3 (x % 2 ^ 24)
unfolding to_le_bytes
low_24 x =
    let a : x % 2 ^ 24 % 256 ≡ x % 256 = omega arith in
    let b : x % 2 ^ 24 / 256 % 256 ≡ x / 256 % 256 = omega arith in
    let c : x % 2 ^ 24 / 256 / 256 % 256 ≡ x / 256 / 256 % 256 = omega arith in rw (a, b, c)

-- Whatever integer `LeI24` writes, what `parse` reads back is never negative: it is the number of
-- the three bytes, so for a negative integer of 24 bits it is too large by 2 ^ 24.
pub le_i24-loses_sign :
    (B : BufMut) (z : ℤ)
    → (written : Bytes) × ((buf : Bytes) → serialize_int (le_i24 B) z buf ≡ buf ++ written)
      × ((rest : Bytes)
          → parse (raw_int (le_i24 B)) tt (written ++ rest) ≡ ok (pos (wrap 64 z % 2 ^ 24), rest))
unfolding le_i24 put_i24_le serialize_int raw_int
le_i24-loses_sign B z =
    let x : ℕ = wrap 64 z % 2 ^ 24 in
    let small : x < 256 ^ 3 = mod-lt (wrap 64 z) (omega arith) in
    (
      to_le_bytes 3 x,
      λ buf. B.put_int_le_lem buf z 3 (omega arith) ∙ ap (λ t. buf ++ t) (low_24 (wrap 64 z)),
      λ rest.
          parse-sized (raw_int (le_i24 B)) tt 3 (to_le_bytes 3 x) rest [] (pos x) refl
            (sym (length-to_le_bytes 3 x))
            (sym (ap (map_parser (signed 31) (eat_sized_le 4 3 0)) (append-nil (to_le_bytes 3 x)))
              ∙ Result.>>=-ok (eat_sized_le 4 3 0 (to_le_bytes 3 x ++ [])) _
                  (eat_sized-ok 4 3 x (omega arith) small)
              ∙ ap (λ y. ok (y, [])) (small_signed x small)),
    )
