-- ===== src/Raw/Numbers.antt =====
-- src/misc/raw/int.rs: the representations of unsigned integers, written and read.
use rust_mysql_common.Base.{
  ℕ, ◌%◌, ◌^◌, ◌<◌, ◌≤◌, ◌≡◌, refl, ap, sym, ◌∙◌, some, [], ◌∷◌, ◌++◌, arith, append-nil,
}
use rust_mysql_common.Base.Bytes.{Bytes, to_le_bytes, length-to_le_bytes, to_le_bytes-IsByte}
use rust_mysql_common.Base.Result.{ok}
use rust_mysql_common.Io.BufMut.{BufMut}
use rust_mysql_common.Io.Write.{put_u24_le, put_u48_le, put_u56_le}
use rust_mysql_common.Io.ParseBuf.{eat_num_le, eat_sized_le}
use rust_mysql_common.Io.Numbers.{eat_num_le-to_le_bytes, eat_sized_le-eq-eat_num_le}
use rust_mysql_common.Raw.Int.{
  IntRepr, raw_int, serialize_int, u8, le_u16, le_u24, le_u32, le_u48, le_u56, le_u64,
}
use rust_mysql_common.Raw.Parse.{RoundTrips, parse-sized}

-- A representation of `n` bytes.
pub sized-RoundTrips :
    {P : Type 0} (R : IntRepr P) (x : P) (n w : ℕ)
    → R.size ≡ some n
    → ((buf : Bytes) → R.serialize x buf ≡ buf ++ to_le_bytes n w)
    → R.deserialize (to_le_bytes n w ++ []) ≡ ok (x, [])
    → RoundTrips (serialize_int R) (raw_int R) tt x
unfolding serialize_int raw_int
sized-RoundTrips R x n w s ser de = record {
  written = to_le_bytes n w;
  writes = ser;
  reads = λ rest.
      parse-sized (raw_int R) tt n (to_le_bytes n w) rest [] x s (sym (length-to_le_bytes n w))
        (sym (ap R.deserialize (append-nil (to_le_bytes n w))) ∙ de);
}

-- The widths of unsigned integers, with their representations.
pub data Width : Type 0 where
  w8 w16 w24 w32 w48 w56 w64 : Width

abbrev pub bytes_of : Width → ℕ
bytes_of w8 = 1
bytes_of w16 = 2
bytes_of w24 = 3
bytes_of w32 = 4
bytes_of w48 = 6
bytes_of w56 = 7
bytes_of w64 = 8

abbrev pub unsigned : BufMut → Width → IntRepr ℕ
unsigned B w8 = u8 B
unsigned B w16 = le_u16 B
unsigned B w24 = le_u24 B
unsigned B w32 = le_u32 B
unsigned B w48 = le_u48 B
unsigned B w56 = le_u56 B
unsigned B w64 = le_u64 B

pub byte_of : (x : ℕ) → x < 256 → to_le_bytes 1 x ≡ x ∷ []
unfolding to_le_bytes
byte_of x h = let e : x % 256 ≡ x = omega arith in rw e

pub eat_sized-ok :
    (word n x : ℕ)
    → n ≤ word
    → x < 256 ^ n
    → eat_sized_le word n 0 (to_le_bytes n x ++ []) ≡ ok (x, [])
eat_sized-ok word n x h hx =
    ap (eat_sized_le word n 0) (append-nil (to_le_bytes n x))
    ∙ eat_sized_le-eq-eat_num_le word n (to_le_bytes n x) h (to_le_bytes-IsByte n x)
    ∙ sym (ap (eat_num_le n) (append-nil (to_le_bytes n x)))
    ∙ eat_num_le-to_le_bytes n x [] hx

-- For every number of a representation's width, what `serialize` writes is read back by `parse`,
-- whatever follows it, and nothing more is consumed.
pub unsigned-RoundTrips :
    (B : BufMut) (w : Width) (x : ℕ)
    → x < 256 ^ bytes_of w
    → RoundTrips (serialize_int (unsigned B w)) (raw_int (unsigned B w)) tt x
unfolding u8 le_u16 le_u24 le_u32 le_u48 le_u56 le_u64 put_u24_le put_u48_le put_u56_le
unsigned-RoundTrips B w8 x h =
    sized-RoundTrips (u8 B) x 1 x refl
      (λ buf. B.put_u8_lem buf x h ∙ ap (λ t. buf ++ t) (sym (byte_of x h)))
      (eat_num_le-to_le_bytes 1 x [] h)
unsigned-RoundTrips B w16 x h =
    sized-RoundTrips (le_u16 B) x 2 x refl (λ buf. B.put_u16_le_lem buf x h)
      (eat_num_le-to_le_bytes 2 x [] h)
unsigned-RoundTrips B w24 x h =
    sized-RoundTrips (le_u24 B) x 3 x refl (λ buf. B.put_uint_le_lem buf x 3 (omega arith) h)
      (eat_sized-ok 4 3 x (omega arith) h)
unsigned-RoundTrips B w32 x h =
    sized-RoundTrips (le_u32 B) x 4 x refl (λ buf. B.put_u32_le_lem buf x h)
      (eat_num_le-to_le_bytes 4 x [] h)
unsigned-RoundTrips B w48 x h =
    sized-RoundTrips (le_u48 B) x 6 x refl (λ buf. B.put_uint_le_lem buf x 6 (omega arith) h)
      (eat_sized-ok 8 6 x (omega arith) h)
unsigned-RoundTrips B w56 x h =
    sized-RoundTrips (le_u56 B) x 7 x refl (λ buf. B.put_uint_le_lem buf x 7 (omega arith) h)
      (eat_sized-ok 8 7 x (omega arith) h)
unsigned-RoundTrips B w64 x h =
    sized-RoundTrips (le_u64 B) x 8 x refl (λ buf. B.put_u64_le_lem buf x h)
      (eat_num_le-to_le_bytes 8 x [] h)
