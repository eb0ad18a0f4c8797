-- ===== src/Packets/Fields.antt =====
-- How the fields of a packet are written one behind the other, and read in the same order.
use native.Mathlib.Nat.{one-mul}
use rust_mysql_common.Base.{
  ℕ, ◌^◌, ◌<◌, ◌≤◌, ◌≡◌, refl, ap, sym, ◌∙◌, some, [], ◌∷◌, ◌++◌, arith, append_assoc, append-nil,
  length, ◌==◌, ==_iff, true, if◌then◌else◌,
}
use rust_mysql_common.Base.Bytes.{
  Bytes, to_le_bytes, length-to_le_bytes, to_le_bytes-IsByte, from_le_bytes-to_le_bytes,
}
use rust_mysql_common.Base.Result
use rust_mysql_common.Base.Result.{ok, err}
use rust_mysql_common.Io.BufMut.{BufMut}
use rust_mysql_common.Io.ParseBuf.{
  Parser, pure, ◌>>=◌, map_parser, invalid_data, eat_num_le, eat_sized_le,
}
use rust_mysql_common.Io.Numbers.{eat-append, eat_num_le-to_le_bytes, or_bytes_whole}
use rust_mysql_common.Io.Write.{put_u24_le, put_u48_le, put_u56_le}
use rust_mysql_common.Raw.{MySerialize, MyDeserialize, parse, parse_buf, within, parse_unchecked}
use rust_mysql_common.Raw.Int.{
  raw_int, serialize_int, u8, le_u16, le_u24, le_u32, le_u48, le_u56, le_u64, const_u8,
  serialize_const_u8,
}
use rust_mysql_common.Raw.Parse.{parse-sized, RoundTrips, WholeTrips, parse_buf-append}
use rust_mysql_common.Raw.Numbers.{
  Width, w8, w16, w24, w32, w48, w56, w64, bytes_of, unsigned, byte_of,
}

-- `S` appends `w`.
abbrev pub Writes : (Bytes → Bytes) → Bytes → Type 0
Writes S w = (buf : Bytes) → S buf ≡ buf ++ w

-- `p` reads `x` from `w`, whatever follows.
pub record Reads {A : Type 0} (p : Parser A) (w : Bytes) (x : A) : Type 0 where
  pub on : (rest : Bytes) → p (w ++ rest) ≡ ok (x, rest)

-- `p` reads `x` from all that is left.
pub record Ends {A : Type 0} (p : Parser A) (w : Bytes) (x : A) : Type 0 where
  pub on : p w ≡ ok (x, [])

pub Writes-then :
    {S T : Bytes → Bytes} {v w : Bytes}
    → Writes S v
    → Writes T w
    → Writes (λ buf. T (S buf)) (v ++ w)
Writes-then {S} {T} {v} {w} hs ht buf =
    ht (S buf) ∙ ap (λ t. t ++ w) (hs buf) ∙ append_assoc buf v w

module _ {A : Type 0} where
  pub Reads-then :
      {B : Type 0} {p : Parser A} (f : A → Parser B) {v w : Bytes} {x : A} {y : B}
      → Reads p v x
      → Reads (f x) w y
      → Reads (p >>= f) (v ++ w) y
  Reads-then {B} {p} f {v} {w} {x} {y} hp hf = record {
    on = λ rest.
        ap (p >>= f) (append_assoc v w rest)
        ∙ Result.>>=-ok (p (v ++ (w ++ rest))) _ (hp.on (w ++ rest))
        ∙ hf.on rest;
  }

  pub Reads-map :
      {B : Type 0} {p : Parser A} (f : A → B) {w : Bytes} {x : A}
      → Reads p w x
      → Reads (map_parser f p) w (f x)
  Reads-map {B} {p} f {w} {x} h = record {
    on = λ rest. Result.>>=-ok (p (w ++ rest)) _ (h.on rest);
  }

  -- The last part reads all that is left.
  pub Ends-then :
      {B : Type 0} {p : Parser A} (f : A → Parser B) {v w : Bytes} {x : A} {y : B}
      → Reads p v x
      → Ends (f x) w y
      → Ends (p >>= f) (v ++ w) y
  Ends-then {B} {p} f {v} {w} {x} {y} hp hf = record {
    on = Result.>>=-ok (p (v ++ w)) _ (hp.on w) ∙ hf.on;
  }

  pub Ends-map :
      {B : Type 0} {p : Parser A} (f : A → B) {w : Bytes} {x : A}
      → Ends p w x
      → Ends (map_parser f p) w (f x)
  Ends-map {B} {p} f {w} {x} h = record { on = Result.>>=-ok (p w) _ h.on }

  pub Ends-of : {p : Parser A} {w : Bytes} {x : A} → Reads p w x → Ends p w x
  Ends-of {p} {w} {x} h = record { on = sym (ap p (append-nil w)) ∙ h.on [] }

  -- A part that is read through a buffer of its own.
  pub Reads-within :
      {n : ℕ} {p : Parser A} {w : Bytes} {x : A}
      → n ≡ length w
      → Reads p w x
      → Reads (parse parse_buf n >>= within p) w x
  unfolding parse parse_unchecked parse_buf
  Reads-within {n} {p} {w} {x} h hp = record {
    on = λ rest.
        Result.>>=-ok (parse parse_buf n (w ++ rest)) _ (parse_buf-append n w rest h)
        ∙ Result.>>=-ok (p w) _ (ap p (sym (append-nil w)) ∙ hp.on []);
  }

-- A value of a known size that takes all of it.
pub sized-Reads :
    {C A : Type 0} (D : MyDeserialize C A) (ctx : C) (n : ℕ) (w : Bytes) (x : A)
    → D.size ≡ some n
    → n ≡ length w
    → Reads (parse_unchecked D ctx) w x
    → Reads (parse D ctx) w x
unfolding parse_unchecked
sized-Reads D ctx n w x s h hr = record {
  on = λ rest.
      parse-sized D ctx n w rest [] x s h (ap (D.deserialize ctx) (sym (append-nil w)) ∙ hr.on []);
}

eat_sized_le-to_le_bytes :
    (word n x : ℕ) (rest : Bytes)
    → n ≤ word
    → x < 256 ^ n
    → eat_sized_le word n 0 (to_le_bytes n x ++ rest) ≡ ok (x, rest)
unfolding eat_sized_le
eat_sized_le-to_le_bytes word n x rest hw h = rw (
  eat-append n (to_le_bytes n x) rest (sym (length-to_le_bytes n x)),
  or_bytes_whole word 0 (to_le_bytes n x) (to_le_bytes-IsByte n x)
      (omega (arith, length-to_le_bytes n x)),
  from_le_bytes-to_le_bytes n x h,
  one-mul,
)

module _ (B : BufMut) where
  pub unsigned-Writes :
      (w : Width) (x : ℕ)
      → x < 256 ^ bytes_of w
      → Writes (serialize_int (unsigned B w) x) (to_le_bytes (bytes_of w) x)
  unfolding serialize_int u8 le_u16 le_u24 le_u32 le_u48 le_u56 le_u64 put_u24_le put_u48_le
      put_u56_le
  unsigned-Writes w8 x h buf = B.put_u8_lem buf x h ∙ ap (λ t. buf ++ t) (sym (byte_of x h))
  unsigned-Writes w16 x h buf = B.put_u16_le_lem buf x h
  unsigned-Writes w24 x h buf = B.put_uint_le_lem buf x 3 (omega arith) h
  unsigned-Writes w32 x h buf = B.put_u32_le_lem buf x h
  unsigned-Writes w48 x h buf = B.put_uint_le_lem buf x 6 (omega arith) h
  unsigned-Writes w56 x h buf = B.put_uint_le_lem buf x 7 (omega arith) h
  unsigned-Writes w64 x h buf = B.put_u64_le_lem buf x h

  pub unsigned-Reads_unchecked :
      (w : Width) (x : ℕ)
      → x < 256 ^ bytes_of w
      → Reads (parse_unchecked (raw_int (unsigned B w)) tt) (to_le_bytes (bytes_of w) x) x
  unfolding parse_unchecked raw_int u8 le_u16 le_u24 le_u32 le_u48 le_u56 le_u64
  unsigned-Reads_unchecked w8 x h = record { on = λ rest. eat_num_le-to_le_bytes 1 x rest h }
  unsigned-Reads_unchecked w16 x h = record { on = λ rest. eat_num_le-to_le_bytes 2 x rest h }
  unsigned-Reads_unchecked w24 x h = record {
    on = λ rest. eat_sized_le-to_le_bytes 4 3 x rest (omega arith) h;
  }
  unsigned-Reads_unchecked w32 x h = record { on = λ rest. eat_num_le-to_le_bytes 4 x rest h }
  unsigned-Reads_unchecked w48 x h = record {
    on = λ rest. eat_sized_le-to_le_bytes 8 6 x rest (omega arith) h;
  }
  unsigned-Reads_unchecked w56 x h = record {
    on = λ rest. eat_sized_le-to_le_bytes 8 7 x rest (omega arith) h;
  }
  unsigned-Reads_unchecked w64 x h = record { on = λ rest. eat_num_le-to_le_bytes 8 x rest h }

  size-unsigned : (w : Width) → (raw_int (unsigned B w)).size ≡ some (bytes_of w)
  unfolding raw_int u8 le_u16 le_u24 le_u32 le_u48 le_u56 le_u64
  size-unsigned w8 = refl
  size-unsigned w16 = refl
  size-unsigned w24 = refl
  size-unsigned w32 = refl
  size-unsigned w48 = refl
  size-unsigned w56 = refl
  size-unsigned w64 = refl

  pub unsigned-Reads :
      (w : Width) (x : ℕ)
      → x < 256 ^ bytes_of w
      → Reads (parse (raw_int (unsigned B w)) tt) (to_le_bytes (bytes_of w) x) x
  unsigned-Reads w x h =
      sized-Reads (raw_int (unsigned B w)) tt (bytes_of w) (to_le_bytes (bytes_of w) x) x
        (size-unsigned w) (sym (length-to_le_bytes (bytes_of w) x)) (unsigned-Reads_unchecked w x h)

  -- A header of one byte.
  pub header-Writes : (n : ℕ) → n < 256 → Writes (serialize_const_u8 B n) (n ∷ [])
  unfolding serialize_const_u8
  header-Writes n h buf = B.put_u8_lem buf n h

-- The test on a header that has been read.
abbrev header_test : ℕ → ℕ → Parser (Unit {0})
header_test n x = if x == n then pure tt else (λ buf. err invalid_data)

pub header-Reads_unchecked : (n : ℕ) → n < 256 → Reads (parse_unchecked (const_u8 n) tt) (n ∷ []) tt
unfolding parse_unchecked const_u8
header-Reads_unchecked n h =
    let e : (n == n) ≡ true = (==_iff n n).1 refl in
    record {
      on = λ rest.
          ap (λ t. (eat_num_le 1 >>= header_test n) (t ++ rest)) (sym (byte_of n h))
          ∙ Result.>>=-ok (eat_num_le 1 (to_le_bytes 1 n ++ rest)) _
              (eat_num_le-to_le_bytes 1 n rest h)
          ∙ rw e;
    }

pub header-Reads : (n : ℕ) → n < 256 → Reads (parse (const_u8 n) tt) (n ∷ []) tt
unfolding const_u8
header-Reads n h = sized-Reads (const_u8 n) tt 1 (n ∷ []) tt refl refl (header-Reads_unchecked n h)

-- A packet that is written as `w` and read from it.
module _ {C A : Type 0} {S : MySerialize A} {D : MyDeserialize C A} {ctx : C} {x : A} where
  pub round_trips : {w : Bytes} → Writes (S x) w → Reads (parse D ctx) w x → RoundTrips S D ctx x
  round_trips {w} hw hr = record { written = w; writes = hw; reads = hr.on }

  pub whole_trips : {w : Bytes} → Writes (S x) w → Ends (parse D ctx) w x → WholeTrips S D ctx x
  whole_trips {w} hw hr = record { written = w; writes = hw; reads = hr.on }
