-- ===== src/Packets/Strings.antt =====
-- The fields of a packet that are byte strings, flags or fillers, written and read.
use native.Mathlib.Nat.{mod-eq_of_lt}
use rust_mysql_common.Base.{
  le→leb, length-append, drop-append_self, ℕ, ◌-◌, ◌%◌, ◌^◌, ◌<◌, ◌≤◌, ◌≡◌, refl, ap, sym, ◌∙◌,
  Option, some, [], ◌++◌, arith, append_assoc, append-nil, length, replicate, min, take, take_all,
}
use rust_mysql_common.Base.Bytes.{Bytes, to_le_bytes}
use rust_mysql_common.Base.Result
use rust_mysql_common.Base.Result.{ok, err}
use rust_mysql_common.Io.BufMut.{BufMut}
use rust_mysql_common.Io.ParseBuf.{skip, eat_all, eat, checked_eat, len, eat_num_le, checked}
use rust_mysql_common.Io.Numbers.{eat-append}
use rust_mysql_common.Io.Lenenc.{checked_eat_u32_str}
use rust_mysql_common.Io.RoundTrip.{lenenc, checked_num, checked-append}
use rust_mysql_common.Io.Write.{put_u8_str, put_u32_str}
use rust_mysql_common.Raw.{
  skipped, parse, parse_unchecked, byte_array, serialize_bytes, serialize_skipped, ok_or_eof,
}
use rust_mysql_common.Raw.Texts.{parse-len_enc, length-replicate}
use rust_mysql_common.Raw.Int.{len_enc, IntRepr, raw_int, serialize_int}
use rust_mysql_common.Raw.Parse.{parse-unsized, checked_eat-ok, ok_or_eof-eq}
use rust_mysql_common.Raw.Numbers.{w8, byte_of}
use rust_mysql_common.Raw.Text.{
  raw_bytes, serialize_raw, u8_bytes, u32_bytes, eof_bytes, len_enc_bytes,
}
use rust_mysql_common.Raw.Constant.{constant, serialize_constant, ok_or_invalid}
use rust_mysql_common.Packets.Fields.{Writes, Reads, Reads-then, Ends, sized-Reads, unsigned-Reads}

-- A string whose length has been read.
pub eaten-Reads : (text : Bytes) → Reads (ok_or_eof (checked_eat (length text))) text text
eaten-Reads text = record { on = λ rest. checked_eat-ok (length text) text rest refl }

-- Bytes that end the buffer.
module _ (B : BufMut) where
  pub eof-Writes : (text : Bytes) → Writes (serialize_raw (eof_bytes B) text) text
  unfolding serialize_raw eof_bytes
  eof-Writes text buf = B.put_slice_lem buf text

  pub eof-Ends : (text : Bytes) → Ends (parse (raw_bytes (eof_bytes B)) tt) text text
  unfolding raw_bytes eof_bytes eat_all len
  eof-Ends text = record {
    on =
        ap (λ p. p text) (parse-unsized (raw_bytes (eof_bytes B)) tt refl)
        ∙ ap (eat (length text)) (sym (append-nil text))
        ∙ eat-append (length text) text [] refl;
  }

  put_u8_str-eq :
      (buf text : Bytes)
      → put_u8_str B buf text
        ≡ B.put_slice
            (B.put_u8 buf (min (length text) 255 % 256))
            (take (min (length text) 255) text)
  unfolding put_u8_str
  put_u8_str-eq buf text = refl

  put_u32_str-eq :
      (buf text : Bytes)
      → put_u32_str B buf text
        ≡ B.put_slice
            (B.put_u32_le buf (min (length text) (2 ^ 32 - 1) % 2 ^ 32))
            (take (min (length text) (2 ^ 32 - 1)) text)
  unfolding put_u32_str
  put_u32_str-eq buf text = refl

  -- A length-encoded integer, and a string behind its length as one.
  pub len_enc-Reads : (n : ℕ) → n < 2 ^ 64 → Reads (parse (raw_int (len_enc B)) tt) (lenenc n) n
  len_enc-Reads n h = record { on = λ rest. parse-len_enc B n rest h }

  pub lenenc_str-Reads :
      (text : Bytes)
      → length text < 2 ^ 64
      → Reads (parse (raw_bytes (len_enc_bytes B)) tt) (lenenc (length text) ++ text) text
  unfolding raw_bytes len_enc_bytes parse parse_unchecked
  lenenc_str-Reads text h =
      Reads-then (λ n. ok_or_eof (checked_eat n)) (len_enc-Reads (length text) h) (eaten-Reads text)

  -- A length in one byte.
  pub u8-Writes :
      (text : Bytes)
      → length text ≤ 255
      → Writes (serialize_raw (u8_bytes B) text) (to_le_bytes 1 (length text) ++ text)
  unfolding serialize_raw u8_bytes
  u8-Writes text h buf =
      let kept : min (length text) 255 ≡ length text = omega arith in
      let small : length text < 256 = omega arith in
      put_u8_str-eq buf text
      ∙ rw (kept, mod-eq_of_lt small, take_all (length text) text (omega arith))
          (B.put_slice_lem _ text
            ∙ ap (λ t. t ++ text) (B.put_u8_lem buf (length text) small)
            ∙ append_assoc buf _ text
            ∙ ap (λ t. buf ++ (t ++ text)) (sym (byte_of (length text) small)))

  pub u8-Reads :
      (text : Bytes)
      → length text ≤ 255
      → Reads (parse (raw_bytes (u8_bytes B)) tt) (to_le_bytes 1 (length text) ++ text) text
  unfolding raw_bytes u8_bytes
  u8-Reads text h = record {
    on = λ rest.
        ap (λ p. p (to_le_bytes 1 (length text) ++ text ++ rest))
          (parse-unsized (raw_bytes (u8_bytes B)) tt refl)
        ∙ (Reads-then (λ n. ok_or_eof (checked_eat n))
              (unsigned-Reads B w8 (length text) (omega arith)) (eaten-Reads text)).on
            rest;
  }

  -- A length in four bytes.
  pub u32-Writes :
      (text : Bytes)
      → length text < 2 ^ 32
      → Writes (serialize_raw (u32_bytes B) text) (to_le_bytes 4 (length text) ++ text)
  unfolding serialize_raw u32_bytes
  u32-Writes text h buf =
      let kept : min (length text) (2 ^ 32 - 1) ≡ length text = omega arith in
      put_u32_str-eq buf text
      ∙ rw (kept, mod-eq_of_lt h, take_all (length text) text (omega arith))
          (B.put_slice_lem _ text
            ∙ ap (λ t. t ++ text) (B.put_u32_le_lem buf (length text) h)
            ∙ append_assoc buf _ text)

  pub u32-Reads :
      (text : Bytes)
      → length text < 2 ^ 32
      → Reads (parse (raw_bytes (u32_bytes B)) tt) (to_le_bytes 4 (length text) ++ text) text
  unfolding raw_bytes u32_bytes checked_eat_u32_str
  u32-Reads text h = record {
    on = λ rest.
        ap (λ p. p (to_le_bytes 4 (length text) ++ text ++ rest))
          (parse-unsized (raw_bytes (u32_bytes B)) tt refl)
        ∙ ok_or_eof-eq checked_eat_u32_str (to_le_bytes 4 (length text) ++ text ++ rest) rest text (
            ap checked_eat_u32_str (append_assoc (to_le_bytes 4 (length text)) text rest)
            ∙ Result.>>=-ok
                (checked 4 (eat_num_le 4) (to_le_bytes 4 (length text) ++ (text ++ rest))) _
                (checked_num 4 (length text) (text ++ rest) h)
            ∙ checked-append (length text) text rest refl);
  }

  pub array-Writes : (bytes : Bytes) → Writes (serialize_bytes B bytes) bytes
  unfolding serialize_bytes
  array-Writes bytes buf = B.put_slice_lem buf bytes

  pub skipped-Writes : (n : ℕ) → Writes (serialize_skipped B n) (replicate n 0)
  unfolding serialize_skipped
  skipped-Writes n buf = B.put_slice_lem buf (replicate n 0)

pub array-Reads_unchecked :
    (n : ℕ) (bytes : Bytes)
    → n ≡ length bytes
    → Reads (parse_unchecked (byte_array n) tt) bytes bytes
unfolding parse_unchecked byte_array
array-Reads_unchecked n bytes h = record { on = λ rest. eat-append n bytes rest h }

pub skipped-Reads_unchecked : (n : ℕ) → Reads (parse_unchecked (skipped n) tt) (replicate n 0) tt
unfolding parse_unchecked skipped skip
skipped-Reads_unchecked n = record {
  on = λ rest.
      let size : length (replicate n 0) ≡ n = length-replicate n 0 in
      rw (
        le→leb n (length (replicate n 0 ++ rest))
            (omega (arith, length-append (replicate n 0) rest, size)),
        drop-append_self n (replicate n 0) rest (sym size),
      );
}

pub array-Reads :
    (n : ℕ) (bytes : Bytes) → n ≡ length bytes → Reads (parse (byte_array n) tt) bytes bytes
unfolding byte_array
array-Reads n bytes h =
    sized-Reads (byte_array n) tt n bytes bytes refl h (array-Reads_unchecked n bytes h)

-- A value that a number stands for.
module _ {A : Type 0} (R : IntRepr ℕ) (into : A → ℕ) where
  pub constant-Writes :
      (e : A) (w : Bytes)
      → Writes (serialize_int R (into e)) w
      → Writes (serialize_constant R into e) w
  unfolding serialize_constant
  constant-Writes e w h = h

pub constant-Reads_unchecked :
    {A : Type 0} (R : IntRepr ℕ) (try_from : ℕ → Option A) (n : ℕ) (e : A) (w : Bytes)
    → try_from n ≡ some e
    → Reads (parse_unchecked (raw_int R) tt) w n
    → Reads (parse_unchecked (constant R try_from) tt) w e
unfolding constant parse_unchecked
constant-Reads_unchecked R try_from n e w h hr = record {
  on = λ rest.
      Result.>>=-ok (parse_unchecked (raw_int R) tt (w ++ rest)) _ (hr.on rest)
      ∙ ap (λ o. ok_or_invalid o rest) h;
}
