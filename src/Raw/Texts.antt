-- ===== src/Raw/Texts.antt =====
-- src/misc/raw/bytes.rs: the representations of byte strings, written and read.
use native.Mathlib.Numerals.{add-one}
use rust_mysql_common.Base.{
  ℕ, zero, suc, ◌-◌, ◌^◌, ◌<◌, ◌≡◌, refl, ap, sym, ◌∙◌, none, some, [], ◌∷◌, ◌++◌, arith, length,
  take, min, replicate, append_assoc, append-nil, length-append, length-take, take_all, take-min,
  le→leb, inl, inr, Bool-cases, ◌==◌, ==_iff,
}
use rust_mysql_common.Base.Bytes.{Bytes}
use rust_mysql_common.Base.Result
use rust_mysql_common.Base.Result.{ok}
use rust_mysql_common.Io.BufMut.{BufMut}
use rust_mysql_common.Io.ParseBuf.{◌>>=◌, skip, eat, checked_eat}
use rust_mysql_common.Io.Lenenc.{position}
use rust_mysql_common.Io.Numbers.{eat-append}
use rust_mysql_common.Io.NullStr.{NoNull}
use rust_mysql_common.Io.RoundTrip.{lenenc, put_lenenc_int-lenenc, checked_eat_lenenc_int-lenenc}
use rust_mysql_common.Raw.{parse, ok_or_eof}
use rust_mysql_common.Raw.Int.{raw_int, len_enc}
use rust_mysql_common.Raw.Parse.{
  ReadsAs, RoundTrips, parse-sized, parse-unsized, ok_or_eof-eq, checked_eat-ok,
}
use rust_mysql_common.Raw.Text.{
  raw_bytes, serialize_raw, len_enc_bytes, null_bytes, fixed_length_text, pad, unwrap_or,
  eat_terminated,
}

-- The length in front of a string, read as a `RawInt<LenEnc>`.
pub parse-len_enc :
    (B : BufMut) (n : ℕ) (rest : Bytes)
    → n < 2 ^ 64
    → parse (raw_int (len_enc B)) tt (lenenc n ++ rest) ≡ ok (n, rest)
unfolding raw_int len_enc
parse-len_enc B n rest h =
    ap (λ p. p (lenenc n ++ rest)) (parse-unsized (raw_int (len_enc B)) tt refl)
    ∙ ok_or_eof-eq _ (lenenc n ++ rest) rest n (checked_eat_lenenc_int-lenenc n rest h)

-- A byte string in the length-encoded representation is read back, whatever follows.
pub len_enc_bytes-RoundTrips :
    (B : BufMut) (text : Bytes)
    → length text < 2 ^ 64
    → RoundTrips (serialize_raw (len_enc_bytes B)) (raw_bytes (len_enc_bytes B)) tt text
unfolding serialize_raw raw_bytes len_enc_bytes
len_enc_bytes-RoundTrips B text h = record {
  written = lenenc (length text) ++ text;
  writes = λ buf.
      B.put_slice_lem _ text
      ∙ ap (λ t. t ++ text) (put_lenenc_int-lenenc B buf (length text) h)
      ∙ append_assoc buf (lenenc (length text)) text;
  reads = λ rest.
      ap (λ p. p (lenenc (length text) ++ text ++ rest))
        (parse-unsized (raw_bytes (len_enc_bytes B)) tt refl)
      ∙ ap (λ t. (parse (raw_int (len_enc B)) tt >>= (λ n. ok_or_eof (checked_eat n))) t)
          (append_assoc (lenenc (length text)) text rest)
      ∙ Result.>>=-ok (parse (raw_int (len_enc B)) tt (lenenc (length text) ++ (text ++ rest))) _
          (parse-len_enc B (length text) (text ++ rest) h)
      ∙ checked_eat-ok (length text) text rest refl;
}

position-NoNull : (s rest : Bytes) → NoNull s → position 0 (s ++ 0 ∷ rest) ≡ some (length s)
unfolding position
position-NoNull [] rest h = refl
position-NoNull (x ∷ s) rest (h, hs) = elim (Bool-cases (x == 0)) [
  | inl e ↦ absurd (h ((==_iff x 0).0 e))
  | inr e ↦ rw (e, position-NoNull s rest hs) (ap some (add-one (length s)))
]

position-none : (s : Bytes) → NoNull s → position 0 s ≡ none
unfolding position
position-none [] h = refl
position-none (x ∷ s) (h, hs) = elim (Bool-cases (x == 0)) [
  | inl e ↦ absurd (h ((==_iff x 0).0 e))
  | inr e ↦ rw (e, position-none s hs)
]

pub skip_one : (x : ℕ) (rest : Bytes) → skip 1 (x ∷ rest) ≡ ok (tt, rest)
unfolding skip
skip_one x rest = rw (le→leb 1 (suc (length rest)) (omega arith))

pub null_bytes_written :
    (B : BufMut) (text buf : Bytes)
    → NoNull text
    → serialize_raw (null_bytes B) text buf ≡ buf ++ (text ++ 0 ∷ [])
unfolding serialize_raw null_bytes
null_bytes_written B text buf h =
    B.put_u8_lem _ 0 (omega arith)
    ∙ ap (λ t. t ++ 0 ∷ [])
        (B.put_slice_lem buf _
          ∙ ap (λ o. buf ++ take (unwrap_or (length text) o) text) (position-none text h)
          ∙ ap (λ t. buf ++ t) (take_all (length text) text (omega arith)))
    ∙ append_assoc buf text (0 ∷ [])

pub null_bytes_read :
    (B : BufMut) (text rest : Bytes)
    → NoNull text
    → parse (raw_bytes (null_bytes B)) tt (text ++ 0 ∷ [] ++ rest) ≡ ok (text, rest)
unfolding raw_bytes null_bytes
null_bytes_read B text rest h =
    ap (λ p. p (text ++ 0 ∷ [] ++ rest)) (parse-unsized (raw_bytes (null_bytes B)) tt refl)
    ∙ ap (λ t. eat_terminated (position 0 t) t) (append_assoc text (0 ∷ []) rest)
    ∙ ap (λ o. eat_terminated o (text ++ 0 ∷ rest)) (position-NoNull text rest h)
    ∙ Result.>>=-ok (eat (length text) (text ++ 0 ∷ rest)) _
        (eat-append (length text) text (0 ∷ rest) refl)
    ∙ Result.>>=-ok (skip 1 (0 ∷ rest)) _ (skip_one 0 rest)

-- A byte string without a zero byte is written with one behind it, and read back.
pub null_bytes-RoundTrips :
    (B : BufMut) (text : Bytes)
    → NoNull text
    → RoundTrips (serialize_raw (null_bytes B)) (raw_bytes (null_bytes B)) tt text
unfolding serialize_raw raw_bytes null_bytes
null_bytes-RoundTrips B text h = record {
  written = text ++ 0 ∷ [];
  writes = λ buf. null_bytes_written B text buf h;
  reads = λ rest. null_bytes_read B text rest h;
}

pad-replicate : (B : BufMut) (n : ℕ) (buf : Bytes) → pad B n buf ≡ buf ++ replicate n 0
unfolding pad
pad-replicate B zero buf = sym (append-nil buf)
pad-replicate B (suc n) buf =
    pad-replicate B n (B.put_u8 buf 0)
    ∙ ap (λ t. t ++ replicate n 0) (B.put_u8_lem buf 0 (omega arith))
    ∙ append_assoc buf (0 ∷ []) (replicate n 0)

pub length-replicate : (n x : ℕ) → length (replicate n x) ≡ n
length-replicate zero x = refl
length-replicate (suc n) x = ap suc (length-replicate n x)

-- A text of fixed length is cut or padded with zero bytes to that length, and read as such.
pub fixed_length_text-ReadsAs :
    (B : BufMut) (n : ℕ) (text : Bytes)
    → ReadsAs
        (serialize_raw (fixed_length_text B n))
        (raw_bytes (fixed_length_text B n))
        tt
        text
        (take n text ++ replicate (n - length text) 0)
unfolding serialize_raw raw_bytes fixed_length_text
fixed_length_text-ReadsAs B n text =
    let w : Bytes = take n text ++ replicate (n - length text) 0 in
    let whole : n ≡ length w = omega (
      arith,
      length-append (take n text) (replicate (n - length text) 0),
      length-take n text,
      length-replicate (n - length text) 0,
    ) in
    let kept : min n (length text) ≡ min (length text) n = omega arith in
    let padding : n - min n (length text) ≡ n - length text = omega arith in
    record {
      written = w;
      writes = λ buf.
          pad-replicate B (n - min n (length text))
            (B.put_slice buf (take (min n (length text)) text))
          ∙ ap (λ t. t ++ replicate (n - min n (length text)) 0)
              (B.put_slice_lem buf (take (min n (length text)) text)
                ∙ ap (λ k. buf ++ take k text) kept
                ∙ ap (λ t. buf ++ t) (take-min n text))
          ∙ ap (λ k. buf ++ take n text ++ replicate k 0) padding
          ∙ append_assoc buf (take n text) (replicate (n - length text) 0);
      reads = λ rest.
          parse-sized (raw_bytes (fixed_length_text B n)) tt n w rest [] w refl whole
            (sym (ap (eat n) (append-nil w)) ∙ eat-append n w [] whole);
    }
