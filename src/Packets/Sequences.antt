-- ===== src/Packets/Sequences.antt =====
-- src/misc/raw/seq.rs: sequences of fields behind their length, in eight bytes, as packets hold
-- them. `each` gives the bytes of an element.
use rust_mysql_common.Base.{
  ℕ, ◌*◌, ◌-◌, ◌%◌, ◌^◌, ◌<◌, ◌≡◌, refl, sym, ◌∙◌, none, some, List, [], ◌∷◌, ◌++◌, arith, length,
  length-append, take, take_all, min, All, append-nil, le→ltb_false,
}
use rust_mysql_common.Base.Bytes.{Bytes, to_le_bytes}
use rust_mysql_common.Io.BufMut.{BufMut}
use rust_mysql_common.Io.ParseBuf.{◌>>=◌}
use rust_mysql_common.Raw.{MyDeserialize, MySerialize, parse, parse_buf, within}
use rust_mysql_common.Raw.Int.{serialize_int, le_u64}
use rust_mysql_common.Raw.Numbers.{w64}
use rust_mysql_common.Raw.Text.{usize_max}
use rust_mysql_common.Raw.Sequence.{
  serialize_all, parse_all, serialize_seq, parse_elements, parse_seq,
}
use rust_mysql_common.Packets.Fields.{
  Writes, Reads, Writes-then, Reads-then, Reads-map, Reads-within, unsigned-Writes, unsigned-Reads,
}

module _ {A : Type 0} (each : A → Bytes) where
  abbrev pub concat : List A → Bytes
  concat [] = []
  concat (x ∷ xs) = each x ++ concat xs

  pub length-concat :
      (count : ℕ) (xs : List A)
      → All (λ x. length (each x) ≡ count) xs
      → length (concat xs) ≡ count * length xs
  length-concat count [] h = omega arith
  length-concat count (x ∷ xs) (h, hs) =
      omega (arith, length-append (each x) (concat xs), length-concat count xs hs)

  pub elements-Writes :
      (S : MySerialize A) (xs : List A)
      → All (λ x. Writes (S x) (each x)) xs
      → Writes (serialize_all S xs) (concat xs)
  unfolding serialize_all
  elements-Writes S [] h buf = sym (append-nil buf)
  elements-Writes S (x ∷ xs) (h, hs) buf = Writes-then h (elements-Writes S xs hs) buf

  elements-Reads :
      (D : MyDeserialize (Unit {0}) A) (xs : List A)
      → All (λ x. Reads (parse D tt) (each x) x) xs
      → Reads (parse_all D (length xs)) (concat xs) xs
  unfolding parse_all
  elements-Reads D [] h = record { on = λ rest. refl }
  elements-Reads D (x ∷ xs) (h, hs) =
      Reads-then _ h (Reads-map (λ ys. x ∷ ys) (elements-Reads D xs hs))

  -- The elements of a known size are read from a buffer of their own.
  elements_sized :
      (D : MyDeserialize (Unit {0}) A) (elem_size count n : ℕ) (buf : Bytes)
      → D.size ≡ some count
      → n * elem_size < 2 ^ 63
      → count * n < 2 ^ 64
      → parse_elements D elem_size n buf
        ≡ (parse parse_buf (count * n) >>= within (parse_all D n)) buf
  unfolding parse_elements
  elements_sized D elem_size count n buf s h k =
      let e : count * n % 2 ^ 64 ≡ count * n = omega arith in
      simp (le→ltb_false (2 ^ 63 - 1) (n * elem_size) (omega arith), s, e)

  elements_unsized :
      (D : MyDeserialize (Unit {0}) A) (elem_size n : ℕ) (buf : Bytes)
      → D.size ≡ none
      → n * elem_size < 2 ^ 63
      → parse_elements D elem_size n buf ≡ parse_all D n buf
  unfolding parse_elements
  elements_unsized D elem_size n buf s h =
      simp (le→ltb_false (2 ^ 63 - 1) (n * elem_size) (omega arith), s)

  -- The bytes of a sequence.
  abbrev pub seq_bytes : List A → Bytes
  seq_bytes xs = to_le_bytes 8 (length xs) ++ concat xs

  module _ (B : BufMut) where
    pub seq-Writes :
        (S : MySerialize A) (xs : List A)
        → length xs < 2 ^ 63
        → All (λ x. Writes (S x) (each x)) xs
        → Writes (serialize_seq (le_u64 B) usize_max S xs) (seq_bytes xs)
    unfolding serialize_seq serialize_int
    seq-Writes S xs h hs buf =
        let n : min usize_max (length xs) ≡ length xs = omega arith in
        let all : take (length xs) xs ≡ xs = take_all (length xs) xs (omega arith) in
        rw (n, all)
          (Writes-then (unsigned-Writes B w64 (length xs) (omega arith)) (elements-Writes S xs hs)
            buf)

    pub seq-Reads_sized :
        (D : MyDeserialize (Unit {0}) A) (elem_size count : ℕ) (xs : List A)
        → D.size ≡ some count
        → length xs * elem_size < 2 ^ 63
        → length xs < 2 ^ 63
        → count * length xs < 2 ^ 64
        → All (λ x. length (each x) ≡ count) xs
        → All (λ x. Reads (parse D tt) (each x) x) xs
        → Reads (parse_seq (le_u64 B) D elem_size) (seq_bytes xs) xs
    unfolding parse_seq
    seq-Reads_sized D elem_size count xs s h n k sizes hs =
        Reads-then (parse_elements D elem_size) (unsigned-Reads B w64 (length xs) (omega arith))
          (record {
            on = λ rest.
                elements_sized D elem_size count (length xs) (concat xs ++ rest) s h k
                ∙ (Reads-within (sym (length-concat count xs sizes)) (elements-Reads D xs hs)).on
                    rest;
          })

    pub seq-Reads_unsized :
        (D : MyDeserialize (Unit {0}) A) (elem_size : ℕ) (xs : List A)
        → D.size ≡ none
        → length xs * elem_size < 2 ^ 63
        → length xs < 2 ^ 63
        → All (λ x. Reads (parse D tt) (each x) x) xs
        → Reads (parse_seq (le_u64 B) D elem_size) (seq_bytes xs) xs
    unfolding parse_seq
    seq-Reads_unsized D elem_size xs s h n hs =
        Reads-then (parse_elements D elem_size) (unsigned-Reads B w64 (length xs) (omega arith))
          (record {
            on = λ rest.
                elements_unsized D elem_size (length xs) (concat xs ++ rest) s h
                ∙ (elements-Reads D xs hs).on rest;
          })
