-- ===== src/Raw/Sequences.antt =====
-- src/misc/raw/seq.rs: sequences behind their length, written and read.
use rust_mysql_common.Base.{
  ℕ, suc, ◌*◌, ◌-◌, ◌^◌, ◌≤◌, ◌<◌, ◌≡◌, refl, ap, sym, ◌∙◌, none, List, [], ◌∷◌, ◌++◌, arith,
  length, take, take_all, min, All, append_assoc, append-nil, le→ltb_false,
}
use rust_mysql_common.Base.Bytes.{Bytes}
use rust_mysql_common.Base.Result
use rust_mysql_common.Base.Result.{ok}
use rust_mysql_common.Raw.{MyDeserialize, MySerialize, parse}
use rust_mysql_common.Raw.Int.{IntRepr, raw_int, serialize_int}
use rust_mysql_common.Raw.Parse.{RoundTrips}
use rust_mysql_common.Raw.Sequence.{
  serialize_all, parse_all, serialize_seq, parse_elements, parse_seq,
}

module _ {A : Type 0} (S : MySerialize A) (D : MyDeserialize (Unit {0}) A) where
  abbrev written_all : (xs : List A) → All (RoundTrips S D tt) xs → Bytes
  written_all [] h = []
  written_all (x ∷ xs) (h, hs) = h.written ++ written_all xs hs

  serialize_all-written_all :
      (xs : List A) (h : All (RoundTrips S D tt) xs) (buf : Bytes)
      → serialize_all S xs buf ≡ buf ++ written_all xs h
  unfolding serialize_all
  serialize_all-written_all [] h buf = sym (append-nil buf)
  serialize_all-written_all (x ∷ xs) (h, hs) buf =
      serialize_all-written_all xs hs (S x buf)
      ∙ ap (λ t. t ++ written_all xs hs) (h.writes buf)
      ∙ append_assoc buf h.written (written_all xs hs)

  parse_all-written_all :
      (xs : List A) (h : All (RoundTrips S D tt) xs) (rest : Bytes)
      → parse_all D (length xs) (written_all xs h ++ rest) ≡ ok (xs, rest)
  unfolding parse_all
  parse_all-written_all [] h rest = refl
  parse_all-written_all (x ∷ xs) (h, hs) rest =
      ap (parse_all D (suc (length xs))) (append_assoc h.written (written_all xs hs) rest)
      ∙ Result.>>=-ok (parse D tt (h.written ++ (written_all xs hs ++ rest))) _
          (h.reads (written_all xs hs ++ rest))
      ∙ Result.>>=-ok (parse_all D (length xs) (written_all xs hs ++ rest)) _
          (parse_all-written_all xs hs rest)

  elements_unsized :
      (elem_size n : ℕ) (buf : Bytes)
      → D.size ≡ none
      → n * elem_size < 2 ^ 63
      → parse_elements D elem_size n buf ≡ parse_all D n buf
  unfolding parse_elements
  elements_unsized elem_size n buf s h =
      simp (le→ltb_false (2 ^ 63 - 1) (n * elem_size) (omega arith), s)

-- A sequence whose elements have no fixed size and are read back one by one, whose length is read
-- back and no more than the largest length, and whose vector is within `isize::MAX` bytes, is read
-- back whole, whatever follows.
pub parse_seq-serialize_seq :
    {A : Type 0} (S : MySerialize A) (D : MyDeserialize (Unit {0}) A) (R : IntRepr ℕ)
    (max_len elem_size : ℕ) (seq : List A)
    → D.size ≡ none
    → length seq ≤ max_len
    → length seq * elem_size < 2 ^ 63
    → RoundTrips (serialize_int R) (raw_int R) tt (length seq)
    → All (RoundTrips S D tt) seq
    → (written : Bytes) × ((buf : Bytes) → serialize_seq R max_len S seq buf ≡ buf ++ written)
      × ((rest : Bytes) → parse_seq R D elem_size (written ++ rest) ≡ ok (seq, rest))
unfolding serialize_seq parse_seq serialize_int
parse_seq-serialize_seq S D R max_len elem_size seq s fits small len h =
    let n : min max_len (length seq) ≡ length seq = omega arith in
    let body : Bytes = written_all S D seq h in
    (
      len.written ++ body,
      λ buf.
          ap (λ k. serialize_all S (take k seq) (R.serialize k buf)) n
          ∙ ap (λ t. serialize_all S t (R.serialize (length seq) buf))
              (take_all (length seq) seq (omega arith))
          ∙ serialize_all-written_all S D seq h (R.serialize (length seq) buf)
          ∙ ap (λ t. t ++ body) (len.writes buf)
          ∙ append_assoc buf len.written body,
      λ rest.
          ap (parse_seq R D elem_size) (append_assoc len.written body rest)
          ∙ Result.>>=-ok (parse (raw_int R) tt (len.written ++ (body ++ rest))) _
              (len.reads (body ++ rest))
          ∙ elements_unsized S D elem_size (length seq) (body ++ rest) s small
          ∙ parse_all-written_all S D seq h rest,
    )
