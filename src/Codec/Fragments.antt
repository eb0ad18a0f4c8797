-- ===== src/Codec/Fragments.antt =====
-- src/proto/codec/mod.rs, `ChunkDecoder::decode` on input that arrives in pieces.
use rust_mysql_common.Base.{
  ℕ, zero, suc, ◌+◌, ◌≤◌, ◌<◌, ◌≡◌, refl, ap, sym, subst, ◌∙◌, Option, none, some, ltb, leb, ◌==◌,
  [], ◌∷◌, ◌++◌, arith, length, length-append, take-append, drop-append, Bool-cases, inl, inr, true,
  false, le→leb, leb→le, ltb_false→le, le→ltb_false,
}
use rust_mysql_common.Base.Bytes.{Bytes}
use rust_mysql_common.Codec.Crates.{BytesMut}
use rust_mysql_common.Codec.Slices.{byte_at}
use rust_mysql_common.Codec.ChunkSteps.{
  body_waits, body_done, header_short, header_empty, header_large, header_fits, length-advance,
}
use rust_mysql_common.Codec.Outcome.{Step, Outcome, ok, err, panic, stuck}
use rust_mysql_common.Codec.ChunkDecoder.{
  ChunkInfo, ChunkDecoder, idle, chunk, decode_body, decode_header, chunk_decode,
}

byte_at-append : (i : ℕ) (xs ys : Bytes) → i < length xs → byte_at (xs ++ ys) i ≡ byte_at xs i
byte_at-append i [] ys h = absurd (omega arith)
byte_at-append zero (x ∷ xs) ys h = refl
byte_at-append (suc i) (x ∷ xs) ys h = byte_at-append i xs ys (omega arith)

module _ (M : BytesMut) (more : Bytes) where
  advance-append :
      (n : ℕ) (xs : Bytes) → n ≤ length xs → M.advance (xs ++ more) n ≡ M.advance xs n ++ more
  advance-append n xs h =
      M.advance_lem (xs ++ more) n (omega (arith, length-append xs more))
      ∙ drop-append n xs more h
      ∙ ap (λ t. t ++ more) (sym (M.advance_lem xs n h))

  read_u24-append : (xs : Bytes) → 3 ≤ length xs → M.read_u24 (xs ++ more) ≡ M.read_u24 xs
  read_u24-append xs h =
      M.read_u24_lem (xs ++ more) (omega (arith, length-append xs more))
      ∙ rw (take-append 3 xs more h) (sym (M.read_u24_lem xs h))

  -- The outcome with `more` behind what is left of the input.
  abbrev pub with_more : Step ChunkDecoder (Option ChunkInfo) → Step ChunkDecoder (Option ChunkInfo)
  with_more s = record s { src = s.src ++ more }

  -- A step on a part of the input, against the step on the whole: where it wants more input, the
  -- next step goes on as if it had had it, and else `more` is left untouched.
  abbrev pub AgreesBy :
      ℕ
      → Step ChunkDecoder (Option ChunkInfo)
      → Step ChunkDecoder (Option ChunkInfo)
      → Outcome (Option ChunkInfo)
      → Type 0
  AgreesBy max_allowed_packet s whole (ok none) =
      chunk_decode M s.state (s.src ++ more) s.dst max_allowed_packet ≡ whole
  AgreesBy max_allowed_packet s whole (ok (some info)) = whole ≡ with_more s
  AgreesBy max_allowed_packet s whole (err e) = whole ≡ with_more s
  AgreesBy max_allowed_packet s whole panic = whole ≡ with_more s
  AgreesBy max_allowed_packet s whole stuck = whole ≡ with_more s

  abbrev pub Agrees :
      ℕ → Step ChunkDecoder (Option ChunkInfo) → Step ChunkDecoder (Option ChunkInfo) → Type 0
  Agrees max_allowed_packet s whole = AgreesBy max_allowed_packet s whole s.outcome

  body-append :
      (seq_id needed : ℕ) (src dst : Bytes)
      → leb (4 + needed) (length src) ≡ true
      → decode_body M seq_id needed (src ++ more) dst
        ≡ with_more (decode_body M seq_id needed src dst)
  body-append seq_id needed src dst e =
      let fits : 4 + needed ≤ length src = leb→le (4 + needed) (length src) e in
      let head : M.advance (src ++ more) 4 ≡ M.advance src 4 ++ more =
        advance-append 4 src (omega arith) in
      let inside : needed ≤ length (M.advance src 4) =
        omega (arith, length-advance M 4 src (omega arith)) in
      let whole : leb (4 + needed) (length (src ++ more)) ≡ true =
        le→leb (4 + needed) (length (src ++ more)) (omega (arith, length-append src more)) in
      rw (
        body_done M seq_id needed (src ++ more) dst whole,
        body_done M seq_id needed src dst e,
        head,
        take-append needed (M.advance src 4) more inside,
        advance-append needed (M.advance src 4) inside,
      )

  body-Agrees :
      (seq_id needed max_allowed_packet : ℕ) (src dst : Bytes)
      → Agrees max_allowed_packet
          (decode_body M seq_id needed src dst)
          (decode_body M seq_id needed (src ++ more) dst)
  unfolding chunk_decode
  body-Agrees seq_id needed max_allowed_packet src dst =
      let s : Step ChunkDecoder (Option ChunkInfo) = decode_body M seq_id needed src dst in
      let whole : Step ChunkDecoder (Option ChunkInfo) =
        decode_body M seq_id needed (src ++ more) dst in
      elim (Bool-cases (leb (4 + needed) (length src))) [
        | inl e ↦
            subst (AgreesBy max_allowed_packet s whole)
              (sym (ap (λ t. t.outcome) (body_done M seq_id needed src dst e)))
              (body-append seq_id needed src dst e)
        | inr e ↦
            subst (λ t. Agrees max_allowed_packet t whole)
              (sym (body_waits M seq_id needed src dst e)) refl
      ]

  transported :
      (max_allowed_packet : ℕ) {s s' w w' : Step ChunkDecoder (Option ChunkInfo)}
      → s ≡ s'
      → w ≡ w'
      → Agrees max_allowed_packet s' w'
      → Agrees max_allowed_packet s w
  transported max_allowed_packet {w = w} e f h =
      subst (λ t. Agrees max_allowed_packet t w) (sym e)
        (subst (Agrees max_allowed_packet _) (sym f) h)

  header-Agrees :
      (max_allowed_packet : ℕ) (src dst : Bytes)
      → Agrees max_allowed_packet
          (decode_header M max_allowed_packet src dst)
          (decode_header M max_allowed_packet (src ++ more) dst)
  unfolding chunk_decode
  header-Agrees max_allowed_packet src dst = elim (Bool-cases (ltb (length src) 4)) [
    | inl e ↦ transported max_allowed_packet (header_short M max_allowed_packet src dst e) refl refl
    | inr e ↦
        let h : 4 ≤ length src = ltb_false→le (length src) 4 e in
        let e' : ltb (length (src ++ more)) 4 ≡ false =
          le→ltb_false (length (src ++ more)) 4 (omega (arith, length-append src more)) in
        let size : M.read_u24 (src ++ more) ≡ M.read_u24 src = read_u24-append src (omega arith) in
        let id : byte_at (src ++ more) 3 ≡ byte_at src 3 =
          byte_at-append 3 src more (omega arith) in
        elim (Bool-cases (M.read_u24 src == 0)) [
          | inl z ↦
              transported max_allowed_packet (header_empty M max_allowed_packet src dst e z)
                (header_empty M max_allowed_packet (src ++ more) dst e' (ap (λ n. n == 0) size ∙ z))
                (rw (id, advance-append 4 src h))
          | inr z ↦ elim (Bool-cases (ltb max_allowed_packet (length dst + M.read_u24 src))) [
            | inl l ↦
                transported max_allowed_packet (header_large M max_allowed_packet src dst e z l)
                  (header_large M max_allowed_packet (src ++ more) dst e'
                    (ap (λ n. n == 0) size ∙ z)
                    (ap (λ n. ltb max_allowed_packet (length dst + n)) size ∙ l))
                  refl
            | inr l ↦
                transported max_allowed_packet (header_fits M max_allowed_packet src dst e z l)
                  (header_fits M max_allowed_packet (src ++ more) dst e' (ap (λ n. n == 0) size ∙ z)
                      (ap (λ n. ltb max_allowed_packet (length dst + n)) size ∙ l)
                    ∙ ap (λ n. decode_body M (byte_at (src ++ more) 3) n (src ++ more) dst) size
                    ∙ ap (λ n. decode_body M n (M.read_u24 src) (src ++ more) dst) id)
                  (body-Agrees (byte_at src 3) (M.read_u24 src) max_allowed_packet src dst)
          ]
        ]
  ]

-- The chunk decoder does not depend on how its input is cut: on a part `src` of the input it either
-- asks for more, and a call with what it has left and `more` does what one call on the whole input
-- does, or it decides, and the call on the whole input decides the same and leaves `more` behind.
pub chunk_decode-Agrees :
    (M : BytesMut) (decoder : ChunkDecoder) (src more dst : Bytes) (max_allowed_packet : ℕ)
    → Agrees M more max_allowed_packet
        (chunk_decode M decoder src dst max_allowed_packet)
        (chunk_decode M decoder (src ++ more) dst max_allowed_packet)
unfolding chunk_decode
chunk_decode-Agrees M idle src more dst max_allowed_packet =
    header-Agrees M more max_allowed_packet src dst
chunk_decode-Agrees M (chunk seq_id needed) src more dst max_allowed_packet =
    body-Agrees M more seq_id needed max_allowed_packet src dst
