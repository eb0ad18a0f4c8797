-- ===== src/Codec/Termination.antt =====
-- src/proto/codec/mod.rs: the calls that `PlainPacketCodec::decode` makes of itself.
use rust_mysql_common.Base.{
  ℕ, zero, suc, ◌+◌, ◌-◌, ◌≤◌, ◌<◌, ◌≡◌, sym, subst, Option, none, some, ltb, leb, ◌==◌, [], ◌∷◌,
  arith, length, Bool, Bool-cases, Option-cases, inl, inr, ltb_false→le, leb→le,
}
use rust_mysql_common.Base.Bytes.{Bytes}
use rust_mysql_common.Codec.Crates.{BytesMut}
use rust_mysql_common.Codec.Chunks.{next_id}
use rust_mysql_common.Codec.Outcome.{Step, Outcome, ok, err, panic, stuck}
use rust_mysql_common.Codec.ChunkDecoder.{
  ChunkInfo, ChunkDecoder, idle, chunk, middle, last, decode_body, decode_header, chunk_decode,
}
use rust_mysql_common.Codec.Plain.{PlainPacketCodec, Decode, sync_id, after_chunk, plain_decode}
use rust_mysql_common.Codec.Slices.{byte_at}
use rust_mysql_common.Codec.ChunkSteps.{
  length-advance, body_waits, body_done, header_short, header_empty, header_large, header_fits,
}

-- A chunk is delivered only with input used up, and a step of the chunk decoder comes to an end
-- without a panic.
abbrev ShrinksBy : ℕ → Bytes → Outcome (Option ChunkInfo) → Type 0
ShrinksBy n src (ok none) = Unit {0}
ShrinksBy n src (ok (some info)) = length src < n
ShrinksBy n src (err e) = Unit {0}
ShrinksBy n src panic = ⊥
ShrinksBy n src stuck = ⊥

abbrev Shrinks : ℕ → Step ChunkDecoder (Option ChunkInfo) → Type 0
Shrinks n s = ShrinksBy n s.src s.outcome

-- A result or an error of the code, as against a panic or a loop that goes on.
abbrev pub Ends : Outcome Bool → Type 0
Ends (ok done) = Unit {0}
Ends (err e) = Unit {0}
Ends panic = ⊥
Ends stuck = ⊥

module _ (M : BytesMut) where
  decode_body-Shrinks :
      (seq_id needed : ℕ) (src dst : Bytes)
      → Shrinks (length src) (decode_body M seq_id needed src dst)
  decode_body-Shrinks seq_id needed src dst = elim (Bool-cases (leb (4 + needed) (length src))) [
    | inl e ↦
        let fits : 4 + needed ≤ length src = leb→le (4 + needed) (length src) e in
        let body : length (M.advance src 4) ≡ length src - 4 =
          length-advance M 4 src (omega arith) in
        subst (Shrinks (length src)) (sym (body_done M seq_id needed src dst e))
          (omega (arith, length-advance M needed (M.advance src 4) (omega arith)))
    | inr e ↦ subst (Shrinks (length src)) (sym (body_waits M seq_id needed src dst e)) tt
  ]

  decode_header-Shrinks :
      (max_allowed_packet : ℕ) (src dst : Bytes)
      → Shrinks (length src) (decode_header M max_allowed_packet src dst)
  decode_header-Shrinks max_allowed_packet src dst = elim (Bool-cases (ltb (length src) 4)) [
    | inl e ↦ subst (Shrinks (length src)) (sym (header_short M max_allowed_packet src dst e)) tt
    | inr e ↦ elim (Bool-cases (M.read_u24 src == 0)) [
      | inl z ↦
          let h : 4 ≤ length src = ltb_false→le (length src) 4 e in
          subst (Shrinks (length src)) (sym (header_empty M max_allowed_packet src dst e z))
            (omega (arith, length-advance M 4 src h))
      | inr z ↦ elim (Bool-cases (ltb max_allowed_packet (length dst + M.read_u24 src))) [
        | inl l ↦
            subst (Shrinks (length src)) (sym (header_large M max_allowed_packet src dst e z l)) tt
        | inr l ↦
            subst (Shrinks (length src)) (sym (header_fits M max_allowed_packet src dst e z l))
              (decode_body-Shrinks (byte_at src 3) (M.read_u24 src) src dst)
      ]
    ]
  ]

  chunk_decode-Shrinks :
      (decoder : ChunkDecoder) (src dst : Bytes) (max_allowed_packet : ℕ)
      → Shrinks (length src) (chunk_decode M decoder src dst max_allowed_packet)
  unfolding chunk_decode
  chunk_decode-Shrinks idle src dst max_allowed_packet =
      decode_header-Shrinks max_allowed_packet src dst
  chunk_decode-Shrinks (chunk seq_id needed) src dst max_allowed_packet =
      decode_body-Shrinks seq_id needed src dst

after_chunk-Ends :
    (again : Decode) (comp_seq_id : Option ℕ) (seq_id n : ℕ) (state : ChunkDecoder)
    (src dst : Bytes) (o : Outcome (Option ChunkInfo))
    → ((c : PlainPacketCodec) → length src < n → Ends (Step.outcome (again c src dst)))
    → ShrinksBy n src o
    → Ends (
        Step.outcome (
          after_chunk again comp_seq_id seq_id
            (record { state = state; src = src; dst = dst; outcome = o })))
unfolding after_chunk
after_chunk-Ends again comp_seq_id seq_id n state src dst (err e) ha h = tt
after_chunk-Ends again comp_seq_id seq_id n state src dst panic ha h = absurd h
after_chunk-Ends again comp_seq_id seq_id n state src dst stuck ha h = absurd h
after_chunk-Ends again comp_seq_id seq_id n state src dst (ok none) ha h = tt
after_chunk-Ends again comp_seq_id seq_id n state src dst (ok (some (last x))) ha h =
    elim (Option-cases (sync_id seq_id comp_seq_id (last x))) [
      | inl e ↦ rw (after_chunk, e) tt
      | inr (id, e) ↦ rw (after_chunk, e) tt
    ]
after_chunk-Ends again comp_seq_id seq_id n state [] dst (ok (some (middle x))) ha h =
    elim (Option-cases (sync_id seq_id comp_seq_id (middle x))) [
      | inl e ↦ rw (after_chunk, e) tt
      | inr (id, e) ↦ rw (after_chunk, e) tt
    ]
after_chunk-Ends again comp_seq_id seq_id n state (b ∷ bs) dst (ok (some (middle x))) ha h =
    elim (Option-cases (sync_id seq_id comp_seq_id (middle x))) [
      | inl e ↦ rw (after_chunk, e) tt
      | inr (id, e) ↦
          rw (after_chunk, e) (ha (record { seq_id = next_id id; chunk_decoder = state }) h)
    ]

-- On every input and from every state `PlainPacketCodec::decode` comes to an end, with a result or an
-- error and without a panic: no slice, index or advance of the chunk decoder is out of range, and more
-- fuel than the input has bytes is enough for its calls of itself.
pub plain_decode-Ends :
    (M : BytesMut) (max_allowed_packet : ℕ) (comp_seq_id : Option ℕ) (fuel : ℕ)
    (codec : PlainPacketCodec) (src dst : Bytes)
    → length src < fuel
    → Ends (Step.outcome (plain_decode M max_allowed_packet comp_seq_id fuel codec src dst))
unfolding plain_decode
plain_decode-Ends M max_allowed_packet comp_seq_id zero codec src dst h = absurd (omega arith)
plain_decode-Ends M max_allowed_packet comp_seq_id (suc fuel) codec src dst h =
    let s = chunk_decode M codec.chunk_decoder src dst max_allowed_packet in
    after_chunk-Ends (plain_decode M max_allowed_packet comp_seq_id fuel) comp_seq_id codec.seq_id
      (length src) s.state s.src s.dst s.outcome
      (λ c k. plain_decode-Ends M max_allowed_packet comp_seq_id fuel c s.src s.dst (omega arith))
      (chunk_decode-Shrinks M codec.chunk_decoder src dst max_allowed_packet)
