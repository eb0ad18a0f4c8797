-- ===== src/Codec/Bounds.antt =====
-- src/proto/codec/mod.rs: the size of what is decoded, against `max_allowed_packet`.
use rust_mysql_common.Base.{
  ℕ, zero, suc, ◌+◌, ◌≤◌, ap, sym, subst, Option, none, some, ltb, leb, ◌==◌, [], ◌∷◌, arith,
  length, take, length-append, length-take, Bool, Bool-cases, Option-cases, inl, inr, ltb_false→le,
}
use rust_mysql_common.Base.Bytes.{Bytes}
use rust_mysql_common.Codec.Crates.{BytesMut}
use rust_mysql_common.Codec.Chunks.{next_id}
use rust_mysql_common.Codec.Outcome.{Step, Outcome, ok, err, panic, stuck}
use rust_mysql_common.Codec.ChunkDecoder.{
  ChunkInfo, ChunkDecoder, idle, chunk, middle, last, decode_body, decode_header, chunk_decode,
}
use rust_mysql_common.Codec.Plain.{PlainPacketCodec, Decode, sync_id, after_chunk, plain_decode}
use rust_mysql_common.Codec.Slices.{byte_at}
use rust_mysql_common.Codec.ChunkSteps.{
  body_waits, body_done, header_short, header_empty, header_large, header_fits,
}

module _ (max_allowed_packet : ℕ) where
  -- What has been decoded, with what the chunk at hand still brings, is within the bound.
  abbrev pub Fits : ChunkDecoder → Bytes → Type 0
  Fits idle dst = length dst ≤ max_allowed_packet
  Fits (chunk seq_id needed) dst = length dst + needed ≤ max_allowed_packet

  abbrev FitsStep : Step ChunkDecoder (Option ChunkInfo) → Type 0
  FitsStep s = Fits s.state s.dst

  abbrev pub FitsAfter : Step PlainPacketCodec Bool → Type 0
  FitsAfter s = Fits s.state.chunk_decoder s.dst

  module _ (M : BytesMut) where
    decode_body-Fits :
        (seq_id needed : ℕ) (src dst : Bytes)
        → length dst + needed ≤ max_allowed_packet
        → FitsStep (decode_body M seq_id needed src dst)
    decode_body-Fits seq_id needed src dst h = elim (Bool-cases (leb (4 + needed) (length src))) [
      | inl e ↦ subst FitsStep (sym (body_done M seq_id needed src dst e)) (
          omega (
            arith,
            ap length (M.put_slice_lem dst (take needed (M.advance src 4))),
            length-append dst (take needed (M.advance src 4)),
            length-take needed (M.advance src 4),
          ))
      | inr e ↦ subst FitsStep (sym (body_waits M seq_id needed src dst e)) h
    ]

    decode_header-Fits :
        (src dst : Bytes)
        → length dst ≤ max_allowed_packet
        → FitsStep (decode_header M max_allowed_packet src dst)
    decode_header-Fits src dst h = elim (Bool-cases (ltb (length src) 4)) [
      | inl e ↦ subst FitsStep (sym (header_short M max_allowed_packet src dst e)) h
      | inr e ↦ elim (Bool-cases (M.read_u24 src == 0)) [
        | inl z ↦ subst FitsStep (sym (header_empty M max_allowed_packet src dst e z)) h
        | inr z ↦ elim (Bool-cases (ltb max_allowed_packet (length dst + M.read_u24 src))) [
          | inl l ↦ subst FitsStep (sym (header_large M max_allowed_packet src dst e z l)) h
          | inr l ↦ subst FitsStep (sym (header_fits M max_allowed_packet src dst e z l)) (
              decode_body-Fits (byte_at src 3) (M.read_u24 src) src dst
                (ltb_false→le max_allowed_packet (length dst + M.read_u24 src) l))
        ]
      ]
    ]

    chunk_decode-Fits :
        (decoder : ChunkDecoder) (src dst : Bytes)
        → Fits decoder dst
        → FitsStep (chunk_decode M decoder src dst max_allowed_packet)
    unfolding chunk_decode
    chunk_decode-Fits idle src dst h = decode_header-Fits src dst h
    chunk_decode-Fits (chunk seq_id needed) src dst h = decode_body-Fits seq_id needed src dst h

  after_chunk-Fits :
      (again : Decode) (comp_seq_id : Option ℕ) (seq_id : ℕ) (state : ChunkDecoder)
      (src dst : Bytes) (o : Outcome (Option ChunkInfo))
      → ((c : PlainPacketCodec) → Fits c.chunk_decoder dst → FitsAfter (again c src dst))
      → Fits state dst
      → FitsAfter (
          after_chunk again comp_seq_id seq_id
            (record { state = state; src = src; dst = dst; outcome = o }))
  unfolding after_chunk
  after_chunk-Fits again comp_seq_id seq_id state src dst (err e) ha h = h
  after_chunk-Fits again comp_seq_id seq_id state src dst panic ha h = h
  after_chunk-Fits again comp_seq_id seq_id state src dst stuck ha h = h
  after_chunk-Fits again comp_seq_id seq_id state src dst (ok none) ha h = h
  after_chunk-Fits again comp_seq_id seq_id state src dst (ok (some (last x))) ha h =
      elim (Option-cases (sync_id seq_id comp_seq_id (last x))) [
        | inl e ↦ rw (after_chunk, e) h
        | inr (id, e) ↦ rw (after_chunk, e) h
      ]
  after_chunk-Fits again comp_seq_id seq_id state [] dst (ok (some (middle x))) ha h =
      elim (Option-cases (sync_id seq_id comp_seq_id (middle x))) [
        | inl e ↦ rw (after_chunk, e) h
        | inr (id, e) ↦ rw (after_chunk, e) h
      ]
  after_chunk-Fits again comp_seq_id seq_id state (b ∷ bs) dst (ok (some (middle x))) ha h =
      elim (Option-cases (sync_id seq_id comp_seq_id (middle x))) [
        | inl e ↦ rw (after_chunk, e) h
        | inr (id, e) ↦
            rw (after_chunk, e) (ha (record { seq_id = next_id id; chunk_decoder = state }) h)
      ]

-- Whatever the input holds, `PlainPacketCodec::decode` keeps what it has decoded, with what the chunk
-- at hand still brings, within `max_allowed_packet`, if this held before; the new state can be used in
-- the next call, so it holds throughout.
pub plain_decode-Fits :
    (M : BytesMut) (max_allowed_packet : ℕ) (comp_seq_id : Option ℕ) (fuel : ℕ)
    (codec : PlainPacketCodec) (src dst : Bytes)
    → Fits max_allowed_packet codec.chunk_decoder dst
    → FitsAfter max_allowed_packet
        (plain_decode M max_allowed_packet comp_seq_id fuel codec src dst)
unfolding plain_decode
plain_decode-Fits M max_allowed_packet comp_seq_id zero codec src dst h = h
plain_decode-Fits M max_allowed_packet comp_seq_id (suc fuel) codec src dst h =
    let s = chunk_decode M codec.chunk_decoder src dst max_allowed_packet in
    after_chunk-Fits max_allowed_packet (plain_decode M max_allowed_packet comp_seq_id fuel)
      comp_seq_id codec.seq_id s.state s.src s.dst s.outcome
      (λ c k. plain_decode-Fits M max_allowed_packet comp_seq_id fuel c s.src s.dst k)
      (chunk_decode-Fits max_allowed_packet M codec.chunk_decoder src dst h)
