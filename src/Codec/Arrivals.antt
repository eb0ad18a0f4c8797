-- ===== src/Codec/Arrivals.antt =====
-- src/proto/codec/mod.rs, `PlainPacketCodec::decode` on input that arrives in pieces.
use rust_mysql_common.Base.{
  ℕ, zero, suc, ◌<◌, ◌≡◌, refl, ap, sym, subst, ◌∙◌, Option, none, some, Option-cases, Bool, true,
  false, [], ◌∷◌, ◌++◌, arith, length, inl, inr, length-append,
}
use rust_mysql_common.Base.Bytes.{Bytes}
use rust_mysql_common.Codec.Crates.{BytesMut}
use rust_mysql_common.Codec.Chunks.{next_id}
use rust_mysql_common.Codec.Outcome.{Step, Outcome, ok, err, panic, stuck}
use rust_mysql_common.Codec.ChunkDecoder.{ChunkInfo, ChunkDecoder, middle, last, chunk_decode}
use rust_mysql_common.Codec.Plain.{PlainPacketCodec, sync_id, after_chunk, plain_decode, is_empty}
use rust_mysql_common.Codec.Fragments.{AgreesBy, chunk_decode-Agrees}
use rust_mysql_common.Codec.Fuel.{
  after_other, after_last, after_middle_end, after_middle, pd, pd-agree,
}
use rust_mysql_common.Codec.Termination.{Ends, plain_decode-Ends}

module _ (M : BytesMut) (max_allowed_packet : ℕ) (comp_seq_id : Option ℕ) where
  module _ (more : Bytes) where
    abbrev left_with : Step PlainPacketCodec Bool → Step PlainPacketCodec Bool
    left_with s = record s { src = s.src ++ more }

    -- A call on a part of the input against one on the whole, as for the chunk decoder.
    abbrev GoesOnBy :
        Step PlainPacketCodec Bool → Step PlainPacketCodec Bool → Outcome Bool → Type 0
    GoesOnBy s whole (ok false) =
        (k : ℕ) × (pd M max_allowed_packet comp_seq_id k s.state (s.src ++ more) s.dst ≡ whole)
    GoesOnBy s whole (ok true) = whole ≡ left_with s
    GoesOnBy s whole (err e) = whole ≡ left_with s
    GoesOnBy s whole panic = whole ≡ left_with s
    GoesOnBy s whole stuck = whole ≡ left_with s

    abbrev GoesOn : Step PlainPacketCodec Bool → Step PlainPacketCodec Bool → Type 0
    GoesOn s whole = GoesOnBy s whole s.outcome

    carried : {s s' w w' : Step PlainPacketCodec Bool} → s ≡ s' → w ≡ w' → GoesOn s' w' → GoesOn s w
    carried {s} {s'} {w} {w'} e f h = subst (λ t. GoesOn t w) (sym e) (subst (GoesOn s') (sym f) h)

    after_chunk-GoesOn :
        (fuel seq_id : ℕ) (state : ChunkDecoder) (src dst : Bytes) (o : Outcome (Option ChunkInfo))
        (w : Step ChunkDecoder (Option ChunkInfo))
        → is_empty more ≡ false
        → AgreesBy M more max_allowed_packet
            (record { state = state; src = src; dst = dst; outcome = o })
            w
            o
        → ((c : PlainPacketCodec)
            → GoesOn
                (pd M max_allowed_packet comp_seq_id fuel c src dst)
                (pd M max_allowed_packet comp_seq_id fuel c (src ++ more) dst))
        → GoesOn
            (after_chunk
              (pd M max_allowed_packet comp_seq_id fuel)
              comp_seq_id
              seq_id
              (record { state = state; src = src; dst = dst; outcome = o }))
            (after_chunk (pd M max_allowed_packet comp_seq_id fuel) comp_seq_id seq_id w)
    unfolding after_chunk plain_decode
    after_chunk-GoesOn fuel seq_id state src dst (ok none) w ne h rec =
        (suc fuel, ap (after_chunk (pd M max_allowed_packet comp_seq_id fuel) comp_seq_id seq_id) h)
    after_chunk-GoesOn fuel seq_id state src dst (err e) w ne h rec =
        ap (after_chunk (pd M max_allowed_packet comp_seq_id fuel) comp_seq_id seq_id) h
    after_chunk-GoesOn fuel seq_id state src dst panic w ne h rec =
        ap (after_chunk (pd M max_allowed_packet comp_seq_id fuel) comp_seq_id seq_id) h
    after_chunk-GoesOn fuel seq_id state src dst stuck w ne h rec =
        ap (after_chunk (pd M max_allowed_packet comp_seq_id fuel) comp_seq_id seq_id) h
    after_chunk-GoesOn fuel seq_id state src dst (ok (some (last x))) w ne h rec =
        elim (Option-cases (sync_id seq_id comp_seq_id (last x))) [
          | inl e ↦
              carried
                (after_other (pd M max_allowed_packet comp_seq_id fuel) comp_seq_id seq_id state src
                  dst (last x) e)
                (ap (after_chunk (pd M max_allowed_packet comp_seq_id fuel) comp_seq_id seq_id) h
                  ∙ after_other (pd M max_allowed_packet comp_seq_id fuel) comp_seq_id seq_id state
                      (src ++ more) dst (last x) e)
                refl
          | inr (id, e) ↦
              carried
                (after_last (pd M max_allowed_packet comp_seq_id fuel) comp_seq_id seq_id state src
                  dst x id e)
                (ap (after_chunk (pd M max_allowed_packet comp_seq_id fuel) comp_seq_id seq_id) h
                  ∙ after_last (pd M max_allowed_packet comp_seq_id fuel) comp_seq_id seq_id state
                      (src ++ more) dst x id e)
                refl
        ]
    after_chunk-GoesOn fuel seq_id state [] dst (ok (some (middle x))) w ne h rec =
        elim (Option-cases (sync_id seq_id comp_seq_id (middle x))) [
          | inl e ↦
              carried
                (after_other (pd M max_allowed_packet comp_seq_id fuel) comp_seq_id seq_id state []
                  dst (middle x) e)
                (ap (after_chunk (pd M max_allowed_packet comp_seq_id fuel) comp_seq_id seq_id) h
                  ∙ after_other (pd M max_allowed_packet comp_seq_id fuel) comp_seq_id seq_id state
                      more dst (middle x) e)
                refl
          | inr (id, e) ↦
              carried
                (after_middle_end (pd M max_allowed_packet comp_seq_id fuel) comp_seq_id seq_id
                  state [] dst x id e refl)
                (ap (after_chunk (pd M max_allowed_packet comp_seq_id fuel) comp_seq_id seq_id) h
                  ∙ after_middle (pd M max_allowed_packet comp_seq_id fuel) comp_seq_id seq_id state
                      more dst x id e ne)
                (fuel, refl)
        ]
    after_chunk-GoesOn fuel seq_id state (b ∷ bs) dst (ok (some (middle x))) w ne h rec =
        elim (Option-cases (sync_id seq_id comp_seq_id (middle x))) [
          | inl e ↦
              carried
                (after_other (pd M max_allowed_packet comp_seq_id fuel) comp_seq_id seq_id state
                  (b ∷ bs) dst (middle x) e)
                (ap (after_chunk (pd M max_allowed_packet comp_seq_id fuel) comp_seq_id seq_id) h
                  ∙ after_other (pd M max_allowed_packet comp_seq_id fuel) comp_seq_id seq_id state
                      (b ∷ bs ++ more) dst (middle x) e)
                refl
          | inr (id, e) ↦
              carried
                (after_middle (pd M max_allowed_packet comp_seq_id fuel) comp_seq_id seq_id state
                  (b ∷ bs) dst x id e refl)
                (ap (after_chunk (pd M max_allowed_packet comp_seq_id fuel) comp_seq_id seq_id) h
                  ∙ after_middle (pd M max_allowed_packet comp_seq_id fuel) comp_seq_id seq_id state
                      (b ∷ bs ++ more) dst x id e refl)
                (rec (record { seq_id = next_id id; chunk_decoder = state }))
        ]

    pd-GoesOn :
        (fuel : ℕ) (c : PlainPacketCodec) (src dst : Bytes)
        → is_empty more ≡ false
        → GoesOn
            (pd M max_allowed_packet comp_seq_id fuel c src dst)
            (pd M max_allowed_packet comp_seq_id fuel c (src ++ more) dst)
    unfolding plain_decode
    pd-GoesOn zero c src dst ne = refl
    pd-GoesOn (suc fuel) c src dst ne =
        let s = chunk_decode M c.chunk_decoder src dst max_allowed_packet in
        after_chunk-GoesOn fuel c.seq_id s.state s.src s.dst s.outcome
          (chunk_decode M c.chunk_decoder (src ++ more) dst max_allowed_packet) ne
          (chunk_decode-Agrees M c.chunk_decoder src more dst max_allowed_packet)
          (λ c'. pd-GoesOn fuel c' s.src s.dst ne)

  -- `decode` with as much fuel as it is given.
  abbrev pub decode_all : PlainPacketCodec → Bytes → Bytes → Step PlainPacketCodec Bool
  decode_all c src dst = pd M max_allowed_packet comp_seq_id (suc (length src)) c src dst

  -- What a call on a part of the input says of the call on the whole: where no packet is complete,
  -- the next call goes on with the rest of the input.
  abbrev pub MeetsBy :
      Bytes → Step PlainPacketCodec Bool → Step PlainPacketCodec Bool → Outcome Bool → Type 0
  MeetsBy more s whole (ok false) = decode_all s.state (s.src ++ more) s.dst ≡ whole
  MeetsBy more s whole (ok true) = whole ≡ left_with more s
  MeetsBy more s whole (err e) = whole ≡ left_with more s
  MeetsBy more s whole panic = whole ≡ left_with more s
  MeetsBy more s whole stuck = whole ≡ left_with more s

  meets :
      (more : Bytes) (s whole : Step PlainPacketCodec Bool) (o : Outcome Bool)
      → Ends whole.outcome
      → GoesOnBy more s whole o
      → MeetsBy more s whole o
  meets more s whole (ok true) ends h = h
  meets more s whole (err e) ends h = h
  meets more s whole panic ends h = h
  meets more s whole stuck ends h = h
  meets more s whole (ok false) ends (k, h) =
      pd-agree M max_allowed_packet comp_seq_id _ k s.state (s.src ++ more) s.dst
        (plain_decode-Ends M max_allowed_packet comp_seq_id _ s.state (s.src ++ more) s.dst
          (omega arith))
        (subst (λ t. Ends (Step.outcome t)) (sym h) ends)
      ∙ h

  pub decode_all-Meets :
      (more : Bytes) (c : PlainPacketCodec) (src dst : Bytes)
      → is_empty more ≡ false
      → MeetsBy more
          (decode_all c src dst)
          (decode_all c (src ++ more) dst)
          (Step.outcome (decode_all c src dst))
  decode_all-Meets more c src dst ne =
      let fuel : ℕ = suc (length (src ++ more)) in
      let whole = decode_all c (src ++ more) dst in
      let enough : length src < fuel = omega (arith, length-append src more) in
      let same : pd M max_allowed_packet comp_seq_id fuel c src dst ≡ decode_all c src dst =
        pd-agree M max_allowed_packet comp_seq_id fuel (suc (length src)) c src dst
          (plain_decode-Ends M max_allowed_packet comp_seq_id fuel c src dst enough)
          (plain_decode-Ends M max_allowed_packet comp_seq_id (suc (length src)) c src dst
            (omega arith)) in
      meets more (decode_all c src dst) whole (Step.outcome (decode_all c src dst))
        (plain_decode-Ends M max_allowed_packet comp_seq_id fuel c (src ++ more) dst (omega arith))
        (subst (λ s. GoesOn more s whole) same (pd-GoesOn more fuel c src dst ne))
