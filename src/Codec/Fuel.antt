-- ===== src/Codec/Fuel.antt =====
-- src/proto/codec/mod.rs, `PlainPacketCodec::decode`: what it does behind a chunk, and that fuel beyond
-- what a call needs does not change it.
use rust_mysql_common.Base.{
  ℕ, zero, suc, ◌+◌, ◌≡◌, refl, ap, sym, subst, ◌∙◌, Option, none, some, Option-cases, Bool, true,
  false, [], ◌∷◌, arith, inl, inr,
}
use rust_mysql_common.Base.Bytes.{Bytes}
use rust_mysql_common.Codec.Crates.{BytesMut}
use rust_mysql_common.Codec.Chunks.{next_id}
use rust_mysql_common.Codec.Outcome.{Step, Outcome, ok, err, panic, stuck, packets_out_of_sync}
use rust_mysql_common.Codec.ChunkDecoder.{ChunkInfo, ChunkDecoder, middle, last, chunk_decode}
use rust_mysql_common.Codec.Plain.{
  PlainPacketCodec, Decode, sync_id, after_chunk, plain_decode, is_empty,
}
use rust_mysql_common.Codec.Termination.{Ends}

-- What `decode` does behind a chunk.
module _ (again : Decode) (comp_seq_id : Option ℕ) (seq_id : ℕ) (state : ChunkDecoder)
    (src dst : Bytes) where
  abbrev found : ChunkInfo → Step ChunkDecoder (Option ChunkInfo)
  found info = record { state = state; src = src; dst = dst; outcome = ok (some info) }

  abbrev stops : ℕ → Outcome Bool → Step PlainPacketCodec Bool
  stops id o = record {
    state = record { seq_id = id; chunk_decoder = state };
    src = src;
    dst = dst;
    outcome = o;
  }

  pub after_other :
      (info : ChunkInfo)
      → sync_id seq_id comp_seq_id info ≡ none
      → after_chunk again comp_seq_id seq_id (found info) ≡ stops seq_id (err packets_out_of_sync)
  unfolding after_chunk
  after_other info e = rw (after_chunk, e)

  pub after_last :
      (x id : ℕ)
      → sync_id seq_id comp_seq_id (last x) ≡ some id
      → after_chunk again comp_seq_id seq_id (found (last x)) ≡ stops (next_id id) (ok true)
  unfolding after_chunk
  after_last x id e = rw (after_chunk, e)

  pub after_middle_end :
      (x id : ℕ)
      → sync_id seq_id comp_seq_id (middle x) ≡ some id
      → is_empty src ≡ true
      → after_chunk again comp_seq_id seq_id (found (middle x)) ≡ stops (next_id id) (ok false)
  unfolding after_chunk
  after_middle_end x id e z = rw (after_chunk, e, z)

  pub after_middle :
      (x id : ℕ)
      → sync_id seq_id comp_seq_id (middle x) ≡ some id
      → is_empty src ≡ false
      → after_chunk again comp_seq_id seq_id (found (middle x))
        ≡ again (record { seq_id = next_id id; chunk_decoder = state }) src dst
  unfolding after_chunk
  after_middle x id e z = rw (after_chunk, e, z)

-- A call of itself with more fuel.
module _ (again again' : Decode) (comp_seq_id : Option ℕ) (seq_id : ℕ) (state : ChunkDecoder)
    (dst : Bytes) where
  abbrev behind : Decode → Bytes → Outcome (Option ChunkInfo) → Step PlainPacketCodec Bool
  behind call src o =
      after_chunk call comp_seq_id seq_id
        (record { state = state; src = src; dst = dst; outcome = o })

  refuelled :
      (src : Bytes) (o : Outcome (Option ChunkInfo))
      → ((c : PlainPacketCodec)
          → Ends (Step.outcome (again c src dst))
          → again' c src dst ≡ again c src dst)
      → Ends (Step.outcome (behind again src o))
      → behind again' src o ≡ behind again src o
  unfolding after_chunk
  refuelled src (err e) same ends = refl
  refuelled src panic same ends = refl
  refuelled src stuck same ends = refl
  refuelled src (ok none) same ends = refl
  refuelled src (ok (some (last x))) same ends =
      elim (Option-cases (sync_id seq_id comp_seq_id (last x))) [
        | inl e ↦
            after_other again' comp_seq_id seq_id state src dst (last x) e
            ∙ sym (after_other again comp_seq_id seq_id state src dst (last x) e)
        | inr (id, e) ↦
            after_last again' comp_seq_id seq_id state src dst x id e
            ∙ sym (after_last again comp_seq_id seq_id state src dst x id e)
      ]
  refuelled [] (ok (some (middle x))) same ends =
      elim (Option-cases (sync_id seq_id comp_seq_id (middle x))) [
        | inl e ↦
            after_other again' comp_seq_id seq_id state [] dst (middle x) e
            ∙ sym (after_other again comp_seq_id seq_id state [] dst (middle x) e)
        | inr (id, e) ↦
            after_middle_end again' comp_seq_id seq_id state [] dst x id e refl
            ∙ sym (after_middle_end again comp_seq_id seq_id state [] dst x id e refl)
      ]
  refuelled (b ∷ bs) (ok (some (middle x))) same ends =
      elim (Option-cases (sync_id seq_id comp_seq_id (middle x))) [
        | inl e ↦
            after_other again' comp_seq_id seq_id state (b ∷ bs) dst (middle x) e
            ∙ sym (after_other again comp_seq_id seq_id state (b ∷ bs) dst (middle x) e)
        | inr (id, e) ↦
            let at : behind again (b ∷ bs) (ok (some (middle x)))
                ≡ again (record { seq_id = next_id id; chunk_decoder = state }) (b ∷ bs) dst =
              after_middle again comp_seq_id seq_id state (b ∷ bs) dst x id e refl in
            after_middle again' comp_seq_id seq_id state (b ∷ bs) dst x id e refl
            ∙ same (record { seq_id = next_id id; chunk_decoder = state })
                (subst (λ s. Ends (Step.outcome s)) at ends)
            ∙ sym at
      ]

module _ (M : BytesMut) (max_allowed_packet : ℕ) (comp_seq_id : Option ℕ) where
  abbrev pub pd : ℕ → Decode
  pd = plain_decode M max_allowed_packet comp_seq_id

  pd-more :
      (fuel extra : ℕ) (c : PlainPacketCodec) (src dst : Bytes)
      → Ends (Step.outcome (pd fuel c src dst))
      → pd (fuel + extra) c src dst ≡ pd fuel c src dst
  unfolding plain_decode
  pd-more zero extra c src dst ends = absurd ends
  pd-more (suc fuel) extra c src dst ends =
      let s = chunk_decode M c.chunk_decoder src dst max_allowed_packet in
      let count : suc fuel + extra ≡ suc (fuel + extra) = omega arith in
      ap (λ n. pd n c src dst) count
      ∙ refuelled (pd fuel) (pd (fuel + extra)) comp_seq_id c.seq_id s.state s.dst s.src s.outcome
          (λ c' ends'. pd-more fuel extra c' s.src s.dst ends') ends

  -- Two calls that end, on any fuel, are the same.
  pub pd-agree :
      (k n : ℕ) (c : PlainPacketCodec) (src dst : Bytes)
      → Ends (Step.outcome (pd k c src dst))
      → Ends (Step.outcome (pd n c src dst))
      → pd k c src dst ≡ pd n c src dst
  pd-agree k n c src dst hk hn =
      let e : k + n ≡ n + k = omega arith in
      sym (pd-more k n c src dst hk) ∙ ap (λ f. pd f c src dst) e ∙ pd-more n k c src dst hn
