-- ===== src/Codec/Plain.antt =====
-- src/proto/codec/mod.rs: `PlainPacketCodec`.
use rust_mysql_common.Base.{
  ℕ, zero, suc, ltb, Bool, true, false, Option, none, some, ◌==◌, if◌then◌else◌, [], ◌∷◌,
}
use rust_mysql_common.Base.Bytes.{Bytes}
use rust_mysql_common.Codec.Crates.{BytesMut, Buf}
use rust_mysql_common.Codec.Chunks.{next_id, packet_to_chunks}
use rust_mysql_common.Codec.Outcome.{
  Outcome, Step, ok, err, panic, stuck, packet_too_large, packets_out_of_sync,
}
use rust_mysql_common.Codec.ChunkDecoder.{
  ChunkInfo, ChunkDecoder, middle, last, idle, info_seq_id, chunk_decode,
}

pub record PlainPacketCodec : Type 0 where
  pub seq_id : ℕ
  pub chunk_decoder : ChunkDecoder

abbrev pub default_plain : PlainPacketCodec
default_plain = record { seq_id = 0; chunk_decoder = idle }

unfoldable pub plain_reset_seq_id : PlainPacketCodec → PlainPacketCodec
plain_reset_seq_id c = record c { seq_id = 0 }

-- The comparison of a chunk's sequence id with the codec's: the id to go on from, or `none` for
-- `PacketsOutOfSync`.
unfoldable pub sync_id : ℕ → Option ℕ → ChunkInfo → Option ℕ
sync_id seq_id comp_seq_id info =
    if seq_id == info_seq_id info then some seq_id else elim comp_seq_id [
      | none ↦ none
      | some comp_id ↦ if comp_id == info_seq_id info then some comp_id else none
    ]

abbrev pub is_empty : Bytes → Bool
is_empty [] = true
is_empty (x ∷ xs) = false

abbrev pub Decode : Type 0
Decode = PlainPacketCodec → Bytes → Bytes → Step PlainPacketCodec Bool

-- What `PlainPacketCodec::decode` does with the chunk decoder's outcome; `again` is its call of
-- itself.
unfoldable pub after_chunk :
    Decode → Option ℕ → ℕ → Step ChunkDecoder (Option ChunkInfo) → Step PlainPacketCodec Bool
after_chunk again comp_seq_id seq_id s =
    let done : ℕ → Outcome Bool → Step PlainPacketCodec Bool = λ id o. record {
      state = record { seq_id = id; chunk_decoder = s.state };
      src = s.src;
      dst = s.dst;
      outcome = o;
    } in
    elim (s.outcome) [
      | err e ↦ done seq_id (err e)
      | panic ↦ done seq_id panic
      | stuck ↦ done seq_id stuck
      | ok none ↦ done seq_id (ok false)
      | ok (some info) ↦ elim (sync_id seq_id comp_seq_id info) [
        | none ↦ done seq_id (err packets_out_of_sync)
        | some id ↦ elim info [
          | last x ↦ done (next_id id) (ok true)
          | middle x ↦ elim (is_empty (s.src)) [
            | true ↦ done (next_id id) (ok false)
            | false ↦
                again (record { seq_id = next_id id; chunk_decoder = s.state }) (s.src) (s.dst)
          ]
        ]
      ]
    ]

-- `PlainPacketCodec::decode`, on fuel for its calls of itself.
module _ (M : BytesMut) (max_allowed_packet : ℕ) (comp_seq_id : Option ℕ) where
  unfoldable pub plain_decode : ℕ → Decode
  plain_decode zero c src dst = record { state = c; src = src; dst = dst; outcome = stuck }
  plain_decode (suc fuel) c src dst =
      after_chunk (plain_decode fuel) comp_seq_id c.seq_id
        (chunk_decode M c.chunk_decoder src dst max_allowed_packet)

-- `PlainPacketCodec::encode`: the codec, what is left of the packet, `dst` and the outcome.
module _ (M : BytesMut) {T : Type 0} (P : Buf T) where
  unfoldable pub plain_encode :
      PlainPacketCodec → T → Bytes → ℕ → PlainPacketCodec × T × Bytes × Outcome (Unit {0})
  plain_encode c packet dst max_allowed_packet =
      if ltb max_allowed_packet (P.remaining packet)
      then (c, packet, dst, err packet_too_large)
      else elim (packet_to_chunks M P c.seq_id packet dst) [
        | none ↦ (c, packet, dst, stuck)
        | some (seq_id, packet', dst') ↦ (record c { seq_id = seq_id }, packet', dst', ok tt)
      ]
