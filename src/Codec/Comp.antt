-- ===== src/Codec/Comp.antt =====
-- src/proto/codec/mod.rs: `CompPacketCodec`.
use rust_mysql_common.Base.{
  ℕ, zero, suc, ◌+◌, ◌%◌, Bool, true, false, none, some, ◌==◌, if◌then◌else◌, length,
}
use rust_mysql_common.Base.Bytes.{Bytes}
use rust_mysql_common.Codec.Crates.{BytesMut, Buf, Zlib}
use rust_mysql_common.Codec.Chunks.{next_id}
use rust_mysql_common.Codec.Outcome.{Outcome, Step, ok, err, panic, stuck, packets_out_of_sync}
use rust_mysql_common.Codec.ChunkDecoder.{info_seq_id}
use rust_mysql_common.Codec.Plain.{
  PlainPacketCodec, is_empty, plain_decode, plain_encode, plain_reset_seq_id,
}
use rust_mysql_common.Codec.Compress.{compress}
use rust_mysql_common.Codec.CompDecoder.{CompDecoder, comp_decoder_decode}

pub record CompPacketCodec (Level : Type 0) : Type 0 where
  pub level : Level
  pub comp_seq_id : ℕ
  pub in_buf : Bytes
  pub out_buf : Bytes
  pub comp_decoder : CompDecoder
  pub plain_codec : PlainPacketCodec

unfoldable pub comp_reset_seq_id : {Level : Type 0} → CompPacketCodec Level → CompPacketCodec Level
comp_reset_seq_id c = record c { comp_seq_id = 0; plain_codec = plain_reset_seq_id c.plain_codec }

unfoldable pub comp_sync_seq_id : {Level : Type 0} → CompPacketCodec Level → CompPacketCodec Level
comp_sync_seq_id c =
    if is_empty (c.in_buf)
    then record c { plain_codec = record (c.plain_codec) { seq_id = c.comp_seq_id } }
    else c

-- `u8::wrapping_sub(1)`.
abbrev pub previous_id : ℕ → ℕ
previous_id seq_id = (seq_id + 255) % 256

module _ (M : BytesMut) {Level : Type 0} (Z : Zlib Level) (max_allowed_packet : ℕ) where
  abbrev CompDecode : Type 0
  CompDecode = CompPacketCodec Level → Bytes → Bytes → Step (CompPacketCodec Level) Bool

  -- The first part of `decode`: a packet from the bytes that are already decompressed.
  unfoldable pub from_in_buf : CompDecode
  from_in_buf c src dst =
      let s =
        plain_decode M max_allowed_packet (some (previous_id c.comp_seq_id))
          (suc (length (c.in_buf))) (c.plain_codec) (c.in_buf) dst in
      if is_empty (c.in_buf)
      then record { state = c; src = src; dst = dst; outcome = ok false }
      else record {
        state = record c { in_buf = s.src; plain_codec = s.state };
        src = src;
        dst = s.dst;
        outcome = s.outcome;
      }

  -- The second part: one more compressed packet into `in_buf`, and `again` is the call of itself.
  unfoldable pub refill : CompDecode → CompDecode
  refill again c src dst =
      let s = comp_decoder_decode M Z (c.comp_decoder) src (c.in_buf) max_allowed_packet in
      let c' : CompPacketCodec Level = record c { in_buf = s.dst; comp_decoder = s.state } in
      let done : Outcome Bool → Step (CompPacketCodec Level) Bool =
        λ o. record { state = c'; src = s.src; dst = dst; outcome = o } in
      elim (s.outcome) [
        | err e ↦ done (err e)
        | panic ↦ done panic
        | stuck ↦ done stuck
        | ok none ↦ done (ok false)
        | ok (some info) ↦ elim (c.comp_seq_id == info_seq_id info) [
          | false ↦ done (err packets_out_of_sync)
          | true ↦ again (record c' { comp_seq_id = next_id c.comp_seq_id }) (s.src) dst
        ]
      ]

  unfoldable pub after_in_buf :
      CompDecode → Step (CompPacketCodec Level) Bool → Step (CompPacketCodec Level) Bool
  after_in_buf again s = elim (s.outcome) [
    | ok false ↦ refill again (s.state) (s.src) (s.dst)
    | _ ↦ s
  ]

  -- `CompPacketCodec::decode`, on fuel for its calls of itself.
  unfoldable pub comp_decode : ℕ → CompDecode
  comp_decode zero c src dst = record { state = c; src = src; dst = dst; outcome = stuck }
  comp_decode (suc fuel) c src dst = after_in_buf (comp_decode fuel) (from_in_buf c src dst)

  -- `CompPacketCodec::encode`.
  module _ {T : Type 0} (P : Buf T) where
    unfoldable pub comp_encode :
        CompPacketCodec Level → T → Bytes → CompPacketCodec Level × T × Bytes × Outcome (Unit {0})
    comp_encode c packet dst =
        let (plain, packet', out, o) =
          plain_encode M P (c.plain_codec) packet (c.out_buf) max_allowed_packet in
        let c' : CompPacketCodec Level = record c { plain_codec = plain; out_buf = out } in
        let s = compress M Z (c.level) (c.comp_seq_id) max_allowed_packet out dst in
        let c'' : CompPacketCodec Level = record c' { out_buf = s.src } in
        elim o [
          | ok u ↦ elim (s.outcome) [
            | ok id ↦ (
              record c'' { comp_seq_id = id; plain_codec = record plain { seq_id = id } },
              packet',
              s.dst,
              ok tt,
            )
            | err e ↦ (c'', packet', s.dst, err e)
            | panic ↦ (c'', packet', s.dst, panic)
            | stuck ↦ (c'', packet', s.dst, stuck)
          ]
          | err e ↦ (c', packet', dst, err e)
          | panic ↦ (c', packet', dst, panic)
          | stuck ↦ (c', packet', dst, stuck)
        ]
