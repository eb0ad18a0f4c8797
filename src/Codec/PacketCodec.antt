-- ===== src/Codec/PacketCodec.antt =====
-- src/proto/codec/mod.rs: `PacketCodecInner` and `PacketCodec`.
use rust_mysql_common.Base.{ℕ, suc, ◌*◌, Bool, none, [], length}
use rust_mysql_common.Base.Bytes.{Bytes}
use rust_mysql_common.Codec.Crates.{BytesMut, Buf, Zlib}
use rust_mysql_common.Codec.Outcome.{Outcome, Step}
use rust_mysql_common.Codec.Plain.{
  PlainPacketCodec, default_plain, plain_decode, plain_encode, plain_reset_seq_id,
}
use rust_mysql_common.Codec.CompDecoder.{comp_idle}
use rust_mysql_common.Codec.Comp.{
  CompPacketCodec, comp_reset_seq_id, comp_sync_seq_id, comp_decode, comp_encode,
}

pub data PacketCodecInner (Level : Type 0) : Type 0 where
  plain : PlainPacketCodec → PacketCodecInner Level
  comp : CompPacketCodec Level → PacketCodecInner Level

pub record PacketCodec (Level : Type 0) : Type 0 where
  pub max_allowed_packet : ℕ
  pub inner : PacketCodecInner Level

-- src/constants.rs
abbrev pub default_max_allowed_packet : ℕ
default_max_allowed_packet = 4 * 1024 * 1024

module _ {Level : Type 0} where
  unfoldable pub default_codec : PacketCodec Level
  default_codec = record {
    max_allowed_packet = default_max_allowed_packet;
    inner = plain default_plain;
  }

  unfoldable pub inner_reset_seq_id : PacketCodecInner Level → PacketCodecInner Level
  inner_reset_seq_id (plain c) = plain (plain_reset_seq_id c)
  inner_reset_seq_id (comp c) = comp (comp_reset_seq_id c)

  unfoldable pub inner_sync_seq_id : PacketCodecInner Level → PacketCodecInner Level
  inner_sync_seq_id (plain c) = plain c
  inner_sync_seq_id (comp c) = comp (comp_sync_seq_id c)

  unfoldable pub inner_compress : PacketCodecInner Level → Level → PacketCodecInner Level
  inner_compress (plain c) level = comp (record {
    level = level;
    comp_seq_id = 0;
    in_buf = [];
    out_buf = [];
    comp_decoder = comp_idle;
    plain_codec = c;
  })
  inner_compress (comp c) level = comp (record c { level = level })

  unfoldable pub reset_seq_id : PacketCodec Level → PacketCodec Level
  reset_seq_id c = record c { inner = inner_reset_seq_id (c.inner) }

  unfoldable pub sync_seq_id : PacketCodec Level → PacketCodec Level
  sync_seq_id c = record c { inner = inner_sync_seq_id (c.inner) }

  unfoldable pub compress_with : PacketCodec Level → Level → PacketCodec Level
  compress_with c level = record c { inner = inner_compress (c.inner) level }

abbrev pub map_state : {S S' A : Type 0} → (S → S') → Step S A → Step S' A
map_state f s = record { state = f (s.state); src = s.src; dst = s.dst; outcome = s.outcome }

module _ (M : BytesMut) {Level : Type 0} (Z : Zlib Level) where
  -- The fuel is one call for each byte of the input, and one more.
  unfoldable pub inner_decode :
      PacketCodecInner Level → Bytes → Bytes → ℕ → Step (PacketCodecInner Level) Bool
  inner_decode (plain c) src dst max_allowed_packet =
      map_state plain (plain_decode M max_allowed_packet none (suc (length src)) c src dst)
  inner_decode (comp c) src dst max_allowed_packet =
      map_state comp (comp_decode M Z max_allowed_packet (suc (length src)) c src dst)

  unfoldable pub decode : PacketCodec Level → Bytes → Bytes → Step (PacketCodec Level) Bool
  decode c src dst =
      map_state (λ i. record c { inner = i }) (inner_decode (c.inner) src dst c.max_allowed_packet)

  module _ {T : Type 0} (P : Buf T) where
    unfoldable pub inner_encode :
        PacketCodecInner Level
        → T
        → Bytes
        → ℕ
        → PacketCodecInner Level × T × Bytes × Outcome (Unit {0})
    inner_encode (plain c) packet dst max_allowed_packet =
        let (c', packet', dst', o) = plain_encode M P c packet dst max_allowed_packet in
        (plain c', packet', dst', o)
    inner_encode (comp c) packet dst max_allowed_packet =
        let (c', packet', dst', o) = comp_encode M Z max_allowed_packet P c packet dst in
        (comp c', packet', dst', o)

    unfoldable pub encode :
        PacketCodec Level → T → Bytes → PacketCodec Level × T × Bytes × Outcome (Unit {0})
    encode c packet dst =
        let (i, packet', dst', o) = inner_encode (c.inner) packet dst c.max_allowed_packet in
        (record c { inner = i }, packet', dst', o)
