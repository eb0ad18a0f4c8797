-- ===== src/Codec/ChunkDecoder.antt =====
-- src/proto/codec/mod.rs: `ChunkInfo` and `ChunkDecoder`. A read behind the end of `src` is a panic.
use rust_mysql_common.Base.{
  ℕ, ◌+◌, ◌%◌, Option, none, some, ltb, leb, ◌==◌, if◌then◌else◌, length, get_elem?,
}
use rust_mysql_common.Base.Bytes.{Bytes}
use rust_mysql_common.Codec.Crates.{BytesMut}
use rust_mysql_common.Codec.Chunks.{max_payload_len}
use rust_mysql_common.Codec.Slices.{slice_to, advanced, read_u24_of}
use rust_mysql_common.Codec.Outcome.{Step, ok, err, panic, packet_too_large}

pub data ChunkInfo : Type 0 where
  middle : ℕ → ChunkInfo
  last : ℕ → ChunkInfo

abbrev pub info_seq_id : ChunkInfo → ℕ
info_seq_id (middle x) = x
info_seq_id (last x) = x

-- `chunk seq_id needed`: a chunk that wants `needed` bytes, which is not zero.
pub data ChunkDecoder : Type 0 where
  idle : ChunkDecoder
  chunk : ℕ → ℕ → ChunkDecoder

module _ (M : BytesMut) where
  -- The arm for a chunk that is being decoded.
  unfoldable pub decode_body : ℕ → ℕ → Bytes → Bytes → Step ChunkDecoder (Option ChunkInfo)
  decode_body seq_id needed src dst =
      if leb (4 + needed) (length src)
      then elim (advanced M src 4) [
        | none ↦ record { state = chunk seq_id needed; src = src; dst = dst; outcome = panic }
        | some body ↦ elim (slice_to body needed) [
          | none ↦ record { state = chunk seq_id needed; src = body; dst = dst; outcome = panic }
          | some piece ↦
              let dst' = M.put_slice dst piece in
              elim (advanced M body needed) [
                | none ↦ record {
                  state = chunk seq_id needed;
                  src = body;
                  dst = dst';
                  outcome = panic;
                }
                | some rest ↦ record {
                  state = idle;
                  src = rest;
                  dst = dst';
                  outcome = ok (
                      some (
                        if length dst' % max_payload_len == 0 then middle seq_id else last seq_id));
                }
              ]
        ]
      ]
      else record { state = chunk seq_id needed; src = src; dst = dst; outcome = ok none }

  -- The arm for a header.
  unfoldable pub decode_header : ℕ → Bytes → Bytes → Step ChunkDecoder (Option ChunkInfo)
  decode_header max_allowed_packet src dst =
      if ltb (length src) 4
      then record { state = idle; src = src; dst = dst; outcome = ok none }
      else elim (read_u24_of M src) [
        | none ↦ record { state = idle; src = src; dst = dst; outcome = panic }
        | some raw_chunk_len ↦ elim (get_elem? src 3) [
          | none ↦ record { state = idle; src = src; dst = dst; outcome = panic }
          | some seq_id ↦
              if raw_chunk_len == 0
              then elim (advanced M src 4) [
                | none ↦ record { state = idle; src = src; dst = dst; outcome = panic }
                | some rest ↦ record {
                  state = idle;
                  src = rest;
                  dst = dst;
                  outcome = ok (some (last seq_id));
                }
              ]
              else if ltb max_allowed_packet (length dst + raw_chunk_len)
              then record { state = idle; src = src; dst = dst; outcome = err packet_too_large }
              else if ltb 4 (length src)
              then decode_body seq_id raw_chunk_len src dst
              else record {
                state = chunk seq_id raw_chunk_len;
                src = src;
                dst = dst;
                outcome = ok none;
              }
        ]
      ]

  -- `ChunkDecoder::decode`.
  unfoldable pub chunk_decode :
      ChunkDecoder → Bytes → Bytes → ℕ → Step ChunkDecoder (Option ChunkInfo)
  chunk_decode idle src dst max_allowed_packet = decode_header max_allowed_packet src dst
  chunk_decode (chunk seq_id needed) src dst max_allowed_packet = decode_body seq_id needed src dst
