-- ===== src/Codec/CompDecoder.antt =====
-- src/proto/codec/mod.rs: `CompData` and `CompDecoder`. A read behind the end of `src` is a
-- panic.
use rust_mysql_common.Base.{
  ℕ, zero, suc, ◌+◌, max, Option, none, some, ltb, leb, if◌then◌else◌, length, get_elem?,
}
use rust_mysql_common.Base.Bytes.{Bytes}
use rust_mysql_common.Codec.Crates.{BytesMut, Zlib}
use rust_mysql_common.Codec.Slices.{slice_to, slice_from, advanced, read_u24_of}
use rust_mysql_common.Codec.Outcome.{
  Outcome, Step, ok, err, panic, stuck, io, packet_too_large, bad_compressed_packet_header,
}
use rust_mysql_common.Codec.ChunkDecoder.{ChunkInfo, last}

-- `compressed needed plain_len` and `uncompressed needed`; the numbers are not zero.
pub data CompData : Type 0 where
  compressed : ℕ → ℕ → CompData
  uncompressed : ℕ → CompData

-- The `match` on the two lengths.
unfoldable pub comp_data : ℕ → ℕ → Outcome (Option CompData)
comp_data zero zero = ok none
comp_data zero (suc plain_len) = err bad_compressed_packet_header
comp_data (suc needed) zero = ok (some (uncompressed (suc needed)))
comp_data (suc needed) (suc plain_len) = ok (some (compressed (suc needed) (suc plain_len)))

-- `CompData::new`.
unfoldable pub comp_data_new : ℕ → ℕ → ℕ → Outcome (Option CompData)
comp_data_new compressed_len uncompressed_len max_allowed_packet =
    if ltb max_allowed_packet (max compressed_len uncompressed_len)
    then err packet_too_large
    else comp_data compressed_len uncompressed_len

abbrev pub needed_of : CompData → ℕ
needed_of (compressed needed plain_len) = needed
needed_of (uncompressed needed) = needed

pub data CompDecoder : Type 0 where
  comp_idle : CompDecoder
  packet : ℕ → CompData → CompDecoder

module _ (M : BytesMut) {Level : Type 0} (Z : Zlib Level) where
  -- What the bytes of the packet add to `dst`.
  unfoldable pub comp_payload : CompData → Bytes → Option Bytes
  comp_payload (uncompressed needed) piece = some piece
  comp_payload (compressed needed plain_len) piece = Z.decode piece plain_len

  -- The arm for a packet that is being decoded. Where decompression fails, the header is gone
  -- from `src` and the state is kept.
  unfoldable pub decode_packet : ℕ → CompData → Bytes → Bytes → Step CompDecoder (Option ChunkInfo)
  decode_packet seq_id needed src dst =
      let state = packet seq_id needed in
      if leb (7 + needed_of needed) (length src)
      then elim (advanced M src 7) [
        | none ↦ record { state = state; src = src; dst = dst; outcome = panic }
        | some body ↦ elim (slice_to body (needed_of needed)) [
          | none ↦ record { state = state; src = body; dst = dst; outcome = panic }
          | some piece ↦ elim (comp_payload needed piece) [
            | none ↦ record { state = state; src = body; dst = dst; outcome = err io }
            | some plain ↦
                let dst' = M.extend_from_slice dst plain in
                elim (advanced M body (needed_of needed)) [
                  | none ↦ record { state = state; src = body; dst = dst'; outcome = panic }
                  | some rest ↦ record {
                    state = comp_idle;
                    src = rest;
                    dst = dst';
                    outcome = ok (some (last seq_id));
                  }
                ]
          ]
        ]
      ]
      else record { state = state; src = src; dst = dst; outcome = ok none }

  -- What the decoder does with the lengths of a header.
  unfoldable pub after_header :
      ℕ → Outcome (Option CompData) → Bytes → Bytes → Step CompDecoder (Option ChunkInfo)
  after_header seq_id (ok (some needed)) src dst = decode_packet seq_id needed src dst
  after_header seq_id (ok none) src dst = elim (advanced M src 7) [
    | none ↦ record { state = comp_idle; src = src; dst = dst; outcome = panic }
    | some rest ↦ record {
      state = comp_idle;
      src = rest;
      dst = dst;
      outcome = ok (some (last seq_id));
    }
  ]
  after_header seq_id (err e) src dst = record {
    state = comp_idle;
    src = src;
    dst = dst;
    outcome = err e;
  }
  after_header seq_id panic src dst = record {
    state = comp_idle;
    src = src;
    dst = dst;
    outcome = panic;
  }
  after_header seq_id stuck src dst = record {
    state = comp_idle;
    src = src;
    dst = dst;
    outcome = stuck;
  }

  -- The reads of a header: the compressed length, the sequence id and the uncompressed length.
  unfoldable pub header_of : Bytes → Option (ℕ × ℕ × ℕ)
  header_of src = elim (read_u24_of M src) [
    | none ↦ none
    | some compressed_len ↦ elim (get_elem? src 3) [
      | none ↦ none
      | some seq_id ↦ elim (slice_from src 4) [
        | none ↦ none
        | some behind ↦ elim (read_u24_of M behind) [
          | none ↦ none
          | some uncompressed_len ↦ some (compressed_len, seq_id, uncompressed_len)
        ]
      ]
    ]
  ]

  -- `CompDecoder::decode`.
  unfoldable pub comp_decoder_decode :
      CompDecoder → Bytes → Bytes → ℕ → Step CompDecoder (Option ChunkInfo)
  comp_decoder_decode comp_idle src dst max_allowed_packet =
      if ltb (length src) 7
      then record { state = comp_idle; src = src; dst = dst; outcome = ok none }
      else elim (header_of src) [
        | none ↦ record { state = comp_idle; src = src; dst = dst; outcome = panic }
        | some (compressed_len, seq_id, uncompressed_len) ↦
            after_header seq_id (comp_data_new compressed_len uncompressed_len max_allowed_packet)
              src dst
      ]
  comp_decoder_decode (packet seq_id needed) src dst max_allowed_packet =
      decode_packet seq_id needed src dst
