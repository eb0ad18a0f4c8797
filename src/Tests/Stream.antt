-- ===== src/Tests/Stream.antt =====
-- A packet that is sent, and that arrives in pieces.
use rust_mysql_common.Base.{
  ℕ, ◌≡◌, refl, sym, true, some, List, [], ◌∷◌, arith, length, take_all, drop,
}
use rust_mysql_common.Base.Bytes.{Bytes, to_le_bytes}
use rust_mysql_common.Codec.Crates.{Buf, Zlib, vec_bytes_mut}
use rust_mysql_common.Codec.Chunks.{packet_to_chunks, write_extra, write_chunks, copy_chunk}
use rust_mysql_common.Codec.Outcome as Codec_outcomes
use rust_mysql_common.Codec.Plain.{plain_encode}
use rust_mysql_common.Codec.RoundTrip.{at_id}
use rust_mysql_common.SyncFramed.{ReadEvent, received, read_interrupted, read_failed, next_packet}
use rust_mysql_common.SyncFramed.Delivery.{
  arrived, interrupted, piece, connection, Delivers, next_packet-Delivers,
}

-- A packet that is a vector of bytes.
abbrev pub vec_buf : Buf Bytes
vec_buf = record {
  remaining = λ t. length t;
  chunk = λ t. t;
  advance = λ t n. drop n t;
  content = λ t. t;
  remaining_lem = λ t. refl;
  length-chunk = λ t. omega arith;
  chunk_lem = λ t. sym (take_all (length t) t (omega arith));
  chunk_pos = λ t h. h;
  advance_lem = λ t n h. refl;
}

-- A compression that leaves the bytes as they are.
abbrev stored : Zlib ℕ
stored = record {
  is_none = λ level. true;
  encode = λ level plain. some plain;
  decode = λ packed size. some packed;
  decode-encode = λ level plain packed e. sym e;
}

-- Seven bytes in two reads, with an interrupted one between them, in front of a read that fails.
abbrev two_reads : List ReadEvent
two_reads =
    received (2 ∷ 0 ∷ [])
    ∷ read_interrupted
    ∷ received (0 ∷ 0 ∷ 97 ∷ 98 ∷ 7 ∷ [])
    ∷ read_failed
    ∷ []

two_bytes_sent :
    plain_encode vec_bytes_mut vec_buf (at_id 0) (97 ∷ 98 ∷ []) [] 64
    ≡ (at_id 1, [], 2 ∷ 0 ∷ 0 ∷ 0 ∷ 97 ∷ 98 ∷ [], Codec_outcomes.ok tt)
unfolding plain_encode packet_to_chunks write_extra write_chunks copy_chunk to_le_bytes
two_bytes_sent = refl

next_packet-Delivers_example :
    Delivers vec_bytes_mut stored 64 [] (at_id 1) (7 ∷ []) (97 ∷ 98 ∷ []) (
      next_packet vec_bytes_mut stored
        (connection vec_bytes_mut stored 64 [] (at_id 0) [] two_reads)
        [])
next_packet-Delivers_example =
    next_packet-Delivers vec_bytes_mut stored 64 [] vec_buf 0 (at_id 1) (97 ∷ 98 ∷ []) []
      (2 ∷ 0 ∷ 0 ∷ 0 ∷ 97 ∷ 98 ∷ []) (7 ∷ []) [] (2 ∷ 0 ∷ 0 ∷ 0 ∷ 97 ∷ 98 ∷ 7 ∷ []) two_reads
      (omega arith) (omega arith) two_bytes_sent
      (piece 2 (0 ∷ []) (interrupted (piece 0 (0 ∷ 97 ∷ 98 ∷ 7 ∷ []) (arrived (read_failed ∷ [])))))
      refl
