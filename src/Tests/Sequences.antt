-- ===== src/Tests/Sequences.antt =====
-- The theorem on sequences at a concrete input.
use rust_mysql_common.Base.{◌≡◌, [], ◌∷◌, ◌++◌, List, refl, arith}
use rust_mysql_common.Base.Bytes.{Bytes}
use rust_mysql_common.Base.Result.{ok}
use rust_mysql_common.Io.BufMut.{vec_buf_mut}
use rust_mysql_common.Raw.Numbers.{w32, unsigned, unsigned-RoundTrips}
use rust_mysql_common.Raw.Text.{raw_bytes, serialize_raw, len_enc_bytes}
use rust_mysql_common.Raw.Texts.{len_enc_bytes-RoundTrips}
use rust_mysql_common.Raw.Sequence.{serialize_seq, parse_seq}
use rust_mysql_common.Raw.Sequences.{parse_seq-serialize_seq}

abbrev two_texts : List Bytes
two_texts = (65 ∷ []) ∷ (66 ∷ 67 ∷ []) ∷ []

parse_seq-serialize_seq_example :
    (written : Bytes) × ((buf : Bytes)
      → serialize_seq
          (unsigned vec_buf_mut w32)
          4_294_967_295
          (serialize_raw (len_enc_bytes vec_buf_mut))
          two_texts
          buf
        ≡ buf ++ written)
    × ((rest : Bytes)
        → parse_seq
            (unsigned vec_buf_mut w32)
            (raw_bytes (len_enc_bytes vec_buf_mut))
            32
            (written ++ rest)
          ≡ ok (two_texts, rest))
unfolding raw_bytes len_enc_bytes
parse_seq-serialize_seq_example =
    parse_seq-serialize_seq (serialize_raw (len_enc_bytes vec_buf_mut))
      (raw_bytes (len_enc_bytes vec_buf_mut)) (unsigned vec_buf_mut w32) 4_294_967_295 32 two_texts
      refl (omega arith) (omega arith) (unsigned-RoundTrips vec_buf_mut w32 2 (omega arith))
      (
        len_enc_bytes-RoundTrips vec_buf_mut (65 ∷ []) (omega arith),
        (len_enc_bytes-RoundTrips vec_buf_mut (66 ∷ 67 ∷ []) (omega arith), tt),
      )
