-- ===== src/Tests/Decoding.antt =====
-- The theorems on the chunk decoder and the plain codec at concrete inputs.
use rust_mysql_common.Base.{none, [], ◌∷◌, arith}
use rust_mysql_common.Codec.Crates.{vec_bytes_mut}
use rust_mysql_common.Codec.Outcome.{Step}
use rust_mysql_common.Codec.ChunkDecoder.{idle, chunk, chunk_decode}
use rust_mysql_common.Codec.Plain.{plain_decode}
use rust_mysql_common.Codec.RoundTrip.{at_id}
use rust_mysql_common.Codec.Fragments.{Agrees, chunk_decode-Agrees}
use rust_mysql_common.Codec.Bounds.{FitsAfter, plain_decode-Fits}
use rust_mysql_common.Codec.Termination.{Ends, plain_decode-Ends}

chunk_decode-Agrees_example :
    Agrees vec_bytes_mut
      (8 ∷ 9 ∷ [])
      64
      (chunk_decode vec_bytes_mut idle (3 ∷ 0 ∷ 0 ∷ 0 ∷ 7 ∷ []) [] 64)
      (chunk_decode vec_bytes_mut idle (3 ∷ 0 ∷ 0 ∷ 0 ∷ 7 ∷ 8 ∷ 9 ∷ []) [] 64)
chunk_decode-Agrees_example =
    chunk_decode-Agrees vec_bytes_mut idle (3 ∷ 0 ∷ 0 ∷ 0 ∷ 7 ∷ []) (8 ∷ 9 ∷ []) [] 64

plain_decode-Fits_example : FitsAfter 8 (
    plain_decode vec_bytes_mut 8 none 9
      (record { seq_id = 0; chunk_decoder = chunk 0 3 })
      (3 ∷ 0 ∷ 0 ∷ 0 ∷ 7 ∷ 8 ∷ 9 ∷ [])
      (1 ∷ []))
plain_decode-Fits_example =
    plain_decode-Fits vec_bytes_mut 8 none 9 (record { seq_id = 0; chunk_decoder = chunk 0 3 })
      (3 ∷ 0 ∷ 0 ∷ 0 ∷ 7 ∷ 8 ∷ 9 ∷ []) (1 ∷ []) (omega arith)

plain_decode-Ends_example :
    Ends (Step.outcome (plain_decode vec_bytes_mut 8 none 6 (at_id 0) (1 ∷ 0 ∷ 0 ∷ 5 ∷ 7 ∷ []) []))
plain_decode-Ends_example =
    plain_decode-Ends vec_bytes_mut 8 none 6 (at_id 0) (1 ∷ 0 ∷ 0 ∷ 5 ∷ 7 ∷ []) [] (omega arith)
