-- ===== src/Codec/Compress.antt =====
-- src/proto/codec/mod.rs: `compress`.
use rust_mysql_common.Base.{
  ℕ, zero, suc, min, not, ◌&&◌, Option, none, some, List, [], ◌∷◌, leb, ◌==◌, if◌then◌else◌, length,
  take, drop,
}
use rust_mysql_common.Base.Bytes.{Bytes}
use rust_mysql_common.Codec.Crates.{BytesMut, Zlib}
use rust_mysql_common.Codec.Chunks.{max_payload_len, next_id}
use rust_mysql_common.Codec.Outcome.{Step, ok, err, panic, io}
use rust_mysql_common.Codec.Plain.{is_empty}

-- src/constants.rs
abbrev pub min_compress_length : ℕ
min_compress_length = 50

-- `slice::chunks(n)` for `n` above 0, on fuel; `length xs` is enough.
unfoldable pub chunks : ℕ → ℕ → Bytes → List Bytes
chunks zero n xs = []
chunks (suc fuel) n [] = []
chunks (suc fuel) n (x ∷ xs) = take n (x ∷ xs) ∷ chunks fuel n (drop n (x ∷ xs))

module _ (M : BytesMut) {Level : Type 0} (Z : Zlib Level) (level : Level) where
  -- The header of a compressed packet, and its bytes.
  unfoldable pub put_packet : Bytes → ℕ → ℕ → ℕ → Bytes → Bytes
  put_packet dst seq_id len plain_len body =
      M.put_slice (M.put_uint_le (M.put_u8 (M.put_uint_le dst len 3) seq_id) plain_len 3) body

  -- The body of the loop: `dst` afterwards, or `none` for an I/O error.
  unfoldable pub compress_chunk : ℕ → Bytes → Bytes → Option Bytes
  compress_chunk seq_id chunk dst =
      if not (Z.is_none level) && leb min_compress_length (length chunk)
      then elim (Z.encode level chunk) [
        | none ↦ none
        | some packed ↦ some (put_packet dst seq_id (length packed) (length chunk) packed)
      ]
      else some (put_packet dst seq_id (length chunk) 0 chunk)

  -- `for chunk in src.chunks(..)`: the sequence id that follows is the state.
  unfoldable pub compress_chunks : ℕ → List Bytes → Bytes → Bytes → Step ℕ ℕ
  compress_chunks seq_id [] src dst = record {
    state = seq_id;
    src = [];
    dst = dst;
    outcome = ok seq_id;
  }
  compress_chunks seq_id (chunk ∷ rest) src dst = elim (compress_chunk seq_id chunk dst) [
    | none ↦ record { state = seq_id; src = src; dst = dst; outcome = err io }
    | some dst' ↦ compress_chunks (next_id seq_id) rest src dst'
  ]

  -- `slice::chunks` panics at size 0.
  unfoldable pub compress : ℕ → ℕ → Bytes → Bytes → Step ℕ ℕ
  compress seq_id max_allowed_packet src dst =
      let size = min max_payload_len max_allowed_packet in
      if is_empty src
      then record { state = seq_id; src = src; dst = dst; outcome = ok 0 }
      else if size == 0
      then record { state = seq_id; src = src; dst = dst; outcome = panic }
      else compress_chunks seq_id (chunks (length src) size src) src dst
