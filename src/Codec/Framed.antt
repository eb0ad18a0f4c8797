-- ===== src/Codec/Framed.antt =====
-- src/proto/codec/mod.rs: `ChunkDecoder::decode` on a chunk that stands whole at the front of `src`.
use rust_mysql_common.Base.{
  ℕ, ◌+◌, ◌%◌, ◌^◌, ◌≤◌, ◌<◌, ◌≡◌, refl, ap, sym, ◌∙◌, Option, some, ltb, ◌==◌, if◌then◌else◌, [],
  ◌∷◌, ◌++◌, arith, length, append_assoc, false, le→ltb_false, le→leb, length-append,
  take-append_self, drop-append_self,
}
use rust_mysql_common.Base.Bytes.{Bytes, to_le_bytes, length-to_le_bytes, from_le_bytes-to_le_bytes}
use rust_mysql_common.Codec.Crates.{BytesMut}
use rust_mysql_common.Codec.Slices.{byte_at}
use rust_mysql_common.Codec.ChunkSteps.{body_done, header_empty, header_fits}
use rust_mysql_common.Codec.Chunks.{max_payload_len}
use rust_mysql_common.Codec.Chunks.Copy.{frame}
use rust_mysql_common.Codec.Outcome.{Step, ok}
use rust_mysql_common.Codec.ChunkDecoder.{
  ChunkInfo, ChunkDecoder, middle, last, idle, decode_body, decode_header,
}

abbrev pub Delivers : Step ChunkDecoder (Option ChunkInfo) → Bytes → Bytes → ChunkInfo → Type 0
Delivers s src dst info =
    s ≡ record { state = idle; src = src; dst = dst; outcome = ok (some info) }

-- The kind of a chunk that ends `dst`.
abbrev pub kind : ℕ → Bytes → ChunkInfo
kind seq_id dst = if length dst % max_payload_len == 0 then middle seq_id else last seq_id

module _ (M : BytesMut) (seq_id : ℕ) (body rest dst : Bytes) where
  length-frame : length (frame seq_id body ++ rest) ≡ 4 + length body + length rest
  length-frame = omega (
    arith,
    length-append (frame seq_id body) rest,
    length-append (to_le_bytes 3 (length body)) (seq_id ∷ body),
    length-to_le_bytes 3 (length body),
  )

  read_u24-frame : length body < 2 ^ 24 → M.read_u24 (frame seq_id body ++ rest) ≡ length body
  read_u24-frame h =
      M.read_u24_lem (frame seq_id body ++ rest) (omega (arith, length-frame))
      ∙ rw (
        append_assoc,
        take-append_self 3 (to_le_bytes 3 (length body)) (seq_id ∷ body ++ rest)
            (sym (length-to_le_bytes 3 (length body))),
        from_le_bytes-to_le_bytes 3 (length body) h,
      )

  advance-frame : M.advance (frame seq_id body ++ rest) 4 ≡ body ++ rest
  unfolding to_le_bytes
  advance-frame =
      M.advance_lem (frame seq_id body ++ rest) 4 (omega (arith, length-append body rest))

  byte_at-frame : byte_at (frame seq_id body ++ rest) 3 ≡ seq_id
  unfolding to_le_bytes
  byte_at-frame = refl

  decode_body-frame :
      Delivers
        (decode_body M seq_id (length body) (frame seq_id body ++ rest) dst)
        rest
        (dst ++ body)
        (kind seq_id (dst ++ body))
  decode_body-frame = rw (
    body_done M seq_id (length body) (frame seq_id body ++ rest) dst (
        le→leb (4 + length body) (length (frame seq_id body ++ rest))
          (omega (arith, length-frame))),
    advance-frame,
    M.put_slice_lem,
    take-append_self (length body) body rest refl,
    M.advance_lem (body ++ rest) (length body) (omega (arith, length-append body rest)),
    drop-append_self (length body) body rest refl,
  )

  -- A chunk that is not empty and fits.
  pub decode_header-frame :
      (max_allowed_packet : ℕ)
      → 0 < length body
      → length body < 2 ^ 24
      → length dst + length body ≤ max_allowed_packet
      → Delivers
          (decode_header M max_allowed_packet (frame seq_id body ++ rest) dst)
          rest
          (dst ++ body)
          (kind seq_id (dst ++ body))
  decode_header-frame max_allowed_packet pos small fits =
      let src : Bytes = frame seq_id body ++ rest in
      let long : ltb (length src) 4 ≡ false =
        le→ltb_false (length src) 4 (omega (arith, length-frame)) in
      let size : M.read_u24 src ≡ length body = read_u24-frame small in
      let some_bytes : (length body == 0) ≡ false = ground arith in
      let allowed : ltb max_allowed_packet (length dst + length body) ≡ false =
        le→ltb_false max_allowed_packet (length dst + length body) fits in
      header_fits M max_allowed_packet src dst long (ap (λ n. n == 0) size ∙ some_bytes)
        (ap (λ n. ltb max_allowed_packet (length dst + n)) size ∙ allowed)
      ∙ ap (λ n. decode_body M (byte_at src 3) n src dst) size
      ∙ ap (λ id. decode_body M id (length body) src dst) byte_at-frame
      ∙ decode_body-frame

module _ (M : BytesMut) (seq_id : ℕ) (rest dst : Bytes) where
  -- An empty chunk.
  pub decode_header-frame_nil :
      (max_allowed_packet : ℕ)
      → Delivers
          (decode_header M max_allowed_packet (frame seq_id [] ++ rest) dst)
          rest
          dst
          (last seq_id)
  decode_header-frame_nil max_allowed_packet =
      let src : Bytes = frame seq_id [] ++ rest in
      let long : ltb (length src) 4 ≡ false =
        le→ltb_false (length src) 4 (omega (arith, length-frame M seq_id [] rest dst)) in
      let size : M.read_u24 src ≡ 0 = read_u24-frame M seq_id [] rest dst (omega arith) in
      rw (
        header_empty M max_allowed_packet src dst long (ap (λ n. n == 0) size),
        byte_at-frame M seq_id [] rest dst,
        advance-frame M seq_id [] rest dst,
      )
