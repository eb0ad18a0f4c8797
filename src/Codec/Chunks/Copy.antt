-- ===== src/Codec/Chunks/Copy.antt =====
-- src/proto/codec/mod.rs: a round of `packet_to_chunks`.
use rust_mysql_common.Base.{
  ℕ, zero, suc, ◌+◌, ◌-◌, ◌*◌, ◌/◌, ◌%◌, ◌^◌, ◌≤◌, ◌<◌, ◌≡◌, refl, ap, ◌∙◌, bit_or, min, some, [],
  ◌∷◌, ◌++◌, arith, length, take, drop, length-take, length-drop, take-take, take-drop, drop-drop,
  append_assoc, append-nil,
}
use rust_mysql_common.Base.Bits.{bit_or_disjoint}
use rust_mysql_common.Base.Bytes.{Bytes, to_le_bytes}
use rust_mysql_common.Codec.Crates.{BytesMut, Buf}
use rust_mysql_common.Codec.Chunks.{copy_chunk, max_payload_len}

-- A chunk on the wire: its length in three bytes, its sequence id, its bytes.
abbrev pub frame : ℕ → Bytes → Bytes
frame seq_id body = to_le_bytes 3 (length body) ++ seq_id ∷ body

pub header_bytes :
    (len seq_id : ℕ)
    → len < 2 ^ 24
    → seq_id < 256
    → to_le_bytes 4 (len + seq_id * 2 ^ 24) ≡ to_le_bytes 3 len ++ seq_id ∷ []
unfolding to_le_bytes
header_bytes len seq_id h hs =
    let x : ℕ = len + seq_id * 2 ^ 24 in
    let b0 : x % 256 ≡ len % 256 = omega arith in
    let b1 : x / 256 % 256 ≡ len / 256 % 256 = omega arith in
    let b2 : x / 256 / 256 % 256 ≡ len / 256 / 256 % 256 = omega arith in
    let b3 : x / 256 / 256 / 256 % 256 ≡ seq_id = omega arith in rw (b0, b1, b2, b3)

pub put_header :
    (M : BytesMut) (dst : Bytes) (len seq_id : ℕ)
    → len < 2 ^ 24
    → seq_id < 256
    → M.put_u32_le dst (bit_or (len % 2 ^ 32) (seq_id * 2 ^ 24))
      ≡ dst ++ (to_le_bytes 3 len ++ seq_id ∷ [])
put_header M dst len seq_id h hs =
    let whole : len % 2 ^ 32 ≡ len = omega arith in
    rw (whole, bit_or_disjoint 24 len seq_id h, ← header_bytes len seq_id h hs)
      (M.put_u32_le_lem dst (len + seq_id * 2 ^ 24) (omega arith))

module _ (M : BytesMut) {T : Type 0} (P : Buf T) where
  -- With enough fuel the inner loop copies just the next `n` bytes of the packet.
  pub copy_chunk_lem :
      (fuel : ℕ) (packet : T) (dst : Bytes) (n : ℕ)
      → n ≤ fuel
      → n ≤ length (P.content packet)
      → (packet' : T) × (copy_chunk M P fuel packet dst n
          ≡ some (packet', dst ++ take n (P.content packet)))
        × (P.content packet' ≡ drop n (P.content packet))
  unfolding copy_chunk
  copy_chunk_lem fuel packet dst zero hf hn = (packet, rw append-nil, refl)
  copy_chunk_lem zero packet dst (suc n) hf hn = absurd (omega arith)
  copy_chunk_lem (suc fuel) packet dst (suc n) hf hn =
      let c : Bytes = P.content packet in
      let count : ℕ = min (length (P.chunk packet)) (suc n) in
      let pos : 0 < length (P.chunk packet) = P.chunk_pos packet (omega arith) in
      let fits : count ≤ length c = omega arith in
      let piece : take count (P.chunk packet) ≡ take count c =
        ap (take count) (P.chunk_lem packet)
        ∙ take-take count (length (P.chunk packet)) c (omega arith) in
      let left : P.content (P.advance packet count) ≡ drop count c =
        P.advance_lem packet count fits in
      let total : count + (suc n - count) ≡ suc n = omega arith in
      let room : suc n - count ≤ length (P.content (P.advance packet count)) =
        rw left (omega (arith, length-drop count c)) in
      let (packet', run, rest) =
        copy_chunk_lem fuel (P.advance packet count) (M.put dst (take count (P.chunk packet)))
          (suc n - count) (omega arith) room in
      (
        packet',
        run ∙ ap (λ t. some (packet', t)) (copied dst count (suc n - count) c piece left total),
        rest
            ∙ ap (drop (suc n - count)) left
            ∙ drop-drop (suc n - count) count c
            ∙ ap (λ k. drop k c) total,
      )
    where
      copied :
          (dst : Bytes) (count more : ℕ) (c : Bytes)
          → take count (P.chunk packet) ≡ take count c
          → P.content (P.advance packet count) ≡ drop count c
          → count + more ≡ suc n
          → M.put dst (take count (P.chunk packet))
              ++ take more (P.content (P.advance packet count))
            ≡ dst ++ take (suc n) c
      copied dst count more c piece left total =
          rw (M.put_lem, piece, left, append_assoc, take-drop count more c, total)

module _ (M : BytesMut) {T : Type 0} (P : Buf T) where
  -- The body of the outer loop: a header, then the chunk.
  pub write_one :
      (seq_id : ℕ) (packet : T) (dst : Bytes)
      → seq_id < 256
      → let c = P.content packet in
        let n = min (length c) max_payload_len in
        (packet' : T) × (copy_chunk M P n packet
            (M.put_u32_le dst (bit_or (n % 2 ^ 32) (seq_id * 2 ^ 24)))
            n
          ≡ some (packet', dst ++ frame seq_id (take n c)))
        × (P.content packet' ≡ drop n c)
  unfolding to_le_bytes
  write_one seq_id packet dst hs =
      let c : Bytes = P.content packet in
      let n : ℕ = min (length c) max_payload_len in
      let head : Bytes = M.put_u32_le dst (bit_or (n % 2 ^ 32) (seq_id * 2 ^ 24)) in
      let (packet', run, rest) = copy_chunk_lem M P n packet head n (omega arith) (omega arith) in
      let len : length (take n c) ≡ n = omega (arith, length-take n c) in
      (
        packet',
        run
            ∙ ap (λ t. some (packet', t))
                (rw (put_header M dst n seq_id (omega arith) hs, len, append_assoc) refl),
        rest,
      )
