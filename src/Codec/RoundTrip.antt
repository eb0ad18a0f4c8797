-- ===== src/Codec/RoundTrip.antt =====
-- src/proto/codec/mod.rs: `PlainPacketCodec::decode` on what `PlainPacketCodec::encode` writes.
use rust_mysql_common.Base.{
  ℕ, zero, suc, ◌+◌, ◌%◌, ◌≤◌, ◌<◌, ◌≡◌, refl, ap, ◌∙◌, Option, ltb, ◌==◌, [], ◌++◌, arith, length,
  take, drop, length-take, length-drop, append_assoc, append-nil, true, false, Bool-cases, inl, inr,
  Bool, le→ltb_false, ==_refl, ==_iff, length-append, take-append-drop,
}
use rust_mysql_common.Base.Bytes.{Bytes, to_le_bytes}
use rust_mysql_common.Codec.Crates.{BytesMut, Buf}
use rust_mysql_common.Codec.Chunks.{max_payload_len, next_id}
use rust_mysql_common.Codec.Chunks.Frames.{
  frames, frames_next, frames_nil, frames_next_nil, frames_small, frames_big, eq-nil, size_cases,
  length-frames, packet_to_chunks-frames,
}
use rust_mysql_common.Codec.Outcome.{Step, ok}
use rust_mysql_common.Codec.ChunkDecoder.{middle, last, idle, chunk_decode, decode_header}
use rust_mysql_common.Codec.Framed.{Delivers, decode_header-frame, decode_header-frame_nil}
use rust_mysql_common.Codec.Plain.{
  PlainPacketCodec, plain_decode, plain_encode, after_chunk, sync_id, is_empty,
}

abbrev pub at_id : ℕ → PlainPacketCodec
at_id seq_id = record { seq_id = seq_id; chunk_decoder = idle }

abbrev pub Decoded : ℕ → Bytes → Bytes → Step PlainPacketCodec Bool → Type 0
Decoded seq_id src dst s =
    s ≡ record { state = at_id seq_id; src = src; dst = dst; outcome = ok true }

divides :
    (d b : ℕ)
    → b ≡ max_payload_len
    → d % max_payload_len ≡ 0
    → (n : ℕ) → n ≡ d + b
    → (n % max_payload_len == 0) ≡ true
divides d b hb hd n hn = (==_iff (n % max_payload_len) 0).1 (omega arith)

whole_after :
    (dst p : Bytes)
    → max_payload_len ≤ length p
    → length dst % max_payload_len ≡ 0
    → length (dst ++ take max_payload_len p) % max_payload_len ≡ 0
whole_after dst p big whole =
    omega (arith, length-append dst (take max_payload_len p), length-take max_payload_len p)

module _ (M : BytesMut) (max_allowed_packet : ℕ) (comp_seq_id : Option ℕ) where
  -- A call that finds the last chunk, and one that finds a chunk with more behind it.
  plain_decode_last :
      (fuel seq_id : ℕ) (src src' dst dst' : Bytes)
      → Delivers (decode_header M max_allowed_packet src dst) src' dst' (last seq_id)
      → Decoded
          (next_id seq_id)
          src'
          dst'
          (plain_decode M max_allowed_packet comp_seq_id (suc fuel) (at_id seq_id) src dst)
  unfolding plain_decode chunk_decode after_chunk sync_id
  plain_decode_last fuel seq_id src src' dst dst' e =
      ap (after_chunk (plain_decode M max_allowed_packet comp_seq_id fuel) comp_seq_id seq_id) e
      ∙ rw (after_chunk, ==_refl seq_id)

  plain_decode_middle :
      (fuel seq_id : ℕ) (src src' dst dst' : Bytes)
      → Delivers (decode_header M max_allowed_packet src dst) src' dst' (middle seq_id)
      → is_empty src' ≡ false
      → plain_decode M max_allowed_packet comp_seq_id (suc fuel) (at_id seq_id) src dst
        ≡ plain_decode M max_allowed_packet comp_seq_id fuel (at_id (next_id seq_id)) src' dst'
  unfolding plain_decode chunk_decode after_chunk sync_id
  plain_decode_middle fuel seq_id src src' dst dst' e more =
      ap (after_chunk (plain_decode M max_allowed_packet comp_seq_id fuel) comp_seq_id seq_id) e
      ∙ rw (after_chunk, ==_refl seq_id, more)

  Reads : ℕ → ℕ → ℕ → Bytes → Bytes → Bytes → Type 0
  Reads k fuel seq_id p rest dst = Decoded (frames_next k seq_id p) rest (dst ++ p) (
      plain_decode M max_allowed_packet comp_seq_id fuel (at_id seq_id) (frames k seq_id p ++ rest)
        dst)

  Reads-none : (k fuel seq_id : ℕ) (rest dst : Bytes) → Reads k (suc fuel) seq_id [] rest dst
  unfolding Reads
  Reads-none k fuel seq_id rest dst =
      rw (frames_nil, frames_next_nil, append-nil)
        (plain_decode_last fuel seq_id _ rest dst dst
          (decode_header-frame_nil M seq_id rest dst max_allowed_packet))

  Reads-last :
      (k fuel seq_id : ℕ) (p rest dst : Bytes)
      → 0 < length p
      → length p < max_payload_len
      → length dst % max_payload_len ≡ 0
      → length dst + length p ≤ max_allowed_packet
      → Reads (suc k) (suc fuel) seq_id p rest dst
  unfolding Reads
  Reads-last k fuel seq_id p rest dst pos small whole fits =
      let (bytes, next) = frames_small k seq_id p small in
      let partial : (length (dst ++ p) % max_payload_len == 0) ≡ false =
        rw (length-append dst p) (ground arith) in
      rw (bytes, next)
        (plain_decode_last fuel seq_id _ rest dst (dst ++ p) (
          decode_header-frame M seq_id p rest dst max_allowed_packet pos (omega arith) fits
          ∙ rw partial))

  is_empty-frames : (k seq_id : ℕ) (p rest : Bytes) → is_empty (frames k seq_id p ++ rest) ≡ false
  unfolding frames to_le_bytes
  is_empty-frames zero seq_id p rest = refl
  is_empty-frames (suc k) seq_id p rest = elim (Bool-cases (ltb (length p) max_payload_len)) [
    | inl e ↦ rw e
    | inr e ↦ rw e
  ]

  Reads-full :
      (k fuel seq_id : ℕ) (p rest dst : Bytes)
      → max_payload_len ≤ length p
      → length dst % max_payload_len ≡ 0
      → length dst + length p ≤ max_allowed_packet
      → Reads k fuel (next_id seq_id) (drop max_payload_len p) rest (dst ++ take max_payload_len p)
      → Reads (suc k) (suc fuel) seq_id p rest dst
  unfolding Reads
  Reads-full k fuel seq_id p rest dst big whole fits rec =
      let (bytes, next) = frames_big k seq_id p big in
      let body : Bytes = take max_payload_len p in
      let more : Bytes = frames k (next_id seq_id) (drop max_payload_len p) ++ rest in
      let len : length body ≡ max_payload_len = omega (arith, length-take max_payload_len p) in
      let full : (length (dst ++ body) % max_payload_len == 0) ≡ true =
        divides (length dst) (length body) len whole (length (dst ++ body))
          (length-append dst body) in
      let head =
        decode_header-frame M seq_id body more dst max_allowed_packet (omega arith) (omega arith)
          (omega arith)
        ∙ rw full in
      let all : dst ++ p ≡ (dst ++ body) ++ drop max_payload_len p =
        rw (append_assoc, take-append-drop) in
      rw (bytes, next, append_assoc, all)
        (plain_decode_middle fuel seq_id _ more dst (dst ++ body) head
            (is_empty-frames k (next_id seq_id) (drop max_payload_len p) rest)
          ∙ rec)

  -- A call for each chunk, for enough fuel.
  reads :
      (k fuel seq_id : ℕ) (p rest dst : Bytes)
      → length p ≤ k
      → k < fuel
      → length dst % max_payload_len ≡ 0
      → length dst + length p ≤ max_allowed_packet
      → Reads k fuel seq_id p rest dst
  reads k zero seq_id p rest dst hk hf whole fits = absurd (omega arith)
  reads zero (suc fuel) seq_id p rest dst hk hf whole fits =
      let e : p ≡ [] = eq-nil p (omega arith) in rw e (Reads-none zero fuel seq_id rest dst)
  reads (suc k) (suc fuel) seq_id p rest dst hk hf whole fits = elim (size_cases (length p)) [
    | inl none_left ↦ rw (eq-nil p none_left) (Reads-none (suc k) fuel seq_id rest dst)
    | inr (inl (pos, small)) ↦ Reads-last k fuel seq_id p rest dst pos small whole fits
    | inr (inr big) ↦ Reads-full k fuel seq_id p rest dst big whole fits (
        reads k fuel (next_id seq_id) (drop max_payload_len p) rest (dst ++ take max_payload_len p)
          (omega (arith, length-drop max_payload_len p)) (omega arith) (whole_after dst p big whole)
          (omega (
            arith,
            length-append dst (take max_payload_len p),
            length-take max_payload_len p,
            length-drop max_payload_len p,
          )))
  ]

-- A packet within `max_allowed_packet` is encoded and decoded by the plain codec: `encode` uses
-- the packet up and appends what it sends; a decoder at the same sequence id that finds this at
-- the front of its input delivers the packet's bytes, leaves the rest of the input, and ends at
-- the encoder's new sequence id. The decoder's calls of itself stay within `length src + 1`.
pub plain_decode-plain_encode :
    (M : BytesMut) {T : Type 0} (P : Buf T) (seq_id max_allowed_packet : ℕ) (comp_seq_id : Option ℕ)
    (packet : T) (wire rest : Bytes)
    → seq_id < 256
    → length (P.content packet) ≤ max_allowed_packet
    → (packet' : T) × (sent : Bytes) × (seq_id' : ℕ) × (plain_encode M P
          (at_id seq_id)
          packet
          wire
          max_allowed_packet
        ≡ (at_id seq_id', packet', wire ++ sent, ok tt))
      × (P.content packet' ≡ [])
      × Decoded seq_id' rest (P.content packet) (
          plain_decode M max_allowed_packet comp_seq_id
            (suc (length (sent ++ rest)))
            (at_id seq_id)
            (sent ++ rest)
            [])
unfolding plain_encode Reads
plain_decode-plain_encode M P seq_id max_allowed_packet comp_seq_id packet wire rest hs fits =
    let c : Bytes = P.content packet in
    let (packet', run, used) = packet_to_chunks-frames M P seq_id packet wire hs in
    let sent : Bytes = frames (length c) seq_id c in
    let fuel : length c < suc (length (sent ++ rest)) =
      omega (arith, length-append sent rest, length-frames (length c) seq_id c) in
    (
      packet',
      sent,
      frames_next (length c) seq_id c,
      rw (P.remaining_lem, le→ltb_false max_allowed_packet (length c) fits, run),
      used,
      reads M max_allowed_packet comp_seq_id (length c) _ seq_id c rest [] (omega arith) fuel
          (omega arith) (omega arith),
    )
