-- ===== src/Codec/Chunks/Frames.antt =====
-- What `packet_to_chunks` writes, in one equation.
use native.Mathlib.Nat.{zero-add}
use rust_mysql_common.Base.{
  Bool-cases, ℕ, zero, suc, ◌*◌, ◌%◌, ◌^◌, ◌≤◌, ◌<◌, ◌≡◌, ◌⊎◌, refl, ap, sym, ◌∙◌, bit_or, min,
  some, ltb, ◌==◌, if◌then◌else◌, [], ◌∷◌, ◌++◌, arith, length, take, drop, length-take,
  ltb_false→le, length-append, length-drop, append_assoc, false, take_all, drop_all, inl, inr,
  lt→ltb, le→ltb_false,
}
use rust_mysql_common.Base.Bytes.{Bytes, to_le_bytes}
use rust_mysql_common.Codec.Crates.{BytesMut, Buf}
use rust_mysql_common.Codec.Chunks.{
  copy_chunk, write_chunks, write_extra, packet_to_chunks, max_payload_len, next_id,
}
use rust_mysql_common.Codec.Chunks.Copy.{frame, header_bytes, write_one}

-- The chunks of a packet: full ones, then one that is shorter, which may be empty.
unfoldable pub frames : ℕ → ℕ → Bytes → Bytes
frames zero seq_id p = frame seq_id p
frames (suc k) seq_id p =
    if ltb (length p) max_payload_len
    then frame seq_id p
    else frame seq_id (take max_payload_len p) ++ frames k (next_id seq_id) (drop max_payload_len p)

-- The sequence id after them.
unfoldable pub frames_next : ℕ → ℕ → Bytes → ℕ
frames_next zero seq_id p = next_id seq_id
frames_next (suc k) seq_id p =
    if ltb (length p) max_payload_len
    then next_id seq_id
    else frames_next k (next_id seq_id) (drop max_payload_len p)

pub frames_nil : (k seq_id : ℕ) → frames k seq_id [] ≡ frame seq_id []
unfolding frames
frames_nil zero seq_id = refl
frames_nil (suc k) seq_id = refl

pub frames_next_nil : (k seq_id : ℕ) → frames_next k seq_id [] ≡ next_id seq_id
unfolding frames_next
frames_next_nil zero seq_id = refl
frames_next_nil (suc k) seq_id = refl

module _ (k seq_id : ℕ) (p : Bytes) where
  pub frames_small :
      length p < max_payload_len
      → (frames (suc k) seq_id p ≡ frame seq_id p) × (frames_next (suc k) seq_id p ≡ next_id seq_id)
  unfolding frames frames_next
  frames_small h = let e = lt→ltb (length p) max_payload_len h in (rw e, rw e)

  pub frames_big :
      max_payload_len ≤ length p
      → (frames (suc k) seq_id p
          ≡ frame seq_id (take max_payload_len p)
            ++ frames k (next_id seq_id) (drop max_payload_len p))
        × (frames_next (suc k) seq_id p ≡ frames_next k (next_id seq_id) (drop max_payload_len p))
  unfolding frames frames_next
  frames_big h = let e = le→ltb_false (length p) max_payload_len h in (rw e, rw e)

pub eq-nil : (xs : Bytes) → length xs ≡ 0 → xs ≡ []
eq-nil [] h = refl
eq-nil (x ∷ xs) h = absurd (omega arith)

pub size_cases : (n : ℕ) → (n ≡ 0) ⊎ ((0 < n) × (n < max_payload_len)) ⊎ (max_payload_len ≤ n)
size_cases n = grind arith

pub length-frames : (k seq_id : ℕ) (p : Bytes) → length p ≤ length (frames k seq_id p)
unfolding frames
length-frames zero seq_id p = omega (arith, length-append (to_le_bytes 3 (length p)) (seq_id ∷ p))
length-frames (suc k) seq_id p = elim (Bool-cases (ltb (length p) max_payload_len)) [
  | inl e ↦ rw e (omega (arith, length-append (to_le_bytes 3 (length p)) (seq_id ∷ p)))
  | inr e ↦
      let body : Bytes = take max_payload_len p in
      let rest : Bytes = drop max_payload_len p in
      rw e (
        omega (
          arith,
          ltb_false→le (length p) max_payload_len e,
          length-append (frame seq_id body) (frames k (next_id seq_id) rest),
          length-append (to_le_bytes 3 (length body)) (seq_id ∷ body),
          length-take max_payload_len p,
          length-drop max_payload_len p,
          length-frames k (next_id seq_id) rest,
        ))
]

extra_header :
    (M : BytesMut) (dst : Bytes) (seq_id : ℕ)
    → seq_id < 256
    → M.put_u32_le dst (seq_id * 2 ^ 24) ≡ dst ++ frame seq_id []
extra_header M dst seq_id hs =
    M.put_u32_le_lem dst (seq_id * 2 ^ 24) (omega arith)
    ∙ ap (λ t. dst ++ t)
        (ap (to_le_bytes 4) (sym (zero-add (seq_id * 2 ^ 24)))
          ∙ header_bytes 0 seq_id (omega arith) hs)

module _ (M : BytesMut) {T : Type 0} (P : Buf T) where
  -- The loop ends at the end of the packet.
  write_chunks_end :
      (fuel seq_id : ℕ) (packet : T) (dst : Bytes)
      → P.content packet ≡ []
      → write_chunks M P fuel seq_id packet dst ≡ some (seq_id, packet, dst)
  unfolding write_chunks
  write_chunks_end zero seq_id packet dst h = rw (P.remaining_lem, h)
  write_chunks_end (suc fuel) seq_id packet dst h = rw (P.remaining_lem, h)

  -- A round that is not the last.
  write_chunks_step :
      (fuel seq_id : ℕ) (packet packet' : T) (dst dst' : Bytes)
      → 0 < length (P.content packet)
      → let n = min (length (P.content packet)) max_payload_len in
        copy_chunk M P n packet (M.put_u32_le dst (bit_or (n % 2 ^ 32) (seq_id * 2 ^ 24))) n
          ≡ some (packet', dst')
        → write_chunks M P (suc fuel) seq_id packet dst
          ≡ write_chunks M P fuel (next_id seq_id) packet' dst'
  unfolding write_chunks
  write_chunks_step fuel seq_id packet packet' dst dst' h run =
      let more : (length (P.content packet) == 0) ≡ false = ground arith in
      rw (P.remaining_lem, more, run)

  Writes : ℕ → ℕ → ℕ → T → Bytes → Type 0
  Writes k fuel seq_id packet dst =
      let c = P.content packet in
      (packet' : T) × (write_extra M P (length c % max_payload_len == 0)
          (write_chunks M P fuel seq_id packet dst)
        ≡ some (frames_next k seq_id c, packet', dst ++ frames k seq_id c))
      × (P.content packet' ≡ [])

  Writes-none :
      (k fuel seq_id : ℕ) (packet : T) (dst : Bytes)
      → seq_id < 256
      → P.content packet ≡ []
      → Writes k fuel seq_id packet dst
  unfolding Writes write_extra
  Writes-none k fuel seq_id packet dst hs h = (
    packet,
    rw (
      h,
      write_chunks_end fuel seq_id packet dst h,
      extra_header M dst seq_id hs,
      frames_nil,
      frames_next_nil,
    ),
    h,
  )

  Writes-last :
      (k fuel seq_id : ℕ) (packet : T) (dst : Bytes)
      → seq_id < 256
      → 0 < length (P.content packet)
      → length (P.content packet) < max_payload_len
      → Writes (suc k) (suc fuel) seq_id packet dst
  unfolding Writes write_extra
  Writes-last k fuel seq_id packet dst hs pos small =
      let c : Bytes = P.content packet in
      let n : ℕ = min (length c) max_payload_len in
      let (packet', run, left) = write_one M P seq_id packet dst hs in
      let all : take n c ≡ c = take_all n c (omega arith) in
      let none_left : P.content packet' ≡ [] = left ∙ drop_all n c (omega arith) in
      let partial : (length c % max_payload_len == 0) ≡ false = ground arith in
      let (bytes, next) = frames_small k seq_id c small in
      (
        packet',
        rw (
          partial,
          write_chunks_step fuel seq_id packet packet' dst _ pos run,
          write_chunks_end fuel (next_id seq_id) packet' _ none_left,
          all,
          bytes,
          next,
        ),
        none_left,
      )

  Writes-full :
      (k fuel seq_id : ℕ) (packet : T) (dst : Bytes)
      → seq_id < 256
      → max_payload_len ≤ length (P.content packet)
      → ((packet' : T) (dst' : Bytes)
          → P.content packet' ≡ drop max_payload_len (P.content packet)
          → Writes k fuel (next_id seq_id) packet' dst')
      → Writes (suc k) (suc fuel) seq_id packet dst
  unfolding Writes
  Writes-full k fuel seq_id packet dst hs big rec =
      let c : Bytes = P.content packet in
      let n : ℕ = min (length c) max_payload_len in
      let whole : n ≡ max_payload_len = omega arith in
      let pos : 0 < length c = omega arith in
      let (packet', run, left) = write_one M P seq_id packet dst hs in
      let left' : P.content packet' ≡ drop max_payload_len c = left ∙ ap (λ k. drop k c) whole in
      let rest = dst ++ frame seq_id (take n c) in
      let (packet'', run', none_left) = rec packet' rest left' in
      let same : length c % max_payload_len ≡ length (P.content packet') % max_payload_len =
        rw left' (omega (arith, length-drop max_payload_len c)) in
      let (bytes, next) = frames_big k seq_id c big in
      (
        packet'',
        rw (
          same,
          write_chunks_step fuel seq_id packet packet' dst _ pos run,
          run',
          left',
          bytes,
          next,
          whole,
          append_assoc,
        ),
        none_left,
      )

  -- A round for each chunk, for enough fuel.
  writes :
      (k fuel seq_id : ℕ) (packet : T) (dst : Bytes)
      → length (P.content packet) ≤ fuel
      → length (P.content packet) ≤ k
      → seq_id < 256
      → Writes k fuel seq_id packet dst
  writes zero fuel seq_id packet dst hf hk hs =
      Writes-none zero fuel seq_id packet dst hs (eq-nil (P.content packet) (omega arith))
  writes (suc k) zero seq_id packet dst hf hk hs =
      Writes-none (suc k) zero seq_id packet dst hs (eq-nil (P.content packet) (omega arith))
  writes (suc k) (suc fuel) seq_id packet dst hf hk hs =
      elim (size_cases (length (P.content packet))) [
        | inl none_left ↦
            Writes-none (suc k) (suc fuel) seq_id packet dst hs
              (eq-nil (P.content packet) none_left)
        | inr (inl (pos, small)) ↦ Writes-last k fuel seq_id packet dst hs pos small
        | inr (inr big) ↦ Writes-full k fuel seq_id packet dst hs big λ packet' dst' left.
            let shorter = ap length left ∙ length-drop max_payload_len (P.content packet) in
            writes k fuel (next_id seq_id) packet' dst' (omega arith) (omega arith) (omega arith)
      ]

-- For a packet of any type, `packet_to_chunks` returns: it appends to `dst` the packet's bytes in
-- chunks of 16 777 215 bytes and a last, shorter one, with sequence ids from `seq_id` on modulo
-- 256, uses the packet up and returns the id after the last chunk's.
pub packet_to_chunks-frames :
    (M : BytesMut) {T : Type 0} (P : Buf T) (seq_id : ℕ) (packet : T) (dst : Bytes)
    → seq_id < 256
    → let c = P.content packet in
      (packet' : T) × (packet_to_chunks M P seq_id packet dst
        ≡ some (frames_next (length c) seq_id c, packet', dst ++ frames (length c) seq_id c))
      × (P.content packet' ≡ [])
unfolding packet_to_chunks Writes
packet_to_chunks-frames M P seq_id packet dst hs =
    let c : Bytes = P.content packet in
    rw P.remaining_lem
      (writes M P (length c) (length c) seq_id packet dst (omega arith) (omega arith) hs)
