-- ===== src/Codec/Chunks.antt =====
-- src/proto/codec/mod.rs: `packet_to_chunks`.
pub mod Copy
pub mod Frames
use rust_mysql_common.Base.{
  ℕ, zero, suc, ◌+◌, ◌-◌, ◌*◌, ◌%◌, ◌^◌, bit_or, min, Bool, Option, none, some, ◌==◌, if◌then◌else◌,
  length, take,
}
use rust_mysql_common.Base.Bytes.{Bytes}
use rust_mysql_common.Codec.Crates.{BytesMut, Buf}

-- src/constants.rs
abbrev pub max_payload_len : ℕ
max_payload_len = 16_777_215

-- `u8::wrapping_add(1)`.
abbrev pub next_id : ℕ → ℕ
next_id seq_id = (seq_id + 1) % 256

module _ (M : BytesMut) {T : Type 0} (P : Buf T) where
  open P use {remaining, chunk, advance}

  -- `while chunk_len > 0`. Each round takes a byte at least; `none` is out of fuel.
  unfoldable pub copy_chunk : ℕ → T → Bytes → ℕ → Option (T × Bytes)
  copy_chunk fuel packet dst zero = some (packet, dst)
  copy_chunk zero packet dst (suc n) = none
  copy_chunk (suc fuel) packet dst (suc n) =
      let count = min (length (chunk packet)) (suc n) in
      copy_chunk fuel (advance packet count) (M.put dst (take count (chunk packet))) (suc n - count)

  -- `while packet.has_remaining()`, on fuel.
  unfoldable pub write_chunks : ℕ → ℕ → T → Bytes → Option (ℕ × T × Bytes)
  write_chunks zero seq_id packet dst =
      if remaining packet == 0 then some (seq_id, packet, dst) else none
  write_chunks (suc fuel) seq_id packet dst =
      let chunk_len = min (remaining packet) max_payload_len in
      let header = bit_or (chunk_len % 2 ^ 32) (seq_id * 2 ^ 24) in
      let copied = copy_chunk chunk_len packet (M.put_u32_le dst header) chunk_len in
      let more : Option (ℕ × T × Bytes) = elim copied [
        | none ↦ none
        | some (packet', dst') ↦ write_chunks fuel (next_id seq_id) packet' dst'
      ] in
      if remaining packet == 0 then some (seq_id, packet, dst) else more

  -- `if extra_packet`: an empty chunk behind a packet of full chunks.
  unfoldable pub write_extra : Bool → Option (ℕ × T × Bytes) → Option (ℕ × T × Bytes)
  write_extra extra_packet none = none
  write_extra extra_packet (some (seq_id, packet, dst)) =
      if extra_packet
      then some (next_id seq_id, packet, M.put_u32_le dst (seq_id * 2 ^ 24))
      else some (seq_id, packet, dst)

  -- The sequence id that follows, what is left of the packet, and the output.
  unfoldable pub packet_to_chunks : ℕ → T → Bytes → Option (ℕ × T × Bytes)
  packet_to_chunks seq_id packet dst =
      write_extra (remaining packet % max_payload_len == 0)
        (write_chunks (remaining packet) seq_id packet dst)
