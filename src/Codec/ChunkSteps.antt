-- ===== src/Codec/ChunkSteps.antt =====
-- src/proto/codec/mod.rs, `ChunkDecoder::decode`: the step that each of its branches makes.
use rust_mysql_common.Base.{
  ℕ, ◌+◌, ◌≤◌, ◌<◌, ◌≡◌, ap, sym, ◌∙◌, none, some, ltb, leb, ◌==◌, ◌%◌, arith, length, take,
  length-drop, ◌-◌, get_elem?, Bool-cases, inl, inr, true, false, leb→le, ltb_false→le,
  lt→leb_false, if◌then◌else◌,
}
use rust_mysql_common.Base.Bytes.{Bytes}
use rust_mysql_common.Codec.Crates.{BytesMut}
use rust_mysql_common.Codec.Slices.{
  byte_at, read_u24_of, slice_to_in, advanced_in, read_u24_in, get_elem?_in,
}
use rust_mysql_common.Codec.Chunks.{max_payload_len}
use rust_mysql_common.Codec.Outcome.{ok, err, packet_too_large}
use rust_mysql_common.Codec.ChunkDecoder.{idle, chunk, middle, last, decode_body, decode_header}

module _ (M : BytesMut) where
  pub body_waits :
      (seq_id needed : ℕ) (src dst : Bytes)
      → leb (4 + needed) (length src) ≡ false
      → decode_body M seq_id needed src dst
        ≡ record { state = chunk seq_id needed; src = src; dst = dst; outcome = ok none }
  unfolding decode_body
  body_waits seq_id needed src dst e = rw e

  pub length-advance :
      (n : ℕ) (xs : Bytes) → n ≤ length xs → length (M.advance xs n) ≡ length xs - n
  length-advance n xs h = ap length (M.advance_lem xs n h) ∙ length-drop n xs

  -- A chunk that is whole: no slice is out of range.
  pub body_done :
      (seq_id needed : ℕ) (src dst : Bytes)
      → leb (4 + needed) (length src) ≡ true
      → let body = M.advance src 4 in
        let dst' = M.put_slice dst (take needed body) in
        decode_body M seq_id needed src dst ≡ record {
          state = idle;
          src = M.advance body needed;
          dst = dst';
          outcome =
              ok (some (if length dst' % max_payload_len == 0 then middle seq_id else last seq_id));
        }
  unfolding decode_body
  body_done seq_id needed src dst e =
      let fits : 4 + needed ≤ length src = leb→le (4 + needed) (length src) e in
      let inside : needed ≤ length (M.advance src 4) =
        omega (arith, length-advance 4 src (omega arith)) in
      rw (
        e,
        advanced_in M src 4 (omega arith),
        slice_to_in (M.advance src 4) needed inside,
        advanced_in M (M.advance src 4) needed inside,
      )

  -- What a header of four bytes holds.
  header_reads :
      (src : Bytes)
      → ltb (length src) 4 ≡ false
      → (read_u24_of M src ≡ some (M.read_u24 src)) × (get_elem? src 3 ≡ some (byte_at src 3))
  header_reads src e =
      let h : 4 ≤ length src = ltb_false→le (length src) 4 e in
      (read_u24_in M src (omega arith), get_elem?_in src 3 (omega arith))

  pub header_short :
      (max_allowed_packet : ℕ) (src dst : Bytes)
      → ltb (length src) 4 ≡ true
      → decode_header M max_allowed_packet src dst
        ≡ record { state = idle; src = src; dst = dst; outcome = ok none }
  unfolding decode_header
  header_short max_allowed_packet src dst e = rw e

  pub header_empty :
      (max_allowed_packet : ℕ) (src dst : Bytes)
      → ltb (length src) 4 ≡ false
      → (M.read_u24 src == 0) ≡ true
      → decode_header M max_allowed_packet src dst ≡ record {
        state = idle;
        src = M.advance src 4;
        dst = dst;
        outcome = ok (some (last (byte_at src 3)));
      }
  unfolding decode_header
  header_empty max_allowed_packet src dst e z =
      let (size, id) = header_reads src e in
      rw (e, size, id, z, advanced_in M src 4 (ltb_false→le (length src) 4 e))

  pub header_large :
      (max_allowed_packet : ℕ) (src dst : Bytes)
      → ltb (length src) 4 ≡ false
      → (M.read_u24 src == 0) ≡ false
      → ltb max_allowed_packet (length dst + M.read_u24 src) ≡ true
      → decode_header M max_allowed_packet src dst
        ≡ record { state = idle; src = src; dst = dst; outcome = err packet_too_large }
  unfolding decode_header
  header_large max_allowed_packet src dst e z l =
      let (size, id) = header_reads src e in rw (e, size, id, z, l)

  -- A whole header of a chunk that is let through: what follows is the chunk's body.
  pub header_fits :
      (max_allowed_packet : ℕ) (src dst : Bytes)
      → ltb (length src) 4 ≡ false
      → (M.read_u24 src == 0) ≡ false
      → ltb max_allowed_packet (length dst + M.read_u24 src) ≡ false
      → decode_header M max_allowed_packet src dst
        ≡ decode_body M (byte_at src 3) (M.read_u24 src) src dst
  unfolding decode_header
  header_fits max_allowed_packet src dst whole some_body allowed =
      let pos : 0 < M.read_u24 src = ground arith in
      let (size, id) = header_reads src whole in
      elim (Bool-cases (ltb 4 (length src))) [
        | inl e ↦ rw (whole, size, id, some_body, allowed, e)
        | inr e ↦
            rw (whole, size, id, some_body, allowed, e)
              (sym (
                body_waits (byte_at src 3) (M.read_u24 src) src dst (
                  lt→leb_false (4 + M.read_u24 src) (length src)
                    (omega (arith, ltb_false→le 4 (length src) e)))))
      ]
