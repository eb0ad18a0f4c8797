-- ===== src/Packets/OkPacket/Payload.antt =====
-- The payload of a packet that reports success or an end, as the protocol describes it, and
-- src/packets/mod.rs's parser on it.
use rust_mysql_common.Base.{
  ℕ, suc, ◌^◌, ◌<◌, ◌≡◌, refl, ap, sym, ◌∙◌, bit_and, Bool, true, false, [], ◌∷◌, ◌++◌, arith,
  length, ltb, lt→ltb, ◌==◌, append_assoc, append-nil, Bool-cases, inl, inr,
}
use rust_mysql_common.Base.Bytes.{Bytes, to_le_bytes}
use rust_mysql_common.Base.Result.{ok}
use rust_mysql_common.Io.BufMut.{BufMut}
use rust_mysql_common.Io.ParseBuf.{map_parser, is_empty, len}
use rust_mysql_common.Io.RoundTrip.{lenenc}
use rust_mysql_common.Raw.{parse, parse_unchecked}
use rust_mysql_common.Raw.Int.{le_u16}
use rust_mysql_common.Raw.Numbers.{w8, w16}
use rust_mysql_common.Constants.Flags.{
  Bitflags, all_status_flags, client_session_track, server_session_state_changed,
}
use rust_mysql_common.Packets.Fields.{
  Reads, Ends, Reads-then, Reads-map, Reads-within, Ends-then, Ends-map, Ends-of, unsigned-Reads,
  unsigned-Reads_unchecked,
}
use rust_mysql_common.Packets.Strings.{len_enc-Reads, lenenc_str-Reads, constant-Reads_unchecked}
use rust_mysql_common.Packets.OkPacket.{
  OkPacketBody, OkPacketKind, result_set_terminator, old_eof_packet, network_stream_terminator,
  common_ok_packet, header, first_positive, ok_packet_try_from, status, string, tracked_texts,
  texts_with, texts, body_behind, eof_body, parse_body, ok_packet,
}

abbrev lenenc_str : Bytes → Bytes
lenenc_str s = lenenc (length s) ++ s

suc-ne-zero : (n : ℕ) → (suc n == 0) ≡ false
suc-ne-zero n = ground arith

-- The texts, when the session is tracked or not and its state has changed or not.
abbrev text_bytes : Bool → Bool → Bytes → Bytes → Bytes
text_bytes true true info state = lenenc_str info ++ lenenc_str state
text_bytes true false info state = lenenc_str info
text_bytes false changed [] state = []
text_bytes false changed (b ∷ info) state = lenenc_str (b ∷ info)

-- The state that is sent.
abbrev sent_state : Bool → Bool → Bytes → Bytes
sent_state true true state = state
sent_state true false state = []
sent_state false changed state = []

-- An encoded length is not empty, and that of a string that is not empty begins above 0.
lenenc-nonempty : (n : ℕ) (s : Bytes) → is_empty (lenenc n ++ s) ≡ false
unfolding is_empty len
lenenc-nonempty n s = elim (Bool-cases (ltb n 251)) [
  | inl e ↦ rw e (suc-ne-zero (length s))
  | inr e ↦ elim (Bool-cases (ltb n 65_536)) [
    | inl e' ↦ rw (e, e') (suc-ne-zero _)
    | inr e' ↦ elim (Bool-cases (ltb n 16_777_216)) [
      | inl e'' ↦ rw (e, e', e'') (suc-ne-zero _)
      | inr e'' ↦ rw (e, e', e'') (suc-ne-zero _)
    ]
  ]
]

lenenc-positive : (n : ℕ) (s : Bytes) → first_positive (lenenc (suc n) ++ s) ≡ true
lenenc-positive n s = elim (Bool-cases (ltb (suc n) 251)) [
  | inl e ↦ rw e (lt→ltb 0 (suc n) (omega arith))
  | inr e ↦ elim (Bool-cases (ltb (suc n) 65_536)) [
    | inl e' ↦ rw (e, e')
    | inr e' ↦ elim (Bool-cases (ltb (suc n) 16_777_216)) [
      | inl e'' ↦ rw (e, e', e'')
      | inr e'' ↦ rw (e, e', e'')
    ]
  ]
]

module _ (B : BufMut) (F : Bitflags) where
  texts_with-Ends :
      (tracked changed : Bool) (info state : Bytes)
      → length info < 2 ^ 64
      → length state < 2 ^ 64
      → Ends
          (texts_with B F tracked changed)
          (text_bytes tracked changed info state)
          (info, sent_state tracked changed state)
  unfolding texts_with
  texts_with-Ends true true info state hi hs =
      let e : is_empty (lenenc_str info ++ lenenc_str state) ≡ false =
        ap is_empty (append_assoc (lenenc (length info)) info (lenenc_str state))
        ∙ lenenc-nonempty (length info) (info ++ lenenc_str state) in
      let h : Ends (tracked_texts B F true) (lenenc_str info ++ lenenc_str state) (info, state) =
        Ends-then _ (lenenc_str-Reads B info hi)
          (Ends-map _ (Ends-of (lenenc_str-Reads B state hs))) in
      record { on = rw (texts_with, e) h.on }
  texts_with-Ends true false info state hi hs =
      let e : is_empty (lenenc_str info) ≡ false = lenenc-nonempty (length info) info in
      let h : Ends (tracked_texts B F false) (lenenc_str info ++ []) (info, []) =
        Ends-then _ (lenenc_str-Reads B info hi) (record { on = refl }) in
      record {
        on =
            rw (texts_with, e)
              (ap (tracked_texts B F false) (sym (append-nil (lenenc_str info))) ∙ h.on);
      }
  texts_with-Ends false changed [] state hi hs = record { on = refl }
  texts_with-Ends false changed (b ∷ info) state hi hs =
      let e : first_positive (lenenc_str (b ∷ info)) ≡ true =
        lenenc-positive (length info) (b ∷ info) in
      let h : Ends (map_parser (λ info. (info, [])) (string B F)) (lenenc_str (b ∷ info))
          (b ∷ info, []) =
        Ends-map _ (Ends-of (lenenc_str-Reads B (b ∷ info) hi)) in
      record { on = rw (texts_with, e) h.on }

  -- Whether the session is tracked and whether its state has changed.
  abbrev tracked : ℕ → Bool
  tracked capabilities = F.contains capabilities client_session_track

  abbrev changed : ℕ → Bool
  changed status_flags = F.contains status_flags server_session_state_changed

  -- What the protocol puts behind the rows and the id.
  abbrev tail_bytes : ℕ → OkPacketBody → Bytes
  tail_bytes capabilities p =
      (to_le_bytes 2 p.status_flags ++ to_le_bytes 2 p.warnings)
      ++ text_bytes (tracked capabilities) (changed p.status_flags) p.info p.session_state_info

  -- The payload of a packet of each kind.
  abbrev pub payload : OkPacketKind → ℕ → OkPacketBody → Bytes
  payload result_set_terminator capabilities p =
      0xfe ∷ (lenenc p.affected_rows ++ (lenenc p.last_insert_id ++ tail_bytes capabilities p))
  payload old_eof_packet capabilities p =
      0xfe ∷ (to_le_bytes 2 p.warnings ++ to_le_bytes 2 p.status_flags)
  payload network_stream_terminator capabilities p =
      0xfe ∷ (to_le_bytes 2 p.warnings ++ to_le_bytes 2 p.status_flags)
  payload common_ok_packet capabilities p =
      0x00 ∷ (lenenc p.affected_rows ++ (lenenc p.last_insert_id ++ tail_bytes capabilities p))

  -- What a packet of each kind tells of a body.
  abbrev pub told : OkPacketKind → ℕ → OkPacketBody → OkPacketBody
  told result_set_terminator capabilities p = record p {
    affected_rows = 0;
    last_insert_id = 0;
    session_state_info =
        sent_state (tracked capabilities) (changed p.status_flags) p.session_state_info;
  }
  told old_eof_packet capabilities p = record p {
    affected_rows = 0;
    last_insert_id = 0;
    info = [];
    session_state_info = [];
  }
  told network_stream_terminator capabilities p = record p {
    affected_rows = 0;
    last_insert_id = 0;
    info = [];
    session_state_info = [];
  }
  told common_ok_packet capabilities p = record p {
    session_state_info =
        sent_state (tracked capabilities) (changed p.status_flags) p.session_state_info;
  }

  abbrev pub IsBody : OkPacketBody → Type 0
  IsBody p =
      (p.affected_rows < 2 ^ 64)
      × (p.last_insert_id < 2 ^ 64)
      × (p.status_flags < 2 ^ 16)
      × (bit_and p.status_flags all_status_flags ≡ p.status_flags)
      × (p.warnings < 2 ^ 16)
      × (length p.info < 2 ^ 64)
      × (length p.session_state_info < 2 ^ 64)

  status-Reads :
      (flags : ℕ)
      → flags < 2 ^ 16
      → bit_and flags all_status_flags ≡ flags
      → Reads (parse_unchecked (status B F) tt) (to_le_bytes 2 flags) flags
  status-Reads flags h known =
      constant-Reads_unchecked (le_u16 B) (F.from_bits all_status_flags) flags flags
        (to_le_bytes 2 flags) (F.from_bits_lem all_status_flags flags known)
        (unsigned-Reads_unchecked B w16 flags h)

  body_behind-Ends :
      (capabilities rows id : ℕ) (p : OkPacketBody)
      → IsBody p
      → Ends (body_behind B F capabilities rows id) (tail_bytes capabilities p) (record p {
        affected_rows = rows;
        last_insert_id = id;
        session_state_info =
            sent_state (tracked capabilities) (changed p.status_flags) p.session_state_info;
      })
  unfolding texts to_le_bytes
  body_behind-Ends capabilities rows id p (hr, hd, hs, known, hw, hi, hc) =
      Ends-then _
        (Reads-within refl (
          Reads-then _ (status-Reads p.status_flags hs known)
            (Reads-map _ (unsigned-Reads_unchecked B w16 p.warnings hw))))
        (Ends-map _ (
          texts_with-Ends (tracked capabilities) (changed p.status_flags) p.info
            p.session_state_info hi hc))

  eof_body-Ends :
      (p : OkPacketBody)
      → IsBody p
      → Ends
          (eof_body B F)
          (to_le_bytes 2 p.warnings ++ to_le_bytes 2 p.status_flags)
          (record p { affected_rows = 0; last_insert_id = 0; info = []; session_state_info = [] })
  unfolding to_le_bytes
  eof_body-Ends p (hr, hd, hs, known, hw, hi, hc) = Ends-of (
      Reads-map _ (
        Reads-within refl (
          Reads-then _ (unsigned-Reads_unchecked B w16 p.warnings hw)
            (Reads-map _ (status-Reads p.status_flags hs known)))))

  -- The payload that the protocol describes for a body whose fields are in their types, whose
  -- status flags are known and whose texts have lengths below 2 ^ 64 is parsed to the packet that
  -- tells as much of the body as the kind of packet does, and nothing of it is left.
  pub ok_packet-payload :
      (kind : OkPacketKind) (capabilities : ℕ) (p : OkPacketBody)
      → IsBody p
      → parse (ok_packet B F kind) capabilities (payload kind capabilities p)
        ≡ ok (ok_packet_try_from (told kind capabilities p), [])
  unfolding ok_packet parse_body header to_le_bytes parse parse_unchecked
  ok_packet-payload result_set_terminator capabilities p h =
      let body : Ends (parse_body B F result_set_terminator capabilities)
          (lenenc p.affected_rows ++ (lenenc p.last_insert_id ++ tail_bytes capabilities p))
          (told result_set_terminator capabilities p) =
        Ends-then _ (len_enc-Reads B p.affected_rows h.0) (
          Ends-then _ (len_enc-Reads B p.last_insert_id h.1)
            (body_behind-Ends capabilities 0 0 p h)) in
      (Ends-then _ (unsigned-Reads B w8 0xfe (omega arith)) (Ends-map ok_packet_try_from body)).on
  ok_packet-payload old_eof_packet capabilities p h =
      (Ends-then _ (unsigned-Reads B w8 0xfe (omega arith))
        (Ends-map ok_packet_try_from (eof_body-Ends p h))).on
  ok_packet-payload network_stream_terminator capabilities p h =
      (Ends-then _ (unsigned-Reads B w8 0xfe (omega arith))
        (Ends-map ok_packet_try_from (eof_body-Ends p h))).on
  ok_packet-payload common_ok_packet capabilities p h =
      let body : Ends (parse_body B F common_ok_packet capabilities)
          (lenenc p.affected_rows ++ (lenenc p.last_insert_id ++ tail_bytes capabilities p))
          (told common_ok_packet capabilities p) =
        Ends-then _ (len_enc-Reads B p.affected_rows h.0) (
          Ends-then _ (len_enc-Reads B p.last_insert_id h.1)
            (body_behind-Ends capabilities p.affected_rows p.last_insert_id p h)) in
      (Ends-then _ (unsigned-Reads B w8 0x00 (omega arith)) (Ends-map ok_packet_try_from body)).on
