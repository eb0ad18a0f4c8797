-- ===== src/Packets/Errors/Behaviour.antt =====
-- src/packets/mod.rs: the error packet written and read, and the packets that are refused.
use rust_mysql_common.Base.{
  ℕ, ◌^◌, ◌<◌, ◌≡◌, ◌≢◌, refl, ap, ◌∙◌, true, false, [], ◌∷◌, ◌++◌, arith, length, ◌==◌, ==_iff,
  lt→leb_false, if◌then◌else◌, Bool-cases, inl, inr,
}
use rust_mysql_common.Base.Bytes.{Bytes, to_le_bytes, from_le_bytes}
use rust_mysql_common.Base.Result
use rust_mysql_common.Base.Result.{Result, ok, err, panic}
use rust_mysql_common.Io.BufMut.{BufMut}
use rust_mysql_common.Io.ParseBuf.{
  IoError, unexpected_eof, invalid_data, ◌>>=◌, map_parser, skip, eat, eat_num_le, checked_eat_buf,
  checked_eat, checked,
}
use rust_mysql_common.Raw.{parse, parse_unchecked, parse_buf, within, ok_or_eof}
use rust_mysql_common.Raw.Int.{const_u8, raw_int, le_u16}
use rust_mysql_common.Raw.Text.{raw_bytes, serialize_raw, len_enc_bytes}
use rust_mysql_common.Raw.Numbers.{w8, w16, w24}
use rust_mysql_common.Raw.Parse.{WholeTrips, RoundTrips, parse_buf-append}
use rust_mysql_common.Raw.Texts.{skip_one, len_enc_bytes-RoundTrips}
use rust_mysql_common.Constants.Flags.{Bitflags}
use rust_mysql_common.Packets.Fields.{
  Reads, Ends, Writes-then, Reads-then, Reads-map, Reads-within, Ends-then, Ends-map, Ends-of,
  round_trips, whole_trips, unsigned-Writes, unsigned-Reads_unchecked, header-Writes,
  header-Reads_unchecked,
}
use rust_mysql_common.Packets.Strings.{eof-Writes, eof-Ends, array-Reads}
use rust_mysql_common.Packets.Errors.{
  ErrPacket, error, progress, ProgressReport, ServerError, progress_report,
  serialize_progress_report, with_state, server_error, server_error_body, serialize_server_error,
  err_head, serialize_err_packet, is_progress, err_body, err_packet,
}

abbrev pub IsReport : ProgressReport → Type 0
IsReport p =
    (p.stage < 256) × (p.max_stage < 256) × (p.progress < 2 ^ 24) × (length p.stage_info < 2 ^ 64)

skip_one-Reads : (x : ℕ) → Reads (skip 1) (x ∷ []) tt
skip_one-Reads x = record { on = λ rest. skip_one x rest }

other_header : (x : ℕ) → x ≢ 0xff → (from_le_bytes (x ∷ []) == 0xff) ≡ false
unfolding from_le_bytes
other_header x h = elim (Bool-cases (from_le_bytes (x ∷ []) == 0xff)) [
  | inl e ↦ absurd (h (omega (arith, (==_iff (from_le_bytes (x ∷ [])) 0xff).0 e)))
  | inr e ↦ e
]

parse_buf-short :
    (n : ℕ) (buf : Bytes) → length buf < n → parse parse_buf n buf ≡ err unexpected_eof
unfolding parse parse_unchecked parse_buf ok_or_eof checked_eat_buf checked_eat checked
parse_buf-short n buf h = rw (lt→leb_false n (length buf) h)

module _ (B : BufMut) where
  progress_report-RoundTrips :
      (p : ProgressReport)
      → IsReport p
      → RoundTrips (serialize_progress_report B) (progress_report B) tt p
  unfolding serialize_progress_report progress_report to_le_bytes parse parse_unchecked
  progress_report-RoundTrips p (hs, hm, hp, hi) =
      let info : RoundTrips (serialize_raw (len_enc_bytes B)) (raw_bytes (len_enc_bytes B)) tt
          p.stage_info =
        len_enc_bytes-RoundTrips B p.stage_info hi in
      round_trips
        (Writes-then
          (Writes-then (λ buf. B.put_u8_lem buf 1 (omega arith))
            (Writes-then (unsigned-Writes B w8 p.stage hs) (
              Writes-then (unsigned-Writes B w8 p.max_stage hm)
                (unsigned-Writes B w24 p.progress hp))))
          info.writes)
        (Reads-then _
          (Reads-within refl (
            Reads-then _ (skip_one-Reads 1) (
              Reads-then _ (unsigned-Reads_unchecked B w8 p.stage hs) (
                Reads-then _ (unsigned-Reads_unchecked B w8 p.max_stage hm)
                  (Reads-map _ (unsigned-Reads_unchecked B w24 p.progress hp))))))
          (Reads-map _ (record { on = info.reads })))

  server_error-WholeTrips :
      (p : ServerError)
      → 5 ≡ length p.state
      → WholeTrips (serialize_server_error B) (server_error B) p.code p
  unfolding serialize_server_error server_error server_error_body parse parse_unchecked
  server_error-WholeTrips p h =
      let body : Ends (with_state B p.code) (b'#' ∷ [] ++ (p.state ++ p.message)) p =
        Ends-then _ (skip_one-Reads b'#')
          (Ends-then _ (array-Reads 5 p.state h) (Ends-map _ (eof-Ends B p.message))) in
      whole_trips
        (Writes-then (λ buf. B.put_u8_lem buf b'#' (omega arith))
          (Writes-then (λ buf. B.put_slice_lem buf p.state) (eof-Writes B p.message)))
        (record { on = body.on })

  -- The numbers in front of the error or the report.
  err_head-Reads :
      (code : ℕ)
      → code < 2 ^ 16
      → Reads (parse parse_buf 3 >>= within (err_head B)) (0xff ∷ to_le_bytes 2 code) code
  unfolding to_le_bytes
  err_head-Reads code h = Reads-within refl (
      Reads-then _ (header-Reads_unchecked 0xff (omega arith))
        (unsigned-Reads_unchecked B w16 code h))

  module _ (F : Bitflags) (capabilities : ℕ) where
    -- The fields are in their types, and the code says which of the two the packet is.
    abbrev pub IsErrPacket : ErrPacket → Type 0
    IsErrPacket (error e) =
        (e.code < 2 ^ 16) × (5 ≡ length e.state) × (is_progress B F capabilities e.code ≡ false)
    IsErrPacket (progress p) = IsReport p × (is_progress B F capabilities 0xffff ≡ true)

    -- An error packet whose fields are in their types, and whose code is the one of a progress
    -- report, with the capability for it, exactly if it is one, is read back.
    pub err_packet-WholeTrips :
        (p : ErrPacket)
        → IsErrPacket p
        → WholeTrips (serialize_err_packet B) (err_packet B F) capabilities p
    unfolding serialize_err_packet err_packet to_le_bytes parse parse_unchecked
    err_packet-WholeTrips (error e) (hc, hs, plain) =
        let t : WholeTrips (serialize_server_error B) (server_error B) e.code e =
          server_error-WholeTrips e hs in
        whole_trips
          (Writes-then
            (Writes-then (header-Writes B 0xff (omega arith)) (unsigned-Writes B w16 e.code hc))
            t.writes)
          (Ends-then (err_body B F capabilities) (err_head-Reads e.code hc) (record {
            on =
                ap
                  (λ b.
                    (if b
                        then map_parser progress (parse (progress_report B) tt)
                        else map_parser error (parse (server_error B) e.code))
                      t.written)
                  plain
                ∙ (Ends-map {p = parse (server_error B) e.code} error {w = t.written}
                    (record { on = t.reads })).on;
          }))
    err_packet-WholeTrips (progress p) (h, special) =
        let t : RoundTrips (serialize_progress_report B) (progress_report B) tt p =
          progress_report-RoundTrips p h in
        whole_trips
          (Writes-then
            (Writes-then (header-Writes B 0xff (omega arith))
              (unsigned-Writes B w16 0xffff (omega arith)))
            t.writes)
          (Ends-then (err_body B F capabilities) (err_head-Reads 0xffff (omega arith)) (record {
            on =
                ap
                  (λ b.
                    (if b
                        then map_parser progress (parse (progress_report B) tt)
                        else map_parser error (parse (server_error B) 0xffff))
                      t.written)
                  special
                ∙ (Ends-map {p = parse (progress_report B) tt} progress {w = t.written}
                    (Ends-of (record { on = t.reads }))).on;
          }))

    -- The buffers that are refused, with what comes of them.
    pub data Refused : Bytes → Result IoError (ErrPacket × Bytes) → Type 0 where
      too_short : (buf : Bytes) → length buf < 3 → Refused buf (err unexpected_eof)
      wrong_header :
          (x a b : ℕ) (rest : Bytes) → x ≢ 0xff → Refused (x ∷ a ∷ b ∷ rest) (err invalid_data)
      no_text :
          (a b : ℕ)
          → is_progress B F capabilities (from_le_bytes (a ∷ b ∷ [])) ≡ false
          → Refused (0xff ∷ a ∷ b ∷ []) panic

    -- What is done behind `buf.parse(3)`.
    abbrev continue : Result IoError (Bytes × Bytes) → Result IoError (ErrPacket × Bytes)
    continue m =
        Result.◌>>=◌ (Result.◌>>=◌ m (λ (sub, rest). within (err_head B) sub rest))
          (λ (code, rest). err_body B F capabilities code rest)

    -- A buffer of fewer than three bytes is an unexpected end, one with another header is invalid
    -- data, and an error without a text behind its code makes the parser panic.
    pub err_packet-Refused :
        (buf : Bytes) (r : Result IoError (ErrPacket × Bytes))
        → Refused buf r
        → parse (err_packet B F) capabilities buf ≡ r
    unfolding err_packet parse parse_unchecked parse_buf const_u8 server_error server_error_body
        raw_int le_u16 eat_num_le eat from_le_bytes
    err_packet-Refused buf r (too_short _ h) = ap continue (parse_buf-short 3 buf h)
    err_packet-Refused buf r (wrong_header x a b rest h) =
        ap continue (parse_buf-append 3 (x ∷ a ∷ b ∷ []) rest refl) ∙ rw (other_header x h)
    err_packet-Refused buf r (no_text a b h) =
        ap continue (parse_buf-append 3 (0xff ∷ a ∷ b ∷ []) [] refl) ∙ rw h
