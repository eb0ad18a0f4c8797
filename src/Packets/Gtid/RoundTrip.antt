-- ===== src/Packets/Gtid/RoundTrip.antt =====
-- src/packets/mod.rs: `ComBinlogDumpGtid` written and read, and the length of its sids.
use rust_mysql_common.Base.{
  ℕ, ◌+◌, ◌*◌, ◌-◌, ◌%◌, ◌^◌, ◌<◌, ◌≡◌, refl, ap, sym, ◌∙◌, bit_and, List, [], ◌∷◌, ◌++◌, arith,
  length, length-append, min, All, All-map,
}
use rust_mysql_common.Base.Bytes.{Bytes, to_le_bytes, length-to_le_bytes}
use rust_mysql_common.Io.BufMut.{BufMut}
use rust_mysql_common.Raw.{parse, parse_unchecked}
use rust_mysql_common.Raw.Int.{le_u16}
use rust_mysql_common.Raw.Numbers.{w16, w32, w64}
use rust_mysql_common.Raw.Parse.{RoundTrips}
use rust_mysql_common.Constants.Flags.{Bitflags}
use rust_mysql_common.Packets.Fields.{
  Writes, Reads, Writes-then, Reads-then, Reads-map, Reads-within, round_trips, unsigned-Writes,
  unsigned-Reads, unsigned-Reads_unchecked, header-Writes, header-Reads_unchecked, sized-Reads,
}
use rust_mysql_common.Packets.Strings.{
  u32-Writes, u32-Reads, array-Writes, array-Reads, constant-Writes, constant-Reads_unchecked,
}
use rust_mysql_common.Packets.Sequences.{
  concat, seq_bytes, seq-Writes, seq-Reads_sized, seq-Reads_unsized,
}
use rust_mysql_common.Packets.Replication.{all_binlog_dump_flags}
use rust_mysql_common.Packets.Gtid.{
  GnoInterval, Sid, ComBinlogDumpGtid, sid_len, add_sid_lens, sid_block_len, serialize_gno_interval,
  gno_interval, serialize_sid, sid, serialize_binlog_dump_gtid, binlog_dump_gtid,
}

abbrev interval_bytes : GnoInterval → Bytes
interval_bytes i = to_le_bytes 8 i.start ++ to_le_bytes 8 i.end

abbrev pub sid_bytes : Sid → Bytes
sid_bytes s = s.uuid ++ seq_bytes interval_bytes s.intervals

abbrev pub IsInterval : GnoInterval → Type 0
IsInterval i = (i.start < 2 ^ 64) × (i.end < 2 ^ 64)

abbrev pub IsSid : Sid → Type 0
IsSid s = (16 ≡ length s.uuid) × (length s.intervals < 2 ^ 32) × All IsInterval s.intervals

length-interval_bytes : (i : GnoInterval) → length (interval_bytes i) ≡ 16
length-interval_bytes i = omega (
  arith,
  length-append (to_le_bytes 8 i.start) (to_le_bytes 8 i.end),
  length-to_le_bytes 8 i.start,
  length-to_le_bytes 8 i.end,
)

length-intervals : (is : List GnoInterval) → length (concat interval_bytes is) ≡ 16 * length is
length-intervals [] = omega arith
length-intervals (i ∷ is) = omega (
  arith,
  length-append (interval_bytes i) (concat interval_bytes is),
  length-interval_bytes i,
  length-intervals is,
)

sid_len-length : (s : Sid) → IsSid s → sid_len s ≡ length (sid_bytes s)
unfolding sid_len
sid_len-length s (u, n, is) = omega (
  arith,
  length-append s.uuid (seq_bytes interval_bytes s.intervals),
  length-append (to_le_bytes 8 (length s.intervals)) (concat interval_bytes s.intervals),
  length-to_le_bytes 8 (length s.intervals),
  length-intervals s.intervals,
)

add_sid_lens-length :
    (len : ℕ) (sids : List Sid)
    → All IsSid sids
    → len + length (concat sid_bytes sids) < 2 ^ 32
    → add_sid_lens len sids ≡ len + length (concat sid_bytes sids)
unfolding add_sid_lens
add_sid_lens-length len [] h fits = omega arith
add_sid_lens-length len (s ∷ sids) (h, hs) fits =
    let whole : length (concat sid_bytes (s ∷ sids)) ≡ sid_len s + length (concat sid_bytes sids) =
      omega (arith, length-append (sid_bytes s) (concat sid_bytes sids), sid_len-length s h) in
    let next : min (len + sid_len s % 2 ^ 32) (2 ^ 32 - 1) ≡ len + sid_len s = omega arith in
    ap (λ n. add_sid_lens n sids) next
    ∙ add_sid_lens-length (len + sid_len s) sids hs (omega arith)
    ∙ omega arith

-- The length that `sid_block_len` gives is the length of what is written for the sids.
sid_block_len-length :
    (sids : List Sid)
    → All IsSid sids
    → length (seq_bytes sid_bytes sids) < 2 ^ 32
    → sid_block_len sids ≡ length (seq_bytes sid_bytes sids)
unfolding sid_block_len
sid_block_len-length sids h fits =
    let whole : length (seq_bytes sid_bytes sids) ≡ 8 + length (concat sid_bytes sids) = omega (
      arith,
      length-append (to_le_bytes 8 (length sids)) (concat sid_bytes sids),
      length-to_le_bytes 8 (length sids),
    ) in
    add_sid_lens-length 8 sids h (omega arith) ∙ sym whole

-- The fields are in their types, the flags are known, and the sids fit in their length and in
-- memory.
abbrev pub IsDumpGtid : ℕ → ComBinlogDumpGtid → Type 0
IsDumpGtid sid_size p =
    (p.flags < 2 ^ 16)
    × (bit_and p.flags all_binlog_dump_flags ≡ p.flags)
    × (p.server_id < 2 ^ 32)
    × (length p.filename < 2 ^ 32)
    × (p.pos < 2 ^ 64)
    × All IsSid p.sid_block
    × (length p.sid_block < 2 ^ 32)
    × (length p.sid_block * sid_size < 2 ^ 63)
    × (length (seq_bytes sid_bytes p.sid_block) < 2 ^ 32)

module _ (B : BufMut) where
  interval-Writes :
      (i : GnoInterval) → IsInterval i → Writes (serialize_gno_interval B i) (interval_bytes i)
  unfolding serialize_gno_interval
  interval-Writes i (hs, he) =
      Writes-then (unsigned-Writes B w64 i.start hs) (unsigned-Writes B w64 i.end he)

  interval-Reads :
      (i : GnoInterval) → IsInterval i → Reads (parse (gno_interval B) tt) (interval_bytes i) i
  unfolding gno_interval parse_unchecked
  interval-Reads i (hs, he) =
      sized-Reads (gno_interval B) tt 16 (interval_bytes i) i refl (sym (length-interval_bytes i)) (
        Reads-then _ (unsigned-Reads_unchecked B w64 i.start hs)
          (Reads-map _ (unsigned-Reads_unchecked B w64 i.end he)))

  sid-Writes : (s : Sid) → IsSid s → Writes (serialize_sid B s) (sid_bytes s)
  unfolding serialize_sid
  sid-Writes s (u, n, is) = Writes-then (array-Writes B s.uuid) (
      seq-Writes interval_bytes B (serialize_gno_interval B) s.intervals (omega arith)
        (All-map IsInterval _ s.intervals interval-Writes is))

  sid-Reads : (s : Sid) → IsSid s → Reads (parse (sid B) tt) (sid_bytes s) s
  unfolding sid gno_interval parse parse_unchecked
  sid-Reads s (u, n, is) = Reads-then _ (array-Reads 16 s.uuid u) (
      Reads-map _ (
        seq-Reads_sized interval_bytes B (gno_interval B) 16 16 s.intervals refl (omega arith)
          (omega arith) (omega arith)
          (All-map IsInterval _ s.intervals (λ i h. length-interval_bytes i) is)
          (All-map IsInterval _ s.intervals interval-Reads is)))

  block-Writes :
      (sids : List Sid)
      → All IsSid sids
      → length (seq_bytes sid_bytes sids) < 2 ^ 32
      → Writes
          (λ buf. B.put_u32_le buf (sid_block_len sids))
          (to_le_bytes 4 (length (seq_bytes sid_bytes sids)))
  block-Writes sids h fits buf =
      ap (B.put_u32_le buf) (sid_block_len-length sids h fits)
      ∙ B.put_u32_le_lem buf (length (seq_bytes sid_bytes sids)) fits

  -- A `ComBinlogDumpGtid` with fields within their types, known flags and sids whose bytes are
  -- fewer than 2 ^ 32 and that fit in memory is read back, whatever follows. The length in front
  -- of the sids, which `sid_block_len` computes, is the number of their bytes.
  pub binlog_dump_gtid-RoundTrips :
      (F : Bitflags) (sid_size : ℕ) (p : ComBinlogDumpGtid)
      → IsDumpGtid sid_size p
      → (sid_block_len p.sid_block ≡ length (seq_bytes sid_bytes p.sid_block))
        × RoundTrips (serialize_binlog_dump_gtid B F) (binlog_dump_gtid B F sid_size) tt p
  unfolding serialize_binlog_dump_gtid binlog_dump_gtid sid to_le_bytes parse parse_unchecked
  binlog_dump_gtid-RoundTrips F sid_size p (hf, known, hs, hn, hp, hb, few, room, fits) = (
    sid_block_len-length p.sid_block hb fits,
    round_trips
        (Writes-then
          (Writes-then (header-Writes B 0x1e (omega arith)) (
            Writes-then
              (constant-Writes (le_u16 B) (λ bits. bits) p.flags _
                (unsigned-Writes B w16 p.flags hf))
              (unsigned-Writes B w32 p.server_id hs)))
          (Writes-then (u32-Writes B p.filename hn) (
            Writes-then (unsigned-Writes B w64 p.pos hp) (
              Writes-then (block-Writes p.sid_block hb fits) (
                seq-Writes sid_bytes B (serialize_sid B) p.sid_block (omega arith)
                  (All-map IsSid _ p.sid_block sid-Writes hb))))))
        (Reads-then _
          (Reads-within refl (
            Reads-then _ (header-Reads_unchecked 0x1e (omega arith)) (
              Reads-then _
                (constant-Reads_unchecked (le_u16 B) (F.from_bits all_binlog_dump_flags) p.flags
                  p.flags _ (F.from_bits_lem all_binlog_dump_flags p.flags known)
                  (unsigned-Reads_unchecked B w16 p.flags hf))
                (Reads-map _ (unsigned-Reads_unchecked B w32 p.server_id hs)))))
          (Reads-then _ (u32-Reads B p.filename hn) (
            Reads-then _ (unsigned-Reads B w64 p.pos hp) (
              Reads-then _ (unsigned-Reads B w32 _ fits) (
                Reads-map _ (
                  Reads-within refl (
                    seq-Reads_unsized sid_bytes B (sid B) sid_size p.sid_block refl room
                      (omega arith) (All-map IsSid _ p.sid_block sid-Reads hb)))))))),
  )
