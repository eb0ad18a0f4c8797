-- ===== src/Packets/Statements/RoundTrip.antt =====
-- src/packets/mod.rs: the packets about statements and local files, written and read.
use rust_mysql_common.Base.{◌^◌, ◌<◌, refl, [], ◌∷◌, ◌++◌, arith}
use rust_mysql_common.Base.Bytes.{to_le_bytes}
use rust_mysql_common.Io.BufMut.{BufMut}
use rust_mysql_common.Raw.{parse, parse_unchecked}
use rust_mysql_common.Raw.Parse.{RoundTrips, WholeTrips}
use rust_mysql_common.Raw.Numbers.{w16, w32}
use rust_mysql_common.Packets.Fields.{
  Writes, Writes-then, Reads-then, Reads-map, Reads-within, Ends-then, Ends-map, round_trips,
  whole_trips, sized-Reads, unsigned-Writes, unsigned-Reads_unchecked, header-Writes, header-Reads,
  header-Reads_unchecked,
}
use rust_mysql_common.Packets.Strings.{
  eof-Writes, eof-Ends, skipped-Writes, skipped-Reads_unchecked,
}
use rust_mysql_common.Packets.Statements.{
  StmtPacket, ComStmtSendLongData, ComStmtClose, LocalInfilePacket, stmt_packet,
  serialize_stmt_packet, serialize_send_long_data, serialize_stmt_close, local_infile,
  serialize_local_infile,
}

-- The fields are in their types.
abbrev pub IsStmtPacket : StmtPacket → Type 0
IsStmtPacket p =
    (p.statement_id < 2 ^ 32)
    × (p.num_columns < 2 ^ 16)
    × (p.num_params < 2 ^ 16)
    × (p.warning_count < 2 ^ 16)

module _ (B : BufMut) where
  stmt_packet-RoundTrips :
      (p : StmtPacket) → IsStmtPacket p → RoundTrips (serialize_stmt_packet B) (stmt_packet B) tt p
  unfolding serialize_stmt_packet stmt_packet to_le_bytes parse_unchecked
  stmt_packet-RoundTrips p (hs, hc, hp, hw) =
      round_trips
        (Writes-then (header-Writes B 0x00 (omega arith)) (
          Writes-then (unsigned-Writes B w32 p.statement_id hs) (
            Writes-then (unsigned-Writes B w16 p.num_columns hc) (
              Writes-then (unsigned-Writes B w16 p.num_params hp)
                (Writes-then (skipped-Writes B 1) (unsigned-Writes B w16 p.warning_count hw))))))
        (sized-Reads (stmt_packet B) tt 12 _ p refl refl (
          Reads-within refl (
            Reads-then _ (header-Reads_unchecked 0x00 (omega arith)) (
              Reads-then _ (unsigned-Reads_unchecked B w32 p.statement_id hs) (
                Reads-then _ (unsigned-Reads_unchecked B w16 p.num_columns hc) (
                  Reads-then _ (unsigned-Reads_unchecked B w16 p.num_params hp) (
                    Reads-then _ (skipped-Reads_unchecked 1)
                      (Reads-map _ (unsigned-Reads_unchecked B w16 p.warning_count hw)))))))))

  local_infile-WholeTrips :
      (p : LocalInfilePacket) → WholeTrips (serialize_local_infile B) (local_infile B) tt p
  unfolding serialize_local_infile local_infile parse parse_unchecked
  local_infile-WholeTrips p =
      whole_trips (Writes-then (header-Writes B 0xfb (omega arith)) (eof-Writes B p.file_name))
        (Ends-then _ (header-Reads 0xfb (omega arith)) (Ends-map _ (eof-Ends B p.file_name)))

  -- The bytes of the commands, for fields in their types.
  send_long_data-Writes :
      (p : ComStmtSendLongData)
      → p.stmt_id < 2 ^ 32
      → p.param_index < 2 ^ 16
      → Writes
          (serialize_send_long_data B p)
          ((0x18 ∷ []) ++ (to_le_bytes 4 p.stmt_id ++ (to_le_bytes 2 p.param_index ++ p.bytes)))
  unfolding serialize_send_long_data
  send_long_data-Writes p hs hp = Writes-then (header-Writes B 0x18 (omega arith)) (
      Writes-then (unsigned-Writes B w32 p.stmt_id hs)
        (Writes-then (unsigned-Writes B w16 p.param_index hp) (eof-Writes B p.bytes)))

  stmt_close-Writes :
      (p : ComStmtClose)
      → p.stmt_id < 2 ^ 32
      → Writes (serialize_stmt_close B p) ((0x19 ∷ []) ++ to_le_bytes 4 p.stmt_id)
  unfolding serialize_stmt_close
  stmt_close-Writes p h =
      Writes-then {S = λ buf. B.put_u8 buf 0x19} (λ buf. B.put_u8_lem buf 0x19 (omega arith))
        (λ buf. B.put_u32_le_lem buf p.stmt_id h)

  -- With fields in their types, the answer to a prepared statement is read back, whatever follows,
  -- and the request for a local file, which ends with the packet, if nothing does; the command that
  -- sends a parameter is its byte, the statement, the parameter's index and the data, and the one that
  -- closes a statement its byte and the statement.
  pub statements-RoundTrip :
      (s : StmtPacket) (l : LocalInfilePacket) (d : ComStmtSendLongData) (c : ComStmtClose)
      → IsStmtPacket s
      → d.stmt_id < 2 ^ 32
      → d.param_index < 2 ^ 16
      → c.stmt_id < 2 ^ 32
      → RoundTrips (serialize_stmt_packet B) (stmt_packet B) tt s
        × WholeTrips (serialize_local_infile B) (local_infile B) tt l
        × Writes
            (serialize_send_long_data B d)
            ((0x18 ∷ []) ++ (to_le_bytes 4 d.stmt_id ++ (to_le_bytes 2 d.param_index ++ d.bytes)))
        × Writes (serialize_stmt_close B c) ((0x19 ∷ []) ++ to_le_bytes 4 c.stmt_id)
  statements-RoundTrip s l d c hs hd hp hc = (
    stmt_packet-RoundTrips s hs,
    local_infile-WholeTrips l,
    send_long_data-Writes d hd hp,
    stmt_close-Writes c hc,
  )
