-- ===== src/Packets/Replication/RoundTrip.antt =====
-- src/packets/mod.rs: the commands of a replica, written and read.
use rust_mysql_common.Base.{bit_and, ◌^◌, ◌<◌, ◌≤◌, ◌≡◌, refl, arith, length}
use rust_mysql_common.Base.Bytes.{to_le_bytes}
use rust_mysql_common.Io.BufMut.{BufMut}
use rust_mysql_common.Raw.{parse, parse_unchecked}
use rust_mysql_common.Raw.Int.{le_u16}
use rust_mysql_common.Raw.Parse.{RoundTrips, WholeTrips}
use rust_mysql_common.Raw.Numbers.{w16, w32, w64}
use rust_mysql_common.Constants.Flags.{Bitflags}
use rust_mysql_common.Packets.Fields.{
  Writes-then, Reads-then, Reads-map, Reads-within, Ends-then, Ends-map, round_trips, whole_trips,
  unsigned-Writes, unsigned-Reads_unchecked, header-Writes, header-Reads, header-Reads_unchecked,
}
use rust_mysql_common.Packets.Strings.{
  eof-Writes, eof-Ends, u8-Writes, u8-Reads, constant-Writes, constant-Reads_unchecked,
}
use rust_mysql_common.Packets.Replication.{
  ComRegisterSlave, ComTableDump, ComBinlogDump, SemiSyncAckPacket, all_binlog_dump_flags,
  serialize_register_slave, register_slave, serialize_table_dump, table_dump,
  serialize_semi_sync_ack, semi_sync_ack, serialize_binlog_dump, binlog_dump,
}

-- The fields are in their types, and the strings have a length that fits.
abbrev pub IsRegisterSlave : ComRegisterSlave → Type 0
IsRegisterSlave p =
    (p.server_id < 2 ^ 32)
    × (length p.hostname ≤ 255)
    × (length p.user ≤ 255)
    × (length p.password ≤ 255)
    × (p.port < 2 ^ 16)
    × (p.replication_rank < 2 ^ 32)
    × (p.master_id < 2 ^ 32)

abbrev pub IsTableDump : ComTableDump → Type 0
IsTableDump p = (length p.database ≤ 255) × (length p.table ≤ 255)

abbrev pub IsSemiSyncAck : SemiSyncAckPacket → Type 0
IsSemiSyncAck p = p.position < 2 ^ 64

-- The flags are known.
abbrev pub IsBinlogDump : ComBinlogDump → Type 0
IsBinlogDump p =
    (p.pos < 2 ^ 32)
    × (p.flags < 2 ^ 16)
    × (bit_and p.flags all_binlog_dump_flags ≡ p.flags)
    × (p.server_id < 2 ^ 32)

module _ (B : BufMut) where
  register_slave-RoundTrips :
      (p : ComRegisterSlave)
      → IsRegisterSlave p
      → RoundTrips (serialize_register_slave B) (register_slave B) tt p
  unfolding serialize_register_slave register_slave to_le_bytes parse parse_unchecked
  register_slave-RoundTrips p (hs, hh, hu, hp, ho, hr, hm) =
      round_trips
        (Writes-then
          (Writes-then (header-Writes B 0x15 (omega arith)) (unsigned-Writes B w32 p.server_id hs))
          (Writes-then (u8-Writes B p.hostname hh) (
            Writes-then (u8-Writes B p.user hu) (
              Writes-then (u8-Writes B p.password hp) (
                Writes-then (unsigned-Writes B w16 p.port ho) (
                  Writes-then (unsigned-Writes B w32 p.replication_rank hr)
                    (unsigned-Writes B w32 p.master_id hm)))))))
        (Reads-then _
          (Reads-within refl (
            Reads-then _ (header-Reads_unchecked 0x15 (omega arith))
              (unsigned-Reads_unchecked B w32 p.server_id hs)))
          (Reads-then _ (u8-Reads B p.hostname hh) (
            Reads-then _ (u8-Reads B p.user hu) (
              Reads-then _ (u8-Reads B p.password hp) (
                Reads-map _ (
                  Reads-within refl (
                    Reads-then _ (unsigned-Reads_unchecked B w16 p.port ho) (
                      Reads-then _ (unsigned-Reads_unchecked B w32 p.replication_rank hr)
                        (Reads-map _ (unsigned-Reads_unchecked B w32 p.master_id hm))))))))))

  table_dump-RoundTrips :
      (p : ComTableDump) → IsTableDump p → RoundTrips (serialize_table_dump B) (table_dump B) tt p
  unfolding serialize_table_dump table_dump parse parse_unchecked
  table_dump-RoundTrips p (hd, ht) =
      round_trips
        (Writes-then (header-Writes B 0x13 (omega arith))
          (Writes-then (u8-Writes B p.database hd) (u8-Writes B p.table ht)))
        (Reads-then _ (header-Reads 0x13 (omega arith))
          (Reads-then _ (u8-Reads B p.database hd) (Reads-map _ (u8-Reads B p.table ht))))

  semi_sync_ack-WholeTrips :
      (p : SemiSyncAckPacket)
      → IsSemiSyncAck p
      → WholeTrips (serialize_semi_sync_ack B) (semi_sync_ack B) tt p
  unfolding serialize_semi_sync_ack semi_sync_ack to_le_bytes parse parse_unchecked
  semi_sync_ack-WholeTrips p h =
      whole_trips
        (Writes-then
          (Writes-then (header-Writes B 0xef (omega arith)) (unsigned-Writes B w64 p.position h))
          (eof-Writes B p.filename))
        (Ends-then _
          (Reads-within refl (
            Reads-then _ (header-Reads_unchecked 0xef (omega arith))
              (unsigned-Reads_unchecked B w64 p.position h)))
          (Ends-map _ (eof-Ends B p.filename)))

  binlog_dump-WholeTrips :
      (F : Bitflags) (p : ComBinlogDump)
      → IsBinlogDump p
      → WholeTrips (serialize_binlog_dump B F) (binlog_dump B F) tt p
  unfolding serialize_binlog_dump binlog_dump to_le_bytes parse parse_unchecked
  binlog_dump-WholeTrips F p (hp, hf, known, hs) =
      whole_trips
        (Writes-then
          (Writes-then (header-Writes B 0x12 (omega arith)) (
            Writes-then (unsigned-Writes B w32 p.pos hp) (
              Writes-then
                (constant-Writes (le_u16 B) (λ bits. bits) p.flags _
                  (unsigned-Writes B w16 p.flags hf))
                (unsigned-Writes B w32 p.server_id hs))))
          (eof-Writes B p.filename))
        (Ends-then _
          (Reads-within refl (
            Reads-then _ (header-Reads_unchecked 0x12 (omega arith)) (
              Reads-then _ (unsigned-Reads_unchecked B w32 p.pos hp) (
                Reads-then _
                  (constant-Reads_unchecked (le_u16 B) (F.from_bits all_binlog_dump_flags) p.flags
                    p.flags _ (F.from_bits_lem all_binlog_dump_flags p.flags known)
                    (unsigned-Reads_unchecked B w16 p.flags hf))
                  (Reads-map _ (unsigned-Reads_unchecked B w32 p.server_id hs))))))
          (Ends-map _ (eof-Ends B p.filename)))

  -- Commands whose fields are within their types, whose strings have lengths that fit and whose
  -- flags are known are read back as they were written: `ComRegisterSlave` and `ComTableDump`
  -- whatever follows, `ComBinlogDump` and `SemiSyncAckPacket`, which end with the packet, if
  -- nothing does.
  pub commands-RoundTrip :
      (F : Bitflags) (r : ComRegisterSlave) (t : ComTableDump) (d : ComBinlogDump)
      (a : SemiSyncAckPacket)
      → IsRegisterSlave r
      → IsTableDump t
      → IsBinlogDump d
      → IsSemiSyncAck a
      → RoundTrips (serialize_register_slave B) (register_slave B) tt r
        × RoundTrips (serialize_table_dump B) (table_dump B) tt t
        × WholeTrips (serialize_binlog_dump B F) (binlog_dump B F) tt d
        × WholeTrips (serialize_semi_sync_ack B) (semi_sync_ack B) tt a
  commands-RoundTrip F r t d a hr ht hd ha = (
    register_slave-RoundTrips r hr,
    table_dump-RoundTrips t ht,
    binlog_dump-WholeTrips F d hd,
    semi_sync_ack-WholeTrips a ha,
  )
