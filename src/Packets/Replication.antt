-- ===== src/Packets/Replication.antt =====
-- src/packets/mod.rs: the commands of a replica. The fields of a packet whose types hold no data
-- are left out of its record.
pub mod RoundTrip
use rust_mysql_common.Base.{ℕ, none, [], ◌∷◌, ◌|>◌}
use rust_mysql_common.Base.Bytes.{Bytes}
use rust_mysql_common.Io.BufMut.{BufMut}
use rust_mysql_common.Io.ParseBuf.{Parser, ◌>>=◌, map_parser}
use rust_mysql_common.Raw.{MyDeserialize, MySerialize, parse, parse_unchecked, parse_buf, within}
use rust_mysql_common.Raw.Int.{
  raw_int, serialize_int, le_u16, le_u32, le_u64, const_u8, serialize_const_u8,
}
use rust_mysql_common.Raw.Text.{raw_bytes, serialize_raw, u8_bytes, eof_bytes}
use rust_mysql_common.Raw.Constant.{constant, serialize_constant}
use rust_mysql_common.Constants.Flags.{Bitflags, union}

-- The bytes of the commands.
abbrev pub com_binlog_dump : ℕ
com_binlog_dump = 0x12

abbrev pub com_table_dump : ℕ
com_table_dump = 0x13

abbrev pub com_register_slave : ℕ
com_register_slave = 0x15

pub record ComRegisterSlave : Type 0 where
  pub server_id : ℕ
  pub hostname : Bytes
  pub user : Bytes
  pub password : Bytes
  pub port : ℕ
  pub replication_rank : ℕ
  pub master_id : ℕ

pub record ComTableDump : Type 0 where
  pub database : Bytes
  pub table : Bytes

pub record ComBinlogDump : Type 0 where
  pub pos : ℕ
  pub flags : ℕ
  pub server_id : ℕ
  pub filename : Bytes

pub record SemiSyncAckPacket : Type 0 where
  pub position : ℕ
  pub filename : Bytes

-- `ComBinlogDump::new`
unfoldable pub new : ℕ → ComBinlogDump
new server_id = record { pos = 0; flags = 0; server_id = server_id; filename = [] }

unfoldable pub with_pos : ℕ → ComBinlogDump → ComBinlogDump
with_pos pos d = record d { pos = pos }

unfoldable pub with_flags : ℕ → ComBinlogDump → ComBinlogDump
with_flags flags d = record d { flags = flags }

unfoldable pub with_filename : Bytes → ComBinlogDump → ComBinlogDump
with_filename filename d = record d { filename = filename }

-- `BinlogDumpFlags`
abbrev pub binlog_dump_non_block : ℕ
binlog_dump_non_block = 0x01

abbrev pub binlog_through_position : ℕ
binlog_through_position = 0x02

abbrev pub binlog_through_gtid : ℕ
binlog_through_gtid = 0x04

unfoldable pub all_binlog_dump_flags : ℕ
all_binlog_dump_flags =
    union (binlog_dump_non_block ∷ binlog_through_position ∷ binlog_through_gtid ∷ [])

module _ (B : BufMut) where
  unfoldable pub serialize_register_slave : MySerialize ComRegisterSlave
  serialize_register_slave p buf =
      buf
      |> serialize_const_u8 B com_register_slave
      |> serialize_int (le_u32 B) p.server_id
      |> serialize_raw (u8_bytes B) p.hostname
      |> serialize_raw (u8_bytes B) p.user
      |> serialize_raw (u8_bytes B) p.password
      |> serialize_int (le_u16 B) p.port
      |> serialize_int (le_u32 B) p.replication_rank
      |> serialize_int (le_u32 B) p.master_id

  -- The header and the `server_id`.
  abbrev pub register_head : Parser ℕ
  register_head = parse_unchecked (const_u8 com_register_slave) tt >>= λ header.
      parse_unchecked (raw_int (le_u32 B)) tt

  -- The `port`, the `replication_rank` and the `master_id`.
  abbrev pub register_tail : Parser (ℕ × ℕ × ℕ)
  register_tail = parse_unchecked (raw_int (le_u16 B)) tt >>= λ port.
      parse_unchecked (raw_int (le_u32 B)) tt >>= λ replication_rank.
      map_parser (λ master_id. (port, replication_rank, master_id))
        (parse_unchecked (raw_int (le_u32 B)) tt)

  unfoldable pub register_slave : MyDeserialize (Unit {0}) ComRegisterSlave
  register_slave = record {
    size = none;
    deserialize = λ _. parse parse_buf 5 >>= within register_head >>= λ server_id.
        parse (raw_bytes (u8_bytes B)) tt >>= λ hostname.
        parse (raw_bytes (u8_bytes B)) tt >>= λ user.
        parse (raw_bytes (u8_bytes B)) tt >>= λ password.
        map_parser
          (λ (port, replication_rank, master_id). record {
            server_id = server_id;
            hostname = hostname;
            user = user;
            password = password;
            port = port;
            replication_rank = replication_rank;
            master_id = master_id;
          })
          (parse parse_buf 10 >>= within register_tail);
  }

  unfoldable pub serialize_table_dump : MySerialize ComTableDump
  serialize_table_dump p buf =
      buf
      |> serialize_const_u8 B com_table_dump
      |> serialize_raw (u8_bytes B) p.database
      |> serialize_raw (u8_bytes B) p.table

  unfoldable pub table_dump : MyDeserialize (Unit {0}) ComTableDump
  table_dump = record {
    size = none;
    deserialize = λ _. parse (const_u8 com_table_dump) tt >>= λ header.
        parse (raw_bytes (u8_bytes B)) tt >>= λ database.
        map_parser (λ table. record { database = database; table = table })
          (parse (raw_bytes (u8_bytes B)) tt);
  }

  unfoldable pub serialize_semi_sync_ack : MySerialize SemiSyncAckPacket
  serialize_semi_sync_ack p buf =
      buf
      |> serialize_const_u8 B 0xef
      |> serialize_int (le_u64 B) p.position
      |> serialize_raw (eof_bytes B) p.filename

  abbrev pub semi_sync_head : Parser ℕ
  semi_sync_head =
      parse_unchecked (const_u8 0xef) tt >>= λ header. parse_unchecked (raw_int (le_u64 B)) tt

  unfoldable pub semi_sync_ack : MyDeserialize (Unit {0}) SemiSyncAckPacket
  semi_sync_ack = record {
    size = none;
    deserialize = λ _. parse parse_buf 9 >>= within semi_sync_head >>= λ position.
        map_parser (λ filename. record { position = position; filename = filename })
          (parse (raw_bytes (eof_bytes B)) tt);
  }

module _ (B : BufMut) (F : Bitflags) where
  unfoldable pub serialize_binlog_dump : MySerialize ComBinlogDump
  serialize_binlog_dump p buf =
      buf
      |> serialize_const_u8 B com_binlog_dump
      |> serialize_int (le_u32 B) p.pos
      |> serialize_constant (le_u16 B) (λ bits. bits) p.flags
      |> serialize_int (le_u32 B) p.server_id
      |> serialize_raw (eof_bytes B) p.filename

  abbrev pub dump_flags : MyDeserialize (Unit {0}) ℕ
  dump_flags = constant (le_u16 B) (F.from_bits all_binlog_dump_flags)

  abbrev pub binlog_dump_head : Parser (ℕ × ℕ × ℕ)
  binlog_dump_head = parse_unchecked (const_u8 com_binlog_dump) tt >>= λ header.
      parse_unchecked (raw_int (le_u32 B)) tt >>= λ pos. parse_unchecked dump_flags tt >>= λ flags.
      map_parser (λ server_id. (pos, flags, server_id)) (parse_unchecked (raw_int (le_u32 B)) tt)

  unfoldable pub binlog_dump : MyDeserialize (Unit {0}) ComBinlogDump
  binlog_dump = record {
    size = none;
    deserialize = λ _. parse parse_buf 11 >>= within binlog_dump_head >>= λ (pos, flags, server_id).
        map_parser
          (λ filename. record {
            pos = pos;
            flags = flags;
            server_id = server_id;
            filename = filename;
          })
          (parse (raw_bytes (eof_bytes B)) tt);
  }
