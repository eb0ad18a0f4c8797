-- ===== src/Packets/Statements.antt =====
-- src/packets/mod.rs: the answer to a prepared statement, the commands that send a parameter or close
-- a statement, and the request for a local file.
pub mod RoundTrip
use rust_mysql_common.Base.{ℕ, none, some, ◌|>◌}
use rust_mysql_common.Base.Bytes.{Bytes}
use rust_mysql_common.Io.BufMut.{BufMut}
use rust_mysql_common.Io.ParseBuf.{Parser, ◌>>=◌, map_parser}
use rust_mysql_common.Raw.{
  MyDeserialize, MySerialize, parse, parse_unchecked, parse_buf, within, skipped, serialize_skipped,
}
use rust_mysql_common.Raw.Int.{raw_int, serialize_int, le_u16, le_u32, const_u8, serialize_const_u8}
use rust_mysql_common.Raw.Text.{raw_bytes, serialize_raw, eof_bytes}

-- The bytes of the commands.
abbrev pub com_stmt_send_long_data : ℕ
com_stmt_send_long_data = 0x18

abbrev pub com_stmt_close : ℕ
com_stmt_close = 0x19

pub record StmtPacket : Type 0 where
  pub statement_id : ℕ
  pub num_columns : ℕ
  pub num_params : ℕ
  pub warning_count : ℕ

pub record ComStmtSendLongData : Type 0 where
  pub stmt_id : ℕ
  pub param_index : ℕ
  pub bytes : Bytes

pub record ComStmtClose : Type 0 where
  pub stmt_id : ℕ

pub record LocalInfilePacket : Type 0 where
  pub file_name : Bytes

module _ (B : BufMut) where
  abbrev pub stmt_fields : Parser StmtPacket
  stmt_fields = parse_unchecked (const_u8 0x00) tt >>= λ status.
      parse_unchecked (raw_int (le_u32 B)) tt >>= λ statement_id.
      parse_unchecked (raw_int (le_u16 B)) tt >>= λ num_columns.
      parse_unchecked (raw_int (le_u16 B)) tt >>= λ num_params.
      parse_unchecked (skipped 1) tt >>= λ skip.
      map_parser
        (λ warning_count. record {
          statement_id = statement_id;
          num_columns = num_columns;
          num_params = num_params;
          warning_count = warning_count;
        })
        (parse_unchecked (raw_int (le_u16 B)) tt)

  unfoldable pub stmt_packet : MyDeserialize (Unit {0}) StmtPacket
  stmt_packet = record {
    size = some 12;
    deserialize = λ _. parse parse_buf 12 >>= within stmt_fields;
  }

  unfoldable pub serialize_stmt_packet : MySerialize StmtPacket
  serialize_stmt_packet p buf =
      buf
      |> serialize_const_u8 B 0x00
      |> serialize_int (le_u32 B) p.statement_id
      |> serialize_int (le_u16 B) p.num_columns
      |> serialize_int (le_u16 B) p.num_params
      |> serialize_skipped B 1
      |> serialize_int (le_u16 B) p.warning_count

  unfoldable pub serialize_send_long_data : MySerialize ComStmtSendLongData
  serialize_send_long_data p buf =
      buf
      |> serialize_const_u8 B com_stmt_send_long_data
      |> serialize_int (le_u32 B) p.stmt_id
      |> serialize_int (le_u16 B) p.param_index
      |> serialize_raw (eof_bytes B) p.bytes

  unfoldable pub serialize_stmt_close : MySerialize ComStmtClose
  serialize_stmt_close p buf = B.put_u32_le (B.put_u8 buf com_stmt_close) p.stmt_id

  unfoldable pub local_infile : MyDeserialize (Unit {0}) LocalInfilePacket
  local_infile = record {
    size = none;
    deserialize = λ _. parse (const_u8 0xfb) tt >>= λ header.
        map_parser (λ file_name. record { file_name = file_name })
          (parse (raw_bytes (eof_bytes B)) tt);
  }

  unfoldable pub serialize_local_infile : MySerialize LocalInfilePacket
  serialize_local_infile p buf =
      buf |> serialize_const_u8 B 0xfb |> serialize_raw (eof_bytes B) p.file_name
