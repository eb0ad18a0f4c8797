-- ===== src/Tests/Columns.antt =====
-- The theorems on columns, statements and requests at concrete inputs.
use rust_mysql_common.Base.{true, replicate, ℕ, ◌≡◌, ◌≢◌, refl, ap, [], ◌∷◌, ◌++◌, arith}
use rust_mysql_common.Base.Bytes.{to_le_bytes}
use rust_mysql_common.Base.Result.{ok}
use rust_mysql_common.Io.BufMut.{vec_buf_mut}
use rust_mysql_common.Raw.{parse}
use rust_mysql_common.Raw.Parse.{RoundTrips, WholeTrips}
use rust_mysql_common.Constants.{mysql_type_long, mysql_type_newdate, column_type_u8}
use rust_mysql_common.Constants.Flags.{all_column_flags, union}
use rust_mysql_common.Packets.Fields.{Writes}
use rust_mysql_common.Packets.Column.{Column, column}
use rust_mysql_common.Packets.Column.Payload.{definition, column-definition}
use rust_mysql_common.Packets.Statements.{
  StmtPacket, ComStmtSendLongData, ComStmtClose, LocalInfilePacket, stmt_packet,
  serialize_stmt_packet, serialize_send_long_data, serialize_stmt_close, local_infile,
  serialize_local_infile,
}
use rust_mysql_common.Packets.Statements.RoundTrip.{statements-RoundTrip}
use rust_mysql_common.Packets.BinlogRequest.{BinlogRequest, as_cmd}
use rust_mysql_common.Packets.BinlogRequest.Command.{Asks, as_cmd-Asks}
use rust_mysql_common.Tests.Packets.{number_flags}

-- A column `id` of a table `t`.
abbrev id_column : Column
id_column = record {
  schema = b's' ∷ [];
  table = b't' ∷ [];
  org_table = b't' ∷ [];
  name = b'i' ∷ b'd' ∷ [];
  org_name = b'i' ∷ b'd' ∷ [];
  column_length = 11;
  character_set = 63;
  column_type = mysql_type_long;
  flags = 0;
  decimals = 0;
}

long-newdate : mysql_type_long ≢ mysql_type_newdate
unfolding column_type_u8
long-newdate e = let h : ◌≡◌ {A = ℕ} 3 14 = ap column_type_u8 e in absurd (omega arith)

column-definition_example :
    parse (column vec_buf_mut number_flags) tt (definition id_column ++ 5 ∷ [])
    ≡ ok (id_column, 5 ∷ [])
unfolding all_column_flags union
column-definition_example = column-definition vec_buf_mut number_flags id_column (5 ∷ []) (
  omega arith,
  omega arith,
  omega arith,
  omega arith,
  omega arith,
  omega arith,
  omega arith,
  long-newdate,
  omega arith,
  refl,
  omega arith,
)

abbrev answer : StmtPacket
answer = record { statement_id = 7; num_columns = 2; num_params = 1; warning_count = 0 }

abbrev infile : LocalInfilePacket
infile = record { file_name = b'f' ∷ [] }

abbrev long_data : ComStmtSendLongData
long_data = record { stmt_id = 7; param_index = 0; bytes = 1 ∷ 2 ∷ [] }

abbrev close : ComStmtClose
close = record { stmt_id = 7 }

statements-RoundTrip_example :
    RoundTrips (serialize_stmt_packet vec_buf_mut) (stmt_packet vec_buf_mut) tt answer
    × WholeTrips (serialize_local_infile vec_buf_mut) (local_infile vec_buf_mut) tt infile
    × Writes
        (serialize_send_long_data vec_buf_mut long_data)
        ((0x18 ∷ []) ++ (to_le_bytes 4 7 ++ (to_le_bytes 2 0 ++ 1 ∷ 2 ∷ [])))
    × Writes (serialize_stmt_close vec_buf_mut close) ((0x19 ∷ []) ++ to_le_bytes 4 7)
statements-RoundTrip_example =
    statements-RoundTrip vec_buf_mut answer infile long_data close
      (omega arith, omega arith, omega arith, omega arith) (omega arith) (omega arith) (omega arith)

-- A request from a position on, for the numbers 1 to 4 of one server.
abbrev gtid_request : BinlogRequest
gtid_request = record {
  server_id = 3;
  use_gtid = true;
  flags = 3;
  filename = b'f' ∷ [];
  pos = 4_294_967_300;
  sids = record { uuid = replicate 16 7; intervals = record { start = 1; end = 5 } ∷ [] } ∷ [];
}

as_cmd-Asks_example : Asks number_flags gtid_request (as_cmd number_flags gtid_request)
as_cmd-Asks_example = as_cmd-Asks number_flags gtid_request
