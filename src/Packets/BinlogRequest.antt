-- ===== src/Packets/BinlogRequest.antt =====
-- src/packets/binlog_request.rs: the request for a binary log, from which a command is made.
pub mod Command
use rust_mysql_common.Base.{ℕ, Bool, true, false, List, [], ◌%◌, ◌^◌, ◌|>◌, if◌then◌else◌}
use rust_mysql_common.Base.Bytes.{Bytes}
use rust_mysql_common.Raw.{Either, left, right}
use rust_mysql_common.Constants.Flags.{Bitflags}
use rust_mysql_common.Packets.Replication
use rust_mysql_common.Packets.Replication.{ComBinlogDump, binlog_dump_non_block}
use rust_mysql_common.Packets.Gtid
use rust_mysql_common.Packets.Gtid.{Sid, ComBinlogDumpGtid}

pub record BinlogRequest : Type 0 where
  pub server_id : ℕ
  pub use_gtid : Bool
  pub flags : ℕ
  pub filename : Bytes
  pub pos : ℕ
  pub sids : List Sid

-- `BinlogRequest::new`
unfoldable pub new : ℕ → BinlogRequest
new server_id = record {
  server_id = server_id;
  use_gtid = false;
  flags = 0;
  filename = [];
  pos = 4;
  sids = [];
}

unfoldable pub with_server_id : ℕ → BinlogRequest → BinlogRequest
with_server_id server_id r = record r { server_id = server_id }

unfoldable pub with_use_gtid : Bool → BinlogRequest → BinlogRequest
with_use_gtid use_gtid r = record r { use_gtid = use_gtid }

unfoldable pub with_flags : ℕ → BinlogRequest → BinlogRequest
with_flags flags r = record r { flags = flags }

unfoldable pub with_filename : Bytes → BinlogRequest → BinlogRequest
with_filename filename r = record r { filename = filename }

unfoldable pub with_pos : ℕ → BinlogRequest → BinlogRequest
with_pos pos r = record r { pos = pos }

unfoldable pub with_sids : List Sid → BinlogRequest → BinlogRequest
with_sids sids r = record r { sids = sids }

module _ (F : Bitflags) where
  -- The two commands; `pos as u32` cuts the position.
  unfoldable pub gtid_command : BinlogRequest → ComBinlogDumpGtid
  gtid_command r =
      Gtid.new r.server_id
      |> Gtid.with_pos r.pos
      |> Gtid.with_flags F r.flags
      |> Gtid.with_filename r.filename
      |> Gtid.with_sids F r.sids

  unfoldable pub dump_command : BinlogRequest → ComBinlogDump
  dump_command r =
      Replication.new r.server_id
      |> Replication.with_pos (r.pos % 2 ^ 32)
      |> Replication.with_filename r.filename
      |> Replication.with_flags (F.intersection r.flags binlog_dump_non_block)

  -- `BinlogRequest::as_cmd`
  unfoldable pub as_cmd : BinlogRequest → Either ComBinlogDump ComBinlogDumpGtid
  as_cmd r = if r.use_gtid then right (gtid_command r) else left (dump_command r)
