-- ===== src/Packets/Gtid.antt =====
-- src/packets/mod.rs: `ComBinlogDumpGtid`, the sets of transactions that it names, and the methods
-- that build it.
pub mod RoundTrip
pub mod Flags
use rust_mysql_common.Base.{
  ℕ, ◌+◌, ◌*◌, ◌%◌, ◌^◌, ◌-◌, Bool, true, false, ◌||◌, none, some, List, [], ◌∷◌, ◌++◌, leb, ◌==◌,
  if◌then◌else◌, length, min, ◌|>◌,
}
use rust_mysql_common.Base.Bytes.{Bytes}
use rust_mysql_common.Base.Result.{Result, ok, err}
use rust_mysql_common.Io.BufMut.{BufMut}
use rust_mysql_common.Io.ParseBuf.{IoError, invalid_data, Parser, ◌>>=◌, map_parser}
use rust_mysql_common.Raw.{
  MyDeserialize, MySerialize, parse, parse_unchecked, parse_buf, within, byte_array,
  serialize_bytes,
}
use rust_mysql_common.Raw.Int.{
  raw_int, serialize_int, le_u16, le_u32, le_u64, const_u8, serialize_const_u8,
}
use rust_mysql_common.Raw.Text.{raw_bytes, serialize_raw, u32_bytes, usize_max}
use rust_mysql_common.Raw.Constant.{serialize_constant}
use rust_mysql_common.Raw.Sequence.{serialize_seq, parse_seq}
use rust_mysql_common.Constants.Flags.{Bitflags}
use rust_mysql_common.Packets.Replication.{binlog_through_gtid, dump_flags}

abbrev pub com_binlog_dump_gtid : ℕ
com_binlog_dump_gtid = 0x1e

-- `start` is the first number of the interval and `end` the one behind it.
pub record GnoInterval : Type 0 where
  pub start : ℕ
  pub end : ℕ

pub record Sid : Type 0 where
  pub uuid : Bytes
  pub intervals : List GnoInterval

pub record ComBinlogDumpGtid : Type 0 where
  pub flags : ℕ
  pub server_id : ℕ
  pub filename : Bytes
  pub pos : ℕ
  pub sid_block : List Sid

-- `GnoInterval::check_and_new`
unfoldable pub check_and_new : ℕ → ℕ → Result IoError GnoInterval
check_and_new start end =
    if leb end start
    then err invalid_data
    else if (start == 0) || (end == 0)
    then err invalid_data
    else ok (record { start = start; end = end })

-- `Saturating` addition of words of `w` bits.
abbrev pub saturating_add : ℕ → ℕ → ℕ → ℕ
saturating_add w a b = min (a + b) (2 ^ w - 1)

-- `Sid::len`
unfoldable pub sid_len : Sid → ℕ
sid_len sid = saturating_add 64 (saturating_add 64 16 8) (length sid.intervals * 16 % 2 ^ 64)

-- The loop of `ComBinlogDumpGtid::sid_block_len`.
unfoldable pub add_sid_lens : ℕ → List Sid → ℕ
add_sid_lens len [] = len
add_sid_lens len (sid ∷ sids) = add_sid_lens (saturating_add 32 len (sid_len sid % 2 ^ 32)) sids

unfoldable pub sid_block_len : List Sid → ℕ
sid_block_len sids = add_sid_lens 8 sids

-- `ComBinlogDumpGtid::new`
unfoldable pub new : ℕ → ComBinlogDumpGtid
new server_id = record { flags = 0; server_id = server_id; filename = []; pos = 0; sid_block = [] }

unfoldable pub with_filename : Bytes → ComBinlogDumpGtid → ComBinlogDumpGtid
with_filename filename p = record p { filename = filename }

unfoldable pub with_server_id : ℕ → ComBinlogDumpGtid → ComBinlogDumpGtid
with_server_id server_id p = record p { server_id = server_id }

unfoldable pub with_pos : ℕ → ComBinlogDumpGtid → ComBinlogDumpGtid
with_pos pos p = record p { pos = pos }

abbrev pub is_empty {ℓ} : {A : Type ℓ} → List A → Bool
is_empty [] = true
is_empty (x ∷ xs) = false

module _ (F : Bitflags) where
  -- The flag that goes with a sequence of sids.
  abbrev pub flag_for : List Sid → ℕ → ℕ
  flag_for sids flags =
      if is_empty sids
      then F.remove flags binlog_through_gtid
      else F.insert flags binlog_through_gtid

  unfoldable pub with_flags : ℕ → ComBinlogDumpGtid → ComBinlogDumpGtid
  with_flags flags p = record p { flags = flag_for p.sid_block flags }

  unfoldable pub with_sid : Sid → ComBinlogDumpGtid → ComBinlogDumpGtid
  with_sid sid p = record p {
    flags = F.insert p.flags binlog_through_gtid;
    sid_block = p.sid_block ++ (sid ∷ []);
  }

  unfoldable pub with_sids : List Sid → ComBinlogDumpGtid → ComBinlogDumpGtid
  with_sids sids p = record p { flags = flag_for sids p.flags; sid_block = sids }

module _ (B : BufMut) where
  unfoldable pub serialize_gno_interval : MySerialize GnoInterval
  serialize_gno_interval p buf =
      buf |> serialize_int (le_u64 B) p.start |> serialize_int (le_u64 B) p.end

  unfoldable pub gno_interval : MyDeserialize (Unit {0}) GnoInterval
  gno_interval = record {
    size = some 16;
    deserialize = λ _. parse_unchecked (raw_int (le_u64 B)) tt >>= λ start.
        map_parser (λ end. record { start = start; end = end })
          (parse_unchecked (raw_int (le_u64 B)) tt);
  }

  unfoldable pub serialize_sid : MySerialize Sid
  serialize_sid p buf =
      buf
      |> serialize_bytes B p.uuid
      |> serialize_seq (le_u64 B) usize_max serialize_gno_interval p.intervals

  unfoldable pub sid : MyDeserialize (Unit {0}) Sid
  sid = record {
    size = none;
    deserialize = λ _. parse (byte_array 16) tt >>= λ uuid.
        map_parser (λ intervals. record { uuid = uuid; intervals = intervals })
          (parse_seq (le_u64 B) gno_interval 16);
  }

module _ (B : BufMut) (F : Bitflags) where
  open B use {put_u32_le}

  unfoldable pub serialize_binlog_dump_gtid : MySerialize ComBinlogDumpGtid
  serialize_binlog_dump_gtid p buf =
      buf
      |> serialize_const_u8 B com_binlog_dump_gtid
      |> serialize_constant (le_u16 B) (λ bits. bits) p.flags
      |> serialize_int (le_u32 B) p.server_id
      |> serialize_raw (u32_bytes B) p.filename
      |> serialize_int (le_u64 B) p.pos
      |> (λ buf. put_u32_le buf (sid_block_len p.sid_block))
      |> serialize_seq (le_u64 B) usize_max (serialize_sid B) p.sid_block

  abbrev pub binlog_dump_gtid_head : Parser (ℕ × ℕ)
  binlog_dump_gtid_head = parse_unchecked (const_u8 com_binlog_dump_gtid) tt >>= λ header.
      parse_unchecked (dump_flags B F) tt >>= λ flags.
      map_parser (λ server_id. (flags, server_id)) (parse_unchecked (raw_int (le_u32 B)) tt)

  -- `sid_size` is the size of a `Sid` in memory.
  unfoldable pub binlog_dump_gtid : ℕ → MyDeserialize (Unit {0}) ComBinlogDumpGtid
  binlog_dump_gtid sid_size = record {
    size = none;
    deserialize = λ _. parse parse_buf 7 >>= within binlog_dump_gtid_head >>= λ (flags, server_id).
        parse (raw_bytes (u32_bytes B)) tt >>= λ filename. parse (raw_int (le_u64 B)) tt >>= λ pos.
        parse (raw_int (le_u32 B)) tt >>= λ sid_data_len.
        map_parser
          (λ sid_block. record {
            flags = flags;
            server_id = server_id;
            filename = filename;
            pos = pos;
            sid_block = sid_block;
          })
          (parse parse_buf sid_data_len >>= within (parse_seq (le_u64 B) (sid B) sid_size));
  }
