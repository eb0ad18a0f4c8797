-- ===== src/Packets/BinlogRequest/Command.antt =====
-- src/packets/binlog_request.rs: the command that is made of a request.
use rust_mysql_common.Base.Masks.{set_apart, clear_apart}
use rust_mysql_common.Base.{
  ℕ, List, ◌∷◌, ◌==◌, ap, sym, ◌∙◌, [], Bool, true, false, not, ◌%◌, ◌^◌, ◌≡◌, refl, bit_and,
  if◌then◌else◌,
}
use rust_mysql_common.Raw.{Either, left, right}
use rust_mysql_common.Constants.Flags.{Bitflags}
use rust_mysql_common.Packets.Replication
use rust_mysql_common.Packets.Replication.{
  ComBinlogDump, binlog_dump_non_block, binlog_through_position, binlog_through_gtid,
}
use rust_mysql_common.Packets.Gtid
use rust_mysql_common.Packets.Gtid.{Sid, ComBinlogDumpGtid, is_empty, flag_for}
use rust_mysql_common.Packets.Gtid.Flags.{contains-flag_for}
use rust_mysql_common.Packets.BinlogRequest.{BinlogRequest, gtid_command, dump_command, as_cmd}

module _ (F : Bitflags) where
  -- What a command has to ask for.
  abbrev pub Asks : BinlogRequest → Either ComBinlogDump ComBinlogDumpGtid → Type 0
  Asks r (left d) =
      (r.use_gtid ≡ false)
      × (d.server_id ≡ r.server_id)
      × (d.filename ≡ r.filename)
      × (d.pos ≡ r.pos % 2 ^ 32)
      × (d.flags ≡ bit_and r.flags binlog_dump_non_block)
  Asks r (right g) =
      (r.use_gtid ≡ true)
      × (g.server_id ≡ r.server_id)
      × (g.filename ≡ r.filename)
      × (g.pos ≡ r.pos)
      × (g.sid_block ≡ r.sids)
      × (F.contains g.flags binlog_through_gtid ≡ not (is_empty r.sids))
      × (F.contains g.flags binlog_dump_non_block ≡ F.contains r.flags binlog_dump_non_block)
      × (F.contains g.flags binlog_through_position ≡ F.contains r.flags binlog_through_position)

  contains-eq :
      (flags flags' other : ℕ)
      → bit_and flags other ≡ bit_and flags' other
      → F.contains flags other ≡ F.contains flags' other
  contains-eq flags flags' other e =
      F.contains_lem flags other ∙ ap (λ t. t == other) e ∙ sym (F.contains_lem flags' other)

  -- The flag that goes with the sids leaves the others as they are.
  bit_and-flag_for :
      (sids : List Sid) (flags other : ℕ)
      → bit_and binlog_through_gtid other ≡ 0
      → bit_and (flag_for F sids flags) other ≡ bit_and flags other
  bit_and-flag_for [] flags other h =
      ap (λ t. bit_and t other) (F.remove_lem flags binlog_through_gtid)
      ∙ clear_apart flags binlog_through_gtid other h
  bit_and-flag_for (sid ∷ sids) flags other h =
      ap (λ t. bit_and t other) (F.insert_lem flags binlog_through_gtid)
      ∙ set_apart flags binlog_through_gtid other h

  contains_other :
      (sids : List Sid) (flags other : ℕ)
      → bit_and binlog_through_gtid other ≡ 0
      → F.contains (flag_for F sids (flag_for F [] flags)) other ≡ F.contains flags other
  contains_other sids flags other h =
      contains-eq _ flags other
        (bit_and-flag_for sids (flag_for F [] flags) other h ∙ bit_and-flag_for [] flags other h)

  Asks-by :
      (r : BinlogRequest) (use_gtid : Bool)
      → r.use_gtid ≡ use_gtid
      → Asks r (if use_gtid then right (gtid_command F r) else left (dump_command F r))
  unfolding gtid_command dump_command Gtid.new Gtid.with_pos Gtid.with_flags Gtid.with_filename
      Gtid.with_sids Replication.new Replication.with_pos Replication.with_flags
      Replication.with_filename
  Asks-by r true e = (
    e,
    refl,
    refl,
    refl,
    refl,
    contains-flag_for F r.sids (flag_for F [] r.flags),
    contains_other r.sids r.flags binlog_dump_non_block refl,
    contains_other r.sids r.flags binlog_through_position refl,
  )
  Asks-by r false e = (e, refl, refl, refl, F.intersection_lem r.flags binlog_dump_non_block)

  -- The command of a request: with `use_gtid` a `ComBinlogDumpGtid` of the request's server, file,
  -- position and sids, with the flag `BINLOG_THROUGH_GTID` exactly if there is a sid and the other
  -- two flags exactly if the request has them; without it a `ComBinlogDump` of the server and the
  -- file, with the position cut to 32 bits and no flag but `BINLOG_DUMP_NON_BLOCK`.
  pub as_cmd-Asks : (r : BinlogRequest) → Asks r (as_cmd F r)
  unfolding as_cmd
  as_cmd-Asks r = Asks-by r r.use_gtid refl
