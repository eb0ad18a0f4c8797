-- ===== src/Packets/Gtid/Flags.antt =====
-- src/packets/mod.rs: the methods that build a `ComBinlogDumpGtid` and its flag
-- `BINLOG_THROUGH_GTID`.
use rust_mysql_common.Base.{
  ℕ, ◌≡◌, refl, sym, ap, ◌∙◌, true, false, not, List, [], ◌∷◌, ◌++◌, ◌==◌, bit_and, ==_iff,
}
use rust_mysql_common.Base.Bits.{bit_and-bit_or, bit_and-minus}
use rust_mysql_common.Base.Bytes.{Bytes}
use rust_mysql_common.Constants.Flags.{Bitflags}
use rust_mysql_common.Packets.Replication.{binlog_through_gtid}
use rust_mysql_common.Packets.Gtid.{
  Sid, ComBinlogDumpGtid, new, with_filename, with_server_id, with_pos, is_empty, flag_for,
  with_flags, with_sid, with_sids,
}

module _ (F : Bitflags) where
  contains-insert : (flags other : ℕ) → F.contains (F.insert flags other) other ≡ true
  contains-insert flags other =
      F.contains_lem (F.insert flags other) other
      ∙ ap (λ t. bit_and t other == other) (F.insert_lem flags other)
      ∙ (==_iff _ other).1 (bit_and-bit_or flags other)

  contains-remove :
      (flags : ℕ) → F.contains (F.remove flags binlog_through_gtid) binlog_through_gtid ≡ false
  contains-remove flags =
      F.contains_lem (F.remove flags binlog_through_gtid) binlog_through_gtid
      ∙ ap (λ t. bit_and t 4 == 4) (F.remove_lem flags binlog_through_gtid)
      ∙ ap (λ t. t == 4) (bit_and-minus flags 4)

  pub contains-flag_for :
      (sids : List Sid) (flags : ℕ)
      → F.contains (flag_for F sids flags) binlog_through_gtid ≡ not (is_empty sids)
  contains-flag_for [] flags = contains-remove flags
  contains-flag_for (sid ∷ sids) flags = contains-insert flags binlog_through_gtid

  is_empty-append : (sids : List Sid) (sid : Sid) → is_empty (sids ++ (sid ∷ [])) ≡ false
  is_empty-append [] sid = refl
  is_empty-append (s ∷ sids) sid = refl

  -- A packet that the methods of `ComBinlogDumpGtid` build.
  pub data Built : ComBinlogDumpGtid → Type 0 where
    from_new : (server_id : ℕ) → Built (new server_id)
    by_filename :
        (filename : Bytes) (p : ComBinlogDumpGtid) → Built p → Built (with_filename filename p)
    by_server_id :
        (server_id : ℕ) (p : ComBinlogDumpGtid) → Built p → Built (with_server_id server_id p)
    by_pos : (pos : ℕ) (p : ComBinlogDumpGtid) → Built p → Built (with_pos pos p)
    by_flags : (flags : ℕ) (p : ComBinlogDumpGtid) → Built p → Built (with_flags F flags p)
    by_sid : (sid : Sid) (p : ComBinlogDumpGtid) → Built p → Built (with_sid F sid p)
    by_sids : (sids : List Sid) (p : ComBinlogDumpGtid) → Built p → Built (with_sids F sids p)

  -- Every packet that the methods build has the flag `BINLOG_THROUGH_GTID` exactly if it names
  -- a sid.
  pub Built-through_gtid :
      (p : ComBinlogDumpGtid)
      → Built p
      → F.contains p.flags binlog_through_gtid ≡ not (is_empty p.sid_block)
  unfolding new with_filename with_server_id with_pos with_flags with_sid with_sids
  Built-through_gtid p (from_new server_id) = F.contains_lem 0 binlog_through_gtid
  Built-through_gtid p (by_filename filename q h) = Built-through_gtid q h
  Built-through_gtid p (by_server_id server_id q h) = Built-through_gtid q h
  Built-through_gtid p (by_pos pos q h) = Built-through_gtid q h
  Built-through_gtid p (by_flags flags q h) = contains-flag_for q.sid_block flags
  Built-through_gtid p (by_sid sid q h) =
      contains-insert q.flags binlog_through_gtid ∙ sym (ap not (is_empty-append q.sid_block sid))
  Built-through_gtid p (by_sids sids q h) = contains-flag_for sids q.flags
