-- ===== src/Tests/Packets.antt =====
-- The theorems on packets and on answers to a nonce at concrete inputs.
use rust_mysql_common.Base.{
  suc, ap, ℕ, ◌^◌, ◌-◌, ◌+◌, ◌*◌, ◌<◌, ◌≡◌, ◌≢◌, refl, true, not, Option, none, some, [], ◌∷◌, ◌++◌,
  ◌==◌, ==_iff, if◌then◌else◌, Bool-cases, inl, inr, bit_and, bit_or, arith, length, length-append,
  length-take, take, replicate, append_assoc,
}
use rust_mysql_common.Base.Bytes.{Bytes, to_le_bytes}
use rust_mysql_common.Base.Result.{ok, err}
use rust_mysql_common.Io.BufMut.{vec_buf_mut}
use rust_mysql_common.Io.ParseBuf.{unexpected_eof}
use rust_mysql_common.Raw.{parse}
use rust_mysql_common.Raw.Parse.{RoundTrips, WholeTrips}
use rust_mysql_common.Raw.Texts.{length-replicate}
use rust_mysql_common.Constants.Flags.{Bitflags, union, all_status_flags}
use rust_mysql_common.Packets.Sequences.{seq_bytes}
use rust_mysql_common.Packets.Replication.{
  ComRegisterSlave, ComTableDump, ComBinlogDump, SemiSyncAckPacket, serialize_register_slave,
  register_slave, serialize_table_dump, table_dump, serialize_semi_sync_ack, semi_sync_ack,
  serialize_binlog_dump, binlog_dump, binlog_through_gtid, all_binlog_dump_flags,
}
use rust_mysql_common.Packets.Replication.RoundTrip.{commands-RoundTrip}
use rust_mysql_common.Packets.Gtid.{
  Sid, ComBinlogDumpGtid, sid_block_len, serialize_binlog_dump_gtid, binlog_dump_gtid, new,
  with_sid, is_empty,
}
use rust_mysql_common.Packets.Gtid.RoundTrip.{sid_bytes, binlog_dump_gtid-RoundTrips}
use rust_mysql_common.Packets.Gtid.Flags.{from_new, by_sid, Built-through_gtid}
use rust_mysql_common.Packets.NullBitmap.{server_side, bitmap_len, set, is_null}
use rust_mysql_common.Packets.NullBitmap.Laws.{is_null-set}
use rust_mysql_common.Packets.Errors.{ErrPacket, error, serialize_err_packet, err_packet}
use rust_mysql_common.Packets.Errors.Behaviour.{
  err_packet-WholeTrips, too_short, err_packet-Refused,
}
use rust_mysql_common.Packets.OkPacket.{
  OkPacketBody, common_ok_packet, ok_packet_try_from, ok_packet,
}
use rust_mysql_common.Packets.OkPacket.Payload.{payload, told, ok_packet-payload}
use rust_mysql_common.Packets.Handshake.{HandshakePacket, serialize_handshake, handshake_packet}
use rust_mysql_common.Packets.Handshake.Texts.{data_len}
use rust_mysql_common.Packets.Handshake.RoundTrip.{handshake_packet-reads}
use rust_mysql_common.Packets.Auth.{
  AuthPlugin, other, as_bytes, auth_plugin, AuthSwitchRequest, requested_plugin,
  serialize_auth_plugin, auth_switch_request, serialize_auth_switch_request,
}
use rust_mysql_common.Packets.Auth.RoundTrip.{auth_switch-WholeTrips}
use rust_mysql_common.Scramble.{
  Hasher, xor, scramble_native, scramble_sha256, init, my_rnd, max_value,
}
use rust_mysql_common.Scramble.Answer.{scramble_native-answer, scramble_sha256-answer}
use rust_mysql_common.Scramble.Rand.{from_init, by_rnd, Reached-fits}

-- Flags that are numbers.
abbrev pub known_bits : ℕ → ℕ → Option ℕ
known_bits all bits = if bit_and bits all == bits then some bits else none

pub unknown_bits : (all bits : ℕ) → bit_and bits all ≢ bits → known_bits all bits ≡ none
unknown_bits all bits h = elim (Bool-cases (bit_and bits all == bits)) [
  | inl e ↦ absurd (h ((==_iff (bit_and bits all) bits).0 e))
  | inr e ↦ rw e
]

abbrev pub number_flags : Bitflags
number_flags = record {
  from_bits = known_bits;
  from_bits_truncate = λ all bits. bit_and bits all;
  contains = λ flags other. bit_and flags other == other;
  insert = λ flags other. bit_or flags other;
  remove = λ flags other. flags - bit_and flags other;
  intersection = λ flags other. bit_and flags other;
  from_bits_lem = λ all bits h. rw ((==_iff (bit_and bits all) bits).1 h);
  from_bits_unknown = unknown_bits;
  from_bits_truncate_lem = λ all bits. refl;
  contains_lem = λ flags other. refl;
  insert_lem = λ flags other. refl;
  intersection_lem = λ flags other. refl;
  remove_lem = λ flags other. refl;
}

-- A hasher that keeps the bytes, whose digest is their first `size`, filled with zeros.
abbrev cut : ℕ → Bytes → Bytes
cut size bytes = take size (bytes ++ replicate size 0)

length-cut : (size : ℕ) (bytes : Bytes) → length (cut size bytes) ≡ size
length-cut size bytes = omega (
  arith,
  length-take size (bytes ++ replicate size 0),
  length-append bytes (replicate size 0),
  length-replicate size 0,
)

abbrev cutting : (size : ℕ) → Hasher size
cutting size = record {
  State = Bytes;
  new = [];
  update = λ s bytes. s ++ bytes;
  finalize = cut size;
  digest = cut size;
  digest_lem = λ bytes. refl;
  update_lem = append_assoc;
  length-digest = length-cut size;
}

scramble_native-answer_example :
    (token : Bytes) × (scramble_native (cutting 20) (1 ∷ 2 ∷ []) (b'p' ∷ b'w' ∷ []) ≡ some token)
    × (length token ≡ 20)
    × (xor token (cut 20 (1 ∷ 2 ∷ [] ++ cut 20 (cut 20 (b'p' ∷ b'w' ∷ []))))
        ≡ cut 20 (b'p' ∷ b'w' ∷ []))
scramble_native-answer_example = scramble_native-answer (cutting 20) (1 ∷ 2 ∷ []) b'p' (b'w' ∷ [])

scramble_sha256-answer_example :
    (token : Bytes) × (scramble_sha256 (cutting 32) (1 ∷ 2 ∷ []) (b'p' ∷ b'w' ∷ []) ≡ some token)
    × (length token ≡ 32)
    × (xor token (cut 32 (cut 32 (cut 32 (b'p' ∷ b'w' ∷ [])) ++ 1 ∷ 2 ∷ []))
        ≡ cut 32 (b'p' ∷ b'w' ∷ []))
scramble_sha256-answer_example = scramble_sha256-answer (cutting 32) (1 ∷ 2 ∷ []) b'p' (b'w' ∷ [])

Reached-fits_example :
    ((my_rnd (init 5 7)).seed1 < max_value)
    × ((my_rnd (init 5 7)).seed2 < max_value)
    × ((my_rnd (init 5 7)).seed1 * 3 + (my_rnd (init 5 7)).seed2 < 2 ^ 32)
    × ((my_rnd (my_rnd (init 5 7))).seed1 + (my_rnd (init 5 7)).seed2 + 33 < 2 ^ 32)
Reached-fits_example = Reached-fits (my_rnd (init 5 7)) (by_rnd (init 5 7) (from_init 5 7))

is_null-set_example :
    (bitmap' : Bytes) × (set server_side (0 ∷ 0 ∷ []) 6 true ≡ ok bitmap')
    × (length bitmap' ≡ bitmap_len server_side 7)
    × (is_null server_side bitmap' 6 ≡ ok true)
    × (is_null server_side bitmap' 5 ≡ is_null server_side (0 ∷ 0 ∷ []) 5)
unfolding bitmap_len
is_null-set_example =
    is_null-set server_side 7 6 5 (0 ∷ 0 ∷ []) true refl (omega arith) (omega arith)
      (λ e. absurd (omega arith))

-- A packet that names the transactions 1 to 4 of a server.
abbrev one_sid : Sid
one_sid = record { uuid = replicate 16 7; intervals = record { start = 1; end = 5 } ∷ [] }

abbrev one_dump : ComBinlogDumpGtid
one_dump = record {
  flags = binlog_through_gtid;
  server_id = 9;
  filename = b'b' ∷ [];
  pos = 4;
  sid_block = one_sid ∷ [];
}

binlog_dump_gtid-RoundTrips_example :
    (sid_block_len (one_sid ∷ []) ≡ length (seq_bytes sid_bytes (one_sid ∷ [])))
    × RoundTrips
        (serialize_binlog_dump_gtid vec_buf_mut number_flags)
        (binlog_dump_gtid vec_buf_mut number_flags 40)
        tt
        one_dump
unfolding all_binlog_dump_flags union to_le_bytes
binlog_dump_gtid-RoundTrips_example =
    binlog_dump_gtid-RoundTrips vec_buf_mut number_flags 40 one_dump (
      omega arith,
      refl,
      omega arith,
      omega arith,
      omega arith,
      ((refl, omega arith, ((omega arith, omega arith), tt)), tt),
      omega arith,
      omega arith,
      omega arith,
    )

Built-through_gtid_example :
    (bit_and (with_sid number_flags one_sid (new 9)).flags binlog_through_gtid
      == binlog_through_gtid)
    ≡ not (is_empty (with_sid number_flags one_sid (new 9)).sid_block)
Built-through_gtid_example =
    Built-through_gtid number_flags (with_sid number_flags one_sid (new 9))
      (by_sid one_sid (new 9) (from_new 9))

abbrev one_slave : ComRegisterSlave
one_slave = record {
  server_id = 9;
  hostname = b'h' ∷ [];
  user = [];
  password = [];
  port = 3306;
  replication_rank = 0;
  master_id = 0;
}

abbrev one_table : ComTableDump
one_table = record { database = b'd' ∷ []; table = b't' ∷ [] }

abbrev one_binlog : ComBinlogDump
one_binlog = record { pos = 4; flags = 1; server_id = 9; filename = b'b' ∷ [] }

abbrev one_ack : SemiSyncAckPacket
one_ack = record { position = 4; filename = b'b' ∷ [] }

commands-RoundTrip_example :
    RoundTrips (serialize_register_slave vec_buf_mut) (register_slave vec_buf_mut) tt one_slave
    × RoundTrips (serialize_table_dump vec_buf_mut) (table_dump vec_buf_mut) tt one_table
    × WholeTrips
        (serialize_binlog_dump vec_buf_mut number_flags)
        (binlog_dump vec_buf_mut number_flags)
        tt
        one_binlog
    × WholeTrips (serialize_semi_sync_ack vec_buf_mut) (semi_sync_ack vec_buf_mut) tt one_ack
unfolding all_binlog_dump_flags union
commands-RoundTrip_example =
    commands-RoundTrip vec_buf_mut number_flags one_slave one_table one_binlog one_ack
      (omega arith, omega arith, omega arith, omega arith, omega arith, omega arith, omega arith)
      (omega arith, omega arith) (omega arith, omega arith, refl, omega arith) (omega arith)

abbrev one_error : ErrPacket
one_error = error (record {
  code = 1096;
  state = b'H' ∷ b'Y' ∷ b'0' ∷ b'0' ∷ b'0' ∷ [];
  message = b'N' ∷ b'o' ∷ [];
})

err_packet-WholeTrips_example :
    WholeTrips (serialize_err_packet vec_buf_mut) (err_packet vec_buf_mut number_flags) 0 one_error
err_packet-WholeTrips_example =
    err_packet-WholeTrips vec_buf_mut number_flags 0 one_error (omega arith, refl, refl)

err_packet-Refused_example :
    parse (err_packet vec_buf_mut number_flags) 0 (0xff ∷ []) ≡ err unexpected_eof
err_packet-Refused_example =
    err_packet-Refused vec_buf_mut number_flags 0 (0xff ∷ []) (err unexpected_eof)
      (too_short (0xff ∷ []) (omega arith))

abbrev one_body : OkPacketBody
one_body = record {
  affected_rows = 1;
  last_insert_id = 0;
  status_flags = 2;
  warnings = 0;
  info = b'i' ∷ [];
  session_state_info = [];
}

ok_packet-payload_example :
    parse
      (ok_packet vec_buf_mut number_flags common_ok_packet)
      0
      (payload vec_buf_mut number_flags common_ok_packet 0 one_body)
    ≡ ok (ok_packet_try_from (told vec_buf_mut number_flags common_ok_packet 0 one_body), [])
unfolding all_status_flags union
ok_packet-payload_example =
    ok_packet-payload vec_buf_mut number_flags common_ok_packet 0 one_body
      (omega arith, omega arith, omega arith, refl, omega arith, omega arith, omega arith)

-- The handshake of a server with a scramble of 21 bytes.
abbrev one_handshake : HandshakePacket
one_handshake = record {
  protocol_version = 10;
  server_version = b'8' ∷ [];
  connection_id = 5;
  scramble_1 = replicate 8 1;
  capabilities_1 = 0x8000;
  default_collation = 33;
  status_flags = 2;
  capabilities_2 = 0x1008_0000;
  auth_plugin_data_len = 13;
  scramble_2 = some (replicate 13 2);
  auth_plugin_name = some (b'n' ∷ []);
}

handshake_packet-reads_example :
    (written : Bytes) × ((buf : Bytes)
      → serialize_handshake vec_buf_mut number_flags one_handshake buf ≡ buf ++ written)
    × (parse (handshake_packet vec_buf_mut number_flags) tt written
        ≡ ok (
          record one_handshake {
            auth_plugin_data_len =
                data_len vec_buf_mut number_flags 0x1008_0000 (some (replicate 13 2));
          },
          [],
        ))
unfolding all_status_flags union
handshake_packet-reads_example = handshake_packet-reads vec_buf_mut number_flags one_handshake (
  omega arith,
  ((λ e. absurd (omega arith)), tt),
  omega arith,
  refl,
  omega arith,
  omega arith,
  omega arith,
  refl,
  omega arith,
  refl,
  (refl, refl, omega arith, omega arith, ((λ e. absurd (omega arith)), tt)),
)

-- A plugin without a constructor of its own.
abbrev own_plugin : AuthPlugin
own_plugin = other (b'x' ∷ [])

abbrev one_request : AuthSwitchRequest
one_request = record { auth_plugin = as_bytes own_plugin; plugin_data = 1 ∷ 2 ∷ [] }

longer : (n : ℕ) (name : Bytes) → length name ≡ suc (suc n) → b'x' ∷ [] ≢ name
longer n name h e = let k : ◌≡◌ {A = ℕ} 1 (length name) = ap length e in absurd (omega arith)

auth_switch-WholeTrips_example :
    WholeTrips (serialize_auth_plugin vec_buf_mut) auth_plugin tt own_plugin
    × WholeTrips
        (serialize_auth_switch_request vec_buf_mut)
        (auth_switch_request vec_buf_mut)
        tt
        one_request
    × (requested_plugin one_request ≡ own_plugin)
auth_switch-WholeTrips_example = auth_switch-WholeTrips vec_buf_mut own_plugin (1 ∷ 2 ∷ []) (
  ((λ e. absurd (omega arith)), tt),
  longer 19 _ refl,
  longer 19 _ refl,
  longer 16 _ refl,
  longer 18 _ refl,
)
