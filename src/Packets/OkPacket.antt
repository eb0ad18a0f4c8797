-- ===== src/Packets/OkPacket.antt =====
-- src/packets/mod.rs: the packets that report success or an end, and the session's state in them.
pub mod Payload
use rust_mysql_common.Base.{
  ℕ, zero, suc, length, Bool, true, false, not, ◌&&◌, Option, none, some, List, [], ◌∷◌, ltb, ◌==◌,
  if◌then◌else◌, ◌|>◌,
}
use rust_mysql_common.Base.Bytes.{Bytes}
use rust_mysql_common.Base.Result
use rust_mysql_common.Base.Result.{Result, ok, err, panic}
use rust_mysql_common.Io.BufMut.{BufMut}
use rust_mysql_common.Io.ParseBuf.{IoError, invalid_data, Parser, pure, ◌>>=◌, map_parser, is_empty}
use rust_mysql_common.Raw.{MyDeserialize, MySerialize, parse, parse_unchecked, parse_buf, within}
use rust_mysql_common.Raw.Int.{raw_int, u8, le_u16, len_enc}
use rust_mysql_common.Raw.Text.{raw_bytes, serialize_raw, len_enc_bytes}
use rust_mysql_common.Raw.Constant.{constant, serialize_constant}
use rust_mysql_common.Constants.{
  SessionStateType, session_state_type_u8, session_state_type_try_from,
}
use rust_mysql_common.Constants.Flags.{
  Bitflags, all_status_flags, client_session_track, server_session_state_changed,
}

pub record OkPacketBody : Type 0 where
  pub affected_rows : ℕ
  pub last_insert_id : ℕ
  pub status_flags : ℕ
  pub warnings : ℕ
  pub info : Bytes
  pub session_state_info : Bytes

pub record OkPacket : Type 0 where
  pub affected_rows : ℕ
  pub last_insert_id : Option ℕ
  pub status_flags : ℕ
  pub warnings : ℕ
  pub info : Option Bytes
  pub session_state_info : Option Bytes

-- The kinds of packet, `OkPacketKind`.
pub data OkPacketKind : Type 0 where
  result_set_terminator old_eof_packet network_stream_terminator common_ok_packet : OkPacketKind

unfoldable pub header : OkPacketKind → ℕ
header result_set_terminator = 0xfe
header old_eof_packet = 0xfe
header network_stream_terminator = 0xfe
header common_ok_packet = 0x00

-- `buf.0[0] > 0`, where the buffer is not empty.
abbrev pub first_positive : Bytes → Bool
first_positive [] = false
first_positive (b ∷ bytes) = ltb 0 b

-- `Some`, unless the bytes are empty.
abbrev pub some_bytes : Bytes → Option Bytes
some_bytes [] = none
some_bytes (b ∷ bytes) = some (b ∷ bytes)

-- `OkPacket::try_from`
unfoldable pub ok_packet_try_from : OkPacketBody → OkPacket
ok_packet_try_from body = record {
  affected_rows = body.affected_rows;
  last_insert_id = if body.last_insert_id == 0 then none else some body.last_insert_id;
  status_flags = body.status_flags;
  warnings = body.warnings;
  info = some_bytes body.info;
  session_state_info = some_bytes body.session_state_info;
}

module _ (B : BufMut) (F : Bitflags) where
  abbrev pub status : MyDeserialize (Unit {0}) ℕ
  status = constant (le_u16 B) (F.from_bits all_status_flags)

  abbrev pub string : Parser Bytes
  string = parse (raw_bytes (len_enc_bytes B)) tt

  abbrev pub number : Parser ℕ
  number = parse (raw_int (len_enc B)) tt

  -- The `status_flags` and the `warnings`.
  abbrev pub status_and_warnings : Parser (ℕ × ℕ)
  status_and_warnings = parse_unchecked status tt >>= λ status_flags.
      map_parser (λ warnings. (status_flags, warnings)) (parse_unchecked (raw_int (le_u16 B)) tt)

  abbrev pub warnings_and_status : Parser (ℕ × ℕ)
  warnings_and_status = parse_unchecked (raw_int (le_u16 B)) tt >>= λ warnings.
      map_parser (λ status_flags. (warnings, status_flags)) (parse_unchecked status tt)

  -- The session's state, if the flags say that it changed.
  abbrev pub changed_state : Bool → Parser Bytes
  changed_state true = string
  changed_state false = pure []

  abbrev pub tracked_texts : Bool → Parser (Bytes × Bytes)
  tracked_texts changed = string >>= λ info.
      map_parser (λ session_state_info. (info, session_state_info)) (changed_state changed)

  unfoldable pub texts_with : Bool → Bool → Parser (Bytes × Bytes)
  texts_with tracked changed buf =
      if tracked && not (is_empty buf)
      then tracked_texts changed buf
      else if first_positive buf
      then map_parser (λ info. (info, [])) string buf
      else pure ([], []) buf

  -- The `info` and the `session_state_info`.
  unfoldable pub texts : ℕ → ℕ → Parser (Bytes × Bytes)
  texts capabilities status_flags =
      texts_with (F.contains capabilities client_session_track)
        (F.contains status_flags server_session_state_changed)

  -- What stands behind the rows and the id.
  abbrev pub body_behind : ℕ → ℕ → ℕ → Parser OkPacketBody
  body_behind capabilities affected_rows last_insert_id =
      parse parse_buf 4 >>= within status_and_warnings >>= λ (status_flags, warnings).
      map_parser
        (λ (info, session_state_info). record {
          affected_rows = affected_rows;
          last_insert_id = last_insert_id;
          status_flags = status_flags;
          warnings = warnings;
          info = info;
          session_state_info = session_state_info;
        })
        (texts capabilities status_flags)

  abbrev pub eof_body : Parser OkPacketBody
  eof_body =
      map_parser
        (λ (warnings, status_flags). record {
          affected_rows = 0;
          last_insert_id = 0;
          status_flags = status_flags;
          warnings = warnings;
          info = [];
          session_state_info = [];
        })
        (parse parse_buf 4 >>= within warnings_and_status)

  -- `OkPacketKind::parse_body`; the rows and the id of a terminator are skipped.
  unfoldable pub parse_body : OkPacketKind → ℕ → Parser OkPacketBody
  parse_body result_set_terminator capabilities =
      number >>= λ rows. number >>= λ id. body_behind capabilities 0 0
  parse_body old_eof_packet capabilities = eof_body
  parse_body network_stream_terminator capabilities = eof_body
  parse_body common_ok_packet capabilities = number >>= λ affected_rows.
      number >>= λ last_insert_id. body_behind capabilities affected_rows last_insert_id

  -- `OkPacketDeserializer`
  unfoldable pub ok_packet : OkPacketKind → MyDeserialize ℕ OkPacket
  ok_packet kind = record {
    size = none;
    deserialize = λ capabilities. parse (raw_int (u8 B)) tt >>= λ byte.
        if byte == header kind
        then map_parser ok_packet_try_from (parse_body kind capabilities)
        else (λ buf. err invalid_data);
  }

pub record SessionStateInfo : Type 0 where
  pub data_type : SessionStateType
  pub content : Bytes

module _ (B : BufMut) where
  unfoldable pub session_state_info : MyDeserialize (Unit {0}) SessionStateInfo
  session_state_info = record {
    size = none;
    deserialize = λ _. parse (constant (u8 B) session_state_type_try_from) tt >>= λ data_type.
        map_parser (λ content. record { data_type = data_type; content = content })
          (parse (raw_bytes (len_enc_bytes B)) tt);
  }

  unfoldable pub serialize_session_state_info : MySerialize SessionStateInfo
  serialize_session_state_info p buf =
      buf
      |> serialize_constant (u8 B) session_state_type_u8 p.data_type
      |> serialize_raw (len_enc_bytes B) p.content

  -- The loop of `OkPacket::session_state_info`: `none` if it is not left within `fuel` rounds.
  unfoldable pub session_state_infos : ℕ → Bytes → Option (Result IoError (List SessionStateInfo))
  session_state_infos zero bytes = none
  session_state_infos (suc fuel) [] = some (ok [])
  session_state_infos (suc fuel) (b ∷ bytes) = elim (parse session_state_info tt (b ∷ bytes)) [
    | ok (entry, rest) ↦ elim (session_state_infos fuel rest) [
      | some entries ↦ some (Result.◌>>=◌ entries (λ es. ok (entry ∷ es)))
      | none ↦ none
    ]
    | err e ↦ some (err e)
    | panic ↦ some panic
  ]

  -- `OkPacket::session_state_info`, with fuel for the bytes that there are.
  unfoldable pub session_state_info_of : OkPacket → Option (Result IoError (List SessionStateInfo))
  session_state_info_of p = elim (p.session_state_info) [
    | some bytes ↦ session_state_infos (suc (length bytes)) bytes
    | none ↦ some (ok [])
  ]
