-- ===== src/Packets/SessionState.antt =====
-- src/packets/session_state_change.rs: the changes of a session that an Ok packet reports.
pub mod RoundTrip
use rust_mysql_common.Base.{
  ℕ, zero, suc, length, Bool, true, false, Option, none, some, List, [], ◌∷◌, ◌|>◌,
}
use rust_mysql_common.Base.Bytes.{Bytes}
use rust_mysql_common.Base.Result.{Result, ok, err, panic}
use rust_mysql_common.Io.BufMut.{BufMut}
use rust_mysql_common.Io.ParseBuf.{IoError, ◌>>=◌, map_parser, is_empty}
use rust_mysql_common.Raw.{MyDeserialize, MySerialize, parse_unchecked, serialize_bytes}
use rust_mysql_common.Raw.Text.{raw_bytes, serialize_raw, len_enc_bytes, eof_bytes, bytes_eq}
use rust_mysql_common.Raw.Sequence.{serialize_all}
use rust_mysql_common.Constants.{
  SessionStateType, session_track_system_variables, session_track_schema,
  session_track_state_change, session_track_gtids, session_track_transaction_characteristics,
  session_track_transaction_state,
}

pub record SystemVariable : Type 0 where
  pub name : Bytes
  pub value : Bytes

pub data SessionStateChange : Type 0 where
  is_tracked : Bool → SessionStateChange
  schema : Bytes → SessionStateChange
  system_variables : List SystemVariable → SessionStateChange
  gtids : Bytes → SessionStateChange
  transaction_characteristics : Bytes → SessionStateChange
  transaction_state : Bytes → SessionStateChange
  unsupported : Bytes → SessionStateChange

-- Runs of the loop over variables, `none` when their fuel is used up.
abbrev pub Run : Type 0 → Type 0
Run A = Option (Result IoError A)

-- `vars.push`
unfoldable pub push_variable :
    SystemVariable → Run (List SystemVariable) → Run (List SystemVariable)
push_variable var none = none
push_variable var (some (ok vars)) = some (ok (var ∷ vars))
push_variable var (some (err e)) = some (err e)
push_variable var (some panic) = some panic

-- The loop leaves nothing of the buffer.
unfoldable pub variables_change : Run (List SystemVariable) → Run (SessionStateChange × Bytes)
variables_change none = none
variables_change (some (ok vars)) = some (ok (system_variables vars, []))
variables_change (some (err e)) = some (err e)
variables_change (some panic) = some panic

module _ (B : BufMut) where
  -- `RawBytes<LenEnc>`
  abbrev pub text : MyDeserialize (Unit {0}) Bytes
  text = raw_bytes (len_enc_bytes B)

  unfoldable pub system_variable : MyDeserialize (Unit {0}) SystemVariable
  system_variable = record {
    size = none;
    deserialize = λ _. parse_unchecked text tt >>= λ name.
        map_parser (λ value. record { name = name; value = value }) (parse_unchecked text tt);
  }

  unfoldable pub serialize_system_variable : MySerialize SystemVariable
  serialize_system_variable v buf =
      buf |> serialize_raw (len_enc_bytes B) v.name |> serialize_raw (len_enc_bytes B) v.value

  -- The loop over the variables.
  unfoldable pub parse_variables : ℕ → Bytes → Run (List SystemVariable)
  parse_variables zero buf = none
  parse_variables (suc fuel) buf = elim (is_empty buf) [
    | true ↦ some (ok [])
    | false ↦ elim (parse_unchecked system_variable tt buf) [
      | ok (var, rest) ↦ push_variable var (parse_variables fuel rest)
      | err e ↦ some (err e)
      | panic ↦ some panic
    ]
  ]

  -- `SessionStateChange::deserialize`, with fuel for the bytes that there are.
  unfoldable pub session_state_change : SessionStateType → Bytes → Run (SessionStateChange × Bytes)
  session_state_change session_track_system_variables buf =
      variables_change (parse_variables (suc (length buf)) buf)
  session_state_change session_track_schema buf =
      some (map_parser schema (parse_unchecked text tt) buf)
  session_state_change session_track_state_change buf =
      some (map_parser (λ s. is_tracked (bytes_eq s (b'1' ∷ []))) (parse_unchecked text tt) buf)
  session_state_change session_track_gtids buf =
      some (map_parser gtids (parse_unchecked (raw_bytes (eof_bytes B)) tt) buf)
  session_state_change session_track_transaction_characteristics buf =
      some (map_parser transaction_characteristics (parse_unchecked text tt) buf)
  session_state_change session_track_transaction_state buf =
      some (map_parser transaction_state (parse_unchecked text tt) buf)

  unfoldable pub serialize_change : MySerialize SessionStateChange
  serialize_change (system_variables vars) buf = serialize_all serialize_system_variable vars buf
  serialize_change (schema s) buf = serialize_raw (len_enc_bytes B) s buf
  serialize_change (is_tracked true) buf = serialize_bytes B (1 ∷ b'1' ∷ []) buf
  serialize_change (is_tracked false) buf = serialize_bytes B (1 ∷ b'0' ∷ []) buf
  serialize_change (gtids s) buf = serialize_raw (eof_bytes B) s buf
  serialize_change (transaction_characteristics s) buf = serialize_raw (len_enc_bytes B) s buf
  serialize_change (transaction_state s) buf = serialize_raw (len_enc_bytes B) s buf
  serialize_change (unsupported s) buf = serialize_raw (len_enc_bytes B) s buf
