-- ===== src/Packets/Errors.antt =====
-- src/packets/mod.rs: the error packet, with the error or the progress report that it holds.
use rust_mysql_common.Base.{ℕ, Bool, ◌&&◌, none, [], ◌∷◌, ◌==◌, if◌then◌else◌, ◌|>◌}
use rust_mysql_common.Base.Bytes.{Bytes}
use rust_mysql_common.Base.Result.{panic}
use rust_mysql_common.Io.BufMut.{BufMut}
use rust_mysql_common.Io.ParseBuf.{Parser, ◌>>=◌, map_parser, skip}
use rust_mysql_common.Raw.{
  MyDeserialize, MySerialize, parse, parse_unchecked, parse_buf, within, byte_array,
}
use rust_mysql_common.Raw.Int.{
  raw_int, serialize_int, u8, le_u16, le_u24, const_u8, serialize_const_u8,
}
use rust_mysql_common.Raw.Text.{raw_bytes, serialize_raw, len_enc_bytes, eof_bytes}
use rust_mysql_common.Constants.Flags.{Bitflags, client_progress_obsolete}
pub mod Behaviour

pub record ProgressReport : Type 0 where
  pub stage : ℕ
  pub max_stage : ℕ
  pub progress : ℕ
  pub stage_info : Bytes

pub record ServerError : Type 0 where
  pub code : ℕ
  pub state : Bytes
  pub message : Bytes

pub data ErrPacket : Type 0 where
  error : ServerError → ErrPacket
  progress : ProgressReport → ErrPacket

abbrev pub err_header : ℕ
err_header = 0xff

-- `b"HY000"`
abbrev pub general_state : Bytes
general_state = b'H' ∷ b'Y' ∷ b'0' ∷ b'0' ∷ b'0' ∷ []

module _ (B : BufMut) where
  open B use {put_u8, put_slice}

  -- The numbers of a report, behind the number of strings, which is skipped.
  abbrev pub report_head : Parser (ℕ × ℕ × ℕ)
  report_head = skip 1 >>= λ skipped. parse_unchecked (raw_int (u8 B)) tt >>= λ stage.
      parse_unchecked (raw_int (u8 B)) tt >>= λ max_stage.
      map_parser (λ permille. (stage, max_stage, permille))
        (parse_unchecked (raw_int (le_u24 B)) tt)

  unfoldable pub progress_report : MyDeserialize (Unit {0}) ProgressReport
  progress_report = record {
    size = none;
    deserialize = λ _. parse parse_buf 6 >>= within report_head >>= λ (stage, max_stage, permille).
        map_parser
          (λ stage_info. record {
            stage = stage;
            max_stage = max_stage;
            progress = permille;
            stage_info = stage_info;
          })
          (parse (raw_bytes (len_enc_bytes B)) tt);
  }

  unfoldable pub serialize_progress_report : MySerialize ProgressReport
  serialize_progress_report p buf =
      put_u8 buf 1
      |> serialize_int (u8 B) p.stage
      |> serialize_int (u8 B) p.max_stage
      |> serialize_int (le_u24 B) p.progress
      |> serialize_raw (len_enc_bytes B) p.stage_info

  abbrev pub with_state : ℕ → Parser ServerError
  with_state code = skip 1 >>= λ skipped. parse (byte_array 5) tt >>= λ state.
      map_parser (λ message. record { code = code; state = state; message = message })
        (parse (raw_bytes (eof_bytes B)) tt)

  abbrev pub without_state : ℕ → Parser ServerError
  without_state code =
      map_parser (λ message. record { code = code; state = general_state; message = message })
        (parse (raw_bytes (eof_bytes B)) tt)

  -- `buf.0[0]` panics on an empty buffer.
  unfoldable pub server_error_body : ℕ → Parser ServerError
  server_error_body code [] = panic
  server_error_body code (b ∷ bytes) =
      if b == b'#' then with_state code (b ∷ bytes) else without_state code (b ∷ bytes)

  unfoldable pub server_error : MyDeserialize ℕ ServerError
  server_error = record { size = none; deserialize = server_error_body }

  unfoldable pub serialize_server_error : MySerialize ServerError
  serialize_server_error p buf =
      put_u8 buf b'#' |> (λ buf. put_slice buf p.state) |> serialize_raw (eof_bytes B) p.message

  abbrev pub err_head : Parser ℕ
  err_head =
      parse_unchecked (const_u8 err_header) tt >>= λ header. parse_unchecked (raw_int (le_u16 B)) tt

  unfoldable pub serialize_err_packet : MySerialize ErrPacket
  serialize_err_packet (error server_error) buf =
      buf
      |> serialize_const_u8 B err_header
      |> serialize_int (le_u16 B) server_error.code
      |> serialize_server_error server_error
  serialize_err_packet (progress report) buf =
      buf
      |> serialize_const_u8 B err_header
      |> serialize_int (le_u16 B) 0xffff
      |> serialize_progress_report report

  module _ (F : Bitflags) where
    -- Whether an error code stands for a progress report.
    abbrev pub is_progress : ℕ → ℕ → Bool
    is_progress capabilities code =
        (code == 0xffff) && F.contains capabilities client_progress_obsolete

    abbrev pub err_body : ℕ → ℕ → Parser ErrPacket
    err_body capabilities code =
        if is_progress capabilities code
        then map_parser progress (parse progress_report tt)
        else map_parser error (parse server_error code)

    -- The context is the capabilities.
    unfoldable pub err_packet : MyDeserialize ℕ ErrPacket
    err_packet = record {
      size = none;
      deserialize = λ capabilities. parse parse_buf 3 >>= within err_head >>= err_body capabilities;
    }
