-- ===== src/Tests.antt =====
-- Runs of the modelled code on concrete inputs, and the theorems at concrete inputs.
mod Columns
mod Decoding
mod Packets
mod Sequences
mod Session
mod Stream
use rust_mysql_common.Base.{
  ℕ, suc, ◌-◌, ◌%◌, ◌^◌, ◌≡◌, ◌≢◌, ◌↔◌, ◌⊎◌, refl, none, some, [], ◌∷◌, ◌++◌, arith, length, take,
  take_all, sym, drop, replicate, All, if◌then◌else◌,
}
use rust_mysql_common.Tests.Stream.{vec_buf}
use rust_mysql_common.Base.Bytes.{Bytes, IsByte}
use rust_mysql_common.Base.Int.{pos, negsuc, wrap}
use rust_mysql_common.Base.Result as Outcomes
use rust_mysql_common.Io.BufMut.{vec_buf_mut}
use rust_mysql_common.Io.Write.{put_lenenc_int, put_lenenc_str, put_u8_str, put_u32_str}
use rust_mysql_common.Io.ParseBuf.{eat_num_le, eat_num_be, eat_sized_le, eat_sized_be}
use rust_mysql_common.Io.Lenenc.{
  eat_lenenc_int, checked_eat_lenenc_int, eat_lenenc_str, checked_eat_lenenc_str, eat_u8_str,
  checked_eat_u8_str, eat_u32_str, checked_eat_u32_str, eat_null_str, lenenc_int_len,
  lenenc_str_len,
}
use rust_mysql_common.Io.Numbers.{eat_sized-eq-eat_num}
use rust_mysql_common.Io.RoundTrip.{
  checked_eat_lenenc_int-put_lenenc_int, checked_eat_lenenc_str-put_lenenc_str, sized_strings-read,
}
use rust_mysql_common.Io.Checked.{unwrap, checked_twins, ReturnsAt, checked_readers-ReturnsAt}
use rust_mysql_common.Io.NullStr.{NoNull, eat_null_str_cases}
use rust_mysql_common.Codec.Crates.{Buf, vec_bytes_mut}
use rust_mysql_common.Codec.Chunks.{packet_to_chunks}
use rust_mysql_common.Codec.Chunks.Frames.{frames, frames_next, packet_to_chunks-frames}
use rust_mysql_common.Codec.Outcome as Codec_outcomes
use rust_mysql_common.Codec.Plain.{plain_decode, plain_encode}
use rust_mysql_common.Codec.RoundTrip.{at_id, Decoded, plain_decode-plain_encode}
use rust_mysql_common.NamedParams
use rust_mysql_common.NamedParams.{parse_named_params}
use rust_mysql_common.NamedParams.Explained.{Explains, parse_named_params-Explains}
use rust_mysql_common.Params
use rust_mysql_common.Params.{NameMap, name_eq, into_positional}
use rust_mysql_common.Params.Positional.{look_up, into_positional-look_up}
use rust_mysql_common.Raw.{parse}
use rust_mysql_common.Raw.Int.{raw_int, serialize_int, le_i24}
use rust_mysql_common.Raw.VarLen.{serialize_var_len}
use rust_mysql_common.Raw.VarLenRuns.{serialize_var_len_loops}
use rust_mysql_common.Raw.Parse.{ReadsAs, RoundTrips}
use rust_mysql_common.Raw.Unsigned.{upper_half, representation, representation-RoundTrips}
use rust_mysql_common.Raw.Signed.{s16, signed_repr, signed-RoundTrips, le_i24-loses_sign}
use rust_mysql_common.Raw.Text.{
  raw_bytes, serialize_raw, len_enc_bytes, null_bytes, fixed_length_text,
}
use rust_mysql_common.Raw.Texts.{
  len_enc_bytes-RoundTrips, null_bytes-RoundTrips, fixed_length_text-ReadsAs,
}
use rust_mysql_common.Constants.{
  session_state_type_u8, session_state_type_try_from, session_track_gtids, geometry_type_u8,
  geometry_type_try_from, geom_polygon, column_type_u8, column_type_try_from, mysql_type_json,
  mysql_type_newdate, mysql_type_long,
}
use rust_mysql_common.Constants.RoundTrip.{enumerations_iff}

-- `:a`, a blank, `:b`
abbrev two_params : Bytes
two_params = b':' ∷ b'a' ∷ b' ' ∷ b':' ∷ b'b' ∷ []

two_params_run :
    parse_named_params two_params
    ≡ NamedParams.parsed (some ((b'a' ∷ []) ∷ (b'b' ∷ []) ∷ [])) (b'?' ∷ b' ' ∷ b'?' ∷ [])
unfolding parse_named_params NamedParams.scan NamedParams.step NamedParams.at_top_level
    NamedParams.new_param NamedParams.update NamedParams.close_param NamedParams.is_name_start
    NamedParams.is_name_part NamedParams.rematch NamedParams.finish NamedParams.assemble
    NamedParams.replace NamedParams.slice
two_params_run = refl

plain_decode-plain_encode_example :
    (packet' : Bytes) × (sent : Bytes) × (seq_id' : ℕ) × (plain_encode vec_bytes_mut vec_buf
        (at_id 255)
        (1 ∷ 2 ∷ 3 ∷ [])
        []
        64
      ≡ (at_id seq_id', packet', [] ++ sent, Codec_outcomes.ok tt))
    × (packet' ≡ [])
    × Decoded seq_id' (9 ∷ []) (1 ∷ 2 ∷ 3 ∷ []) (
        plain_decode vec_bytes_mut 64 none
          (suc (length (sent ++ 9 ∷ [])))
          (at_id 255)
          (sent ++ 9 ∷ [])
          [])
plain_decode-plain_encode_example =
    plain_decode-plain_encode vec_bytes_mut vec_buf 255 64 none (1 ∷ 2 ∷ 3 ∷ []) [] (9 ∷ [])
      (omega arith) (omega arith)

packet_to_chunks-frames_example :
    (packet' : Bytes) × (packet_to_chunks vec_bytes_mut vec_buf 7 (1 ∷ 2 ∷ []) (9 ∷ [])
      ≡ some (frames_next 2 7 (1 ∷ 2 ∷ []), packet', 9 ∷ [] ++ frames 2 7 (1 ∷ 2 ∷ [])))
    × (packet' ≡ [])
packet_to_chunks-frames_example =
    packet_to_chunks-frames vec_bytes_mut vec_buf 7 (1 ∷ 2 ∷ []) (9 ∷ []) (omega arith)

parse_named_params-Explains_example : Explains two_params (parse_named_params two_params)
parse_named_params-Explains_example = parse_named_params-Explains two_params

checked_twins_example :
    (unwrap checked_eat_lenenc_int (0xfc ∷ 1 ∷ []) ≡ eat_lenenc_int (0xfc ∷ 1 ∷ []))
    × (unwrap checked_eat_lenenc_str (0xfc ∷ 1 ∷ []) ≡ eat_lenenc_str (0xfc ∷ 1 ∷ []))
    × (unwrap checked_eat_u8_str (0xfc ∷ 1 ∷ []) ≡ eat_u8_str (0xfc ∷ 1 ∷ []))
    × (unwrap checked_eat_u32_str (0xfc ∷ 1 ∷ []) ≡ eat_u32_str (0xfc ∷ 1 ∷ []))
checked_twins_example = checked_twins (0xfc ∷ 1 ∷ [])

checked_readers-ReturnsAt_example :
    ReturnsAt checked_eat_lenenc_int (3 ∷ 1 ∷ [])
    × ReturnsAt checked_eat_lenenc_str (3 ∷ 1 ∷ [])
    × ReturnsAt checked_eat_u8_str (3 ∷ 1 ∷ [])
    × ReturnsAt checked_eat_u32_str (3 ∷ 1 ∷ [])
checked_readers-ReturnsAt_example = checked_readers-ReturnsAt (3 ∷ 1 ∷ [])

checked_eat_lenenc_int-put_lenenc_int_example :
    (enc : Bytes) × (put_lenenc_int vec_buf_mut (5 ∷ []) 300 ≡ 5 ∷ [] ++ enc)
    × (length enc ≡ lenenc_int_len 300)
    × (checked_eat_lenenc_int (enc ++ 7 ∷ []) ≡ Outcomes.ok (some 300, 7 ∷ []))
checked_eat_lenenc_int-put_lenenc_int_example =
    checked_eat_lenenc_int-put_lenenc_int vec_buf_mut (5 ∷ []) (7 ∷ []) 300 (omega arith)

checked_eat_lenenc_str-put_lenenc_str_example :
    (enc : Bytes) × (put_lenenc_str vec_buf_mut [] (1 ∷ 2 ∷ []) ≡ [] ++ enc)
    × (length enc ≡ lenenc_str_len (1 ∷ 2 ∷ []))
    × (checked_eat_lenenc_str (enc ++ 7 ∷ []) ≡ Outcomes.ok (some (1 ∷ 2 ∷ []), 7 ∷ []))
checked_eat_lenenc_str-put_lenenc_str_example =
    checked_eat_lenenc_str-put_lenenc_str vec_buf_mut [] (7 ∷ []) (1 ∷ 2 ∷ []) (omega arith)

sized_strings-read_example :
    ((enc : Bytes) × (put_u8_str vec_buf_mut [] (1 ∷ 2 ∷ []) ≡ [] ++ enc)
      × (checked_eat_u8_str (enc ++ 7 ∷ []) ≡ Outcomes.ok (some (take 255 (1 ∷ 2 ∷ [])), 7 ∷ [])))
    × ((enc : Bytes) × (put_u32_str vec_buf_mut [] (1 ∷ 2 ∷ []) ≡ [] ++ enc)
        × (checked_eat_u32_str (enc ++ 7 ∷ [])
            ≡ Outcomes.ok (some (take (2 ^ 32 - 1) (1 ∷ 2 ∷ [])), 7 ∷ [])))
sized_strings-read_example = sized_strings-read vec_buf_mut [] (7 ∷ []) (1 ∷ 2 ∷ [])

four_bytes : All IsByte (1 ∷ 2 ∷ 3 ∷ 4 ∷ [])
four_bytes = (omega arith, (omega arith, (omega arith, (omega arith, tt))))

eat_null_str_cases_example :
    ((s : Bytes) × (rest : Bytes) × NoNull s
      × (65 ∷ 0 ∷ 66 ∷ [] ≡ s ++ 0 ∷ rest)
      × (eat_null_str (65 ∷ 0 ∷ 66 ∷ []) ≡ Outcomes.ok (s, rest)))
    ⊎ (NoNull (65 ∷ 0 ∷ 66 ∷ [])
        × (eat_null_str (65 ∷ 0 ∷ 66 ∷ []) ≡ Outcomes.ok (65 ∷ 0 ∷ 66 ∷ [], [])))
eat_null_str_cases_example = eat_null_str_cases (65 ∷ 0 ∷ 66 ∷ [])

-- Values at the names `a` and `b`.
abbrev two_values : NameMap ℕ
two_values name =
    if name_eq name (97 ∷ []) then some 1 else if name_eq name (98 ∷ []) then some 2 else none

into_positional-look_up_example :
    into_positional (Params.named two_values) ((97 ∷ []) ∷ (98 ∷ []) ∷ (97 ∷ []) ∷ [])
    ≡ elim (look_up ((97 ∷ []) ∷ (98 ∷ []) ∷ (97 ∷ []) ∷ []) two_values) [
      | Outcomes.ok vs ↦ Outcomes.ok (Params.positional vs)
      | Outcomes.err e ↦ Outcomes.err e
      | Outcomes.panic ↦ Outcomes.panic
    ]
into_positional-look_up_example =
    into_positional-look_up two_values ((97 ∷ []) ∷ (98 ∷ []) ∷ (97 ∷ []) ∷ [])

representation-RoundTrips_example :
    RoundTrips
      (serialize_int (representation vec_buf_mut upper_half))
      (raw_int (representation vec_buf_mut upper_half))
      tt
      0x1234_0000
representation-RoundTrips_example =
    representation-RoundTrips vec_buf_mut upper_half 0x1234_0000 (omega arith, refl)

signed-RoundTrips_example :
    RoundTrips
      (serialize_int (signed_repr vec_buf_mut s16))
      (raw_int (signed_repr vec_buf_mut s16))
      tt
      (negsuc 4)
signed-RoundTrips_example = signed-RoundTrips vec_buf_mut s16 (negsuc 4) (omega arith)

le_i24-loses_sign_example :
    (written : Bytes) × ((buf : Bytes)
      → serialize_int (le_i24 vec_buf_mut) (negsuc 0) buf ≡ buf ++ written)
    × ((rest : Bytes)
        → parse (raw_int (le_i24 vec_buf_mut)) tt (written ++ rest)
          ≡ Outcomes.ok (pos (wrap 64 (negsuc 0) % 2 ^ 24), rest))
le_i24-loses_sign_example = le_i24-loses_sign vec_buf_mut (negsuc 0)

len_enc_bytes-RoundTrips_example :
    RoundTrips
      (serialize_raw (len_enc_bytes vec_buf_mut))
      (raw_bytes (len_enc_bytes vec_buf_mut))
      tt
      (1 ∷ 2 ∷ [])
len_enc_bytes-RoundTrips_example = len_enc_bytes-RoundTrips vec_buf_mut (1 ∷ 2 ∷ []) (omega arith)

null_bytes-RoundTrips_example :
    RoundTrips
      (serialize_raw (null_bytes vec_buf_mut))
      (raw_bytes (null_bytes vec_buf_mut))
      tt
      (65 ∷ 66 ∷ [])
null_bytes-RoundTrips_example =
    null_bytes-RoundTrips vec_buf_mut (65 ∷ 66 ∷ [])
      ((λ e. absurd (omega arith)), ((λ e. absurd (omega arith)), tt))

abbrev letter : Bytes
letter = 65 ∷ []

fixed_length_text-ReadsAs_example :
    ReadsAs
      (serialize_raw (fixed_length_text vec_buf_mut 4))
      (raw_bytes (fixed_length_text vec_buf_mut 4))
      tt
      letter
      (take 4 letter ++ replicate (4 - length letter) 0)
fixed_length_text-ReadsAs_example = fixed_length_text-ReadsAs vec_buf_mut 4 letter

serialize_var_len_loops_example : serialize_var_len vec_buf_mut 1000 5 [] ≡ none
serialize_var_len_loops_example = serialize_var_len_loops vec_buf_mut 1000 5 [] (omega arith)

eat_sized-eq-eat_num_example :
    (eat_sized_le 4 3 0 (1 ∷ 2 ∷ 3 ∷ 4 ∷ []) ≡ eat_num_le 3 (1 ∷ 2 ∷ 3 ∷ 4 ∷ []))
    × (eat_sized_be 4 3 1 (1 ∷ 2 ∷ 3 ∷ 4 ∷ []) ≡ eat_num_be 3 (1 ∷ 2 ∷ 3 ∷ 4 ∷ []))
eat_sized-eq-eat_num_example = eat_sized-eq-eat_num 3 1 (1 ∷ 2 ∷ 3 ∷ 4 ∷ []) four_bytes

enumerations_iff_example :
    ((session_state_type_try_from 3 ≡ some session_track_gtids)
      ↔ (session_state_type_u8 session_track_gtids ≡ 3))
    × ((geometry_type_try_from 3 ≡ some geom_polygon) ↔ (geometry_type_u8 geom_polygon ≡ 3))
    × ((column_type_try_from 3 ≡ some mysql_type_long)
        ↔ ((column_type_u8 mysql_type_long ≡ 3) × (mysql_type_long ≢ mysql_type_newdate)))
enumerations_iff_example =
    enumerations_iff 3 session_track_gtids geom_polygon mysql_type_long (omega arith)
