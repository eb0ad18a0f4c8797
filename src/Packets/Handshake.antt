-- ===== src/Packets/Handshake.antt =====
-- src/packets/mod.rs: the server's first packet, and the request to go on over TLS.
use rust_mysql_common.Base.{
  ℕ, ◌+◌, ◌-◌, ◌%◌, ◌^◌, Bool, Option, none, some, [], ◌∷◌, ◌++◌, ltb, if◌then◌else◌, length, take,
  replicate, min, max, bit_and, bit_or, ◌|>◌,
}
use rust_mysql_common.Base.Bytes.{Bytes}
use rust_mysql_common.Base.Result
use rust_mysql_common.Base.Result.{Result, ok, panic}
use rust_mysql_common.Io.BufMut.{BufMut}
use rust_mysql_common.Io.ParseBuf.{IoError, Parser, pure, ◌>>=◌, map_parser, eat_all}
use rust_mysql_common.Io.Lenenc.{strip_null}
use rust_mysql_common.Raw.{
  MyDeserialize, MySerialize, parse, parse_unchecked, parse_buf, within, byte_array, skipped,
  serialize_bytes, serialize_skipped,
}
use rust_mysql_common.Raw.Int.{
  raw_int, serialize_int, u8, le_u16, le_u32, le_u32_lower_half, le_u32_upper_half,
}
use rust_mysql_common.Raw.Text.{
  raw_bytes, serialize_raw, effective_len, as_bytes, null_bytes, bare_bytes,
}
use rust_mysql_common.Raw.Constant.{constant, raw_const, serialize_constant}
use rust_mysql_common.Constants.Flags.{
  Bitflags, all_status_flags, all_capability_flags, client_secure_connection, client_plugin_auth,
}
pub mod Halves
pub mod Texts
pub mod RoundTrip

pub record HandshakePacket : Type 0 where
  pub protocol_version : ℕ
  pub server_version : Bytes
  pub connection_id : ℕ
  pub scramble_1 : Bytes
  pub capabilities_1 : ℕ
  pub default_collation : ℕ
  pub status_flags : ℕ
  pub capabilities_2 : ℕ
  pub auth_plugin_data_len : ℕ
  pub scramble_2 : Option Bytes
  pub auth_plugin_name : Option Bytes

-- What the sub-buffer of 31 bytes holds.
pub record Numbers : Type 0 where
  pub connection_id : ℕ
  pub scramble_1 : Bytes
  pub capabilities_1 : ℕ
  pub default_collation : ℕ
  pub status_flags : ℕ
  pub capabilities_2 : ℕ
  pub auth_plugin_data_len : ℕ

-- `max(13, auth_plugin_data_len as i8 - 8) as usize`: the cast makes a length of 128 and more
-- negative, and the subtraction overflows below -120.
unfoldable pub scramble_2_len : ℕ → Result IoError ℕ
scramble_2_len data_len =
    if ltb data_len 128
    then ok (max 13 (data_len - 8))
    else if ltb data_len 136
    then panic
    else ok 13

-- `BareBytes<{ (u8::MAX as usize) - 8 }>`
abbrev pub max_scramble_2 : ℕ
max_scramble_2 = 255 - 8

-- A request with the capabilities that the client has, `SslRequest`.
pub record SslRequest : Type 0 where
  pub capabilities : ℕ
  pub max_packet_size : ℕ
  pub character_set : ℕ

-- The name of the plugin, with or without a zero byte at its end.
abbrev pub name_of : Bool → Parser (Option Bytes)
name_of plugin_auth =
    if plugin_auth then map_parser (λ all. some (strip_null all)) eat_all else pure none

-- `flags & FLAG > 0`
abbrev pub has : ℕ → ℕ → Bool
has flags flag = ltb 0 (bit_and flags flag)

abbrev pub serialize_option : (Bytes → Bytes → Bytes) → Option Bytes → Bytes → Bytes
serialize_option S none buf = buf
serialize_option S (some x) buf = S x buf

-- `HandshakePacket::capabilities`
unfoldable pub capabilities : HandshakePacket → ℕ
capabilities p = bit_or p.capabilities_1 p.capabilities_2

module _ (B : BufMut) (F : Bitflags) where
  open B use {put_u8, put_slice}

  abbrev pub handshake_numbers : Parser Numbers
  handshake_numbers = parse_unchecked (raw_int (le_u32 B)) tt >>= λ connection_id.
      parse_unchecked (byte_array 8) tt >>= λ scramble_1.
      parse_unchecked (skipped 1) tt >>= λ filler.
      parse_unchecked (raw_const (le_u32_lower_half B)) tt >>= λ capabilities_1.
      parse_unchecked (raw_int (u8 B)) tt >>= λ default_collation.
      parse_unchecked (constant (le_u16 B) (F.from_bits all_status_flags)) tt >>= λ status_flags.
      parse_unchecked (raw_const (le_u32_upper_half B)) tt >>= λ capabilities_2.
      parse_unchecked (raw_int (u8 B)) tt >>= λ auth_plugin_data_len.
      map_parser
        (λ reserved. record {
          connection_id = connection_id;
          scramble_1 = scramble_1;
          capabilities_1 = capabilities_1;
          default_collation = default_collation;
          status_flags = status_flags;
          capabilities_2 = capabilities_2;
          auth_plugin_data_len = auth_plugin_data_len;
        })
        (parse_unchecked (skipped 10) tt)

  abbrev pub sized_scramble : ℕ → Parser (Option Bytes)
  sized_scramble len = map_parser some (parse (raw_bytes (bare_bytes B max_scramble_2)) len)

  -- The second part of the scramble, if the capabilities have it.
  abbrev pub scramble_of : Bool → ℕ → Parser (Option Bytes)
  scramble_of secure data_len buf =
      if secure
      then Result.◌>>=◌ (scramble_2_len data_len) (λ len. sized_scramble len buf)
      else ok (none, buf)

  abbrev pub handshake_texts : ℕ → Bytes → Numbers → Parser HandshakePacket
  handshake_texts protocol_version server_version n =
      scramble_of (has n.capabilities_1 client_secure_connection) n.auth_plugin_data_len
      >>= λ scramble_2.
          map_parser
            (λ auth_plugin_name. record {
              protocol_version = protocol_version;
              server_version = server_version;
              connection_id = n.connection_id;
              scramble_1 = n.scramble_1;
              capabilities_1 = F.from_bits_truncate all_capability_flags n.capabilities_1;
              default_collation = n.default_collation;
              status_flags = n.status_flags;
              capabilities_2 = F.from_bits_truncate all_capability_flags n.capabilities_2;
              auth_plugin_data_len = n.auth_plugin_data_len;
              scramble_2 = scramble_2;
              auth_plugin_name = auth_plugin_name;
            })
            (name_of (has n.capabilities_2 client_plugin_auth))

  unfoldable pub handshake_packet : MyDeserialize (Unit {0}) HandshakePacket
  handshake_packet = record {
    size = none;
    deserialize = λ _. parse (raw_int (u8 B)) tt >>= λ protocol_version.
        parse (raw_bytes (null_bytes B)) tt >>= λ server_version.
        parse parse_buf 31
        >>= within handshake_numbers
        >>= handshake_texts protocol_version server_version;
  }

  -- `map(|x| (x.len() + 8) as u8).unwrap_or_default()`
  abbrev pub written_data_len : Option Bytes → ℕ
  written_data_len none = 0
  written_data_len (some x) = (effective_len (bare_bytes B max_scramble_2) x + 8) % 256

  unfoldable pub serialize_handshake : MySerialize HandshakePacket
  serialize_handshake p buf =
      buf
      |> serialize_int (u8 B) p.protocol_version
      |> serialize_raw (null_bytes B) p.server_version
      |> serialize_int (le_u32 B) p.connection_id
      |> serialize_bytes B p.scramble_1
      |> (λ buf. put_u8 buf 0x00)
      |> serialize_constant (le_u32_lower_half B) (λ bits. bits) p.capabilities_1
      |> serialize_int (u8 B) p.default_collation
      |> serialize_constant (le_u16 B) (λ bits. bits) p.status_flags
      |> serialize_constant (le_u32_upper_half B) (λ bits. bits) p.capabilities_2
      |> (λ buf. put_u8 buf (
          if F.contains p.capabilities_2 client_plugin_auth
          then written_data_len p.scramble_2
          else 0))
      |> (λ buf. put_slice buf (replicate 10 0))
      |> serialize_option (serialize_raw (bare_bytes B max_scramble_2)) p.scramble_2
      |> serialize_option (serialize_raw (null_bytes B)) p.auth_plugin_name

  -- `HandshakePacket::nonce`: 20 bytes, cut or filled with zeros.
  unfoldable pub nonce : HandshakePacket → Bytes
  nonce p =
      let out : Bytes =
        p.scramble_1
        ++ elim (p.scramble_2) [ none ↦ [] | some x ↦ as_bytes (bare_bytes B max_scramble_2) x ] in
      take 20 out ++ replicate (20 - length out) 0

  abbrev pub ssl_fields : Parser SslRequest
  ssl_fields = parse_unchecked (raw_const (le_u32 B)) tt >>= λ raw_capabilities.
      parse_unchecked (raw_int (le_u32 B)) tt >>= λ max_packet_size.
      parse_unchecked (raw_int (u8 B)) tt >>= λ character_set.
      map_parser
        (λ skip. record {
          capabilities = F.from_bits_truncate all_capability_flags raw_capabilities;
          max_packet_size = max_packet_size;
          character_set = character_set;
        })
        (parse_unchecked (skipped 23) tt)

  unfoldable pub ssl_request : MyDeserialize (Unit {0}) SslRequest
  ssl_request = record {
    size = some (4 + 4 + 1 + 23);
    deserialize = λ _. parse parse_buf (4 + 4 + 1 + 23) >>= within ssl_fields;
  }

  unfoldable pub serialize_ssl_request : MySerialize SslRequest
  serialize_ssl_request p buf =
      buf
      |> serialize_constant (le_u32 B) (λ bits. bits) p.capabilities
      |> serialize_int (le_u32 B) p.max_packet_size
      |> serialize_int (u8 B) p.character_set
      |> serialize_skipped B 23
