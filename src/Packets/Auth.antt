-- ===== src/Packets/Auth.antt =====
-- src/packets/mod.rs: the authentication plugins and the packets that name them.
use rust_mysql_common.Base.{ℕ, Option, none, some, [], ◌∷◌, if◌then◌else◌, take, map, ◌|>◌}
use rust_mysql_common.Base.Bytes.{Bytes}
use rust_mysql_common.Base.Result.{Result, ok, panic}
use rust_mysql_common.Io.BufMut.{BufMut}
use rust_mysql_common.Io.ParseBuf.{IoError, ◌>>=◌, map_parser, eat_all}
use rust_mysql_common.Io.Lenenc.{strip_null}
use rust_mysql_common.Raw.{MyDeserialize, MySerialize, parse}
use rust_mysql_common.Raw.Int.{const_u8, serialize_const_u8}
use rust_mysql_common.Raw.Text.{raw_bytes, serialize_raw, null_bytes, eof_bytes, bytes_eq}
use rust_mysql_common.Scramble.{Hasher, scramble_native, scramble_sha256, scramble_323}
pub mod RoundTrip

abbrev pub mysql_old_password_plugin_name : Bytes
mysql_old_password_plugin_name =
    b'm' ∷ b'y' ∷ b's' ∷ b'q' ∷ b'l' ∷ b'_' ∷ b'o' ∷ b'l' ∷ b'd' ∷ b'_' ∷ b'p' ∷ b'a' ∷ b's' ∷ b's'
    ∷ b'w' ∷ b'o' ∷ b'r' ∷ b'd' ∷ []

abbrev pub mysql_native_password_plugin_name : Bytes
mysql_native_password_plugin_name =
    b'm' ∷ b'y' ∷ b's' ∷ b'q' ∷ b'l' ∷ b'_' ∷ b'n' ∷ b'a' ∷ b't' ∷ b'i' ∷ b'v' ∷ b'e' ∷ b'_' ∷ b'p'
    ∷ b'a' ∷ b's' ∷ b's' ∷ b'w' ∷ b'o' ∷ b'r' ∷ b'd' ∷ []

abbrev pub caching_sha2_password_plugin_name : Bytes
caching_sha2_password_plugin_name =
    b'c' ∷ b'a' ∷ b'c' ∷ b'h' ∷ b'i' ∷ b'n' ∷ b'g' ∷ b'_' ∷ b's' ∷ b'h' ∷ b'a' ∷ b'2' ∷ b'_' ∷ b'p'
    ∷ b'a' ∷ b's' ∷ b's' ∷ b'w' ∷ b'o' ∷ b'r' ∷ b'd' ∷ []

abbrev pub mysql_clear_password_plugin_name : Bytes
mysql_clear_password_plugin_name =
    b'm' ∷ b'y' ∷ b's' ∷ b'q' ∷ b'l' ∷ b'_' ∷ b'c' ∷ b'l' ∷ b'e' ∷ b'a' ∷ b'r' ∷ b'_' ∷ b'p' ∷ b'a'
    ∷ b's' ∷ b's' ∷ b'w' ∷ b'o' ∷ b'r' ∷ b'd' ∷ []

pub data AuthPluginData : Type 0 where
  old native sha2 clear : Bytes → AuthPluginData

pub data AuthPlugin : Type 0 where
  mysql_old_password mysql_clear_password mysql_native_password caching_sha2_password : AuthPlugin
  other : Bytes → AuthPlugin

-- The `match` on a name.
unfoldable pub plugin_named : Bytes → AuthPlugin
plugin_named name =
    if bytes_eq name caching_sha2_password_plugin_name
    then caching_sha2_password
    else if bytes_eq name mysql_native_password_plugin_name
    then mysql_native_password
    else if bytes_eq name mysql_old_password_plugin_name
    then mysql_old_password
    else if bytes_eq name mysql_clear_password_plugin_name
    then mysql_clear_password
    else other name

-- `AuthPlugin::from_bytes`
unfoldable pub from_bytes : Bytes → AuthPlugin
from_bytes name = plugin_named (strip_null name)

-- `AuthPlugin::as_bytes`
unfoldable pub as_bytes : AuthPlugin → Bytes
as_bytes caching_sha2_password = caching_sha2_password_plugin_name
as_bytes mysql_native_password = mysql_native_password_plugin_name
as_bytes mysql_old_password = mysql_old_password_plugin_name
as_bytes mysql_clear_password = mysql_clear_password_plugin_name
as_bytes (other name) = name

unfoldable pub auth_plugin : MyDeserialize (Unit {0}) AuthPlugin
auth_plugin = record { size = none; deserialize = λ _. map_parser from_bytes eat_all }

-- `Option::map`
abbrev pub map_data : (Bytes → AuthPluginData) → Option Bytes → Option AuthPluginData
map_data f none = none
map_data f (some x) = some (f x)

-- `AuthPlugin::gen_data`; the nonce's first eight bytes are the first of its chunks, of which an
-- empty nonce has none.
module _ (sha1 : Hasher 20) (sha256 : Hasher 32) (scaled : ℕ → ℕ) where
  unfoldable pub gen_data :
      AuthPlugin → Option Bytes → Bytes → Result IoError (Option AuthPluginData)
  gen_data plugin none nonce = ok none
  gen_data plugin (some []) nonce = ok none
  gen_data caching_sha2_password (some (c ∷ pass)) nonce =
      ok (map_data sha2 (scramble_sha256 sha256 nonce (c ∷ pass)))
  gen_data mysql_native_password (some (c ∷ pass)) nonce =
      ok (map_data native (scramble_native sha1 nonce (c ∷ pass)))
  gen_data mysql_old_password (some (c ∷ pass)) [] = panic
  gen_data mysql_old_password (some (c ∷ pass)) (n ∷ nonce) =
      ok (map_data old (scramble_323 scaled (take 8 (n ∷ nonce)) (c ∷ pass)))
  gen_data mysql_clear_password (some (c ∷ pass)) nonce = ok (some (clear (c ∷ pass)))
  gen_data (other name) (some (c ∷ pass)) nonce = ok none

pub record AuthSwitchRequest : Type 0 where
  pub auth_plugin : Bytes
  pub plugin_data : Bytes

-- `AuthSwitchRequest::auth_plugin` and `AuthSwitchRequest::plugin_data`
unfoldable pub requested_plugin : AuthSwitchRequest → AuthPlugin
requested_plugin p = from_bytes p.auth_plugin

unfoldable pub requested_data : AuthSwitchRequest → Bytes
requested_data p = strip_null p.plugin_data

module _ (B : BufMut) where
  open B use {put_u8, put_slice}

  unfoldable pub serialize_auth_plugin : MySerialize AuthPlugin
  serialize_auth_plugin plugin buf = put_slice buf (as_bytes plugin) |> (λ buf. put_u8 buf 0)

  unfoldable pub serialize_auth_plugin_data : MySerialize AuthPluginData
  serialize_auth_plugin_data (sha2 x) buf = put_slice buf x
  serialize_auth_plugin_data (native x) buf = put_slice buf x
  serialize_auth_plugin_data (old x) buf = put_slice buf x |> (λ buf. put_u8 buf 0)
  serialize_auth_plugin_data (clear x) buf = put_slice buf x |> (λ buf. put_u8 buf 0)

  -- `AuthMoreData`
  unfoldable pub auth_more_data : MyDeserialize (Unit {0}) Bytes
  auth_more_data = record {
    size = none;
    deserialize = λ _. parse (const_u8 0x01) tt >>= λ header. parse (raw_bytes (eof_bytes B)) tt;
  }

  unfoldable pub serialize_auth_more_data : MySerialize Bytes
  serialize_auth_more_data content buf =
      buf |> serialize_const_u8 B 0x01 |> serialize_raw (eof_bytes B) content

  -- `OldAuthSwitchRequest`
  unfoldable pub serialize_old_auth_switch : Bytes → Bytes
  serialize_old_auth_switch buf = buf |> serialize_const_u8 B 0xfe

  unfoldable pub auth_switch_request : MyDeserialize (Unit {0}) AuthSwitchRequest
  auth_switch_request = record {
    size = none;
    deserialize = λ _. parse (const_u8 0xfe) tt >>= λ header.
        parse (raw_bytes (null_bytes B)) tt >>= λ auth_plugin.
        map_parser (λ plugin_data. record { auth_plugin = auth_plugin; plugin_data = plugin_data })
          (parse (raw_bytes (eof_bytes B)) tt);
  }

  unfoldable pub serialize_auth_switch_request : MySerialize AuthSwitchRequest
  serialize_auth_switch_request p buf =
      buf
      |> serialize_const_u8 B 0xfe
      |> serialize_raw (null_bytes B) p.auth_plugin
      |> serialize_raw (eof_bytes B) p.plugin_data

unfoldable pub old_auth_switch : MyDeserialize (Unit {0}) (Unit {0})
old_auth_switch = record { size = some 1; deserialize = λ _. parse (const_u8 0xfe) tt }
