-- ===== src/Constants/Flags.antt =====
-- src/constants.rs, the bit flags that packets carry, as their bits. What the `bitflags` crate
-- generates for a set of flags is a parameter, with the behaviour that the crate documents.
use rust_mysql_common.Base.{
  ℕ, ◌-◌, bit_and, bit_or, Bool, Option, none, some, List, [], ◌∷◌, ◌≡◌, ◌≢◌, ◌==◌,
}

-- The operations that `bitflags!` declares for flags whose known bits are `all`.
pub record Bitflags : Type 0 where
  pub from_bits : ℕ → ℕ → Option ℕ
  pub from_bits_truncate : ℕ → ℕ → ℕ
  pub contains : ℕ → ℕ → Bool
  pub insert : ℕ → ℕ → ℕ
  pub remove : ℕ → ℕ → ℕ
  pub intersection : ℕ → ℕ → ℕ
  pub from_bits_lem : (all bits : ℕ) → bit_and bits all ≡ bits → from_bits all bits ≡ some bits
  pub from_bits_unknown : (all bits : ℕ) → bit_and bits all ≢ bits → from_bits all bits ≡ none
  pub from_bits_truncate_lem : (all bits : ℕ) → from_bits_truncate all bits ≡ bit_and bits all
  pub contains_lem : (flags other : ℕ) → contains flags other ≡ (bit_and flags other == other)
  pub insert_lem : (flags other : ℕ) → insert flags other ≡ bit_or flags other
  pub intersection_lem : (flags other : ℕ) → intersection flags other ≡ bit_and flags other
  pub remove_lem : (flags other : ℕ) → remove flags other ≡ flags - bit_and flags other

-- All bits of a list of flags.
unfoldable pub union : List ℕ → ℕ
union [] = 0
union (flag ∷ flags) = bit_or flag (union flags)

-- `StatusFlags`
abbrev pub server_status_in_trans : ℕ
server_status_in_trans = 0x0001

abbrev pub server_status_autocommit : ℕ
server_status_autocommit = 0x0002

abbrev pub server_more_results_exists : ℕ
server_more_results_exists = 0x0008

abbrev pub server_status_no_good_index_used : ℕ
server_status_no_good_index_used = 0x0010

abbrev pub server_status_no_index_used : ℕ
server_status_no_index_used = 0x0020

abbrev pub server_status_cursor_exists : ℕ
server_status_cursor_exists = 0x0040

abbrev pub server_status_last_row_sent : ℕ
server_status_last_row_sent = 0x0080

abbrev pub server_status_db_dropped : ℕ
server_status_db_dropped = 0x0100

abbrev pub server_status_no_backslash_escapes : ℕ
server_status_no_backslash_escapes = 0x0200

abbrev pub server_status_metadata_changed : ℕ
server_status_metadata_changed = 0x0400

abbrev pub server_query_was_slow : ℕ
server_query_was_slow = 0x0800

abbrev pub server_ps_out_params : ℕ
server_ps_out_params = 0x1000

abbrev pub server_status_in_trans_readonly : ℕ
server_status_in_trans_readonly = 0x2000

abbrev pub server_session_state_changed : ℕ
server_session_state_changed = 0x4000

abbrev pub status_flags : List ℕ
status_flags =
    server_status_in_trans ∷ server_status_autocommit ∷ server_more_results_exists
    ∷ server_status_no_good_index_used ∷ server_status_no_index_used ∷ server_status_cursor_exists
    ∷ server_status_last_row_sent ∷ server_status_db_dropped ∷ server_status_no_backslash_escapes
    ∷ server_status_metadata_changed ∷ server_query_was_slow ∷ server_ps_out_params
    ∷ server_status_in_trans_readonly ∷ server_session_state_changed ∷ []

unfoldable pub all_status_flags : ℕ
all_status_flags = union status_flags

-- `CapabilityFlags`
abbrev pub client_long_password : ℕ
client_long_password = 0x0000_0001

abbrev pub client_found_rows : ℕ
client_found_rows = 0x0000_0002

abbrev pub client_long_flag : ℕ
client_long_flag = 0x0000_0004

abbrev pub client_connect_with_db : ℕ
client_connect_with_db = 0x0000_0008

abbrev pub client_no_schema : ℕ
client_no_schema = 0x0000_0010

abbrev pub client_compress : ℕ
client_compress = 0x0000_0020

abbrev pub client_odbc : ℕ
client_odbc = 0x0000_0040

abbrev pub client_local_files : ℕ
client_local_files = 0x0000_0080

abbrev pub client_ignore_space : ℕ
client_ignore_space = 0x0000_0100

abbrev pub client_protocol_41 : ℕ
client_protocol_41 = 0x0000_0200

abbrev pub client_interactive : ℕ
client_interactive = 0x0000_0400

abbrev pub client_ssl : ℕ
client_ssl = 0x0000_0800

abbrev pub client_ignore_sigpipe : ℕ
client_ignore_sigpipe = 0x0000_1000

abbrev pub client_transactions : ℕ
client_transactions = 0x0000_2000

abbrev pub client_reserved : ℕ
client_reserved = 0x0000_4000

abbrev pub client_secure_connection : ℕ
client_secure_connection = 0x0000_8000

abbrev pub client_multi_statements : ℕ
client_multi_statements = 0x0001_0000

abbrev pub client_multi_results : ℕ
client_multi_results = 0x0002_0000

abbrev pub client_ps_multi_results : ℕ
client_ps_multi_results = 0x0004_0000

abbrev pub client_plugin_auth : ℕ
client_plugin_auth = 0x0008_0000

abbrev pub client_connect_attrs : ℕ
client_connect_attrs = 0x0010_0000

abbrev pub client_plugin_auth_lenenc_client_data : ℕ
client_plugin_auth_lenenc_client_data = 0x0020_0000

abbrev pub client_can_handle_expired_passwords : ℕ
client_can_handle_expired_passwords = 0x0040_0000

abbrev pub client_session_track : ℕ
client_session_track = 0x0080_0000

abbrev pub client_deprecate_eof : ℕ
client_deprecate_eof = 0x0100_0000

abbrev pub client_optional_resultset_metadata : ℕ
client_optional_resultset_metadata = 0x0200_0000

abbrev pub client_zstd_compression_algorithm : ℕ
client_zstd_compression_algorithm = 0x0400_0000

abbrev pub client_query_attributes : ℕ
client_query_attributes = 0x0800_0000

abbrev pub multi_factor_authentication : ℕ
multi_factor_authentication = 0x1000_0000

abbrev pub client_progress_obsolete : ℕ
client_progress_obsolete = 0x2000_0000

abbrev pub client_ssl_verify_server_cert : ℕ
client_ssl_verify_server_cert = 0x4000_0000

abbrev pub client_remember_options : ℕ
client_remember_options = 0x8000_0000

abbrev pub capability_flags : List ℕ
capability_flags =
    client_long_password ∷ client_found_rows ∷ client_long_flag ∷ client_connect_with_db
    ∷ client_no_schema ∷ client_compress ∷ client_odbc ∷ client_local_files ∷ client_ignore_space
    ∷ client_protocol_41 ∷ client_interactive ∷ client_ssl ∷ client_ignore_sigpipe
    ∷ client_transactions ∷ client_reserved ∷ client_secure_connection ∷ client_multi_statements
    ∷ client_multi_results ∷ client_ps_multi_results ∷ client_plugin_auth ∷ client_connect_attrs
    ∷ client_plugin_auth_lenenc_client_data ∷ client_can_handle_expired_passwords
    ∷ client_session_track ∷ client_deprecate_eof ∷ client_optional_resultset_metadata
    ∷ client_zstd_compression_algorithm ∷ client_query_attributes ∷ multi_factor_authentication
    ∷ client_progress_obsolete ∷ client_ssl_verify_server_cert ∷ client_remember_options ∷ []

unfoldable pub all_capability_flags : ℕ
all_capability_flags = union capability_flags

-- `ColumnFlags`
abbrev pub not_null_flag : ℕ
not_null_flag = 1

abbrev pub pri_key_flag : ℕ
pri_key_flag = 2

abbrev pub unique_key_flag : ℕ
unique_key_flag = 4

abbrev pub multiple_key_flag : ℕ
multiple_key_flag = 8

abbrev pub blob_flag : ℕ
blob_flag = 16

abbrev pub unsigned_flag : ℕ
unsigned_flag = 32

abbrev pub zerofill_flag : ℕ
zerofill_flag = 64

abbrev pub binary_flag : ℕ
binary_flag = 128

abbrev pub enum_flag : ℕ
enum_flag = 256

abbrev pub auto_increment_flag : ℕ
auto_increment_flag = 512

abbrev pub timestamp_flag : ℕ
timestamp_flag = 1024

abbrev pub set_flag : ℕ
set_flag = 2048

abbrev pub no_default_value_flag : ℕ
no_default_value_flag = 4096

abbrev pub on_update_now_flag : ℕ
on_update_now_flag = 8192

abbrev pub part_key_flag : ℕ
part_key_flag = 16384

abbrev pub num_flag : ℕ
num_flag = 32768

abbrev pub column_flags : List ℕ
column_flags =
    not_null_flag ∷ pri_key_flag ∷ unique_key_flag ∷ multiple_key_flag ∷ blob_flag ∷ unsigned_flag
    ∷ zerofill_flag ∷ binary_flag ∷ enum_flag ∷ auto_increment_flag ∷ timestamp_flag ∷ set_flag
    ∷ no_default_value_flag ∷ on_update_now_flag ∷ part_key_flag ∷ num_flag ∷ []

unfoldable pub all_column_flags : ℕ
all_column_flags = union column_flags
