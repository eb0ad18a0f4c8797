-- ===== src/Constants.antt =====
-- src/constants.rs: the enumerations that a byte of the protocol is read as.
use rust_mysql_common.Base.{ℕ, Option, none, some, ◌==◌, if◌then◌else◌}
use rust_mysql_common.Base.Int.{ℤ, pos, negsuc}
pub mod Flags
pub mod RoundTrip

pub data SessionStateType : Type 0 where
  session_track_system_variables : SessionStateType
  session_track_schema : SessionStateType
  session_track_state_change : SessionStateType
  session_track_gtids : SessionStateType
  session_track_transaction_characteristics : SessionStateType
  session_track_transaction_state : SessionStateType

-- `SessionStateType as u8`
unfoldable pub session_state_type_u8 : SessionStateType → ℕ
session_state_type_u8 session_track_system_variables = 0
session_state_type_u8 session_track_schema = 1
session_state_type_u8 session_track_state_change = 2
session_state_type_u8 session_track_gtids = 3
session_state_type_u8 session_track_transaction_characteristics = 4
session_state_type_u8 session_track_transaction_state = 5

-- `TryFrom<u8>`; `none` is the error that holds the byte.
unfoldable pub session_state_type_try_from : ℕ → Option SessionStateType
session_state_type_try_from value =
    if value == 0x00
    then some session_track_system_variables
    else if value == 0x01
    then some session_track_schema
    else if value == 0x02
    then some session_track_state_change
    else if value == 0x03
    then some session_track_gtids
    else if value == 0x04
    then some session_track_transaction_characteristics
    else if value == 0x05
    then some session_track_transaction_state
    else none

pub data GeometryType : Type 0 where
  geom_geometry : GeometryType
  geom_point : GeometryType
  geom_linestring : GeometryType
  geom_polygon : GeometryType
  geom_multipoint : GeometryType
  geom_multilinestring : GeometryType
  geom_multipolygon : GeometryType
  geom_geometrycollection : GeometryType

-- `GeometryType as u8`
unfoldable pub geometry_type_u8 : GeometryType → ℕ
geometry_type_u8 geom_geometry = 0
geometry_type_u8 geom_point = 1
geometry_type_u8 geom_linestring = 2
geometry_type_u8 geom_polygon = 3
geometry_type_u8 geom_multipoint = 4
geometry_type_u8 geom_multilinestring = 5
geometry_type_u8 geom_multipolygon = 6
geometry_type_u8 geom_geometrycollection = 7

-- `TryFrom<u8>`; `none` is the error that holds the byte.
unfoldable pub geometry_type_try_from : ℕ → Option GeometryType
geometry_type_try_from value =
    if value == 0
    then some geom_geometry
    else if value == 1
    then some geom_point
    else if value == 2
    then some geom_linestring
    else if value == 3
    then some geom_polygon
    else if value == 4
    then some geom_multipoint
    else if value == 5
    then some geom_multilinestring
    else if value == 6
    then some geom_multipolygon
    else if value == 7
    then some geom_geometrycollection
    else none

pub data ColumnType : Type 0 where
  mysql_type_decimal : ColumnType
  mysql_type_tiny : ColumnType
  mysql_type_short : ColumnType
  mysql_type_long : ColumnType
  mysql_type_float : ColumnType
  mysql_type_double : ColumnType
  mysql_type_null : ColumnType
  mysql_type_timestamp : ColumnType
  mysql_type_longlong : ColumnType
  mysql_type_int24 : ColumnType
  mysql_type_date : ColumnType
  mysql_type_time : ColumnType
  mysql_type_datetime : ColumnType
  mysql_type_year : ColumnType
  mysql_type_newdate : ColumnType
  mysql_type_varchar : ColumnType
  mysql_type_bit : ColumnType
  mysql_type_timestamp2 : ColumnType
  mysql_type_datetime2 : ColumnType
  mysql_type_time2 : ColumnType
  mysql_type_typed_array : ColumnType
  mysql_type_unknown : ColumnType
  mysql_type_json : ColumnType
  mysql_type_newdecimal : ColumnType
  mysql_type_enum : ColumnType
  mysql_type_set : ColumnType
  mysql_type_tiny_blob : ColumnType
  mysql_type_medium_blob : ColumnType
  mysql_type_long_blob : ColumnType
  mysql_type_blob : ColumnType
  mysql_type_var_string : ColumnType
  mysql_type_string : ColumnType
  mysql_type_geometry : ColumnType

-- `ColumnType as u8`
unfoldable pub column_type_u8 : ColumnType → ℕ
column_type_u8 mysql_type_decimal = 0
column_type_u8 mysql_type_tiny = 1
column_type_u8 mysql_type_short = 2
column_type_u8 mysql_type_long = 3
column_type_u8 mysql_type_float = 4
column_type_u8 mysql_type_double = 5
column_type_u8 mysql_type_null = 6
column_type_u8 mysql_type_timestamp = 7
column_type_u8 mysql_type_longlong = 8
column_type_u8 mysql_type_int24 = 9
column_type_u8 mysql_type_date = 10
column_type_u8 mysql_type_time = 11
column_type_u8 mysql_type_datetime = 12
column_type_u8 mysql_type_year = 13
column_type_u8 mysql_type_newdate = 14
column_type_u8 mysql_type_varchar = 15
column_type_u8 mysql_type_bit = 16
column_type_u8 mysql_type_timestamp2 = 17
column_type_u8 mysql_type_datetime2 = 18
column_type_u8 mysql_type_time2 = 19
column_type_u8 mysql_type_typed_array = 20
column_type_u8 mysql_type_unknown = 243
column_type_u8 mysql_type_json = 245
column_type_u8 mysql_type_newdecimal = 246
column_type_u8 mysql_type_enum = 247
column_type_u8 mysql_type_set = 248
column_type_u8 mysql_type_tiny_blob = 249
column_type_u8 mysql_type_medium_blob = 250
column_type_u8 mysql_type_long_blob = 251
column_type_u8 mysql_type_blob = 252
column_type_u8 mysql_type_var_string = 253
column_type_u8 mysql_type_string = 254
column_type_u8 mysql_type_geometry = 255

-- `TryFrom<u8>`; `none` is the error that holds the byte.
unfoldable pub column_type_try_from : ℕ → Option ColumnType
column_type_try_from value =
    if value == 0x00
    then some mysql_type_decimal
    else if value == 0x01
    then some mysql_type_tiny
    else if value == 0x02
    then some mysql_type_short
    else if value == 0x03
    then some mysql_type_long
    else if value == 0x04
    then some mysql_type_float
    else if value == 0x05
    then some mysql_type_double
    else if value == 0x06
    then some mysql_type_null
    else if value == 0x07
    then some mysql_type_timestamp
    else if value == 0x08
    then some mysql_type_longlong
    else if value == 0x09
    then some mysql_type_int24
    else if value == 0x0a
    then some mysql_type_date
    else if value == 0x0b
    then some mysql_type_time
    else if value == 0x0c
    then some mysql_type_datetime
    else if value == 0x0d
    then some mysql_type_year
    else if value == 0x0f
    then some mysql_type_varchar
    else if value == 0x10
    then some mysql_type_bit
    else if value == 0x11
    then some mysql_type_timestamp2
    else if value == 0x12
    then some mysql_type_datetime2
    else if value == 0x13
    then some mysql_type_time2
    else if value == 0x14
    then some mysql_type_typed_array
    else if value == 0xf3
    then some mysql_type_unknown
    else if value == 0xf5
    then some mysql_type_json
    else if value == 0xf6
    then some mysql_type_newdecimal
    else if value == 0xf7
    then some mysql_type_enum
    else if value == 0xf8
    then some mysql_type_set
    else if value == 0xf9
    then some mysql_type_tiny_blob
    else if value == 0xfa
    then some mysql_type_medium_blob
    else if value == 0xfb
    then some mysql_type_long_blob
    else if value == 0xfc
    then some mysql_type_blob
    else if value == 0xfd
    then some mysql_type_var_string
    else if value == 0xfe
    then some mysql_type_string
    else if value == 0xff
    then some mysql_type_geometry
    else none

pub data ItemResult : Type 0 where
  invalid_result : ItemResult
  string_result : ItemResult
  real_result : ItemResult
  int_result : ItemResult
  row_result : ItemResult
  decimal_result : ItemResult

-- `ItemResult as i8`
unfoldable pub item_result_i8 : ItemResult → ℤ
item_result_i8 invalid_result = negsuc 0
item_result_i8 string_result = pos 0
item_result_i8 real_result = pos 1
item_result_i8 int_result = pos 2
item_result_i8 row_result = pos 3
item_result_i8 decimal_result = pos 4

unfoldable pub item_result_try_from : ℤ → Option ItemResult
item_result_try_from (negsuc n) = if n == 0 then some invalid_result else none
item_result_try_from (pos value) =
    if value == 0
    then some string_result
    else if value == 1
    then some real_result
    else if value == 2
    then some int_result
    else if value == 3
    then some row_result
    else if value == 4
    then some decimal_result
    else none
