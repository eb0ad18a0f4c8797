-- ===== src/Packets/Column.antt =====
-- src/packets/mod.rs: the definition of a column.
pub mod Payload
use rust_mysql_common.Base.{ℕ, none, [], ◌∷◌, ◌|>◌}
use rust_mysql_common.Base.Bytes.{Bytes}
use rust_mysql_common.Io.BufMut.{BufMut}
use rust_mysql_common.Io.ParseBuf.{Parser, ◌>>=◌, map_parser}
use rust_mysql_common.Raw.{
  MyDeserialize, MySerialize, parse, parse_unchecked, parse_buf, within, skipped, serialize_skipped,
}
use rust_mysql_common.Raw.Int.{
  raw_int, serialize_int, u8, le_u16, le_u32, const_u8, serialize_const_u8,
}
use rust_mysql_common.Raw.Text.{const_bytes, serialize_const_bytes, small_vec, serialize_small_vec}
use rust_mysql_common.Raw.Constant.{constant, serialize_constant}
use rust_mysql_common.Constants.{ColumnType, column_type_u8, column_type_try_from}
use rust_mysql_common.Constants.Flags.{Bitflags, all_column_flags}

-- `ColumnDefinitionCatalog`: the string `def` behind its length.
abbrev pub catalog : Bytes
catalog = 3 ∷ b'd' ∷ b'e' ∷ b'f' ∷ []

-- `FixedLengthFieldsLen`
abbrev pub fixed_length_fields_len : ℕ
fixed_length_fields_len = 0x0c

-- The fields whose types hold data.
pub record Column : Type 0 where
  pub schema : Bytes
  pub table : Bytes
  pub org_table : Bytes
  pub name : Bytes
  pub org_name : Bytes
  pub column_length : ℕ
  pub character_set : ℕ
  pub column_type : ColumnType
  pub flags : ℕ
  pub decimals : ℕ

-- `Column::new`
unfoldable pub new : ColumnType → Column
new column_type = record {
  schema = [];
  table = [];
  org_table = [];
  name = [];
  org_name = [];
  column_length = 0;
  character_set = 0;
  column_type = column_type;
  flags = 0;
  decimals = 0;
}

unfoldable pub with_schema : Bytes → Column → Column
with_schema schema c = record c { schema = schema }

unfoldable pub with_table : Bytes → Column → Column
with_table table c = record c { table = table }

unfoldable pub with_org_table : Bytes → Column → Column
with_org_table org_table c = record c { org_table = org_table }

unfoldable pub with_name : Bytes → Column → Column
with_name name c = record c { name = name }

unfoldable pub with_org_name : Bytes → Column → Column
with_org_name org_name c = record c { org_name = org_name }

unfoldable pub with_flags : ℕ → Column → Column
with_flags flags c = record c { flags = flags }

unfoldable pub with_column_length : ℕ → Column → Column
with_column_length column_length c = record c { column_length = column_length }

unfoldable pub with_character_set : ℕ → Column → Column
with_character_set character_set c = record c { character_set = character_set }

unfoldable pub with_decimals : ℕ → Column → Column
with_decimals decimals c = record c { decimals = decimals }

-- The numbers behind the texts.
pub record Numbers : Type 0 where
  pub character_set : ℕ
  pub column_length : ℕ
  pub column_type : ColumnType
  pub flags : ℕ
  pub decimals : ℕ

module _ (B : BufMut) (F : Bitflags) where
  -- The types of the columns and of their flags on the wire.
  abbrev pub type_byte : MyDeserialize (Unit {0}) ColumnType
  type_byte = constant (u8 B) column_type_try_from

  abbrev pub flag_word : MyDeserialize (Unit {0}) ℕ
  flag_word = constant (le_u16 B) (F.from_bits all_column_flags)

  abbrev pub numbers : Parser Numbers
  numbers = parse_unchecked (const_u8 fixed_length_fields_len) tt >>= λ header.
      parse_unchecked (raw_int (le_u16 B)) tt >>= λ character_set.
      parse_unchecked (raw_int (le_u32 B)) tt >>= λ column_length.
      parse_unchecked type_byte tt >>= λ column_type. parse_unchecked flag_word tt >>= λ flags.
      parse_unchecked (raw_int (u8 B)) tt >>= λ decimals.
      map_parser
        (λ filler. record {
          character_set = character_set;
          column_length = column_length;
          column_type = column_type;
          flags = flags;
          decimals = decimals;
        })
        (parse_unchecked (skipped 2) tt)

  unfoldable pub column : MyDeserialize (Unit {0}) Column
  column = record {
    size = none;
    deserialize = λ _. parse (const_bytes catalog) tt >>= λ header.
        parse_unchecked (small_vec B) tt >>= λ schema. parse_unchecked (small_vec B) tt >>= λ table.
        parse_unchecked (small_vec B) tt >>= λ org_table.
        parse_unchecked (small_vec B) tt >>= λ name.
        parse_unchecked (small_vec B) tt >>= λ org_name.
        map_parser
          (λ n. record {
            schema = schema;
            table = table;
            org_table = org_table;
            name = name;
            org_name = org_name;
            column_length = n.column_length;
            character_set = n.character_set;
            column_type = n.column_type;
            flags = n.flags;
            decimals = n.decimals;
          })
          (parse parse_buf 13 >>= within numbers);
  }

module _ (B : BufMut) where
  unfoldable pub serialize_column : MySerialize Column
  serialize_column c buf =
      buf
      |> serialize_const_bytes B catalog
      |> serialize_small_vec B c.schema
      |> serialize_small_vec B c.table
      |> serialize_small_vec B c.org_table
      |> serialize_small_vec B c.name
      |> serialize_small_vec B c.org_name
      |> serialize_const_u8 B fixed_length_fields_len
      |> serialize_int (le_u32 B) c.column_length
      |> serialize_int (le_u16 B) c.character_set
      |> serialize_constant (u8 B) column_type_u8 c.column_type
      |> serialize_constant (le_u16 B) (λ bits. bits) c.flags
      |> serialize_int (u8 B) c.decimals
      |> serialize_skipped B 2
