-- ===== src/Packets/Column/Payload.antt =====
-- The definition of a column as the protocol describes it, and src/packets/mod.rs's parser on it.
use rust_mysql_common.Base.{
  ◌^◌, ◌<◌, ◌≡◌, ◌≢◌, refl, bit_and, [], ◌∷◌, ◌++◌, arith, length, replicate,
}
use rust_mysql_common.Base.Bytes.{Bytes, to_le_bytes}
use rust_mysql_common.Base.Result.{ok}
use rust_mysql_common.Io.BufMut.{BufMut}
use rust_mysql_common.Io.RoundTrip.{lenenc}
use rust_mysql_common.Raw.{parse, parse_unchecked}
use rust_mysql_common.Raw.Int.{u8, le_u16}
use rust_mysql_common.Raw.Text.{const_bytes, bytes_eq, small_vec}
use rust_mysql_common.Raw.Numbers.{w8, w16, w32}
use rust_mysql_common.Constants
use rust_mysql_common.Constants.{ColumnType, column_type_u8, column_type_try_from}
use rust_mysql_common.Constants.RoundTrip.{column_type_of_u8, column_type_u8-byte}
use rust_mysql_common.Constants.Flags.{Bitflags, all_column_flags}
use rust_mysql_common.Packets.Fields.{
  Reads, Reads-then, Reads-map, Reads-within, sized-Reads, unsigned-Reads_unchecked,
  header-Reads_unchecked,
}
use rust_mysql_common.Packets.Strings.{
  lenenc_str-Reads, constant-Reads_unchecked, array-Reads_unchecked, skipped-Reads_unchecked,
}
use rust_mysql_common.Packets.Column.{Column, catalog, Numbers, numbers, column}

catalog-Reads : Reads (parse (const_bytes catalog) tt) catalog tt
unfolding const_bytes bytes_eq parse_unchecked
catalog-Reads =
    sized-Reads (const_bytes catalog) tt 4 catalog tt refl refl
      (Reads-then _ {w = []} (array-Reads_unchecked 4 catalog refl) (record { on = λ rest. refl }))

abbrev pub lenenc_str : Bytes → Bytes
lenenc_str s = lenenc (length s) ++ s

-- The bytes of the numbers, and the definition.
abbrev number_bytes : Column → Bytes
number_bytes c =
    (0x0c ∷ [])
    ++ (to_le_bytes 2 c.character_set
        ++ (to_le_bytes 4 c.column_length
            ++ (to_le_bytes 1 (column_type_u8 c.column_type)
                ++ (to_le_bytes 2 c.flags ++ (to_le_bytes 1 c.decimals ++ replicate 2 0)))))

abbrev pub definition : Column → Bytes
definition c =
    catalog
    ++ (lenenc_str c.schema
        ++ (lenenc_str c.table
            ++ (lenenc_str c.org_table
                ++ (lenenc_str c.name ++ (lenenc_str c.org_name ++ number_bytes c)))))

-- The texts have lengths that can be encoded, the numbers are in their types, the type is one that
-- is read, and the flags are known.
abbrev pub IsColumn : Column → Type 0
IsColumn c =
    (length c.schema < 2 ^ 64)
    × (length c.table < 2 ^ 64)
    × (length c.org_table < 2 ^ 64)
    × (length c.name < 2 ^ 64)
    × (length c.org_name < 2 ^ 64)
    × (c.character_set < 2 ^ 16)
    × (c.column_length < 2 ^ 32)
    × (c.column_type ≢ Constants.mysql_type_newdate)
    × (c.flags < 2 ^ 16)
    × (bit_and c.flags all_column_flags ≡ c.flags)
    × (c.decimals < 256)

module _ (B : BufMut) (F : Bitflags) where
  text-Reads :
      (s : Bytes) → length s < 2 ^ 64 → Reads (parse_unchecked (small_vec B) tt) (lenenc_str s) s
  unfolding small_vec parse_unchecked
  text-Reads s h = lenenc_str-Reads B s h

  abbrev numbers_of : Column → Numbers
  numbers_of c = record {
    character_set = c.character_set;
    column_length = c.column_length;
    column_type = c.column_type;
    flags = c.flags;
    decimals = c.decimals;
  }

  numbers-Reads : (c : Column) → IsColumn c → Reads (numbers B F) (number_bytes c) (numbers_of c)
  unfolding to_le_bytes
  numbers-Reads c (_, _, _, _, _, hs, hl, ht, hf, known, hd) =
      Reads-then _ (header-Reads_unchecked 0x0c (omega arith)) (
        Reads-then _ (unsigned-Reads_unchecked B w16 c.character_set hs) (
          Reads-then _ (unsigned-Reads_unchecked B w32 c.column_length hl) (
            Reads-then _
              (constant-Reads_unchecked (u8 B) column_type_try_from (column_type_u8 c.column_type)
                c.column_type _ (column_type_of_u8 c.column_type ht)
                (unsigned-Reads_unchecked B w8 (column_type_u8 c.column_type)
                  (column_type_u8-byte c.column_type)))
              (Reads-then _
                (constant-Reads_unchecked (le_u16 B) (F.from_bits all_column_flags) c.flags c.flags
                  _ (F.from_bits_lem all_column_flags c.flags known)
                  (unsigned-Reads_unchecked B w16 c.flags hf))
                (Reads-then _ (unsigned-Reads_unchecked B w8 c.decimals hd)
                  (Reads-map _ (skipped-Reads_unchecked 2)))))))

  -- A column's definition as the protocol puts it, for a column with texts whose lengths can be
  -- encoded, numbers in their types, a type other than `MYSQL_TYPE_NEWDATE` and known flags, is parsed
  -- to this column, whatever follows.
  pub column-definition :
      (c : Column) (rest : Bytes)
      → IsColumn c
      → parse (column B F) tt (definition c ++ rest) ≡ ok (c, rest)
  unfolding column to_le_bytes parse parse_unchecked
  column-definition c rest h =
      let r : Reads (parse (column B F) tt) (definition c) c = Reads-then _ catalog-Reads (
        Reads-then _ (text-Reads c.schema h.0) (
          Reads-then _ (text-Reads c.table h.1) (
            Reads-then _ (text-Reads c.org_table h.2) (
              Reads-then _ (text-Reads c.name h.3) (
                Reads-then _ (text-Reads c.org_name h.4)
                  (Reads-map _ (Reads-within refl (numbers-Reads c h)))))))) in
      r.on rest
