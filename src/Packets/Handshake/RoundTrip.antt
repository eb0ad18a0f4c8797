-- ===== src/Packets/Handshake/RoundTrip.antt =====
-- src/packets/mod.rs: `HandshakePacket` written and read.
use rust_mysql_common.Base.{
  ℕ, ◌/◌, ◌%◌, ◌^◌, ◌<◌, ◌≤◌, ◌≡◌, ap, sym, ◌∙◌, bit_and, Option, none, some, [], ◌∷◌, ◌++◌, arith,
  length, replicate, ◌|>◌, length-append, Bool-cases, inl, inr,
}
use rust_mysql_common.Base.Masks.{bit_and-low}
use rust_mysql_common.Base.Bytes.{Bytes, to_le_bytes}
use rust_mysql_common.Base.Result.{ok}
use rust_mysql_common.Io.BufMut.{BufMut}
use rust_mysql_common.Io.ParseBuf.{◌>>=◌}
use rust_mysql_common.Io.NullStr.{NoNull}
use rust_mysql_common.Raw.{parse, parse_unchecked, parse_buf, within, serialize_bytes}
use rust_mysql_common.Raw.Int.{
  serialize_int, u8, le_u16, le_u32, le_u32_lower_half, le_u32_upper_half,
}
use rust_mysql_common.Raw.Numbers.{byte_of, w8, w16, w32}
use rust_mysql_common.Raw.Text.{raw_bytes, null_bytes}
use rust_mysql_common.Raw.Texts.{null_bytes_written, null_bytes_read}
use rust_mysql_common.Raw.Constant.{serialize_constant}
use rust_mysql_common.Constants.Flags.{
  Bitflags, all_status_flags, all_capability_flags, union, client_secure_connection,
  client_plugin_auth,
}
use rust_mysql_common.Packets.Fields.{
  Writes, Reads, Ends, Writes-then, Reads-then, Reads-map, Reads-within, Ends-then, unsigned-Writes,
  unsigned-Reads, unsigned-Reads_unchecked,
}
use rust_mysql_common.Packets.Strings.{
  array-Writes, array-Reads_unchecked, skipped-Reads_unchecked, constant-Writes,
  constant-Reads_unchecked,
}
use rust_mysql_common.Packets.Handshake.{
  HandshakePacket, Numbers, handshake_numbers, handshake_texts, handshake_packet, written_data_len,
  serialize_handshake,
}
use rust_mysql_common.Packets.Handshake.Halves.{
  lower-Writes, lower-Reads_unchecked, upper-Writes, upper-Reads_unchecked,
}
use rust_mysql_common.Packets.Handshake.Texts.{
  HasTexts, scramble_bytes, HasName, texts-fit, scramble-Writes, name-Writes, data_len, texts-Ends,
}

-- The fields are in their types, the status flags are known, the halves of the capabilities are
-- halves, and the texts are the ones that the capabilities stand for.
abbrev pub IsHandshake : HandshakePacket → Type 0
IsHandshake p =
    (p.protocol_version < 256)
    × NoNull p.server_version
    × (p.connection_id < 2 ^ 32)
    × (8 ≡ length p.scramble_1)
    × (p.capabilities_1 < 2 ^ 16)
    × (p.default_collation < 256)
    × (p.status_flags < 2 ^ 16)
    × (bit_and p.status_flags all_status_flags ≡ p.status_flags)
    × (p.capabilities_2 < 2 ^ 32)
    × (p.capabilities_2 % 2 ^ 16 ≡ 0)
    × HasTexts (bit_and p.capabilities_1 client_secure_connection)
        (bit_and p.capabilities_2 client_plugin_auth) p.scramble_2 p.auth_plugin_name

module _ (B : BufMut) (F : Bitflags) where
  -- The numbers that are read for a packet.
  abbrev numbers_of : HandshakePacket → Numbers
  numbers_of p = record {
    connection_id = p.connection_id;
    scramble_1 = p.scramble_1;
    capabilities_1 = p.capabilities_1;
    default_collation = p.default_collation;
    status_flags = p.status_flags;
    capabilities_2 = p.capabilities_2;
    auth_plugin_data_len = data_len B F p.capabilities_2 p.scramble_2;
  }

  written_data_len-lt : (o : Option Bytes) → written_data_len B F o < 256
  written_data_len-lt none = omega arith
  written_data_len-lt (some t) = omega arith

  abbrev later_bytes : HandshakePacket → Bytes
  later_bytes p =
      0 ∷ []
      ++ (to_le_bytes 2 p.capabilities_1
          ++ (to_le_bytes 1 p.default_collation
              ++ (to_le_bytes 2 p.status_flags
                  ++ (to_le_bytes 2 (p.capabilities_2 / 2 ^ 16)
                      ++ (to_le_bytes 1 (data_len B F p.capabilities_2 p.scramble_2)
                          ++ replicate 10 0)))))

  abbrev numbers_bytes : HandshakePacket → Bytes
  numbers_bytes p = to_le_bytes 4 p.connection_id ++ (p.scramble_1 ++ later_bytes p)

  length-numbers : (p : HandshakePacket) → 8 ≡ length p.scramble_1 → 31 ≡ length (numbers_bytes p)
  unfolding to_le_bytes
  length-numbers p h = omega (arith, length-append p.scramble_1 (later_bytes p))

  data_len-lt : (caps : ℕ) (o : Option Bytes) → data_len B F caps o < 256
  data_len-lt caps o = elim (Bool-cases (F.contains caps client_plugin_auth)) [
    | inl e ↦ rw e (written_data_len-lt o)
    | inr e ↦ rw e (omega arith)
  ]

  numbers-Reads :
      (p : HandshakePacket)
      → IsHandshake p
      → Reads
          (parse parse_buf 31 >>= within (handshake_numbers B F))
          (numbers_bytes p)
          (numbers_of p)
  numbers-Reads p (hv, hn, hc, h8, h1, hd, hs, ks, h2, low, ht) =
      Reads-within (length-numbers p h8) (
        Reads-then _ (unsigned-Reads_unchecked B w32 p.connection_id hc) (
          Reads-then _ (array-Reads_unchecked 8 p.scramble_1 h8) (
            Reads-then _ (skipped-Reads_unchecked 1) (
              Reads-then _ (lower-Reads_unchecked B p.capabilities_1 h1) (
                Reads-then _ (unsigned-Reads_unchecked B w8 p.default_collation hd) (
                  Reads-then _
                    (constant-Reads_unchecked (le_u16 B) (F.from_bits all_status_flags)
                      p.status_flags p.status_flags _
                      (F.from_bits_lem all_status_flags p.status_flags ks)
                      (unsigned-Reads_unchecked B w16 p.status_flags hs))
                    (Reads-then _ (upper-Reads_unchecked B p.capabilities_2 h2 low) (
                      Reads-then _
                        (unsigned-Reads_unchecked B w8 (data_len B F p.capabilities_2 p.scramble_2)
                          (data_len-lt p.capabilities_2 p.scramble_2))
                        (Reads-map _ (skipped-Reads_unchecked 10))))))))))

  byte-Writes : (x : ℕ) → x < 256 → Writes (λ buf. B.put_u8 buf x) (to_le_bytes 1 x)
  byte-Writes x h buf = B.put_u8_lem buf x h ∙ ap (λ t. buf ++ t) (sym (byte_of x h))

  numbers-Writes :
      (p : HandshakePacket)
      → IsHandshake p
      → Writes
          (λ buf.
            buf
            |> serialize_int (le_u32 B) p.connection_id
            |> serialize_bytes B p.scramble_1
            |> (λ buf. B.put_u8 buf 0x00)
            |> serialize_constant (le_u32_lower_half B) (λ bits. bits) p.capabilities_1
            |> serialize_int (u8 B) p.default_collation
            |> serialize_constant (le_u16 B) (λ bits. bits) p.status_flags
            |> serialize_constant (le_u32_upper_half B) (λ bits. bits) p.capabilities_2
            |> (λ buf. B.put_u8 buf (data_len B F p.capabilities_2 p.scramble_2))
            |> (λ buf. B.put_slice buf (replicate 10 0)))
          (numbers_bytes p)
  numbers-Writes p (hv, hn, hc, h8, h1, hd, hs, ks, h2, low, ht) =
      (Writes-then (unsigned-Writes B w32 p.connection_id hc) (
        Writes-then (array-Writes B p.scramble_1) (
          Writes-then (λ buf. B.put_u8_lem buf 0x00 (omega arith))
            (Writes-then (lower-Writes B p.capabilities_1 h1) (
              Writes-then (unsigned-Writes B w8 p.default_collation hd) (
                Writes-then
                  (constant-Writes (le_u16 B) (λ bits. bits) p.status_flags _
                    (unsigned-Writes B w16 p.status_flags hs))
                  (Writes-then (upper-Writes B p.capabilities_2 h2) (
                    Writes-then
                      (byte-Writes (data_len B F p.capabilities_2 p.scramble_2)
                        (data_len-lt p.capabilities_2 p.scramble_2))
                      (λ buf. B.put_slice_lem buf (replicate 10 0))))))))))

  -- Each of the 32 bits is a flag of the capabilities.
  capabilities-known : (x : ℕ) → x < 2 ^ 32 → F.from_bits_truncate all_capability_flags x ≡ x
  unfolding all_capability_flags union
  capabilities-known x h = F.from_bits_truncate_lem all_capability_flags x ∙ bit_and-low 32 x h

  -- The packet that is read, of its texts.
  abbrev read_packet : HandshakePacket → Option Bytes → Option Bytes → HandshakePacket
  read_packet p s name = record p {
    capabilities_1 = F.from_bits_truncate all_capability_flags p.capabilities_1;
    capabilities_2 = F.from_bits_truncate all_capability_flags p.capabilities_2;
    auth_plugin_data_len = data_len B F p.capabilities_2 p.scramble_2;
    scramble_2 = s;
    auth_plugin_name = name;
  }

  -- A handshake whose fields are in their types, whose status flags are known and whose texts are the
  -- ones that the capabilities stand for is read back, with the length that is written for the
  -- scramble in place of the length that the packet held.
  pub handshake_packet-reads :
      (p : HandshakePacket)
      → IsHandshake p
      → (written : Bytes) × ((buf : Bytes) → serialize_handshake B F p buf ≡ buf ++ written)
        × (parse (handshake_packet B F) tt written
            ≡ ok (
              record p { auth_plugin_data_len = data_len B F p.capabilities_2 p.scramble_2 },
              [],
            ))
  unfolding serialize_handshake handshake_packet parse parse_unchecked
  handshake_packet-reads p (hv, hn, hc, h8, h1, hd, hs, ks, h2, low, ht) =
      let h : IsHandshake p = (hv, hn, hc, h8, h1, hd, hs, ks, h2, low, ht) in
      let fit : (length (scramble_bytes p.scramble_2) ≤ 247) × HasName p.auth_plugin_name =
        texts-fit p.scramble_2 p.auth_plugin_name _ _ ht in
      let w : Writes (serialize_handshake B F p) _ =
        Writes-then (unsigned-Writes B w8 p.protocol_version hv) (
          Writes-then (λ buf. null_bytes_written B p.server_version buf hn)
            (Writes-then (numbers-Writes p h) (
              Writes-then (scramble-Writes B p.scramble_2 fit.0)
                (name-Writes B p.auth_plugin_name fit.1)))) in
      let version : Reads (parse (raw_bytes (null_bytes B)) tt) (p.server_version ++ 0 ∷ [])
          p.server_version =
        record { on = λ rest. null_bytes_read B p.server_version rest hn } in
      let r : Ends (parse (handshake_packet B F) tt) _ _ =
        Ends-then _ (unsigned-Reads B w8 p.protocol_version hv) (
          Ends-then _ version (
            Ends-then (handshake_texts B F p.protocol_version p.server_version) (numbers-Reads p h)
              (texts-Ends B F (read_packet p) p.capabilities_1 p.capabilities_2 p.scramble_2
                p.auth_plugin_name ht))) in
      (
        _,
        w,
        r.on
            ∙ ap
                (λ c. ok (
                  record p {
                    capabilities_1 = c;
                    capabilities_2 = F.from_bits_truncate all_capability_flags p.capabilities_2;
                    auth_plugin_data_len = data_len B F p.capabilities_2 p.scramble_2;
                  },
                  [],
                ))
                (capabilities-known p.capabilities_1 (omega arith))
            ∙ ap
                (λ c. ok (
                  record p {
                    capabilities_2 = c;
                    auth_plugin_data_len = data_len B F p.capabilities_2 p.scramble_2;
                  },
                  [],
                ))
                (capabilities-known p.capabilities_2 h2),
      )
