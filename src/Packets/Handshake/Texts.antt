-- ===== src/Packets/Handshake/Texts.antt =====
-- src/packets/mod.rs: the texts of `HandshakePacket`, written and read.
use rust_mysql_common.Base.{
  ℕ, ◌+◌, ◌-◌, ◌<◌, ◌≤◌, ◌≡◌, refl, ap, sym, ◌∙◌, bit_and, Bool, true, false, Option, none, some,
  [], ◌∷◌, ◌++◌, arith, length, take, take_all, min, max, ◌==◌, lt→ltb, if◌then◌else◌, append-nil,
}
use rust_mysql_common.Base.Bytes.{Bytes}
use rust_mysql_common.Base.Result
use rust_mysql_common.Base.Result.{ok}
use rust_mysql_common.Io.BufMut.{BufMut}
use rust_mysql_common.Io.ParseBuf.{Parser, ◌>>=◌, map_parser, eat_all}
use rust_mysql_common.Io.NullStr.{NoNull, strip_null-append, eat_whole}
use rust_mysql_common.Raw.{parse, parse_unchecked}
use rust_mysql_common.Raw.Text.{raw_bytes, serialize_raw, null_bytes, bare_bytes, effective_len}
use rust_mysql_common.Raw.Texts.{null_bytes_written}
use rust_mysql_common.Constants.Flags.{Bitflags, client_secure_connection, client_plugin_auth}
use rust_mysql_common.Packets.Fields.{Writes, Reads, Ends, Reads-map, Ends-then, Ends-map}
use rust_mysql_common.Packets.Strings.{eaten-Reads}
use rust_mysql_common.Packets.Handshake.{
  scramble_2_len, max_scramble_2, sized_scramble, scramble_of, name_of, has, written_data_len,
  serialize_option,
}

eat_all-ok : (buf : Bytes) → eat_all buf ≡ ok (buf, [])
unfolding eat_all
eat_all-ok buf = eat_whole buf

-- The texts behind the numbers, by the capabilities that stand for them.
abbrev pub HasTexts : ℕ → ℕ → Option Bytes → Option Bytes → Type 0
HasTexts secure plugin none none = (secure ≡ 0) × (plugin ≡ 0)
HasTexts secure plugin none (some name) = (secure ≡ 0) × (plugin ≡ client_plugin_auth) × NoNull name
HasTexts secure plugin (some t) none =
    (secure ≡ client_secure_connection) × (plugin ≡ 0) × (length t ≡ 13)
HasTexts secure plugin (some t) (some name) =
    (secure ≡ client_secure_connection)
    × (plugin ≡ client_plugin_auth)
    × (13 ≤ length t)
    × (length t < 120)
    × NoNull name

abbrev pub scramble_bytes : Option Bytes → Bytes
scramble_bytes none = []
scramble_bytes (some t) = t

abbrev pub name_bytes : Option Bytes → Bytes
name_bytes none = []
name_bytes (some name) = name ++ 0 ∷ []

abbrev pub HasName : Option Bytes → Type 0
HasName none = Unit {0}
HasName (some name) = NoNull name

pub texts-fit :
    (s name : Option Bytes) (secure plugin : ℕ)
    → HasTexts secure plugin s name
    → (length (scramble_bytes s) ≤ 247) × HasName name
texts-fit none none secure plugin h = (omega arith, tt)
texts-fit none (some name) secure plugin (hs, hp, hn) = (omega arith, hn)
texts-fit (some t) none secure plugin (hs, hp, ht) = (omega arith, tt)
texts-fit (some t) (some name) secure plugin (hs, hp, low, high, hn) = (omega arith, hn)

module _ (B : BufMut) where
  bare-Writes :
      (t : Bytes) → length t ≤ 247 → Writes (serialize_raw (bare_bytes B max_scramble_2) t) t
  unfolding serialize_raw bare_bytes
  bare-Writes t h buf =
      let e : min (length t) 247 ≡ length t = omega arith in
      ap (λ k. B.put_slice buf (take k t)) e
      ∙ ap (B.put_slice buf) (take_all (length t) t (omega arith))
      ∙ B.put_slice_lem buf t

  pub scramble-Writes :
      (o : Option Bytes)
      → length (scramble_bytes o) ≤ 247
      → Writes (serialize_option (serialize_raw (bare_bytes B max_scramble_2)) o) (scramble_bytes o)
  scramble-Writes none h buf = sym (append-nil buf)
  scramble-Writes (some t) h buf = bare-Writes t h buf

  pub name-Writes :
      (o : Option Bytes)
      → HasName o
      → Writes (serialize_option (serialize_raw (null_bytes B)) o) (name_bytes o)
  name-Writes none h buf = sym (append-nil buf)
  name-Writes (some name) h buf = null_bytes_written B name buf h

  -- The length that is written in front.
  abbrev pub data_len : Bitflags → ℕ → Option Bytes → ℕ
  data_len F caps o = if F.contains caps client_plugin_auth then written_data_len B F o else 0

  module _ (F : Bitflags) where
    -- What is read behind the numbers.
    scramble_len-Reads :
        (t : Bytes) (n : ℕ)
        → scramble_2_len n ≡ ok (length t)
        → Reads (scramble_of B F true n) t (some t)
    unfolding raw_bytes bare_bytes parse parse_unchecked
    scramble_len-Reads t n h = record {
      on = λ rest.
          ap (λ r. Result.◌>>=◌ r (λ len. sized_scramble B F len (t ++ rest))) h
          ∙ (Reads-map some (eaten-Reads t)).on rest;
    }

    name-Ends : (name : Bytes) → NoNull name → Ends (name_of true) (name ++ 0 ∷ []) (some name)
    name-Ends name h = record {
      on =
          Result.>>=-ok (eat_all (name ++ 0 ∷ [])) _ (eat_all-ok (name ++ 0 ∷ []))
          ∙ ap (λ t. ok (some t, [])) (strip_null-append name h);
    }

    -- A packet `g` of the texts, which are read as the capabilities and the length say.
    abbrev texts : {A : Type 0} → (Option Bytes → Option Bytes → A) → Bool → Bool → ℕ → Parser A
    texts g secure plugin n = scramble_of B F secure n >>= λ s. map_parser (g s) (name_of plugin)

    data_len-none :
        (caps : ℕ) (o : Option Bytes) → bit_and caps client_plugin_auth ≡ 0 → data_len F caps o ≡ 0
    data_len-none caps o h =
        let e : F.contains caps client_plugin_auth ≡ false =
          F.contains_lem caps client_plugin_auth ∙ ap (λ b. b == client_plugin_auth) h in
        rw e

    data_len-some :
        (caps : ℕ) (t : Bytes)
        → bit_and caps client_plugin_auth ≡ client_plugin_auth
        → length t < 120
        → data_len F caps (some t) ≡ length t + 8
    unfolding effective_len bare_bytes
    data_len-some caps t h short =
        let e : F.contains caps client_plugin_auth ≡ true =
          F.contains_lem caps client_plugin_auth ∙ ap (λ b. b == client_plugin_auth) h in
        rw e (omega arith)

    scramble_2_len-ok : (n : ℕ) → 13 ≤ n → n < 120 → scramble_2_len (n + 8) ≡ ok n
    unfolding scramble_2_len
    scramble_2_len-ok n low high =
        let e : max 13 (n + 8 - 8) ≡ n = omega arith in rw (lt→ltb (n + 8) 128 (omega arith), e)

    pub texts-Ends :
        {A : Type 0} (g : Option Bytes → Option Bytes → A) (caps1 caps2 : ℕ) (s name : Option Bytes)
        → HasTexts
            (bit_and caps1 client_secure_connection)
            (bit_and caps2 client_plugin_auth)
            s
            name
        → Ends
            (texts g
              (has caps1 client_secure_connection)
              (has caps2 client_plugin_auth)
              (data_len F caps2 s))
            (scramble_bytes s ++ name_bytes name)
            (g s name)
    unfolding scramble_2_len
    texts-Ends g caps1 caps2 none none (hs, hp) = record { on = rw (hs, hp) refl }
    texts-Ends g caps1 caps2 none (some name) (hs, hp, hn) = record {
      on = rw (hs, hp) (Ends-map (g none) (name-Ends name hn)).on;
    }
    texts-Ends g caps1 caps2 (some t) none (hs, hp, ht) =
        let h : Ends (texts g true false 0) (t ++ []) (g (some t) none) =
          Ends-then _ (scramble_len-Reads t 0 (ap ok (sym ht))) (record { on = refl }) in
        record { on = rw (hs, hp, data_len-none caps2 (some t) hp) h.on }
    texts-Ends g caps1 caps2 (some t) (some name) (hs, hp, low, high, hn) =
        let h : Ends (texts g true true (length t + 8)) (t ++ (name ++ 0 ∷ []))
            (g (some t) (some name)) =
          Ends-then _ (scramble_len-Reads t (length t + 8) (scramble_2_len-ok (length t) low high))
            (Ends-map _ (name-Ends name hn)) in
        record { on = rw (hs, hp, data_len-some caps2 t hp high) h.on }
