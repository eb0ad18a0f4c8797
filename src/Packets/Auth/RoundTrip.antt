-- ===== src/Packets/Auth/RoundTrip.antt =====
-- src/packets/mod.rs: the names of the authentication plugins and the packet that asks for one,
-- written and read.
use rust_mysql_common.Base.{
  zero, suc, sym, ◌≢◌, Bool, true, false, Bool-cases, inl, inr, refl, ◌==◌, ◌&&◌, ==_iff, ◌≡◌, ap,
  ◌∙◌, [], ◌∷◌, ◌++◌, arith,
}
use rust_mysql_common.Base.Bytes.{Bytes}
use rust_mysql_common.Base.Result
use rust_mysql_common.Base.Result.{ok}
use rust_mysql_common.Io.BufMut.{BufMut}
use rust_mysql_common.Io.ParseBuf.{eat_all}
use rust_mysql_common.Io.NullStr.{NoNull, strip_null-append, strip_null_none, eat_whole}
use rust_mysql_common.Raw.{parse, parse_unchecked}
use rust_mysql_common.Raw.Parse.{WholeTrips}
use rust_mysql_common.Raw.Text.{raw_bytes, null_bytes, bytes_eq}
use rust_mysql_common.Raw.Texts.{null_bytes_written, null_bytes_read}
use rust_mysql_common.Packets.Fields.{
  Writes, Reads, Ends, Writes-then, Ends-then, Ends-map, whole_trips, header-Writes, header-Reads,
}
use rust_mysql_common.Packets.Strings.{eof-Writes, eof-Ends}
use rust_mysql_common.Packets.Auth.{
  mysql_old_password_plugin_name, mysql_native_password_plugin_name,
  caching_sha2_password_plugin_name, mysql_clear_password_plugin_name, mysql_old_password,
  mysql_clear_password, mysql_native_password, caching_sha2_password, other, AuthPlugin,
  plugin_named, from_bytes, as_bytes, auth_plugin, requested_plugin, serialize_auth_plugin,
  auth_switch_request, serialize_auth_switch_request,
}

-- A plugin of a name of its own has a name without a zero byte, which is that of no other plugin.
abbrev pub IsPlugin : AuthPlugin → Type 0
IsPlugin mysql_old_password = Unit {0}
IsPlugin mysql_clear_password = Unit {0}
IsPlugin mysql_native_password = Unit {0}
IsPlugin caching_sha2_password = Unit {0}
IsPlugin (other name) =
    NoNull name
    × (name ≢ caching_sha2_password_plugin_name)
    × (name ≢ mysql_native_password_plugin_name)
    × (name ≢ mysql_old_password_plugin_name)
    × (name ≢ mysql_clear_password_plugin_name)

bytes_eq_sound : (xs ys : Bytes) → bytes_eq xs ys ≡ true → xs ≡ ys
unfolding bytes_eq
bytes_eq_sound [] [] h = refl
bytes_eq_sound [] (y ∷ ys) h = ground arith
bytes_eq_sound (x ∷ xs) [] h = ground arith
bytes_eq_sound (x ∷ xs) (y ∷ ys) h = elim (Bool-cases (x == y)) [
  | inl e ↦
      let rest : bytes_eq xs ys ≡ true = sym (ap (λ b. b && bytes_eq xs ys) e) ∙ h in
      ap (λ t. t ∷ xs) ((==_iff x y).0 e) ∙ ap (λ t. y ∷ t) (bytes_eq_sound xs ys rest)
  | inr e ↦ let no : false ≡ true = sym (ap (λ b. b && bytes_eq xs ys) e) ∙ h in ground arith
]

bytes_eq-false : (xs ys : Bytes) → xs ≢ ys → bytes_eq xs ys ≡ false
bytes_eq-false xs ys h = elim (Bool-cases (bytes_eq xs ys)) [
  | inl e ↦ absurd (h (bytes_eq_sound xs ys e))
  | inr e ↦ e
]

-- The name of a plugin stands for this plugin.
plugin_named-as_bytes :
    (plugin : AuthPlugin) → IsPlugin plugin → plugin_named (as_bytes plugin) ≡ plugin
unfolding plugin_named as_bytes bytes_eq
plugin_named-as_bytes mysql_old_password h = refl
plugin_named-as_bytes mysql_clear_password h = refl
plugin_named-as_bytes mysql_native_password h = refl
plugin_named-as_bytes caching_sha2_password h = refl
plugin_named-as_bytes (other name) (_, hs, hn, ho, hc) = rw (
  plugin_named,
  bytes_eq-false name caching_sha2_password_plugin_name hs,
  bytes_eq-false name mysql_native_password_plugin_name hn,
  bytes_eq-false name mysql_old_password_plugin_name ho,
  bytes_eq-false name mysql_clear_password_plugin_name hc,
)

no_zero : Bytes → Bool
no_zero [] = true
no_zero (zero ∷ xs) = false
no_zero (suc x ∷ xs) = no_zero xs

no_zero-NoNull : (xs : Bytes) → no_zero xs ≡ true → NoNull xs
unfolding no_zero
no_zero-NoNull [] h = tt
no_zero-NoNull (zero ∷ xs) h = ground arith
no_zero-NoNull (suc x ∷ xs) h = ((λ z. omega arith), no_zero-NoNull xs h)

as_bytes-NoNull : (plugin : AuthPlugin) → IsPlugin plugin → NoNull (as_bytes plugin)
unfolding as_bytes no_zero
as_bytes-NoNull mysql_old_password h = no_zero-NoNull mysql_old_password_plugin_name refl
as_bytes-NoNull mysql_clear_password h = no_zero-NoNull mysql_clear_password_plugin_name refl
as_bytes-NoNull mysql_native_password h = no_zero-NoNull mysql_native_password_plugin_name refl
as_bytes-NoNull caching_sha2_password h = no_zero-NoNull caching_sha2_password_plugin_name refl
as_bytes-NoNull (other name) h = h.0

module _ (B : BufMut) where
  plugin-Writes :
      (plugin : AuthPlugin) → Writes (serialize_auth_plugin B plugin) (as_bytes plugin ++ 0 ∷ [])
  unfolding serialize_auth_plugin
  plugin-Writes plugin =
      Writes-then (λ buf. B.put_slice_lem buf (as_bytes plugin))
        (λ buf. B.put_u8_lem buf 0 (omega arith))

  plugin-Ends :
      (plugin : AuthPlugin)
      → IsPlugin plugin
      → Ends (parse auth_plugin tt) (as_bytes plugin ++ 0 ∷ []) plugin
  unfolding auth_plugin from_bytes eat_all parse parse_unchecked
  plugin-Ends plugin is = record {
    on =
        Result.>>=-ok (eat_all (as_bytes plugin ++ 0 ∷ [])) _
          (eat_whole (as_bytes plugin ++ 0 ∷ []))
        ∙ ap (λ name. ok (plugin_named name, []))
            (strip_null-append (as_bytes plugin) (as_bytes-NoNull plugin is))
        ∙ ap (λ p. ok (p, [])) (plugin_named-as_bytes plugin is);
  }

  -- A request to use a plugin is read back, and the plugin that a client sees in it is the one that
  -- was asked for; a plugin that is written by itself is read back too. The plugin is one of the four
  -- that have a constructor, or one with a name other than theirs and without a zero byte.
  pub auth_switch-WholeTrips :
      (plugin : AuthPlugin) (content : Bytes)
      → IsPlugin plugin
      → WholeTrips (serialize_auth_plugin B) auth_plugin tt plugin
        × WholeTrips
            (serialize_auth_switch_request B)
            (auth_switch_request B)
            tt
            (record { auth_plugin = as_bytes plugin; plugin_data = content })
        × (requested_plugin (record { auth_plugin = as_bytes plugin; plugin_data = content })
            ≡ plugin)
  unfolding serialize_auth_switch_request auth_switch_request requested_plugin from_bytes parse
      parse_unchecked
  auth_switch-WholeTrips plugin content is =
      let h : NoNull (as_bytes plugin) = as_bytes-NoNull plugin is in
      let name : Reads (parse (raw_bytes (null_bytes B)) tt) (as_bytes plugin ++ 0 ∷ [])
          (as_bytes plugin) =
        record { on = λ rest. null_bytes_read B (as_bytes plugin) rest h } in
      (
        whole_trips (plugin-Writes plugin) (plugin-Ends plugin is),
        whole_trips
            (Writes-then (header-Writes B 0xfe (omega arith)) (
              Writes-then (λ buf. null_bytes_written B (as_bytes plugin) buf h)
                (eof-Writes B content)))
            (Ends-then _ (header-Reads 0xfe (omega arith))
              (Ends-then _ name (Ends-map _ (eof-Ends B content)))),
        ap plugin_named (strip_null_none (as_bytes plugin) h) ∙ plugin_named-as_bytes plugin is,
      )
