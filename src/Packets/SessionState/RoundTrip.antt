-- ===== src/Packets/SessionState/RoundTrip.antt =====
-- src/packets/session_state_change.rs: the changes of a session, written and read.
use rust_mysql_common.Base.{
  ℕ, zero, suc, ◌^◌, ◌<◌, ◌≡◌, refl, ap, ◌∙◌, Bool, true, false, some, List, [], ◌∷◌, ◌++◌, arith,
  length, length-append, append_assoc, All, All-map, ltb, Bool-cases, inl, inr,
}
use rust_mysql_common.Base.Bytes.{Bytes}
use rust_mysql_common.Base.Result.{ok}
use rust_mysql_common.Io.BufMut.{BufMut}
use rust_mysql_common.Io.ParseBuf.{is_empty, len}
use rust_mysql_common.Io.RoundTrip.{lenenc, put_lenenc_int-lenenc}
use rust_mysql_common.Raw.{parse, parse_unchecked}
use rust_mysql_common.Raw.Text.{raw_bytes, serialize_raw, len_enc_bytes, eof_bytes, bytes_eq}
use rust_mysql_common.Constants.{
  SessionStateType, session_track_system_variables, session_track_schema,
  session_track_state_change, session_track_gtids, session_track_transaction_characteristics,
  session_track_transaction_state,
}
use rust_mysql_common.Packets.Fields.{
  Writes, Reads, Ends, Writes-then, Reads-then, Reads-map, Ends-map, Ends-of,
}
use rust_mysql_common.Packets.Strings.{lenenc_str-Reads, eof-Writes, eof-Ends, array-Writes}
use rust_mysql_common.Packets.Sequences.{concat, elements-Writes}
use rust_mysql_common.Packets.SessionState.{
  SystemVariable, SessionStateChange, is_tracked, schema, system_variables, gtids,
  transaction_characteristics, transaction_state, push_variable, variables_change, text,
  system_variable, serialize_system_variable, parse_variables, session_state_change,
  serialize_change,
}

abbrev lenenc_str : Bytes → Bytes
lenenc_str s = lenenc (length s) ++ s

abbrev variable_bytes : SystemVariable → Bytes
variable_bytes v = lenenc_str v.name ++ lenenc_str v.value

abbrev IsVariable : SystemVariable → Type 0
IsVariable v = (length v.name < 2 ^ 64) × (length v.value < 2 ^ 64)

-- A change of the type that is tracked, with texts whose lengths can be encoded.
pub data Tracks : SessionStateType → SessionStateChange → Type 0 where
  variables :
      (vars : List SystemVariable)
      → All (λ v. (length v.name < 2 ^ 64) × (length v.value < 2 ^ 64)) vars
      → Tracks session_track_system_variables (system_variables vars)
  schema_of : (s : Bytes) → length s < 2 ^ 64 → Tracks session_track_schema (schema s)
  state_of : (b : Bool) → Tracks session_track_state_change (is_tracked b)
  gtids_of : (s : Bytes) → Tracks session_track_gtids (gtids s)
  characteristics_of :
      (s : Bytes)
      → length s < 2 ^ 64
      → Tracks session_track_transaction_characteristics (transaction_characteristics s)
  transaction_of :
      (s : Bytes) → length s < 2 ^ 64 → Tracks session_track_transaction_state (transaction_state s)

nonempty : (xs : Bytes) → 0 < length xs → is_empty xs ≡ false
unfolding is_empty len
nonempty [] h = absurd (omega arith)
nonempty (x ∷ xs) h = ground arith

none_left : is_empty [] ≡ true
unfolding is_empty len
none_left = refl

lenenc-positive : (n : ℕ) → 0 < length (lenenc n)
lenenc-positive n = elim (Bool-cases (ltb n 251)) [
  | inl e ↦ rw e (omega arith)
  | inr e ↦ elim (Bool-cases (ltb n 65_536)) [
    | inl e' ↦ rw (e, e') (omega arith)
    | inr e' ↦ elim (Bool-cases (ltb n 16_777_216)) [
      | inl e'' ↦ rw (e, e', e'') (omega arith)
      | inr e'' ↦ rw (e, e', e'') (omega arith)
    ]
  ]
]

module _ (B : BufMut) where
  text-Writes :
      (s : Bytes) → length s < 2 ^ 64 → Writes (serialize_raw (len_enc_bytes B) s) (lenenc_str s)
  unfolding serialize_raw len_enc_bytes
  text-Writes s h buf =
      B.put_slice_lem _ s
      ∙ ap (λ t. t ++ s) (put_lenenc_int-lenenc B buf (length s) h)
      ∙ append_assoc buf (lenenc (length s)) s

  text-Reads :
      (s : Bytes) → length s < 2 ^ 64 → Reads (parse_unchecked (text B) tt) (lenenc_str s) s
  unfolding raw_bytes len_enc_bytes parse parse_unchecked
  text-Reads s h = lenenc_str-Reads B s h

  rest-Ends : (s : Bytes) → Ends (parse_unchecked (raw_bytes (eof_bytes B)) tt) s s
  unfolding raw_bytes eof_bytes parse parse_unchecked
  rest-Ends s = eof-Ends B s

  variable-Writes :
      (v : SystemVariable)
      → IsVariable v
      → Writes (serialize_system_variable B v) (variable_bytes v)
  unfolding serialize_system_variable
  variable-Writes v (hn, hv) = Writes-then (text-Writes v.name hn) (text-Writes v.value hv)

  variable-Reads :
      (v : SystemVariable)
      → IsVariable v
      → Reads (parse_unchecked (system_variable B) tt) (variable_bytes v) v
  unfolding system_variable parse_unchecked
  variable-Reads v (hn, hv) =
      Reads-then _ (text-Reads v.name hn) (Reads-map _ (text-Reads v.value hv))

  variables-read :
      (vars : List SystemVariable) (fuel : ℕ)
      → All IsVariable vars
      → length (concat variable_bytes vars) < fuel
      → parse_variables B fuel (concat variable_bytes vars) ≡ some (ok vars)
  unfolding parse_variables push_variable
  variables-read vars zero h k = absurd (omega arith)
  variables-read [] (suc fuel) h k = rw (parse_variables, none_left)
  variables-read (v ∷ vars) (suc fuel) (hv, h) k =
      let rest : Bytes = concat variable_bytes vars in
      let size : 0 < length (variable_bytes v) = omega (
        arith,
        length-append (lenenc_str v.name) (lenenc_str v.value),
        length-append (lenenc (length v.name)) v.name,
        lenenc-positive (length v.name),
      ) in
      let more : is_empty (concat variable_bytes (v ∷ vars)) ≡ false =
        nonempty (variable_bytes v ++ rest)
          (omega (arith, length-append (variable_bytes v) rest)) in
      let one : parse_unchecked (system_variable B) tt (concat variable_bytes (v ∷ vars))
          ≡ ok (v, rest) =
        (variable-Reads v hv).on rest in
      rw (
        parse_variables,
        more,
        one,
        variables-read vars fuel h (omega (arith, length-append (variable_bytes v) rest)),
      )

  -- A change of the session, with texts whose lengths can be encoded, is read back from what is
  -- written for it by the reader of its type, which leaves nothing of it.
  pub session_state_change-reads :
      (ty : SessionStateType) (c : SessionStateChange)
      → Tracks ty c
      → (written : Bytes) × ((buf : Bytes) → serialize_change B c buf ≡ buf ++ written)
        × (session_state_change B ty written ≡ some (ok (c, [])))
  unfolding session_state_change serialize_change variables_change bytes_eq
  session_state_change-reads _ _ (variables vars h) = (
    concat variable_bytes vars,
    elements-Writes variable_bytes (serialize_system_variable B) vars
        (All-map IsVariable _ vars variable-Writes h),
    ap variables_change
        (variables-read vars (suc (length (concat variable_bytes vars))) h (omega arith)),
  )
  session_state_change-reads _ _ (schema_of s h) =
      (lenenc_str s, text-Writes s h, ap some (Ends-map schema (Ends-of (text-Reads s h))).on)
  session_state_change-reads _ _ (state_of true) = (
    1 ∷ b'1' ∷ [],
    array-Writes B (1 ∷ b'1' ∷ []),
    ap some
        (Ends-map (λ t. is_tracked (bytes_eq t (b'1' ∷ [])))
          (Ends-of (text-Reads (b'1' ∷ []) (omega arith)))).on,
  )
  session_state_change-reads _ _ (state_of false) = (
    1 ∷ b'0' ∷ [],
    array-Writes B (1 ∷ b'0' ∷ []),
    ap some
        (Ends-map (λ t. is_tracked (bytes_eq t (b'1' ∷ [])))
          (Ends-of (text-Reads (b'0' ∷ []) (omega arith)))).on,
  )
  session_state_change-reads _ _ (gtids_of s) =
      (s, eof-Writes B s, ap some (Ends-map gtids (rest-Ends s)).on)
  session_state_change-reads _ _ (characteristics_of s h) = (
    lenenc_str s,
    text-Writes s h,
    ap some (Ends-map transaction_characteristics (Ends-of (text-Reads s h))).on,
  )
  session_state_change-reads _ _ (transaction_of s h) = (
    lenenc_str s,
    text-Writes s h,
    ap some (Ends-map transaction_state (Ends-of (text-Reads s h))).on,
  )
