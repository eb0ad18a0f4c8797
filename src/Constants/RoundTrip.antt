-- ===== src/Constants/RoundTrip.antt =====
-- The bytes of src/constants.rs's enumerations and the values that they are read as.
use rust_mysql_common.Base.{
  arith, ℕ, ◌≡◌, ◌≢◌, ◌↔◌, ◌<◌, refl, ap, sym, ◌∙◌, subst, Bool, true, Option, none, some, ◌==◌,
  ==_iff,
}
use rust_mysql_common.Base.Bits.{holds_below, holds_below-eq-true}
use rust_mysql_common.Constants.{
  SessionStateType, session_state_type_u8, session_state_type_try_from,
  session_track_system_variables, session_track_schema, session_track_state_change,
  session_track_gtids, session_track_transaction_characteristics, session_track_transaction_state,
  GeometryType, geometry_type_u8, geometry_type_try_from, geom_geometry, geom_point,
  geom_linestring, geom_polygon, geom_multipoint, geom_multilinestring, geom_multipolygon,
  geom_geometrycollection, ColumnType, column_type_u8, column_type_try_from, mysql_type_decimal,
  mysql_type_tiny, mysql_type_short, mysql_type_long, mysql_type_float, mysql_type_double,
  mysql_type_null, mysql_type_timestamp, mysql_type_longlong, mysql_type_int24, mysql_type_date,
  mysql_type_time, mysql_type_datetime, mysql_type_year, mysql_type_newdate, mysql_type_varchar,
  mysql_type_bit, mysql_type_timestamp2, mysql_type_datetime2, mysql_type_time2,
  mysql_type_typed_array, mysql_type_unknown, mysql_type_json, mysql_type_newdecimal,
  mysql_type_enum, mysql_type_set, mysql_type_tiny_blob, mysql_type_medium_blob,
  mysql_type_long_blob, mysql_type_blob, mysql_type_var_string, mysql_type_string,
  mysql_type_geometry,
}

-- A byte that is read as a value is the value's byte.
module _ {A : Type 0} (try_from : ℕ → Option A) (as_u8 : A → ℕ) where
  abbrev agrees : ℕ → Option A → Bool
  agrees v none = true
  agrees v (some a) = as_u8 a == v

  agrees_sound : (v : ℕ) (a : A) (o : Option A) → agrees v o ≡ true → o ≡ some a → as_u8 a ≡ v
  agrees_sound v a o h e = (==_iff (as_u8 a) v).0 (subst (λ x. agrees v x ≡ true) e h)

some-ne-none : {A : Type 0} {a : A} → some a ≢ none
some-ne-none {A} {a} e = subst (λ o. elim o [ none ↦ ⊥ | some x ↦ Unit {0} ]) e tt

session_state_type_of_u8 :
    (t : SessionStateType) → session_state_type_try_from (session_state_type_u8 t) ≡ some t
unfolding session_state_type_try_from session_state_type_u8
session_state_type_of_u8 session_track_system_variables = refl
session_state_type_of_u8 session_track_schema = refl
session_state_type_of_u8 session_track_state_change = refl
session_state_type_of_u8 session_track_gtids = refl
session_state_type_of_u8 session_track_transaction_characteristics = refl
session_state_type_of_u8 session_track_transaction_state = refl

session_state_type_to_u8 :
    (v : ℕ) (t : SessionStateType)
    → v < 256
    → session_state_type_try_from v ≡ some t
    → session_state_type_u8 t ≡ v
unfolding session_state_type_try_from session_state_type_u8 holds_below
session_state_type_to_u8 v t h e =
    agrees_sound session_state_type_try_from session_state_type_u8 v t
      (session_state_type_try_from v)
      (holds_below-eq-true
        (λ x.
          agrees session_state_type_try_from session_state_type_u8 x
            (session_state_type_try_from x))
        256 v refl h)
      e

-- A byte is read as a SessionStateType exactly if it is the byte of that value.
session_state_type_try_from_iff :
    (v : ℕ) (t : SessionStateType)
    → v < 256
    → (session_state_type_try_from v ≡ some t) ↔ (session_state_type_u8 t ≡ v)
session_state_type_try_from_iff v t h = (
  session_state_type_to_u8 v t h,
  λ e. sym (ap session_state_type_try_from e) ∙ session_state_type_of_u8 t,
)

geometry_type_of_u8 : (t : GeometryType) → geometry_type_try_from (geometry_type_u8 t) ≡ some t
unfolding geometry_type_try_from geometry_type_u8
geometry_type_of_u8 geom_geometry = refl
geometry_type_of_u8 geom_point = refl
geometry_type_of_u8 geom_linestring = refl
geometry_type_of_u8 geom_polygon = refl
geometry_type_of_u8 geom_multipoint = refl
geometry_type_of_u8 geom_multilinestring = refl
geometry_type_of_u8 geom_multipolygon = refl
geometry_type_of_u8 geom_geometrycollection = refl

geometry_type_to_u8 :
    (v : ℕ) (t : GeometryType)
    → v < 256
    → geometry_type_try_from v ≡ some t
    → geometry_type_u8 t ≡ v
unfolding geometry_type_try_from geometry_type_u8 holds_below
geometry_type_to_u8 v t h e =
    agrees_sound geometry_type_try_from geometry_type_u8 v t (geometry_type_try_from v)
      (holds_below-eq-true
        (λ x. agrees geometry_type_try_from geometry_type_u8 x (geometry_type_try_from x)) 256 v
        refl h)
      e

-- A byte is read as a GeometryType exactly if it is the byte of that value.
geometry_type_try_from_iff :
    (v : ℕ) (t : GeometryType)
    → v < 256
    → (geometry_type_try_from v ≡ some t) ↔ (geometry_type_u8 t ≡ v)
geometry_type_try_from_iff v t h =
    (geometry_type_to_u8 v t h, λ e. sym (ap geometry_type_try_from e) ∙ geometry_type_of_u8 t)

pub column_type_u8-byte : (t : ColumnType) → column_type_u8 t < 256
unfolding column_type_u8
column_type_u8-byte mysql_type_decimal = omega arith
column_type_u8-byte mysql_type_tiny = omega arith
column_type_u8-byte mysql_type_short = omega arith
column_type_u8-byte mysql_type_long = omega arith
column_type_u8-byte mysql_type_float = omega arith
column_type_u8-byte mysql_type_double = omega arith
column_type_u8-byte mysql_type_null = omega arith
column_type_u8-byte mysql_type_timestamp = omega arith
column_type_u8-byte mysql_type_longlong = omega arith
column_type_u8-byte mysql_type_int24 = omega arith
column_type_u8-byte mysql_type_date = omega arith
column_type_u8-byte mysql_type_time = omega arith
column_type_u8-byte mysql_type_datetime = omega arith
column_type_u8-byte mysql_type_year = omega arith
column_type_u8-byte mysql_type_newdate = omega arith
column_type_u8-byte mysql_type_varchar = omega arith
column_type_u8-byte mysql_type_bit = omega arith
column_type_u8-byte mysql_type_timestamp2 = omega arith
column_type_u8-byte mysql_type_datetime2 = omega arith
column_type_u8-byte mysql_type_time2 = omega arith
column_type_u8-byte mysql_type_typed_array = omega arith
column_type_u8-byte mysql_type_unknown = omega arith
column_type_u8-byte mysql_type_json = omega arith
column_type_u8-byte mysql_type_newdecimal = omega arith
column_type_u8-byte mysql_type_enum = omega arith
column_type_u8-byte mysql_type_set = omega arith
column_type_u8-byte mysql_type_tiny_blob = omega arith
column_type_u8-byte mysql_type_medium_blob = omega arith
column_type_u8-byte mysql_type_long_blob = omega arith
column_type_u8-byte mysql_type_blob = omega arith
column_type_u8-byte mysql_type_var_string = omega arith
column_type_u8-byte mysql_type_string = omega arith
column_type_u8-byte mysql_type_geometry = omega arith

pub column_type_of_u8 :
    (t : ColumnType) → t ≢ mysql_type_newdate → column_type_try_from (column_type_u8 t) ≡ some t
unfolding column_type_try_from column_type_u8
column_type_of_u8 mysql_type_decimal h = refl
column_type_of_u8 mysql_type_tiny h = refl
column_type_of_u8 mysql_type_short h = refl
column_type_of_u8 mysql_type_long h = refl
column_type_of_u8 mysql_type_float h = refl
column_type_of_u8 mysql_type_double h = refl
column_type_of_u8 mysql_type_null h = refl
column_type_of_u8 mysql_type_timestamp h = refl
column_type_of_u8 mysql_type_longlong h = refl
column_type_of_u8 mysql_type_int24 h = refl
column_type_of_u8 mysql_type_date h = refl
column_type_of_u8 mysql_type_time h = refl
column_type_of_u8 mysql_type_datetime h = refl
column_type_of_u8 mysql_type_year h = refl
column_type_of_u8 mysql_type_newdate h = absurd (h refl)
column_type_of_u8 mysql_type_varchar h = refl
column_type_of_u8 mysql_type_bit h = refl
column_type_of_u8 mysql_type_timestamp2 h = refl
column_type_of_u8 mysql_type_datetime2 h = refl
column_type_of_u8 mysql_type_time2 h = refl
column_type_of_u8 mysql_type_typed_array h = refl
column_type_of_u8 mysql_type_unknown h = refl
column_type_of_u8 mysql_type_json h = refl
column_type_of_u8 mysql_type_newdecimal h = refl
column_type_of_u8 mysql_type_enum h = refl
column_type_of_u8 mysql_type_set h = refl
column_type_of_u8 mysql_type_tiny_blob h = refl
column_type_of_u8 mysql_type_medium_blob h = refl
column_type_of_u8 mysql_type_long_blob h = refl
column_type_of_u8 mysql_type_blob h = refl
column_type_of_u8 mysql_type_var_string h = refl
column_type_of_u8 mysql_type_string h = refl
column_type_of_u8 mysql_type_geometry h = refl

column_type_to_u8 :
    (v : ℕ) (t : ColumnType) → v < 256 → column_type_try_from v ≡ some t → column_type_u8 t ≡ v
unfolding column_type_try_from column_type_u8 holds_below
column_type_to_u8 v t h e =
    agrees_sound column_type_try_from column_type_u8 v t (column_type_try_from v)
      (holds_below-eq-true
        (λ x. agrees column_type_try_from column_type_u8 x (column_type_try_from x)) 256 v refl h)
      e

newdate_unread : column_type_try_from 14 ≡ none
unfolding column_type_try_from
newdate_unread = refl

-- A byte is read as a column type exactly if it is the byte of that type and the type is not
-- `MYSQL_TYPE_NEWDATE`, which no byte is read as.
column_type_try_from_iff :
    (v : ℕ) (t : ColumnType)
    → v < 256
    → (column_type_try_from v ≡ some t) ↔ ((column_type_u8 t ≡ v) × (t ≢ mysql_type_newdate))
unfolding column_type_u8
column_type_try_from_iff v t h = (
  (λ e. (
    column_type_to_u8 v t h e,
    λ n. some-ne-none (
        sym (subst (λ x. column_type_try_from v ≡ some x) n e)
        ∙ ap column_type_try_from (sym (sym (ap column_type_u8 n) ∙ column_type_to_u8 v t h e))
        ∙ newdate_unread),
  )),
  (λ (e, n). sym (ap column_type_try_from e) ∙ column_type_of_u8 t n),
)

-- A byte is read as a value of an enumeration exactly if it is the byte of that value, with one
-- exception: no byte is read as the column type `MYSQL_TYPE_NEWDATE`.
pub enumerations_iff :
    (v : ℕ) (s : SessionStateType) (g : GeometryType) (t : ColumnType)
    → v < 256
    → ((session_state_type_try_from v ≡ some s) ↔ (session_state_type_u8 s ≡ v))
      × ((geometry_type_try_from v ≡ some g) ↔ (geometry_type_u8 g ≡ v))
      × ((column_type_try_from v ≡ some t) ↔ ((column_type_u8 t ≡ v) × (t ≢ mysql_type_newdate)))
enumerations_iff v s g t h = (
  session_state_type_try_from_iff v s h,
  geometry_type_try_from_iff v g h,
  column_type_try_from_iff v t h,
)
