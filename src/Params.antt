-- ===== src/Params.antt =====
-- src/params.rs: the parameters of a prepared statement, over any type `V` of values.
use rust_mysql_common.Base.{
  ℕ, zero, suc, ◌+◌, ◌-◌, Bool, true, false, not, ◌||◌, ◌&&◌, Option, none, some, List, [], ◌∷◌,
  ◌++◌, ◌==◌, if◌then◌else◌, length, get_elem?,
}
use rust_mysql_common.Base.Bytes.{Bytes}
use rust_mysql_common.Base.Result.{Result, ok, err, panic}
pub mod Positional

-- The equality of names.
unfoldable pub name_eq : Bytes → Bytes → Bool
name_eq [] [] = true
name_eq [] (y ∷ ys) = false
name_eq (x ∷ xs) [] = false
name_eq (x ∷ xs) (y ∷ ys) = (x == y) && name_eq xs ys

module _ (V : Type 0) where
  -- A `HashMap<Vec<u8>, Value>`, by what it holds at each name.
  abbrev pub NameMap : Type 0
  NameMap = Bytes → Option V

  pub data Params : Type 0 where
    empty : Params
    named : NameMap → Params
    positional : List V → Params

-- `while x > i`: whether the name stands at one of the positions `x`, ..., `i + 1`; `gap` is
-- `x - i`. An index out of range is a panic.
unfoldable pub stands_later : List Bytes → Bytes → ℕ → ℕ → Option Bool
stands_later names name i zero = some false
stands_later names name i (suc gap) =
    let earlier = stands_later names name i gap in
    elim (get_elem? names (i + suc gap)) [
      | none ↦ none
      | some other ↦ if name_eq name other then some true else earlier
    ]

module _ {V : Type 0} where
  -- `OccupiedEntry::remove`
  unfoldable pub remove : Bytes → NameMap V → NameMap V
  remove name map other = if name_eq name other then none else map other

  -- A value pushed before those of the rest of the loop.
  abbrev pub push : V → Result Bytes (List V) → Result Bytes (List V)
  push v (ok vs) = ok (v ∷ vs)
  push v (err e) = err e
  push v panic = panic

  -- The body of `'params: for (i, name)` from position `i` on: the values pushed.
  unfoldable pub push_params : List Bytes → ℕ → List Bytes → NameMap V → Result Bytes (List V)
  push_params names i [] map = ok []
  push_params names i (name ∷ rest) map = elim (map name) [
    | none ↦ err name
    | some v ↦ elim (stands_later names name i (length names - 1 - i)) [
      | none ↦ panic
      | some later ↦
          push v (push_params names (i + 1) rest (if later then map else remove name map))
    ]
  ]

  -- `err` is `MissingNamedParameterError`.
  unfoldable pub into_positional : Params V → List Bytes → Result Bytes (Params V)
  into_positional (named map) named_params = elim (push_params named_params 0 named_params map) [
    | ok params ↦ ok (positional params)
    | err e ↦ err e
    | panic ↦ panic
  ]
  into_positional empty named_params = ok empty
  into_positional (positional params) named_params = ok (positional params)
