-- ===== src/NamedParams.antt =====
-- src/named_params.rs: `parse_named_params`, a state machine over the bytes of a query.
use rust_mysql_common.Base.{
  ℕ, zero, suc, ◌+◌, ◌-◌, Bool, true, false, not, ◌&&◌, ◌||◌, Option, none, some, List, [], ◌∷◌,
  ◌++◌, leb, ◌==◌, if◌then◌else◌, length, take, drop,
}
use rust_mysql_common.Base.Bytes.{Bytes}
mod Update
mod Invariant
mod Steps
mod Seen
pub mod Explained

pub data ParserState : Type 0 where
  top_level : ParserState
  -- the delimiter of the string and the last byte
  in_string_literal : ℕ → ℕ → ParserState
  maybe_in_named_param in_named_param in_sharp_comment : ParserState
  maybe_in_double_dash_comment1 maybe_in_double_dash_comment2 : ParserState
  in_double_dash_comment maybe_in_c_comment1 maybe_in_c_comment2 : ParserState
  in_c_comment maybe_exit_c_comment : ParserState

-- `(start_offset, end_offset, name)`
pub record Param : Type 0 where
  pub start : ℕ
  pub end : ℕ
  pub name : Bytes

-- The variables of the loop.
pub record Scan : Type 0 where
  pub state : ParserState
  pub have_positional : Bool
  pub cur_param : ℕ
  pub params : List Param

-- `params[i] = f(params[i])`, a panic out of range.
unfoldable pub update : ℕ → (Param → Param) → List Param → Option (List Param)
update i f [] = none
update zero f (p ∷ ps) = some (f p ∷ ps)
update (suc i) f (p ∷ ps) = elim (update i f ps) [ none ↦ none | some qs ↦ some (p ∷ qs) ]

-- `b'a'..=b'z' | b'_'`, and with `b'0'..=b'9'`
unfoldable pub is_name_start : ℕ → Bool
is_name_start c = (leb b'a' c && leb c b'z') || c == b'_'

unfoldable pub is_name_part : ℕ → Bool
is_name_part c = is_name_start c || (leb b'0' c && leb c b'9')

-- `u8::is_ascii_whitespace`
unfoldable pub is_ascii_whitespace : ℕ → Bool
is_ascii_whitespace c = c == 0x20 || c == 0x09 || c == 0x0a || c == 0x0c || c == 0x0d

unfoldable pub at_top_level : ℕ → Scan → Scan
at_top_level c s =
    if c == b':'
    then record s { state = maybe_in_named_param }
    else if c == b'/'
    then record s { state = maybe_in_c_comment1 }
    else if c == b'-'
    then record s { state = maybe_in_double_dash_comment1 }
    else if c == b'#'
    then record s { state = in_sharp_comment }
    else if c == 0x27
    then record s { state = in_string_literal 0x27 0x27 }
    else if c == 0x22
    then record s { state = in_string_literal 0x22 0x22 }
    else if c == b'?'
    then record s { have_positional = true }
    else s

-- The second `match`, for a byte that has to be looked at once more.
unfoldable pub rematch : ℕ → ParserState
rematch c =
    if c == b':'
    then maybe_in_named_param
    else if c == 0x27
    then in_string_literal 0x27 0x27
    else if c == 0x22
    then in_string_literal 0x22 0x22
    else top_level

unfoldable pub new_param : ℕ → ℕ → Scan → Option Scan
new_param i c s =
    elim (update s.cur_param (λ p. record p { name = p.name ++ c ∷ [] })
      (s.params ++ record { start = i - 1; end = 0; name = [] } ∷ [])) [
        | none ↦ none
        | some ps ↦ some (record s { params = ps; state = in_named_param })
      ]

unfoldable pub push_name : ℕ → Scan → Option Scan
push_name c s = elim (update s.cur_param (λ p. record p { name = p.name ++ c ∷ [] }) (s.params)) [
  | none ↦ none
  | some ps ↦ some (record s { params = ps })
]

unfoldable pub close_param : ℕ → Scan → Option Scan
close_param i s = elim (update s.cur_param (λ p. record p { end = i }) (s.params)) [
  | none ↦ none
  | some ps ↦ some (record s { params = ps; cur_param = s.cur_param + 1 })
]

abbrev pub goto : ParserState → Scan → Option Scan
goto state s = some (record s { state = state })

-- The body of the loop, at offset `i` and byte `c`; `none` is a panic.
unfoldable pub step : ParserState → ℕ → ℕ → Scan → Option Scan
step top_level i c s = some (at_top_level c s)
step (in_string_literal separator prev_char) i c s =
    if c == separator && not (prev_char == 0x5c)
    then goto top_level s
    else goto (in_string_literal separator c) s
step maybe_in_named_param i c s = if is_name_start c then new_param i c s else goto (rematch c) s
step in_named_param i c s =
    if is_name_part c
    then push_name c s
    else elim (close_param i s) [ none ↦ none | some s' ↦ goto (rematch c) s' ]
step in_sharp_comment i c s = if c == b'\n' then goto top_level s else some s
step maybe_in_double_dash_comment1 i c s =
    if c == b'-' then goto maybe_in_double_dash_comment2 s else goto top_level s
step maybe_in_double_dash_comment2 i c s =
    if is_ascii_whitespace c && not (c == b'\n')
    then goto in_double_dash_comment s
    else goto top_level s
step in_double_dash_comment i c s = if c == b'\n' then goto top_level s else some s
step maybe_in_c_comment1 i c s = if c == b'*' then goto maybe_in_c_comment2 s else goto top_level s
step maybe_in_c_comment2 i c s =
    if c == b'!' || c == b'+' then goto top_level s else goto in_c_comment s
step in_c_comment i c s = if c == b'*' then goto maybe_exit_c_comment s else some s
step maybe_exit_c_comment i c s = if c == b'/' then goto top_level s else goto in_c_comment s

-- `for (i, c) in query.iter().enumerate()`
unfoldable pub scan : ℕ → Bytes → Scan → Option Scan
scan i [] s = some s
scan i (c ∷ rest) s = elim (step (s.state) i c s) [ none ↦ none | some s' ↦ scan (i + 1) rest s' ]

-- `if let InNamedParam = state { params[cur_param].1 = query.len(); }`
unfoldable pub finish : ParserState → ℕ → Scan → Option (List Param)
finish in_named_param n s = update s.cur_param (λ p. record p { end = n }) (s.params)
finish _ n s = some (s.params)

-- `&query[last..start]`, a panic out of order or out of range.
unfoldable pub slice : Bytes → ℕ → ℕ → Option Bytes
slice query last start =
    if leb last start && leb start (length query)
    then some (take (start - last) (drop last query))
    else none

-- The loop over `params`: `real_query` and `last` are its variables, the names its output.
unfoldable pub replace : Bytes → List Param → Bytes → ℕ → Option (List Bytes × Bytes)
replace query [] real_query last = elim (slice query last (length query)) [
  | none ↦ none
  | some tail ↦ some ([], real_query ++ tail)
]
replace query (p ∷ ps) real_query last = elim (slice query last p.start) [
  | none ↦ none
  | some piece ↦ elim (replace query ps (real_query ++ piece ++ b'?' ∷ []) p.end) [
    | none ↦ none
    | some (names, out) ↦ some (p.name ∷ names, out)
  ]
]

-- What `parse_named_params` returns, or a panic.
pub data Parsed : Type 0 where
  parsed : Option (List Bytes) → Bytes → Parsed
  mixed_params_error : Parsed
  panic : Parsed

unfoldable pub assemble : Bytes → Bool → List Param → Parsed
assemble query have_positional [] = parsed none query
assemble query true (p ∷ ps) = mixed_params_error
assemble query false (p ∷ ps) = elim (replace query (p ∷ ps) [] 0) [
  | none ↦ panic
  | some (names, out) ↦ parsed (some names) out
]

abbrev pub start_scan : Scan
start_scan = record { state = top_level; have_positional = false; cur_param = 0; params = [] }

unfoldable pub parse_named_params : Bytes → Parsed
parse_named_params query = elim (scan 0 query start_scan) [
  | none ↦ panic
  | some s ↦ elim (finish (s.state) (length query) s) [
    | none ↦ panic
    | some params ↦ assemble query (s.have_positional) params
  ]
]
