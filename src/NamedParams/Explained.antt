-- ===== src/NamedParams/Explained.antt =====
-- src/named_params.rs: what `parse_named_params` returns, stated by the pieces that make up the query.
use rust_mysql_common.Base.{
  ℕ, ◌+◌, ◌-◌, ◌≤◌, ◌≡◌, refl, ap, sym, ◌∙◌, Bool, true, false, not, ◌&&◌, ◌||◌, Option, none, some,
  List, [], ◌∷◌, ◌++◌, map, arith, length, take, drop, length-drop, le→leb, take_all, drop-drop,
  append_assoc, subst, All, take-append-drop,
}
use rust_mysql_common.Base.Bytes.{Bytes}
use rust_mysql_common.NamedParams.{
  ParserState, top_level, in_string_literal, maybe_in_named_param, in_named_param, in_sharp_comment,
  maybe_in_double_dash_comment1, maybe_in_double_dash_comment2, in_double_dash_comment,
  maybe_in_c_comment1, maybe_in_c_comment2, in_c_comment, maybe_exit_c_comment, Param, Scan, scan,
  finish, start_scan, slice, replace, assemble, Parsed, parsed, mixed_params_error, panic,
  parse_named_params,
}
use rust_mysql_common.NamedParams.Update.{IsName, updated}
use rust_mysql_common.NamedParams.Invariant.{Slice, Closed, Inv, After, Closed-le, Closed-append}
use rust_mysql_common.NamedParams.Seen.{
  has_question, has_name, is_nil, Tracks, Keeps, finish-Keeps, scan-Tracks,
}
use rust_mysql_common.NamedParams.Steps.{scan-Inv}

-- A text with its parameters: each piece is the bytes before a parameter and its name.
abbrev pub with_params : (Bytes → Bytes) → List (Bytes × Bytes) → Bytes → Bytes
with_params f [] tail = tail
with_params f (p ∷ ps) tail = p.0 ++ (f p.1 ++ with_params f ps tail)

-- The source text of a query and the text that is sent.
abbrev pub named : List (Bytes × Bytes) → Bytes → Bytes
named = with_params (λ name. b':' ∷ name)

abbrev pub positional : List (Bytes × Bytes) → Bytes → Bytes
positional = with_params (λ name. b'?' ∷ [])

-- The query is read as pieces and replaced piece by piece, or has no named parameter.
pub data Explains (query : Bytes) : Parsed → Type 0 where
  unchanged : has_name query ≡ false → Explains query (parsed none query)
  mixed : has_name query ≡ true → has_question query ≡ true → Explains query mixed_params_error
  replaced :
      has_name query ≡ true
      → has_question query ≡ false
      → (ps : List (Bytes × Bytes)) (tail : Bytes) → query ≡ named ps tail
      → All (λ p. IsName p.1) ps
      → Explains query (parsed (some (map (λ p. p.1) ps)) (positional ps tail))

none_met : (b : Bool) → true ≡ not b → b ≡ false
none_met true e = e
none_met false e = refl

one_met : (b : Bool) → false ≡ not b → b ≡ true
one_met true e = refl
one_met false e = e

or_false : (b : Bool) → b || false ≡ b
or_false true = refl
or_false false = refl

and_true : (b : Bool) → b && true ≡ b
and_true true = refl
and_true false = refl

module _ (query : Bytes) where
  -- The parameters `ps` from offset `last` on, as pieces.
  record Pieces (last : ℕ) (ps : List Param) (out : Bytes) : Type 0 where
    pieces : List (Bytes × Bytes)
    tail : Bytes
    text : drop last query ≡ named pieces tail
    names : All (λ p. IsName p.1) pieces
    result : replace query ps out last ≡ some (map (λ p. p.1) pieces, out ++ positional pieces tail)

  slice-eq :
      (last start : ℕ)
      → last ≤ start
      → start ≤ length query
      → slice query last start ≡ some (take (start - last) (drop last query))
  unfolding slice
  slice-eq last start h k = rw (le→leb last start h, le→leb start (length query) k)

  slice_rest :
      (last : ℕ) → last ≤ length query → slice query last (length query) ≡ some (drop last query)
  slice_rest last h =
      slice-eq last (length query) h (omega arith)
      ∙ ap some
          (take_all (length query - last) (drop last query) (omega (arith, length-drop last query)))

  cut : (a b : ℕ) → a ≤ b → drop a query ≡ take (b - a) (drop a query) ++ drop b query
  cut a b h =
      let whole : a + (b - a) ≡ b = omega arith in
      sym (take-append-drop (b - a) (drop a query))
      ∙ ap (λ t. take (b - a) (drop a query) ++ t) (drop-drop (b - a) a query ∙ rw whole)

  start_inside : (a b : ℕ) (bs : Bytes) → Slice query a b bs → a ≤ length query
  start_inside a b bs sl =
      let h : a ≤ b = sl.order in let k : b ≤ length query = sl.inside in omega arith

  joined :
      (out before more : Bytes)
      → ((out ++ before) ++ b'?' ∷ []) ++ more ≡ out ++ (before ++ b'?' ∷ more)
  joined out before more =
      append_assoc (out ++ before) (b'?' ∷ []) more ∙ append_assoc out before (b'?' ∷ more)

  Pieces-next :
      (p : Param) (ps : List Param) (last : ℕ) (out before : Bytes)
      → last ≤ p.start
      → Slice query p.start p.end (b':' ∷ p.name)
      → IsName p.name
      → before ≡ take (p.start - last) (drop last query)
      → Pieces p.end ps (out ++ before ++ b'?' ∷ [])
      → Pieces last (p ∷ ps) out
  unfolding replace
  Pieces-next p ps last out before o sl w e rest = record {
    pieces = (before, p.name) ∷ rest.pieces;
    tail = rest.tail;
    text =
        cut last p.start o
        ∙ ap (λ t. t ++ drop p.start query) (sym e)
        ∙ ap (λ t. before ++ t)
            (cut p.start p.end sl.order
              ∙ ap (λ t. t ++ drop p.end query) sl.bytes
              ∙ ap (λ t. (b':' ∷ p.name) ++ t) rest.text);
    names = (w, rest.names);
    result =
        ap
          (λ r. elim r [
            | none ↦ none
            | some piece ↦ elim (replace query ps (out ++ piece ++ b'?' ∷ []) p.end) [
              | none ↦ none
              | some (names, all) ↦ some (p.name ∷ names, all)
            ]
          ])
          (slice-eq last p.start o (start_inside p.start p.end (b':' ∷ p.name) sl)
            ∙ ap some (sym e))
        ∙ ap (λ r. elim r [ none ↦ none | some (names, all) ↦ some (p.name ∷ names, all) ])
            rest.result
        ∙ ap (λ t. some (p.name ∷ map (λ x. x.1) rest.pieces, t))
            (joined out before (positional rest.pieces rest.tail));
  }

  replace-Pieces :
      (ps : List Param) (last : ℕ) (out : Bytes)
      → Closed query last ps (length query)
      → Pieces last ps out
  unfolding replace
  replace-Pieces [] last out c = record {
    pieces = [];
    tail = drop last query;
    text = refl;
    names = tt;
    result =
        ap (λ o. elim o [ none ↦ none | some rest ↦ some ([], out ++ rest) ]) (slice_rest last c);
  }
  replace-Pieces (p ∷ ps) last out (o, sl, w, c) =
      Pieces-next p ps last out (take (p.start - last) (drop last query)) o sl w refl
        (replace-Pieces ps p.end _ c)

  -- Closing a parameter that the query ends in.
  finish-Closed :
      (state : ParserState) (n : ℕ) (s : Scan)
      → Inv query state n s
      → (ps : List Param) × (finish state n s ≡ some ps) × Closed query 0 ps n
  unfolding finish
  finish-Closed in_named_param n s h =
      let p : Param = record h.param { end = n } in
      (
        h.front ++ p ∷ [],
        updated s h.front h.param (λ q. record q { end = n }) h.params_eq h.current,
        Closed-append query 0 h.front p n h.closed h.name h.well_named (omega arith),
      )
  finish-Closed maybe_in_named_param n s h =
      (s.params, refl, Closed-le query 0 s.params h.before n (omega (arith, h.place)) h.base.closed)
  finish-Closed top_level n s h = (s.params, refl, h.closed)
  finish-Closed (in_string_literal a b) n s h = (s.params, refl, h.closed)
  finish-Closed in_sharp_comment n s h = (s.params, refl, h.closed)
  finish-Closed maybe_in_double_dash_comment1 n s h = (s.params, refl, h.closed)
  finish-Closed maybe_in_double_dash_comment2 n s h = (s.params, refl, h.closed)
  finish-Closed in_double_dash_comment n s h = (s.params, refl, h.closed)
  finish-Closed maybe_in_c_comment1 n s h = (s.params, refl, h.closed)
  finish-Closed maybe_in_c_comment2 n s h = (s.params, refl, h.closed)
  finish-Closed in_c_comment n s h = (s.params, refl, h.closed)
  finish-Closed maybe_exit_c_comment n s h = (s.params, refl, h.closed)

  assemble-Explains :
      (have_positional : Bool) (ps : List Param)
      → have_positional ≡ has_question query
      → is_nil ps ≡ not (has_name query)
      → Closed query 0 ps (length query)
      → Explains query (assemble query have_positional ps)
  unfolding assemble
  assemble-Explains hp [] e k c = unchanged (none_met (has_name query) k)
  assemble-Explains true (p ∷ ps) e k c = mixed (one_met (has_name query) k) (sym e)
  assemble-Explains false (p ∷ ps) e k c =
      let rest = replace-Pieces (p ∷ ps) 0 [] c in
      subst
        (λ r.
          Explains query (elim r [ none ↦ panic | some (names, out) ↦ parsed (some names) out ]))
        (sym rest.result)
        (replaced (one_met (has_name query) k) (sym e) rest.pieces rest.tail rest.text rest.names)

  finish-Explains :
      (o : Option Scan)
      → After query (length query) o
      → Tracks (has_question query || false) (not (has_name query) && true) o
      → Explains query (elim o [
        | none ↦ panic
        | some s ↦ elim (finish s.state (length query) s) [
          | none ↦ panic
          | some params ↦ assemble query s.have_positional params
        ]
      ])
  finish-Explains none h k = absurd h
  finish-Explains (some s) h (hq, hn) =
      let (ps, e, c) = finish-Closed s.state (length query) s h in
      let kept : is_nil ps ≡ is_nil s.params =
        subst (Keeps s.params) e (finish-Keeps s.state (length query) s) in
      subst
        (λ r.
          Explains query
            (elim r [ none ↦ panic | some params ↦ assemble query s.have_positional params ]))
        (sym e)
        (assemble-Explains s.have_positional ps (hq ∙ or_false (has_question query))
          (kept ∙ hn ∙ and_true (not (has_name query))) c)

-- For every query `parse_named_params` returns, without a panic, and what it returns is explained by
-- the query. Where the loop meets no first byte of a name behind a colon (`has_name`), it is the
-- query itself without names. Where it meets one, and a question mark at the top level
-- (`has_question`), it is the error for mixed parameters. Else the query is a sequence of texts, each
-- followed by a colon and a name that it returns in order, and the same texts with a question mark in
-- place of each colon and name are the query it returns.
pub parse_named_params-Explains : (query : Bytes) → Explains query (parse_named_params query)
unfolding parse_named_params
parse_named_params-Explains query =
    finish-Explains query (scan 0 query start_scan)
      (scan-Inv query query 0 start_scan refl (omega arith)
        (record { closed = omega arith; current = refl }))
      (scan-Tracks query 0 start_scan)
