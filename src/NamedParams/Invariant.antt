-- ===== src/NamedParams/Invariant.antt =====
-- src/named_params.rs: the invariant of the loop of `parse_named_params`: which parts of the query the parameters are.
use rust_mysql_common.Base.{
  ℕ, ◌+◌, ◌-◌, ◌≤◌, ◌<◌, ◌≡◌, ap, sym, ◌∙◌, Option, none, some, List, [], ◌∷◌, ◌++◌, arith, length,
  take, drop, length-drop, take-drop, drop-drop,
}
use rust_mysql_common.Base.Bytes.{Bytes}
use rust_mysql_common.NamedParams.{ParserState, maybe_in_named_param, in_named_param, Param, Scan}
use rust_mysql_common.NamedParams.Update.{IsName}

module _ (query : Bytes) where
  -- The bytes of the query from `a` up to `b`.
  pub record Slice (a b : ℕ) (bs : Bytes) : Type 0 where
    pub order : a ≤ b
    pub inside : b ≤ length query
    pub bytes : take (b - a) (drop a query) ≡ bs

  -- Parameters in order, each `:` and its name, between `last` and `upto`.
  abbrev pub Closed : ℕ → List Param → ℕ → Type 0
  Closed last [] upto = last ≤ upto
  Closed last (p ∷ ps) upto =
      (last ≤ p.start) × Slice p.start p.end (b':' ∷ p.name) × IsName p.name × Closed p.end ps upto

  -- No parameter is open.
  pub record Base (i : ℕ) (s : Scan) : Type 0 where
    pub closed : Closed 0 s.params i
    pub current : s.cur_param ≡ length s.params

  -- Perhaps at a parameter: the byte before is a colon.
  pub record Colon (i : ℕ) (s : Scan) : Type 0 where
    pub before : ℕ
    pub place : i ≡ before + 1
    pub colon : Slice before i (b':' ∷ [])
    pub base : Base before s

  -- Inside the last parameter.
  pub record Open (i : ℕ) (s : Scan) : Type 0 where
    pub front : List Param
    pub param : Param
    pub params_eq : s.params ≡ front ++ param ∷ []
    pub current : s.cur_param ≡ length front
    pub closed : Closed 0 front param.start
    pub name : Slice param.start i (b':' ∷ param.name)
    pub well_named : IsName param.name

  abbrev pub Inv : ParserState → ℕ → Scan → Type 0
  Inv maybe_in_named_param i s = Colon i s
  Inv in_named_param i s = Open i s
  Inv _ i s = Base i s

  abbrev pub Quiet : ParserState → Type 0
  Quiet maybe_in_named_param = ⊥
  Quiet in_named_param = ⊥
  Quiet _ = Unit {0}

  pub Inv-Quiet : (state : ParserState) (i : ℕ) (s : Scan) → Quiet state → Base i s → Inv state i s
  Inv-Quiet maybe_in_named_param i s q b = absurd q
  Inv-Quiet in_named_param i s q b = absurd q
  Inv-Quiet _ i s q b = b

  pub Closed-le :
      (last : ℕ) (ps : List Param) (m n : ℕ) → m ≤ n → Closed last ps m → Closed last ps n
  Closed-le last [] m n h c = omega arith
  Closed-le last (p ∷ ps) m n h (o, sl, w, c) = (o, sl, w, Closed-le p.end ps m n h c)

  -- Closing one more parameter.
  pub Closed-append :
      (last : ℕ) (ps : List Param) (p : Param) (m : ℕ)
      → Closed last ps p.start
      → Slice p.start p.end (b':' ∷ p.name)
      → IsName p.name
      → p.end ≤ m
      → Closed last (ps ++ p ∷ []) m
  Closed-append last [] p m c sl w h = (c, sl, w, h)
  Closed-append last (q ∷ ps) p m (o, sl', w', c) sl w h =
      (o, sl', w', Closed-append q.end ps p m c sl w h)

  -- The invariant after a step, which has not panicked.
  abbrev pub After : ℕ → Option Scan → Type 0
  After i none = ⊥
  After i (some s) = Inv s.state i s

  module _ (i c : ℕ) (rest : Bytes) (here : drop i query ≡ c ∷ rest) where
    pub inside_query : i < length query
    inside_query = omega (arith, length-drop i query, ap length here)

    pub Slice-next : (a : ℕ) (bs : Bytes) → Slice a i bs → Slice a (i + 1) (bs ++ c ∷ [])
    Slice-next a bs sl =
        let order : a ≤ i = sl.order in
        let whole : a + (i - a) ≡ i = omega arith in
        let more : i + 1 - a ≡ i - a + 1 = omega arith in
        let last : take 1 (drop (i - a) (drop a query)) ≡ c ∷ [] =
          rw (drop-drop (i - a) a query, whole, here) in
        record {
          order = omega arith;
          inside = omega (arith, inside_query);
          bytes = rw more (sym (take-drop (i - a) 1 (drop a query)) ∙ rw (last, sl.bytes));
        }

    pub Slice-here : Slice i (i + 1) (c ∷ [])
    Slice-here =
        let none_yet : i - i ≡ 0 = omega arith in
        Slice-next i [] (record {
          order = omega arith;
          inside = omega (arith, inside_query);
          bytes = rw none_yet;
        })
