-- ===== src/NamedParams/Steps.antt =====
-- src/named_params.rs: the steps of `parse_named_params` and the invariant of its loop.
use rust_mysql_common.Base.{
  ℕ, ◌+◌, ◌-◌, ◌≡◌, refl, sym, ◌∙◌, Bool, true, false, Option, none, some, [], ◌∷◌, ◌++◌, not, ◌&&◌,
  ◌||◌, ◌==◌, ==_iff, if◌then◌else◌, arith, length, drop, length-append, drop-drop, subst,
}
use rust_mysql_common.Base.Bytes.{Bytes}
use rust_mysql_common.NamedParams.{
  ParserState, top_level, in_string_literal, maybe_in_named_param, in_named_param, in_sharp_comment,
  maybe_in_double_dash_comment1, maybe_in_double_dash_comment2, in_double_dash_comment,
  maybe_in_c_comment1, maybe_in_c_comment2, in_c_comment, maybe_exit_c_comment, Param, Scan,
  is_name_start, is_name_part, is_ascii_whitespace, at_top_level, rematch, new_param, push_name,
  goto, step, scan,
}
use rust_mysql_common.NamedParams.Invariant.{
  Quiet, Slice, Base, Colon, Open, Inv, After, Inv-Quiet, Closed-le, Closed-append, Slice-next,
  Slice-here,
}
use rust_mysql_common.NamedParams.Update.{IsName-append, new_param-eq, push_name-eq, close_param-eq}

module _ (query : Bytes) where
  After-if :
      (i : ℕ) (b : Bool) (x y : Option Scan)
      → ((b ≡ true) → After query i x)
      → After query i y
      → After query i (if b then x else y)
  After-if i true x y f g = f refl
  After-if i false x y f g = g

  After-some_if :
      (i : ℕ) (b : Bool) (x y : Scan)
      → ((b ≡ true) → After query i (some x))
      → After query i (some y)
      → After query i (some (if b then x else y))
  After-some_if i true x y f g = f refl
  After-some_if i false x y f g = g

  After-goto_if :
      (i : ℕ) (s : Scan) (b : Bool) (x y : ParserState)
      → ((b ≡ true) → After query i (goto x s))
      → After query i (goto y s)
      → After query i (goto (if b then x else y) s)
  After-goto_if i s true x y f g = f refl
  After-goto_if i s false x y f g = g

  Base-goto :
      (state : ParserState) (i : ℕ) (s : Scan)
      → Quiet query state
      → Base query i s
      → After query i (goto state s)
  Base-goto state i s q b =
      Inv-Quiet query state i (record s { state = state }) q
        (record { closed = b.closed; current = b.current })

  module _ (i c : ℕ) (rest : Bytes) (here : drop i query ≡ c ∷ rest) where
    Base-next : (s : Scan) → Base query i s → Base query (i + 1) s
    Base-next s b = record {
      closed = Closed-le query 0 s.params i (i + 1) (omega arith) b.closed;
      current = b.current;
    }

    goto_next :
        (state : ParserState) (s : Scan)
        → Quiet query state
        → Base query i s
        → After query (i + 1) (goto state s)
    goto_next state s q b = Base-goto state (i + 1) s q (Base-next s b)

    at_colon :
        (s : Scan) → c ≡ b':' → Base query i s → After query (i + 1) (goto maybe_in_named_param s)
    at_colon s e b = record {
      before = i;
      place = refl;
      colon = subst (λ x. Slice query i (i + 1) (x ∷ [])) e (Slice-here query i c rest here);
      base = record { closed = b.closed; current = b.current };
    }

    stay :
        (state : ParserState) (s : Scan)
        → s.state ≡ state
        → Quiet query state
        → Base query i s
        → After query (i + 1) (some s)
    stay state s e q b =
        subst (λ x. Inv query x (i + 1) s) (sym e)
          (Inv-Quiet query state (i + 1) s q (Base-next s b))

    -- The bytes that open a construct at the top level.
    rematch_next : (s : Scan) → Base query i s → After query (i + 1) (goto (rematch c) s)
    unfolding rematch
    rematch_next s b =
        After-goto_if (i + 1) s (c == b':') _ _ (λ e. at_colon s ((==_iff c b':').0 e) b)
          (After-goto_if (i + 1) s (c == 0x27) _ _
            (λ e. goto_next (in_string_literal 0x27 0x27) s tt b)
            (After-goto_if (i + 1) s (c == 0x22) _ _
              (λ e. goto_next (in_string_literal 0x22 0x22) s tt b) (goto_next top_level s tt b)))

    positional_next :
        (s : Scan)
        → s.state ≡ top_level
        → Base query i s
        → After query (i + 1) (some (record s { have_positional = true }))
    positional_next s e b =
        stay top_level (record s { have_positional = true }) e tt
          (record { closed = b.closed; current = b.current })

    at_top_level_next :
        (s : Scan)
        → s.state ≡ top_level
        → Base query i s
        → After query (i + 1) (some (at_top_level c s))
    unfolding at_top_level
    at_top_level_next s e b =
        After-some_if (i + 1) (c == b':') _ _ (λ h. at_colon s ((==_iff c b':').0 h) b)
          (After-some_if (i + 1) (c == b'/') _ _ (λ h. goto_next maybe_in_c_comment1 s tt b)
            (After-some_if (i + 1) (c == b'-') _ _
              (λ h. goto_next maybe_in_double_dash_comment1 s tt b)
              (After-some_if (i + 1) (c == b'#') _ _ (λ h. goto_next in_sharp_comment s tt b)
                (After-some_if (i + 1) (c == 0x27) _ _
                  (λ h. goto_next (in_string_literal 0x27 0x27) s tt b)
                  (After-some_if (i + 1) (c == 0x22) _ _
                    (λ h. goto_next (in_string_literal 0x22 0x22) s tt b)
                    (After-some_if (i + 1) (c == b'?') _ _ (λ h. positional_next s e b)
                      (stay top_level s e tt b)))))))

    -- A name's first byte opens a parameter behind the colon.
    new_param_next :
        (s : Scan)
        → is_name_start c ≡ true
        → Colon query i s
        → After query (i + 1) (new_param i c s)
    new_param_next s start_byte h =
        let start : i - 1 ≡ h.before = omega (arith, h.place) in
        subst (After query (i + 1)) (sym (new_param-eq i c s h.base.current)) (record {
          front = s.params;
          param = record { start = i - 1; end = 0; name = c ∷ [] };
          params_eq = refl;
          current = h.base.current;
          closed = rw start h.base.closed;
          name = rw start (Slice-next query i c rest here h.before (b':' ∷ []) h.colon);
          well_named = (start_byte, tt);
        })

    -- The next byte of the name.
    push_name_next :
        (s : Scan)
        → is_name_part c ≡ true
        → s.state ≡ in_named_param
        → Open query i s
        → After query (i + 1) (push_name c s)
    push_name_next s part_byte e h =
        subst (After query (i + 1)) (sym (push_name-eq c s h.front h.param h.params_eq h.current)) (
          let q : Param = record h.param { name = h.param.name ++ c ∷ [] } in
          let s' : Scan = record s { params = h.front ++ q ∷ [] } in
          subst (λ x. Inv query x (i + 1) s') (sym e)
            (record {
              front = h.front;
              param = q;
              params_eq = refl;
              current = h.current;
              closed = h.closed;
              name = Slice-next query i c rest here h.param.start (b':' ∷ h.param.name) h.name;
              well_named = IsName-append h.param.name c h.well_named part_byte;
            }))

    -- The first byte behind the name closes the parameter.
    closed_Base :
        (s : Scan) (h : Open query i s)
        → Base query i (record s {
          params = h.front ++ record h.param { end = i } ∷ [];
          cur_param = s.cur_param + 1;
        })
    closed_Base s h = record {
      closed =
          Closed-append query 0 h.front (record h.param { end = i }) i h.closed h.name h.well_named
            (omega arith);
      current = omega (arith, h.current, length-append h.front (record h.param { end = i } ∷ []));
    }

    -- Each step keeps the invariant and does not panic.
    step-Inv :
        (state : ParserState) (s : Scan)
        → s.state ≡ state
        → Inv query state i s
        → After query (i + 1) (step state i c s)
    unfolding step
    step-Inv top_level s e h = at_top_level_next s e h
    step-Inv (in_string_literal separator prev_char) s e h =
        After-if (i + 1) (c == separator && not (prev_char == 0x5c)) _ _
          (λ _. goto_next top_level s tt h) (goto_next (in_string_literal separator c) s tt h)
    step-Inv maybe_in_named_param s e h =
        After-if (i + 1) (is_name_start c) _ _ (λ b. new_param_next s b h)
          (rematch_next s (record {
            closed = Closed-le query 0 s.params h.before i (omega (arith, h.place)) h.base.closed;
            current = h.base.current;
          }))
    step-Inv in_named_param s e h =
        After-if (i + 1) (is_name_part c) _ _ (λ b. push_name_next s b e h)
          (subst (λ o. After query (i + 1) (elim o [ none ↦ none | some s' ↦ goto (rematch c) s' ]))
            (sym (close_param-eq i s h.front h.param h.params_eq h.current))
            (rematch_next _ (closed_Base s h)))
    step-Inv in_sharp_comment s e h =
        After-if (i + 1) (c == b'\n') _ _ (λ _. goto_next top_level s tt h)
          (stay in_sharp_comment s e tt h)
    step-Inv maybe_in_double_dash_comment1 s e h =
        After-if (i + 1) (c == b'-') _ _ (λ _. goto_next maybe_in_double_dash_comment2 s tt h)
          (goto_next top_level s tt h)
    step-Inv maybe_in_double_dash_comment2 s e h =
        After-if (i + 1) (is_ascii_whitespace c && not (c == b'\n')) _ _
          (λ _. goto_next in_double_dash_comment s tt h) (goto_next top_level s tt h)
    step-Inv in_double_dash_comment s e h =
        After-if (i + 1) (c == b'\n') _ _ (λ _. goto_next top_level s tt h)
          (stay in_double_dash_comment s e tt h)
    step-Inv maybe_in_c_comment1 s e h =
        After-if (i + 1) (c == b'*') _ _ (λ _. goto_next maybe_in_c_comment2 s tt h)
          (goto_next top_level s tt h)
    step-Inv maybe_in_c_comment2 s e h =
        After-if (i + 1) (c == b'!' || c == b'+') _ _ (λ _. goto_next top_level s tt h)
          (goto_next in_c_comment s tt h)
    step-Inv in_c_comment s e h =
        After-if (i + 1) (c == b'*') _ _ (λ _. goto_next maybe_exit_c_comment s tt h)
          (stay in_c_comment s e tt h)
    step-Inv maybe_exit_c_comment s e h =
        After-if (i + 1) (c == b'/') _ _ (λ _. goto_next top_level s tt h)
          (goto_next in_c_comment s tt h)

  After-bind :
      (i n : ℕ) (o : Option Scan) (k : Scan → Option Scan)
      → After query i o
      → ((s : Scan) → Inv query s.state i s → After query n (k s))
      → After query n (elim o [ none ↦ none | some s' ↦ k s' ])
  After-bind i n none k a f = absurd a
  After-bind i n (some s) k a f = f s a

  -- The whole loop keeps the invariant and does not panic.
  pub scan-Inv :
      (rest : Bytes) (i : ℕ) (s : Scan)
      → drop i query ≡ rest
      → i + length rest ≡ length query
      → Inv query s.state i s
      → After query (length query) (scan i rest s)
  unfolding scan
  scan-Inv [] i s here n h =
      let e : i ≡ length query = omega (arith, n) in subst (λ j. Inv query s.state j s) e h
  scan-Inv (c ∷ rest) i s here n h =
      After-bind (i + 1) (length query) (step s.state i c s) (scan (i + 1) rest)
        (step-Inv i c rest here s.state s refl h)
        (λ s' h'.
          scan-Inv rest (i + 1) s' (sym (drop-drop 1 i query) ∙ rw here) (omega (arith, n)) h')
