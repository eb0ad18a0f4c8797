-- ===== src/NamedParams/Seen.antt =====
-- src/named_params.rs: what the loop of `parse_named_params` meets in the query: question marks that
-- stand for a value and names behind a colon.
use rust_mysql_common.Base.{
  ℕ, zero, suc, ◌+◌, ◌-◌, ◌≡◌, refl, ap, ◌∙◌, subst, Bool, true, false, not, ◌&&◌, ◌||◌, Option,
  none, some, List, [], ◌∷◌, ◌++◌, ◌==◌, ==_iff, if◌then◌else◌, Bool-cases, Option-cases, inl, inr,
}
use rust_mysql_common.Base.Bytes.{Bytes}
use rust_mysql_common.NamedParams.{
  ParserState, top_level, in_string_literal, maybe_in_named_param, in_named_param, in_sharp_comment,
  maybe_in_double_dash_comment1, maybe_in_double_dash_comment2, in_double_dash_comment,
  maybe_in_c_comment1, maybe_in_c_comment2, in_c_comment, maybe_exit_c_comment, Param, Scan, update,
  is_name_start, is_name_part, is_ascii_whitespace, at_top_level, rematch, new_param, push_name,
  close_param, goto, step, scan, finish, start_scan,
}

-- A question mark at the top level, so outside of strings and comments and not directly behind a
-- colon, a name, a slash or a dash, and the first byte of a name behind a colon.
abbrev pub is_question : ParserState → ℕ → Bool
is_question top_level c = c == b'?'
is_question _ c = false

abbrev pub is_first_of_name : ParserState → ℕ → Bool
is_first_of_name maybe_in_named_param c = is_name_start c
is_first_of_name _ c = false

-- Whether the loop meets a byte that passes the test.
pub meets : (ParserState → ℕ → Bool) → ℕ → Bytes → Scan → Bool
meets test i [] s = false
meets test i (c ∷ rest) s =
    test s.state c
    || elim (step s.state i c s) [ none ↦ false | some s' ↦ meets test (i + 1) rest s' ]

abbrev pub has_question : Bytes → Bool
has_question query = meets is_question 0 query start_scan

abbrev pub has_name : Bytes → Bool
has_name query = meets is_first_of_name 0 query start_scan

abbrev pub is_nil : List Param → Bool
is_nil [] = true
is_nil (p ∷ ps) = false

-- The flag for positional parameters, and whether there is no parameter.
abbrev pub Tracks : Bool → Bool → Option Scan → Type 0
Tracks question nil none = Unit {0}
Tracks question nil (some s) = (s.have_positional ≡ question) × (is_nil s.params ≡ nil)

abbrev pub Keeps : List Param → Option (List Param) → Type 0
Keeps ps none = Unit {0}
Keeps ps (some qs) = is_nil qs ≡ is_nil ps

update-Keeps : (i : ℕ) (f : Param → Param) (ps : List Param) → Keeps ps (update i f ps)
unfolding update
update-Keeps i f [] = tt
update-Keeps zero f (p ∷ ps) = refl
update-Keeps (suc i) f (p ∷ ps) = elim (Option-cases (update i f ps)) [
  | inl e ↦ rw e tt
  | inr (qs, e) ↦ rw e refl
]

pub finish-Keeps : (state : ParserState) (n : ℕ) (s : Scan) → Keeps s.params (finish state n s)
unfolding finish
finish-Keeps in_named_param n s = update-Keeps s.cur_param (λ p. record p { end = n }) s.params
finish-Keeps top_level n s = refl
finish-Keeps (in_string_literal a b) n s = refl
finish-Keeps maybe_in_named_param n s = refl
finish-Keeps in_sharp_comment n s = refl
finish-Keeps maybe_in_double_dash_comment1 n s = refl
finish-Keeps maybe_in_double_dash_comment2 n s = refl
finish-Keeps in_double_dash_comment n s = refl
finish-Keeps maybe_in_c_comment1 n s = refl
finish-Keeps maybe_in_c_comment2 n s = refl
finish-Keeps in_c_comment n s = refl
finish-Keeps maybe_exit_c_comment n s = refl

is_nil-append : (ps : List Param) (p : Param) → is_nil (ps ++ p ∷ []) ≡ false
is_nil-append [] p = refl
is_nil-append (q ∷ ps) p = refl

module _ (question nil : Bool) where
  Tracks-if :
      (b : Bool) (x y : Option Scan)
      → Tracks question nil x
      → Tracks question nil y
      → Tracks question nil (if b then x else y)
  Tracks-if true x y f g = f
  Tracks-if false x y f g = g

  -- A change of the parameters that leaves the flag alone.
  Tracks-updated :
      (after : List Param → Scan)
      → ((qs : List Param) → Tracks question (is_nil qs) (some (after qs)))
      → (ps : List Param) → is_nil ps ≡ nil
      → (o : Option (List Param)) → Keeps ps o
      → Tracks question nil (elim o [ none ↦ none | some qs ↦ some (after qs) ])
  Tracks-updated after f ps e none k = tt
  Tracks-updated after f ps e (some qs) k = ((f qs).0, (f qs).1 ∙ k ∙ e)

new_param-Tracks : (i c : ℕ) (s : Scan) → Tracks s.have_positional false (new_param i c s)
unfolding new_param
new_param-Tracks i c s =
    let p : Param = record { start = i - 1; end = 0; name = [] } in
    Tracks-updated s.have_positional false (λ qs. record s { params = qs; state = in_named_param })
      (λ qs. (refl, refl)) (s.params ++ p ∷ []) (is_nil-append s.params p) _
      (update-Keeps s.cur_param (λ p. record p { name = p.name ++ c ∷ [] }) (s.params ++ p ∷ []))

push_name-Tracks : (c : ℕ) (s : Scan) → Tracks s.have_positional (is_nil s.params) (push_name c s)
unfolding push_name
push_name-Tracks c s =
    Tracks-updated s.have_positional (is_nil s.params) (λ qs. record s { params = qs })
      (λ qs. (refl, refl)) s.params refl _
      (update-Keeps s.cur_param (λ p. record p { name = p.name ++ c ∷ [] }) s.params)

close_param-Tracks :
    (i : ℕ) (state : ParserState) (s : Scan)
    → Tracks s.have_positional
        (is_nil s.params)
        (elim (close_param i s) [ none ↦ none | some s' ↦ goto state s' ])
unfolding close_param
close_param-Tracks i state s =
    let k = update-Keeps s.cur_param (λ p. record p { end = i }) s.params in
    elim (Option-cases (update s.cur_param (λ p. record p { end = i }) s.params)) [
      | inl e ↦ rw e tt
      | inr (qs, e) ↦ rw e (refl, subst (Keeps s.params) e k)
    ]

not_question : (c x : ℕ) → (c == x) ≡ true → (x == b'?') ≡ false → (c == b'?') ≡ false
not_question c x e h = ap (λ y. y == b'?') ((==_iff c x).0 e) ∙ h

-- At the top level only a question mark changes the flag.
at_top_level-Tracks :
    (c : ℕ) (s : Scan)
    → Tracks (c == b'?' || s.have_positional) (is_nil s.params) (some (at_top_level c s))
unfolding at_top_level
at_top_level-Tracks c s = elim (Bool-cases (c == b':')) [
  | inl e ↦ rw (not_question c b':' e refl, e) (refl, refl)
  | inr e₁ ↦ elim (Bool-cases (c == b'/')) [
    | inl e ↦ rw (not_question c b'/' e refl, e₁, e) (refl, refl)
    | inr e₂ ↦ elim (Bool-cases (c == b'-')) [
      | inl e ↦ rw (not_question c b'-' e refl, e₁, e₂, e) (refl, refl)
      | inr e₃ ↦ elim (Bool-cases (c == b'#')) [
        | inl e ↦ rw (not_question c b'#' e refl, e₁, e₂, e₃, e) (refl, refl)
        | inr e₄ ↦ elim (Bool-cases (c == 0x27)) [
          | inl e ↦ rw (not_question c 0x27 e refl, e₁, e₂, e₃, e₄, e) (refl, refl)
          | inr e₅ ↦ elim (Bool-cases (c == 0x22)) [
            | inl e ↦ rw (not_question c 0x22 e refl, e₁, e₂, e₃, e₄, e₅, e) (refl, refl)
            | inr e₆ ↦ elim (Bool-cases (c == b'?')) [
              | inl e ↦ rw (e, e₁, e₂, e₃, e₄, e₅, e₆) (refl, refl)
              | inr e ↦ rw (e, e₁, e₂, e₃, e₄, e₅, e₆) (refl, refl)
            ]
          ]
        ]
      ]
    ]
  ]
]

step-Tracks :
    (state : ParserState) (i c : ℕ) (s : Scan)
    → Tracks
        (is_question state c || s.have_positional)
        (not (is_first_of_name state c) && is_nil s.params)
        (step state i c s)
unfolding step
step-Tracks top_level i c s = at_top_level-Tracks c s
step-Tracks maybe_in_named_param i c s = elim (Bool-cases (is_name_start c)) [
  | inl e ↦ rw e (new_param-Tracks i c s)
  | inr e ↦ rw e (refl, refl)
]
step-Tracks in_named_param i c s =
    Tracks-if _ _ (is_name_part c) _ _ (push_name-Tracks c s) (close_param-Tracks i (rematch c) s)
step-Tracks (in_string_literal separator prev_char) i c s =
    Tracks-if _ _ (c == separator && not (prev_char == 0x5c)) _ _ (refl, refl) (refl, refl)
step-Tracks in_sharp_comment i c s = Tracks-if _ _ (c == b'\n') _ _ (refl, refl) (refl, refl)
step-Tracks maybe_in_double_dash_comment1 i c s =
    Tracks-if _ _ (c == b'-') _ _ (refl, refl) (refl, refl)
step-Tracks maybe_in_double_dash_comment2 i c s =
    Tracks-if _ _ (is_ascii_whitespace c && not (c == b'\n')) _ _ (refl, refl) (refl, refl)
step-Tracks in_double_dash_comment i c s = Tracks-if _ _ (c == b'\n') _ _ (refl, refl) (refl, refl)
step-Tracks maybe_in_c_comment1 i c s = Tracks-if _ _ (c == b'*') _ _ (refl, refl) (refl, refl)
step-Tracks maybe_in_c_comment2 i c s =
    Tracks-if _ _ (c == b'!' || c == b'+') _ _ (refl, refl) (refl, refl)
step-Tracks in_c_comment i c s = Tracks-if _ _ (c == b'*') _ _ (refl, refl) (refl, refl)
step-Tracks maybe_exit_c_comment i c s = Tracks-if _ _ (c == b'/') _ _ (refl, refl) (refl, refl)

either_order : (a b h : Bool) → b || (a || h) ≡ (a || b) || h
either_order true true h = refl
either_order true false h = refl
either_order false b h = refl

neither_order : (a b e : Bool) → not b && (not a && e) ≡ not (a || b) && e
neither_order true true e = refl
neither_order true false e = refl
neither_order false b e = refl

-- What the loop has met with one more step, of what it meets behind this step.
Tracks-next :
    (i : ℕ) (rest : Bytes) (a b question nil : Bool) (o : Option Scan)
    → Tracks (a || question) (not b && nil) o
    → ((s : Scan)
        → Tracks
            (meets is_question i rest s || s.have_positional)
            (not (meets is_first_of_name i rest s) && is_nil s.params)
            (scan i rest s))
    → Tracks
        ((a || elim o [ none ↦ false | some s ↦ meets is_question i rest s ]) || question)
        (not (b || elim o [ none ↦ false | some s ↦ meets is_first_of_name i rest s ]) && nil)
        (elim o [ none ↦ none | some s ↦ scan i rest s ])
Tracks-next i rest a b question nil none here behind = tt
Tracks-next i rest a b question nil (some s) (hq, hn) behind =
    let q : Bool = meets is_question i rest s in
    let n : Bool = meets is_first_of_name i rest s in
    subst (λ x. Tracks x (not (b || n) && nil) (scan i rest s))
      (ap (λ x. q || x) hq ∙ either_order a q question)
      (subst (λ x. Tracks (q || s.have_positional) x (scan i rest s))
        (ap (λ x. not n && x) hn ∙ neither_order b n nil) (behind s))

-- At the end of the loop the flag and the list say what the loop has met.
pub scan-Tracks :
    (rest : Bytes) (i : ℕ) (s : Scan)
    → Tracks
        (meets is_question i rest s || s.have_positional)
        (not (meets is_first_of_name i rest s) && is_nil s.params)
        (scan i rest s)
unfolding scan meets
scan-Tracks [] i s = (refl, refl)
scan-Tracks (c ∷ rest) i s =
    Tracks-next (i + 1) rest (is_question s.state c) (is_first_of_name s.state c) s.have_positional
      (is_nil s.params) (step s.state i c s) (step-Tracks s.state i c s) (scan-Tracks rest (i + 1))
