-- ===== src/NamedParams/Update.antt =====
-- src/named_params.rs: what the loop of `parse_named_params` does to its last parameter, and what a name is.
use rust_mysql_common.Base.{
  ℕ, ◌+◌, ◌-◌, ◌≡◌, refl, ap, ◌∙◌, true, none, some, List, [], ◌∷◌, ◌++◌, length, All, All-append,
}
use rust_mysql_common.Base.Bytes.{Bytes}
use rust_mysql_common.NamedParams.{
  in_named_param, Param, Scan, update, is_name_start, is_name_part, new_param, push_name,
  close_param,
}

pub update_last :
    (ps : List Param) (p : Param) (f : Param → Param)
    → update (length ps) f (ps ++ p ∷ []) ≡ some (ps ++ f p ∷ [])
unfolding update
update_last [] p f = refl
update_last (q ∷ ps) p f = rw (update_last ps p f)

-- The last parameter is the current one.
pub updated :
    (s : Scan) (front : List Param) (p : Param) (f : Param → Param)
    → s.params ≡ front ++ p ∷ []
    → s.cur_param ≡ length front
    → update s.cur_param f s.params ≡ some (front ++ f p ∷ [])
updated s front p f e n =
    ap (λ m. update m f s.params) n ∙ ap (update (length front) f) e ∙ update_last front p f

pub new_param-eq :
    (i c : ℕ) (s : Scan)
    → s.cur_param ≡ length s.params
    → new_param i c s
      ≡ some (record s {
        params = s.params ++ record { start = i - 1; end = 0; name = c ∷ [] } ∷ [];
        state = in_named_param;
      })
unfolding new_param
new_param-eq i c s e =
    let p : Param = record { start = i - 1; end = 0; name = [] } in
    ap
      (λ o. elim o [
        | none ↦ none
        | some ps ↦ some (record s { params = ps; state = in_named_param })
      ])
      (updated (record s { params = s.params ++ p ∷ [] }) s.params p
        (λ q. record q { name = q.name ++ c ∷ [] }) refl e)

pub push_name-eq :
    (c : ℕ) (s : Scan) (front : List Param) (p : Param)
    → s.params ≡ front ++ p ∷ []
    → s.cur_param ≡ length front
    → push_name c s
      ≡ some (record s { params = front ++ record p { name = p.name ++ c ∷ [] } ∷ [] })
unfolding push_name
push_name-eq c s front p e n =
    ap (λ o. elim o [ none ↦ none | some ps ↦ some (record s { params = ps }) ])
      (updated s front p (λ q. record q { name = q.name ++ c ∷ [] }) e n)

pub close_param-eq :
    (i : ℕ) (s : Scan) (front : List Param) (p : Param)
    → s.params ≡ front ++ p ∷ []
    → s.cur_param ≡ length front
    → close_param i s
      ≡ some (record s { params = front ++ record p { end = i } ∷ []; cur_param = s.cur_param + 1 })
unfolding close_param
close_param-eq i s front p e n =
    ap
      (λ o. elim o [
        | none ↦ none
        | some ps ↦ some (record s { params = ps; cur_param = s.cur_param + 1 })
      ])
      (updated s front p (λ q. record q { end = i }) e n)

-- A letter or an underscore, then letters, digits and underscores.
abbrev pub IsName : Bytes → Type 0
IsName [] = ⊥
IsName (c ∷ cs) = (is_name_start c ≡ true) × All (λ b. is_name_part b ≡ true) cs

pub IsName-append : (bs : Bytes) (c : ℕ) → IsName bs → is_name_part c ≡ true → IsName (bs ++ c ∷ [])
IsName-append [] c h k = absurd h
IsName-append (b ∷ bs) c h k =
    (h.0, All-append (λ x. is_name_part x ≡ true) bs (c ∷ []) h.1 (k, tt))
