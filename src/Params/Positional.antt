-- ===== src/Params/Positional.antt =====
-- src/params.rs: `Params::into_positional` and a lookup of every name in the given map.
use rust_mysql_common.Base.{
  ℕ, zero, suc, ◌+◌, ◌-◌, ◌<◌, ◌≡◌, ◌⊎◌, inl, inr, refl, ap, sym, ◌∙◌, subst, All, Bool, true,
  false, Option, none, some, List, [], ◌∷◌, ◌++◌, Bool-cases, Option-cases, if◌then◌else◌, arith,
  length, length-append, append_assoc, get_elem?,
}
use rust_mysql_common.Base.Bytes.{Bytes}
use rust_mysql_common.Base.Result.{Result, ok, err, panic}
use rust_mysql_common.Params.{
  name_eq, NameMap, named, positional, remove, stands_later, push, push_params, into_positional,
}

abbrev found : {V : Type 0} → Bytes → Option V → Result Bytes (List V) → Result Bytes (List V)
found name none r = err name
found name (some v) r = push v r

-- Every name in the map that was given, up to the first that it does not hold.
abbrev pub look_up : {V : Type 0} → List Bytes → NameMap V → Result Bytes (List V)
look_up [] map = ok []
look_up (name ∷ rest) map = found name (map name) (look_up rest map)

-- The element behind the first part of a list.
get_elem-append :
    {A : Type 0} (xs ys : List A) (y : A) (k : ℕ)
    → get_elem? (xs ++ y ∷ ys) (length xs + suc k) ≡ get_elem? ys k
get_elem-append [] ys y k = let e : 0 + suc k ≡ suc k = omega arith in rw e
get_elem-append (x ∷ xs) ys y k =
    let e : suc (length xs) + suc k ≡ suc (length xs + suc k) = omega arith in
    rw e (get_elem-append xs ys y k)

All-get_elem :
    {A : Type 0} (P : A → Type 0) (xs : List A)
    → ((k : ℕ) (x : A) → k < length xs → get_elem? xs k ≡ some x → P x)
    → All P xs
All-get_elem P [] h = tt
All-get_elem P (x ∷ xs) h =
    (h 0 x (omega arith) refl, All-get_elem P xs (λ k y lt e. h (suc k) y (omega arith) e))

get_elem_inside :
    {A : Type 0} (xs : List A) (k : ℕ) → k < length xs → (x : A) × (get_elem? xs k ≡ some x)
get_elem_inside [] k h = absurd (omega arith)
get_elem_inside (x ∷ xs) zero h = (x, refl)
get_elem_inside (x ∷ xs) (suc k) h = get_elem_inside xs k (omega arith)

some-injective : {A : Type 0} {a b : A} → some a ≡ some b → a ≡ b
some-injective {A} {a} {b} e = ap (λ o. elim o [ none ↦ a | some x ↦ x ]) e

lt_suc : (k n : ℕ) → k < suc n → (k < n) ⊎ (k ≡ n)
lt_suc k n h = grind arith

-- What the search for a later place of a name finds.
abbrev Searched : List Bytes → Bytes → ℕ → ℕ → Type 0
Searched names name i gap =
    (b : Bool) × (stands_later names name i gap ≡ some b)
    × ((b ≡ false)
        → (k : ℕ) (x : Bytes) → k < gap
        → get_elem? names (i + suc k) ≡ some x
        → name_eq name x ≡ false)

stands_later-Searched :
    (names : List Bytes) (name : Bytes) (i gap : ℕ)
    → i + gap < length names
    → Searched names name i gap
unfolding stands_later
stands_later-Searched names name i zero h = (false, refl, λ _ k x lt e. absurd (omega arith))
stands_later-Searched names name i (suc gap) h =
    let (b, e, f) = stands_later-Searched names name i gap (omega arith) in
    let (x, ex) = get_elem_inside names (i + suc gap) h in
    elim (Bool-cases (name_eq name x)) [
      | inl same ↦ (
        true,
        rw (stands_later, ex, same),
        λ n k y lt ey. absurd (subst (λ x. if x then Unit {0} else ⊥) n tt),
      )
      | inr differs ↦ (
        b,
        rw (stands_later, ex, differs, e),
        λ n k y lt ey. elim (lt_suc k gap lt) [
          | inl small ↦ f n k y small ey
          | inr at ↦
              subst (λ z. name_eq name z ≡ false)
                (some-injective (sym ex ∙ ap (λ j. get_elem? names (i + suc j)) (sym at) ∙ ey))
                differs
        ],
      )
    ]

module _ {V : Type 0} where
  remove_other :
      (name x : Bytes) (map : NameMap V) → name_eq name x ≡ false → remove name map x ≡ map x
  unfolding remove
  remove_other name x map h = rw h

  remove-look_up :
      (name : Bytes) (rest : List Bytes) (map : NameMap V)
      → All (λ x. name_eq name x ≡ false) rest
      → look_up rest (remove name map) ≡ look_up rest map
  remove-look_up name [] map h = refl
  remove-look_up name (x ∷ xs) map (h, hs) =
      ap (λ o. found x o (look_up xs (remove name map))) (remove_other name x map h)
      ∙ ap (found x (map x)) (remove-look_up name xs map hs)

  push_params-look_up :
      (names before rest : List Bytes) (map : NameMap V)
      → names ≡ before ++ rest
      → push_params names (length before) rest map ≡ look_up rest map
  unfolding push_params
  push_params-look_up names before [] map e = refl
  push_params-look_up names before (name ∷ rest) map e =
      let size : length names ≡ length before + suc (length rest) =
        ap length e ∙ length-append before (name ∷ rest) in
      let gap : length names - 1 - length before ≡ length rest = omega arith in
      let (later, el, fl) =
        stands_later-Searched names name (length before) (length rest) (omega arith) in
      let next : (m : NameMap V) → push_params names (length before + 1) rest m ≡ look_up rest m =
        λ m.
          let one_more : length before + 1 ≡ length (before ++ name ∷ []) =
            sym (length-append before (name ∷ [])) in
          ap (λ i. push_params names i rest m) one_more
          ∙ push_params-look_up names (before ++ name ∷ []) rest m
              (e ∙ sym (append_assoc before (name ∷ []) rest)) in
      let kept : look_up rest (if later then map else remove name map) ≡ look_up rest map =
        elim (Bool-cases later) [
          | inl t ↦ ap (λ b. look_up rest (if b then map else remove name map)) t
          | inr t ↦
              ap (λ b. look_up rest (if b then map else remove name map)) t
              ∙ remove-look_up name rest map (
                  All-get_elem (λ x. name_eq name x ≡ false) rest
                    (λ k x lt ex. fl t k x lt (
                      ap (λ l. get_elem? l (length before + suc k)) e
                      ∙ get_elem-append before rest name k
                      ∙ ex)))
        ] in
      elim (Option-cases (map name)) [
        | inl missing ↦ rw (push_params, missing)
        | inr (v, held) ↦
            rw (push_params, held, gap, el)
              (ap (push v) (next (if later then map else remove name map) ∙ kept))
      ]

  -- For a map and names, `into_positional` never panics, whether names repeat or not: it returns the
  -- values that the map holds at the names, in their order, or the error with the first name that
  -- the map does not hold.
  pub into_positional-look_up :
      (map : NameMap V) (names : List Bytes)
      → into_positional (named map) names
        ≡ elim (look_up names map) [ ok vs ↦ ok (positional vs) | err e ↦ err e | panic ↦ panic ]
  unfolding into_positional
  into_positional-look_up map names =
      ap (λ r. elim r [ ok vs ↦ ok (positional vs) | err e ↦ err e | panic ↦ panic ])
        (push_params-look_up names [] names map refl)
