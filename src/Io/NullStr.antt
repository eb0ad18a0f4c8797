-- ===== src/Io/NullStr.antt =====
-- Null-terminated strings of src/io.rs.
use native.Mathlib.Numerals.{add-one}
use rust_mysql_common.Base.{
  ◌+◌, ◌≡◌, ◌≢◌, ◌⊎◌, refl, ap, some, none, [], ◌∷◌, ◌++◌, arith, length, ◌==◌, Bool-cases, inl,
  inr, All, ==_iff, le→leb, take_all, drop_all, length-append, append_assoc, sym, ◌∙◌,
}
use rust_mysql_common.Base.Bytes.{Bytes}
use rust_mysql_common.Base.Result.{ok}
use rust_mysql_common.Io.ParseBuf.{eat, len}
use rust_mysql_common.Io.Lenenc.{position, strip_null, eat_null_str}
use rust_mysql_common.Io.Numbers.{eat-append}

abbrev pub NoNull : Bytes → Type 0
NoNull = All (λ x. x ≢ 0)

-- Where the first zero stands.
pub position_cases :
    (xs : Bytes)
    → ((s : Bytes) × (rest : Bytes) × NoNull s
        × (xs ≡ s ++ 0 ∷ rest)
        × (position 0 xs ≡ some (length s)))
      ⊎ (NoNull xs × (position 0 xs ≡ none))
unfolding position
position_cases [] = inr (tt, refl)
position_cases (x ∷ xs) = elim (Bool-cases (x == 0)) [
  | inl e ↦ inl ([], xs, tt, ap (λ t. t ∷ xs) ((==_iff x 0).0 e), rw e)
  | inr e ↦
      let nz : x ≢ 0 = ground arith in
      elim (position_cases xs) [
        | inl (s, rest, ns, split, pos) ↦ inl (
          x ∷ s,
          rest,
          (nz, ns),
          ap (λ t. x ∷ t) split,
          rw (e, pos) (ap some (add-one (length s))),
        )
        | inr (ns, pos) ↦ inr ((nz, ns), rw (e, pos))
      ]
]

pub strip_null-append : (s : Bytes) → NoNull s → strip_null (s ++ 0 ∷ []) ≡ s
unfolding strip_null
strip_null-append [] h = refl
strip_null-append (x ∷ []) h = refl
strip_null-append (x ∷ y ∷ s) h = ap (λ t. x ∷ t) (strip_null-append (y ∷ s) h.1)

pub strip_null_none : (s : Bytes) → NoNull s → strip_null s ≡ s
unfolding strip_null
strip_null_none [] h = refl
strip_null_none (x ∷ []) h = ground arith
strip_null_none (x ∷ y ∷ s) h = ap (λ t. x ∷ t) (strip_null_none (y ∷ s) h.1)

eat_terminated : (s rest : Bytes) → eat (length s + 1) (s ++ 0 ∷ rest) ≡ ok (s ++ 0 ∷ [], rest)
eat_terminated s rest =
    ap (eat (length s + 1)) (sym (append_assoc s (0 ∷ []) rest))
    ∙ eat-append _ (s ++ 0 ∷ []) rest (omega (arith, length-append s (0 ∷ [])))

pub eat_whole : (buf : Bytes) → eat (len buf) buf ≡ ok (buf, [])
unfolding eat len
eat_whole buf = rw (
  le→leb (length buf) (length buf) (omega arith),
  take_all (length buf) buf (omega arith),
  drop_all (length buf) buf (omega arith),
)

-- `eat_null_str` returns the bytes before the first zero byte and leaves what follows that byte;
-- with no zero byte it returns the whole buffer and leaves nothing.
pub eat_null_str_cases :
    (buf : Bytes)
    → ((s : Bytes) × (rest : Bytes) × NoNull s
        × (buf ≡ s ++ 0 ∷ rest)
        × (eat_null_str buf ≡ ok (s, rest)))
      ⊎ (NoNull buf × (eat_null_str buf ≡ ok (buf, [])))
unfolding eat_null_str
eat_null_str_cases buf = elim (position_cases buf) [
  | inl (s, rest, ns, split, pos) ↦
      inl (s, rest, ns, split, rw (pos, split, eat_terminated s rest, strip_null-append s ns))
  | inr (ns, pos) ↦ inr (ns, rw (pos, eat_whole buf, strip_null_none buf ns))
]
