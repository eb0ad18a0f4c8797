-- ===== src/Io/Checked.antt =====
-- The checked readers of src/io.rs against their unchecked twins, on every buffer.
use rust_mysql_common.Base.{
  ℕ, ◌≡◌, refl, ap, ◌∙◌, sym, Option, some, none, [], ◌++◌, length, take, drop, leb, ◌==◌,
  Bool-cases, inl, inr, append_assoc, if◌then◌else◌, take-append-drop, Bool, true, false,
}
use rust_mysql_common.Base.Bytes.{Bytes, from_le_bytes}
use rust_mysql_common.Base.Result.{Result, ok, err, panic}
use rust_mysql_common.Io.ParseBuf.{
  IoError, Parser, pure, ◌>>=◌, and_then, map_parser, eat, checked, checked_eat, eat_num_le,
  eat_sized_le, or_bytes,
}
use rust_mysql_common.Io.Lenenc.{
  lenenc_arms, checked_lenenc_arms, eat_lenenc_int, checked_eat_lenenc_int, eat_lenenc_str,
  checked_eat_lenenc_str, eat_u8_str, checked_eat_u8_str, eat_u32_str, checked_eat_u32_str,
}

-- `unwrap` on what a checked reader returns.
abbrev pub unwrap {ℓ} : {A : Type ℓ} → Parser (Option A) → Parser A
unwrap p = p >>= elim [ none ↦ λ _. panic | some a ↦ pure a ]

-- A reader of `n` bytes panics on a shorter buffer.
abbrev Needs {ℓ} : {A : Type ℓ} → ℕ → Parser A → Type ℓ
Needs n p = (buf : Bytes) → leb n (length buf) ≡ false → p buf ≡ panic

unwrap-some {ℓ} :
    {A : Type ℓ} (r : Result IoError (A × Bytes)) → unwrap (map_parser some (λ _. r)) [] ≡ r
unwrap-some (ok a) = refl
unwrap-some (err e) = refl
unwrap-some panic = refl

unwrap-checked {ℓ} :
    {A : Type ℓ} (n : ℕ) (p : Parser A)
    → Needs n p
    → (buf : Bytes) → unwrap (checked n p) buf ≡ p buf
unfolding checked
unwrap-checked n p needs buf = elim (Bool-cases (leb n (length buf))) [
  | inl e ↦ rw e (unwrap-some (p buf))
  | inr e ↦ rw (e, needs buf e)
]

eat-Needs : (n : ℕ) → Needs n (eat n)
unfolding eat
eat-Needs n buf e = rw e

eat_num_le-Needs : (n : ℕ) → Needs n (eat_num_le n)
unfolding eat_num_le eat
eat_num_le-Needs n buf e = rw e

eat_sized_le-Needs : (word n offset : ℕ) → Needs n (eat_sized_le word n offset)
unfolding eat_sized_le eat
eat_sized_le-Needs word n offset buf e = rw e

-- `unwrap` passes through `?`.
module _ {ℓ κ} {A : Type ℓ} {B : Type κ} (f : A → Parser (Option B)) (g : A → Parser B) where
  unwrap_outcome :
      ((a : A) (buf : Bytes) → unwrap (f a) buf ≡ g a buf)
      → (r : Result IoError (Option A × Bytes)) (r' : Result IoError (A × Bytes))
      → unwrap (λ _. r) [] ≡ r'
      → unwrap (and_then (λ _. r) f) [] ≡ ◌>>=◌ (λ _. r') g []
  unwrap_outcome hf (ok (none, rest)) r' e = rw (← e) refl
  unwrap_outcome hf (ok (some a, rest)) r' e = rw (← e) (hf a rest)
  unwrap_outcome hf (err x) r' e = rw (← e) refl
  unwrap_outcome hf panic r' e = rw (← e) refl

  unwrap-and_then :
      (p : Parser (Option A)) (q : Parser A)
      → ((buf : Bytes) → unwrap p buf ≡ q buf)
      → ((a : A) (buf : Bytes) → unwrap (f a) buf ≡ g a buf)
      → (buf : Bytes) → unwrap (and_then p f) buf ≡ ◌>>=◌ q g buf
  unwrap-and_then p q hp hf buf = unwrap_outcome hf (p buf) (q buf) (hp buf)

unwrap-checked_eat : (n : ℕ) (buf : Bytes) → unwrap (checked_eat n) buf ≡ eat n buf
unfolding checked_eat
unwrap-checked_eat n = unwrap-checked n (eat n) (eat-Needs n)

unwrap_num : (n : ℕ) (buf : Bytes) → unwrap (checked n (eat_num_le n)) buf ≡ eat_num_le n buf
unwrap_num n = unwrap-checked n (eat_num_le n) (eat_num_le-Needs n)

unwrap_if {ℓ} :
    {A : Type ℓ} (b : Bool) (p p' : Parser (Option A)) (q q' : Parser A) (buf : Bytes)
    → unwrap p buf ≡ q buf
    → unwrap p' buf ≡ q' buf
    → unwrap (if b then p else p') buf ≡ (if b then q else q') buf
unwrap_if true p p' q q' buf h h' = h
unwrap_if false p p' q q' buf h h' = h'

unwrap-checked_lenenc_arms :
    (x : ℕ) (buf : Bytes) → unwrap (checked_lenenc_arms x) buf ≡ lenenc_arms x buf
unfolding checked_lenenc_arms lenenc_arms
unwrap-checked_lenenc_arms x buf =
    let wide = unwrap-checked 3 (eat_sized_le 4 3 0) (eat_sized_le-Needs 4 3 0) buf in
    unwrap_if (leb x 0xfa) _ _ _ _ buf refl (
      unwrap_if (x == 0xfc) _ _ _ _ buf (unwrap_num 2 buf) (
        unwrap_if (x == 0xfd) _ _ _ _ buf wide
          (unwrap_if (x == 0xfe) _ _ _ _ buf (unwrap_num 8 buf) refl)))

unwrap-checked_eat_lenenc_int :
    (buf : Bytes) → unwrap checked_eat_lenenc_int buf ≡ eat_lenenc_int buf
unfolding checked_eat_lenenc_int eat_lenenc_int
unwrap-checked_eat_lenenc_int =
    unwrap-and_then checked_lenenc_arms lenenc_arms (checked 1 (eat_num_le 1)) (eat_num_le 1)
      (unwrap_num 1) unwrap-checked_lenenc_arms

-- On every buffer an unchecked reader does what its checked twin does, and panics exactly where
-- that returns `None`: length-encoded integers and strings, and strings with a u8 or u32 length.
pub checked_twins :
    (buf : Bytes)
    → (unwrap checked_eat_lenenc_int buf ≡ eat_lenenc_int buf)
      × (unwrap checked_eat_lenenc_str buf ≡ eat_lenenc_str buf)
      × (unwrap checked_eat_u8_str buf ≡ eat_u8_str buf)
      × (unwrap checked_eat_u32_str buf ≡ eat_u32_str buf)
unfolding checked_eat_lenenc_str eat_lenenc_str checked_eat_u8_str eat_u8_str checked_eat_u32_str
    eat_u32_str
checked_twins buf = (
  unwrap-checked_eat_lenenc_int buf,
  unwrap-and_then checked_eat eat checked_eat_lenenc_int eat_lenenc_int
      unwrap-checked_eat_lenenc_int unwrap-checked_eat buf,
  unwrap-and_then checked_eat eat (checked 1 (eat_num_le 1)) (eat_num_le 1) (unwrap_num 1)
      unwrap-checked_eat buf,
  unwrap-and_then checked_eat eat (checked 4 (eat_num_le 4)) (eat_num_le 4) (unwrap_num 4)
      unwrap-checked_eat buf,
)

-- The reader returns a value or `None`, and leaves a suffix of the buffer.
abbrev pub ReturnsAt {ℓ} : {A : Type ℓ} → Parser (Option A) → Bytes → Type ℓ
ReturnsAt {A = A} p buf =
    (o : Option A) × (front : Bytes) × (rest : Bytes) × (p buf ≡ ok (o, rest))
    × (buf ≡ front ++ rest)

abbrev IsTotal {ℓ} : {A : Type ℓ} → Parser (Option A) → Type ℓ
IsTotal p = (buf : Bytes) → ReturnsAt p buf

module _ {ℓ} {A : Type ℓ} where
  -- A reader of `n` bytes succeeds where they are there, and takes just those.
  abbrev Takes : ℕ → Parser A → Type ℓ
  Takes n p = (buf : Bytes) → leb n (length buf) ≡ true → (a : A) × (p buf ≡ ok (a, drop n buf))

  IsTotal-checked : (n : ℕ) (p : Parser A) → Takes n p → IsTotal (checked n p)
  unfolding checked
  IsTotal-checked n p takes buf = elim (Bool-cases (leb n (length buf))) [
    | inl e ↦
        let (a, read) = takes buf e in
        (some a, take n buf, drop n buf, rw (e, read), sym (take-append-drop n buf))
    | inr e ↦ (none, [], buf, rw e, refl)
  ]

  IsTotal-pure : (o : Option A) → IsTotal (pure o)
  IsTotal-pure o buf = (o, [], buf, refl, refl)

  IsTotal-if :
      (b : Bool) (p q : Parser (Option A)) → IsTotal p → IsTotal q → IsTotal (if b then p else q)
  IsTotal-if true p q hp hq = hp
  IsTotal-if false p q hp hq = hq

  and_then_returns {κ} :
      {B : Type κ} (p : Parser (Option A)) (f : A → Parser (Option B)) (buf : Bytes)
      → ((a : A) → IsTotal (f a))
      → ReturnsAt p buf
      → ReturnsAt (and_then p f) buf
  and_then_returns p f buf hf (none, front, rest, e, s) = (none, front, rest, rw e, s)
  and_then_returns p f buf hf (some a, front, rest, e, s) =
      let (o, front', rest', e', s') = hf a rest in
      let split = s ∙ ap (λ t. front ++ t) s' ∙ sym (append_assoc front front' rest') in
      (o, front ++ front', rest', rw e e', split)

  IsTotal-and_then {κ} :
      {B : Type κ} (p : Parser (Option A)) (f : A → Parser (Option B))
      → IsTotal p
      → ((a : A) → IsTotal (f a))
      → IsTotal (and_then p f)
  IsTotal-and_then p f hp hf buf = and_then_returns p f buf hf (hp buf)

eat-Takes : (n : ℕ) → Takes n (eat n)
unfolding eat
eat-Takes n buf e = (take n buf, rw e)

eat_num_le-Takes : (n : ℕ) → Takes n (eat_num_le n)
unfolding eat_num_le eat
eat_num_le-Takes n buf e = (from_le_bytes (take n buf), rw e)

eat_sized_le-Takes : (word n offset : ℕ) → Takes n (eat_sized_le word n offset)
unfolding eat_sized_le eat
eat_sized_le-Takes word n offset buf e = (or_bytes word offset 0 0 (take n buf), rw e)

checked_eat-IsTotal : (n : ℕ) → IsTotal (checked_eat n)
unfolding checked_eat
checked_eat-IsTotal n = IsTotal-checked n (eat n) (eat-Takes n)

num-IsTotal : (n : ℕ) → IsTotal (checked n (eat_num_le n))
num-IsTotal n = IsTotal-checked n (eat_num_le n) (eat_num_le-Takes n)

checked_lenenc_arms-IsTotal : (x : ℕ) → IsTotal (checked_lenenc_arms x)
unfolding checked_lenenc_arms
checked_lenenc_arms-IsTotal x =
    let wide = IsTotal-checked 3 (eat_sized_le 4 3 0) (eat_sized_le-Takes 4 3 0) in
    IsTotal-if (leb x 0xfa) _ _ (IsTotal-pure (some x)) (
      IsTotal-if (x == 0xfc) _ _ (num-IsTotal 2) (
        IsTotal-if (x == 0xfd) _ _ wide
          (IsTotal-if (x == 0xfe) _ _ (num-IsTotal 8) (IsTotal-pure (some 0)))))

checked_eat_lenenc_int-IsTotal : IsTotal checked_eat_lenenc_int
unfolding checked_eat_lenenc_int
checked_eat_lenenc_int-IsTotal =
    IsTotal-and_then _ checked_lenenc_arms (num-IsTotal 1) checked_lenenc_arms-IsTotal

-- The checked readers never panic and never fail: on every buffer they return a value or `None`,
-- and what they leave in the buffer is a suffix of it.
pub checked_readers-ReturnsAt :
    (buf : Bytes)
    → ReturnsAt checked_eat_lenenc_int buf
      × ReturnsAt checked_eat_lenenc_str buf
      × ReturnsAt checked_eat_u8_str buf
      × ReturnsAt checked_eat_u32_str buf
unfolding checked_eat_lenenc_str checked_eat_u8_str checked_eat_u32_str
checked_readers-ReturnsAt buf = (
  checked_eat_lenenc_int-IsTotal buf,
  IsTotal-and_then _ checked_eat checked_eat_lenenc_int-IsTotal checked_eat-IsTotal buf,
  IsTotal-and_then _ checked_eat (num-IsTotal 1) checked_eat-IsTotal buf,
  IsTotal-and_then _ checked_eat (num-IsTotal 4) checked_eat-IsTotal buf,
)
