-- ===== src/Raw/Parse.antt =====
-- src/io.rs, `ParseBuf::parse`: how a value is read behind which others follow.
use rust_mysql_common.Base.{ℕ, ◌≡◌, ap, ◌∙◌, Option, none, some, [], ◌++◌, length}
use rust_mysql_common.Base.Bytes.{Bytes}
use rust_mysql_common.Base.Result
use rust_mysql_common.Base.Result.{ok, err}
use rust_mysql_common.Io.ParseBuf.{Parser, checked_eat, checked_eat_buf}
use rust_mysql_common.Io.RoundTrip.{checked-append}
use rust_mysql_common.Raw.{
  MyDeserialize, MySerialize, ok_or_eof, parse, parse_by_size, parse_unchecked, parse_buf,
}

pub ok_or_eof-eq :
    {A : Type 0} (p : Parser (Option A)) (buf rest : Bytes) (x : A)
    → p buf ≡ ok (some x, rest)
    → ok_or_eof p buf ≡ ok (x, rest)
unfolding ok_or_eof
ok_or_eof-eq p buf rest x e = Result.>>=-ok (p buf) _ e

pub checked_eat-ok :
    (n : ℕ) (xs rest : Bytes)
    → n ≡ length xs
    → ok_or_eof (checked_eat n) (xs ++ rest) ≡ ok (xs, rest)
checked_eat-ok n xs rest h =
    ok_or_eof-eq (checked_eat n) (xs ++ rest) rest xs (checked-append n xs rest h)

pub parse_buf-append :
    (n : ℕ) (xs rest : Bytes)
    → n ≡ length xs
    → parse_unchecked parse_buf n (xs ++ rest) ≡ ok (xs, rest)
unfolding parse_unchecked parse_buf checked_eat_buf
parse_buf-append n xs rest h =
    ok_or_eof-eq (checked_eat_buf n) (xs ++ rest) rest xs
      (Result.>>=-ok (checked_eat n (xs ++ rest)) _ (checked-append n xs rest h))

-- A value of a known size is read from its own bytes alone.
pub parse-sized :
    {C A : Type 0} (D : MyDeserialize C A) (ctx : C) (n : ℕ) (xs rest left : Bytes) (x : A)
    → D.size ≡ some n
    → n ≡ length xs
    → D.deserialize ctx xs ≡ ok (x, left)
    → parse D ctx (xs ++ rest) ≡ ok (x, rest)
unfolding parse parse_unchecked
parse-sized D ctx n xs rest left x s h e =
    ap (λ o. parse_by_size o D ctx (xs ++ rest)) s
    ∙ Result.>>=-ok (parse_unchecked parse_buf n (xs ++ rest)) _ (parse_buf-append n xs rest h)
    ∙ Result.>>=-ok (parse_unchecked D ctx xs) _ e

pub parse-unsized :
    {C A : Type 0} (D : MyDeserialize C A) (ctx : C)
    → D.size ≡ none
    → parse D ctx ≡ D.deserialize ctx
unfolding parse parse_unchecked
parse-unsized D ctx s = ap (λ o. parse_by_size o D ctx) s

-- What is written for `x` behind a buffer is read as `y`, whatever follows.
pub record ReadsAs {C A : Type 0} (S : MySerialize A) (D : MyDeserialize C A) (ctx : C) (x y : A)
    : Type 0 where
  pub written : Bytes
  pub writes : (buf : Bytes) → S x buf ≡ buf ++ written
  pub reads : (rest : Bytes) → parse D ctx (written ++ rest) ≡ ok (y, rest)

-- It is read back.
abbrev pub RoundTrips : {C A : Type 0} → MySerialize A → MyDeserialize C A → C → A → Type 0
RoundTrips S D ctx x = ReadsAs S D ctx x x

-- What is written for `x` behind a buffer is read back if nothing follows it.
pub record WholeTrips {C A : Type 0} (S : MySerialize A) (D : MyDeserialize C A) (ctx : C) (x : A)
    : Type 0 where
  pub written : Bytes
  pub writes : (buf : Bytes) → S x buf ≡ buf ++ written
  pub reads : parse D ctx written ≡ ok (x, [])
