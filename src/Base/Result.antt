-- ===== src/Base/Result.antt =====
-- Outcomes of fallible code. `panic` is a Rust panic: a failed bounds check, `unwrap`, an
-- arithmetic overflow check. `err` is the `Err` of a `Result`.
use mathlib.Core.Path.{◌≡◌, ap}

pub data Result {ℓ κ} (E : Type ℓ) (A : Type κ) : Type (ℓ ⊔ κ) where
  ok : A → Result E A
  err : E → Result E A
  panic : Result E A

infixl 5 ◌>>=◌
abbrev pub ◌>>=◌ {ℓ κ μ} :
    {E : Type ℓ} {A : Type κ} {B : Type μ} → Result E A → (A → Result E B) → Result E B
ok a >>= f = f a
err e >>= f = err e
panic >>= f = panic

module _ {ℓ κ μ} {E : Type ℓ} {A : Type κ} {B : Type μ} where
  pub >>=-ok : (m : Result E A) (f : A → Result E B) {a : A} → m ≡ ok a → (m >>= f) ≡ f a
  >>=-ok m f e = ap (λ r. r >>= f) e
