-- ===== src/Base/Bits.antt =====
-- Laws of `bit_or`, `bit_and` and `bit_xor` at variables, for the shifts and the masks that the
-- program uses.
use Prim.Native.Nat.{
  ℕ, zero, suc, ◌+◌, ◌*◌, ◌/◌, ◌%◌, ◌^◌, ◌≤◌, ◌<◌, max, min, ◌-◌, bit_or, bit_and, bit_xor, digits,
  differ, bit_or-bitwise, bit_and-bitwise, bit_xor-bitwise,
}
use mathlib.Core.Path.{◌≡◌, refl, ap, sym, ◌∙◌}
use mathlib.Core.Bool.{Bool, true, ◌&&◌}
use native.Mathlib.Omega.{arith}
use native.Mathlib.Nat.{two-pow-succ}

-- A test at every number below a bound, by evaluation.
unfoldable pub holds_below : (ℕ → Bool) → ℕ → Bool
holds_below test zero = true
holds_below test (suc bound) = test bound && holds_below test bound

pub holds_below-eq-true :
    (test : ℕ → Bool) (bound : ℕ) (v : ℕ)
    → holds_below test bound ≡ true
    → v < bound
    → test v ≡ true
unfolding holds_below
holds_below-eq-true test zero v ok below = absurd (omega arith)
holds_below-eq-true test (suc bound) v ok below = ground (arith, holds_below-eq-true test bound v)

-- An operation on binary digits: what it gives for two numbers has `f` of their lowest digits as its
-- lowest digit, in front of it what it gives for the others.
abbrev pub Digitwise : (ℕ → ℕ → ℕ) → (ℕ → ℕ → ℕ) → Type 0
Digitwise op f = (x y : ℕ) → op x y ≡ op (x / 2) (y / 2) * 2 + f (x % 2) (y % 2)

module _ (z : ℕ → ℕ) (f : ℕ → ℕ → ℕ) where
  -- The first number is enough as the count of a recursion by digits.
  digits_enough : (bound n x y : ℕ) → n < bound → x ≤ n → digits z f n x y ≡ digits z f x x y
  digits_enough zero n x y below enough = absurd (omega arith)
  digits_enough (suc bound) zero zero y below enough = refl
  digits_enough (suc bound) (suc n) zero y below enough = refl
  digits_enough (suc bound) zero (suc x) y below enough = absurd (omega arith)
  digits_enough (suc bound) (suc n) (suc x) y below enough =
      let half : ℕ = suc x / 2 in
      ap (λ others. others * 2 + f (suc x % 2) (y % 2))
        (digits_enough bound n half (y / 2) (omega arith) (omega arith)
          ∙ sym (digits_enough bound x half (y / 2) (omega arith) (omega arith)))

  op-Digitwise :
      (op : ℕ → ℕ → ℕ)
      → ((x y : ℕ) → op x y ≡ digits z f x x y)
      → ((y : ℕ) → op 0 y ≡ op 0 (y / 2) * 2 + f 0 (y % 2))
      → Digitwise op f
  op-Digitwise op by_digits at_zero zero y = at_zero y
  op-Digitwise op by_digits at_zero (suc x) y =
      by_digits (suc x) y
      ∙ ap (λ others. others * 2 + f (suc x % 2) (y % 2))
          (digits_enough (suc x) x (suc x / 2) (y / 2) (omega arith) (omega arith)
            ∙ sym (by_digits (suc x / 2) (y / 2)))

pub zero-bit_or : (b : ℕ) → bit_or 0 b ≡ b
zero-bit_or b = bit_or-bitwise 0 b

pub bit_or-Digitwise : Digitwise bit_or max
bit_or-Digitwise =
    op-Digitwise (λ b. b) max bit_or bit_or-bitwise
      (λ y. omega (arith, zero-bit_or y, zero-bit_or (y / 2)))

half_of_shifted : (b p : ℕ) → (b * (p + p)) / 2 ≡ b * p
half_of_shifted b p = omega arith

even_of_shifted : (b p : ℕ) → (b * (p + p)) % 2 ≡ 0
even_of_shifted b p = omega arith

-- Bits that do not overlap: `x | (b << k)` is `x + b * 2 ^ k` for `x` below `2 ^ k`.
pub bit_or_disjoint : (k x b : ℕ) → x < 2 ^ k → bit_or x (b * 2 ^ k) ≡ x + b * 2 ^ k
bit_or_disjoint zero x b h = let e : x ≡ 0 = omega arith in rw (e, zero-bit_or) (omega arith)
bit_or_disjoint (suc k) x b h = rw two-pow-succ (
    omega (
      arith,
      bit_or-Digitwise x (b * (2 ^ k + 2 ^ k)),
      ap (λ t. bit_or (x / 2) t) (half_of_shifted b (2 ^ k)),
      even_of_shifted b (2 ^ k),
      bit_or_disjoint k (x / 2) b (omega (arith, two-pow-succ k)),
    ))

pub zero-bit_and : (b : ℕ) → bit_and 0 b ≡ 0
zero-bit_and b = bit_and-bitwise 0 b

pub bit_and-Digitwise : Digitwise bit_and min
bit_and-Digitwise =
    op-Digitwise (λ b. 0) min bit_and bit_and-bitwise
      (λ y. omega (arith, zero-bit_and y, zero-bit_and (y / 2)))

-- The bits of `b` are in `a | b`.
bit_and-bit_or_within : (n a b : ℕ) → a ≤ n → b ≤ n → bit_and (bit_or a b) b ≡ b
bit_and-bit_or_within zero a b p q =
    let ea : a ≡ 0 = omega arith in let eb : b ≡ 0 = omega arith in rw (ea, eb) refl
bit_and-bit_or_within (suc n) a b p q =
    let half : bit_or a b / 2 ≡ bit_or (a / 2) (b / 2) = omega (arith, bit_or-Digitwise a b) in
    omega (
      arith,
      bit_and-Digitwise (bit_or a b) b,
      ap (λ t. bit_and t (b / 2)) half,
      bit_or-Digitwise a b,
      bit_and-bit_or_within n (a / 2) (b / 2) (omega arith) (omega arith),
    )

pub bit_and-bit_or : (a b : ℕ) → bit_and (bit_or a b) b ≡ b
bit_and-bit_or a b = bit_and-bit_or_within (max a b) a b (omega arith) (omega arith)

pub bit_and-le : (n a b : ℕ) → a ≤ n → bit_and a b ≤ a
bit_and-le zero a b p = let e : a ≡ 0 = omega arith in rw e (omega (arith, zero-bit_and b))
bit_and-le (suc n) a b p =
    omega (arith, bit_and-Digitwise a b, bit_and-le n (a / 2) (b / 2) (omega arith))

-- None of the bits of `b` is left in `a & !b`.
bit_and-minus_within : (n a b : ℕ) → a ≤ n → bit_and (a - bit_and a b) b ≡ 0
bit_and-minus_within zero a b p = let e : a - bit_and a b ≡ 0 = omega arith in rw e (zero-bit_and b)
bit_and-minus_within (suc n) a b p =
    let rest : ℕ = a - bit_and a b in
    let half : rest / 2 ≡ a / 2 - bit_and (a / 2) (b / 2) =
      omega (arith, bit_and-Digitwise a b, bit_and-le a (a / 2) (b / 2) (omega arith)) in
    omega (
      arith,
      bit_and-Digitwise rest b,
      ap (λ t. bit_and t (b / 2)) half,
      bit_and-Digitwise a b,
      bit_and-le a (a / 2) (b / 2) (omega arith),
      bit_and-minus_within n (a / 2) (b / 2) (omega arith),
    )

pub bit_and-minus : (a b : ℕ) → bit_and (a - bit_and a b) b ≡ 0
bit_and-minus a b = bit_and-minus_within a a b (omega arith)

zero-bit_xor : (b : ℕ) → bit_xor 0 b ≡ b
zero-bit_xor b = bit_xor-bitwise 0 b

bit_xor-Digitwise : Digitwise bit_xor differ
bit_xor-Digitwise =
    op-Digitwise (λ b. b) differ bit_xor bit_xor-bitwise
      (λ y. omega (arith, zero-bit_xor y, zero-bit_xor (y / 2)))

differ_digits : (x y : ℕ) → x < 2 → y < 2 → (differ x y < 2) × (differ (differ x y) y ≡ x)
differ_digits zero zero p q = (omega arith, refl)
differ_digits zero (suc zero) p q = (omega arith, refl)
differ_digits (suc zero) zero p q = (omega arith, refl)
differ_digits (suc zero) (suc zero) p q = (omega arith, refl)
differ_digits (suc (suc x)) y p q = absurd (omega arith)
differ_digits zero (suc (suc y)) p q = absurd (omega arith)
differ_digits (suc zero) (suc (suc y)) p q = absurd (omega arith)

bit_xor_twice_within : (n a b : ℕ) → a ≤ n → b ≤ n → bit_xor (bit_xor a b) b ≡ a
bit_xor_twice_within zero a b p q =
    let ea : a ≡ 0 = omega arith in let eb : b ≡ 0 = omega arith in rw (ea, eb) refl
bit_xor_twice_within (suc n) a b p q =
    let digit : (differ (a % 2) (b % 2) < 2) × (differ (differ (a % 2) (b % 2)) (b % 2) ≡ a % 2) =
      differ_digits (a % 2) (b % 2) (omega arith) (omega arith) in
    let half : bit_xor a b / 2 ≡ bit_xor (a / 2) (b / 2) =
      omega (arith, bit_xor-Digitwise a b, digit.0) in
    let low : bit_xor a b % 2 ≡ differ (a % 2) (b % 2) =
      omega (arith, bit_xor-Digitwise a b, digit.0) in
    omega (
      arith,
      bit_xor-Digitwise (bit_xor a b) b,
      ap (λ t. bit_xor t (b / 2)) half,
      ap (λ t. differ t (b % 2)) low,
      digit.1,
      bit_xor_twice_within n (a / 2) (b / 2) (omega arith) (omega arith),
    )

pub bit_xor_twice : (a b : ℕ) → bit_xor (bit_xor a b) b ≡ a
bit_xor_twice a b = bit_xor_twice_within (max a b) a b (omega arith) (omega arith)
