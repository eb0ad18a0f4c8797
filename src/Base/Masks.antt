-- ===== src/Base/Masks.antt =====
-- Laws of `bit_and` with masks: low bits, and single bits set and cleared.
use Prim.Native.Nat.{ℕ, zero, suc, ◌-◌, ◌/◌, ◌^◌, ◌≤◌, ◌<◌, max, bit_or, bit_and}
use mathlib.Core.Path.{◌≡◌, refl, ap}
use mathlib.Core.Logic.{◌≢◌}
use native.Mathlib.Omega.{arith}
use native.Mathlib.Nat.{two-pow-succ}
use rust_mysql_common.Base.Bits.{bit_and-Digitwise, bit_or-Digitwise, bit_and-le, zero-bit_and}

bit_and-zero_within : (n x : ℕ) → x ≤ n → bit_and x 0 ≡ 0
bit_and-zero_within zero x h = let e : x ≡ 0 = omega arith in rw e refl
bit_and-zero_within (suc n) x h =
    let rest : bit_and (x / 2) (0 / 2) ≡ 0 = bit_and-zero_within n (x / 2) (omega arith) in
    omega (arith, bit_and-Digitwise x 0, rest)

bit_and-zero : (x : ℕ) → bit_and x 0 ≡ 0
bit_and-zero x = bit_and-zero_within x x (omega arith)

-- A number below `2 ^ k` is all low bits.
pub bit_and-low : (k x : ℕ) → x < 2 ^ k → bit_and x (2 ^ k - 1) ≡ x
bit_and-low zero x h = omega (arith, bit_and-zero x)
bit_and-low (suc k) x h =
    let half : (2 ^ suc k - 1) / 2 ≡ 2 ^ k - 1 = omega (arith, two-pow-succ k) in
    omega (
      arith,
      two-pow-succ k,
      bit_and-Digitwise x (2 ^ suc k - 1),
      ap (λ t. bit_and (x / 2) t) half,
      bit_and-low k (x / 2) (omega (arith, two-pow-succ k)),
    )

-- Bits apart from those of `p` stay as they are when those of `p` are set or cleared.
set_apart_within :
    (n x p q : ℕ) → x ≤ n → p ≤ n → bit_and p q ≡ 0 → bit_and (bit_or x p) q ≡ bit_and x q
set_apart_within zero x p q hx hp h =
    let ex : x ≡ 0 = omega arith in let ep : p ≡ 0 = omega arith in rw (ex, ep) refl
set_apart_within (suc n) x p q hx hp h =
    let half : bit_or x p / 2 ≡ bit_or (x / 2) (p / 2) = omega (arith, bit_or-Digitwise x p) in
    omega (
      arith,
      bit_and-Digitwise (bit_or x p) q,
      ap (λ t. bit_and t (q / 2)) half,
      bit_or-Digitwise x p,
      bit_and-Digitwise x q,
      bit_and-Digitwise p q,
      set_apart_within n (x / 2) (p / 2) (q / 2) (omega arith) (omega arith)
          (omega (arith, bit_and-Digitwise p q)),
    )

pub set_apart : (x p q : ℕ) → bit_and p q ≡ 0 → bit_and (bit_or x p) q ≡ bit_and x q
set_apart x p q h = set_apart_within (max x p) x p q (omega arith) (omega arith) h

clear_apart_within :
    (n x p q : ℕ) → x ≤ n → bit_and p q ≡ 0 → bit_and (x - bit_and x p) q ≡ bit_and x q
clear_apart_within zero x p q hx h =
    let e : x - bit_and x p ≡ x = omega arith in ap (λ t. bit_and t q) e
clear_apart_within (suc n) x p q hx h =
    let rest : ℕ = x - bit_and x p in
    let small : bit_and (x / 2) (p / 2) ≤ x / 2 = bit_and-le x (x / 2) (p / 2) (omega arith) in
    let half : rest / 2 ≡ x / 2 - bit_and (x / 2) (p / 2) = omega (arith, bit_and-Digitwise x p) in
    omega (
      arith,
      bit_and-Digitwise rest q,
      ap (λ t. bit_and t (q / 2)) half,
      bit_and-Digitwise x p,
      bit_and-Digitwise x q,
      bit_and-Digitwise p q,
      clear_apart_within n (x / 2) (p / 2) (q / 2) (omega arith)
          (omega (arith, bit_and-Digitwise p q)),
    )

pub clear_apart : (x p q : ℕ) → bit_and p q ≡ 0 → bit_and (x - bit_and x p) q ≡ bit_and x q
clear_apart x p q h = clear_apart_within x x p q (omega arith) h

-- Two different single bits.
pub single_apart : (a b : ℕ) → a ≢ b → bit_and (2 ^ a) (2 ^ b) ≡ 0
single_apart zero zero h = absurd (h refl)
single_apart zero (suc b) h =
    let rest : bit_and (1 / 2) (2 ^ suc b / 2) ≡ 0 = zero-bit_and (2 ^ suc b / 2) in
    omega (arith, bit_and-Digitwise 1 (2 ^ suc b), two-pow-succ b, rest)
single_apart (suc a) zero h =
    let rest : bit_and (2 ^ suc a / 2) (1 / 2) ≡ 0 = bit_and-zero (2 ^ suc a / 2) in
    omega (arith, bit_and-Digitwise (2 ^ suc a) 1, two-pow-succ a, rest)
single_apart (suc a) (suc b) h =
    let ha : 2 ^ suc a / 2 ≡ 2 ^ a = omega (arith, two-pow-succ a) in
    let hb : 2 ^ suc b / 2 ≡ 2 ^ b = omega (arith, two-pow-succ b) in
    let rest : bit_and (2 ^ suc a / 2) (2 ^ suc b / 2) ≡ 0 =
      rw (ha, hb) (single_apart a b (λ e. h (ap suc e))) in
    omega (arith, bit_and-Digitwise (2 ^ suc a) (2 ^ suc b), two-pow-succ a, two-pow-succ b, rest)
