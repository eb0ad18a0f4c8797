-- ===== src/Io/Numbers.antt =====
-- Laws of the number parsers of src/io.rs.
use native.Mathlib.Nat.{zero-add, one-mul, pow-suc, one-le-pow, pow-le-pow_right, mod-eq_of_lt}
use native.Mathlib.Numerals.{towards_suc}
use rust_mysql_common.Base.{
  Bool-cases, leb, leb→le, inl, inr, replicate, ℕ, zero, suc, ◌+◌, ◌*◌, ◌/◌, ◌%◌, ◌^◌, ◌≤◌, ◌<◌,
  ◌≡◌, refl, ap, ◌∙◌, sym, bit_or, [], ◌∷◌, ◌++◌, arith, length, take, All, take-append_self,
  drop-append_self, le→leb, length-take, length-append,
}
use rust_mysql_common.Base.Bits.{bit_or_disjoint}
use rust_mysql_common.Base.Bytes.{
  Bytes, IsByte, to_le_bytes, from_le_bytes, from_be_bytes, length-to_le_bytes,
  from_le_bytes-to_le_bytes, to_le_bytes-from_le_bytes,
}
use rust_mysql_common.Base.Result.{ok}
use rust_mysql_common.Io.ParseBuf.{
  eat, eat_num_le, eat_num_be, or_bytes, swap_bytes, eat_sized_le, eat_sized_be,
}

-- Eating as many bytes as the front part of the buffer has.
pub eat-append : (n : ℕ) (xs rest : Bytes) → n ≡ length xs → eat n (xs ++ rest) ≡ ok (xs, rest)
unfolding eat
eat-append n xs rest h = rw (
  le→leb n (length (xs ++ rest)) (omega (arith, length-append xs rest)),
  take-append_self n xs rest h,
  drop-append_self n xs rest h,
)

pub eat_num_le-to_le_bytes :
    (n x : ℕ) (rest : Bytes) → x < 256 ^ n → eat_num_le n (to_le_bytes n x ++ rest) ≡ ok (x, rest)
unfolding eat_num_le
eat_num_le-to_le_bytes n x rest h = rw (
  eat-append n (to_le_bytes n x) rest (sym (length-to_le_bytes n x)),
  from_le_bytes-to_le_bytes n x h,
)

mul_lt : (p b : ℕ) → 1 ≤ p → b < 256 → b * p + p ≤ p * 256
mul_lt p b hp hb = grind arith

pow_byte : (s : ℕ) → 2 ^ (s + 8) ≡ 256 * 2 ^ s
pow_byte s = simp towards_suc (omega arith)

pub pow_bytes : (i : ℕ) → 2 ^ (8 * i) ≡ 256 ^ i
pow_bytes zero = refl
pow_bytes (suc i) =
    let e : 8 * suc i ≡ 8 * i + 8 = omega arith in
    rw e (omega (arith, pow_byte (8 * i), pow_bytes i, pow-suc 256 i))

-- One round of the loop, in a word with room for the byte.
or_byte :
    (word m x b : ℕ)
    → x < 256 ^ m
    → IsByte b
    → suc m ≤ word
    → bit_or x (b * 2 ^ (8 * m) % 2 ^ (8 * word)) ≡ x + b * 256 ^ m
or_byte word m x b hx hb hw =
    let fits : b * 2 ^ (8 * m) < 2 ^ (8 * word) =
      rw (pow_bytes m, pow_bytes word)
        (omega (
          arith,
          mul_lt (256 ^ m) b (one-le-pow m 256 (omega arith)) hb,
          one-le-pow m 256 (omega arith),
          pow-suc 256 m,
          pow-le-pow_right {n = 256} (omega arith) hw,
        )) in
    rw (mod-eq_of_lt fits, bit_or_disjoint (8 * m) x b (rw (pow_bytes m) hx), pow_bytes m)

-- The shifted bytes do not overlap, so or-ing them in adds them up.
or_bytes-from_le_bytes :
    (word offset i x : ℕ) (bs : Bytes)
    → x < 256 ^ (i + offset)
    → All IsByte bs
    → i + offset + length bs ≤ word
    → or_bytes word offset i x bs ≡ x + 256 ^ (i + offset) * from_le_bytes bs
unfolding or_bytes from_le_bytes
or_bytes-from_le_bytes word offset i x [] hx hb hw = omega arith
or_bytes-from_le_bytes word offset i x (b ∷ bs) hx (hb, hbs) hw =
    let m : ℕ = i + offset in
    let bits : 8 * i + 8 * offset ≡ 8 * m = omega arith in
    let next : i + 1 + offset ≡ suc m = omega arith in
    let power : 256 ^ (i + 1 + offset) ≡ 256 ^ m * 256 = rw next (pow-suc 256 m) in
    let fits : x + b * 256 ^ m < 256 ^ (i + 1 + offset) =
      rw power (omega (arith, mul_lt (256 ^ m) b (one-le-pow m 256 (omega arith)) hb)) in
    rw (bits, or_byte word m x b hx hb (omega arith))
      (omega (
        arith,
        or_bytes-from_le_bytes word offset (i + 1) (x + b * 256 ^ m) bs fits hbs (omega arith),
        ap (λ t. t * from_le_bytes bs) power,
      ))

All-take : (n : ℕ) (xs : Bytes) → All IsByte xs → All IsByte (take n xs)
All-take zero xs h = tt
All-take (suc n) [] h = tt
All-take (suc n) (x ∷ xs) (hx, hxs) = (hx, All-take n xs hxs)

pub or_bytes_whole :
    (word offset : ℕ) (xs : Bytes)
    → All IsByte xs
    → offset + length xs ≤ word
    → or_bytes word offset 0 0 xs ≡ 256 ^ offset * from_le_bytes xs
or_bytes_whole word offset xs hb hw =
    let e : 0 + offset ≡ offset = omega arith in
    let pos : 0 < 256 ^ (0 + offset) = one-le-pow (0 + offset) 256 (omega arith) in
    or_bytes-from_le_bytes word offset 0 0 xs pos hb (omega arith) ∙ rw (e, zero-add)

-- The value read by shifting and or-ing is the value of the bytes, on every buffer of bytes.
pub eat_sized_le-eq-eat_num_le :
    (word size : ℕ) (buf : Bytes)
    → size ≤ word
    → All IsByte buf
    → eat_sized_le word size 0 buf ≡ eat_num_le size buf
unfolding eat_sized_le eat_num_le eat
eat_sized_le-eq-eat_num_le word size buf hw hb = elim (Bool-cases (leb size (length buf))) [
  | inl e ↦ rw (
    e,
    or_bytes_whole word 0 (take size buf) (All-take size buf hb)
        (omega (arith, length-take size buf)),
    one-mul,
  )
  | inr e ↦ rw e
]

to_le_bytes_shifted :
    (offset n y : ℕ)
    → to_le_bytes (offset + n) (256 ^ offset * y) ≡ replicate offset 0 ++ to_le_bytes n y
unfolding to_le_bytes
to_le_bytes_shifted zero n y =
    let e : 0 + n ≡ n = omega arith in let e' : 256 ^ 0 * y ≡ y = omega arith in rw (e, e')
to_le_bytes_shifted (suc offset) n y =
    let e : suc offset + n ≡ suc (offset + n) = omega arith in
    let p : 256 ^ suc offset * y ≡ 256 * (256 ^ offset * y) =
      omega (arith, ap (λ t. t * y) (pow-suc 256 offset)) in
    let low : 256 * (256 ^ offset * y) % 256 ≡ 0 = omega arith in
    let high : 256 * (256 ^ offset * y) / 256 ≡ 256 ^ offset * y = omega arith in
    rw (e, p, low, high, to_le_bytes_shifted offset n y)

from_be_bytes_zeros : (n : ℕ) (xs : Bytes) → from_be_bytes (replicate n 0 ++ xs) ≡ from_be_bytes xs
unfolding from_be_bytes
from_be_bytes_zeros zero xs = refl
from_be_bytes_zeros (suc n) xs = from_be_bytes_zeros n xs

swap_bytes_word :
    (size offset : ℕ) (xs : Bytes)
    → length xs ≡ size
    → All IsByte xs
    → swap_bytes (offset + size) (or_bytes (offset + size) offset 0 0 xs) ≡ from_be_bytes xs
unfolding swap_bytes
swap_bytes_word size offset xs hl hb = rw (
  or_bytes_whole (offset + size) offset xs hb (omega arith),
  ← hl,
  to_le_bytes_shifted offset (length xs) (from_le_bytes xs),
  to_le_bytes-from_le_bytes xs hb,
  from_be_bytes_zeros offset xs,
)

-- The same for the big-endian readers: shifting by `offset` bytes and swapping the word.
eat_sized_be-eq-eat_num_be :
    (size offset : ℕ) (buf : Bytes)
    → All IsByte buf
    → eat_sized_be (offset + size) size offset buf ≡ eat_num_be size buf
unfolding eat_sized_be eat_num_be eat
eat_sized_be-eq-eat_num_be size offset buf hb = elim (Bool-cases (leb size (length buf))) [
  | inl e ↦ rw (
    e,
    swap_bytes_word size offset (take size buf) (omega (arith, length-take size buf, leb→le _ _ e))
        (All-take size buf hb),
  )
  | inr e ↦ rw e
]

-- The readers of odd sizes put a word together from shifted bytes: on every buffer of bytes, in
-- either order of the bytes, they read the number that the bytes are in that order.
pub eat_sized-eq-eat_num :
    (size offset : ℕ) (buf : Bytes)
    → All IsByte buf
    → (eat_sized_le (offset + size) size 0 buf ≡ eat_num_le size buf)
      × (eat_sized_be (offset + size) size offset buf ≡ eat_num_be size buf)
eat_sized-eq-eat_num size offset buf hb = (
  eat_sized_le-eq-eat_num_le (offset + size) size buf (omega arith) hb,
  eat_sized_be-eq-eat_num_be size offset buf hb,
)
