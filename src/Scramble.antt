-- ===== src/Scramble.antt =====
-- src/scramble.rs: what a client answers to the server's nonce instead of the password.
use rust_mysql_common.Base.{
  ℕ, zero, suc, ◌+◌, ◌*◌, ◌%◌, ◌^◌, bit_and, bit_xor, ◌≡◌, ◌<◌, ◌||◌, Option, none, some, [], ◌∷◌,
  ◌++◌, map, ◌==◌, if◌then◌else◌, length,
}
use rust_mysql_common.Base.Bytes.{Bytes, IsByte}
pub mod Answer
pub mod Rand

-- A hasher of the `sha1` or the `sha2` crate whose digests have `size` bytes: the digest is that of
-- the bytes of the updates, one behind the other.
pub record Hasher (size : ℕ) : Type 1 where
  pub State : Type 0
  pub new : State
  pub update : State → Bytes → State
  pub finalize : State → Bytes
  pub digest : Bytes → Bytes
  pub digest_lem : (bytes : Bytes) → finalize (update new bytes) ≡ digest bytes
  pub update_lem : (s : State) (a b : Bytes) → update (update s a) b ≡ update s (a ++ b)
  pub length-digest : (bytes : Bytes) → length (digest bytes) ≡ size

-- `*l ^= r` on the pairs of `zip`: `left` keeps its length.
unfoldable pub xor : Bytes → Bytes → Bytes
xor [] right = []
xor (l ∷ left) [] = l ∷ left
xor (l ∷ left) (r ∷ right) = bit_xor l r ∷ xor left right

module _ (sha1 : Hasher 20) where
  unfoldable pub sha1_1 : Bytes → Bytes
  sha1_1 bytes = sha1.digest bytes

  unfoldable pub sha1_2 : Bytes → Bytes → Bytes
  sha1_2 bytes1 bytes2 = sha1.finalize (sha1.update (sha1.update sha1.new bytes1) bytes2)

  unfoldable pub scramble_native : Bytes → Bytes → Option Bytes
  scramble_native nonce [] = none
  scramble_native nonce (c ∷ password) =
      some (xor (sha1_1 (c ∷ password)) (sha1_2 nonce (sha1_1 (sha1_1 (c ∷ password)))))

-- `to_u8_32` copies the 32 bytes of a digest.
module _ (sha256 : Hasher 32) where
  unfoldable pub sha256_1 : Bytes → Bytes
  sha256_1 bytes = sha256.finalize (sha256.update sha256.new bytes)

  unfoldable pub sha256_2 : Bytes → Bytes → Bytes
  sha256_2 bytes1 bytes2 = sha256.finalize (sha256.update (sha256.update sha256.new bytes1) bytes2)

  unfoldable pub scramble_sha256 : Bytes → Bytes → Option Bytes
  scramble_sha256 nonce [] = none
  scramble_sha256 nonce (c ∷ password) =
      some (xor (sha256_1 (c ∷ password)) (sha256_2 (sha256_1 (sha256_1 (c ∷ password))) nonce))

-- The words `nr`, `nr2` and `add` of `hash_password`.
pub record Words : Type 0 where
  pub nr : ℕ
  pub nr2 : ℕ
  pub add : ℕ

-- A word of 32 bits, where additions, products and shifts wrap around.
abbrev pub u32 : ℕ → ℕ
u32 x = x % 2 ^ 32

-- The body of the loop.
unfoldable pub hash_step : Words → ℕ → Words
hash_step w x =
    if (x == b' ') || (x == b'\t')
    then w
    else let nr : ℕ =
        bit_xor w.nr (u32 (u32 (u32 (bit_and w.nr 63 + w.add) * x) + u32 (w.nr * 2 ^ 8))) in
      record {
        nr = nr;
        nr2 = u32 (w.nr2 + bit_xor (u32 (w.nr2 * 2 ^ 8)) nr);
        add = u32 (w.add + x);
      }

unfoldable pub hash_bytes : Words → Bytes → Words
hash_bytes w [] = w
hash_bytes w (x ∷ password) = hash_bytes (hash_step w x) password

unfoldable pub hash_password : Bytes → ℕ × ℕ
hash_password password =
    let w : Words = hash_bytes (record { nr = 1345345333; nr2 = 0x12345671; add = 7 }) password in
    (bit_and w.nr 0x7fff_ffff, bit_and w.nr2 0x7fff_ffff)

-- `Rand323`, without the constants of `max_value`.
pub record Rand323 : Type 0 where
  pub seed1 : ℕ
  pub seed2 : ℕ

abbrev pub max_value : ℕ
max_value = 0x3fff_ffff

unfoldable pub init : ℕ → ℕ → Rand323
init seed1 seed2 = record { seed1 = seed1 % max_value; seed2 = seed2 % max_value }

-- The seeds that `my_rnd` leaves, with sums as in ℕ.
unfoldable pub my_rnd : Rand323 → Rand323
my_rnd r =
    let seed1 : ℕ = (r.seed1 * 3 + r.seed2) % max_value in
    record { seed1 = seed1; seed2 = (seed1 + r.seed2 + 33) % max_value }

-- What is made of the seeds: `scaled` stands for the floating-point expression
-- `(seed1 as f64 / max_value_dbl * 31_f64).floor() as u8`.
module _ (scaled : ℕ → ℕ) where
  -- The `n` rounds of the first loop.
  unfoldable pub draw : ℕ → Rand323 → Bytes × Rand323
  draw zero r = ([], r)
  draw (suc n) r =
      let next : Rand323 = my_rnd r in
      let rest : Bytes × Rand323 = draw n next in ((scaled next.seed1 + 64) % 256 ∷ rest.0, rest.1)

  unfoldable pub scramble_323 : Bytes → Bytes → Option Bytes
  scramble_323 nonce [] = none
  scramble_323 nonce (c ∷ password) =
      let hash_pass : ℕ × ℕ = hash_password (c ∷ password) in
      let hash_message : ℕ × ℕ = hash_password nonce in
      let rand_st : Rand323 =
        init (bit_xor (hash_pass.0) (hash_message.0)) (bit_xor (hash_pass.1) (hash_message.1)) in
      let drawn : Bytes × Rand323 = draw 8 rand_st in
      let extra : ℕ = scaled (my_rnd (drawn.1)).seed1 in some (map (λ x. bit_xor x extra) (drawn.0))
