-- ===== src/Scramble/Answer.antt =====
-- src/scramble.rs: what a server that keeps a digest of the password can check.
use rust_mysql_common.Base.{ℕ, suc, ◌≡◌, refl, ap, sym, ◌∙◌, some, [], ◌∷◌, ◌++◌, length}
use rust_mysql_common.Base.Bits.{bit_xor_twice}
use rust_mysql_common.Base.Bytes.{Bytes}
use rust_mysql_common.Scramble.{
  Hasher, xor, sha1_1, sha1_2, scramble_native, sha256_1, sha256_2, scramble_sha256,
}

length-xor : (left right : Bytes) → length (xor left right) ≡ length left
unfolding xor
length-xor [] right = refl
length-xor (l ∷ left) [] = refl
length-xor (l ∷ left) (r ∷ right) = ap suc (length-xor left right)

xor_twice : (left right : Bytes) → xor (xor left right) right ≡ left
unfolding xor
xor_twice [] right = refl
xor_twice (l ∷ left) [] = refl
xor_twice (l ∷ left) (r ∷ right) =
    ap (λ x. x ∷ xor (xor left right) right) (bit_xor_twice l r)
    ∙ ap (λ xs. l ∷ xs) (xor_twice left right)

module _ {size : ℕ} (H : Hasher size) where
  digest_of_two : (a b : Bytes) → H.finalize (H.update (H.update H.new a) b) ≡ H.digest (a ++ b)
  digest_of_two a b = ap H.finalize (H.update_lem H.new a b) ∙ H.digest_lem (a ++ b)

-- For a password that is not empty, the answer of `mysql_native_password` has 20 bytes, and who
-- keeps the digest of the password's digest finds in it, with the nonce, the password's digest:
-- the exclusive or with the digest of the nonce and what is kept.
pub scramble_native-answer :
    (sha1 : Hasher 20) (nonce : Bytes) (c : ℕ) (password : Bytes)
    → (token : Bytes) × (scramble_native sha1 nonce (c ∷ password) ≡ some token)
      × (length token ≡ 20)
      × (xor token (sha1.digest (nonce ++ sha1.digest (sha1.digest (c ∷ password))))
          ≡ sha1.digest (c ∷ password))
unfolding scramble_native sha1_1 sha1_2
scramble_native-answer sha1 nonce c password =
    let p : Bytes = c ∷ password in
    let mask : Bytes = sha1_2 sha1 nonce (sha1_1 sha1 (sha1_1 sha1 p)) in
    (
      xor (sha1.digest p) mask,
      refl,
      length-xor (sha1.digest p) mask ∙ sha1.length-digest p,
      ap (xor (xor (sha1.digest p) mask))
            (sym (digest_of_two sha1 nonce (sha1.digest (sha1.digest p))))
          ∙ xor_twice (sha1.digest p) mask,
    )

-- The same for `caching_sha2_password`, whose answer has 32 bytes and where the nonce is hashed
-- behind what is kept.
pub scramble_sha256-answer :
    (sha256 : Hasher 32) (nonce : Bytes) (c : ℕ) (password : Bytes)
    → (token : Bytes) × (scramble_sha256 sha256 nonce (c ∷ password) ≡ some token)
      × (length token ≡ 32)
      × (xor token (sha256.digest (sha256.digest (sha256.digest (c ∷ password)) ++ nonce))
          ≡ sha256.digest (c ∷ password))
unfolding scramble_sha256 sha256_1 sha256_2
scramble_sha256-answer sha256 nonce c password =
    let p : Bytes = c ∷ password in
    let one : sha256_1 sha256 p ≡ sha256.digest p = sha256.digest_lem p in
    let two : sha256_1 sha256 (sha256_1 sha256 p) ≡ sha256.digest (sha256.digest p) =
      ap (sha256_1 sha256) one ∙ sha256.digest_lem (sha256.digest p) in
    let mask : Bytes = sha256_2 sha256 (sha256_1 sha256 (sha256_1 sha256 p)) nonce in
    let masked : mask ≡ sha256.digest (sha256.digest (sha256.digest p) ++ nonce) =
      digest_of_two sha256 _ nonce ∙ ap (λ t. sha256.digest (t ++ nonce)) two in
    (
      xor (sha256_1 sha256 p) mask,
      refl,
      length-xor (sha256_1 sha256 p) mask ∙ ap length one ∙ sha256.length-digest p,
      ap (xor (xor (sha256_1 sha256 p) mask)) (sym masked)
          ∙ xor_twice (sha256_1 sha256 p) mask
          ∙ one,
    )
