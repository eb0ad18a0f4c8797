-- ===== src/Packets/NullBitmap/Laws.antt =====
-- src/packets/mod.rs, `NullBitmap`: what is set is read.
use native.Mathlib.Nat.{one-le-pow}
use rust_mysql_common.Base.{
  ℕ, zero, suc, ◌+◌, ◌-◌, ◌/◌, ◌%◌, ◌^◌, ◌<◌, ◌≡◌, ◌≢◌, refl, ap, sym, ◌∙◌, bit_and, bit_or, Bool,
  true, false, [], ◌∷◌, ltb, lt→ltb, if◌then◌else◌, length, get_elem?, arith, inl, inr, ◌⊎◌,
}
use rust_mysql_common.Base.Bytes.{Bytes}
use rust_mysql_common.Base.Bits.{bit_and-bit_or, bit_and-minus}
use rust_mysql_common.Base.Masks.{set_apart, clear_apart, single_apart}
use rust_mysql_common.Base.Result
use rust_mysql_common.Base.Result.{ok}
use rust_mysql_common.Packets.NullBitmap.{
  Side, bit_offset, modify, byte_at, bitmap_len, byte_and_bit, is_null, set,
}

length-modify : (f : ℕ → ℕ) (i : ℕ) (xs : Bytes) → length (modify f i xs) ≡ length xs
unfolding modify
length-modify f i [] = refl
length-modify f zero (x ∷ xs) = refl
length-modify f (suc i) (x ∷ xs) = ap suc (length-modify f i xs)

at_modified :
    (f : ℕ → ℕ) (i : ℕ) (xs : Bytes)
    → i < length xs
    → byte_at (get_elem? (modify f i xs) i) ≡ f (byte_at (get_elem? xs i))
unfolding modify
at_modified f i [] h = absurd (omega arith)
at_modified f zero (x ∷ xs) h = refl
at_modified f (suc i) (x ∷ xs) h = at_modified f i xs (omega arith)

beside_modified :
    (f : ℕ → ℕ) (i j : ℕ) (xs : Bytes) → i ≢ j → get_elem? (modify f i xs) j ≡ get_elem? xs j
unfolding modify
beside_modified f i j [] h = refl
beside_modified f zero zero (x ∷ xs) h = absurd (h refl)
beside_modified f zero (suc j) (x ∷ xs) h = refl
beside_modified f (suc i) zero (x ∷ xs) h = refl
beside_modified f (suc i) (suc j) (x ∷ xs) h = beside_modified f i j xs (λ e. h (ap suc e))

eq_or_ne : (a b : ℕ) → (a ≡ b) ⊎ (a ≢ b)
eq_or_ne a b = ground arith

module _ (T : Side) where
  -- The place of a column.
  abbrev byte_of : ℕ → ℕ
  byte_of i = (i + bit_offset T) / 8

  abbrev bit_of : ℕ → ℕ
  bit_of i = 2 ^ ((i + bit_offset T) % 8)

  in_bounds : (num_columns i : ℕ) → i < num_columns → byte_of i < bitmap_len T num_columns
  unfolding bitmap_len
  in_bounds num_columns i h = omega arith

  byte_and_bit-ok :
      (bitmap : Bytes) (i : ℕ)
      → byte_of i < length bitmap
      → byte_and_bit T bitmap i ≡ ok (byte_of i, bit_of i)
  unfolding byte_and_bit
  byte_and_bit-ok bitmap i h = rw (lt→ltb (byte_of i) (length bitmap) h)

  is_null-eq :
      (bitmap : Bytes) (i : ℕ)
      → byte_of i < length bitmap
      → is_null T bitmap i
        ≡ ok (ltb 0 (bit_and (byte_at (get_elem? bitmap (byte_of i))) (bit_of i)))
  unfolding is_null
  is_null-eq bitmap i h = Result.>>=-ok (byte_and_bit T bitmap i) _ (byte_and_bit-ok bitmap i h)

  set-eq :
      (bitmap : Bytes) (i : ℕ) (null : Bool)
      → byte_of i < length bitmap
      → set T bitmap i null
        ≡ ok (
            if null
            then modify (λ x. bit_or x (bit_of i)) (byte_of i) bitmap
            else modify (λ x. x - bit_and x (bit_of i)) (byte_of i) bitmap)
  unfolding set
  set-eq bitmap i null h = Result.>>=-ok (byte_and_bit T bitmap i) _ (byte_and_bit-ok bitmap i h)

  -- The byte that `set` writes.
  abbrev changed : ℕ → Bool → ℕ → ℕ
  changed i true x = bit_or x (bit_of i)
  changed i false x = x - bit_and x (bit_of i)

  bit-changed : (i x : ℕ) (null : Bool) → ltb 0 (bit_and (changed i null x) (bit_of i)) ≡ null
  bit-changed i x true =
      ap (λ t. ltb 0 t) (bit_and-bit_or x (bit_of i))
      ∙ lt→ltb 0 (bit_of i) (one-le-pow ((i + bit_offset T) % 8) 2 (omega arith))
  bit-changed i x false = ap (λ t. ltb 0 t) (bit_and-minus x (bit_of i))

  bit-unchanged :
      (i j x : ℕ) (null : Bool)
      → (i + bit_offset T) % 8 ≢ (j + bit_offset T) % 8
      → bit_and (changed i null x) (bit_of j) ≡ bit_and x (bit_of j)
  bit-unchanged i j x true h = set_apart x (bit_of i) (bit_of j) (single_apart _ _ h)
  bit-unchanged i j x false h = clear_apart x (bit_of i) (bit_of j) (single_apart _ _ h)

  set-changed :
      (bitmap : Bytes) (i : ℕ) (null : Bool)
      → byte_of i < length bitmap
      → set T bitmap i null ≡ ok (modify (changed i null) (byte_of i) bitmap)
  set-changed bitmap i true h = set-eq bitmap i true h
  set-changed bitmap i false h = set-eq bitmap i false h

  is_null-changed :
      (bitmap : Bytes) (i : ℕ) (null : Bool)
      → byte_of i < length bitmap
      → is_null T (modify (changed i null) (byte_of i) bitmap) i ≡ ok null
  is_null-changed bitmap i null h =
      is_null-eq (modify (changed i null) (byte_of i) bitmap) i
        (omega (arith, length-modify (changed i null) (byte_of i) bitmap))
      ∙ ap (λ x. ok (ltb 0 (bit_and x (bit_of i))))
          (at_modified (changed i null) (byte_of i) bitmap h)
      ∙ ap ok (bit-changed i (byte_at (get_elem? bitmap (byte_of i))) null)

  -- Two columns in the same byte have different bits.
  same_byte :
      (i j : ℕ) → i ≢ j → byte_of i ≡ byte_of j → (i + bit_offset T) % 8 ≢ (j + bit_offset T) % 8
  same_byte i j h e b = h (omega arith)

  beside_changed :
      (bitmap : Bytes) (i j : ℕ) (null : Bool)
      → byte_of i < length bitmap
      → i ≢ j
      → bit_and
          (byte_at (get_elem? (modify (changed i null) (byte_of i) bitmap) (byte_of j)))
          (bit_of j)
        ≡ bit_and (byte_at (get_elem? bitmap (byte_of j))) (bit_of j)
  beside_changed bitmap i j null h ne = elim (eq_or_ne (byte_of i) (byte_of j)) [
    | inl e ↦
        ap
          (λ k.
            bit_and (byte_at (get_elem? (modify (changed i null) (byte_of i) bitmap) k)) (bit_of j))
          (sym e)
        ∙ ap (λ x. bit_and x (bit_of j)) (at_modified (changed i null) (byte_of i) bitmap h)
        ∙ bit-unchanged i j _ null (same_byte i j ne e)
        ∙ ap (λ k. bit_and (byte_at (get_elem? bitmap k)) (bit_of j)) e
    | inr n ↦
        ap (λ o. bit_and (byte_at o) (bit_of j))
          (beside_modified (changed i null) (byte_of i) (byte_of j) bitmap n)
  ]

  is_null-beside :
      (bitmap : Bytes) (i j : ℕ) (null : Bool)
      → byte_of i < length bitmap
      → byte_of j < length bitmap
      → i ≢ j
      → is_null T (modify (changed i null) (byte_of i) bitmap) j ≡ is_null T bitmap j
  is_null-beside bitmap i j null hi hj ne =
      is_null-eq (modify (changed i null) (byte_of i) bitmap) j
        (omega (arith, length-modify (changed i null) (byte_of i) bitmap))
      ∙ ap (λ x. ok (ltb 0 x)) (beside_changed bitmap i j null hi ne)
      ∙ sym (is_null-eq bitmap j hj)

  -- In a bitmap for some number of columns, setting the flag of a column gives a bitmap for as
  -- many columns in which that column has the flag and every other column the flag that it had.
  pub is_null-set :
      (num_columns i j : ℕ) (bitmap : Bytes) (null : Bool)
      → length bitmap ≡ bitmap_len T num_columns
      → i < num_columns
      → j < num_columns
      → i ≢ j
      → (bitmap' : Bytes) × (set T bitmap i null ≡ ok bitmap')
        × (length bitmap' ≡ bitmap_len T num_columns)
        × (is_null T bitmap' i ≡ ok null)
        × (is_null T bitmap' j ≡ is_null T bitmap j)
  is_null-set num_columns i j bitmap null size hi hj ne =
      let bi : byte_of i < length bitmap = omega (arith, in_bounds num_columns i hi) in
      let bj : byte_of j < length bitmap = omega (arith, in_bounds num_columns j hj) in
      (
        modify (changed i null) (byte_of i) bitmap,
        set-changed bitmap i null bi,
        length-modify (changed i null) (byte_of i) bitmap ∙ size,
        is_null-changed bitmap i null bi,
        is_null-beside bitmap i j null bi bj ne,
      )
