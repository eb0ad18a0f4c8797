-- ===== src/Codec/Slices.antt =====
-- Reads of a part of a buffer in src/proto/codec/mod.rs: `src[i]`, `src[..n]`, `src.advance(n)` and
-- `read_u24`. `none` is the panic where the buffer is too short.
use rust_mysql_common.Base.{
  ℕ, zero, suc, ◌≤◌, ◌<◌, ◌≡◌, refl, Option, none, some, leb, if◌then◌else◌, length, take, drop, [],
  ◌∷◌, arith, get_elem?, le→leb,
}
use rust_mysql_common.Base.Bytes.{Bytes}
use rust_mysql_common.Codec.Crates.{BytesMut}

-- `&src[..n]`
unfoldable pub slice_to : Bytes → ℕ → Option Bytes
slice_to src n = if leb n (length src) then some (take n src) else none

-- `&src[n..]`
unfoldable pub slice_from : Bytes → ℕ → Option Bytes
slice_from src n = if leb n (length src) then some (drop n src) else none

module _ (M : BytesMut) where
  -- `src.advance(n)`
  unfoldable pub advanced : Bytes → ℕ → Option Bytes
  advanced src n = if leb n (length src) then some (M.advance src n) else none

  -- `LittleEndian::read_u24(src)`
  unfoldable pub read_u24_of : Bytes → Option ℕ
  read_u24_of src = if leb 3 (length src) then some (M.read_u24 src) else none

  pub advanced_in : (src : Bytes) (n : ℕ) → n ≤ length src → advanced src n ≡ some (M.advance src n)
  unfolding advanced
  advanced_in src n h = rw (le→leb n (length src) h)

  pub read_u24_in : (src : Bytes) → 3 ≤ length src → read_u24_of src ≡ some (M.read_u24 src)
  unfolding read_u24_of
  read_u24_in src h = rw (le→leb 3 (length src) h)

pub slice_to_in : (src : Bytes) (n : ℕ) → n ≤ length src → slice_to src n ≡ some (take n src)
unfolding slice_to
slice_to_in src n h = rw (le→leb n (length src) h)

-- The byte at a place of a buffer, for statements on buffers that have it.
abbrev pub byte_at : Bytes → ℕ → ℕ
byte_at [] i = 0
byte_at (b ∷ bs) zero = b
byte_at (b ∷ bs) (suc i) = byte_at bs i

pub get_elem?_in : (src : Bytes) (i : ℕ) → i < length src → get_elem? src i ≡ some (byte_at src i)
get_elem?_in [] i h = absurd (omega arith)
get_elem?_in (b ∷ bs) zero h = refl
get_elem?_in (b ∷ bs) (suc i) h = get_elem?_in bs i (omega arith)
