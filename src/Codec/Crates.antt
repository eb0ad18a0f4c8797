-- ===== src/Codec/Crates.antt =====
-- What src/proto/codec/mod.rs uses of the crates `bytes`, `byteorder` and `flate2`, with the
-- behaviour that they document.
use rust_mysql_common.Base.{Bool, some, Option, ℕ, ◌≤◌, ◌<◌, ◌≡◌, refl, ◌++◌, length, take, drop}
use rust_mysql_common.Base.Bytes.{Bytes, from_le_bytes}
use rust_mysql_common.Io.BufMut.{BufMut, vec_buf_mut}

-- `BytesMut`, a growing buffer that is read from its front.
pub record BytesMut : Type 0 where
  pub buf_mut : BufMut
  pub open buf_mut use *
  pub advance : Bytes → ℕ → Bytes
  pub extend_from_slice : Bytes → Bytes → Bytes
  pub read_u24 : Bytes → ℕ
  pub advance_lem : (buf : Bytes) (n : ℕ) → n ≤ length buf → advance buf n ≡ drop n buf
  pub extend_from_slice_lem : (buf s : Bytes) → extend_from_slice buf s ≡ buf ++ s
  pub read_u24_lem : (buf : Bytes) → 3 ≤ length buf → read_u24 buf ≡ from_le_bytes (take 3 buf)

-- The `Buf` trait, for a packet of any type: `content` is what is left of it, of which `chunk`
-- shows a front part.
pub record Buf (T : Type 0) : Type 0 where
  pub remaining : T → ℕ
  pub chunk : T → Bytes
  pub advance : T → ℕ → T
  pub content : T → Bytes
  pub remaining_lem : (t : T) → remaining t ≡ length (content t)
  pub length-chunk : (t : T) → length (chunk t) ≤ length (content t)
  pub chunk_lem : (t : T) → chunk t ≡ take (length (chunk t)) (content t)
  pub chunk_pos : (t : T) → 0 < length (content t) → 0 < length (chunk t)
  pub advance_lem :
      (t : T) (n : ℕ) → n ≤ length (content t) → content (advance t n) ≡ drop n (content t)

abbrev pub vec_bytes_mut : BytesMut
vec_bytes_mut = record {
  buf_mut = vec_buf_mut;
  advance = λ buf n. drop n buf;
  extend_from_slice = λ buf s. buf ++ s;
  read_u24 = λ buf. from_le_bytes (take 3 buf);
  advance_lem = λ buf n h. refl;
  extend_from_slice_lem = λ buf s. refl;
  read_u24_lem = λ buf h. refl;
}

-- `flate2`: a `ZlibEncoder` read to its end, and a `ZlibDecoder` that fills a buffer of the given
-- size; `none` is an I/O error. What was compressed decompresses to what it was.
pub record Zlib (Level : Type 0) : Type 0 where
  pub is_none : Level → Bool
  pub encode : Level → Bytes → Option Bytes
  pub decode : Bytes → ℕ → Option Bytes
  pub decode-encode :
      (level : Level) (plain packed : Bytes)
      → encode level plain ≡ some packed
      → decode packed (length plain) ≡ some plain
