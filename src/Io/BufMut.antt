-- ===== src/Io/BufMut.antt =====
-- What src/io.rs uses of the `bytes` crate's `BufMut`: the writers, as operations on what has been
-- written so far, with the behaviour that the crate documents.
use rust_mysql_common.Base.{ℕ, ◌^◌, ◌≤◌, ◌<◌, ◌≡◌, refl, ◌++◌, ◌∷◌, []}
use rust_mysql_common.Base.Bytes.{Bytes, IsByte, to_le_bytes}
use rust_mysql_common.Base.Int.{ℤ, wrap}

pub record BufMut : Type 0 where
  pub put : Bytes → Bytes → Bytes
  pub put_slice : Bytes → Bytes → Bytes
  pub put_u8 : Bytes → ℕ → Bytes
  pub put_i8 : Bytes → ℤ → Bytes
  pub put_i16_le : Bytes → ℤ → Bytes
  pub put_i32_le : Bytes → ℤ → Bytes
  pub put_i64_le : Bytes → ℤ → Bytes
  pub put_u16_le : Bytes → ℕ → Bytes
  pub put_u32_le : Bytes → ℕ → Bytes
  pub put_u64_le : Bytes → ℕ → Bytes
  pub put_uint_le : Bytes → ℕ → ℕ → Bytes
  pub put_int_le : Bytes → ℤ → ℕ → Bytes
  pub put_lem : (buf s : Bytes) → put buf s ≡ buf ++ s
  pub put_slice_lem : (buf s : Bytes) → put_slice buf s ≡ buf ++ s
  pub put_u8_lem : (buf : Bytes) (x : ℕ) → IsByte x → put_u8 buf x ≡ buf ++ (x ∷ [])
  pub put_i8_lem : (buf : Bytes) (x : ℤ) → put_i8 buf x ≡ buf ++ to_le_bytes 1 (wrap 8 x)
  pub put_i16_le_lem : (buf : Bytes) (x : ℤ) → put_i16_le buf x ≡ buf ++ to_le_bytes 2 (wrap 16 x)
  pub put_i32_le_lem : (buf : Bytes) (x : ℤ) → put_i32_le buf x ≡ buf ++ to_le_bytes 4 (wrap 32 x)
  pub put_i64_le_lem : (buf : Bytes) (x : ℤ) → put_i64_le buf x ≡ buf ++ to_le_bytes 8 (wrap 64 x)
  pub put_u16_le_lem :
      (buf : Bytes) (x : ℕ) → x < 2 ^ 16 → put_u16_le buf x ≡ buf ++ to_le_bytes 2 x
  pub put_u32_le_lem :
      (buf : Bytes) (x : ℕ) → x < 2 ^ 32 → put_u32_le buf x ≡ buf ++ to_le_bytes 4 x
  pub put_u64_le_lem :
      (buf : Bytes) (x : ℕ) → x < 2 ^ 64 → put_u64_le buf x ≡ buf ++ to_le_bytes 8 x
  pub put_uint_le_lem :
      (buf : Bytes) (x n : ℕ) → n ≤ 8 → x < 256 ^ n → put_uint_le buf x n ≡ buf ++ to_le_bytes n x
  pub put_int_le_lem :
      (buf : Bytes) (x : ℤ) (n : ℕ) → n ≤ 8 → put_int_le buf x n ≡ buf ++ to_le_bytes n (wrap 64 x)

-- A buffer that is a vector of bytes.
abbrev pub vec_buf_mut : BufMut
vec_buf_mut = record {
  put = λ buf s. buf ++ s;
  put_slice = λ buf s. buf ++ s;
  put_u8 = λ buf x. buf ++ (x ∷ []);
  put_i8 = λ buf x. buf ++ to_le_bytes 1 (wrap 8 x);
  put_i16_le = λ buf x. buf ++ to_le_bytes 2 (wrap 16 x);
  put_i32_le = λ buf x. buf ++ to_le_bytes 4 (wrap 32 x);
  put_i64_le = λ buf x. buf ++ to_le_bytes 8 (wrap 64 x);
  put_u16_le = λ buf x. buf ++ to_le_bytes 2 x;
  put_u32_le = λ buf x. buf ++ to_le_bytes 4 x;
  put_u64_le = λ buf x. buf ++ to_le_bytes 8 x;
  put_uint_le = λ buf x n. buf ++ to_le_bytes n x;
  put_int_le = λ buf x n. buf ++ to_le_bytes n (wrap 64 x);
  put_lem = λ buf s. refl;
  put_slice_lem = λ buf s. refl;
  put_u8_lem = λ buf x h. refl;
  put_i8_lem = λ buf x. refl;
  put_i16_le_lem = λ buf x. refl;
  put_i32_le_lem = λ buf x. refl;
  put_i64_le_lem = λ buf x. refl;
  put_u16_le_lem = λ buf x h. refl;
  put_u32_le_lem = λ buf x h. refl;
  put_u64_le_lem = λ buf x h. refl;
  put_uint_le_lem = λ buf x n h k. refl;
  put_int_le_lem = λ buf x n h. refl;
}
