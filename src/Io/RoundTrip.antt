-- ===== src/Io/RoundTrip.antt =====
-- src/io.rs and src/misc/mod.rs: `ParseBuf` on what `BufMutExt` writes.
use native.Mathlib.Nat.{one-mul, add-zero, mod-eq_of_lt}
use rust_mysql_common.Base.{
  ℕ, suc, ◌-◌, ◌^◌, ◌≤◌, ◌<◌, ◌≡◌, refl, ◌∙◌, sym, some, [], ◌∷◌, ◌++◌, arith, length, take, ltb,
  le→leb, ltb→lt, length-append, Bool-cases, inl, inr, append_assoc, if◌then◌else◌, min,
  length-take, take-min,
}
use rust_mysql_common.Base.Bytes.{
  Bytes, IsByte, to_le_bytes, from_le_bytes, length-to_le_bytes, to_le_bytes-IsByte,
  from_le_bytes-to_le_bytes,
}
use rust_mysql_common.Base.Result.{ok}
use rust_mysql_common.Io.BufMut.{BufMut}
use rust_mysql_common.Io.Write.{put_lenenc_int, put_lenenc_str, put_u8_str, put_u32_str}
use rust_mysql_common.Io.ParseBuf.{eat, checked, checked_eat, eat_num_le, eat_sized_le}
use rust_mysql_common.Io.Lenenc.{
  checked_eat_lenenc_int, checked_lenenc_arms, checked_eat_lenenc_str, checked_eat_u8_str,
  checked_eat_u32_str, lenenc_int_len, lenenc_str_len,
}
use rust_mysql_common.Io.Numbers.{eat-append, eat_num_le-to_le_bytes, or_bytes_whole}

-- The encoding, described by itself.
abbrev pub lenenc : ℕ → Bytes
lenenc n =
    if ltb n 251
    then n ∷ []
    else if ltb n 65_536
    then 0xfc ∷ to_le_bytes 2 n
    else if ltb n 16_777_216
    then 0xfd ∷ to_le_bytes 3 n
    else 0xfe ∷ to_le_bytes 8 n

pub checked-append :
    (n : ℕ) (xs rest : Bytes) → n ≡ length xs → checked_eat n (xs ++ rest) ≡ ok (some xs, rest)
unfolding checked_eat checked
checked-append n xs rest h =
    rw (
      le→leb n (length (xs ++ rest)) (omega (arith, length-append xs rest)),
      eat-append n xs rest h,
    )

pub checked_num :
    (n x : ℕ) (rest : Bytes)
    → x < 256 ^ n
    → checked n (eat_num_le n) (to_le_bytes n x ++ rest) ≡ ok (some x, rest)
unfolding checked
checked_num n x rest h = rw (
  le→leb n (length (to_le_bytes n x ++ rest))
      (omega (arith, length-append (to_le_bytes n x) rest, length-to_le_bytes n x)),
  eat_num_le-to_le_bytes n x rest h,
)

eat_sized_le-to_le_bytes :
    (x : ℕ) (rest : Bytes)
    → x < 256 ^ 3
    → eat_sized_le 4 3 0 (to_le_bytes 3 x ++ rest) ≡ ok (x, rest)
unfolding eat_sized_le
eat_sized_le-to_le_bytes x rest h = rw (
  eat-append 3 (to_le_bytes 3 x) rest (sym (length-to_le_bytes 3 x)),
  or_bytes_whole 4 0 (to_le_bytes 3 x) (to_le_bytes-IsByte 3 x)
      (omega (arith, length-to_le_bytes 3 x)),
  from_le_bytes-to_le_bytes 3 x h,
  one-mul,
)

pub checked_sized :
    (x : ℕ) (rest : Bytes)
    → x < 256 ^ 3
    → checked 3 (eat_sized_le 4 3 0) (to_le_bytes 3 x ++ rest) ≡ ok (some x, rest)
unfolding checked
checked_sized x rest h = rw (
  le→leb 3 (length (to_le_bytes 3 x ++ rest))
      (omega (arith, length-append (to_le_bytes 3 x) rest, length-to_le_bytes 3 x)),
  eat_sized_le-to_le_bytes x rest h,
)

-- The first byte alone.
checked_byte :
    (x : ℕ) (rest : Bytes) → IsByte x → checked 1 (eat_num_le 1) (x ∷ rest) ≡ ok (some x, rest)
unfolding checked eat_num_le eat from_le_bytes
checked_byte x rest h = rw (le→leb 1 (suc (length rest)) (omega arith), add-zero)

pub checked_eat_lenenc_int-lenenc :
    (n : ℕ) (rest : Bytes)
    → n < 2 ^ 64
    → checked_eat_lenenc_int (lenenc n ++ rest) ≡ ok (some n, rest)
unfolding checked_eat_lenenc_int checked_lenenc_arms
checked_eat_lenenc_int-lenenc n rest h = elim (Bool-cases (ltb n 251)) [
  | inl e ↦ rw (
    e,
    checked_byte n rest (omega (arith, ltb→lt n 251 e)),
    le→leb n 250 (omega (arith, ltb→lt n 251 e)),
  )
  | inr e ↦ elim (Bool-cases (ltb n 65_536)) [
    | inl e' ↦
        rw (e, e', checked_byte 0xfc _ (omega arith)) (checked_num 2 n rest (ltb→lt n 65_536 e'))
    | inr e' ↦ elim (Bool-cases (ltb n 16_777_216)) [
      | inl e'' ↦
          rw (e, e', e'', checked_byte 0xfd _ (omega arith))
            (checked_sized n rest (ltb→lt n 16_777_216 e''))
      | inr e'' ↦ rw (e, e', e'', checked_byte 0xfe _ (omega arith)) (checked_num 8 n rest h)
    ]
  ]
]

-- A tag byte and a number of `k` bytes.
tagged :
    (B : BufMut) (buf : Bytes) (t n k : ℕ)
    → IsByte t
    → k ≤ 8
    → n < 256 ^ k
    → B.put_uint_le (B.put_u8 buf t) n k ≡ buf ++ t ∷ to_le_bytes k n
tagged B buf t n k ht hk h =
    B.put_uint_le_lem (B.put_u8 buf t) n k hk h ∙ rw (B.put_u8_lem buf t ht, append_assoc)

pub put_lenenc_int-lenenc :
    (B : BufMut) (buf : Bytes) (n : ℕ) → n < 2 ^ 64 → put_lenenc_int B buf n ≡ buf ++ lenenc n
unfolding put_lenenc_int
put_lenenc_int-lenenc B buf n h = elim (Bool-cases (ltb n 251)) [
  | inl e ↦
      let small : n < 251 = ltb→lt n 251 e in
      rw (e, mod-eq_of_lt {n = n} {m = 256} (omega arith)) (B.put_u8_lem buf n (omega arith))
  | inr e ↦ elim (Bool-cases (ltb n 65_536)) [
    | inl e' ↦ rw (e, e') (tagged B buf 0xfc n 2 (omega arith) (omega arith) (ltb→lt n 65_536 e'))
    | inr e' ↦ elim (Bool-cases (ltb n 16_777_216)) [
      | inl e'' ↦
          rw (e, e', e'') (tagged B buf 0xfd n 3 (omega arith) (omega arith) (ltb→lt _ _ e''))
      | inr e'' ↦ rw (e, e', e'') (tagged B buf 0xfe n 8 (omega arith) (omega arith) h)
    ]
  ]
]

length-lenenc : (n : ℕ) → length (lenenc n) ≡ lenenc_int_len n
unfolding lenenc_int_len
length-lenenc n =
    ground (arith, length-to_le_bytes 2 n, length-to_le_bytes 3 n, length-to_le_bytes 8 n)

-- A number below 2 ^ 64 is appended as an encoding of `lenenc_int_len` bytes, from which
-- `checked_eat_lenenc_int` reads the number back and leaves what follows.
pub checked_eat_lenenc_int-put_lenenc_int :
    (B : BufMut) (buf rest : Bytes) (n : ℕ)
    → n < 2 ^ 64
    → (enc : Bytes) × (put_lenenc_int B buf n ≡ buf ++ enc)
      × (length enc ≡ lenenc_int_len n)
      × (checked_eat_lenenc_int (enc ++ rest) ≡ ok (some n, rest))
checked_eat_lenenc_int-put_lenenc_int B buf rest n h = (
  lenenc n,
  put_lenenc_int-lenenc B buf n h,
  length-lenenc n,
  checked_eat_lenenc_int-lenenc n rest h,
)

-- The same for a byte string: `lenenc_str_len` bytes, and `checked_eat_lenenc_str` gives the string.
pub checked_eat_lenenc_str-put_lenenc_str :
    (B : BufMut) (buf rest s : Bytes)
    → length s < 2 ^ 64
    → (enc : Bytes) × (put_lenenc_str B buf s ≡ buf ++ enc)
      × (length enc ≡ lenenc_str_len s)
      × (checked_eat_lenenc_str (enc ++ rest) ≡ ok (some s, rest))
unfolding put_lenenc_str lenenc_str_len checked_eat_lenenc_str
checked_eat_lenenc_str-put_lenenc_str B buf rest s h = (
  lenenc (length s) ++ s,
  rw (put_lenenc_str, put_lenenc_int-lenenc B buf (length s) h, B.put_slice_lem, append_assoc),
  omega (arith, length-append (lenenc (length s)) s, length-lenenc (length s)),
  rw (append_assoc, checked_eat_lenenc_int-lenenc (length s) (s ++ rest) h)
      (checked-append (length s) s rest refl),
)

-- `put_u8_str` keeps the first 255 bytes of a string, and `checked_eat_u8_str` reads those back.
checked_eat_u8_str-put_u8_str :
    (B : BufMut) (buf rest s : Bytes)
    → (enc : Bytes) × (put_u8_str B buf s ≡ buf ++ enc)
      × (checked_eat_u8_str (enc ++ rest) ≡ ok (some (take 255 s), rest))
unfolding put_u8_str checked_eat_u8_str
checked_eat_u8_str-put_u8_str B buf rest s =
    let len : ℕ = min (length s) 255 in
    let small : len < 256 = omega arith in
    (
      len ∷ take len s,
      rw (
        put_u8_str,
        mod-eq_of_lt small,
        B.put_u8_lem buf len small,
        B.put_slice_lem,
        append_assoc,
      ),
      rw (
        checked_byte len (take len s ++ rest) small,
        checked-append len (take len s) rest (omega (arith, length-take len s)),
        take-min 255 s,
      ),
    )

-- `put_u32_str` keeps the first 2 ^ 32 - 1 bytes of a string, and `checked_eat_u32_str` reads
-- those back.
checked_eat_u32_str-put_u32_str :
    (B : BufMut) (buf rest s : Bytes)
    → (enc : Bytes) × (put_u32_str B buf s ≡ buf ++ enc)
      × (checked_eat_u32_str (enc ++ rest) ≡ ok (some (take (2 ^ 32 - 1) s), rest))
unfolding put_u32_str checked_eat_u32_str
checked_eat_u32_str-put_u32_str B buf rest s =
    let len : ℕ = min (length s) (2 ^ 32 - 1) in
    let small : len < 2 ^ 32 = omega arith in
    (
      to_le_bytes 4 len ++ take len s,
      rw (
        put_u32_str,
        mod-eq_of_lt small,
        B.put_u32_le_lem buf len small,
        B.put_slice_lem,
        append_assoc,
      ),
      rw (
        append_assoc,
        checked_num 4 len (take len s ++ rest) small,
        checked-append len (take len s) rest (omega (arith, length-take len s)),
        take-min (2 ^ 32 - 1) s,
      ),
    )

-- A string with its length in one byte, or in four, is cut to what the length can tell, and that much
-- of it is read back.
pub sized_strings-read :
    (B : BufMut) (buf rest s : Bytes)
    → ((enc : Bytes) × (put_u8_str B buf s ≡ buf ++ enc)
        × (checked_eat_u8_str (enc ++ rest) ≡ ok (some (take 255 s), rest)))
      × ((enc : Bytes) × (put_u32_str B buf s ≡ buf ++ enc)
          × (checked_eat_u32_str (enc ++ rest) ≡ ok (some (take (2 ^ 32 - 1) s), rest)))
sized_strings-read B buf rest s =
    (checked_eat_u8_str-put_u8_str B buf rest s, checked_eat_u32_str-put_u32_str B buf rest s)
