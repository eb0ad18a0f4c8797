-- ===== src/Io/ParseBuf.antt =====
-- src/io.rs, `ParseBuf`: a parser takes the bytes that the buffer holds and returns a value with
-- the bytes that are left, or panics where the source's slice operations do. What a failed parser
-- leaves in the buffer is not modelled.
use rust_mysql_common.Base.{
  ℕ, ◌+◌, ◌*◌, ◌%◌, ◌^◌, bit_or, Bool, true, false, Option, none, some, [], ◌∷◌, leb, ◌==◌,
  if◌then◌else◌, length, take, drop, min,
}
use rust_mysql_common.Base.Bytes.{Bytes, to_le_bytes, from_le_bytes, from_be_bytes}
use rust_mysql_common.Base.Result
use rust_mysql_common.Base.Result.{Result, ok, err, panic}

-- `io::ErrorKind`, as far as the program tells its values apart.
pub data IoError : Type 0 where
  unexpected_eof invalid_data interrupted other : IoError

abbrev pub Parser {ℓ} : Type ℓ → Type ℓ
Parser A = Bytes → Result IoError (A × Bytes)

abbrev pub pure {ℓ} : {A : Type ℓ} → A → Parser A
pure a buf = ok (a, buf)

infixl 5 ◌>>=◌
abbrev pub ◌>>=◌ {ℓ κ} : {A : Type ℓ} {B : Type κ} → Parser A → (A → Parser B) → Parser B
◌>>=◌ p f buf = Result.◌>>=◌ (p buf) (λ (a, rest). f a rest)

abbrev pub map_parser {ℓ κ} : {A : Type ℓ} {B : Type κ} → (A → B) → Parser A → Parser B
map_parser f p = p >>= λ a. pure (f a)

-- `?` on the `Option` that a checked method returns: the buffer keeps what was consumed.
abbrev pub and_then {ℓ κ} :
    {A : Type ℓ} {B : Type κ} → Parser (Option A) → (A → Parser (Option B)) → Parser (Option B)
and_then p f = p >>= elim [ none ↦ pure none | some a ↦ f a ]

-- `self.len()` and `self.is_empty()`.
unfoldable pub len : Bytes → ℕ
len buf = length buf

unfoldable pub is_empty : Bytes → Bool
is_empty buf = len buf == 0

unfoldable pub skip : ℕ → Parser (Unit {0})
skip cnt buf = if leb cnt (length buf) then ok (tt, drop cnt buf) else panic

unfoldable pub checked_skip : ℕ → Parser Bool
checked_skip cnt buf =
    if leb cnt (length buf) then map_parser (λ _. true) (skip cnt) buf else ok (false, buf)

unfoldable pub eat : ℕ → Parser Bytes
eat n buf = if leb n (length buf) then ok (take n buf, drop n buf) else panic

unfoldable pub eat_buf : ℕ → Parser Bytes
eat_buf n = eat n

-- A method that runs its unchecked twin if `size` bytes are left.
unfoldable pub checked {ℓ} : {A : Type ℓ} → ℕ → Parser A → Parser (Option A)
checked size p buf = if leb size (length buf) then map_parser some p buf else ok (none, buf)

unfoldable pub checked_eat : ℕ → Parser (Option Bytes)
checked_eat n = checked n (eat n)

unfoldable pub checked_eat_buf : ℕ → Parser (Option Bytes)
checked_eat_buf n = and_then (checked_eat n) (λ b. pure (some b))

unfoldable pub eat_all : Parser Bytes
eat_all buf = eat (len buf) buf

-- `io::Read::read` into a buffer of `n` bytes.
unfoldable pub read : ℕ → Parser Bytes
read n buf = let count = min (length buf) n in ok (take count buf, drop count buf)

-- `eat_num!` with `from_le_bytes` or `from_be_bytes`, at `size` bytes; the words of a signed type
-- are read by `signed`.
unfoldable pub eat_num_le : ℕ → Parser ℕ
eat_num_le size = map_parser from_le_bytes (eat size)

unfoldable pub eat_num_be : ℕ → Parser ℕ
eat_num_be size = map_parser from_be_bytes (eat size)

-- `for (i, b) in bytes.iter().enumerate() { x |= (*b as $t) << ((8 * i) + (8 * $offset)); }`
-- over a word of `word` bytes.
unfoldable pub or_bytes : ℕ → ℕ → ℕ → ℕ → Bytes → ℕ
or_bytes word offset i x [] = x
or_bytes word offset i x (b ∷ bs) =
    or_bytes word offset (i + 1) (bit_or x (b * 2 ^ (8 * i + 8 * offset) % 2 ^ (8 * word))) bs

-- `$t::from_be` on a little-endian machine.
unfoldable pub swap_bytes : ℕ → ℕ → ℕ
swap_bytes word x = from_be_bytes (to_le_bytes word x)

-- `eat_num!` with a size that no primitive type has: `$t::from_le` is the identity on a
-- little-endian machine.
unfoldable pub eat_sized_le : ℕ → ℕ → ℕ → Parser ℕ
eat_sized_le word size offset = map_parser (or_bytes word offset 0 0) (eat size)

unfoldable pub eat_sized_be : ℕ → ℕ → ℕ → Parser ℕ
eat_sized_be word size offset =
    map_parser (λ bytes. swap_bytes word (or_bytes word offset 0 0 bytes)) (eat size)
