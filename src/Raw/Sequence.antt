-- ===== src/Raw/Sequence.antt =====
-- src/misc/raw/seq.rs: sequences behind their length, and sequences of bytes.
use rust_mysql_common.Base.{
  ℕ, zero, suc, ◌*◌, ◌-◌, ◌%◌, ◌^◌, Option, none, some, List, [], ◌∷◌, ltb, if◌then◌else◌, length,
  take, min, get_elem?,
}
use rust_mysql_common.Base.Bytes.{Bytes}
use rust_mysql_common.Base.Result.{panic}
use rust_mysql_common.Io.ParseBuf.{Parser, pure, ◌>>=◌}
use rust_mysql_common.Raw.{MyDeserialize, MySerialize, parse, parse_buf, within, byte_slice}
use rust_mysql_common.Raw.Int.{IntRepr, raw_int}

-- `for x in seq { x.serialize(buf); }`
unfoldable pub serialize_all : {A : Type 0} → MySerialize A → List A → Bytes → Bytes
serialize_all S [] buf = buf
serialize_all S (x ∷ xs) buf = serialize_all S xs (S x buf)

-- `for _ in 0..len { seq.push(buf.parse(())?); }`
unfoldable pub parse_all : {A : Type 0} → MyDeserialize (Unit {0}) A → ℕ → Parser (List A)
parse_all D zero = pure []
parse_all D (suc n) = parse D tt >>= λ x. parse_all D n >>= λ xs. pure (x ∷ xs)

-- `impl_seq_repr!`: the length is an `R`, at most `max_len`.
unfoldable pub serialize_seq : {A : Type 0} → IntRepr ℕ → ℕ → MySerialize A → List A → Bytes → Bytes
serialize_seq R max_len S seq buf =
    let len : ℕ = min max_len (length seq) in serialize_all S (take len seq) (R.serialize len buf)

-- The body behind the length. `Vec::with_capacity` panics if the vector, of elements of `elem_size`
-- bytes, would be over `isize::MAX`; `count * len` wraps around.
unfoldable pub parse_elements : {A : Type 0} → MyDeserialize (Unit {0}) A → ℕ → ℕ → Parser (List A)
parse_elements D elem_size len =
    if ltb (2 ^ 63 - 1) (len * elem_size) then (λ buf. panic) else elim (D.size) [
      | some count ↦ parse parse_buf (count * len % 2 ^ 64) >>= within (parse_all D len)
      | none ↦ parse_all D len
    ]

unfoldable pub parse_seq :
    {A : Type 0} → IntRepr ℕ → MyDeserialize (Unit {0}) A → ℕ → Parser (List A)
parse_seq R D elem_size = parse (raw_int R) tt >>= parse_elements D elem_size

-- `RawSeq<'a, T, U>` over bytes.
unfoldable pub raw_seq : MyDeserialize ℕ Bytes
raw_seq = record { size = none; deserialize = λ length. parse byte_slice length }

unfoldable pub raw_seq_get : Bytes → ℕ → Option ℕ
raw_seq_get seq index = get_elem? seq index
