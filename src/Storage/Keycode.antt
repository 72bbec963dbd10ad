-- ===== src/Storage/Keycode.antt =====
-- storage/keycode.rs: the key encoding, a serde format. A serializer's method appends to the
-- output; a deserializer's method takes from the input. The methods that are `todo!()` have no
-- counterpart here: the keys of the program never reach them.
pub mod BigEndian
pub mod Escape
use sqlprimer.Prelude.{
  ℕ, zero, suc, ◌+◌, ◌*◌, ◌/◌, ◌%◌, ◌^◌, Bool, true, false, not, List, [], ◌∷◌, ◌++◌, length, take,
  drop, leb, ltb, ◌==◌, if◌then◌else◌, Outcome, ok, err, panic, Error, internal, ◌>>=◌,
}
use sqlprimer.Bytes.{Bytes}

-- `to_be_bytes` of a word of `w` bytes, and `from_be_bytes`.
unfoldable pub to_be : ℕ → ℕ → Bytes
to_be zero v = []
to_be (suc w) v = (v / 256 ^ w) ∷ to_be w (v % 256 ^ w)

unfoldable pub from_be : Bytes → ℕ
from_be [] = 0
from_be (b ∷ bs) = b * 256 ^ length bs + from_be bs

-- The loop of `serialize_bytes`.
unfoldable pub escape : Bytes → Bytes
escape [] = []
escape (zero ∷ bs) = 0 ∷ 255 ∷ escape bs
escape (suc b ∷ bs) = suc b ∷ escape bs

unfoldable pub serialize_bool : Bool → Bytes → Bytes
serialize_bool v output = output ++ (if v then 1 else 0) ∷ []

-- `serialize_u64`, and `serialize_i64` and `serialize_f64` on the bit pattern of their argument.
unfoldable pub serialize_u64 : ℕ → Bytes → Bytes
serialize_u64 v output = output ++ to_be 8 v

-- The bytes of the text, with neither a length nor an end.
unfoldable pub serialize_str : Bytes → Bytes → Bytes
serialize_str v output = output ++ v

unfoldable pub serialize_bytes : Bytes → Bytes → Bytes
serialize_bytes v output = output ++ (escape v ++ 0 ∷ 0 ∷ [])

-- `extend(u8::try_from(index))` appends nothing if the index is no byte.
unfoldable pub serialize_unit_variant : ℕ → Bytes → Bytes
serialize_unit_variant variant_index output =
    if ltb variant_index 256 then output ++ variant_index ∷ [] else output

-- A method of the deserializer.
abbrev pub Take : Type 0 → Type 0
Take A = Bytes → Outcome (A × Bytes)

-- Slicing past the end panics.
unfoldable pub take_bytes : ℕ → Take Bytes
take_bytes len input = if leb len (length input) then ok (take len input, drop len input) else panic

-- The loop of `next_bytes`, over what it has collected.
unfoldable pub next_bytes_from : Bytes → Take Bytes
next_bytes_from res [] = err internal
next_bytes_from res (zero ∷ []) = err internal
next_bytes_from res (zero ∷ c ∷ rest) =
    let more = next_bytes_from (res ++ 0 ∷ []) rest in
    if c == 0 then ok (res, rest) else if c == 255 then more else err internal
next_bytes_from res (suc b ∷ rest) = next_bytes_from (res ++ suc b ∷ []) rest

unfoldable pub next_bytes : Take Bytes
unfolding next_bytes_from
next_bytes input = next_bytes_from [] input

-- `bytes[0]`
abbrev first : Bytes × Bytes → Outcome (ℕ × Bytes)
first ([], rest) = panic
first (b ∷ bs, rest) = ok (b, rest)

-- `take_bytes(1)[0]`
unfoldable pub take_byte : Take ℕ
unfolding take_bytes
take_byte input = take_bytes 1 input >>= first

unfoldable pub deserialize_bool : Take Bool
unfolding take_byte
deserialize_bool input = do (v, rest) ← take_byte input; ok (not (v == 0), rest)

unfoldable pub deserialize_u64 : Take ℕ
deserialize_u64 input = do (bytes, rest) ← take_bytes 8 input; ok (from_be bytes, rest)

unfoldable pub deserialize_byte_buf : Take Bytes
deserialize_byte_buf input = next_bytes input
