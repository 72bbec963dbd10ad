-- ===== src/Sql/Text.antt =====
-- What the program uses of `str` and `char` of the standard library. A text is its UTF-8 bytes, a
-- character its code. The tables of Unicode beyond ASCII are left open.
use Prim.Native.Char.{code}
use Prim.Native.String.{String}
use sqlprimer.Prelude.{
  ℕ, ◌+◌, ◌-◌, ◌/◌, ◌%◌, Bool, true, false, ◌&&◌, ◌||◌, [], ◌∷◌, map, leb, ltb, ◌==◌, if◌then◌else◌,
}
use sqlprimer.Bytes.{Bytes}

-- The bytes of an ASCII literal.
abbrev pub ascii : String → Bytes
ascii String.[] = []
ascii (String.◌∷◌ c s) = code c ∷ ascii s

-- What the tables say of characters, and of texts that are not ASCII.
pub record Unicode : Type 0 where
  pub whitespace : ℕ → Bool
  pub alphabetic : ℕ → Bool
  pub numeric : ℕ → Bool
  pub upper : Bytes → Bytes
  pub lower : Bytes → Bytes

abbrev between : ℕ → ℕ → ℕ → Bool
between lo hi c = leb lo c && leb c hi

abbrev pub is_ascii_digit : ℕ → Bool
is_ascii_digit c = between 48 57 c

abbrev pub is_ascii_upper : ℕ → Bool
is_ascii_upper c = between 65 90 c

abbrev pub is_ascii_lower : ℕ → Bool
is_ascii_lower c = between 97 122 c

unfoldable pub is_ascii : Bytes → Bool
is_ascii [] = true
is_ascii (b ∷ bs) = let rest = is_ascii bs in if ltb b 128 then rest else false

-- `char::encode_utf8`
unfoldable pub utf8 : ℕ → Bytes
utf8 c =
    if ltb c 128
    then c ∷ []
    else if ltb c 2048
    then (192 + c / 64) ∷ (128 + c % 64) ∷ []
    else if ltb c 65536
    then (224 + c / 4096) ∷ (128 + c / 64 % 64) ∷ (128 + c % 64) ∷ []
    else (240 + c / 262144) ∷ (128 + c / 4096 % 64) ∷ (128 + c / 64 % 64) ∷ (128 + c % 64) ∷ []

abbrev pub upper_byte : ℕ → ℕ
upper_byte c = if is_ascii_lower c then c - 32 else c

abbrev pub lower_byte : ℕ → ℕ
lower_byte c = if is_ascii_upper c then c + 32 else c

module _ (u : Unicode) where
  -- `char::is_whitespace`: tab, line feed, vertical tab, form feed, return and space.
  unfoldable pub is_whitespace : ℕ → Bool
  is_whitespace c = if ltb c 128 then between 9 13 c || c == 32 else u.whitespace c

  unfoldable pub is_alphabetic : ℕ → Bool
  is_alphabetic c = if ltb c 128 then is_ascii_upper c || is_ascii_lower c else u.alphabetic c

  unfoldable pub is_alphanumeric : ℕ → Bool
  unfolding is_alphabetic
  is_alphanumeric c = is_alphabetic c || (if ltb c 128 then is_ascii_digit c else u.numeric c)

  -- `to_uppercase` and `to_lowercase`
  unfoldable pub to_uppercase : Bytes → Bytes
  to_uppercase s = if is_ascii s then map upper_byte s else u.upper s

  unfoldable pub to_lowercase : Bytes → Bytes
  to_lowercase s = if is_ascii s then map lower_byte s else u.lower s
