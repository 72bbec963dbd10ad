-- ===== src/Sql/Kv/Key/Distinct.antt =====
-- When the keys of sql/engine/kv.rs are distinct.
use sqlprimer.Prelude.{
  ℕ, ◌^◌, ◌<◌, ◌≤◌, ◌≡◌, refl, sym, ap, ◌∙◌, [], ◌∷◌, ◌++◌, append_assoc, All, All-append, arith,
  if◌then◌else◌,
}
use sqlprimer.Bytes.{Bytes, IsBytes, starts_with}
use sqlprimer.Storage.Keycode.{
  to_be, from_be, serialize_bool, serialize_u64, serialize_str, serialize_unit_variant,
}
use sqlprimer.Storage.Keycode.BigEndian.{from_be-to_be, to_be-IsBytes}
use sqlprimer.Sql.Numbers.{ℤ, pos, negsuc, as_usize}
use sqlprimer.Sql.Value.{Value}
use sqlprimer.Sql.Kv.Key.{Key, KeyPrefix, serialize_value, encode_key, encode_key_prefix}

-- The bytes of a value behind those of the name.
abbrev pub body : Value → Bytes
body Value.null = 0 ∷ []
body (Value.boolean v) = 1 ∷ (if v then 1 else 0) ∷ []
body (Value.integer v) = 2 ∷ to_be 8 (as_usize v)
body (Value.float v) = 3 ∷ to_be 8 v
body (Value.string v) = 4 ∷ v

serialize_value-body : (v : Value) (output : Bytes) → serialize_value v output ≡ output ++ body v
unfolding serialize_value serialize_bool serialize_u64 serialize_str serialize_unit_variant
serialize_value-body Value.null output = refl
serialize_value-body (Value.boolean v) output = append_assoc output (1 ∷ []) _
serialize_value-body (Value.integer v) output = append_assoc output (2 ∷ []) _
serialize_value-body (Value.float v) output = append_assoc output (3 ∷ []) _
serialize_value-body (Value.string v) output = append_assoc output (4 ∷ []) _

pub encode-table : (n : Bytes) → encode_key (Key.table n) ≡ 0 ∷ n
unfolding encode_key serialize_str serialize_unit_variant
encode-table n = refl

pub encode-row : (n : Bytes) (v : Value) → encode_key (Key.row n v) ≡ 1 ∷ (n ++ body v)
unfolding encode_key serialize_str serialize_unit_variant
encode-row n v = serialize_value-body v (1 ∷ n)

pub encode-index :
    (n c : Bytes) (v : Value) → encode_key (Key.index n c v) ≡ 2 ∷ ((n ++ c) ++ body v)
unfolding encode_key serialize_str serialize_unit_variant
encode-index n c v = serialize_value-body v (2 ∷ (n ++ c))

-- A character of an identifier is above the tags of the values.
abbrev pub IsName : Bytes → Type 0
IsName = All (λ c. (5 ≤ c) × (c < 256))

-- The numbers are `i64`s and `f64`s, the characters bytes.
abbrev pub IsI64 : ℤ → Type 0
IsI64 (pos n) = n < 2 ^ 63
IsI64 (negsuc n) = n < 2 ^ 63

abbrev pub IsStorable : Value → Type 0
IsStorable (Value.integer v) = IsI64 v
IsStorable (Value.float v) = v < 2 ^ 64
IsStorable (Value.string v) = IsBytes v
IsStorable _ = Unit

as_usize-lt : (v : ℤ) → as_usize v < 2 ^ 64
unfolding as_usize
as_usize-lt (pos n) = omega arith
as_usize-lt (negsuc n) = omega arith

as_usize-injective : (v w : ℤ) → IsI64 v → IsI64 w → as_usize v ≡ as_usize w → v ≡ w
unfolding as_usize
as_usize-injective (pos m) (pos n) f g e = ap pos (omega arith)
as_usize-injective (pos m) (negsuc n) f g e = absurd (omega arith)
as_usize-injective (negsuc m) (pos n) f g e = absurd (omega arith)
as_usize-injective (negsuc m) (negsuc n) f g e = ap negsuc (omega arith)

to_be-injective : (v w : ℕ) → v < 2 ^ 64 → w < 2 ^ 64 → to_be 8 v ≡ to_be 8 w → v ≡ w
to_be-injective v w f g e = sym (from_be-to_be 8 v f) ∙ ap from_be e ∙ from_be-to_be 8 w g

body-injective : (v w : Value) → IsStorable v → IsStorable w → body v ≡ body w → v ≡ w
body-injective Value.null Value.null f g e = refl
body-injective (Value.boolean v) (Value.boolean w) f g e = ground arith
body-injective (Value.integer v) (Value.integer w) f g e = ap Value.integer (
    as_usize-injective v w f g
      (to_be-injective (as_usize v) (as_usize w) (as_usize-lt v) (as_usize-lt w) (cc)))
body-injective (Value.float v) (Value.float w) f g e = ap Value.float (to_be-injective v w f g (cc))
body-injective (Value.string v) (Value.string w) f g e = cc
body-injective _ _ f g e = cc

-- A value's bytes begin with a tag.
body-head : (v : Value) → (t : ℕ) × (rest : Bytes) × (body v ≡ t ∷ rest) × (t < 5)
body-head Value.null = (0, [], refl, omega arith)
body-head (Value.boolean v) = (1, _, refl, omega arith)
body-head (Value.integer v) = (2, _, refl, omega arith)
body-head (Value.float v) = (3, _, refl, omega arith)
body-head (Value.string v) = (4, v, refl, omega arith)

-- Where a name ends is where the first tag stands.
name_and_value :
    (n m : Bytes) (v w : Value)
    → IsName n
    → IsName m
    → n ++ body v ≡ m ++ body w
    → (n ≡ m) × (body v ≡ body w)
name_and_value [] [] v w f g e = (refl, e)
name_and_value [] (y ∷ m) v w f g e =
    let (t, rest, p, l) = body-head v in absurd (ground (arith, p, g.0))
name_and_value (x ∷ n) [] v w f g e =
    let (t, rest, p, l) = body-head w in absurd (ground (arith, p, f.0))
name_and_value (x ∷ n) (y ∷ m) v w f g e =
    let (p, q) = name_and_value n m v w f.1 g.1 (cc) in (cc, q)

-- Two rows have one key only if their tables and their primary keys are the same, for tables whose
-- names consist of bytes above 4 and for storable primary keys.
pub encode_key-row_injective :
    (n m : Bytes) (v w : Value)
    → IsName n
    → IsName m
    → IsStorable v
    → IsStorable w
    → encode_key (Key.row n v) ≡ encode_key (Key.row m w)
    → (n ≡ m) × (v ≡ w)
encode_key-row_injective n m v w f g h k e =
    let whole : 1 ∷ (n ++ body v) ≡ 1 ∷ (m ++ body w) = sym (encode-row n v) ∙ e ∙ encode-row m w in
    let (p, q) = name_and_value n m v w f g (cc) in (p, body-injective v w h k q)

IsName-IsBytes : (n : Bytes) → IsName n → IsBytes n
IsName-IsBytes [] f = tt
IsName-IsBytes (x ∷ n) f = (f.0.1, IsName-IsBytes n f.1)

body-IsBytes : (v : Value) → IsStorable v → IsBytes (body v)
body-IsBytes Value.null f = (omega arith, tt)
body-IsBytes (Value.boolean v) f = (omega arith, (ground arith, tt))
body-IsBytes (Value.integer v) f = (omega arith, to_be-IsBytes 8 (as_usize v) (as_usize-lt v))
body-IsBytes (Value.float v) f = (omega arith, to_be-IsBytes 8 v f)
body-IsBytes (Value.string v) f = (omega arith, f)

pub encode_key-IsBytes_table : (n : Bytes) → IsName n → IsBytes (encode_key (Key.table n))
encode_key-IsBytes_table n f = rw encode-table (omega arith, IsName-IsBytes n f)

pub encode_key-IsBytes_row :
    (n : Bytes) (v : Value) → IsName n → IsStorable v → IsBytes (encode_key (Key.row n v))
encode_key-IsBytes_row n v f g =
    rw encode-row (omega arith, All-append _ n (body v) (IsName-IsBytes n f) (body-IsBytes v g))

pub encode_key-IsBytes_index :
    (n c : Bytes) (v : Value)
    → IsName n
    → IsName c
    → IsStorable v
    → IsBytes (encode_key (Key.index n c v))
encode_key-IsBytes_index n c v f h g = rw encode-index (
  omega arith,
  All-append _ (n ++ c) (body v) (All-append _ n c (IsName-IsBytes n f) (IsName-IsBytes c h))
      (body-IsBytes v g),
)

-- A prefix of name bytes ends before the value.
starts_with-name :
    (n m : Bytes) (v : Value) → IsName n → starts_with n (m ++ body v) ≡ starts_with n m
unfolding starts_with
starts_with-name [] m v f = refl
starts_with-name (x ∷ n) [] v f = let (t, rest, p, l) = body-head v in rw p (ground (arith, f.0))
starts_with-name (x ∷ n) (y ∷ m) v f = ground (arith, starts_with-name n m v f.1)

-- The prefix that a scan of a table's rows uses covers the rows of each table whose name begins
-- with the name of the table, and no other row, for a name that consists of bytes above 4.
pub starts_with-encode_key :
    (n m : Bytes) (v : Value)
    → IsName n
    → starts_with (encode_key_prefix (KeyPrefix.row n)) (encode_key (Key.row m v)) ≡ starts_with n m
unfolding encode_key_prefix serialize_str serialize_unit_variant starts_with
starts_with-encode_key n m v f = rw encode-row (starts_with-name n m v f)
