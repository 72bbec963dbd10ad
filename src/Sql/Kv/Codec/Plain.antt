-- ===== src/Sql/Kv/Codec/Plain.antt =====
-- A concrete format for tables, rows and indexes, for tests.
use sqlprimer.Prelude.{
  ℕ, zero, suc, ◌≡◌, refl, ap, ◌∙◌, Bool, true, false, Option, none, some, List, [], ◌∷◌, ◌++◌,
  length, take, drop, take-append, drop-append, ◌==◌, if◌then◌else◌, ok,
}
use sqlprimer.Bytes.{Bytes}
use sqlprimer.Sql.Numbers.{pos, negsuc}
use sqlprimer.Sql.Value.{DataType, Value}
use sqlprimer.Sql.Schema.{Column, Table}
use sqlprimer.Sql.Kv.Codec.{Codec, IsCodec}

-- What a format of `A` is: `put` writes before the rest, `read` takes what it wrote.
record Format (A : Type 0) : Type 0 where
  put : A → Bytes → Bytes
  read : Bytes → A × Bytes
  back : (a : A) (r : Bytes) → read (put a r) ≡ (a, r)

abbrev read_number : Bytes → ℕ × Bytes
read_number [] = (0, [])
read_number (n ∷ r) = (n, r)

module _ {A : Type 0} (f : Format A) where
  abbrev put_all : List A → Bytes → Bytes
  put_all [] r = r
  put_all (a ∷ l) r = f.put a (put_all l r)

  abbrev read_all : ℕ → Bytes → List A × Bytes
  read_all zero r = ([], r)
  read_all (suc n) r = let (a, r') = f.read r in let (l, r'') = read_all n r' in (a ∷ l, r'')

  all_back : (l : List A) (r : Bytes) → read_all (length l) (put_all l r) ≡ (l, r)
  all_back [] r = refl
  all_back (a ∷ l) r = rw (f.back a (put_all l r), all_back l r) refl

  abbrev put_list : List A → Bytes → Bytes
  put_list l r = length l ∷ put_all l r

  abbrev read_list : Bytes → List A × Bytes
  read_list [] = ([], [])
  read_list (n ∷ r) = read_all n r

abbrev put_value : Value → Bytes → Bytes
put_value Value.null r = 0 ∷ r
put_value (Value.boolean true) r = 1 ∷ r
put_value (Value.boolean false) r = 2 ∷ r
put_value (Value.integer (pos n)) r = 3 ∷ n ∷ r
put_value (Value.integer (negsuc n)) r = 4 ∷ n ∷ r
put_value (Value.float n) r = 5 ∷ n ∷ r
put_value (Value.string s) r = 6 ∷ length s ∷ (s ++ r)

abbrev read_text : Bytes → Bytes × Bytes
read_text [] = ([], [])
read_text (n ∷ r) = (take n r, drop n r)

text_back : (s r : Bytes) → read_text (length s ∷ (s ++ r)) ≡ (s, r)
text_back s r = rw (take-append s r, drop-append s r) refl

abbrev number_as : (ℕ → Value) → ℕ × Bytes → Value × Bytes
number_as make (n, r) = (make n, r)

abbrev text_as : Bytes × Bytes → Value × Bytes
text_as (s, r) = (Value.string s, r)

abbrev read_value : Bytes → Value × Bytes
read_value [] = (Value.null, [])
read_value (t ∷ r) =
    if t == 1
    then (Value.boolean true, r)
    else if t == 2
    then (Value.boolean false, r)
    else if t == 3
    then number_as (λ n. Value.integer (pos n)) (read_number r)
    else if t == 4
    then number_as (λ n. Value.integer (negsuc n)) (read_number r)
    else if t == 5
    then number_as Value.float (read_number r)
    else if t == 6
    then text_as (read_text r)
    else (Value.null, r)

pub value_back : (v : Value) (r : Bytes) → read_value (put_value v r) ≡ (v, r)
value_back Value.null r = refl
value_back (Value.boolean true) r = refl
value_back (Value.boolean false) r = refl
value_back (Value.integer (pos n)) r = refl
value_back (Value.integer (negsuc n)) r = refl
value_back (Value.float n) r = refl
value_back (Value.string s) r = ap {B = Value × Bytes} text_as (text_back s r)

abbrev value : Format Value
value = record { put = put_value; read = read_value; back = value_back }

abbrev type_number : DataType → ℕ
type_number DataType.boolean = 0
type_number DataType.integer = 1
type_number DataType.float = 2
type_number DataType.string = 3

abbrev type_of : ℕ → DataType
type_of n =
    if n == 0
    then DataType.boolean
    else if n == 1
    then DataType.integer
    else if n == 2
    then DataType.float
    else DataType.string

type_back : (t : DataType) → type_of (type_number t) ≡ t
type_back DataType.boolean = refl
type_back DataType.integer = refl
type_back DataType.float = refl
type_back DataType.string = refl

abbrev bit : Bool → ℕ
bit true = 1
bit false = 0

bit_back : (b : Bool) → (bit b == 1) ≡ b
bit_back true = refl
bit_back false = refl

abbrev put_default : Option Value → Bytes → Bytes
put_default none r = 0 ∷ r
put_default (some v) r = 1 ∷ put_value v r

abbrev some_value : Value × Bytes → Option Value × Bytes
some_value (v, r) = (some v, r)

abbrev read_default : Bytes → Option Value × Bytes
read_default [] = (none, [])
read_default (n ∷ r) = if n == 1 then some_value (read_value r) else (none, r)

default_back : (o : Option Value) (r : Bytes) → read_default (put_default o r) ≡ (o, r)
default_back none r = refl
default_back (some v) r = ap {B = Option Value × Bytes} some_value (value_back v r)

abbrev put_column : Column → Bytes → Bytes
put_column c r =
    length c.name
    ∷ (c.name
        ++ type_number c.column_type
          ∷ bit c.nullable
          ∷ bit c.primary_key
          ∷ bit c.index
          ∷ put_default c.default r)

abbrev column_of : Bytes → ℕ → ℕ → ℕ → ℕ → Option Value × Bytes → Column × Bytes
column_of name t n p i (d, r) = (
  record {
    name = name;
    column_type = type_of t;
    nullable = n == 1;
    default = d;
    primary_key = p == 1;
    index = i == 1;
  },
  r,
)

abbrev no_column : Column
no_column = record {
  name = [];
  column_type = DataType.boolean;
  nullable = false;
  default = none;
  primary_key = false;
  index = false;
}

abbrev column_behind : Bytes × Bytes → Column × Bytes
column_behind (name, t ∷ n ∷ p ∷ i ∷ r) = column_of name t n p i (read_default r)
column_behind _ = (no_column, [])

pub column_back : (c : Column) (r : Bytes) → column_behind (read_text (put_column c r)) ≡ (c, r)
column_back c r =
    ap column_behind (
      text_back c.name (
        type_number c.column_type
        ∷ bit c.nullable
        ∷ bit c.primary_key
        ∷ bit c.index
        ∷ put_default c.default r))
    ∙ ap
        (column_of c.name (type_number c.column_type) (bit c.nullable) (bit c.primary_key)
          (bit c.index))
        (default_back c.default r)
    ∙ rw (type_back c.column_type, bit_back c.nullable, bit_back c.primary_key, bit_back c.index)
        refl

abbrev column : Format Column
column = record { put = put_column; read = λ r. column_behind (read_text r); back = column_back }

abbrev put_table : Table → Bytes
put_table t = length t.name ∷ (t.name ++ put_list column t.columns [])

abbrev table_behind : Bytes × Bytes → Table
table_behind (name, r) = record { name = name; columns = (read_list column r).0 }

table_back : (t : Table) → table_behind (read_text (put_table t)) ≡ t
table_back t =
    ap table_behind (text_back t.name (put_list column t.columns []))
    ∙ ap {B = Table} (λ p. record { name = t.name; columns = p.0 }) (all_back column t.columns [])

abbrev pub plain_codec : Codec
plain_codec = record {
  serialize_table = put_table;
  deserialize_table = λ r. ok (table_behind (read_text r));
  serialize_row = λ vs. put_list value vs [];
  deserialize_row = λ r. ok (read_list value r).0;
  serialize_index = λ vs. put_list value vs [];
  deserialize_index = λ r. ok (read_list value r).0;
}

pub plain_codec-IsCodec : IsCodec plain_codec
plain_codec-IsCodec = record {
  table_round_trip = λ t. ap ok (table_back t);
  row_round_trip = λ vs. ap (λ p. ok p.0) (all_back value vs []);
  index_round_trip = λ vs. (vs, ap (λ p. ok p.0) (all_back value vs []), λ v. refl);
}
