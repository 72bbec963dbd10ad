-- ===== src/Sql/Schema/Valid.antt =====
-- Valid tables, and the primary key of their rows.
use sqlprimer.Prelude.{
  ℕ, zero, suc, ◌<◌, ◌≤◌, ◌≡◌, ◌⊎◌, refl, ap, true, false, ◌&&◌, Option, none, some, List, [], ◌∷◌,
  length, get_elem?, All, Outcome, ok, err, panic, ◌>>◌, arith, Bool-cases, inl, inr, ◌==◌,
}
use sqlprimer.Sql.Value.{DataType, Value, Row, datatype, same_type}
use sqlprimer.Sql.Expr.{index_row}
use sqlprimer.Sql.Schema.{
  Column, Table, count_primary_keys, check_column, check_columns, check_default, default_type,
  validate, primary_key_position, get_primary_key,
}

-- The default of a column, where it has one that is not NULL, has the column's type.
abbrev DefaultFits : Column → Option Value → Type 0
DefaultFits c none = Unit
DefaultFits c (some Value.null) = Unit
DefaultFits c (some (Value.boolean x)) = c.column_type ≡ DataType.boolean
DefaultFits c (some (Value.integer x)) = c.column_type ≡ DataType.integer
DefaultFits c (some (Value.float x)) = c.column_type ≡ DataType.float
DefaultFits c (some (Value.string x)) = c.column_type ≡ DataType.string

pub record IsColumn (c : Column) : Type 0 where
  pub key_not_null : c.primary_key ≡ true → c.nullable ≡ false
  pub default_fits : DefaultFits c c.default

-- Just one of the columns is a primary key.
abbrev pub OneKey : List Column → Type 0
OneKey [] = ⊥
OneKey (c ∷ cs) =
    ((c.primary_key ≡ true) × All (λ d. d.primary_key ≡ false) cs)
    ⊎ ((c.primary_key ≡ false) × OneKey cs)

no_keys : (cs : List Column) → count_primary_keys cs ≡ 0 → All (λ d. d.primary_key ≡ false) cs
unfolding count_primary_keys
no_keys [] h = tt
no_keys (c ∷ cs) h = elim (Bool-cases c.primary_key) [
  | inl k ↦ ground (arith, k, h)
  | inr k ↦ (k, no_keys cs (ground (arith, k, h)))
]

count_no_keys : (cs : List Column) → All (λ d. d.primary_key ≡ false) cs → count_primary_keys cs ≡ 0
unfolding count_primary_keys
count_no_keys [] a = refl
count_no_keys (c ∷ cs) a = ground (arith, a.0, count_no_keys cs a.1)

OneKey-of_count : (cs : List Column) → count_primary_keys cs ≡ 1 → OneKey cs
unfolding count_primary_keys
OneKey-of_count [] h = absurd (omega arith)
OneKey-of_count (c ∷ cs) h = elim (Bool-cases c.primary_key) [
  | inl k ↦ inl (k, no_keys cs (ground (arith, k, h)))
  | inr k ↦ inr (k, OneKey-of_count cs (ground (arith, k, h)))
]

count-OneKey : (cs : List Column) → OneKey cs → count_primary_keys cs ≡ 1
unfolding count_primary_keys
count-OneKey [] o = absurd o
count-OneKey (c ∷ cs) (inl (k, none_else)) = ground (arith, k, count_no_keys cs none_else)
count-OneKey (c ∷ cs) (inr (k, o)) = ground (arith, k, count-OneKey cs o)

pub record IsTable (t : Table) : Type 0 where
  pub one_key : OneKey t.columns
  pub columns : All IsColumn t.columns

pub same_type-eq : (a b : DataType) → same_type a b ≡ true → b ≡ a
same_type-eq DataType.boolean DataType.boolean h = refl
same_type-eq DataType.integer DataType.integer h = refl
same_type-eq DataType.float DataType.float h = refl
same_type-eq DataType.string DataType.string h = refl
same_type-eq _ _ h = cc

pub same_type_refl : (a : DataType) → same_type a a ≡ true
same_type_refl DataType.boolean = refl
same_type_refl DataType.integer = refl
same_type_refl DataType.float = refl
same_type_refl DataType.string = refl

check_type_eq : (c : Column) (a : DataType) → check_default c (some a) ≡ ok tt → c.column_type ≡ a
unfolding check_default
check_type_eq c a h = elim (Bool-cases (same_type a c.column_type)) [
  | inl p ↦ same_type-eq a c.column_type p
  | inr p ↦ ground (arith, p, h)
]

module _ (c : Column) where
  DefaultFits-of_check :
      (o : Option Value) → check_default c (default_type o) ≡ ok tt → DefaultFits c o
  unfolding datatype
  DefaultFits-of_check none h = tt
  DefaultFits-of_check (some Value.null) h = tt
  DefaultFits-of_check (some (Value.boolean x)) h = check_type_eq c DataType.boolean h
  DefaultFits-of_check (some (Value.integer x)) h = check_type_eq c DataType.integer h
  DefaultFits-of_check (some (Value.float x)) h = check_type_eq c DataType.float h
  DefaultFits-of_check (some (Value.string x)) h = check_type_eq c DataType.string h

  check_of_type : (a : DataType) → c.column_type ≡ a → check_default c (some a) ≡ ok tt
  unfolding check_default
  check_of_type a h = rw (h, same_type_refl a)

  check_of_DefaultFits :
      (o : Option Value) → DefaultFits c o → check_default c (default_type o) ≡ ok tt
  unfolding datatype check_default
  check_of_DefaultFits none h = refl
  check_of_DefaultFits (some Value.null) h = refl
  check_of_DefaultFits (some (Value.boolean x)) h = check_of_type DataType.boolean h
  check_of_DefaultFits (some (Value.integer x)) h = check_of_type DataType.integer h
  check_of_DefaultFits (some (Value.float x)) h = check_of_type DataType.float h
  check_of_DefaultFits (some (Value.string x)) h = check_of_type DataType.string h

  IsColumn-of_check : check_column c ≡ ok tt → IsColumn c
  unfolding check_column
  IsColumn-of_check h = record {
    key_not_null =
        λ k. elim (Bool-cases c.nullable) [ inl n ↦ ground (arith, k, n, h) | inr n ↦ n ];
    default_fits = DefaultFits-of_check c.default (elim (Bool-cases (c.primary_key && c.nullable)) [
      | inl n ↦ ground (arith, n, h)
      | inr n ↦ ground (arith, n, h)
    ]);
  }

  check_of_column : IsColumn c → check_column c ≡ ok tt
  unfolding check_column
  check_of_column i = elim (Bool-cases c.primary_key) [
    | inl k ↦ ground (arith, k, i.key_not_null k, check_of_DefaultFits c.default i.default_fits)
    | inr k ↦ ground (arith, k, check_of_DefaultFits c.default i.default_fits)
  ]

columns_of_check : (cs : List Column) → check_columns cs ≡ ok tt → All IsColumn cs
unfolding check_columns
columns_of_check [] h = tt
columns_of_check (c ∷ cs) h = go (check_column c) refl (columns_of_check cs) h
  where
    go :
        (r : Outcome (Unit {0}))
        → check_column c ≡ r
        → (check_columns cs ≡ ok tt → All IsColumn cs)
        → (r >> check_columns cs) ≡ ok tt
        → All IsColumn (c ∷ cs)
    go (ok x) e ih k = (IsColumn-of_check c e, ih k)
    go (err x) e ih k = cc
    go panic e ih k = cc

check_of_columns : (cs : List Column) → All IsColumn cs → check_columns cs ≡ ok tt
unfolding check_columns
check_of_columns [] a = refl
check_of_columns (c ∷ cs) a = rw (check_of_column c a.0) (check_of_columns cs a.1)

count_nil : count_primary_keys [] ≡ 0
unfolding count_primary_keys
count_nil = refl

-- `validate` accepts exactly the valid tables: those with just one primary key, which may not be null,
-- and whose defaults have the types of their columns.
pub validate-IsTable :
    (t : Table) → (validate t ≡ ok tt → IsTable t) × (IsTable t → validate t ≡ ok tt)
unfolding validate
validate-IsTable t = (go t.columns refl, λ i. back i t.columns refl)
  where
    go : (cs : List Column) → t.columns ≡ cs → validate t ≡ ok tt → IsTable t
    go [] e h = cc
    go (c ∷ cs) e h = elim (Bool-cases (count_primary_keys t.columns == 1)) [
      | inl k ↦ record {
        one_key = OneKey-of_count t.columns (ground (arith, k));
        columns = columns_of_check t.columns (ground (arith, e, k, h));
      }
      | inr k ↦ ground (arith, e, k, h)
    ]

    back : IsTable t → (cs : List Column) → t.columns ≡ cs → validate t ≡ ok tt
    back i [] e =
        absurd (omega (arith, count-OneKey t.columns i.one_key, ap count_primary_keys e, count_nil))
    back i (c ∷ cs) e =
        ground (arith, e, count-OneKey t.columns i.one_key, check_of_columns t.columns i.columns)

-- A list with a primary key has a first one.
key_found :
    (cs : List Column)
    → 0 < count_primary_keys cs
    → (i : ℕ) × (c : Column) × (primary_key_position cs ≡ some i)
      × (get_elem? cs i ≡ some c)
      × (c.primary_key ≡ true)
      × (i < length cs)
unfolding count_primary_keys primary_key_position
key_found [] h = absurd (omega arith)
key_found (c ∷ cs) h = elim (Bool-cases c.primary_key) [
  | inl k ↦ (0, c, first c cs k, refl, k, omega arith)
  | inr k ↦
      let (i, d, p, q, r, l) = key_found cs (ground (arith, k, h)) in
      (suc i, d, rw (p, k), q, r, omega arith)
]
  where
    first :
        (c : Column) (cs : List Column)
        → c.primary_key ≡ true
        → primary_key_position (c ∷ cs) ≡ some 0
    first c cs k = go (primary_key_position cs) refl
      where
        go : (o : Option ℕ) → primary_key_position cs ≡ o → primary_key_position (c ∷ cs) ≡ some 0
        go none e = rw (e, k)
        go (some j) e = rw (e, k)

elem_found : (row : Row) (i : ℕ) → i < length row → (v : Value) × (get_elem? row i ≡ some v)
elem_found [] i h = absurd (omega arith)
elem_found (v ∷ vs) zero h = (v, refl)
elem_found (v ∷ vs) (suc i) h = elem_found vs i (omega arith)

get_primary_key_at :
    (t : Table) (row : Row) (i : ℕ) (v : Value)
    → primary_key_position t.columns ≡ some i
    → get_elem? row i ≡ some v
    → get_primary_key t row ≡ ok v
unfolding get_primary_key index_row
get_primary_key_at t row i v p e = rw (p, get_primary_key) (rw (e, index_row))

-- For a table that `validate` accepts and a row with all its columns, `get_primary_key` does not
-- panic, and gives the row's value in a column that is the primary key.
pub get_primary_key-validate :
    (t : Table) (row : Row)
    → validate t ≡ ok tt
    → length t.columns ≤ length row
    → (i : ℕ) × (c : Column) × (v : Value) × (get_elem? t.columns i ≡ some c)
      × (c.primary_key ≡ true)
      × (get_elem? row i ≡ some v)
      × (get_primary_key t row ≡ ok v)
get_primary_key-validate t row h l =
    let valid = (validate-IsTable t).0 h in
    let (i, c, p, q, k, m) =
      key_found t.columns (omega (arith, count-OneKey t.columns valid.one_key)) in
    let (v, e) = elem_found row i (omega arith) in
    (i, c, v, q, k, e, get_primary_key_at t row i v p e)
