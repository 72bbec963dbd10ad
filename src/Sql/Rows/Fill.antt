-- ===== src/Sql/Rows/Fill.antt =====
-- The rows that an insert makes: `pad_row`, `make_row` and the check of `create_row`.
use sqlprimer.Prelude.{
  ℕ, zero, suc, ◌≤◌, ◌≡◌, ◌⊎◌, inl, inr, refl, ap, ◌∙◌, true, Option, none, some, List, [], ◌∷◌,
  ◌++◌, length, drop, append-nil, append_assoc, Outcome, ok, err, panic, ◌>>◌, arith, internal,
  get_elem?, Bool, ◌<◌, ◌≢◌, sym, false, if◌then◌else◌, Bool-cases, ◌==◌,
}
use sqlprimer.Bytes.{Bytes}
use sqlprimer.OrderedMap.Lookup.{same, eq_of_same, same_refl}
use sqlprimer.Sql.Value.{DataType, Value, Row, datatype, same_type}
use sqlprimer.Sql.Schema.{Column, Table}
use sqlprimer.Sql.Schema.Valid.{same_type-eq}
use sqlprimer.Sql.Rows.{
  pad_from, pad_row, get_input, zip_inputs, column_value, make_from, make_row, check_value,
  check_row,
}

-- The values are the defaults of the columns.
abbrev pub AreDefaults : List Column → Row → Type 0
AreDefaults [] [] = Unit
AreDefaults (c ∷ cs) (v ∷ vs) = (c.default ≡ some v) × AreDefaults cs vs
AreDefaults _ _ = ⊥

-- One of the columns has no default.
abbrev pub LacksDefault : List Column → Type 0
LacksDefault [] = ⊥
LacksDefault (c ∷ cs) = (c.default ≡ none) ⊎ LacksDefault cs

pad_from_lem :
    (cs : List Column) (row : Row)
    → ((added : Row) × (pad_from cs row ≡ ok (row ++ added)) × AreDefaults cs added)
      ⊎ (LacksDefault cs × (pad_from cs row ≡ err internal))
unfolding pad_from
pad_from_lem [] row = inl ([], ap ok (sym (append-nil row)), tt)
pad_from_lem (c ∷ cs) row = go c.default refl (λ v. pad_from_lem cs (row ++ v ∷ []))
  where
    go :
        (o : Option Value)
        → c.default ≡ o
        → ((v : Value)
            → ((added : Row) × (pad_from cs (row ++ v ∷ []) ≡ ok ((row ++ v ∷ []) ++ added))
                × AreDefaults cs added)
              ⊎ (LacksDefault cs × (pad_from cs (row ++ v ∷ []) ≡ err internal)))
        → ((added : Row) × (pad_from (c ∷ cs) row ≡ ok (row ++ added)) × AreDefaults (c ∷ cs) added)
          ⊎ (LacksDefault (c ∷ cs) × (pad_from (c ∷ cs) row ≡ err internal))
    go none e ih = inr (inl e, rw (e, pad_from) refl)
    go (some v) e ih = elim (ih v) [
      | inl (added, p, a) ↦
          inl (v ∷ added, rw (e, pad_from) (p ∙ ap ok (append_assoc row (v ∷ []) added)), (e, a))
      | inr (l, p) ↦ inr (inr l, rw (e, pad_from) p)
    ]

-- A row is padded by the defaults of the columns of the table that are behind its values, one for
-- each, in their order; where one of these columns has no default, it is an internal error.
pub pad_row_lem :
    (t : Table) (row : Row)
    → ((added : Row) × (pad_row t row ≡ ok (row ++ added))
        × AreDefaults (drop (length row) t.columns) added)
      ⊎ (LacksDefault (drop (length row) t.columns) × (pad_row t row ≡ err internal))
unfolding pad_row
pad_row_lem t row = pad_from_lem (drop (length row) t.columns) row

-- The value that was given for a name: the one at the name's last place.
abbrev pub IsGiven : List Bytes → Row → Bytes → Value → Type 0
IsGiven columns values name v =
    (i : ℕ) × (get_elem? columns i ≡ some name)
    × (get_elem? values i ≡ some v)
    × ((j : ℕ) → i < j → get_elem? columns j ≢ some name)

-- What stands in a made row: for each column the value that was given for its name, or, where none
-- was given, its default.
abbrev pub IsMade : List Bytes → Row → List Column → Row → Type 0
IsMade columns values [] [] = Unit
IsMade columns values (c ∷ cs) (v ∷ vs) =
    (IsGiven columns values c.name v
      ⊎ (((j : ℕ) → get_elem? columns j ≢ some c.name) × (c.default ≡ some v)))
    × IsMade columns values cs vs
IsMade columns values _ _ = ⊥

-- What `get_input` finds.
abbrev Found : List Bytes → Row → Bytes → Option Value → Type 0
Found columns values name none = (j : ℕ) → get_elem? columns j ≢ some name
Found columns values name (some v) = IsGiven columns values name v

-- A place behind a first one.
nowhere_behind :
    (ns : List Bytes) (n name : Bytes) (k : ℕ)
    → ((j : ℕ) → k ≤ j → get_elem? ns j ≢ some name)
    → (j : ℕ) → k < j
    → get_elem? (n ∷ ns) j ≢ some name
nowhere_behind ns n name k f zero l e = omega arith
nowhere_behind ns n name k f (suc j) l e = f j (omega arith) e

nowhere :
    (ns : List Bytes) (n name : Bytes)
    → n ≢ name
    → ((j : ℕ) → get_elem? ns j ≢ some name)
    → (j : ℕ) → get_elem? (n ∷ ns) j ≢ some name
nowhere ns n name d f zero e = d (cc)
nowhere ns n name d f (suc j) e = f j e

get_input-Found :
    (columns : List Bytes) (values : Row) (name : Bytes)
    → length columns ≡ length values
    → Found columns values name (get_input name (zip_inputs columns values))
unfolding get_input zip_inputs
get_input-Found [] [] name h = λ j e. cc
get_input-Found [] (v ∷ vs) name h = absurd (omega arith)
get_input-Found (n ∷ ns) [] name h = absurd (omega arith)
get_input-Found (n ∷ ns) (v ∷ vs) name h =
    later (get_input name (zip_inputs ns vs)) (get_input-Found ns vs name (omega arith))
  where
    head :
        Found ns vs name none
        → (b : Bool) → same n name ≡ b
        → Found (n ∷ ns) (v ∷ vs) name (if b then some v else none)
    head f true e =
        (0, ap some (eq_of_same n name e), refl, nowhere_behind ns n name 0 (λ j l. f j))
    head f false e = nowhere ns n name (λ q. cc (e, q, same_refl n)) f

    later :
        (o : Option Value)
        → Found ns vs name o
        → Found
            (n ∷ ns)
            (v ∷ vs)
            name
            (elim o [ some w ↦ some w | none ↦ if same n name then some v else none ])
    later (some w) (i, p, q, last) =
        (suc i, p, q, nowhere_behind ns n name (suc i) (λ j l. last j (omega arith)))
    later none f = head f (same n name) refl

-- A column is left without a value.
abbrev pub LacksValue : List Bytes → List Column → Type 0
LacksValue columns [] = ⊥
LacksValue columns (c ∷ cs) =
    (((j : ℕ) → get_elem? columns j ≢ some c.name) × (c.default ≡ none)) ⊎ LacksValue columns cs

-- The value of one column.
column_value_cases :
    (columns : List Bytes) (values : Row) (c : Column)
    → length columns ≡ length values
    → ((v : Value) × (column_value (zip_inputs columns values) c ≡ ok v)
        × (IsGiven columns values c.name v
            ⊎ (((j : ℕ) → get_elem? columns j ≢ some c.name) × (c.default ≡ some v))))
      ⊎ (((j : ℕ) → get_elem? columns j ≢ some c.name)
          × (c.default ≡ none)
          × (column_value (zip_inputs columns values) c ≡ err internal))
unfolding column_value
column_value_cases columns values c h =
    go (get_input c.name (zip_inputs columns values)) refl (get_input-Found columns values c.name h)
      c.default refl
  where
    go :
        (o : Option Value)
        → get_input c.name (zip_inputs columns values) ≡ o
        → Found columns values c.name o
        → (d : Option Value) → c.default ≡ d
        → ((v : Value) × (column_value (zip_inputs columns values) c ≡ ok v)
            × (IsGiven columns values c.name v
                ⊎ (((j : ℕ) → get_elem? columns j ≢ some c.name) × (c.default ≡ some v))))
          ⊎ (((j : ℕ) → get_elem? columns j ≢ some c.name)
              × (c.default ≡ none)
              × (column_value (zip_inputs columns values) c ≡ err internal))
    go (some v) e f d q = inl (v, rw (e, column_value) refl, inl f)
    go none e f (some v) q = inl (v, rw (e, column_value) (rw q refl), inr (f, q))
    go none e f none q = inr (f, q, rw (e, column_value) (rw q refl))

make_from_lem :
    (columns : List Bytes) (values : Row) (cs : List Column)
    → length columns ≡ length values
    → ((out : Row) × (make_from (zip_inputs columns values) cs ≡ ok out)
        × IsMade columns values cs out)
      ⊎ (LacksValue columns cs × (make_from (zip_inputs columns values) cs ≡ err internal))
unfolding make_from
make_from_lem columns values [] h = inl ([], refl, tt)
make_from_lem columns values (c ∷ cs) h = elim (column_value_cases columns values c h) [
  | inr (f, q, e) ↦ inr (inl (f, q), rw e refl)
  | inl (v, e, m) ↦ elim (make_from_lem columns values cs h) [
    | inl (out, r, ms) ↦ inl (v ∷ out, rw (e, r) refl, (m, ms))
    | inr (l, r) ↦ inr (inr l, rw (e, r) refl)
  ]
]

-- An insert of values for named columns: an internal error where there are not as many values as
-- names; otherwise the row has one value for each column of the table, the one given at the last
-- place of the column's name, or else the column's default, and where a column has neither it is an
-- internal error.
pub make_row_lem :
    (t : Table) (columns : List Bytes) (values : Row)
    → ((length columns ≢ length values) × (make_row t columns values ≡ err internal))
      ⊎ ((length columns ≡ length values)
          × ((out : Row) × (make_row t columns values ≡ ok out)
              × IsMade columns values t.columns out))
      ⊎ ((length columns ≡ length values)
          × LacksValue columns t.columns
          × (make_row t columns values ≡ err internal))
unfolding make_row
make_row_lem t columns values = elim (Bool-cases (length columns == length values)) [
  | inl e ↦
      let same_length : length columns ≡ length values = ground (arith, e) in
      elim (make_from_lem columns values t.columns same_length) [
        | inl (out, r, m) ↦ inr (inl (same_length, (out, rw e r, m)))
        | inr (l, r) ↦ inr (inr (same_length, l, rw e r))
      ]
  | inr e ↦ inl ((λ q. ground (arith, e, q)), rw e refl)
]

-- A value that a column takes: NULL where the column may be null, or one of the column's type.
abbrev pub Suits : Column → Value → Type 0
Suits c Value.null = c.nullable ≡ true
Suits c (Value.boolean x) = c.column_type ≡ DataType.boolean
Suits c (Value.integer x) = c.column_type ≡ DataType.integer
Suits c (Value.float x) = c.column_type ≡ DataType.float
Suits c (Value.string x) = c.column_type ≡ DataType.string

-- A row suits the columns if it has a suitable value for each, and perhaps more values.
abbrev pub RowSuits : List Column → Row → Type 0
RowSuits [] row = Unit
RowSuits (c ∷ cs) [] = ⊥
RowSuits (c ∷ cs) (v ∷ vs) = Suits c v × RowSuits cs vs

type_of_check : (c : Column) (a : DataType) → check_value c (some a) ≡ ok tt → c.column_type ≡ a
unfolding check_value
type_of_check c a h = elim (Bool-cases (same_type a c.column_type)) [
  | inl p ↦ same_type-eq a c.column_type p
  | inr p ↦ ground (arith, p, h)
]

null_allowed : (c : Column) → check_value c none ≡ ok tt → c.nullable ≡ true
unfolding check_value
null_allowed c h = ground (arith, h)

Suits-of_check : (c : Column) (v : Value) → check_value c (datatype v) ≡ ok tt → Suits c v
unfolding datatype
Suits-of_check c Value.null h = null_allowed c h
Suits-of_check c (Value.boolean x) h = type_of_check c DataType.boolean h
Suits-of_check c (Value.integer x) h = type_of_check c DataType.integer h
Suits-of_check c (Value.float x) h = type_of_check c DataType.float h
Suits-of_check c (Value.string x) h = type_of_check c DataType.string h

check_of_Suits : (c : Column) (v : Value) → Suits c v → check_value c (datatype v) ≡ ok tt
unfolding check_value datatype
check_of_Suits c Value.null h = rw h
check_of_Suits c (Value.boolean x) h = rw h
check_of_Suits c (Value.integer x) h = rw h
check_of_Suits c (Value.float x) h = rw h
check_of_Suits c (Value.string x) h = rw h

-- The check of `create_row` accepts exactly the rows that suit the columns of the table.
pub check_row-RowSuits :
    (cs : List Column) (row : Row)
    → (check_row cs row ≡ ok tt → RowSuits cs row) × (RowSuits cs row → check_row cs row ≡ ok tt)
unfolding check_row
check_row-RowSuits [] row = (λ h. tt, λ h. refl)
check_row-RowSuits (c ∷ cs) [] = (λ h. cc, λ h. absurd h)
check_row-RowSuits (c ∷ cs) (v ∷ vs) =
    let (there, back) = check_row-RowSuits cs vs in
    (go (check_value c (datatype v)) refl there, λ h. rw (check_of_Suits c v h.0) (back h.1))
  where
    go :
        (r : Outcome (Unit {0}))
        → check_value c (datatype v) ≡ r
        → (check_row cs vs ≡ ok tt → RowSuits cs vs)
        → (r >> check_row cs vs) ≡ ok tt
        → Suits c v × RowSuits cs vs
    go (ok x) e ih k = (Suits-of_check c v e, ih k)
    go (err x) e ih k = cc
    go panic e ih k = cc
