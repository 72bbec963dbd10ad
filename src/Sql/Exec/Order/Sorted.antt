-- ===== src/Sql/Exec/Order/Sorted.antt =====
-- The rows that `Order::execute` of sql/executor/query.rs gives.
use mathlib.Core.List.{Perm}
use sqlprimer.Prelude.{
  subst, ℕ, ◌≡◌, ◌≢◌, ◌⊎◌, inl, inr, refl, ap, ◌∙◌, Option, none, some, List, [], ◌∷◌, All,
  get_elem?, Ordering, ok, err, internal,
}
use sqlprimer.Bytes.{Bytes}
use sqlprimer.Sql.Numbers.{Floats}
use sqlprimer.Sql.Value.{DataType, Value, Row, partial_cmp}
use sqlprimer.Sql.Value.Order.{flip, flip_some, partial_cmp-flip}
use sqlprimer.Sql.Value.Kinds.{OfKind, Follows, kinds-Chain}
use sqlprimer.Sql.Expr.{position, index_row}
use sqlprimer.Sql.Statement.{OrderDirection}
use sqlprimer.Sql.Exec.{ResultSet}
use sqlprimer.Sql.Exec.Sort.{Sorter, IsSorter, IsSorted, IsTotal}
use sqlprimer.Sql.Exec.Order.Positions.{Stands, order_positions_cases}
use sqlprimer.Sql.Exec.Order.Lexicographic.{
  turn, next_if_eq, turn-Follows, lexicographic, next_if_eq-flip, Follows-not_gt,
}
use sqlprimer.Sql.Exec.Order.{directed, compare_rows, order_rows}

abbrev KindAt : DataType → Option Value → Type 0
KindAt k none = ⊥
KindAt k (some v) = OfKind k v

abbrev KindIn : DataType → Row → Option ℕ → Type 0
KindIn k row none = Unit
KindIn k row (some i) = KindAt k (get_elem? row i)

-- A row has a value in a column, where there is one of the name, and it is of a type or NULL.
abbrev pub HasKind : DataType → Bytes → List Bytes → Row → Type 0
HasKind k name columns row = KindIn k row (position name columns)

index_row_at : (row : Row) (i : ℕ) (v : Value) → get_elem? row i ≡ some v → index_row row i ≡ ok v
unfolding index_row
index_row_at row i v e = rw (e, index_row) refl

value_of_HasKind :
    (k : DataType) (name : Bytes) (columns : List Bytes) (row : Row) (i : ℕ)
    → position name columns ≡ some i
    → HasKind k name columns row
    → (v : Value) × (get_elem? row i ≡ some v) × OfKind k v
value_of_HasKind k name columns row i e h = go (get_elem? row i) refl (subst (KindIn k row) e h)
  where
    go :
        (o : Option Value)
        → get_elem? row i ≡ o
        → KindAt k o
        → (v : Value) × (get_elem? row i ≡ some v) × OfKind k v
    go none q h = absurd h
    go (some v) q h = (v, q, h)

module _ (f : Floats) (columns : List Bytes) where
  -- The value of one row comes before that of another.
  abbrev pub Before : OrderDirection → Value → Value → Type 0
  Before OrderDirection.asc a b = partial_cmp f a b ≡ some Ordering.lt
  Before OrderDirection.desc a b = partial_cmp f a b ≡ some Ordering.gt

  -- Two rows in the order of `ORDER BY`: the first column of it in which they differ decides.
  abbrev pub InOrder : List (Bytes × OrderDirection) → Row → Row → Type 0
  InOrder [] row1 row2 = Unit
  InOrder ((name, direction) ∷ order_by) row1 row2 =
      (i : ℕ) × (a : Value) × (b : Value) × (position name columns ≡ some i)
      × (get_elem? row1 i ≡ some a)
      × (get_elem? row2 i ≡ some b)
      × (Before direction a b
          ⊎ ((partial_cmp f a b ≡ some Ordering.eq) × InOrder order_by row1 row2))

  -- Each row and the one behind it.
  abbrev pub AllInOrder : List (Bytes × OrderDirection) → List Row → Type 0
  AllInOrder order_by [] = Unit
  AllInOrder order_by (row ∷ []) = Unit
  AllInOrder order_by (row ∷ next ∷ rows) =
      InOrder order_by row next × AllInOrder order_by (next ∷ rows)

  -- The comparison of two rows by the first column and those behind it.
  compare_cons :
      (i : ℕ) (d : OrderDirection) (positions : List (ℕ × OrderDirection)) (row1 row2 : Row)
      (a b : Value) (o p : Ordering)
      → get_elem? row1 i ≡ some a
      → get_elem? row2 i ≡ some b
      → partial_cmp f a b ≡ some o
      → compare_rows f positions row1 row2 ≡ ok p
      → compare_rows f ((i, d) ∷ positions) row1 row2 ≡ ok (next_if_eq (turn d o) p)
  unfolding compare_rows
  compare_cons i d positions row1 row2 a b o p e g c r =
      rw (index_row_at row1 i a e, index_row_at row2 i b g) (rw c (go d o))
    where
      go :
          (d : OrderDirection) (o : Ordering)
          → directed d (some o) (compare_rows f positions row1 row2) ≡ ok (next_if_eq (turn d o) p)
      go OrderDirection.asc Ordering.eq = r
      go OrderDirection.desc Ordering.eq = r
      go OrderDirection.asc Ordering.lt = refl
      go OrderDirection.asc Ordering.gt = refl
      go OrderDirection.desc Ordering.lt = refl
      go OrderDirection.desc Ordering.gt = refl

  module _ (kinds : Bytes → DataType) where
    -- A row with a value of its kind in each column of the order.
    abbrev pub Fits : List (Bytes × OrderDirection) → Row → Type 0
    Fits order_by row = All (λ o. HasKind (kinds o.0) o.0 columns row) order_by

    abbrev Chain : List (ℕ × OrderDirection) → Row → Row → Row → Type 0
    Chain positions x y z =
        (o : Ordering) × (p : Ordering) × (r : Ordering) × (compare_rows f positions x y ≡ ok o)
        × (compare_rows f positions y z ≡ ok p)
        × (compare_rows f positions x z ≡ ok r)
        × Follows o p r

    rows-Chain :
        (order_by : List (Bytes × OrderDirection)) (positions : List (ℕ × OrderDirection))
        (x y z : Row)
        → Stands columns order_by positions
        → Fits order_by x
        → Fits order_by y
        → Fits order_by z
        → Chain positions x y z
    unfolding compare_rows
    rows-Chain [] [] x y z st h j k =
        (Ordering.eq, Ordering.eq, Ordering.eq, refl, refl, refl, refl)
    rows-Chain [] (e ∷ positions) x y z st h j k = absurd st
    rows-Chain (o ∷ order_by) [] x y z st h j k = absurd st
    rows-Chain ((name, direction) ∷ order_by) ((i, d) ∷ positions) x y z (e, q, st) h j k =
        let (a, ea, ka) = value_of_HasKind (kinds name) name columns x i e h.0 in
        let (b, eb, kb) = value_of_HasKind (kinds name) name columns y i e j.0 in
        let (c, ec, kc) = value_of_HasKind (kinds name) name columns z i e k.0 in
        let (o, p, r, ab, bc, ac, follows) = kinds-Chain f (kinds name) a b c ka kb kc in
        let (o', p', r', xy, yz, xz, follows') =
          rows-Chain order_by positions x y z st h.1 j.1 k.1 in
        (
          next_if_eq (turn d o) o',
          next_if_eq (turn d p) p',
          next_if_eq (turn d r) r',
          compare_cons i d positions x y a b o o' ea eb ab xy,
          compare_cons i d positions y z b c p p' eb ec bc yz,
          compare_cons i d positions x z a c r r' ea ec ac xz,
          lexicographic (turn d o) (turn d p) (turn d r) o' p' r' (turn-Follows d o p r follows)
              follows',
        )

    first_column :
        (order_by : List (Bytes × OrderDirection)) (positions : List (ℕ × OrderDirection))
        (x y : Row) (a b : Value) (direction d : OrderDirection)
        → direction ≡ d
        → (o o' : Ordering) → partial_cmp f a b ≡ some o
        → compare_rows f positions x y ≡ ok o'
        → next_if_eq (turn d o) o' ≢ Ordering.gt
        → (compare_rows f positions x y ≢ ok Ordering.gt → InOrder order_by x y)
        → Before direction a b ⊎ ((partial_cmp f a b ≡ some Ordering.eq) × InOrder order_by x y)
    first_column order_by positions x y a b OrderDirection.asc OrderDirection.asc q Ordering.eq o'
          ab xy n rest =
        inr (ab, rest (λ z. n (cc)))
    first_column order_by positions x y a b OrderDirection.desc OrderDirection.desc q Ordering.eq o'
          ab xy n rest =
        inr (ab, rest (λ z. n (cc)))
    first_column order_by positions x y a b OrderDirection.asc OrderDirection.asc q Ordering.lt o'
          ab xy n rest =
        inl ab
    first_column order_by positions x y a b OrderDirection.desc OrderDirection.desc q Ordering.gt o'
          ab xy n rest =
        inl ab
    first_column order_by positions x y a b OrderDirection.asc OrderDirection.asc q Ordering.gt o'
          ab xy n rest =
        absurd (n refl)
    first_column order_by positions x y a b OrderDirection.desc OrderDirection.desc q Ordering.lt o'
          ab xy n rest =
        absurd (n refl)
    first_column order_by positions x y a b OrderDirection.asc OrderDirection.desc q o o' ab xy n
          rest =
        absurd (cc)
    first_column order_by positions x y a b OrderDirection.desc OrderDirection.asc q o o' ab xy n
          rest =
        absurd (cc)

    -- Rows that the comparison does not exchange are in order.
    compare-InOrder :
        (order_by : List (Bytes × OrderDirection)) (positions : List (ℕ × OrderDirection))
        (x y : Row)
        → Stands columns order_by positions
        → Fits order_by x
        → Fits order_by y
        → compare_rows f positions x y ≢ ok Ordering.gt
        → InOrder order_by x y
    compare-InOrder [] [] x y st h j n = tt
    compare-InOrder [] (e ∷ positions) x y st h j n = absurd st
    compare-InOrder (o ∷ order_by) [] x y st h j n = absurd st
    compare-InOrder ((name, direction) ∷ order_by) ((i, d) ∷ positions) x y (e, q, st) h j n =
        let (a, ea, ka) = value_of_HasKind (kinds name) name columns x i e h.0 in
        let (b, eb, kb) = value_of_HasKind (kinds name) name columns y i e j.0 in
        let (o, p, r, ab, bb, ab', follows) = kinds-Chain f (kinds name) a b b ka kb kb in
        let (o', p', r', xy, yy, xy', follows') =
          rows-Chain order_by positions x y y st h.1 j.1 j.1 in
        (
          i,
          a,
          b,
          e,
          ea,
          eb,
          first_column order_by positions x y a b direction d q o o' ab xy
              (λ z. n (compare_cons i d positions x y a b o o' ea eb ab xy ∙ ap ok z))
              (compare-InOrder order_by positions x y st h.1 j.1),
        )

    rows-flip :
        (order_by : List (Bytes × OrderDirection)) (positions : List (ℕ × OrderDirection))
        (x y : Row)
        → Stands columns order_by positions
        → Fits order_by x
        → Fits order_by y
        → (o : Ordering) × (compare_rows f positions x y ≡ ok o)
          × (compare_rows f positions y x ≡ ok (flip o))
    unfolding compare_rows
    rows-flip [] [] x y st h j = (Ordering.eq, refl, refl)
    rows-flip [] (e ∷ positions) x y st h j = absurd st
    rows-flip (o ∷ order_by) [] x y st h j = absurd st
    rows-flip ((name, direction) ∷ order_by) ((i, d) ∷ positions) x y (e, q, st) h j =
        let (a, ea, ka) = value_of_HasKind (kinds name) name columns x i e h.0 in
        let (b, eb, kb) = value_of_HasKind (kinds name) name columns y i e j.0 in
        let (o, p, r, ab, bb, ab', follows) = kinds-Chain f (kinds name) a b b ka kb kb in
        let (o', xy, yx) = rows-flip order_by positions x y st h.1 j.1 in
        let back : partial_cmp f b a ≡ some (flip o) = partial_cmp-flip f a b ∙ ap flip_some ab in
        (
          next_if_eq (turn d o) o',
          compare_cons i d positions x y a b o o' ea eb ab xy,
          compare_cons i d positions y x b a (flip o) (flip o') eb ea back yx
              ∙ ap ok (next_if_eq-flip d o o'),
        )

    rows-IsTotal :
        (order_by : List (Bytes × OrderDirection)) (positions : List (ℕ × OrderDirection))
        → Stands columns order_by positions
        → IsTotal (compare_rows f positions) (Fits order_by)
    rows-IsTotal order_by positions st = record {
      compares = λ x y h j. rows-flip order_by positions x y st h j;
      transitive = λ x y z h j k n m e.
          let (o, p, r, xy, yz, xz, follows) = rows-Chain order_by positions x y z st h j k in
          Follows-not_gt o p r follows (λ q. n (xy ∙ ap ok q)) (λ q. m (yz ∙ ap ok q)) (cc);
    }

    IsSorted-AllInOrder :
        (order_by : List (Bytes × OrderDirection)) (positions : List (ℕ × OrderDirection))
        (rows : List Row)
        → Stands columns order_by positions
        → All (Fits order_by) rows
        → IsSorted (compare_rows f positions) rows
        → AllInOrder order_by rows
    IsSorted-AllInOrder order_by positions [] st a s = tt
    IsSorted-AllInOrder order_by positions (x ∷ []) st a s = tt
    IsSorted-AllInOrder order_by positions (x ∷ y ∷ rows) st a s = (
      compare-InOrder order_by positions x y st a.0 a.1.0 s.0,
      IsSorted-AllInOrder order_by positions (y ∷ rows) st a.1 s.1,
    )

  -- With a library whose sort does what its documentation says, for rows that have, in each column
  -- of the order, a value of one type for the column, or NULL, and no NaN: `ORDER BY` is an internal
  -- error where a name is no column; otherwise it succeeds, and its rows are a permutation of those
  -- of its source in which each row and the one behind it are in order: in the first column of the
  -- order in which their values differ, the first row's is smaller for ASC, and greater for DESC.
  pub order_rows_lem :
      (s : Sorter) (kinds : Bytes → DataType) (order_by : List (Bytes × OrderDirection))
      (rows : List Row)
      → IsSorter s
      → All (Fits kinds order_by) rows
      → ((¬ All (λ o. position o.0 columns ≢ none) order_by)
          × (order_rows f s order_by (ResultSet.scan columns rows) ≡ err internal))
        ⊎ (All (λ o. position o.0 columns ≢ none) order_by
            × ((sorted : List Row) × (order_rows f s order_by (ResultSet.scan columns rows)
                  ≡ ok (ResultSet.scan columns sorted))
                × Perm sorted rows
                × AllInOrder order_by sorted))
  unfolding order_rows
  order_rows_lem s kinds order_by rows good h = elim (order_positions_cases columns order_by) [
    | inl (bad, e) ↦ inl (bad, rw e refl)
    | inr (all, (positions, e, st)) ↦
        let (sorted, r, perm, kept, is_sorted) =
          good.sorts (compare_rows f positions) (Fits kinds order_by) rows
            (rows-IsTotal kinds order_by positions st) h in
        inr (
          all,
          (
            sorted,
            rw e (rw r refl),
            perm,
            IsSorted-AllInOrder kinds order_by positions sorted st kept is_sorted,
          ),
        )
  ]
