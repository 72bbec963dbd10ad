-- ===== src/Sql/Exec/Join/Agree.antt =====
-- The hash join beside the nested loop join (sql/executor/join.rs).
use sqlprimer.Prelude.{
  ℕ, ◌≡◌, refl, ap, sym, ◌∙◌, Bool, true, false, ◌&&◌, ◌||◌, not, some, List, [], ◌∷◌, ◌++◌,
  get_elem?, All, Ordering, Outcome, ok, err, panic, ◌>>=◌, if◌then◌else◌,
}
use sqlprimer.Bytes.{Bytes}
use sqlprimer.Sql.Numbers.{Floats}
use sqlprimer.Sql.Value.{Value, Row, equal, is_eq}
use sqlprimer.Sql.Value.Order.{flip, compare_int-flip, compare_bool-flip, cmp-flip}
use sqlprimer.Sql.Expr.{Expression, evaluate_expr, compare_values, field_value, position, index_row}
use sqlprimer.Sql.Exec.{ResultSet}
use sqlprimer.Sql.Exec.Join.{
  decide, join_pair, join_right, join_left, joined, nulls, nested_loop_join, parse_join,
  parse_join_expr, same_key, matches, pair_all, pairs_or_nulls, probe, check_column_at, column_of,
  hash_rows, hash_join,
}

-- Two keys that both joins compare alike: of one type that is not a float, or just one of them NULL.
abbrev pub Alike : Value → Value → Type 0
Alike Value.null Value.null = ⊥
Alike Value.null _ = Unit
Alike _ Value.null = Unit
Alike (Value.boolean x) (Value.boolean y) = Unit
Alike (Value.integer x) (Value.integer y) = Unit
Alike (Value.string x) (Value.string y) = Unit
Alike _ _ = ⊥

is_eq-flip : (o : Ordering) → is_eq (some (flip o)) ≡ is_eq (some o)
is_eq-flip Ordering.lt = refl
is_eq-flip Ordering.eq = refl
is_eq-flip Ordering.gt = refl

eq_of_flip : (o p : Ordering) → p ≡ flip o → is_eq (some o) ≡ is_eq (some p)
eq_of_flip o p h = sym (is_eq-flip o) ∙ ap (λ x. is_eq (some x)) (sym h)

decide-Alike :
    (f : Floats) (x y : Value) → Alike x y → decide (compare_values f is_eq x y) ≡ ok (same_key y x)
unfolding decide compare_values same_key equal
decide-Alike f Value.null Value.null h = absurd h
decide-Alike f Value.null (Value.boolean y) h = refl
decide-Alike f Value.null (Value.integer y) h = refl
decide-Alike f Value.null (Value.float y) h = refl
decide-Alike f Value.null (Value.string y) h = refl
decide-Alike f (Value.boolean x) Value.null h = refl
decide-Alike f (Value.integer x) Value.null h = refl
decide-Alike f (Value.float x) Value.null h = refl
decide-Alike f (Value.string x) Value.null h = refl
decide-Alike f (Value.boolean x) (Value.boolean y) h =
    ap ok (eq_of_flip _ _ (compare_bool-flip x y))
decide-Alike f (Value.integer x) (Value.integer y) h = ap ok (eq_of_flip _ _ (compare_int-flip x y))
decide-Alike f (Value.string x) (Value.string y) h = ap ok (eq_of_flip _ _ (cmp-flip x y))
decide-Alike f _ _ h = absurd h

index_row_at : (row : Row) (i : ℕ) (v : Value) → get_elem? row i ≡ some v → index_row row i ≡ ok v
unfolding index_row
index_row_at row i v e = rw (e, index_row)

field_value_at :
    (cols : List Bytes) (row : Row) (name : Bytes) (i : ℕ) (v : Value)
    → position name cols ≡ some i
    → get_elem? row i ≡ some v
    → field_value cols row name ≡ ok v
unfolding field_value
field_value_at cols row name i v p e = rw (p, field_value) (index_row_at row i v e)

abbrev some_found : List Row → Bool
some_found [] = false
some_found (r ∷ rs) = true

nothing_found :
    (lrow : Row)
    → ◌≡◌ {A = Outcome (List Row × Bool)} (ok ([], false)) (ok (pair_all lrow [], false))
unfolding pair_all
nothing_found lrow = refl

column_of_at :
    (name : Bytes) (cols : List Bytes) (i : ℕ)
    → position name cols ≡ some i
    → column_of name cols ≡ ok i
column_of_at name cols i e = rw (e, column_of)

split_found :
    (lrow rrow : Row) (found : List Row) (k : Bool)
    → ◌≡◌ {A = Outcome (List Row × Bool)}
        (ok ((if k then (lrow ++ rrow) ∷ [] else []) ++ pair_all lrow found, k || some_found found))
        (ok (
          pair_all lrow (if k then rrow ∷ found else found),
          some_found (if k then rrow ∷ found else found),
        ))
unfolding pair_all
split_found lrow rrow found true = refl
split_found lrow rrow found false = refl

module _ (f : Floats) (a c : Bytes) (lcols rcols : List Bytes) (lpos rpos : ℕ)
    (at_left : position a lcols ≡ some lpos) (at_right : position c rcols ≡ some rpos) where
  abbrev condition : Expression
  condition = Expression.equal (Expression.field a) (Expression.field c)

  -- A right row whose key a left key compares with.
  abbrev pub KeyAlike : Value → Row → Type 0
  KeyAlike x rrow = (y : Value) × (get_elem? rrow rpos ≡ some y) × Alike x y

  -- A left row whose key compares with all right keys.
  abbrev pub RowAlike : List Row → Row → Type 0
  RowAlike rrows lrow = (x : Value) × (get_elem? lrow lpos ≡ some x) × All (KeyAlike x) rrows

  condition_value :
      (lrow rrow : Row) (x y : Value)
      → get_elem? lrow lpos ≡ some x
      → get_elem? rrow rpos ≡ some y
      → evaluate_expr f condition lcols lrow rcols rrow ≡ compare_values f is_eq x y
  unfolding evaluate_expr
  condition_value lrow rrow x y p q =
      rw (field_value_at lcols lrow a lpos x at_left p)
        (rw (field_value_at rcols rrow c rpos y at_right q))

  join_pair_lem :
      (lrow rrow : Row) (x y : Value)
      → get_elem? lrow lpos ≡ some x
      → get_elem? rrow rpos ≡ some y
      → Alike x y
      → join_pair f lcols rcols (some condition) lrow rrow
        ≡ ok (if same_key y x then (lrow ++ rrow) ∷ [] else [], same_key y x)
  unfolding join_pair
  join_pair_lem lrow rrow x y p q h = rw (condition_value lrow rrow x y p q, decide-Alike f x y h)

  join_right_lem :
      (lrow : Row) (x : Value) (rrows : List Row)
      → get_elem? lrow lpos ≡ some x
      → All (KeyAlike x) rrows
      → (found : List Row) × (matches rpos x rrows ≡ ok found)
        × (join_right f lcols rcols (some condition) lrow rrows
            ≡ ok (pair_all lrow found, some_found found))
  unfolding join_right matches
  join_right_lem lrow x [] p all = ([], refl, nothing_found lrow)
  join_right_lem lrow x (rrow ∷ rrows) p all =
      let (y, q, h) = all.0 in
      let (found, m, j) = join_right_lem lrow x rrows p all.1 in
      (
        if same_key y x then rrow ∷ found else found,
        rw (index_row_at rrow rpos y q, m),
        rw (join_pair_lem lrow rrow x y p q h, j) (split_found lrow rrow found (same_key y x)),
      )

  -- What a left row adds, both where it has matches and where it has none.
  add_row :
      (outer : Bool) (lrow : Row) (found rows : List Row)
      → pair_all lrow found
          ++ (if outer && not (some_found found) then (lrow ++ nulls rcols) ∷ rows else rows)
        ≡ pairs_or_nulls outer rcols lrow found ++ rows
  unfolding pair_all
  add_row true lrow [] rows = refl
  add_row false lrow [] rows = refl
  add_row true lrow (r ∷ rs) rows = refl
  add_row false lrow (r ∷ rs) rows = refl

  join_left_lem :
      (outer : Bool) (lrows rrows : List Row)
      → All (RowAlike rrows) lrows
      → join_left f lcols rcols (some condition) outer lrows rrows
        ≡ probe outer rcols lpos rpos rrows lrows
  unfolding join_left probe
  join_left_lem outer [] rrows all = refl
  join_left_lem outer (lrow ∷ lrows) rrows all =
      let (x, p, keys) = all.0 in
      let (found, m, j) = join_right_lem lrow x rrows p keys in
      rw j (
        rw (index_row_at lrow lpos x p) (
          rw m (
            rw (join_left_lem outer lrows rrows all.1)
              (go outer lrow found (probe outer rcols lpos rpos rrows lrows)))))
    where
      go :
          (outer : Bool) (lrow : Row) (found : List Row) (o : Outcome (List Row))
          → (o >>= λ rows. ok (
              pair_all lrow found
              ++ (if outer && not (some_found found) then (lrow ++ nulls rcols) ∷ rows else rows)))
            ≡ (o >>= λ rows. ok (pairs_or_nulls outer rcols lrow found ++ rows))
      go outer lrow found (ok rows) = ap ok (add_row outer lrow found rows)
      go outer lrow found (err e) = refl
      go outer lrow found panic = refl

  check_column_lem :
      (rrows : List Row)
      → All (λ rrow. (y : Value) × (get_elem? rrow rpos ≡ some y)) rrows
      → check_column_at rpos rrows ≡ ok tt
  unfolding check_column_at
  check_column_lem [] all = refl
  check_column_lem (rrow ∷ rrows) all =
      rw (index_row_at rrow rpos all.0.0 all.0.1) (check_column_lem rrows all.1)

  condition_names : parse_join (some condition) ≡ ok (some (a, c))
  unfolding parse_join parse_join_expr
  condition_names = refl

  hash_rows_lem :
      (outer : Bool) (lrows rrows : List Row)
      → All (λ rrow. (y : Value) × (get_elem? rrow rpos ≡ some y)) rrows
      → hash_rows outer lcols rcols lrows rrows (some (a, c))
        ≡ probe outer rcols lpos rpos rrows lrows
  unfolding hash_rows
  hash_rows_lem outer lrows rrows right =
      ap
        (λ r. r >>= λ at. check_column_at at rrows >>= λ u.
          column_of a lcols >>= λ l. probe outer rcols l at rrows lrows)
        (column_of_at c rcols rpos at_right)
      ∙ ap (λ r. r >>= λ u. column_of a lcols >>= λ l. probe outer rcols l rpos rrows lrows)
          (check_column_lem rrows right)
      ∙ ap (λ r. r >>= λ l. probe outer rcols l rpos rrows lrows)
          (column_of_at a lcols lpos at_left)

  -- For a join of two tables on one column of each, whose rows have that column, and in which each
  -- left key is of the type of each right key and no float, or just one of the two is NULL: the hash
  -- join and the nested loop join give the same result, inner or outer.
  pub hash_join-nested_loop_join :
      (outer : Bool) (lrows rrows : List Row)
      → All (RowAlike rrows) lrows
      → All (λ rrow. (y : Value) × (get_elem? rrow rpos ≡ some y)) rrows
      → hash_join (some condition) outer (ResultSet.scan lcols lrows) (ResultSet.scan rcols rrows)
        ≡ nested_loop_join f
            (some condition)
            outer
            (ResultSet.scan lcols lrows)
            (ResultSet.scan rcols rrows)
  unfolding hash_join nested_loop_join
  hash_join-nested_loop_join outer lrows rrows all right = rw condition_names (
      ap (joined (lcols ++ rcols))
        (hash_rows_lem outer lrows rrows right ∙ sym (join_left_lem outer lrows rrows all)))
