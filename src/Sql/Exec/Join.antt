-- ===== src/Sql/Exec/Join.antt =====
-- sql/executor/join.rs: the two joins.
pub mod Agree
use sqlprimer.Prelude.{
  ℕ, Bool, true, false, ◌&&◌, ◌||◌, not, Option, none, some, List, [], ◌∷◌, ◌++◌, Outcome, ok, err,
  panic, internal, ◌>>=◌, if◌then◌else◌, ◌==◌,
}
use sqlprimer.Bytes.{Bytes}
use sqlprimer.Sql.Numbers.{Floats}
use sqlprimer.Sql.Value.{Value, Row, equal}
use sqlprimer.Sql.Expr.{Expression, evaluate_expr, position, index_row}
use sqlprimer.Sql.Exec.{ResultSet}

-- As many NULLs as there are columns.
unfoldable pub nulls : List Bytes → Row
nulls [] = []
nulls (c ∷ cs) = Value.null ∷ nulls cs

-- What a join condition or a filter makes of its value.
unfoldable pub decide : Outcome Value → Outcome Bool
decide (ok Value.null) = ok false
decide (ok (Value.boolean b)) = ok b
decide (ok _) = err internal
decide (err e) = err e
decide panic = panic

module _ (f : Floats) (lcols rcols : List Bytes) where
  -- The round of the inner loop: the row that it adds, and whether it sets `mathched`.
  unfoldable pub join_pair : Option Expression → Row → Row → Outcome (List Row × Bool)
  unfolding decide
  join_pair none lrow rrow = ok ((lrow ++ rrow) ∷ [], false)
  join_pair (some expr) lrow rrow = do
    matched ← decide (evaluate_expr f expr lcols lrow rcols rrow)
    ok (if matched then (lrow ++ rrow) ∷ [] else [], matched)

  -- The inner loop.
  unfoldable pub join_right : Option Expression → Row → List Row → Outcome (List Row × Bool)
  unfolding join_pair
  join_right predicate lrow [] = ok ([], false)
  join_right predicate lrow (rrow ∷ rrows) = do
    (new, matched) ← join_pair predicate lrow rrow
    (rows, later) ← join_right predicate lrow rrows
    ok (new ++ rows, matched || later)

  -- The outer loop.
  unfoldable pub join_left : Option Expression → Bool → List Row → List Row → Outcome (List Row)
  unfolding join_right
  join_left predicate outer [] rrows = ok []
  join_left predicate outer (lrow ∷ lrows) rrows = do
    (new, matched) ← join_right predicate lrow rrows
    rows ← join_left predicate outer lrows rrows
    ok (new ++ (if outer && not matched then (lrow ++ nulls rcols) ∷ rows else rows))

abbrev joined : List Bytes → Outcome (List Row) → Outcome ResultSet
joined cols (ok rows) = ok (ResultSet.scan cols rows)
joined cols (err e) = err e
joined cols panic = panic

-- `NestedLoopJoin::execute`, on what its two sources gave.
unfoldable pub nested_loop_join :
    Floats → Option Expression → Bool → ResultSet → ResultSet → Outcome ResultSet
unfolding join_left
nested_loop_join f predicate outer (ResultSet.scan lcols lrows) (ResultSet.scan rcols rrows) =
    joined (lcols ++ rcols) (join_left f lcols rcols predicate outer lrows rrows)
nested_loop_join f predicate outer _ _ = err internal

-- `parse_join`, where `unwrap` panics.
abbrev pub both_names :
    Outcome (Option (Bytes × Bytes))
    → Outcome (Option (Bytes × Bytes))
    → Outcome (Option (Bytes × Bytes))
both_names panic _ = panic
both_names (err e) _ = err e
both_names (ok _) panic = panic
both_names (ok _) (err e) = err e
both_names (ok none) (ok _) = panic
both_names (ok (some _)) (ok none) = panic
both_names (ok (some l)) (ok (some r)) = ok (some (l.0, r.0))

unfoldable pub parse_join_expr : Expression → Outcome (Option (Bytes × Bytes))
parse_join_expr (Expression.field name) = ok (some (name, []))
parse_join_expr (Expression.equal l r) = both_names (parse_join_expr l) (parse_join_expr r)
parse_join_expr _ = ok none

unfoldable pub parse_join : Option Expression → Outcome (Option (Bytes × Bytes))
parse_join none = ok none
parse_join (some expr) = parse_join_expr expr

-- Whether a key of the `HashMap` is found by another: equal, and of one hash. The hash of a float
-- is that of its bits.
unfoldable pub same_key : Value → Value → Bool
unfolding equal
same_key (Value.float x) (Value.float y) = (x == y) && equal (Value.float x) (Value.float y)
same_key x y = equal x y

-- The right rows that the map holds for a key, in their order.
unfoldable pub matches : ℕ → Value → List Row → Outcome (List Row)
unfolding same_key
matches pos key [] = ok []
matches pos key (row ∷ rows) = do
  v ← index_row row pos
  found ← matches pos key rows
  ok (if same_key v key then row ∷ found else found)

unfoldable pub pair_all : Row → List Row → List Row
pair_all lrow [] = []
pair_all lrow (rrow ∷ rrows) = (lrow ++ rrow) ∷ pair_all lrow rrows

-- A key that the map does not hold.
abbrev pub unmatched : Bool → List Bytes → Row → List Row
unmatched true rcols lrow = (lrow ++ nulls rcols) ∷ []
unmatched false rcols lrow = []

abbrev pub pairs_or_nulls : Bool → List Bytes → Row → List Row → List Row
pairs_or_nulls outer rcols lrow [] = unmatched outer rcols lrow
pairs_or_nulls outer rcols lrow (r ∷ rs) = pair_all lrow (r ∷ rs)

unfoldable pub probe : Bool → List Bytes → ℕ → ℕ → List Row → List Row → Outcome (List Row)
unfolding matches pair_all
probe outer rcols lpos rpos rrows [] = ok []
probe outer rcols lpos rpos rrows (lrow ∷ lrows) = do
  key ← index_row lrow lpos
  found ← matches rpos key rrows
  rows ← probe outer rcols lpos rpos rrows lrows
  ok (pairs_or_nulls outer rcols lrow found ++ rows)

-- Every right row has the join column: the map is built before a left row is looked at.
unfoldable pub check_column_at : ℕ → List Row → Outcome (Unit {0})
check_column_at pos [] = ok tt
check_column_at pos (row ∷ rows) = index_row row pos >>= λ v. check_column_at pos rows

abbrev pub column_of : Bytes → List Bytes → Outcome ℕ
column_of name cols = elim (position name cols) [ some pos ↦ ok pos | none ↦ err internal ]

hash_rows :
    Bool
    → List Bytes
    → List Bytes
    → List Row
    → List Row
    → Option (Bytes × Bytes)
    → Outcome (List Row)
unfolding probe check_column_at
hash_rows outer lcols rcols lrows rrows none = err internal
hash_rows outer lcols rcols lrows rrows (some (lname, rname)) = column_of rname rcols >>= λ rpos.
    check_column_at rpos rrows >>= λ _.
    column_of lname lcols >>= λ lpos. probe outer rcols lpos rpos rrows lrows

-- `HashJoin::execute`, on what its two sources gave.
unfoldable pub hash_join : Option Expression → Bool → ResultSet → ResultSet → Outcome ResultSet
unfolding hash_rows parse_join
hash_join predicate outer (ResultSet.scan lcols lrows) (ResultSet.scan rcols rrows) =
    joined (lcols ++ rcols) (parse_join predicate >>= hash_rows outer lcols rcols lrows rrows)
hash_join predicate outer (ResultSet.scan lcols lrows) _ = ok (ResultSet.scan lcols [])
hash_join predicate outer _ _ = err internal
