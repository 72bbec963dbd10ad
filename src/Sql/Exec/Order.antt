-- ===== src/Sql/Exec/Order.antt =====
-- `Order::execute` of sql/executor/query.rs.
pub mod Lexicographic
pub mod Positions
pub mod Sorted
use mathlib.Core.List.{Perm}
use sqlprimer.Prelude.{
  ℕ, ◌<◌, ◌≤◌, ◌≡◌, ◌≢◌, ◌⊎◌, inl, inr, refl, Option, none, some, List, [], ◌∷◌, All, length,
  Ordering, Outcome, ok, err, internal, ◌>>=◌, arith,
}
use sqlprimer.Bytes.{Bytes}
use sqlprimer.Sql.Numbers.{Floats}
use sqlprimer.Sql.Value.{Row, partial_cmp}
use sqlprimer.Sql.Value.Order.{flip, flip_some, partial_cmp-flip}
use sqlprimer.Sql.Expr.{position, index_row}
use sqlprimer.Sql.Expr.Total.{position-lt, index_row-lt}
use sqlprimer.Sql.Statement.{OrderDirection}
use sqlprimer.Sql.Exec.{ResultSet}
use sqlprimer.Sql.Exec.Sort.{Sorter}

-- Where the columns of the order stand.
unfoldable pub order_positions :
    List Bytes → List (Bytes × OrderDirection) → Outcome (List (ℕ × OrderDirection))
order_positions columns [] = ok []
order_positions columns ((name, direction) ∷ order_by) = elim (position name columns) [
  | none ↦ err internal
  | some pos ↦ do rest ← order_positions columns order_by; ok ((pos, direction) ∷ rest)
]

-- Values that are equal or do not compare leave the decision to the columns behind them.
abbrev pub directed : OrderDirection → Option Ordering → Outcome Ordering → Outcome Ordering
directed direction none rest = rest
directed direction (some Ordering.eq) rest = rest
directed OrderDirection.asc (some o) rest = ok o
directed OrderDirection.desc (some o) rest = ok (flip o)

module _ (f : Floats) where
  -- The comparison of two rows; `row1[i]` panics out of range.
  unfoldable pub compare_rows : List (ℕ × OrderDirection) → Row → Row → Outcome Ordering
  compare_rows [] row1 row2 = ok Ordering.eq
  compare_rows ((i, direction) ∷ cols) row1 row2 =
      let rest = compare_rows cols row1 row2 in
      index_row row1 i >>= λ a.
      index_row row2 i >>= λ b. directed direction (partial_cmp f a b) rest

  module _ (s : Sorter) where
    unfoldable pub order_rows : List (Bytes × OrderDirection) → ResultSet → Outcome ResultSet
    order_rows order_by (ResultSet.scan columns rows) = do
      positions ← order_positions columns order_by
      sorted ← s.sort_by (compare_rows positions) rows
      ok (ResultSet.scan columns sorted)
    order_rows order_by _ = err internal
