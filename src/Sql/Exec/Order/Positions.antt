-- ===== src/Sql/Exec/Order/Positions.antt =====
-- `order_positions`, the places of the columns of an `ORDER BY`.
use sqlprimer.Prelude.{
  ℕ, ◌≡◌, ◌≢◌, ◌⊎◌, inl, inr, refl, Option, none, some, List, [], ◌∷◌, All, ok, err, internal,
}
use sqlprimer.Bytes.{Bytes}
use sqlprimer.Sql.Expr.{position}
use sqlprimer.Sql.Statement.{OrderDirection}
use sqlprimer.Sql.Exec.Order.{order_positions}

module _ (columns : List Bytes) where
  -- Each column of the order, with its place and its direction.
  abbrev pub Stands : List (Bytes × OrderDirection) → List (ℕ × OrderDirection) → Type 0
  Stands [] [] = Unit
  Stands ((name, direction) ∷ order_by) ((i, d) ∷ positions) =
      (position name columns ≡ some i) × (direction ≡ d) × Stands order_by positions
  Stands _ _ = ⊥

  -- Whether all names of the order are columns.
  pub order_positions_cases :
      (order_by : List (Bytes × OrderDirection))
      → ((¬ All (λ o. position o.0 columns ≢ none) order_by)
          × (order_positions columns order_by ≡ err internal))
        ⊎ (All (λ o. position o.0 columns ≢ none) order_by
            × ((positions : List (ℕ × OrderDirection)) × (order_positions columns order_by
                  ≡ ok positions)
                × Stands order_by positions))
  unfolding order_positions
  order_positions_cases [] = inr (tt, ([], refl, tt))
  order_positions_cases ((name, direction) ∷ order_by) =
      go (position name columns) refl (order_positions_cases order_by)
    where
      go :
          (o : Option ℕ)
          → position name columns ≡ o
          → ((¬ All (λ o. position o.0 columns ≢ none) order_by)
              × (order_positions columns order_by ≡ err internal))
            ⊎ (All (λ o. position o.0 columns ≢ none) order_by
                × ((positions : List (ℕ × OrderDirection)) × (order_positions columns order_by
                      ≡ ok positions)
                    × Stands order_by positions))
          → ((¬ All (λ o. position o.0 columns ≢ none) ((name, direction) ∷ order_by))
              × (order_positions columns ((name, direction) ∷ order_by) ≡ err internal))
            ⊎ (All (λ o. position o.0 columns ≢ none) ((name, direction) ∷ order_by)
                × ((positions : List (ℕ × OrderDirection)) × (order_positions columns
                        ((name, direction) ∷ order_by)
                      ≡ ok positions)
                    × Stands ((name, direction) ∷ order_by) positions))
      go none e rest = inl ((λ all. all.0 e), rw (e, order_positions) refl)
      go (some pos) e (inl (bad, r)) = inl ((λ all. bad all.1), rw (e, order_positions) (rw r refl))
      go (some pos) e (inr (all, (positions, r, st))) = inr (
        ((λ q. cc), all),
        ((pos, direction) ∷ positions, rw (e, order_positions) (rw r refl), (e, refl, st)),
      )
