-- ===== src/Sql/Exec/Mutation/Assign.antt =====
-- What an update makes of a row.
use sqlprimer.Prelude.{
  ◌≡◌, ◌⊎◌, inl, inr, refl, subst, Option, none, some, List, [], ◌∷◌, Outcome, ok, err, panic,
  arith,
}
use sqlprimer.Bytes.{Bytes}
use sqlprimer.OrderedMap.{Map, lookup}
use sqlprimer.Sql.Value.{Value, Row}
use sqlprimer.Sql.Expr.{Expression, from_expression}
use sqlprimer.Sql.Exec.Mutation.{assign}

-- A row after an update: under each column that is assigned to, the value of its expression; under
-- every other, and past the columns, what stood there.
abbrev pub IsUpdated : Map Expression → List Bytes → Row → Row → Type 0
IsUpdated changes [] row out = row ≡ out
IsUpdated changes (c ∷ cs) [] out = (lookup c changes ≡ none) × IsUpdated changes cs [] out
IsUpdated changes (c ∷ cs) (v ∷ vs) [] = ⊥
IsUpdated changes (c ∷ cs) (v ∷ vs) (w ∷ ws) =
    (((lookup c changes ≡ none) × (v ≡ w))
      ⊎ ((e : Expression) × (lookup c changes ≡ some e) × (from_expression e ≡ ok w)))
    × IsUpdated changes cs vs ws

rest_of_ok :
    (r : Outcome Row) (w : Value) (out : Row)
    → elim r [ ok ws ↦ ok (w ∷ ws) | err e ↦ err e | panic ↦ panic ] ≡ ok out
    → (ws : Row) × (r ≡ ok ws) × (w ∷ ws ≡ out)
rest_of_ok (ok ws) w out h = (ws, refl, cc)
rest_of_ok (err e) w out h = cc
rest_of_ok panic w out h = cc

-- Where the assignment of an update succeeds, its result is the row updated by the columns that it
-- assigns to.
pub assign-IsUpdated :
    (changes : Map Expression) (cols : List Bytes) (row out : Row)
    → assign changes cols row ≡ ok out
    → IsUpdated changes cols row out
unfolding assign
assign-IsUpdated changes [] row out h = cc
assign-IsUpdated changes (c ∷ cs) [] out h =
    go (lookup c changes) refl (assign-IsUpdated changes cs [] out)
  where
    go :
        (o : Option Expression)
        → lookup c changes ≡ o
        → (assign changes cs [] ≡ ok out → IsUpdated changes cs [] out)
        → (lookup c changes ≡ none) × IsUpdated changes cs [] out
    go none e ih = (e, ih (ground (arith, e, h)))
    go (some x) e ih = ground (arith, e, h)
assign-IsUpdated changes (c ∷ cs) (v ∷ vs) out h =
    go (lookup c changes) refl (assign-IsUpdated changes cs vs)
  where
    updated_by :
        (w : Value)
        → (((lookup c changes ≡ none) × (v ≡ w))
            ⊎ ((e : Expression) × (lookup c changes ≡ some e) × (from_expression e ≡ ok w)))
        → ((ws : Row) → assign changes cs vs ≡ ok ws → IsUpdated changes cs vs ws)
        → elim (assign changes cs vs) [ ok ws ↦ ok (w ∷ ws) | err e ↦ err e | panic ↦ panic ]
          ≡ ok out
        → IsUpdated changes (c ∷ cs) (v ∷ vs) out
    updated_by w one ih k =
        let (ws, p, q) = rest_of_ok (assign changes cs vs) w out k in
        subst (IsUpdated changes (c ∷ cs) (v ∷ vs)) q (one, ih ws p)

    value :
        (x : Expression)
        → lookup c changes ≡ some x
        → (r : Outcome Value) → from_expression x ≡ r
        → ((ws : Row) → assign changes cs vs ≡ ok ws → IsUpdated changes cs vs ws)
        → IsUpdated changes (c ∷ cs) (v ∷ vs) out
    value x e (ok w) q ih = updated_by w (inr (x, e, q)) ih (ground (arith, e, q, h))
    value x e (err y) q ih = ground (arith, e, q, h)
    value x e panic q ih = ground (arith, e, q, h)

    go :
        (o : Option Expression)
        → lookup c changes ≡ o
        → ((ws : Row) → assign changes cs vs ≡ ok ws → IsUpdated changes cs vs ws)
        → IsUpdated changes (c ∷ cs) (v ∷ vs) out
    go none e ih = updated_by v (inl (e, refl)) ih (ground (arith, e, h))
    go (some x) e ih = value x e (from_expression x) refl ih
