-- ===== src/Sql/Exec/Sort.antt =====
-- `sort_by` of the standard library, with a comparison that may panic.
pub mod Insertion
use mathlib.Core.List.{Perm}
use sqlprimer.Prelude.{◌≡◌, ◌≢◌, List, [], ◌∷◌, All, Ordering, Outcome, ok}
use sqlprimer.Sql.Value.Order.{flip}

-- What the library's sort does with a comparison: it gives a list, or panics.
pub record Sorter : Type 1 where
  pub sort_by : {A : Type 0} → (A → A → Outcome Ordering) → List A → Outcome (List A)

module _ {A : Type 0} (order : A → A → Outcome Ordering) where
  -- No element stands right before a smaller one.
  abbrev pub IsSorted : List A → Type 0
  IsSorted [] = Unit
  IsSorted (x ∷ []) = Unit
  IsSorted (x ∷ y ∷ ys) = (order x y ≢ ok Ordering.gt) × IsSorted (y ∷ ys)

  -- The comparison is a total order of the elements that are `P`: each two compare, the other way
  -- round with the opposite answer, and it is transitive.
  pub record IsTotal (P : A → Type 0) : Type 0 where
    pub compares :
        (x y : A) → P x → P y → (o : Ordering) × (order x y ≡ ok o) × (order y x ≡ ok (flip o))
    pub transitive :
        (x y z : A)
        → P x
        → P y
        → P z
        → order x y ≢ ok Ordering.gt
        → order y z ≢ ok Ordering.gt
        → order x z ≢ ok Ordering.gt

-- What its documentation says: with a total order of its elements the list is sorted. It says
-- nothing of any other comparison.
pub record IsSorter (s : Sorter) : Type 1 where
  pub sorts :
      {A : Type 0} (order : A → A → Outcome Ordering) (P : A → Type 0) (xs : List A)
      → IsTotal order P
      → All P xs
      → (ys : List A) × (s.sort_by order xs ≡ ok ys) × Perm ys xs × All P ys × IsSorted order ys
