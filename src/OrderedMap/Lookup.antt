-- ===== src/OrderedMap/Lookup.antt =====
-- What a lookup finds after each operation.
use sqlprimer.Prelude.{
  Ordering, ◌≡◌, ◌≢◌, Bool, true, false, none, some, [], ◌∷◌, if◌then◌else◌, arith,
}
use sqlprimer.Bytes.{Bytes, cmp}
use sqlprimer.Bytes.Order.{cmp_refl, eq_of_cmp}
use sqlprimer.OrderedMap.{Map, lookup, insert, remove, keep}

-- Whether two keys are the same.
abbrev pub same : Bytes → Bytes → Bool
same j k = elim (cmp j k) [ Ordering.eq ↦ true | _ ↦ false ]

pub same_refl : (k : Bytes) → same k k ≡ true
same_refl k = ground (arith, cmp_refl k)

pub same-ne : (j k : Bytes) → j ≢ k → same j k ≡ false
same-ne j k h = ground (arith, eq_of_cmp j k)

pub eq_of_same : (j k : Bytes) → same j k ≡ true → j ≡ k
eq_of_same j k h = ground (arith, eq_of_cmp j k)

module _ {ℓ} {V : Type ℓ} where
  pub lookup-insert :
      (j k : Bytes) (v : V) (m : Map V)
      → lookup j (insert k v m) ≡ (if same j k then some v else lookup j m)
  unfolding lookup insert
  lookup-insert j k v [] = ground arith
  lookup-insert j k v ((i, w) ∷ m) =
      ground (arith, lookup-insert j k v m, eq_of_cmp j k, eq_of_cmp j i, eq_of_cmp k i, cmp_refl j)

  pub lookup-remove :
      (j k : Bytes) (m : Map V) → lookup j (remove k m) ≡ (if same j k then none else lookup j m)
  unfolding lookup remove
  lookup-remove j k [] = ground arith
  lookup-remove j k ((i, w) ∷ m) =
      ground (arith, lookup-remove j k m, eq_of_cmp j k, eq_of_cmp j i, eq_of_cmp k i, cmp_refl j)

  pub lookup-keep :
      (p : Bytes → Bool) (j : Bytes) (m : Map V)
      → lookup j (keep p m) ≡ (if p j then lookup j m else none)
  unfolding lookup keep
  lookup-keep p j [] = ground arith
  lookup-keep p j ((i, w) ∷ m) = ground (arith, lookup-keep p j m, eq_of_cmp j i)

  pub lookup-insert_self : (k : Bytes) (v : V) (m : Map V) → lookup k (insert k v m) ≡ some v
  lookup-insert_self k v m = ground (arith, lookup-insert k k v m, cmp_refl k)

  pub lookup-insert_ne :
      (j k : Bytes) (v : V) (m : Map V) → j ≢ k → lookup j (insert k v m) ≡ lookup j m
  lookup-insert_ne j k v m h = ground (arith, lookup-insert j k v m, eq_of_cmp j k)

  pub lookup-remove_self : (k : Bytes) (m : Map V) → lookup k (remove k m) ≡ none
  lookup-remove_self k m = ground (arith, lookup-remove k k m, cmp_refl k)

  pub lookup-remove_ne : (j k : Bytes) (m : Map V) → j ≢ k → lookup j (remove k m) ≡ lookup j m
  lookup-remove_ne j k m h = ground (arith, lookup-remove j k m, eq_of_cmp j k)

  pub lookup-head : (k : Bytes) (v : V) (m : Map V) → lookup k ((k, v) ∷ m) ≡ some v
  unfolding lookup
  lookup-head k v m = ground (arith, cmp_refl k)

  pub lookup-tail : (k j : Bytes) (v : V) (m : Map V) → k ≢ j → lookup k ((j, v) ∷ m) ≡ lookup k m
  unfolding lookup
  lookup-tail k j v m h = ground (arith, eq_of_cmp k j)
