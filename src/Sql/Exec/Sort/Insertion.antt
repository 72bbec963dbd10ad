-- ===== src/Sql/Exec/Sort/Insertion.antt =====
-- An insertion sort, as one that the library's sort may be.
use mathlib.Core.List.{Perm}
use mathlib.Core.List.Perm
use sqlprimer.Prelude.{◌≡◌, ◌≢◌, refl, List, [], ◌∷◌, All, Ordering, Outcome, ok, ◌>>=◌}
use sqlprimer.Sql.Value.Order.{flip}
use sqlprimer.Sql.Exec.Sort.{Sorter, IsSorted, IsSorter}

module _ {A : Type 0} (order : A → A → Outcome Ordering) where
  abbrev place : A → A → List A → Outcome (List A) → Ordering → Outcome (List A)
  place x y ys rest Ordering.gt = rest >>= λ zs. ok (y ∷ zs)
  place x y ys rest _ = ok (x ∷ y ∷ ys)

  unfoldable pub insert_by : A → List A → Outcome (List A)
  insert_by x [] = ok (x ∷ [])
  insert_by x (y ∷ ys) = let rest = insert_by x ys in order x y >>= place x y ys rest

  unfoldable pub insertion_sort : List A → Outcome (List A)
  insertion_sort [] = ok []
  insertion_sort (x ∷ xs) = do ys ← insertion_sort xs; insert_by x ys

  module _ (P : A → Type 0)
      (total : (x y : A)
        → P x
        → P y
        → (o : Ordering) × (order x y ≡ ok o) × (order y x ≡ ok (flip o))) where
    -- What may stand before a list that an element was inserted into.
    abbrev Before : A → List A → Type 0
    Before z [] = Unit
    Before z (y ∷ ys) = order z y ≢ ok Ordering.gt

    IsSorted-cons :
        (z : A) (ys : List A) → Before z ys → IsSorted order ys → IsSorted order (z ∷ ys)
    IsSorted-cons z [] b s = tt
    IsSorted-cons z (y ∷ ys) b s = (b, s)

    Before-head : (z y : A) (ys : List A) → IsSorted order (z ∷ ys) → Before z ys
    Before-head z y [] s = tt
    Before-head z y (w ∷ ys) s = s.0

    IsSorted-tail : (z : A) (ys : List A) → IsSorted order (z ∷ ys) → IsSorted order ys
    IsSorted-tail z [] s = tt
    IsSorted-tail z (y ∷ ys) s = s.1

    insert_by_lem :
        (x : A) (ys : List A)
        → P x
        → All P ys
        → IsSorted order ys
        → (zs : List A) × (insert_by x ys ≡ ok zs)
          × Perm zs (x ∷ ys)
          × IsSorted order zs
          × All P zs
          × ((z : A) → order z x ≢ ok Ordering.gt → Before z ys → Before z zs)
    unfolding insert_by
    insert_by_lem x [] p a s = (x ∷ [], refl, Perm.rfl, tt, (p, tt), λ z h b. h)
    insert_by_lem x (y ∷ ys) p a s =
        let (o, e, e') = total x y p a.0 in
        let (zs, r, perm, sorted, all, keeps) = insert_by_lem x ys p a.1 (IsSorted-tail y ys s) in
        go o e e' zs r perm sorted all keeps
      where
        go :
            (o : Ordering)
            → order x y ≡ ok o
            → order y x ≡ ok (flip o)
            → (zs : List A) → insert_by x ys ≡ ok zs
            → Perm zs (x ∷ ys)
            → IsSorted order zs
            → All P zs
            → ((z : A) → order z x ≢ ok Ordering.gt → Before z ys → Before z zs)
            → (zs' : List A) × (order x y >>= place x y ys (insert_by x ys) ≡ ok zs')
              × Perm zs' (x ∷ y ∷ ys)
              × IsSorted order zs'
              × All P zs'
              × ((z : A) → order z x ≢ ok Ordering.gt → order z y ≢ ok Ordering.gt → Before z zs')
        go Ordering.lt e e' zs r perm sorted all keeps =
            (x ∷ y ∷ ys, rw e refl, Perm.rfl, ((λ q. cc), s), (p, a), λ z h b. h)
        go Ordering.eq e e' zs r perm sorted all keeps =
            (x ∷ y ∷ ys, rw e refl, Perm.rfl, ((λ q. cc), s), (p, a), λ z h b. h)
        go Ordering.gt e e' zs r perm sorted all keeps = (
          y ∷ zs,
          rw (e, r) refl,
          Perm.trans (Perm.cons y perm) (Perm.swap x y ys),
          IsSorted-cons y zs (keeps y (λ q. cc) (Before-head y y ys s)) sorted,
          (a.0, all),
          λ z h b. b,
        )

    -- A sort of elements that compare, each with its reverse.
    insertion_sort_lem :
        (xs : List A)
        → All P xs
        → (ys : List A) × (insertion_sort xs ≡ ok ys) × Perm ys xs × IsSorted order ys × All P ys
    unfolding insertion_sort
    insertion_sort_lem [] a = ([], refl, Perm.rfl, tt, tt)
    insertion_sort_lem (x ∷ xs) a =
        let (ys, r, perm, sorted, all) = insertion_sort_lem xs a.1 in
        let (zs, e, perm', sorted', all', keeps) = insert_by_lem x ys a.0 all sorted in
        (zs, rw r e, Perm.trans perm' (Perm.cons x perm), sorted', all')

abbrev pub insertion : Sorter
insertion = record { sort_by = λ order xs. insertion_sort order xs }

pub insertion-IsSorter : IsSorter insertion
insertion-IsSorter = record {
  sorts = λ order P xs total all.
      let (ys, e, perm, sorted, kept) = insertion_sort_lem order P total.compares xs all in
      (ys, e, perm, kept, sorted);
}
