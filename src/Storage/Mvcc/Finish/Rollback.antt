-- ===== src/Storage/Mvcc/Finish/Rollback.antt =====
-- `rollback` of storage/mvcc.rs, and what it leaves.
use sqlprimer.Prelude.{
  ℕ, ◌^◌, ◌<◌, ◌≡◌, ◌≢◌, ◌⊎◌, inl, inr, refl, ap, subst, ◌∙◌, Bool, true, false, none, some, List,
  [], ◌∷◌, map, All, arith, ok,
}
use sqlprimer.Bytes.{Bytes}
use sqlprimer.OrderedMap.{Map, lookup, remove}
use sqlprimer.OrderedMap.Lookup.{same-ne, same_refl, eq_of_same, same, lookup-remove}
use sqlprimer.OrderedMap.Removal.{
  remove_all, remove_all_induction, lookup-remove_all, listed, not_listed,
}
use sqlprimer.Storage.Memory.{MemoryEngine}
use sqlprimer.Storage.Mvcc.Key.{MvccKey, txn_active, txn_write, version, encode, decode}
use sqlprimer.Storage.Mvcc.Key.Codec.{Fits, decode-encode, encode-injective}
use sqlprimer.Storage.Mvcc.State.{TransactionState}
use sqlprimer.Storage.Mvcc.Bincode.{Bincode}
use sqlprimer.Storage.Mvcc.Monad.{◌>>=◌}
use sqlprimer.Storage.Mvcc.Txn.{collect_writes, rollback}
use sqlprimer.Storage.Mvcc.Store.{IsStore, remove-IsStore}
use sqlprimer.Storage.Mvcc.Finish.{
  IsRecord, records, records-IsRecord, lookup-records, scan-records, for_each-delete,
}
use sqlprimer.Storage.Mvcc.Write.Effect.{encode_ne}

-- The keys that the loop collects.
undo_keys : (v : ℕ) (m : Map Bytes) → All (IsRecord v) m → List Bytes
undo_keys v [] a = []
undo_keys v (e ∷ m) a = encode (version a.0.key v) ∷ e.0 ∷ undo_keys v m a.1

collect_writes_lem :
    (v : ℕ) (m : Map Bytes) (a : All (IsRecord v) m)
    → v < 2 ^ 64
    → collect_writes v (map ok m) ≡ ok (undo_keys v m a)
unfolding collect_writes undo_keys
collect_writes_lem v [] a h = refl
collect_writes_lem v (e ∷ m) a h =
    rw (ap decode a.0.is_key ∙ decode-encode (txn_write v a.0.key) h, collect_writes)
      (rw (collect_writes_lem v m a.1 h, collect_writes))

abbrev UndoOf : ℕ → Bytes → Type 0
UndoOf v k =
    ((key : Bytes) × (k ≡ encode (version key v)))
    ⊎ ((key : Bytes) × (k ≡ encode (txn_write v key)))

undo_keys-UndoOf :
    (v : ℕ) (m : Map Bytes) (a : All (IsRecord v) m) → All (UndoOf v) (undo_keys v m a)
unfolding undo_keys
undo_keys-UndoOf v [] a = tt
undo_keys-UndoOf v (e ∷ m) a =
    (inl (a.0.key, refl), (inr (a.0.key, a.0.is_key), undo_keys-UndoOf v m a.1))

-- A recorded write has both its keys in the list.
undo_keys-listed :
    (v : ℕ) (key x : Bytes) (m : Map Bytes) (a : All (IsRecord v) m)
    → v < 2 ^ 64
    → lookup (encode (txn_write v key)) m ≡ some x
    → (listed (encode (version key v)) (undo_keys v m a) ≡ true)
      × (listed (encode (txn_write v key)) (undo_keys v m a) ≡ true)
unfolding undo_keys lookup listed
undo_keys-listed v key x [] a h e = absurd (cc)
undo_keys-listed v key x (d ∷ m) a h e =
    go (same (encode (txn_write v key)) d.0) refl (undo_keys-listed v key x m a.1 h)
  where
    here : same (encode (txn_write v key)) d.0 ≡ true → key ≡ a.0.key
    here s =
        let p =
          encode-injective (txn_write v key) (txn_write v a.0.key) h h
            (eq_of_same (encode (txn_write v key)) d.0 s ∙ a.0.is_key) in
        cc

    go :
        (s : Bool)
        → same (encode (txn_write v key)) d.0 ≡ s
        → (lookup (encode (txn_write v key)) m ≡ some x
            → (listed (encode (version key v)) (undo_keys v m a.1) ≡ true)
              × (listed (encode (txn_write v key)) (undo_keys v m a.1) ≡ true))
        → (listed (encode (version key v)) (undo_keys v (d ∷ m) a) ≡ true)
          × (listed (encode (txn_write v key)) (undo_keys v (d ∷ m) a) ≡ true)
    go true s ih =
        let s' =
          subst (λ k. same (encode (version key v)) (encode (version k v)) ≡ true) (here s)
            (same_refl (encode (version key v))) in
        (ground (arith, s'), ground (arith, s))
    go false s ih =
        let both = ih (ground (arith, s, e)) in (ground (arith, both.0), ground (arith, both.1))

-- What is left by a `rollback` of version `v`.
module _ (b : Bincode) (t : TransactionState) (m : Map Bytes) (fits : t.version < 2 ^ 64)
    (store : IsStore b m) where
  abbrev undone : List Bytes
  undone = undo_keys t.version (records t.version m) (records-IsRecord b t.version m fits store)

  pub rolled_back : Map Bytes
  rolled_back = remove (encode (txn_active t.version)) (remove_all undone m)

  -- `rollback` succeeds.
  pub rollback_lem : rollback MemoryEngine b t m ≡ (ok tt, rolled_back)
  unfolding rollback ◌>>=◌ rolled_back
  rollback_lem = rw (scan-records b t.version m fits store) (
      rw
        (collect_writes_lem t.version (records t.version m)
          (records-IsRecord b t.version m fits store) fits)
        (rw (for_each-delete undone m)))

  pub rolled_back-IsStore : IsStore b rolled_back
  unfolding rolled_back
  rolled_back-IsStore =
      remove-IsStore b (encode (txn_active t.version))
        (remove_all_induction (IsStore b) (λ k n h. remove-IsStore b k h) undone m store)

  -- Every key of another version is as it was.
  pub lookup-rolled_back :
      (j : MvccKey)
      → Fits j
      → j ≢ txn_active t.version
      → ((key : Bytes) → j ≢ version key t.version)
      → ((key : Bytes) → j ≢ txn_write t.version key)
      → lookup (encode j) rolled_back ≡ lookup (encode j) m
  unfolding rolled_back
  lookup-rolled_back j f n w x = rw (lookup-remove (encode j) (encode (txn_active t.version))) (
      rw
        (same-ne (encode j) (encode (txn_active t.version))
          (encode_ne j (txn_active t.version) f fits n))
        (rw (lookup-remove_all (encode j) undone m) (
          rw (
            not_listed (UndoOf t.version) (encode j) undone
              (undo_keys-UndoOf t.version (records t.version m)
                (records-IsRecord b t.version m fits store))
              (elim [
                | inl p ↦ encode_ne j (version p.0 t.version) f fits (w p.0) p.1
                | inr p ↦ encode_ne j (txn_write t.version p.0) f fits (x p.0) p.1
              ])))))

  -- The mark is gone.
  pub lookup-rolled_back_active : lookup (encode (txn_active t.version)) rolled_back ≡ none
  unfolding rolled_back
  lookup-rolled_back_active = ground (
    arith,
    lookup-remove (encode (txn_active t.version)) (encode (txn_active t.version))
        (remove_all undone m),
    same_refl (encode (txn_active t.version)),
  )

  -- A version that was recorded is gone, and so is its record.
  pub lookup-rolled_back_write :
      (key x : Bytes)
      → lookup (encode (txn_write t.version key)) m ≡ some x
      → (lookup (encode (version key t.version)) rolled_back ≡ none)
        × (lookup (encode (txn_write t.version key)) rolled_back ≡ none)
  unfolding rolled_back
  lookup-rolled_back_write key x e =
      let both =
        undo_keys-listed t.version key x (records t.version m)
          (records-IsRecord b t.version m fits store) fits (lookup-records t.version key m ∙ e) in
      (
        ground (
          arith,
          lookup-remove (encode (version key t.version)) (encode (txn_active t.version))
              (remove_all undone m),
          lookup-remove_all (encode (version key t.version)) undone m,
          both.0,
        ),
        ground (
          arith,
          lookup-remove (encode (txn_write t.version key)) (encode (txn_active t.version))
              (remove_all undone m),
          lookup-remove_all (encode (txn_write t.version key)) undone m,
          both.1,
        ),
      )

  -- What was not there is not there.
  pub lookup-rolled_back-none : (j : Bytes) → lookup j m ≡ none → lookup j rolled_back ≡ none
  unfolding rolled_back
  lookup-rolled_back-none j e = ground (
    arith,
    e,
    lookup-remove j (encode (txn_active t.version)) (remove_all undone m),
    lookup-remove_all j undone m,
  )
