-- ===== src/Storage/Mvcc/Finish/Commit.antt =====
-- `commit` of storage/mvcc.rs, and what it leaves.
use sqlprimer.Prelude.{
  ℕ, ◌^◌, ◌<◌, ◌≡◌, ◌≢◌, refl, ◌∙◌, Option, none, some, [], ◌∷◌, map, All, arith, if◌then◌else◌, ok,
}
use sqlprimer.Bytes.{Bytes}
use sqlprimer.OrderedMap.{Map, lookup, remove}
use sqlprimer.OrderedMap.Lookup.{same-ne, same_refl, lookup-remove}
use sqlprimer.OrderedMap.Removal.{
  remove_all, remove_all_induction, lookup-remove_all, listed, not_listed, keys, listed-keys,
}
use sqlprimer.Storage.Memory.{MemoryEngine}
use sqlprimer.Storage.Mvcc.Key.{MvccKey, txn_active, txn_write, encode}
use sqlprimer.Storage.Mvcc.Key.Codec.{Fits}
use sqlprimer.Storage.Mvcc.State.{TransactionState}
use sqlprimer.Storage.Mvcc.Bincode.{Bincode}
use sqlprimer.Storage.Mvcc.Monad.{◌>>=◌}
use sqlprimer.Storage.Mvcc.Txn.{collect_keys, commit}
use sqlprimer.Storage.Mvcc.Store.{IsStore, remove-IsStore}
use sqlprimer.Storage.Mvcc.Finish.{
  IsRecord, records, records-IsRecord, lookup-records, scan-records, for_each-delete,
}
use sqlprimer.Storage.Mvcc.Write.Effect.{encode_ne}

collect_keys_lem : (m : Map Bytes) → collect_keys (map ok m) ≡ ok (keys m)
unfolding collect_keys
collect_keys_lem [] = refl
collect_keys_lem (e ∷ m) = ground (arith, collect_keys_lem m)

-- What is left by a `commit` of version `v`.
pub committed : ℕ → Map Bytes → Map Bytes
committed v m = remove (encode (txn_active v)) (remove_all (keys (records v m)) m)

abbrev WritesOf : ℕ → Bytes → Type 0
WritesOf v k = (key : Bytes) × (k ≡ encode (txn_write v key))

All-WritesOf : (v : ℕ) (m : Map Bytes) → All (IsRecord v) m → All (WritesOf v) (keys m)
All-WritesOf v [] a = tt
All-WritesOf v (e ∷ m) a = ((a.0.key, a.0.is_key), All-WritesOf v m a.1)

module _ (b : Bincode) (t : TransactionState) (m : Map Bytes) (fits : t.version < 2 ^ 64)
    (store : IsStore b m) where
  -- `commit` succeeds.
  pub commit_lem : commit MemoryEngine b t m ≡ (ok tt, committed t.version m)
  unfolding commit ◌>>=◌ committed
  commit_lem = rw (scan-records b t.version m fits store) (
      rw (collect_keys_lem (records t.version m))
        (rw (for_each-delete (keys (records t.version m)) m)))

  pub committed-IsStore : IsStore b (committed t.version m)
  unfolding committed
  committed-IsStore = remove-IsStore b (encode (txn_active t.version)) (
      remove_all_induction (IsStore b) (λ k n h. remove-IsStore b k h) (keys (records t.version m))
        m store)

  -- Every other key is as it was.
  pub lookup-committed :
      (j : MvccKey)
      → Fits j
      → j ≢ txn_active t.version
      → ((key : Bytes) → j ≢ txn_write t.version key)
      → lookup (encode j) (committed t.version m) ≡ lookup (encode j) m
  unfolding committed
  lookup-committed j f n w = rw (lookup-remove (encode j) (encode (txn_active t.version))) (
      rw
        (same-ne (encode j) (encode (txn_active t.version))
          (encode_ne j (txn_active t.version) f fits n))
        (rw (lookup-remove_all (encode j) (keys (records t.version m)) m) (
          rw (
            not_listed (WritesOf t.version) (encode j) (keys (records t.version m))
              (All-WritesOf t.version (records t.version m)
                (records-IsRecord b t.version m fits store))
              (λ (key, e). encode_ne j (txn_write t.version key) f fits (w key) e)))))

  pub lookup-committed_active :
      lookup (encode (txn_active t.version)) (committed t.version m) ≡ none
  unfolding committed
  lookup-committed_active = ground (
    arith,
    lookup-remove (encode (txn_active t.version)) (encode (txn_active t.version))
        (remove_all (keys (records t.version m)) m),
    same_refl (encode (txn_active t.version)),
  )

  pub lookup-committed_record :
      (key : Bytes) → lookup (encode (txn_write t.version key)) (committed t.version m) ≡ none
  unfolding committed
  lookup-committed_record key = ground (
    arith,
    lookup-remove (encode (txn_write t.version key)) (encode (txn_active t.version))
        (remove_all (keys (records t.version m)) m),
    lookup-remove_all (encode (txn_write t.version key)) (keys (records t.version m)) m,
    gone (lookup (encode (txn_write t.version key)) m) refl,
  )
    where
      gone :
          (o : Option Bytes)
          → lookup (encode (txn_write t.version key)) m ≡ o
          → (if listed (encode (txn_write t.version key)) (keys (records t.version m))
              then none
              else o)
            ≡ none
      gone none e = ground arith
      gone (some x) e = rw (
          listed-keys (encode (txn_write t.version key)) x (records t.version m)
            (lookup-records t.version key m ∙ e))
