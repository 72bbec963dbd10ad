-- ===== src/Storage/Mvcc/Finish.antt =====
-- `commit` and `rollback`: what they remove.
pub mod Commit
pub mod Rollback
use sqlprimer.Prelude.{
  ℕ, ◌^◌, ◌<◌, ◌≡◌, ◌≢◌, refl, sym, ap, subst, ◌∙◌, Bool, true, false, Option, none, some, List, [],
  ◌∷◌, ◌++◌, map, All, drop, take, length, take-append, arith, if◌then◌else◌, Outcome, ok, err,
}
use sqlprimer.Bytes.{Bytes, IsBytes, starts_with}
use sqlprimer.Bytes.Prefix.{append_of_starts_with, starts_with-append}
use sqlprimer.OrderedMap.{Map, lookup, remove, keep}
use sqlprimer.OrderedMap.Lookup.{lookup-keep}
use sqlprimer.OrderedMap.Entries.{All-keep_test}
use sqlprimer.OrderedMap.Removal.{remove_all, listed}
use sqlprimer.Storage.Engine.{scan_prefix, items, prefix_end}
use sqlprimer.Storage.Engine.Scan.{scan_prefix_lem}
use sqlprimer.Storage.Memory.{MemoryEngine, MemoryEngine-IsLawful}
use sqlprimer.Storage.Keycode.{to_be, from_be, escape}
use sqlprimer.Storage.Keycode.BigEndian.{to_be-IsBytes, length-to_be, from_be-to_be}
use sqlprimer.Storage.Mvcc.Key.{
  MvccKey, MvccKeyPrefix, next_version, txn_active, txn_write, version, encode, encode_prefix,
}
use sqlprimer.Storage.Mvcc.Key.Codec.{Fits, encode-txn_write}
use sqlprimer.Storage.Mvcc.Bincode.{Bincode}
use sqlprimer.Storage.Mvcc.Monad.{Act, for_each, ◌>>=◌}
use sqlprimer.Storage.Mvcc.Store.{Good, IsStore, IsStore-HasBytes}

abbrev pub write_prefix : ℕ → Bytes
write_prefix v = encode_prefix (MvccKeyPrefix.txn_write v)

write_prefix-IsBytes : (v : ℕ) → v < 2 ^ 64 → IsBytes (write_prefix v)
unfolding encode_prefix
write_prefix-IsBytes v h = (omega arith, to_be-IsBytes 8 v h)

-- The records of the writes of version `v`.
abbrev pub records : ℕ → Map Bytes → Map Bytes
records v m = keep (starts_with (write_prefix v)) m

pub scan-records :
    (b : Bincode) (v : ℕ) (m : Map Bytes)
    → v < 2 ^ 64
    → IsStore b m
    → scan_prefix MemoryEngine m (write_prefix v) ≡ ok (map ok (records v m))
scan-records b v m h s =
    scan_prefix_lem MemoryEngine MemoryEngine-IsLawful m (write_prefix v) s.ordered
      (write_prefix-IsBytes v h) (IsStore-HasBytes b s)

-- The loop that deletes.
pub for_each-delete :
    (ks : List Bytes) (m : Map Bytes)
    → for_each ks (λ k s. MemoryEngine.delete s k) m ≡ (ok tt, remove_all ks m)
unfolding for_each remove_all
for_each-delete [] m = refl
for_each-delete (k ∷ ks) m = for_each-delete ks (remove k m)

to_be-injective :
    (v w : ℕ) (r s : Bytes) → v < 2 ^ 64 → w < 2 ^ 64 → to_be 8 v ++ r ≡ to_be 8 w ++ s → v ≡ w
to_be-injective v w r s h k e =
    sym (from_be-to_be 8 v h)
    ∙ ap from_be (
        sym (take_length (to_be 8 v) r 8 (length-to_be 8 v))
        ∙ ap (take 8) e
        ∙ take_length (to_be 8 w) s 8 (length-to_be 8 w))
    ∙ from_be-to_be 8 w k
  where
    take_length : (xs ys : Bytes) (n : ℕ) → length xs ≡ n → take n (xs ++ ys) ≡ xs
    take_length xs ys n p = subst (λ k. take k (xs ++ ys) ≡ xs) p (take-append xs ys)

key_of_prefix :
    (v : ℕ) (k : MvccKey) (x : Bytes)
    → v < 2 ^ 64
    → Fits k
    → encode k ≡ write_prefix v ++ x
    → (key : Bytes) × (k ≡ txn_write v key)
unfolding encode encode_prefix
key_of_prefix v MvccKey.next_version x h f e = absurd (cc)
key_of_prefix v (MvccKey.txn_active w) x h f e = absurd (cc)
key_of_prefix v (MvccKey.txn_write w key) x h f e =
    (key, ap (λ t. txn_write t key) (to_be-injective w v _ x f h (ap (drop 1) e)))
key_of_prefix v (MvccKey.version key w) x h f e = absurd (cc)

-- A record of a write of `v`.
pub record IsRecord (v : ℕ) (e : Bytes × Bytes) : Type 0 where
  pub key : Bytes
  pub is_key : e.0 ≡ encode (txn_write v key)

Good-IsRecord :
    (b : Bincode) (v : ℕ) (e : Bytes × Bytes)
    → v < 2 ^ 64
    → Good b e × (starts_with (write_prefix v) e.0 ≡ true)
    → IsRecord v e
Good-IsRecord b v e h g =
    let c : Good b e = g.0 in
    let (x, p) = append_of_starts_with (write_prefix v) e.0 g.1 in
    let (key, q) = key_of_prefix v c.key x h c.fits (sym c.is_key ∙ p) in
    record { key = key; is_key = c.is_key ∙ ap encode q }

All-IsRecord :
    (b : Bincode) (v : ℕ) (m : Map Bytes)
    → v < 2 ^ 64
    → All (λ e. Good b e × (starts_with (write_prefix v) e.0 ≡ true)) m
    → All (IsRecord v) m
All-IsRecord b v [] h a = tt
All-IsRecord b v (e ∷ m) h a = (Good-IsRecord b v e h a.0, All-IsRecord b v m h a.1)

-- The scan for the records of `v` meets nothing else.
pub records-IsRecord :
    (b : Bincode) (v : ℕ) (m : Map Bytes)
    → v < 2 ^ 64
    → IsStore b m
    → All (IsRecord v) (records v m)
records-IsRecord b v m h s =
    All-IsRecord b v (records v m) h
      (All-keep_test (Good b) (starts_with (write_prefix v)) m s.entries)

-- And every such record.
pub lookup-records :
    (v : ℕ) (key : Bytes) (m : Map Bytes)
    → lookup (encode (txn_write v key)) (records v m) ≡ lookup (encode (txn_write v key)) m
lookup-records v key m =
    rw (lookup-keep (starts_with (write_prefix v)) (encode (txn_write v key)) m)
      (rw (is_prefix v key))
  where
    is_prefix :
        (v : ℕ) (key : Bytes) → starts_with (write_prefix v) (encode (txn_write v key)) ≡ true
    is_prefix v key =
        unfold encode encode_prefix in starts_with-append (2 ∷ to_be 8 v) (escape key ++ 0 ∷ 0 ∷ [])
