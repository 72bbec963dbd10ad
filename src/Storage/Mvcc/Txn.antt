-- ===== src/Storage/Mvcc/Txn.antt =====
-- The methods of `MvccTransaciton`.
pub mod Tests
use sqlprimer.Prelude.{
  ℕ, ◌+◌, ◌-◌, Bool, true, false, Option, none, some, List, [], ◌∷◌, ◌++◌, reverse, length, take,
  if◌then◌else◌, Outcome, ok, err, panic, internal, write_conflict,
}
use sqlprimer.Bytes.{Bytes}
use sqlprimer.OrderedMap.{Map, Bound, included, insert, remove}
use sqlprimer.Storage.Engine.{Engine, scan_prefix}
use sqlprimer.Storage.Mvcc.Key.{MvccKey, MvccKeyPrefix, encode, encode_prefix, decode}
use sqlprimer.Storage.Mvcc.Monad.{Act, pure, lift, reads, ◌>>=◌, ◌>>◌, for_each}
use sqlprimer.Storage.Mvcc.State.{
  TransactionState, is_visible, insert_version, least, next_of, max_version,
}
use sqlprimer.Storage.Mvcc.Bincode.{Bincode}

abbrev pub Item : Type 0
Item = Outcome (Bytes × Bytes)

-- The loop of `scan_active`.
unfoldable pub collect_active : List ℕ → List Item → Outcome (List ℕ)
collect_active vs [] = ok vs
collect_active vs (err x ∷ items) = err x
collect_active vs (panic ∷ items) = panic
collect_active vs (ok (key, value) ∷ items) = elim (decode key) [
  | ok k ↦ elim k [
    | MvccKey.txn_active v ↦ collect_active (insert_version v vs) items
    | _ ↦ err internal
  ]
  | err x ↦ err x
  | panic ↦ panic
]

-- The loop of `commit` over the iterator.
unfoldable pub collect_keys : List Item → Outcome (List Bytes)
collect_keys [] = ok []
collect_keys (err x ∷ items) = err x
collect_keys (panic ∷ items) = panic
collect_keys (ok (key, value) ∷ items) = elim (collect_keys items) [
  | ok keys ↦ ok (key ∷ keys)
  | err x ↦ err x
  | panic ↦ panic
]

-- The loop of `rollback`: for each record of a write, the version that it wrote, and the record.
unfoldable pub collect_writes : ℕ → List Item → Outcome (List Bytes)
collect_writes v [] = ok []
collect_writes v (err x ∷ items) = err x
collect_writes v (panic ∷ items) = panic
collect_writes v (ok (key, value) ∷ items) = elim (decode key) [
  | ok k ↦ elim k [
    | MvccKey.txn_write w raw_key ↦ elim (collect_writes v items) [
      | ok keys ↦ ok (encode (MvccKey.version raw_key v) ∷ key ∷ keys)
      | err x ↦ err x
      | panic ↦ panic
    ]
    | _ ↦ err internal
  ]
  | err x ↦ err x
  | panic ↦ panic
]

module _ (b : Bincode) where
  -- The loop of `get`: the first visible version ends it.
  unfoldable pub newest : TransactionState → List Item → Outcome (Option Bytes)
  newest t [] = ok none
  newest t (err x ∷ items) = err x
  newest t (panic ∷ items) = panic
  newest t (ok (key, value) ∷ items) = elim (decode key) [
    | ok k ↦ elim k [
      | MvccKey.version raw_key v ↦ elim (is_visible t v) [
        | true ↦ b.deserialize_value value
        | false ↦ newest t items
      ]
      | _ ↦ err internal
    ]
    | err x ↦ err x
    | panic ↦ panic
  ]

  apply_value : Bytes → Outcome (Option Bytes) → Map Bytes → Outcome (Map Bytes)
  apply_value raw_key (ok (some raw_value)) results = ok (insert raw_key raw_value results)
  apply_value raw_key (ok none) results = ok (remove raw_key results)
  apply_value raw_key (err x) results = err x
  apply_value raw_key panic results = panic

  -- One round of the loop of `scan_prefix`.
  scan_item : TransactionState → Bytes → Bytes → Map Bytes → Outcome (Map Bytes)
  unfolding apply_value
  scan_item t key value results = elim (decode key) [
    | ok k ↦ elim k [
      | MvccKey.version raw_key v ↦
          if is_visible t v
          then apply_value raw_key (b.deserialize_value value) results
          else ok results
      | _ ↦ err internal
    ]
    | err x ↦ err x
    | panic ↦ panic
  ]

  unfoldable pub scan_results : TransactionState → Map Bytes → List Item → Outcome (Map Bytes)
  unfolding scan_item
  scan_results t results [] = ok results
  scan_results t results (err x ∷ items) = err x
  scan_results t results (panic ∷ items) = panic
  scan_results t results (ok (key, value) ∷ items) = elim (scan_item t key value results) [
    | ok results' ↦ scan_results t results' items
    | err x ↦ err x
    | panic ↦ panic
  ]

-- `engine.scan(..).last()` reads all items, and the conflict test looks at the last one alone.
unfoldable pub last : List Item → Option Item
last [] = none
last (x ∷ []) = some x
last (x ∷ y ∷ xs) = last (y ∷ xs)

unfoldable pub check_conflict : TransactionState → Option Item → Outcome (Unit {0})
check_conflict t none = ok tt
check_conflict t (some (err x)) = err x
check_conflict t (some panic) = panic
check_conflict t (some (ok (k, value))) = elim (decode k) [
  | ok key ↦ elim key [
    | MvccKey.version raw_key v ↦ if is_visible t v then ok tt else err write_conflict
    | _ ↦ err internal
  ]
  | err x ↦ err x
  | panic ↦ panic
]

abbrev pub or_next : ℕ → Option ℕ → ℕ
or_next v none = next_of v
or_next v (some w) = w

-- The first version that the conflict test looks at.
unfoldable pub first_conflict : TransactionState → ℕ
unfolding least
first_conflict t = or_next t.version (least t.active_versions)

module _ (e : Engine) (b : Bincode) where
  open e use {State, set, get, delete, scan}

  put : Bytes → Bytes → Act State (Unit {0})
  put k v s = set s k v

  del : Bytes → Act State (Unit {0})
  del k s = delete s k

  unfoldable pub scan_active : Act State (List ℕ)
  unfolding ◌>>=◌
  scan_active = do
    items ← reads (λ s. scan_prefix e s (encode_prefix MvccKeyPrefix.txn_active))
    lift (collect_active [] items)

  unfoldable pub stored_version : Option Bytes → Outcome ℕ
  stored_version none = ok 1
  stored_version (some value) = b.deserialize_version value

  unfoldable pub begin : Act State TransactionState
  unfolding ◌>>=◌ put scan_active stored_version
  begin = do
    stored ← reads (λ s. get s (encode MvccKey.next_version))
    version ← lift (stored_version stored)
    put (encode MvccKey.next_version) (b.serialize_version (next_of version))
    active_versions ← scan_active
    put (encode (MvccKey.txn_active version)) []
    pure (record { version = version; active_versions = active_versions })

  unfoldable pub commit : TransactionState → Act State (Unit {0})
  unfolding ◌>>=◌ del for_each
  commit t = do
    items ← reads (λ s. scan_prefix e s (encode_prefix (MvccKeyPrefix.txn_write t.version)))
    delete_keys ← lift (collect_keys items)
    for_each delete_keys del
    del (encode (MvccKey.txn_active t.version))

  unfoldable pub rollback : TransactionState → Act State (Unit {0})
  unfolding ◌>>=◌ del for_each
  rollback t = do
    items ← reads (λ s. scan_prefix e s (encode_prefix (MvccKeyPrefix.txn_write t.version)))
    delete_keys ← lift (collect_writes t.version items)
    for_each delete_keys del
    del (encode (MvccKey.txn_active t.version))

  unfoldable pub get_value : TransactionState → Bytes → Act State (Option Bytes)
  unfolding ◌>>=◌
  get_value t key = do
    items ← reads (λ s.
        scan s (included (encode (MvccKey.version key 0)))
          (included (encode (MvccKey.version key t.version))))
    lift (newest b t (reverse items))

  unfoldable pub write_inner : TransactionState → Bytes → Option Bytes → Act State (Unit {0})
  unfolding ◌>>=◌ put first_conflict
  write_inner t key value = do
    items ← reads (λ s.
        scan s (included (encode (MvccKey.version key (first_conflict t))))
          (included (encode (MvccKey.version key max_version))))
    lift (check_conflict t (last items))
    put (encode (MvccKey.txn_write t.version key)) []
    put (encode (MvccKey.version key t.version)) (b.serialize_value value)

  unfoldable pub set_value : TransactionState → Bytes → Bytes → Act State (Unit {0})
  unfolding write_inner
  set_value t key value = write_inner t key (some value)

  unfoldable pub delete_value : TransactionState → Bytes → Act State (Unit {0})
  unfolding write_inner
  delete_value t key = write_inner t key none

  -- The encoding of a prefix loses its end mark.
  unfoldable pub scan_values : TransactionState → Bytes → Act State (Map Bytes)
  unfolding ◌>>=◌
  scan_values t prefix = do
    let enc_prefix = encode_prefix (MvccKeyPrefix.version prefix)
    items ← reads (λ s. scan_prefix e s (take (length enc_prefix - 2) enc_prefix))
    lift (scan_results b t [] items)
