-- ===== src/Sql/Kv/Mvcc.antt =====
-- The transactions of storage/mvcc.rs as what sql/engine/kv.rs uses.
use sqlprimer.Prelude.{
  ◌≡◌, ◌≢◌, ◌⊎◌, inl, inr, sym, ap, ◌∙◌, true, Option, none, some, arith, Outcome, ok, err,
  write_conflict,
}
use sqlprimer.Bytes.{Bytes, IsBytes}
use sqlprimer.OrderedMap.{Map}
use sqlprimer.Storage.Engine.{Engine}
use sqlprimer.Storage.Memory.{MemoryEngine}
use sqlprimer.Storage.Mvcc.Key.{version}
use sqlprimer.Storage.Mvcc.State.{TransactionState, is_visible}
use sqlprimer.Storage.Mvcc.Bincode.{Bincode, IsInverse}
use sqlprimer.Storage.Mvcc.Txn.{
  commit, rollback, get_value, set_value, delete_value, scan_values, write_inner,
}
use sqlprimer.Storage.Mvcc.Reads.{Reads, Reads-congr, Reads-unique, visible-le}
use sqlprimer.Storage.Mvcc.Read.{get_value_lem}
use sqlprimer.Storage.Mvcc.Store.{IsStore}
use sqlprimer.Storage.Mvcc.Write.{IsBounded, Blocked, written, write_inner_lem}
use sqlprimer.Storage.Mvcc.Write.Effect.{written-IsStore, lookup-written, get_value-written}
use sqlprimer.Sql.Kv.Store.{KeyValue, IsKeyValue}

abbrev pub mvcc_transaction : Engine → Bincode → TransactionState → KeyValue
mvcc_transaction e b t = record {
  State = e.State;
  version = t.version;
  commit = commit e b t;
  rollback = rollback e b t;
  get = get_value e b t;
  set = set_value e b t;
  delete = delete_value e b t;
  scan_prefix = scan_values e b t;
}

module _ (b : Bincode) (t : TransactionState) (good : IsInverse b) (fits : IsBounded t)
    (own : is_visible t t.version ≡ true) where
  abbrev result_or_none : Outcome (Option Bytes) → Option Bytes
  result_or_none (ok r) = r
  result_or_none _ = none

  abbrev view : Map Bytes → Bytes → Option Bytes
  view m k = result_or_none (get_value MemoryEngine b t k m).0

  get_value-view :
      (m : Map Bytes) (k : Bytes)
      → IsStore b m
      → get_value MemoryEngine b t k m ≡ (ok (view m k), m)
  get_value-view m k h =
      let (r, e, reads) = get_value_lem b t k good fits.version_fits m h in
      e ∙ ap {B = Outcome (Option Bytes) × Map Bytes} (λ p. (ok (result_or_none p.0), m)) (sym e)

  view-Reads : (m : Map Bytes) (k : Bytes) → IsStore b m → Reads b t k m (view m k)
  view-Reads m k h =
      let (r, e, reads) = get_value_lem b t k good fits.version_fits m h in rw e reads

  -- What a write of a key leaves under the others.
  view-written :
      (m : Map Bytes) (k j : Bytes) (v : Option Bytes)
      → IsBytes k
      → IsStore b m
      → j ≢ k
      → view (written b t k v m) j ≡ view m j
  view-written m k j v y h n =
      Reads-unique b t j good (written b t k v m) _ _
        (view-Reads (written b t k v m) j (written-IsStore b t k v m fits.version_fits y h))
        (Reads-congr b t j m (written b t k v m) (view m j)
          (λ w q. sym (
            lookup-written b t k v m (version j w) fits.version_fits
              (omega (arith, visible-le t w q, fits.version_fits)) (λ e. n (cc)) (λ e. cc)))
          (view-Reads m j h))

  write_cases :
      (m : Map Bytes) (k : Bytes) (v : Option Bytes)
      → IsBytes k
      → IsStore b m
      → (Blocked b t k v m × (write_inner MemoryEngine b t k v m ≡ (err write_conflict, m)))
        ⊎ ((¬ Blocked b t k v m)
            × ((s' : Map Bytes) × (write_inner MemoryEngine b t k v m ≡ (ok tt, s'))
                × IsStore b s'
                × (view s' k ≡ v)
                × ((j : Bytes) → j ≢ k → view s' j ≡ view m j)))
  write_cases m k v y h = elim (write_inner_lem b t k v fits m h) [
    | inl e ↦ inl e
    | inr (free, e) ↦ inr (
      free,
      (
        written b t k v m,
        e,
        written-IsStore b t k v m fits.version_fits y h,
        ap (λ p. result_or_none p.0) (get_value-written b t k v m good fits own y h),
        λ j n. view-written m k j v y h n,
      ),
    )
  ]

  unconditional : {A B : Type 0} {P : Type 0} → (P × A) ⊎ ((¬ P) × B) → A ⊎ B
  unconditional (inl (p, a)) = inl a
  unconditional (inr (n, c)) = inr c

  -- The methods in the terms of the view.
  pub mvcc-IsKeyValue : IsKeyValue (mvcc_transaction MemoryEngine b t)
  unfolding set_value delete_value
  mvcc-IsKeyValue = record {
    IsGood = IsStore b;
    view = view;
    get-view = get_value-view;
    set_cases = λ s k v y h. unconditional (write_cases s k (some v) y h);
    delete_cases = λ s k y h. unconditional (write_cases s k none y h);
  }

  -- What a write of `value` under a key does to a store.
  abbrev pub Writes : Bytes → Option Bytes → Map Bytes → Outcome (Unit {0}) × Map Bytes → Type 0
  Writes k value m r =
      (Blocked b t k value m × (r ≡ (err write_conflict, m)))
      ⊎ ((¬ Blocked b t k value m)
          × ((s' : Map Bytes) × (r ≡ (ok tt, s'))
              × IsStore b s'
              × (get_value MemoryEngine b t k s' ≡ (ok value, s'))
              × ((j : Bytes)
                  → j ≢ k
                  → get_value MemoryEngine b t j s' ≡ ((get_value MemoryEngine b t j m).0, s'))))

  write-Writes :
      (m : Map Bytes) (k : Bytes) (v : Option Bytes)
      → IsBytes k
      → IsStore b m
      → Writes k v m (write_inner MemoryEngine b t k v m)
  write-Writes m k v y h = elim (write_cases m k v y h) [
    | inl e ↦ inl e
    | inr (free, (s', e, store, at_key, others)) ↦ inr (
      free,
      (
        s',
        e,
        store,
        get_value-view s' k store
            ∙ ap {B = Outcome (Option Bytes) × Map Bytes} (λ o. (ok o, s')) at_key,
        λ j n.
            get_value-view s' j store
            ∙ ap {B = Outcome (Option Bytes) × Map Bytes} (λ o. (ok o, s')) (others j n)
            ∙ ap {B = Outcome (Option Bytes) × Map Bytes} (λ p. (p.0, s'))
                (sym (get_value-view m j h)),
      ),
    )
  ]

  -- What the SQL engine uses of a transaction of the memory engine, which sees its own version and
  -- whose versions are `u64`s, on a well-formed store and for a key of bytes (with a bincode whose
  -- deserializing undoes its serializing): `get` gives the value of the newest version of the key
  -- that the transaction sees, or nothing where it sees none, and changes nothing; `set` and
  -- `delete` are a write conflict that changes nothing, if the newest version of the key, from the
  -- first that the test for a conflict looks at, is one that the transaction does not see; otherwise
  -- they succeed and leave a well-formed store in which `get` gives, for the key, the value that was
  -- set or nothing, and for each other key what it gave before.
  pub mvcc_transaction_lem :
      (m : Map Bytes) (k : Bytes)
      → IsBytes k
      → IsStore b m
      → ((r : Option Bytes) × ((mvcc_transaction MemoryEngine b t).get k m ≡ (ok r, m))
          × Reads b t k m r)
        × ((v : Bytes) → Writes k (some v) m ((mvcc_transaction MemoryEngine b t).set k v m))
        × Writes k none m ((mvcc_transaction MemoryEngine b t).delete k m)
  unfolding set_value delete_value
  mvcc_transaction_lem m k y h = (
    get_value_lem b t k good fits.version_fits m h,
    λ v. write-Writes m k (some v) y h,
    write-Writes m k none y h,
  )
