-- ===== src/Storage/Mvcc/Begin.antt =====
-- `begin`: the version that a transaction gets, and the transactions that it finds running.
use sqlprimer.Prelude.{
  ℕ, ◌^◌, ◌<◌, ◌≡◌, ◌≢◌, ◌⊎◌, inl, inr, refl, sym, ap, subst, ◌∙◌, Bool, true, false, ◌||◌, Option,
  none, some, List, [], ◌∷◌, map, All, arith, ◌==◌, Bool-cases, Outcome, ok,
}
use sqlprimer.Bytes.{Bytes, starts_with}
use sqlprimer.OrderedMap.{Map, lookup, insert, keep}
use sqlprimer.OrderedMap.Lookup.{lookup-keep, lookup-insert_ne}
use sqlprimer.OrderedMap.Entries.{All-keep_test}
use sqlprimer.Storage.Engine.{scan_prefix}
use sqlprimer.Storage.Engine.Scan.{scan_prefix_lem}
use sqlprimer.Storage.Memory.{MemoryEngine, MemoryEngine-IsLawful}
use sqlprimer.Storage.Mvcc.Key.{
  MvccKey, MvccKeyPrefix, next_version, txn_active, encode, decode, encode_prefix,
}
use sqlprimer.Storage.Mvcc.Key.Codec.{Fits, decode-encode, cmp-encode}
use sqlprimer.Storage.Mvcc.State.{TransactionState, contains, insert_version, next_of}
use sqlprimer.Storage.Mvcc.Bincode.{Bincode, IsInverse}
use sqlprimer.Storage.Mvcc.Monad.{◌>>=◌}
use sqlprimer.Storage.Mvcc.Txn.{collect_active, begin, stored_version}
use sqlprimer.Storage.Mvcc.Store.{
  Good, GoodValue, IsStore, IsStore-HasBytes, insert-IsStore, lookup-GoodValue,
}
use sqlprimer.Storage.Mvcc.Write.Effect.{encode_ne}

-- The mark of a running transaction.
record IsMark (e : Bytes × Bytes) : Type 0 where
  at : ℕ
  is_key : e.0 ≡ encode (txn_active at)
  fits : at < 2 ^ 64

abbrev pub mark_prefix : Bytes
mark_prefix = encode_prefix MvccKeyPrefix.txn_active

mark_of_prefix :
    (k : MvccKey) → starts_with mark_prefix (encode k) ≡ true → (v : ℕ) × (k ≡ txn_active v)
unfolding encode encode_prefix starts_with
mark_of_prefix MvccKey.next_version h = absurd (cc)
mark_of_prefix (MvccKey.txn_active v) h = (v, refl)
mark_of_prefix (MvccKey.txn_write v k) h = absurd (cc)
mark_of_prefix (MvccKey.version k v) h = absurd (cc)

abbrev marks : Map Bytes → Map Bytes
marks m = keep (starts_with mark_prefix) m

Good-IsMark :
    (b : Bincode) (e : Bytes × Bytes) → Good b e × (starts_with mark_prefix e.0 ≡ true) → IsMark e
Good-IsMark b e h =
    let c : Good b e = h.0 in
    let (v, p) = mark_of_prefix c.key (ap (starts_with mark_prefix) (sym c.is_key) ∙ h.1) in
    record { at = v; is_key = c.is_key ∙ ap encode p; fits = subst Fits p c.fits }

All-IsMark :
    (b : Bincode) (m : Map Bytes)
    → All (λ e. Good b e × (starts_with mark_prefix e.0 ≡ true)) m
    → All IsMark m
All-IsMark b [] a = tt
All-IsMark b (e ∷ m) a = (Good-IsMark b e a.0, All-IsMark b m a.1)

abbrev pub present : Option Bytes → Bool
present none = false
present (some v) = true

lookup-marks :
    (v : ℕ) (m : Map Bytes)
    → lookup (encode (txn_active v)) (marks m) ≡ lookup (encode (txn_active v)) m
unfolding encode encode_prefix starts_with
lookup-marks v m = lookup-keep (starts_with mark_prefix) (encode (txn_active v)) m

contains-insert_version :
    (v w : ℕ) (vs : List ℕ) → contains (insert_version v vs) w ≡ (v == w) || contains vs w
unfolding contains insert_version
contains-insert_version v w vs = elim (Bool-cases (contains vs v)) [
  | inl h ↦ elim (Bool-cases (v == w)) [
    | inl q ↦ let e : v ≡ w = ground (arith, q) in ground (arith, h, ap (contains vs) e)
    | inr q ↦ ground (arith, h, q)
  ]
  | inr h ↦ ground (arith, h)
]

insert_version-fit :
    (v n : ℕ) (vs : List ℕ) → v < n → All (λ w. w < n) vs → All (λ w. w < n) (insert_version v vs)
unfolding insert_version
insert_version-fit v n vs h a = ground arith

-- The members are those collected before, and the marks.
collect_active_lem :
    (vs : List ℕ) (m : Map Bytes)
    → All IsMark m
    → All (λ w. w < 2 ^ 64) vs
    → (ws : List ℕ) × (collect_active vs (map ok m) ≡ ok ws)
      × All (λ w. w < 2 ^ 64) ws
      × ((v : ℕ)
          → v < 2 ^ 64
          → contains ws v ≡ contains vs v || present (lookup (encode (txn_active v)) m))
unfolding collect_active lookup
collect_active_lem vs [] a f = (vs, refl, f, λ v h. ground arith)
collect_active_lem vs (e ∷ m) a f =
    let (ws, p, fit, has) =
      collect_active_lem (insert_version a.0.at vs) m a.1
        (insert_version-fit a.0.at (2 ^ 64) vs a.0.fits f) in
    (
      ws,
      rw (ap decode a.0.is_key ∙ decode-encode (txn_active a.0.at) a.0.fits, collect_active) p,
      fit,
      λ v h. ground (
        arith,
        has v h,
        contains-insert_version a.0.at v vs,
        a.0.is_key,
        cmp-encode (txn_active v) (txn_active a.0.at) h a.0.fits,
      ),
    )

-- The version that the store gives next: 1 in a new store.
abbrev pub NextIs : Bincode → Map Bytes → ℕ → Type 0
NextIs b m n =
    ((lookup (encode next_version) m ≡ none) × (n ≡ 1))
    ⊎ ((lookup (encode next_version) m ≡ some (b.serialize_version n)) × (n < 2 ^ 64))

-- What is left by the begin of version `n`.
abbrev pub begun : Bincode → ℕ → Map Bytes → Map Bytes
begun b n m =
    insert (encode (txn_active n)) []
      (insert (encode next_version) (b.serialize_version (next_of n)) m)

NextIs-exists : (b : Bincode) (m : Map Bytes) → IsStore b m → (n : ℕ) × NextIs b m n
NextIs-exists b m s = go (lookup (encode next_version) m) refl
  where
    go : (o : Option Bytes) → lookup (encode next_version) m ≡ o → (n : ℕ) × NextIs b m n
    go none e = (1, inl (e, refl))
    go (some v) e =
        let (n, p, f) : GoodValue b next_version v = lookup-GoodValue b next_version v tt s e in
        (n, inr (e ∙ ap some p, f))

pub NextIs-fits : (b : Bincode) (m : Map Bytes) (n : ℕ) → NextIs b m n → n < 2 ^ 64
NextIs-fits b m n (inl (e, p)) = omega arith
NextIs-fits b m n (inr (e, f)) = f

stored_version-NextIs :
    (b : Bincode) (m : Map Bytes) (n : ℕ)
    → IsInverse b
    → NextIs b m n
    → stored_version MemoryEngine b (lookup (encode next_version) m) ≡ ok n
unfolding stored_version
stored_version-NextIs b m n good (inl (e, p)) = rw e (ap ok (sym p))
stored_version-NextIs b m n good (inr (e, f)) = rw e (good.version_round_trip n f)

module _ (b : Bincode) (good : IsInverse b) (m : Map Bytes) (store : IsStore b m) where
  next_IsStore :
      (n : ℕ) → IsStore b (insert (encode next_version) (b.serialize_version (next_of n)) m)
  next_IsStore n =
      insert-IsStore b next_version (b.serialize_version (next_of n)) tt tt
        (next_of n, refl, omega arith) store

  pub begun-IsStore : (n : ℕ) → n < 2 ^ 64 → IsStore b (begun b n m)
  begun-IsStore n f = insert-IsStore b (txn_active n) [] f tt refl (next_IsStore n)

  -- A key other than the counter and the new mark is as it was.
  pub lookup-begun :
      (n : ℕ) (j : MvccKey)
      → n < 2 ^ 64
      → Fits j
      → j ≢ next_version
      → j ≢ txn_active n
      → lookup (encode j) (begun b n m) ≡ lookup (encode j) m
  lookup-begun n j f g p q =
      lookup-insert_ne (encode j) (encode (txn_active n)) _ _ (encode_ne j (txn_active n) g f q)
      ∙ lookup-insert_ne (encode j) (encode next_version) _ _ (encode_ne j next_version g tt p)

  scan-marks :
      (n : ℕ)
      → scan_prefix MemoryEngine
          (insert (encode next_version) (b.serialize_version (next_of n)) m)
          mark_prefix
        ≡ ok (map ok (marks (insert (encode next_version) (b.serialize_version (next_of n)) m)))
  unfolding encode_prefix
  scan-marks n =
      scan_prefix_lem MemoryEngine MemoryEngine-IsLawful _ mark_prefix (next_IsStore n).ordered
        (omega arith) (IsStore-HasBytes b (next_IsStore n))

  -- On a well-formed store (with a bincode whose deserializing undoes its serializing) `begin`
  -- succeeds: the transaction gets the next version, which is raised in the store and marked as
  -- running, and its active versions are exactly those that were marked, each a `u64`.
  pub begin_lem :
      (n : ℕ) × (active : List ℕ) × NextIs b m n
      × (begin MemoryEngine b m
          ≡ (ok (record { version = n; active_versions = active }), begun b n m))
      × All (λ w. w < 2 ^ 64) active
      × ((v : ℕ) → v < 2 ^ 64 → contains active v ≡ present (lookup (encode (txn_active v)) m))
  unfolding begin ◌>>=◌ contains
  begin_lem =
      let (n, next) = NextIs-exists b m store in
      let m' = insert (encode next_version) (b.serialize_version (next_of n)) m in
      let (active, p, fit, has) =
        collect_active_lem [] (marks m')
          (All-IsMark b (marks m')
            (All-keep_test (Good b) (starts_with mark_prefix) m' (next_IsStore n).entries))
          tt in
      (
        n,
        active,
        next,
        rw (stored_version-NextIs b m n good next) (rw (scan-marks n) (rw p)),
        fit,
        λ v f.
            has v f
            ∙ ap present (
                lookup-marks v m'
                ∙ lookup-insert_ne (encode (txn_active v)) (encode next_version) _ _
                    (encode_ne (txn_active v) next_version f tt (λ e. cc))),
      )

  -- And whatever transaction `begin` hands out is that one.
  pub begin_result :
      (t : TransactionState) (m' : Map Bytes)
      → begin MemoryEngine b m ≡ (ok t, m')
      → NextIs b m t.version
        × (begun b t.version m ≡ m')
        × All (λ w. w < 2 ^ 64) t.active_versions
        × ((v : ℕ)
            → v < 2 ^ 64
            → contains t.active_versions v ≡ present (lookup (encode (txn_active v)) m))
  begin_result t m' e =
      let (n, active, next, p, fit, has) = begin_lem in
      let q = sym p ∙ e in
      let same : record { version = n; active_versions = active } ≡ t =
        transaction_of (ap (λ x. x.0) q) in
      subst
        (λ u.
          NextIs b m u.version
          × (begun b u.version m ≡ m')
          × All (λ w. w < 2 ^ 64) u.active_versions
          × ((v : ℕ)
              → v < 2 ^ 64
              → contains u.active_versions v ≡ present (lookup (encode (txn_active v)) m)))
        same (next, ap (λ x. x.1) q, fit, has)
    where
      transaction_of :
          {x y : TransactionState} → ◌≡◌ {A = Outcome TransactionState} (ok x) (ok y) → x ≡ y
      transaction_of h = cc
