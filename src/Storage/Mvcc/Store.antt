-- ===== src/Storage/Mvcc/Store.antt =====
-- Well-formed stores: in key order, each key the encoding of an `MvccKey`, each value one that the
-- transactions write there.
use sqlprimer.Prelude.{
  ℕ, ◌^◌, ◌<◌, ◌≡◌, refl, sym, subst, Option, some, [], ◌∷◌, All, arith, All-append,
}
use sqlprimer.Bytes.{Bytes, IsBytes}
use sqlprimer.OrderedMap.{Map, lookup, insert, remove}
use sqlprimer.OrderedMap.Order.{IsOrdered, insert-IsOrdered, remove-IsOrdered}
use sqlprimer.OrderedMap.Entries.{All-insert, All-remove, All-lookup}
use sqlprimer.Storage.Keycode.{to_be, escape}
use sqlprimer.Storage.Keycode.BigEndian.{to_be-IsBytes}
use sqlprimer.Storage.Keycode.Escape.{escape-IsBytes}
use sqlprimer.Storage.Engine.Scan.{HasBytes}
use sqlprimer.Storage.Mvcc.Key.{MvccKey, encode}
use sqlprimer.Storage.Mvcc.Key.Codec.{
  Fits, encode-injective, encode-version, encode-txn_write, encode-txn_active, encode-next_version,
}
use sqlprimer.Storage.Mvcc.Bincode.{Bincode}

-- The key that a client gave is made of bytes.
abbrev pub KeyIsBytes : MvccKey → Type 0
KeyIsBytes MvccKey.next_version = Unit
KeyIsBytes (MvccKey.txn_active v) = Unit
KeyIsBytes (MvccKey.txn_write v k) = IsBytes k
KeyIsBytes (MvccKey.version k v) = IsBytes k

module _ (b : Bincode) where
  -- The values that are written under each kind of key.
  abbrev pub GoodValue : MvccKey → Bytes → Type 0
  GoodValue MvccKey.next_version value = (n : ℕ) × (value ≡ b.serialize_version n) × (n < 2 ^ 64)
  GoodValue (MvccKey.txn_active v) value = value ≡ []
  GoodValue (MvccKey.txn_write v k) value = value ≡ []
  GoodValue (MvccKey.version k v) value = (x : Option Bytes) × (value ≡ b.serialize_value x)

  pub record Good (e : Bytes × Bytes) : Type 0 where
    pub key : MvccKey
    pub is_key : e.0 ≡ encode key
    pub fits : Fits key
    pub bytes : KeyIsBytes key
    pub good_value : GoodValue key e.1

  pub record IsStore (m : Map Bytes) : Type 0 where
    pub ordered : IsOrdered m
    pub entries : All Good m

encode-IsBytes : (k : MvccKey) → Fits k → KeyIsBytes k → IsBytes (encode k)
encode-IsBytes MvccKey.next_version f h = rw encode-next_version (omega arith, tt)
encode-IsBytes (MvccKey.txn_active v) f h = rw encode-txn_active (omega arith, to_be-IsBytes 8 v f)
encode-IsBytes (MvccKey.txn_write v k) f h = rw encode-txn_write (
  omega arith,
  All-append _ (to_be 8 v) _ (to_be-IsBytes 8 v f)
      (All-append _ (escape k) (0 ∷ 0 ∷ []) (escape-IsBytes k h) (omega arith)),
)
encode-IsBytes (MvccKey.version k v) f h = rw encode-version (
  omega arith,
  All-append _ (escape k) (0 ∷ 0 ∷ to_be 8 v) (escape-IsBytes k h)
      (omega arith, (omega arith, to_be-IsBytes 8 v f)),
)

module _ (b : Bincode) where
  All-HasBytes : (m : Map Bytes) → All (Good b) m → HasBytes m
  All-HasBytes [] a = tt
  All-HasBytes ((k, v) ∷ m) a = (
    subst IsBytes (sym a.0.is_key) (encode-IsBytes a.0.key a.0.fits a.0.bytes),
    All-HasBytes m a.1,
  )

  pub IsStore-HasBytes : {m : Map Bytes} → IsStore b m → HasBytes m
  IsStore-HasBytes {m} h = All-HasBytes m h.entries

  pub empty-IsStore : IsStore b []
  empty-IsStore = record { ordered = tt; entries = tt }

  pub insert-IsStore :
      (key : MvccKey) (value : Bytes) {m : Map Bytes}
      → Fits key
      → KeyIsBytes key
      → GoodValue b key value
      → IsStore b m
      → IsStore b (insert (encode key) value m)
  insert-IsStore key value {m} f y g h = record {
    ordered = insert-IsOrdered (encode key) value m h.ordered;
    entries =
        All-insert (Good b) (encode key) value m
          (record { key = key; is_key = refl; fits = f; bytes = y; good_value = g }) h.entries;
  }

  pub remove-IsStore : (k : Bytes) {m : Map Bytes} → IsStore b m → IsStore b (remove k m)
  remove-IsStore k {m} h = record {
    ordered = remove-IsOrdered k m h.ordered;
    entries = All-remove (Good b) k m h.entries;
  }

  -- What stands under a key is a value for it.
  pub lookup-GoodValue :
      (key : MvccKey) (value : Bytes) {m : Map Bytes}
      → Fits key
      → IsStore b m
      → lookup (encode key) m ≡ some value
      → GoodValue b key value
  lookup-GoodValue key value {m} f h e =
      let g : Good b (encode key, value) = All-lookup (Good b) (encode key) value m h.entries e in
      subst (λ k. GoodValue b k value) (encode-injective g.key key g.fits f (sym g.is_key))
        g.good_value
