-- ===== src/Storage/Mvcc/Write/Effect.antt =====
-- What each transaction reads after a write.
use sqlprimer.Prelude.{
  subst, inr, ◌^◌, ◌<◌, ◌≡◌, ◌≢◌, inl, refl, sym, ap, ◌∙◌, true, false, Option, some, [], arith,
  Outcome, ok,
}
use sqlprimer.Bytes.{Bytes, IsBytes}
use sqlprimer.OrderedMap.{Map, lookup}
use sqlprimer.OrderedMap.Lookup.{lookup-insert_self, lookup-insert_ne}
use sqlprimer.Storage.Memory.{MemoryEngine}
use sqlprimer.Storage.Mvcc.Key.{MvccKey, txn_write, version, encode}
use sqlprimer.Storage.Mvcc.Key.Codec.{Fits, encode-injective}
use sqlprimer.Storage.Mvcc.State.{TransactionState, is_visible}
use sqlprimer.Storage.Mvcc.Bincode.{Bincode, IsInverse}
use sqlprimer.Storage.Mvcc.Txn.{get_value, write_inner}
use sqlprimer.Storage.Mvcc.Reads.{Reads, Reads-congr, Reads-unique, visible-le}
use sqlprimer.Storage.Mvcc.Read.{get_value_lem}
use sqlprimer.Storage.Mvcc.Store.{IsStore, insert-IsStore}
use sqlprimer.Storage.Mvcc.Write.{IsBounded, written, write_inner_lem}

pub encode_ne : (j k : MvccKey) → Fits j → Fits k → j ≢ k → encode j ≢ encode k
encode_ne j k f g n e = n (encode-injective j k f g e)

module _ (b : Bincode) (t : TransactionState) (key : Bytes) (value : Option Bytes)
    (m : Map Bytes) where
  pub written-IsStore :
      t.version < 2 ^ 64 → IsBytes key → IsStore b m → IsStore b (written b t key value m)
  written-IsStore f k h =
      insert-IsStore b (version key t.version) (b.serialize_value value) f k (value, refl)
        (insert-IsStore b (txn_write t.version key) [] f k refl h)

  -- A write changes the entries of its own version of its key, and nothing else.
  pub lookup-written :
      (j : MvccKey)
      → t.version < 2 ^ 64
      → Fits j
      → j ≢ version key t.version
      → j ≢ txn_write t.version key
      → lookup (encode j) (written b t key value m) ≡ lookup (encode j) m
  lookup-written j f g n o =
      lookup-insert_ne (encode j) (encode (version key t.version)) _ _
        (encode_ne j (version key t.version) g f n)
      ∙ lookup-insert_ne (encode j) (encode (txn_write t.version key)) _ _
          (encode_ne j (txn_write t.version key) g f o)

  pub lookup-written_version :
      lookup (encode (version key t.version)) (written b t key value m)
      ≡ some (b.serialize_value value)
  lookup-written_version = lookup-insert_self (encode (version key t.version)) _ _

  pub lookup-written_record :
      t.version < 2 ^ 64
      → lookup (encode (txn_write t.version key)) (written b t key value m) ≡ some []
  lookup-written_record f =
      lookup-insert_ne (encode (txn_write t.version key)) (encode (version key t.version)) _ _
        (encode_ne (txn_write t.version key) (version key t.version) f f (λ e. cc))
      ∙ lookup-insert_self (encode (txn_write t.version key)) _ _

  -- The writer reads what it wrote.
  written-Reads : is_visible t t.version ≡ true → Reads b t key (written b t key value m) value
  written-Reads s =
      inl (t.version, s, lookup-written_version, λ w j q. absurd (omega (arith, visible-le t w q)))

  -- A transaction that does not see the writer's version reads as before.
  written-Reads_other :
      (o : TransactionState) (k : Bytes) (r : Option Bytes)
      → t.version < 2 ^ 64
      → o.version < 2 ^ 64
      → is_visible o t.version ≡ false
      → Reads b o k m r
      → Reads b o k (written b t key value m) r
  written-Reads_other o k r f g s = Reads-congr b o k m (written b t key value m) r (λ w q. sym (
      lookup-written (version k w) f (omega (arith, visible-le o w q))
        (λ e. let p : w ≡ t.version = cc in cc (ap (is_visible o) p)) (λ e. cc)))

  -- `get` of the writer.
  pub get_value-written :
      IsInverse b
      → IsBounded t
      → is_visible t t.version ≡ true
      → IsBytes key
      → IsStore b m
      → get_value MemoryEngine b t key (written b t key value m)
        ≡ (ok value, written b t key value m)
  get_value-written good f s k h =
      let (r, e, reads) =
        get_value_lem b t key good f.version_fits (written b t key value m)
          (written-IsStore f.version_fits k h) in
      e
      ∙ ap {B = Outcome (Option Bytes) × Map Bytes} (λ x. (ok x, written b t key value m))
          (Reads-unique b t key good (written b t key value m) r value reads (written-Reads s))

  -- `get` of a transaction that does not see the writer's version.
  get_value-written_other :
      (o : TransactionState) (k : Bytes)
      → IsInverse b
      → IsBounded t
      → IsBytes key
      → IsStore b m
      → o.version < 2 ^ 64
      → is_visible o t.version ≡ false
      → get_value MemoryEngine b o k (written b t key value m)
        ≡ ((get_value MemoryEngine b o k m).0, written b t key value m)
  get_value-written_other o k good f y h g s =
      let (r, e, reads) = get_value_lem b o k good g m h in
      let (r', e', reads') =
        get_value_lem b o k good g (written b t key value m) (written-IsStore f.version_fits y h) in
      let same_result : r' ≡ r =
        Reads-unique b o k good (written b t key value m) r' r reads'
          (written-Reads_other o k r f.version_fits g s reads) in
      e'
      ∙ ap {B = Outcome (Option Bytes) × Map Bytes} (λ x. (ok x, written b t key value m))
          same_result
      ∙ ap {B = Outcome (Option Bytes) × Map Bytes} (λ p. (p.0, written b t key value m)) (sym e)

  -- On a well-formed store (with a bincode whose deserializing undoes its serializing), where a
  -- `write_inner`, under a key of bytes, by a transaction that sees its own version and whose
  -- versions are `u64`s, succeeds: `get` of the key by the same transaction returns what was
  -- written, a value or a deletion, and `get` of any key by a transaction that does not see the
  -- writer's version returns what it returned before the write.
  pub get_value-write_inner :
      (s' : Map Bytes)
      → IsInverse b
      → IsBounded t
      → is_visible t t.version ≡ true
      → IsBytes key
      → IsStore b m
      → write_inner MemoryEngine b t key value m ≡ (ok tt, s')
      → (get_value MemoryEngine b t key s' ≡ (ok value, s'))
        × ((o : TransactionState) (k : Bytes)
            → o.version < 2 ^ 64
            → is_visible o t.version ≡ false
            → get_value MemoryEngine b o k s' ≡ ((get_value MemoryEngine b o k m).0, s'))
  get_value-write_inner s' good f s y h w = elim (write_inner_lem b t key value f m h) [
    | inl (blocked, e) ↦ absurd (cc)
    | inr (free, e) ↦
        let here : written b t key value m ≡ s' = cc in
        subst
          (λ x.
            (get_value MemoryEngine b t key x ≡ (ok value, x))
            × ((o : TransactionState) (k : Bytes)
                → o.version < 2 ^ 64
                → is_visible o t.version ≡ false
                → get_value MemoryEngine b o k x ≡ ((get_value MemoryEngine b o k m).0, x)))
          here
          (get_value-written good f s y h, λ o k g v. get_value-written_other o k good f y h g v)
  ]
