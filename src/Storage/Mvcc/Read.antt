-- ===== src/Storage/Mvcc/Read.antt =====
-- What `get` of storage/mvcc.rs reads.
use mathlib.Core.List.{reverse-append}
use sqlprimer.Prelude.{
  ℕ, ◌^◌, ◌<◌, ◌≡◌, ◌≢◌, inl, inr, refl, sym, ap, append_assoc, append-nil, subst, ◌∙◌, Bool, true,
  false, Option, none, some, List, [], ◌∷◌, ◌++◌, reverse, map, All, arith, if◌then◌else◌, Outcome,
  ok, Bool-cases,
}
use sqlprimer.Bytes.{Bytes}
use sqlprimer.OrderedMap.{Map, lookup}
use sqlprimer.OrderedMap.Order.{IsOrdered, Above, Above-lookup, keep-IsOrdered}
use sqlprimer.OrderedMap.Lookup.{lookup-head, lookup-tail}
use sqlprimer.Bytes.Order.{cmp_refl}
use sqlprimer.Storage.Engine.{items}
use sqlprimer.Storage.Memory.{MemoryEngine}
use sqlprimer.Storage.Mvcc.Key.{MvccKey, version, encode, decode}
use sqlprimer.Storage.Mvcc.Key.Codec.{decode-encode, cmp-encode}
use sqlprimer.Storage.Mvcc.State.{TransactionState, is_visible}
use sqlprimer.Storage.Mvcc.Bincode.{Bincode, IsInverse}
use sqlprimer.Storage.Mvcc.Monad.{◌>>=◌, continue, lift}
use sqlprimer.Storage.Mvcc.Txn.{Item, newest, get_value}
use sqlprimer.Storage.Mvcc.Reads.{Reads, visible-le, encode-version_ne}
use sqlprimer.Storage.Mvcc.Store.{IsStore, GoodValue, lookup-GoodValue}
use sqlprimer.Storage.Mvcc.Versions.{
  in_versions, IsVersion, met, met-IsVersion, range-met, lookup-met,
}

reverse-cons_append {ℓ} :
    {A : Type ℓ} (x : A) (xs ys : List A) → reverse (x ∷ xs) ++ ys ≡ reverse xs ++ x ∷ ys
reverse-cons_append x xs ys =
    ap (λ l. l ++ ys) (reverse-append (x ∷ []) xs) ∙ append_assoc (reverse xs) (x ∷ []) ys

module _ (b : Bincode) (t : TransactionState) (key : Bytes) where
  -- The value of the last entry that `t` sees.
  abbrev own : Bytes → Bytes → Outcome MvccKey → Option Bytes
  own k v (ok (MvccKey.version j u)) = if is_visible t u then some v else none
  own k v _ = none

  last_visible : Map Bytes → Option Bytes
  last_visible [] = none
  last_visible ((k, v) ∷ m) = elim (last_visible m) [ some w ↦ some w | none ↦ own k v (decode k) ]

  read_or : Option Bytes → Outcome (Option Bytes) → Outcome (Option Bytes)
  read_or none rest = rest
  read_or (some v) rest = b.deserialize_value v

  read_or_or :
      (o p : Option Bytes) (rest : Outcome (Option Bytes))
      → read_or o (read_or p rest) ≡ read_or (elim o [ some w ↦ some w | none ↦ p ]) rest
  unfolding read_or
  read_or_or none p rest = refl
  read_or_or (some v) p rest = refl

  module _ (lo hi : ℕ) where
    newest_step :
        (e : Bytes × Bytes) (ys : List Item)
        → IsVersion b key lo hi e
        → newest b t (ok e ∷ ys) ≡ read_or (own e.0 e.1 (decode e.0)) (newest b t ys)
    unfolding newest read_or
    newest_step e ys i =
        let d : decode e.0 ≡ ok (version key i.at) =
          ap decode i.is_key ∙ decode-encode (version key i.at) i.fits in
        elim (Bool-cases (is_visible t i.at)) [
          | inl s ↦ rw (d, newest) (rw (s, newest))
          | inr s ↦ rw (d, newest) (rw (s, newest))
        ]

    newest-reverse :
        (m : Map Bytes) (ys : List Item)
        → All (IsVersion b key lo hi) m
        → newest b t (reverse (map ok m) ++ ys) ≡ read_or (last_visible m) (newest b t ys)
    unfolding last_visible read_or
    newest-reverse [] ys a = refl
    newest-reverse (e ∷ m) ys a =
        ap (newest b t) (reverse-cons_append (ok e) (map ok m) ys)
        ∙ newest-reverse m (ok e ∷ ys) a.1
        ∙ ap (read_or (last_visible m)) (newest_step e ys a.0)
        ∙ read_or_or (last_visible m) (own e.0 e.1 (decode e.0)) (newest b t ys)

    abbrev FoundIn : Map Bytes → Option Bytes → Type 0
    FoundIn m none = (w : ℕ) → is_visible t w ≡ true → lookup (encode (version key w)) m ≡ none
    FoundIn m (some v) =
        (u : ℕ) × (is_visible t u ≡ true)
        × (lookup (encode (version key u)) m ≡ some v)
        × ((w : ℕ) → u < w → is_visible t w ≡ true → lookup (encode (version key w)) m ≡ none)

    module _ (fits : t.version < 2 ^ 64) where
      -- One more entry in front, which is older than the rest.
      skip_head :
          (e : Bytes × Bytes) (m : Map Bytes) (i : IsVersion b key lo hi e) (w : ℕ)
          → is_visible t w ≡ true
          → i.at ≢ w
          → lookup (encode (version key w)) (e ∷ m) ≡ lookup (encode (version key w)) m
      skip_head e m i w s n = lookup-tail (encode (version key w)) e.0 e.1 m (λ p.
          encode-version_ne key i.at w i.fits (omega (arith, visible-le t w s)) n
            (sym (p ∙ i.is_key)))

      older :
          (e : Bytes × Bytes) (m : Map Bytes) (i : IsVersion b key lo hi e) (u : ℕ) (v : Bytes)
          → Above e.0 m
          → is_visible t u ≡ true
          → lookup (encode (version key u)) m ≡ some v
          → i.at < u
      older e m i u v a s l = ground (
        arith,
        Above-lookup e.0 (encode (version key u)) v m a l,
        i.is_key,
        cmp-encode (version key i.at) (version key u) i.fits (omega (arith, visible-le t u s)),
        cmp_refl key,
      )

      own_at :
          (e : Bytes × Bytes) (i : IsVersion b key lo hi e)
          → own e.0 e.1 (decode e.0) ≡ (if is_visible t i.at then some e.1 else none)
      own_at e i = ap (own e.0 e.1) (ap decode i.is_key ∙ decode-encode (version key i.at) i.fits)

      found_head :
          (e : Bytes × Bytes) (m : Map Bytes) (i : IsVersion b key lo hi e) (seen : Bool)
          → is_visible t i.at ≡ seen
          → FoundIn m none
          → FoundIn (e ∷ m) (if seen then some e.1 else none)
      found_head e m i true s h = (
        i.at,
        s,
        subst (λ k. lookup k (e ∷ m) ≡ some e.1) i.is_key (lookup-head e.0 e.1 m),
        λ w j q. skip_head e m i w q (omega arith) ∙ h w q,
      )
      found_head e m i false s h =
          λ w q. skip_head e m i w q (λ p. cc (ap (is_visible t) p)) ∙ h w q

      found-cons :
          (e : Bytes × Bytes) (m : Map Bytes) (o : Option Bytes)
          → IsVersion b key lo hi e
          → Above e.0 m
          → FoundIn m o
          → FoundIn (e ∷ m) (elim o [ some w ↦ some w | none ↦ own e.0 e.1 (decode e.0) ])
      found-cons e m (some v) i a h =
          let (u, s, l, n) = h in
          let o = older e m i u v a s l in
          (
            u,
            s,
            skip_head e m i u s (omega arith) ∙ l,
            λ w j q. skip_head e m i w q (omega arith) ∙ n w j q,
          )
      found-cons e m none i a h =
          subst (FoundIn (e ∷ m)) (sym (own_at e i)) (found_head e m i (is_visible t i.at) refl h)

      found :
          (m : Map Bytes) → IsOrdered m → All (IsVersion b key lo hi) m → FoundIn m (last_visible m)
      unfolding last_visible lookup
      found [] o a = λ w q. refl
      found (e ∷ m) o a = found-cons e m (last_visible m) a.0 o.0 (found m o.1 a.1)

  module _ (good : IsInverse b) (fits : t.version < 2 ^ 64) (m : Map Bytes)
      (store : IsStore b m) where
    newest_met :
        (l : Map Bytes) → newest b t (reverse (map ok l)) ≡ newest b t (reverse (map ok l) ++ [])
    newest_met l = ap (newest b t) (sym (append-nil (reverse (map ok l))))

    abbrev seen : Map Bytes
    seen = met b key 0 t.version (omega arith) fits m

    get_value-newest : get_value MemoryEngine b t key m ≡ (newest b t (reverse (map ok seen)), m)
    unfolding get_value ◌>>=◌
    get_value-newest =
        ap (λ r. (continue (items r) (λ l. lift (newest b t (reverse l))) m))
          (range-met b key 0 t.version (omega arith) fits m (omega arith))

    lookup-seen :
        (w : ℕ)
        → is_visible t w ≡ true
        → lookup (encode (version key w)) seen ≡ lookup (encode (version key w)) m
    lookup-seen w q =
        lookup-met b key 0 t.version (omega arith) fits m w (omega arith) (visible-le t w q)

    Reads-of_found :
        (o : Option Bytes)
        → FoundIn 0 t.version seen o
        → (r : Option Bytes) × (read_or o (ok none) ≡ ok r) × Reads b t key m r
    unfolding read_or
    Reads-of_found none h = (none, refl, inr (refl, λ w q. sym (lookup-seen w q) ∙ h w q))
    Reads-of_found (some v) h =
        let (u, s, l, n) = h in
        let at_u = sym (lookup-seen u s) ∙ l in
        let (r, e) : GoodValue b (version key u) v =
          lookup-GoodValue b (version key u) v (omega (arith, visible-le t u s)) store at_u in
        (
          r,
          ap b.deserialize_value e ∙ good.value_round_trip r,
          inl (u, s, at_u ∙ ap some e, λ w j q. sym (lookup-seen w q) ∙ n w j q),
        )

    -- On a well-formed store (with a bincode whose deserializing undoes its serializing), for a
    -- transaction whose version is a `u64`: `get` returns a result and changes nothing, and the
    -- result is the value of the newest version of the key that the transaction sees, or nothing
    -- where it sees none.
    pub get_value_lem :
        (r : Option Bytes) × (get_value MemoryEngine b t key m ≡ (ok r, m)) × Reads b t key m r
    unfolding newest
    get_value_lem =
        let entries = met-IsVersion b key 0 t.version (omega arith) fits m store in
        let ordered = keep-IsOrdered (in_versions key 0 t.version) m store.ordered in
        let (r, e, reads) =
          Reads-of_found (last_visible seen) (found 0 t.version fits seen ordered entries) in
        (
          r,
          get_value-newest
              ∙ ap {B = Outcome (Option Bytes) × Map Bytes} (λ o. (o, m))
                  (newest_met seen ∙ newest-reverse 0 t.version seen [] entries ∙ e),
          reads,
        )
