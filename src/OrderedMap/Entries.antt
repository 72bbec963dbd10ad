-- ===== src/OrderedMap/Entries.antt =====
-- A property of all entries, under each operation.
use sqlprimer.Prelude.{Ordering, refl, ◌≡◌, subst, Bool, true, some, [], ◌∷◌, All, arith}
use sqlprimer.Bytes.{Bytes, cmp}
use sqlprimer.Bytes.Order.{eq_of_cmp}
use sqlprimer.OrderedMap.{Map, lookup, insert, remove, keep}

module _ {ℓ κ} {V : Type ℓ} (P : Bytes × V → Type κ) where
  pub All-insert : (k : Bytes) (v : V) (m : Map V) → P (k, v) → All P m → All P (insert k v m)
  unfolding insert
  All-insert k v [] p a = (p, tt)
  All-insert k v ((j, w) ∷ m) p a = ground (arith, All-insert k v m)

  pub All-remove : (k : Bytes) (m : Map V) → All P m → All P (remove k m)
  unfolding remove
  All-remove k [] a = tt
  All-remove k ((j, w) ∷ m) a = ground (arith, All-remove k m)

  pub All-keep : (p : Bytes → Bool) (m : Map V) → All P m → All P (keep p m)
  unfolding keep
  All-keep p [] a = tt
  All-keep p ((j, w) ∷ m) a = ground (arith, All-keep p m)

  pub All-lookup : (k : Bytes) (v : V) (m : Map V) → All P m → lookup k m ≡ some v → P (k, v)
  unfolding lookup
  All-lookup k v [] a h = cc
  All-lookup k v ((j, w) ∷ m) a h = go (cmp k j) refl h (All-lookup k v m a.1)
    where
      go :
          (o : Ordering)
          → cmp k j ≡ o
          → elim o [ Ordering.eq ↦ some w | _ ↦ lookup k m ] ≡ some v
          → (lookup k m ≡ some v → P (k, v))
          → P (k, v)
      go Ordering.eq e q rest = subst P (cc (eq_of_cmp k j e, q)) a.0
      go Ordering.lt e q rest = rest q
      go Ordering.gt e q rest = rest q

module _ {ℓ κ} {V : Type ℓ} (P : Bytes × V → Type κ) (p : Bytes → Bool) where
  -- What passes the test is known to pass it.
  pub All-keep_test : (m : Map V) → All P m → All (λ e. P e × (p e.0 ≡ true)) (keep p m)
  unfolding keep
  All-keep_test [] a = tt
  All-keep_test ((j, w) ∷ m) a = ground (arith, All-keep_test m)
