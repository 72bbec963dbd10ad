-- ===== src/OrderedMap/Order.antt =====
-- The order of the entries of a map.
use sqlprimer.Prelude.{subst, Ordering, ◌≡◌, refl, Bool, none, some, [], ◌∷◌, arith}
use sqlprimer.Bytes.{Bytes, cmp}
use sqlprimer.Bytes.Order.{◌≺◌, cmp_refl, eq_of_cmp, lt_of_gt, gt_of_lt, lt_trans}
use sqlprimer.OrderedMap.{Map, lookup, insert, remove, keep}

module _ {ℓ} {V : Type ℓ} where
  -- Every key of the map is above `k`.
  abbrev pub Above : Bytes → Map V → Type 0
  Above k [] = Unit
  Above k ((j, w) ∷ m) = (k ≺ j) × Above k m

  abbrev pub IsOrdered : Map V → Type 0
  IsOrdered [] = Unit
  IsOrdered ((j, w) ∷ m) = Above j m × IsOrdered m

  Above-trans : (i j : Bytes) (m : Map V) → i ≺ j → Above j m → Above i m
  Above-trans i j [] h a = tt
  Above-trans i j ((k, w) ∷ m) h a = (lt_trans i j k h a.0, Above-trans i j m h a.1)

  Above-insert : (i k : Bytes) (v : V) (m : Map V) → i ≺ k → Above i m → Above i (insert k v m)
  unfolding insert
  Above-insert i k v [] h a = (h, tt)
  Above-insert i k v ((j, w) ∷ m) h a = ground (arith, Above-insert i k v m)

  Above-remove : (i k : Bytes) (m : Map V) → Above i m → Above i (remove k m)
  unfolding remove
  Above-remove i k [] a = tt
  Above-remove i k ((j, w) ∷ m) a = ground (arith, Above-remove i k m)

  Above-keep : (i : Bytes) (p : Bytes → Bool) (m : Map V) → Above i m → Above i (keep p m)
  unfolding keep
  Above-keep i p [] a = tt
  Above-keep i p ((j, w) ∷ m) a = ground (arith, Above-keep i p m)

  pub insert-IsOrdered : (k : Bytes) (v : V) (m : Map V) → IsOrdered m → IsOrdered (insert k v m)
  unfolding insert
  insert-IsOrdered k v [] h = (tt, tt)
  insert-IsOrdered k v ((j, w) ∷ m) h = ground (
    arith,
    insert-IsOrdered k v m,
    Above-trans k j m,
    Above-insert j k v m,
    lt_of_gt k j,
    eq_of_cmp k j,
  )

  pub remove-IsOrdered : (k : Bytes) (m : Map V) → IsOrdered m → IsOrdered (remove k m)
  unfolding remove
  remove-IsOrdered k [] h = tt
  remove-IsOrdered k ((j, w) ∷ m) h = ground (arith, remove-IsOrdered k m, Above-remove j k m)

  pub keep-IsOrdered : (p : Bytes → Bool) (m : Map V) → IsOrdered m → IsOrdered (keep p m)
  unfolding keep
  keep-IsOrdered p [] h = tt
  keep-IsOrdered p ((j, w) ∷ m) h = ground (arith, keep-IsOrdered p m, Above-keep j p m)

  pub lookup-Above : (k : Bytes) (m : Map V) → Above k m → lookup k m ≡ none
  unfolding lookup
  lookup-Above k [] a = refl
  lookup-Above k ((j, w) ∷ m) a = ground (arith, lookup-Above k m)

  lookup_head : (k : Bytes) (v : V) (m : Map V) → lookup k ((k, v) ∷ m) ≡ some v
  unfolding lookup
  lookup_head k v m = ground (arith, cmp_refl k)

  lookup-Above_of_lt :
      (i j : Bytes) (w : V) (m : Map V) → i ≺ j → Above j m → lookup i ((j, w) ∷ m) ≡ none
  unfolding lookup
  lookup-Above_of_lt i j w m h a = ground (arith, lookup-Above i m, Above-trans i j m h a)

  lookup_tail : (i k : Bytes) (v : V) (m : Map V) → i ≺ k → lookup k ((i, v) ∷ m) ≡ lookup k m
  unfolding lookup
  lookup_tail i k v m h = ground (arith, gt_of_lt i k h)

  -- Where one key heads both maps, the tails have the same lookups too.
  tails_agree :
      (i : Bytes) (v w : V) (m n : Map V)
      → Above i m
      → Above i n
      → ((k : Bytes) → lookup k ((i, v) ∷ m) ≡ lookup k ((i, w) ∷ n))
      → (k : Bytes) → lookup k m ≡ lookup k n
  unfolding lookup
  tails_agree i v w m n a b h k =
      ground (arith, h k, lookup-Above i m a, lookup-Above i n b, eq_of_cmp k i)

  same_heads :
      (i : Bytes) (v w : V) (m n : Map V)
      → (((k : Bytes) → lookup k m ≡ lookup k n) → m ≡ n)
      → Above i m
      → Above i n
      → ((k : Bytes) → lookup k ((i, v) ∷ m) ≡ lookup k ((i, w) ∷ n))
      → (i, v) ∷ m ≡ (i, w) ∷ n
  same_heads i v w m n ih a b h =
      cc (h i, lookup_head i v m, lookup_head i w n, ih (tails_agree i v w m n a b h))

  lookup_empty : (k : Bytes) → lookup {V = V} k [] ≡ none
  unfolding lookup
  lookup_empty k = refl

  pub eq_of_lookup :
      (m n : Map V) → IsOrdered m → IsOrdered n → ((k : Bytes) → lookup k m ≡ lookup k n) → m ≡ n
  eq_of_lookup [] [] a b h = refl
  eq_of_lookup [] ((j, w) ∷ n) a b h = cc (h j, lookup_head j w n, lookup_empty j)
  eq_of_lookup ((i, v) ∷ m) [] a b h = cc (h i, lookup_head i v m, lookup_empty i)
  eq_of_lookup ((i, v) ∷ m) ((j, w) ∷ n) a b h = heads (cmp i j) refl (eq_of_lookup m n a.1 b.1)
    where
      heads :
          (o : Ordering)
          → cmp i j ≡ o
          → (((k : Bytes) → lookup k m ≡ lookup k n) → m ≡ n)
          → (i, v) ∷ m ≡ (j, w) ∷ n
      heads Ordering.lt e ih = cc (h i, lookup_head i v m, lookup-Above_of_lt i j w n e b.0)
      heads Ordering.gt e ih =
          cc (h j, lookup_head j w n, lookup-Above_of_lt j i v m (lt_of_gt i j e) a.0)
      heads Ordering.eq e ih =
          subst
            (λ t.
              Above t n
              → ((k : Bytes) → lookup k ((i, v) ∷ m) ≡ lookup k ((t, w) ∷ n))
              → (i, v) ∷ m ≡ (t, w) ∷ n)
            (eq_of_cmp i j e) (same_heads i v w m n ih a.0) b.0 h

  pub Above-lookup : (i k : Bytes) (v : V) (m : Map V) → Above i m → lookup k m ≡ some v → i ≺ k
  unfolding lookup
  Above-lookup i k v [] a h = cc
  Above-lookup i k v ((j, w) ∷ m) a h = ground (arith, Above-lookup i k v m, eq_of_cmp k j)
