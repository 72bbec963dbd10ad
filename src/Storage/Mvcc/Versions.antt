-- ===== src/Storage/Mvcc/Versions.antt =====
-- The entries that a scan of the versions of one key meets.
use sqlprimer.Prelude.{
  ℕ, ◌^◌, ◌<◌, ◌≤◌, ◌≡◌, ◌≢◌, refl, ap, subst, ◌∙◌, Ordering, leb, Bool, true, ◌&&◌, Option, [],
  ◌∷◌, All, arith, ok,
}
use sqlprimer.Bytes.{Bytes, cmp}
use sqlprimer.Bytes.Order.{eq_of_cmp, gt_of_lt, cmp_refl}
use sqlprimer.OrderedMap.{Map, included, above, below, bad_range, range, keep, lookup}
use sqlprimer.OrderedMap.Lookup.{lookup-keep}
use sqlprimer.OrderedMap.Entries.{All-keep_test}
use sqlprimer.Storage.Mvcc.Key.{MvccKey, version, encode}
use sqlprimer.Storage.Mvcc.Key.Codec.{Fits, cmp-encode, compare_key}
use sqlprimer.Storage.Mvcc.Bincode.{Bincode}
use sqlprimer.Storage.Mvcc.Store.{Good, GoodValue, IsStore}

-- The key of a version lies between two versions of `key` only if it is one between them.
between :
    (key : Bytes) (lo hi : ℕ) (k : MvccKey)
    → compare_key (version key lo) k ≢ Ordering.gt
    → compare_key k (version key hi) ≢ Ordering.gt
    → (u : ℕ) × (k ≡ version key u) × (lo ≤ u) × (u ≤ hi)
between key lo hi MvccKey.next_version h j = absurd (h refl)
between key lo hi (MvccKey.txn_active v) h j = absurd (h refl)
between key lo hi (MvccKey.txn_write v k) h j = absurd (h refl)
between key lo hi (MvccKey.version k u) h j = (
  u,
  ground (arith, eq_of_cmp key k, gt_of_lt key k),
  ground (arith, eq_of_cmp key k, gt_of_lt key k, cmp_refl key),
  ground (arith, eq_of_cmp key k, gt_of_lt key k, cmp_refl key),
)

abbrev pub in_versions : Bytes → ℕ → ℕ → Bytes → Bool
in_versions key lo hi k =
    above (included (encode (version key lo))) k && below (included (encode (version key hi))) k

in_versions-not_gt :
    (key : Bytes) (lo hi : ℕ) (k : Bytes)
    → in_versions key lo hi k ≡ true
    → (cmp (encode (version key lo)) k ≢ Ordering.gt)
      × (cmp k (encode (version key hi)) ≢ Ordering.gt)
unfolding above below
in_versions-not_gt key lo hi k h = (λ e. ground (arith, e), λ e. ground (arith, e))

-- Which versions of `key` are in the range.
pub in_versions-encode :
    (key : Bytes) (lo hi u : ℕ)
    → lo < 2 ^ 64
    → hi < 2 ^ 64
    → u < 2 ^ 64
    → in_versions key lo hi (encode (version key u)) ≡ leb lo u && leb u hi
unfolding above below
in_versions-encode key lo hi u f g h = ground (
  arith,
  cmp-encode (version key lo) (version key u) f h,
  cmp-encode (version key u) (version key hi) h g,
  cmp_refl key,
)

-- An entry that the scan meets.
pub record IsVersion (b : Bincode) (key : Bytes) (lo hi : ℕ) (e : Bytes × Bytes) : Type 0 where
  pub at : ℕ
  pub value : Option Bytes
  pub is_key : e.0 ≡ encode (version key at)
  pub is_value : e.1 ≡ b.serialize_value value
  pub above_lo : lo ≤ at
  pub below_hi : at ≤ hi
  pub fits : at < 2 ^ 64

module _ (b : Bincode) (key : Bytes) (lo hi : ℕ) (f : lo < 2 ^ 64) (g : hi < 2 ^ 64) where
  Good-IsVersion :
      (e : Bytes × Bytes) → Good b e × (in_versions key lo hi e.0 ≡ true) → IsVersion b key lo hi e
  Good-IsVersion e h =
      let c : Good b e = h.0 in
      let ends = in_versions-not_gt key lo hi e.0 h.1 in
      let (u, same, l, j) =
        between key lo hi c.key
          (λ p. ends.0 (
            ap (cmp (encode (version key lo))) c.is_key
            ∙ cmp-encode (version key lo) c.key f c.fits
            ∙ p))
          (λ p. ends.1 (
            ap (λ t. cmp t (encode (version key hi))) c.is_key
            ∙ cmp-encode c.key (version key hi) c.fits g
            ∙ p)) in
      let (x, is) : GoodValue b (version key u) e.1 =
        subst (λ k. GoodValue b k e.1) same c.good_value in
      record {
        at = u;
        value = x;
        is_key = c.is_key ∙ ap encode same;
        is_value = is;
        above_lo = l;
        below_hi = j;
        fits = subst Fits same c.fits;
      }

  abbrev pub met : Map Bytes → Map Bytes
  met m = keep (in_versions key lo hi) m

  All-imp :
      (m : Map Bytes)
      → All (λ e. Good b e × (in_versions key lo hi e.0 ≡ true)) m
      → All (IsVersion b key lo hi) m
  All-imp [] a = tt
  All-imp (e ∷ m) a = (Good-IsVersion e a.0, All-imp m a.1)

  pub met-IsVersion : (m : Map Bytes) → IsStore b m → All (IsVersion b key lo hi) (met m)
  met-IsVersion m h = All-imp (met m) (All-keep_test (Good b) (in_versions key lo hi) m h.entries)

  pub range-met :
      (m : Map Bytes)
      → lo ≤ hi
      → range (included (encode (version key lo))) (included (encode (version key hi))) m
        ≡ ok (met m)
  unfolding range bad_range
  range-met m h = ground (arith, cmp-encode (version key lo) (version key hi) f g, cmp_refl key)

  pub lookup-met :
      (m : Map Bytes) (u : ℕ)
      → lo ≤ u
      → u ≤ hi
      → lookup (encode (version key u)) (met m) ≡ lookup (encode (version key u)) m
  lookup-met m u h j = ground (
    arith,
    lookup-keep (in_versions key lo hi) (encode (version key u)) m,
    in_versions-encode key lo hi u f g (omega arith),
  )
