-- ===== src/OrderedMap.antt =====
-- `BTreeMap<Vec<u8>, V>` of the standard library, as the list of its entries in key order.
pub mod Lookup
pub mod Order
pub mod Entries
pub mod Removal
use sqlprimer.Prelude.{
  Ordering, Bool, true, false, not, ◌&&◌, ◌||◌, Option, none, some, List, [], ◌∷◌, if◌then◌else◌,
  Outcome, ok, panic,
}
use sqlprimer.Bytes.{Bytes, cmp}

abbrev pub Map {ℓ} : Type ℓ → Type ℓ
Map V = List (Bytes × V)

-- `std::ops::Bound<Vec<u8>>`
pub data Bound : Type 0 where
  included : Bytes → Bound
  excluded : Bytes → Bound
  unbounded : Bound

unfoldable pub above : Bound → Bytes → Bool
above (included a) k = elim (cmp a k) [ Ordering.gt ↦ false | _ ↦ true ]
above (excluded a) k = elim (cmp a k) [ Ordering.lt ↦ true | _ ↦ false ]
above unbounded k = true

unfoldable pub below : Bound → Bytes → Bool
below (included b) k = elim (cmp k b) [ Ordering.gt ↦ false | _ ↦ true ]
below (excluded b) k = elim (cmp k b) [ Ordering.lt ↦ true | _ ↦ false ]
below unbounded k = true

-- `BTreeMap::range` panics if the range starts after its end, or both ends exclude one key.
unfoldable pub bad_range : Bound → Bound → Bool
bad_range (included a) (included b) = elim (cmp a b) [ Ordering.gt ↦ true | _ ↦ false ]
bad_range (included a) (excluded b) = elim (cmp a b) [ Ordering.gt ↦ true | _ ↦ false ]
bad_range (excluded a) (included b) = elim (cmp a b) [ Ordering.gt ↦ true | _ ↦ false ]
bad_range (excluded a) (excluded b) = elim (cmp a b) [ Ordering.lt ↦ false | _ ↦ true ]
bad_range lo hi = false

module _ {ℓ} {V : Type ℓ} where
  unfoldable pub lookup : Bytes → Map V → Option V
  lookup k [] = none
  lookup k ((j, v) ∷ m) = elim (cmp k j) [ Ordering.eq ↦ some v | _ ↦ lookup k m ]

  unfoldable pub insert : Bytes → V → Map V → Map V
  insert k v [] = (k, v) ∷ []
  insert k v ((j, w) ∷ m) = elim (cmp k j) [
    | Ordering.lt ↦ (k, v) ∷ (j, w) ∷ m
    | Ordering.eq ↦ (k, v) ∷ m
    | Ordering.gt ↦ (j, w) ∷ insert k v m
  ]

  unfoldable pub remove : Bytes → Map V → Map V
  remove k [] = []
  remove k ((j, w) ∷ m) = elim (cmp k j) [ Ordering.eq ↦ remove k m | _ ↦ (j, w) ∷ remove k m ]

  -- The entries whose key passes a test, in order.
  unfoldable pub keep : (Bytes → Bool) → Map V → Map V
  keep p [] = []
  keep p ((j, w) ∷ m) = let rest = keep p m in if p j then (j, w) ∷ rest else rest

  unfoldable pub range : Bound → Bound → Map V → Outcome (Map V)
  range lo hi m = if bad_range lo hi then panic else ok (keep (λ k. above lo k && below hi k) m)
