-- ===== src/Storage/Engine.antt =====
-- storage/engine.rs: the trait `Engine`, with `scan_prefix`, its one provided method.
pub mod Prefix
pub mod Scan
use sqlprimer.Prelude.{
  ℕ, zero, suc, ◌+◌, ◌%◌, Bool, not, Option, none, some, List, [], ◌∷◌, map, take, ◌==◌,
  if◌then◌else◌, Outcome, ok, ◌≡◌,
}
use sqlprimer.Bytes.{Bytes}
use sqlprimer.OrderedMap.{Map, Bound, included, excluded, unbounded, lookup, insert, remove, range}
use sqlprimer.OrderedMap.Order.{IsOrdered}

-- `iter().rposition(|b| *b != 255)`: the last byte that is not 255.
last_below_max : Bytes → Option ℕ
last_below_max [] = none
last_below_max (b ∷ bs) = elim (last_below_max bs) [
  | some i ↦ some (suc i)
  | none ↦ if b == 255 then none else some 0
]

-- `bound_prefix[pos] += 1`
incr_at : ℕ → Bytes → Bytes
incr_at i [] = []
incr_at zero (b ∷ bs) = ((b + 1) % 256) ∷ bs
incr_at (suc i) (b ∷ bs) = b ∷ incr_at i bs

-- The end of the range of the keys that begin with a prefix.
unfoldable pub prefix_end : Bytes → Bound
unfolding last_below_max incr_at
prefix_end p = elim (last_below_max p) [
  | some pos ↦ excluded (take (suc pos) (incr_at pos p))
  | none ↦ unbounded
]

-- The trait. An iterator is the list of its items, each an entry or a read error; what is read of
-- it is what its consumer asks for.
pub record Engine : Type 1 where
  pub State : Type 0
  pub set : State → Bytes → Bytes → Outcome (Unit {0}) × State
  pub get : State → Bytes → Outcome (Option Bytes)
  pub delete : State → Bytes → Outcome (Unit {0}) × State
  pub scan : State → Bound → Bound → Outcome (List (Outcome (Bytes × Bytes)))

module _ (e : Engine) where
  open e use {State, scan}

  unfoldable pub scan_prefix : State → Bytes → Outcome (List (Outcome (Bytes × Bytes)))
  unfolding prefix_end
  scan_prefix s p = scan s (included p) (prefix_end p)

-- What a scan of the map gives: every item an entry.
abbrev pub items : Outcome (Map Bytes) → Outcome (List (Outcome (Bytes × Bytes)))
items (ok m) = ok (map ok m)
items (Outcome.err x) = Outcome.err x
items Outcome.panic = Outcome.panic

-- What the clients of an engine rely on: it behaves as an ordered map.
pub record IsLawful (e : Engine) : Type 1 where
  pub view : e.State → Map Bytes
  pub IsValid : e.State → Type 0
  pub ordered : (s : e.State) → IsValid s → IsOrdered (view s)
  pub set_ok : (s : e.State) (k v : Bytes) → IsValid s → (e.set s k v).0 ≡ ok tt
  pub view-set :
      (s : e.State) (k v : Bytes) → IsValid s → view (e.set s k v).1 ≡ insert k v (view s)
  pub set-IsValid : (s : e.State) (k v : Bytes) → IsValid s → IsValid (e.set s k v).1
  pub get-view : (s : e.State) (k : Bytes) → IsValid s → e.get s k ≡ ok (lookup k (view s))
  pub delete_ok : (s : e.State) (k : Bytes) → IsValid s → (e.delete s k).0 ≡ ok tt
  pub view-delete :
      (s : e.State) (k : Bytes) → IsValid s → view (e.delete s k).1 ≡ remove k (view s)
  pub delete-IsValid : (s : e.State) (k : Bytes) → IsValid s → IsValid (e.delete s k).1
  pub scan-view :
      (s : e.State) (lo hi : Bound) → IsValid s → e.scan s lo hi ≡ items (range lo hi (view s))
