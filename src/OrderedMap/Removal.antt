-- ===== src/OrderedMap/Removal.antt =====
-- Removing a list of keys.
use sqlprimer.Prelude.{
  ◌≡◌, refl, sym, subst, Bool, true, false, ◌||◌, none, some, List, [], ◌∷◌, if◌then◌else◌, arith,
  All,
}
use sqlprimer.Bytes.{Bytes}
use sqlprimer.OrderedMap.{Map, lookup, remove}
use sqlprimer.OrderedMap.Lookup.{same, same-ne, lookup-remove}

unfoldable pub listed : Bytes → List Bytes → Bool
listed k [] = false
listed k (j ∷ js) = same k j || listed k js

module _ {ℓ} {V : Type ℓ} where
  unfoldable pub remove_all : List Bytes → Map V → Map V
  remove_all [] m = m
  remove_all (k ∷ ks) m = remove_all ks (remove k m)

  pub lookup-remove_all :
      (j : Bytes) (ks : List Bytes) (m : Map V)
      → lookup j (remove_all ks m) ≡ (if listed j ks then none else lookup j m)
  unfolding remove_all listed
  lookup-remove_all j [] m = refl
  lookup-remove_all j (k ∷ ks) m =
      ground (arith, lookup-remove_all j ks (remove k m), lookup-remove j k m)

  pub remove_all_induction {κ} :
      (P : Map V → Type κ)
      → ((k : Bytes) (m : Map V) → P m → P (remove k m))
      → (ks : List Bytes) (m : Map V) → P m
      → P (remove_all ks m)
  unfolding remove_all
  remove_all_induction P step [] m h = h
  remove_all_induction P step (k ∷ ks) m h =
      remove_all_induction P step ks (remove k m) (step k m h)

-- No listed key has a property that `k` lacks.
pub not_listed {κ} :
    (P : Bytes → Type κ) (k : Bytes) (ks : List Bytes) → All P ks → ¬ P k → listed k ks ≡ false
unfolding listed
not_listed P k [] a n = refl
not_listed P k (j ∷ ks) a n =
    rw (same-ne k j (λ e. n (subst P (sym e) a.0))) (not_listed P k ks a.1 n)

-- The keys of a map.
abbrev pub keys {ℓ} : {V : Type ℓ} → Map V → List Bytes
keys [] = []
keys ((k, v) ∷ m) = k ∷ keys m

pub listed-keys {ℓ} :
    {V : Type ℓ} (k : Bytes) (v : V) (m : Map V) → lookup k m ≡ some v → listed k (keys m) ≡ true
unfolding listed lookup
listed-keys k v [] h = cc
listed-keys k v ((j, w) ∷ m) h = ground (arith, listed-keys k v m)

pub All-keys {ℓ κ} :
    {V : Type ℓ} (P : Bytes → Type κ) (m : Map V) → All (λ e. P e.0) m → All P (keys m)
All-keys P [] a = tt
All-keys P (e ∷ m) a = (a.0, All-keys P m a.1)
