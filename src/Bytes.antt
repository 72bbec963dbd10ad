-- ===== src/Bytes.antt =====
-- `Vec<u8>`: byte strings as lists of numbers, with the order of `Ord for Vec<u8>` (lexicographic).
pub mod Order
pub mod Prefix
use sqlprimer.Prelude.{
  ℕ, ◌<◌, compare, Ordering, Bool, true, false, List, [], ◌∷◌, All, ◌==◌, if◌then◌else◌,
}

abbrev pub Bytes : Type 0
Bytes = List ℕ

-- Each number is a byte.
abbrev pub IsBytes : Bytes → Type 0
IsBytes = All (λ b. b < 256)

unfoldable pub cmp : Bytes → Bytes → Ordering
cmp [] [] = Ordering.eq
cmp [] (y ∷ ys) = Ordering.lt
cmp (x ∷ xs) [] = Ordering.gt
cmp (x ∷ xs) (y ∷ ys) = elim (compare x y) [
  | Ordering.lt ↦ Ordering.lt
  | Ordering.eq ↦ cmp xs ys
  | Ordering.gt ↦ Ordering.gt
]

-- `k` begins with `p`.
unfoldable pub starts_with : Bytes → Bytes → Bool
starts_with [] k = true
starts_with (x ∷ p) [] = false
starts_with (x ∷ p) (y ∷ k) = let rest = starts_with p k in if x == y then rest else false
