-- ===== src/Bytes/Prefix.antt =====
-- Prefixes and the order.
use sqlprimer.Prelude.{true, ◌≡◌, ◌≢◌, refl, [], ◌∷◌, ◌++◌, arith, Ordering}
use sqlprimer.Bytes.{Bytes, starts_with, cmp}

pub starts_with-append : (p r : Bytes) → starts_with p (p ++ r) ≡ true
unfolding starts_with
starts_with-append [] r = refl
starts_with-append (x ∷ p) r = ground (arith, starts_with-append p r)

pub starts_with_self : (p : Bytes) → starts_with p p ≡ true
unfolding starts_with
starts_with_self [] = refl
starts_with_self (x ∷ p) = ground (arith, starts_with_self p)

-- What follows the prefix.
pub append_of_starts_with : (p k : Bytes) → starts_with p k ≡ true → (r : Bytes) × (k ≡ p ++ r)
unfolding starts_with
append_of_starts_with [] k h = (k, refl)
append_of_starts_with (x ∷ p) [] h = cc
append_of_starts_with (x ∷ p) (y ∷ k) h =
    let (r, e) = append_of_starts_with p k (ground arith) in (r, ground (arith, e))

-- Behind a common prefix, the order is that of the rests.
pub cmp-append : (p a b : Bytes) → cmp (p ++ a) (p ++ b) ≡ cmp a b
unfolding cmp
cmp-append [] a b = refl
cmp-append (x ∷ p) a b = ground (arith, cmp-append p a b)

-- What lies between two keys with a common prefix has the prefix.
pub starts_with_between :
    (p a b k : Bytes)
    → cmp (p ++ a) k ≢ Ordering.gt
    → cmp k (p ++ b) ≢ Ordering.gt
    → starts_with p k ≡ true
unfolding cmp starts_with
starts_with_between [] a b k h j = refl
starts_with_between (x ∷ p) a b [] h j = absurd (h refl)
starts_with_between (x ∷ p) a b (y ∷ k) h j = ground (arith, starts_with_between p a b k)
