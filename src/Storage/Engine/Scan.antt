-- ===== src/Storage/Engine/Scan.antt =====
-- `scan_prefix` over any lawful engine.
use sqlprimer.Prelude.{◌≡◌, refl, ap, ◌∙◌, Bool, true, false, [], ◌∷◌, map, arith, ok}
use sqlprimer.Bytes.{Bytes, IsBytes, starts_with}
use sqlprimer.Bytes.Prefix.{starts_with_self}
use sqlprimer.OrderedMap.{Map, Bound, included, excluded, unbounded, below, bad_range, keep, range}
use sqlprimer.Storage.Engine.{Engine, IsLawful, scan_prefix, prefix_end, items}
use sqlprimer.Storage.Engine.Prefix.{in_range-starts_with, in_range}

-- Every key is made of bytes.
abbrev pub HasBytes {ℓ} : {V : Type ℓ} → Map V → Type 0
HasBytes [] = Unit
HasBytes ((k, v) ∷ m) = IsBytes k × HasBytes m

bad_range-below : (p : Bytes) (hi : Bound) → below hi p ≡ true → bad_range (included p) hi ≡ false
unfolding bad_range below
bad_range-below p (included b) h = ground arith
bad_range-below p (excluded b) h = ground arith
bad_range-below p unbounded h = refl

below-prefix_end : (p : Bytes) → IsBytes p → below (prefix_end p) p ≡ true
below-prefix_end p b = ground (arith, in_range-starts_with p p b b, starts_with_self p)

pub keep_congr {ℓ} :
    {V : Type ℓ} (p q : Bytes → Bool) (m : Map V)
    → ((k : Bytes) → IsBytes k → p k ≡ q k)
    → HasBytes m
    → keep p m ≡ keep q m
unfolding keep
keep_congr p q [] h b = refl
keep_congr p q ((k, v) ∷ m) h b = ground (arith, h k b.0, keep_congr p q m h b.1)

pub range-prefix :
    (p : Bytes) (m : Map Bytes)
    → IsBytes p
    → HasBytes m
    → range (included p) (prefix_end p) m ≡ ok (keep (starts_with p) m)
unfolding range
range-prefix p m b h =
    rw (bad_range-below p (prefix_end p) (below-prefix_end p b))
      (ap ok (keep_congr (in_range p) (starts_with p) m (λ k c. in_range-starts_with p k b c) h))

-- Over a lawful engine in a valid state whose keys are byte strings, `scan_prefix` never panics,
-- and its items are the entries whose key begins with the prefix, all of them, in key order.
pub scan_prefix_lem :
    (e : Engine) (l : IsLawful e) (s : e.State) (p : Bytes)
    → l.IsValid s
    → IsBytes p
    → HasBytes (l.view s)
    → scan_prefix e s p ≡ ok (map ok (keep (starts_with p) (l.view s)))
unfolding scan_prefix
scan_prefix_lem e l s p v b h =
    l.scan-view s (included p) (prefix_end p) v ∙ ap items (range-prefix p (l.view s) b h)
