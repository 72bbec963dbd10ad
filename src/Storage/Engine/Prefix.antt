-- ===== src/Storage/Engine/Prefix.antt =====
-- The range that `scan_prefix` asks for (storage/engine.rs).
use sqlprimer.Prelude.{
  ℕ, ◌+◌, ◌<◌, compare, Ordering, ltb, if◌then◌else◌, ◌≡◌, refl, Bool, true, false, ◌&&◌, Option,
  none, some, dec_lt, [], ◌∷◌, arith,
}
use sqlprimer.Bytes.{Bytes, IsBytes, cmp, starts_with}
use sqlprimer.OrderedMap.{included, unbounded, above, below}
use sqlprimer.Storage.Engine.{last_below_max, prefix_end}

abbrev pub in_range : Bytes → Bytes → Bool
in_range p k = above (included p) k && below (prefix_end p) k

-- A prefix all of 255 has no end.
full_prefix :
    (p k : Bytes)
    → last_below_max p ≡ none
    → IsBytes p
    → IsBytes k
    → above (included p) k ≡ starts_with p k
unfolding last_below_max above starts_with cmp
full_prefix [] [] e a b = refl
full_prefix [] (y ∷ k) e a b = refl
full_prefix (x ∷ p) [] e a b = refl
full_prefix (x ∷ p) (y ∷ k) e a b = ground (arith, full_prefix p k)

-- Where a byte of the tail is below 255, the head must agree.
below_longer :
    (x y i : ℕ) (p k : Bytes)
    → last_below_max p ≡ some i
    → below (prefix_end (x ∷ p)) (y ∷ k) ≡ elim (compare y x) [
      | Ordering.lt ↦ true
      | Ordering.eq ↦ below (prefix_end p) k
      | Ordering.gt ↦ false
    ]
unfolding prefix_end below cmp
below_longer x y i p k e = rw (e, prefix_end, last_below_max) (ground arith)

-- Where it is the last such byte, the end is one above it.
below_last :
    (x y : ℕ) (p k : Bytes)
    → last_below_max p ≡ none
    → x < 255
    → below (prefix_end (x ∷ p)) (y ∷ k) ≡ (if ltb y (x + 1) then true else false)
unfolding prefix_end below cmp
below_last x y p [] e h = rw (e, prefix_end, last_below_max) (ground arith)
below_last x y p (z ∷ k) e h = rw (e, prefix_end, last_below_max) (ground arith)

end_full : (p : Bytes) → last_below_max p ≡ none → prefix_end p ≡ unbounded
unfolding prefix_end
end_full p e = rw (e, prefix_end)

all_full : (x : ℕ) (p : Bytes) → last_below_max p ≡ none → x ≡ 255 → last_below_max (x ∷ p) ≡ none
unfolding last_below_max
all_full x p e h = rw (e, last_below_max) (ground arith)

in_range-full :
    (p k : Bytes) → last_below_max p ≡ none → IsBytes p → IsBytes k → in_range p k ≡ starts_with p k
in_range-full p k e a b = rw (end_full p e) (unfold below in ground (arith, full_prefix p k e a b))

in_range_step :
    (x y : ℕ) (p k : Bytes) (o : Option ℕ)
    → last_below_max p ≡ o
    → IsBytes (x ∷ p)
    → IsBytes (y ∷ k)
    → in_range p k ≡ starts_with p k
    → in_range (x ∷ p) (y ∷ k) ≡ starts_with (x ∷ p) (y ∷ k)
unfolding above starts_with cmp
in_range_step x y p k (some i) e a b ih = rw (below_longer x y i p k e) (ground (arith, ih))
in_range_step x y p k none e a b ih = elim (dec_lt x 255) [
  | yes h ↦ rw (below_last x y p k e h) (ground (arith, full_prefix p k e a.1 b.1))
  | no h ↦ in_range-full (x ∷ p) (y ∷ k) (all_full x p e (omega arith)) a b
]

pub in_range-starts_with : (p k : Bytes) → IsBytes p → IsBytes k → in_range p k ≡ starts_with p k
unfolding above starts_with cmp prefix_end below
in_range-starts_with [] [] a b = refl
in_range-starts_with [] (y ∷ k) a b = refl
in_range-starts_with (x ∷ p) [] a b = refl
in_range-starts_with (x ∷ p) (y ∷ k) a b =
    in_range_step x y p k (last_below_max p) refl a b (in_range-starts_with p k a.1 b.1)
