-- ===== src/Storage/Mvcc/Write.antt =====
-- What `set` and `delete` do: the conflict test, and the two entries that a write makes.
pub mod Effect
use sqlprimer.Prelude.{
  ℕ, ◌+◌, ◌%◌, ◌^◌, ◌<◌, ◌≤◌, ◌≡◌, ◌≢◌, ◌⊎◌, inl, inr, refl, sym, ap, subst, ◌∙◌, Ordering, leb,
  Bool, true, false, ◌&&◌, Option, none, some, [], ◌∷◌, map, All, arith, if◌then◌else◌, Outcome, ok,
  err, write_conflict, List, dec_lt,
}
use sqlprimer.Bytes.{Bytes, cmp, IsBytes}
use sqlprimer.Bytes.Order.{cmp_refl}
use sqlprimer.OrderedMap.{Map, lookup, insert}
use sqlprimer.OrderedMap.Order.{IsOrdered, Above, Above-lookup, lookup-Above, keep-IsOrdered}
use sqlprimer.OrderedMap.Lookup.{lookup-head, lookup-tail}
use sqlprimer.Storage.Engine.{items}
use sqlprimer.Storage.Memory.{MemoryEngine}
use sqlprimer.Storage.Mvcc.Key.{MvccKey, version, txn_write, encode, decode}
use sqlprimer.Storage.Mvcc.Key.Codec.{decode-encode, cmp-encode}
use sqlprimer.Storage.Mvcc.State.{TransactionState, is_visible, least, next_of, max_version}
use sqlprimer.Storage.Mvcc.Bincode.{Bincode}
use sqlprimer.Storage.Mvcc.Monad.{◌>>=◌, ◌>>◌, continue, lift}
use sqlprimer.Storage.Mvcc.Txn.{or_next, Item, last, check_conflict, first_conflict, write_inner}
use sqlprimer.Storage.Mvcc.Reads.{encode-version_ne}
use sqlprimer.Storage.Mvcc.Store.{IsStore, insert-IsStore}
use sqlprimer.Storage.Mvcc.Versions.{
  IsVersion, in_versions, met, met-IsVersion, range-met, lookup-met,
}

-- The versions of a transaction are `u64`.
pub record IsBounded (t : TransactionState) : Type 0 where
  pub version_fits : t.version < 2 ^ 64
  pub active_fit : All (λ v. v < 2 ^ 64) t.active_versions

pub least-lt : (vs : List ℕ) (n : ℕ) → All (λ v. v < n) vs → (v : ℕ) → least vs ≡ some v → v < n
unfolding least
least-lt [] n a v h = cc
least-lt (w ∷ vs) n a v h = go (least vs) h (λ x. least-lt vs n a.1 x)
  where
    go :
        (o : Option ℕ)
        → elim o [ none ↦ some w | some x ↦ some (if leb w x then w else x) ] ≡ some v
        → ((x : ℕ) → o ≡ some x → x < n)
        → v < n
    go none q ih = ground (arith, a.0)
    go (some x) q ih = ground (arith, a.0, ih x refl)

pub first_conflict-lt : (t : TransactionState) → IsBounded t → first_conflict t < 2 ^ 64
unfolding first_conflict
first_conflict-lt t h =
    go (least t.active_versions) (least-lt t.active_versions (2 ^ 64) h.active_fit)
  where
    go : (o : Option ℕ) → ((v : ℕ) → o ≡ some v → v < 2 ^ 64) → or_next t.version o < 2 ^ 64
    go none h = omega arith
    go (some v) h = h v refl

-- The entries that a write of `value` makes.
abbrev pub written : Bincode → TransactionState → Bytes → Option Bytes → Map Bytes → Map Bytes
written b t key value m =
    insert (encode (version key t.version)) (b.serialize_value value)
      (insert (encode (txn_write t.version key)) [] m)

module _ (b : Bincode) (key : Bytes) (lo hi : ℕ) where
  -- The last entry of a scan holds the newest version.
  abbrev LastIn : Map Bytes → Option Item → Type 0
  LastIn m o =
      ((o ≡ none) × (m ≡ []))
      ⊎ ((e : Bytes × Bytes) × (o ≡ some (ok e))
          × (i : IsVersion b key lo hi e) × (lookup (encode (version key i.at)) m ≡ some e.1)
          × ((w : ℕ) → i.at < w → w < 2 ^ 64 → lookup (encode (version key w)) m ≡ none))

  single :
      (e : Bytes × Bytes) (m : Map Bytes) (i : IsVersion b key lo hi e)
      → lookup (encode (version key i.at)) (e ∷ m) ≡ some e.1
  single e m i = subst (λ k. lookup k (e ∷ m) ≡ some e.1) i.is_key (lookup-head e.0 e.1 m)

  skip :
      (e : Bytes × Bytes) (m : Map Bytes) (i : IsVersion b key lo hi e) (w : ℕ)
      → w < 2 ^ 64
      → i.at ≢ w
      → lookup (encode (version key w)) (e ∷ m) ≡ lookup (encode (version key w)) m
  skip e m i w f n =
      lookup-tail (encode (version key w)) e.0 e.1 m
        (λ p. encode-version_ne key i.at w i.fits f n (sym (p ∙ i.is_key)))

  earlier :
      (e g : Bytes × Bytes) (m : Map Bytes) (i : IsVersion b key lo hi e)
      (j : IsVersion b key lo hi g)
      → Above e.0 m
      → lookup (encode (version key j.at)) m ≡ some g.1
      → i.at < j.at
  earlier e g m i j a l = ground (
    arith,
    Above-lookup e.0 (encode (version key j.at)) g.1 m a l,
    i.is_key,
    cmp-encode (version key i.at) (version key j.at) i.fits j.fits,
    cmp_refl key,
  )

  last-in :
      (m : Map Bytes) → IsOrdered m → All (IsVersion b key lo hi) m → LastIn m (last (map ok m))
  unfolding last lookup
  last-in [] o a = inl (refl, refl)
  last-in (e ∷ []) o a =
      inr (e, refl, a.0, single e [] a.0, λ w n f. skip e [] a.0 w f (omega arith))
  last-in (e ∷ f ∷ m) o a = elim (last-in (f ∷ m) o.1 a.1) [
    | inl (p, q) ↦ absurd (cc)
    | inr (g, p, i, l, n) ↦
        let before = earlier e g (f ∷ m) a.0 i o.0 l in
        inr (
          g,
          p,
          i,
          skip e (f ∷ m) a.0 i.at i.fits (omega arith) ∙ l,
          λ w j k. skip e (f ∷ m) a.0 w k (omega arith) ∙ n w j k,
        )
  ]

module _ (b : Bincode) (t : TransactionState) (key : Bytes) (value : Option Bytes) where
  -- The newest version of the key, from the first that the test looks at, is one that `t` does not
  -- see.
  abbrev pub Blocked : Map Bytes → Type 0
  Blocked m =
      (u : ℕ) × (first_conflict t ≤ u)
      × (u < 2 ^ 64)
      × (is_visible t u ≡ false)
      × (lookup (encode (version key u)) m ≢ none)
      × ((w : ℕ) → u < w → w < 2 ^ 64 → lookup (encode (version key w)) m ≡ none)

  module _ (fits : IsBounded t) (m : Map Bytes) (store : IsStore b m) where
    abbrev scanned : Map Bytes
    scanned = met b key (first_conflict t) max_version (first_conflict-lt t fits) (omega arith) m

    write_inner-scanned :
        write_inner MemoryEngine b t key value m
        ≡ continue
            (check_conflict t (last (map ok scanned)))
            (λ _ s. (ok tt, written b t key value s))
            m
    unfolding write_inner ◌>>=◌
    write_inner-scanned = rw (
        range-met b key (first_conflict t) max_version (first_conflict-lt t fits) (omega arith) m
          (omega (arith, first_conflict-lt t fits)))

    lookup-scanned :
        (w : ℕ)
        → first_conflict t ≤ w
        → w < 2 ^ 64
        → lookup (encode (version key w)) scanned ≡ lookup (encode (version key w)) m
    lookup-scanned w l f =
        lookup-met b key (first_conflict t) max_version (first_conflict-lt t fits) (omega arith) m w
          l (omega arith)

    check_conflict-ok :
        (e : Bytes × Bytes) (i : IsVersion b key (first_conflict t) max_version e)
        → check_conflict t (some (ok e)) ≡ (if is_visible t i.at then ok tt else err write_conflict)
    unfolding check_conflict
    check_conflict-ok e i =
        rw (ap decode i.is_key ∙ decode-encode (version key i.at) i.fits, check_conflict)

    Outcomes : Outcome (Unit {0}) → Type 0
    Outcomes r = (Blocked m × (r ≡ err write_conflict)) ⊎ ((¬ Blocked m) × (r ≡ ok tt))

    outcome_of_last :
        (e : Bytes × Bytes) (i : IsVersion b key (first_conflict t) max_version e) (seen : Bool)
        → is_visible t i.at ≡ seen
        → lookup (encode (version key i.at)) scanned ≡ some e.1
        → ((w : ℕ) → i.at < w → w < 2 ^ 64 → lookup (encode (version key w)) scanned ≡ none)
        → Outcomes (if seen then ok tt else err write_conflict)
    unfolding Outcomes
    outcome_of_last e i true s l n = inr (
      λ (u, a, c, v, d, x). elim (dec_lt u i.at) [
        | yes p ↦ cc (x i.at p i.fits, lookup-scanned i.at i.above_lo i.fits)
        | no p ↦ elim (dec_lt i.at u) [
          | yes q ↦ d (sym (lookup-scanned u a c) ∙ n u q c)
          | no q ↦ let same : u ≡ i.at = omega arith in cc (ap (is_visible t) same)
        ]
      ],
      refl,
    )
    outcome_of_last e i false s l n = inl (
      (
        i.at,
        i.above_lo,
        i.fits,
        s,
        λ x. cc (lookup-scanned i.at i.above_lo i.fits),
        λ w j f. sym (lookup-scanned w (omega (arith, i.above_lo)) f) ∙ n w j f,
      ),
      refl,
    )

    outcome_of_check : Outcomes (check_conflict t (last (map ok scanned)))
    unfolding Outcomes lookup check_conflict
    outcome_of_check =
        elim (last-in b key (first_conflict t) max_version scanned
          (keep-IsOrdered (in_versions key (first_conflict t) max_version) m store.ordered)
          (met-IsVersion b key (first_conflict t) max_version (first_conflict-lt t fits)
            (omega arith) m store)) [
              | inl (p, q) ↦ inr (
                λ (u, a, c, v, d, x).
                    d (sym (lookup-scanned u a c) ∙ ap (lookup (encode (version key u))) q),
                ap (check_conflict t) p,
              )
              | inr (e, p, i, l, n) ↦
                  subst Outcomes (sym (ap (check_conflict t) p ∙ check_conflict-ok e i))
                    (outcome_of_last e i (is_visible t i.at) refl l n)
            ]

    -- On a well-formed store, for a transaction whose versions are `u64`s: a write is a conflict
    -- and changes nothing if the newest version of the key, from the first that the test looks at,
    -- is one that the transaction does not see; otherwise it succeeds and leaves its two entries.
    pub write_inner_lem :
        (Blocked m × (write_inner MemoryEngine b t key value m ≡ (err write_conflict, m)))
        ⊎ ((¬ Blocked m)
            × (write_inner MemoryEngine b t key value m ≡ (ok tt, written b t key value m)))
    unfolding Outcomes
    write_inner_lem = elim outcome_of_check [
      | inl (blocked, e) ↦ inl (
        blocked,
        write_inner-scanned ∙ ap (λ r. continue r (λ _ s. (ok tt, written b t key value s)) m) e,
      )
      | inr (free, e) ↦ inr (
        free,
        write_inner-scanned ∙ ap (λ r. continue r (λ _ s. (ok tt, written b t key value s)) m) e,
      )
    ]
