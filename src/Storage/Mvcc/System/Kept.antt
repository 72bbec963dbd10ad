-- ===== src/Storage/Mvcc/System/Kept.antt =====
-- The running transactions after a write that is not blocked.
use sqlprimer.Prelude.{
  ℕ, ◌^◌, ◌<◌, ◌≡◌, ◌≢◌, ◌⊎◌, inl, inr, sym, ap, subst, ◌∙◌, true, false, Option, none, some, [],
  arith, Bool-cases, ℕ_discrete,
}
use sqlprimer.Bytes.{Bytes}
use sqlprimer.OrderedMap.{Map, lookup}
use sqlprimer.OrderedMap.Lookup.{same, eq_of_same, same_refl}
use sqlprimer.Storage.Mvcc.Key.{txn_active, txn_write, version, encode}
use sqlprimer.Storage.Mvcc.State.{TransactionState}
use sqlprimer.Storage.Mvcc.Bincode.{Bincode}
use sqlprimer.Storage.Mvcc.Write.{Blocked, written}
use sqlprimer.Storage.Mvcc.Write.Effect.{lookup-written, lookup-written_record}
use sqlprimer.Storage.Mvcc.Begin.{present}
use sqlprimer.Storage.Mvcc.System.Live.{IsLive, Apart}
use sqlprimer.Storage.Mvcc.System.Blocking.{
  Apart-version_ne, none_of_absent, ne_of_present, Blocked-of_unseen, unseen_above,
}

module _ (b : Bincode) (t : TransactionState) (key : Bytes) (value : Option Bytes) (m : Map Bytes)
    (n : ℕ) (fits : n < 2 ^ 64)
    (below : (k : Bytes) (w : ℕ) → w < 2 ^ 64 → lookup (encode (version k w)) m ≢ none → w < n)
    (mine : IsLive n m t) where
  -- Each version of a key after the write.
  pub lookup-written_at :
      (k : Bytes) (w : ℕ)
      → w < 2 ^ 64
      → ((k ≡ key) × (w ≡ t.version))
        ⊎ (lookup (encode (version k w)) (written b t key value m)
            ≡ lookup (encode (version k w)) m)
  lookup-written_at k w f = elim (Bool-cases (same k key)) [
    | inl p ↦ elim (ℕ_discrete w t.version) [
      | yes q ↦ inl (eq_of_same k key p, q)
      | no q ↦ inr (
          lookup-written b t key value m (version k w) mine.bounded.version_fits f (λ e. q (cc))
            (λ e. cc))
    ]
    | inr p ↦ inr (
        lookup-written b t key value m (version k w) mine.bounded.version_fits f
          (λ e. let d : k ≡ key = cc in cc (ap (λ x. same x key) d, same_refl key)) (λ e. cc))
  ]

  module _ (free : ¬ Blocked b t key value m) where
    -- No other running transaction has written the key.
    other_none :
        (u : TransactionState)
        → IsLive n m u
        → Apart t u
        → lookup (encode (version key u.version)) m ≡ none
    other_none u l a = elim (Bool-cases (present (lookup (encode (version key u.version)) m))) [
      | inl y ↦ absurd (
          free (
            Blocked-of_unseen b t key value m n u.version fits (below key) mine.started mine.earlier
              l.bounded.version_fits a.0 (ne_of_present _ y)
              (λ w h f p. absurd (p (l.newest key (ne_of_present _ y) w h f)))))
      | inr y ↦ none_of_absent _ y
    ]

    -- And no version of the key is above the writer's.
    above_none : (w : ℕ) → t.version < w → w < 2 ^ 64 → lookup (encode (version key w)) m ≡ none
    above_none w h f = elim (Bool-cases (present (lookup (encode (version key w)) m))) [
      | inl y ↦ absurd (
          free (
            Blocked-of_unseen b t key value m n w fits (below key) mine.started mine.earlier f
              (unseen_above t w h) (ne_of_present _ y) (λ x g k p. unseen_above t x (omega arith))))
      | inr y ↦ none_of_absent _ y
    ]

    pub written-IsLive_other :
        (u : TransactionState) → IsLive n m u → Apart t u → IsLive n (written b t key value m) u
    written-IsLive_other u l a = record {
      bounded = l.bounded;
      started = l.started;
      sees_itself = l.sees_itself;
      earlier = l.earlier;
      marked =
          lookup-written b t key value m (txn_active u.version) mine.bounded.version_fits
            l.bounded.version_fits (λ e. cc) (λ e. cc)
          ∙ l.marked;
      recorded = λ k p.
          lookup-written b t key value m (txn_write u.version k) mine.bounded.version_fits
            l.bounded.version_fits (λ e. cc) (λ e. Apart-version_ne t u mine.sees_itself a (cc))
          ∙ l.recorded k (λ q. p (same_version u l a k ∙ q));
      newest = λ k p w h f.
          newest_other u l a k (λ q. p (same_version u l a k ∙ q)) w h f (lookup-written_at k w f);
    }
      where
        same_version :
            (u : TransactionState)
            → IsLive n m u
            → Apart t u
            → (k : Bytes)
            → lookup (encode (version k u.version)) (written b t key value m)
              ≡ lookup (encode (version k u.version)) m
        same_version u l a k =
            lookup-written b t key value m (version k u.version) mine.bounded.version_fits
              l.bounded.version_fits (λ e. Apart-version_ne t u mine.sees_itself a (cc)) (λ e. cc)

        newest_other :
            (u : TransactionState)
            → IsLive n m u
            → Apart t u
            → (k : Bytes) → lookup (encode (version k u.version)) m ≢ none
            → (w : ℕ) → u.version < w
            → (f : w < 2 ^ 64)
            → ((k ≡ key) × (w ≡ t.version))
              ⊎ (lookup (encode (version k w)) (written b t key value m)
                  ≡ lookup (encode (version k w)) m)
            → lookup (encode (version k w)) (written b t key value m) ≡ none
        newest_other u l a k p w h f (inl (d, e)) = absurd (
            p (
              subst (λ x. lookup (encode (version x u.version)) m ≡ none) (sym d)
                (other_none u l a)))
        newest_other u l a k p w h f (inr e) = e ∙ l.newest k p w h f

    pub written-IsLive : IsLive n (written b t key value m) t
    written-IsLive = record {
      bounded = mine.bounded;
      started = mine.started;
      sees_itself = mine.sees_itself;
      earlier = mine.earlier;
      marked =
          lookup-written b t key value m (txn_active t.version) mine.bounded.version_fits
            mine.bounded.version_fits (λ e. cc) (λ e. cc)
          ∙ mine.marked;
      recorded = λ k p. recorded_after k p (Bool-cases (same k key));
      newest = λ k p w h f. newest_after k p w h f (Bool-cases (same k key));
    }
      where
        unchanged :
            (k : Bytes) (w : ℕ)
            → w < 2 ^ 64
            → same k key ≡ false
            → lookup (encode (version k w)) (written b t key value m)
              ≡ lookup (encode (version k w)) m
        unchanged k w f d =
            lookup-written b t key value m (version k w) mine.bounded.version_fits f
              (λ e. let q : k ≡ key = cc in cc (ap (λ x. same x key) q, same_refl key)) (λ e. cc)

        recorded_after :
            (k : Bytes)
            → lookup (encode (version k t.version)) (written b t key value m) ≢ none
            → (same k key ≡ true) ⊎ (same k key ≡ false)
            → lookup (encode (txn_write t.version k)) (written b t key value m) ≡ some []
        recorded_after k p (inl s) =
            subst (λ x. lookup (encode (txn_write t.version x)) (written b t key value m) ≡ some [])
              (sym (eq_of_same k key s))
              (lookup-written_record b t key value m mine.bounded.version_fits)
        recorded_after k p (inr d) =
            lookup-written b t key value m (txn_write t.version k) mine.bounded.version_fits
              mine.bounded.version_fits (λ e. cc)
              (λ e. let q : k ≡ key = cc in cc (ap (λ x. same x key) q, same_refl key))
            ∙ mine.recorded k (λ q. p (unchanged k t.version mine.bounded.version_fits d ∙ q))

        newest_after :
            (k : Bytes)
            → lookup (encode (version k t.version)) (written b t key value m) ≢ none
            → (w : ℕ) → t.version < w
            → w < 2 ^ 64
            → (same k key ≡ true) ⊎ (same k key ≡ false)
            → lookup (encode (version k w)) (written b t key value m) ≡ none
        newest_after k p w h f (inl s) =
            lookup-written b t key value m (version k w) mine.bounded.version_fits f
              (λ e. let q : w ≡ t.version = cc in absurd (omega arith)) (λ e. cc)
            ∙ ap (λ x. lookup (encode (version x w)) m) (eq_of_same k key s)
            ∙ above_none w h f
        newest_after k p w h f (inr d) =
            unchanged k w f d
            ∙ mine.newest k (λ q. p (unchanged k t.version mine.bounded.version_fits d ∙ q)) w h f
