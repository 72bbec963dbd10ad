-- ===== src/Storage/Mvcc/System/Finishes.antt =====
-- `commit` and `rollback` as steps of a system (storage/mvcc.rs).
use sqlprimer.Prelude.{
  ℕ, ◌^◌, ◌<◌, ◌≡◌, ◌≢◌, ◌⊎◌, inl, inr, refl, sym, ap, subst, ◌∙◌, Option, none, some, List, [],
  Outcome, ℕ_discrete,
}
use sqlprimer.Bytes.{Bytes}
use sqlprimer.OrderedMap.{Map, lookup}
use sqlprimer.Storage.Memory.{MemoryEngine}
use sqlprimer.Storage.Mvcc.Key.{next_version, txn_active, txn_write, version, encode}
use sqlprimer.Storage.Mvcc.State.{TransactionState}
use sqlprimer.Storage.Mvcc.Bincode.{Bincode}
use sqlprimer.Storage.Mvcc.Txn.{commit, rollback}
use sqlprimer.Storage.Mvcc.Store.{IsStore}
use sqlprimer.Storage.Mvcc.Finish.Commit.{
  committed, commit_lem, committed-IsStore, lookup-committed, lookup-committed_active,
}
use sqlprimer.Storage.Mvcc.Finish.Rollback.{
  rolled_back, rollback_lem, rolled_back-IsStore, lookup-rolled_back, lookup-rolled_back_write,
  lookup-rolled_back-none, lookup-rolled_back_active,
}
use sqlprimer.Storage.Mvcc.System.{System, Picks}
use sqlprimer.Storage.Mvcc.System.Live.{IsLive, Apart}
use sqlprimer.Storage.Mvcc.System.Invariant.{Inv, All-picked, All-zip, AllApart-picked}
use sqlprimer.Storage.Mvcc.System.Writes.{Apart-version_ne}

-- A store that differs from `m` only in keys of version `v`, and in no version but those of `v`,
-- which may be gone.
record Drops (v : ℕ) (m m' : Map Bytes) : Type 0 where
  counter : lookup (encode next_version) m' ≡ lookup (encode next_version) m
  mark :
      (w : ℕ)
      → w < 2 ^ 64
      → w ≢ v
      → lookup (encode (txn_active w)) m' ≡ lookup (encode (txn_active w)) m
  no_mark : lookup (encode (txn_active v)) m' ≡ none
  write :
      (w : ℕ) (k : Bytes)
      → w < 2 ^ 64
      → w ≢ v
      → lookup (encode (txn_write w k)) m' ≡ lookup (encode (txn_write w k)) m
  at :
      (w : ℕ) (k : Bytes)
      → w < 2 ^ 64
      → w ≢ v
      → lookup (encode (version k w)) m' ≡ lookup (encode (version k w)) m
  gone :
      (k : Bytes)
      → (lookup (encode (version k v)) m' ≡ lookup (encode (version k v)) m)
        ⊎ (lookup (encode (version k v)) m' ≡ none)

module _ (b : Bincode) {s : System} (i : Inv b s) {t : TransactionState}
    {vs : List TransactionState} (p : Picks t s.live vs) (m' : Map Bytes)
    (d : Drops t.version s.store m') where
  version_kept :
      (k : Bytes) (w : ℕ)
      → w < 2 ^ 64
      → lookup (encode (version k w)) m' ≢ none
      → lookup (encode (version k w)) s.store ≢ none
  version_kept k w f h e = elim (ℕ_discrete w t.version) [
    | yes q ↦ elim (d.gone k) [
      | inl g ↦ h (
          subst (λ x. lookup (encode (version k x)) m' ≡ none) (sym q)
            (g ∙ subst (λ x. lookup (encode (version k x)) s.store ≡ none) q e))
      | inr g ↦ h (subst (λ x. lookup (encode (version k x)) m' ≡ none) (sym q) g)
    ]
    | no q ↦ h (d.at w k f q ∙ e)
  ]

  version_still_none :
      (k : Bytes) (w : ℕ)
      → w < 2 ^ 64
      → lookup (encode (version k w)) s.store ≡ none
      → lookup (encode (version k w)) m' ≡ none
  version_still_none k w f e = elim (ℕ_discrete w t.version) [
    | yes q ↦ elim (d.gone k) [
      | inl g ↦
          subst (λ x. lookup (encode (version k x)) m' ≡ none) (sym q)
            (g ∙ subst (λ x. lookup (encode (version k x)) s.store ≡ none) q e)
      | inr g ↦ subst (λ x. lookup (encode (version k x)) m' ≡ none) (sym q) g
    ]
    | no q ↦ d.at w k f q ∙ e
  ]

  IsLive_other :
      (mine : IsLive i.n s.store t) (u : TransactionState)
      → IsLive i.n s.store u
      → Apart t u
      → IsLive i.n m' u
  IsLive_other mine u l a =
      let ne : u.version ≢ t.version = λ e. Apart-version_ne t u mine.sees_itself a (sym e) in
      record {
        bounded = l.bounded;
        started = l.started;
        sees_itself = l.sees_itself;
        earlier = l.earlier;
        marked = d.mark u.version l.bounded.version_fits ne ∙ l.marked;
        recorded = λ k h.
            d.write u.version k l.bounded.version_fits ne
            ∙ l.recorded k (version_kept k u.version l.bounded.version_fits h);
        newest = λ k h w g f.
            version_still_none k w f
              (l.newest k (version_kept k u.version l.bounded.version_fits h) w g f);
      }

  drop-Inv : IsStore b m' → Inv b (record { store = m'; live = vs })
  drop-Inv store =
      let (mine, others) = All-picked (IsLive i.n s.store) p i.live in
      let (apart, rest) = AllApart-picked p i.apart in
      record {
        n = i.n;
        is_store = store;
        next =
            subst
              (λ o.
                ((o ≡ none) × (i.n ≡ 1)) ⊎ ((o ≡ some (b.serialize_version i.n)) × (i.n < 2 ^ 64)))
              (sym d.counter) i.next;
        versions_below = λ k w f h. i.versions_below k w f (version_kept k w f h);
        marks_below = λ w f h. elim (ℕ_discrete w t.version) [
          | yes q ↦ subst (λ x. x < i.n) (sym q) mine.started
          | no q ↦ i.marks_below w f (λ e. h (d.mark w f q ∙ e))
        ];
        live =
            All-zip (IsLive i.n s.store) (Apart t) (IsLive i.n m') (IsLive_other mine) vs others
              apart;
        apart = rest;
      }

module _ (b : Bincode) {s : System} (i : Inv b s) {t : TransactionState}
    {vs : List TransactionState} (p : Picks t s.live vs) where
  abbrev pub mine_of : IsLive i.n s.store t
  mine_of = (All-picked (IsLive i.n s.store) p i.live).0

  committed-Drops : Drops t.version s.store (committed t.version s.store)
  committed-Drops =
      let f = mine_of.bounded.version_fits in
      let same = lookup-committed b t s.store f i.is_store in
      record {
        counter = same next_version tt (λ e. cc) (λ k e. cc);
        mark = λ w g n. same (txn_active w) g (λ e. n (cc)) (λ k e. cc);
        no_mark = lookup-committed_active b t s.store f i.is_store;
        write = λ w k g n. same (txn_write w k) g (λ e. cc) (λ j e. n (cc));
        at = λ w k g n. same (version k w) g (λ e. cc) (λ j e. cc);
        gone = λ k. inl (same (version k t.version) f (λ e. cc) (λ j e. cc));
      }

  -- No version of a running transaction outlives its rollback.
  pub rolled_back_version :
      (k : Bytes)
      → lookup
          (encode (version k t.version))
          (rolled_back b t s.store mine_of.bounded.version_fits i.is_store)
        ≡ none
  rolled_back_version k = go (lookup (encode (version k t.version)) s.store) refl
    where
      go :
          (o : Option Bytes)
          → lookup (encode (version k t.version)) s.store ≡ o
          → lookup
              (encode (version k t.version))
              (rolled_back b t s.store mine_of.bounded.version_fits i.is_store)
            ≡ none
      go none e =
          lookup-rolled_back-none b t s.store mine_of.bounded.version_fits i.is_store
            (encode (version k t.version)) e
      go (some v) e =
          (lookup-rolled_back_write b t s.store mine_of.bounded.version_fits i.is_store k []
            (mine_of.recorded k (λ q. cc))).0

  rolled_back-Drops :
      Drops t.version s.store (rolled_back b t s.store mine_of.bounded.version_fits i.is_store)
  rolled_back-Drops =
      let f = mine_of.bounded.version_fits in
      let same = lookup-rolled_back b t s.store f i.is_store in
      record {
        counter = same next_version tt (λ e. cc) (λ k e. cc) (λ k e. cc);
        mark = λ w g n. same (txn_active w) g (λ e. n (cc)) (λ k e. cc) (λ k e. cc);
        no_mark = lookup-rolled_back_active b t s.store f i.is_store;
        write = λ w k g n. same (txn_write w k) g (λ e. cc) (λ j e. cc) (λ j e. n (cc));
        at = λ w k g n. same (version k w) g (λ e. cc) (λ j e. n (cc)) (λ j e. cc);
        gone = λ k. inr (rolled_back_version k);
      }

  pub commits-Inv :
      (r : Outcome (Unit {0})) (m : Map Bytes)
      → commit MemoryEngine b t s.store ≡ (r, m)
      → Inv b (record { store = m; live = vs })
  commits-Inv r m e =
      subst (λ x. Inv b (record { store = x; live = vs }))
        (ap (λ x. x.1) (sym (commit_lem b t s.store mine_of.bounded.version_fits i.is_store) ∙ e))
        (drop-Inv b i p (committed t.version s.store) committed-Drops
          (committed-IsStore b t s.store mine_of.bounded.version_fits i.is_store))

  pub rolls_back-Inv :
      (r : Outcome (Unit {0})) (m : Map Bytes)
      → rollback MemoryEngine b t s.store ≡ (r, m)
      → Inv b (record { store = m; live = vs })
  rolls_back-Inv r m e =
      subst (λ x. Inv b (record { store = x; live = vs }))
        (ap (λ x. x.1) (sym (rollback_lem b t s.store mine_of.bounded.version_fits i.is_store) ∙ e))
        (drop-Inv b i p (rolled_back b t s.store mine_of.bounded.version_fits i.is_store)
          rolled_back-Drops
          (rolled_back-IsStore b t s.store mine_of.bounded.version_fits i.is_store))
