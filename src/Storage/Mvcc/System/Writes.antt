-- ===== src/Storage/Mvcc/System/Writes.antt =====
-- `set` and `delete` as steps of a system (storage/mvcc.rs, `write_inner`).
use sqlprimer.Prelude.{
  ◌^◌, ◌<◌, ◌≡◌, ◌⊎◌, inl, inr, sym, ap, subst, ◌∙◌, Option, none, some, List, Outcome,
}
use sqlprimer.Bytes.{Bytes, IsBytes}
use sqlprimer.OrderedMap.{Map}
use sqlprimer.Storage.Memory.{MemoryEngine}
use sqlprimer.Storage.Mvcc.Key.{next_version, txn_active}
use sqlprimer.Storage.Mvcc.State.{TransactionState}
use sqlprimer.Storage.Mvcc.Bincode.{Bincode}
use sqlprimer.Storage.Mvcc.Txn.{write_inner}
use sqlprimer.Storage.Mvcc.Write.{Blocked, written, write_inner_lem}
use sqlprimer.Storage.Mvcc.Write.Effect.{written-IsStore, lookup-written}
use sqlprimer.Storage.Mvcc.Begin.{NextIs, NextIs-fits}
use sqlprimer.Storage.Mvcc.System.{System, Picks}
use sqlprimer.Storage.Mvcc.System.Live.{IsLive, Apart}
use sqlprimer.Storage.Mvcc.System.Invariant.{
  Inv, All-picked, All-unpicked, All-zip, AllApart-picked,
}
use sqlprimer.Storage.Mvcc.System.Kept.{lookup-written_at, written-IsLive, written-IsLive_other}
pub use sqlprimer.Storage.Mvcc.System.Blocking.{Apart-version_ne, none_of_absent, ne_of_present}

module _ (b : Bincode) {s : System} (i : Inv b s) {t : TransactionState}
    {vs : List TransactionState} (p : Picks t s.live vs) (key : Bytes) (value : Option Bytes) where
  NextIs-written : NextIs b (written b t key value s.store) i.n
  NextIs-written =
      let l = (All-picked (IsLive i.n s.store) p i.live).0 in
      subst
        (λ o. ((o ≡ none) × (i.n ≡ 1)) ⊎ ((o ≡ some (b.serialize_version i.n)) × (i.n < 2 ^ 64)))
        (sym (
          lookup-written b t key value s.store next_version l.bounded.version_fits tt (λ e. cc)
            (λ e. cc)))
        i.next

  written-Inv :
      IsBytes key
      → ¬ Blocked b t key value s.store
      → Inv b (record { store = written b t key value s.store; live = s.live })
  written-Inv k free =
      let (mine, others) = All-picked (IsLive i.n s.store) p i.live in
      let fits = NextIs-fits b s.store i.n i.next in
      let (apart, rest) = AllApart-picked p i.apart in
      record {
        n = i.n;
        is_store = written-IsStore b t key value s.store mine.bounded.version_fits k i.is_store;
        next = NextIs-written;
        versions_below = λ j w f h.
            elim (lookup-written_at b t key value s.store i.n fits i.versions_below mine j w f) [
              | inl q ↦ subst (λ x. x < i.n) (sym q.1) mine.started
              | inr q ↦ i.versions_below j w f (λ e. h (q ∙ e))
            ];
        marks_below = λ w f h. i.marks_below w f (λ e. h (
            lookup-written b t key value s.store (txn_active w) mine.bounded.version_fits f
              (λ q. cc) (λ q. cc)
            ∙ e));
        live =
            All-unpicked (IsLive i.n (written b t key value s.store)) p
              (written-IsLive b t key value s.store i.n fits i.versions_below mine free)
              (All-zip (IsLive i.n s.store) (Apart t) (IsLive i.n (written b t key value s.store))
                (written-IsLive_other b t key value s.store i.n fits i.versions_below mine free) vs
                others apart);
        apart = i.apart;
      }

  pub writes-Inv :
      (r : Outcome (Unit {0})) (m : Map Bytes)
      → IsBytes key
      → write_inner MemoryEngine b t key value s.store ≡ (r, m)
      → Inv b (record { store = m; live = s.live })
  writes-Inv r m k e =
      let mine = (All-picked (IsLive i.n s.store) p i.live).0 in
      elim (write_inner_lem b t key value mine.bounded s.store i.is_store) [
        | inl (blocked, q) ↦
            subst (λ x. Inv b (record { store = x; live = s.live })) (ap (λ x. x.1) (sym q ∙ e)) i
        | inr (free, q) ↦
            subst (λ x. Inv b (record { store = x; live = s.live })) (ap (λ x. x.1) (sym q ∙ e))
              (written-Inv k free)
      ]
