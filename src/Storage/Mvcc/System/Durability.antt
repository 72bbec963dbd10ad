-- ===== src/Storage/Mvcc/System/Durability.antt =====
-- What a commit leaves for later transactions, and what a rollback takes away.
use sqlprimer.Prelude.{
  ℕ, ◌^◌, ◌<◌, ◌≡◌, ◌≢◌, ◌⊎◌, inl, sym, ap, subst, ◌∙◌, true, Option, none, some, List, arith,
  Outcome, ok,
}
use sqlprimer.Bytes.{Bytes}
use sqlprimer.OrderedMap.{Map, lookup}
use sqlprimer.Storage.Memory.{MemoryEngine}
use sqlprimer.Storage.Mvcc.Key.{next_version, txn_active, version, encode}
use sqlprimer.Storage.Mvcc.State.{TransactionState, is_visible}
use sqlprimer.Storage.Mvcc.Bincode.{Bincode, IsInverse}
use sqlprimer.Storage.Mvcc.Txn.{begin, commit, rollback, get_value}
use sqlprimer.Storage.Mvcc.Reads.{Reads, Reads-unique, visible-le}
use sqlprimer.Storage.Mvcc.Read.{get_value_lem}
use sqlprimer.Storage.Mvcc.Store.{IsStore}
use sqlprimer.Storage.Mvcc.Begin.{begin_result, lookup-begun, begun-IsStore, NextIs, NextIs-fits}
use sqlprimer.Storage.Mvcc.Finish.Commit.{commit_lem, lookup-committed, lookup-committed_active}
use sqlprimer.Storage.Mvcc.Finish.Rollback.{
  rolled_back, rollback_lem, lookup-rolled_back, lookup-rolled_back_active,
}
use sqlprimer.Storage.Mvcc.System.{System, Picks, Reach}
use sqlprimer.Storage.Mvcc.System.Begins.{NextIs-unique}
use sqlprimer.Storage.Mvcc.System.Finishes.{commits-Inv, rolled_back_version, mine_of}
use sqlprimer.Storage.Mvcc.System.Safety.{Reach-Inv}

module _ (b : Bincode) (good : IsInverse b) where
  -- Once `t` has committed, the next transaction to begin sees its version.
  begun_sees :
      (t u : TransactionState) (m m' : Map Bytes)
      → IsStore b m
      → t.version < 2 ^ 64
      → lookup (encode (txn_active t.version)) m ≡ none
      → ((n : ℕ) → NextIs b m n → t.version < n)
      → begin MemoryEngine b m ≡ (ok u, m')
      → is_visible u t.version ≡ true
  unfolding is_visible
  begun_sees t u m m' h f gone above e =
      let (nx, p, fit, has) = begin_result b good m h u m' e in
      ground (arith, has t.version f, gone, above u.version nx)

  get_value_of_Reads :
      (u : TransactionState) (key : Bytes) (value : Option Bytes) (m : Map Bytes)
      → u.version < 2 ^ 64
      → IsStore b m
      → Reads b u key m value
      → get_value MemoryEngine b u key m ≡ (ok value, m)
  get_value_of_Reads u key value m f h reads =
      let (x, e, p) = get_value_lem b u key good f m h in
      e
      ∙ ap {B = Outcome (Option Bytes) × Map Bytes} (λ z. (ok z, m))
          (Reads-unique b u key good m x value p reads)

  NextIs-moved :
      (m m' : Map Bytes) (n : ℕ)
      → lookup (encode next_version) m ≡ lookup (encode next_version) m'
      → NextIs b m n
      → NextIs b m' n
  NextIs-moved m m' n e h =
      subst (λ o. ((o ≡ none) × (n ≡ 1)) ⊎ ((o ≡ some (b.serialize_version n)) × (n < 2 ^ 64))) e h

  -- In every reachable system (with a bincode whose deserializing undoes its serializing), for a
  -- key of which a running transaction has written the value (or the deletion) `value`: its commit
  -- succeeds, and the transaction that begins next on the committed store, if one begins, gets
  -- `value` for the key.
  pub commit-get_value :
      {s : System} {t u : TransactionState} {vs : List TransactionState} (key : Bytes)
      (value : Option Bytes) (r : Outcome (Unit {0})) (m m' : Map Bytes)
      → Reach b s
      → Picks t s.live vs
      → lookup (encode (version key t.version)) s.store ≡ some (b.serialize_value value)
      → commit MemoryEngine b t s.store ≡ (r, m)
      → begin MemoryEngine b m ≡ (ok u, m')
      → (r ≡ ok tt) × (get_value MemoryEngine b u key m' ≡ (ok value, m'))
  commit-get_value {s} {t} {u} key value r m m' reach p w e f =
      let i = Reach-Inv b good reach in
      let mine = mine_of b i p in
      let after = commits-Inv b i p r m e in
      let fits = mine.bounded.version_fits in
      let q = sym (commit_lem b t s.store fits i.is_store) ∙ e in
      let (nx, begun_is, fit, has) = begin_result b good m after.is_store u m' f in
      let u_fits = NextIs-fits b m u.version nx in
      let kept : (w : ℕ)
          → w < 2 ^ 64
          → lookup (encode (version key w)) m' ≡ lookup (encode (version key w)) s.store =
        λ w g.
          ap (lookup (encode (version key w))) (sym begun_is)
          ∙ lookup-begun b good m after.is_store u.version (version key w) u_fits g (λ d. cc)
              (λ d. cc)
          ∙ ap (λ x. lookup (encode (version key w)) x.1) (sym q)
          ∙ lookup-committed b t s.store fits i.is_store (version key w) g (λ d. cc) (λ k d. cc) in
      let gone : lookup (encode (txn_active t.version)) m ≡ none =
        ap (λ x. lookup (encode (txn_active t.version)) x.1) (sym q)
        ∙ lookup-committed_active b t s.store fits i.is_store in
      let above : (n : ℕ) → NextIs b m n → t.version < n = λ n h.
        subst (λ x. t.version < x)
          (NextIs-unique b s.store i.n n good i.next (
            NextIs-moved m s.store n
              (ap (λ x. lookup (encode next_version) x.1) (sym q)
                ∙ lookup-committed b t s.store fits i.is_store next_version tt (λ d. cc)
                    (λ k d. cc))
              h))
          mine.started in
      let sees = begun_sees t u m m' after.is_store fits gone above f in
      (
        ap (λ x. x.0) (sym q),
        get_value_of_Reads u key value m' u_fits
            (subst (IsStore b) begun_is (begun-IsStore b good m after.is_store u.version u_fits))
            (inl (
              t.version,
              sees,
              kept t.version fits ∙ w,
              λ x l h.
                  let x_fits : x < 2 ^ 64 = omega (arith, visible-le u x h) in
                  kept x x_fits ∙ mine.newest key (λ d. cc) x l x_fits,
            )),
      )

  -- In every reachable system (with a bincode whose deserializing undoes its serializing), the
  -- rollback of a running transaction succeeds, and leaves no mark and no version of it; every
  -- version of another transaction is as it was.
  pub rollback-erases :
      {s : System} {t : TransactionState} {vs : List TransactionState} (r : Outcome (Unit {0}))
      (m : Map Bytes)
      → Reach b s
      → Picks t s.live vs
      → rollback MemoryEngine b t s.store ≡ (r, m)
      → (r ≡ ok tt)
        × (lookup (encode (txn_active t.version)) m ≡ none)
        × ((key : Bytes) → lookup (encode (version key t.version)) m ≡ none)
        × ((key : Bytes) (w : ℕ)
            → w < 2 ^ 64
            → w ≢ t.version
            → lookup (encode (version key w)) m ≡ lookup (encode (version key w)) s.store)
  rollback-erases {s} {t} r m reach p e =
      let i = Reach-Inv b good reach in
      let fits = (mine_of b i p).bounded.version_fits in
      let q = sym (rollback_lem b t s.store fits i.is_store) ∙ e in
      let same : rolled_back b t s.store fits i.is_store ≡ m = ap (λ x. x.1) q in
      (
        ap (λ x. x.0) (sym q),
        ap (lookup (encode (txn_active t.version))) (sym same)
            ∙ lookup-rolled_back_active b t s.store fits i.is_store,
        λ key.
            ap (lookup (encode (version key t.version))) (sym same) ∙ rolled_back_version b i p key,
        λ key w g n.
            ap (lookup (encode (version key w))) (sym same)
            ∙ lookup-rolled_back b t s.store fits i.is_store (version key w) g (λ d. cc)
                (λ k d. n (cc)) (λ k d. cc),
      )
