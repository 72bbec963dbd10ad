-- ===== src/Storage/Mvcc/System/Isolation.antt =====
-- What a running transaction reads while the others make their calls.
use sqlprimer.Prelude.{
  ℕ, ◌^◌, ◌<◌, ◌≡◌, ◌≢◌, inl, inr, refl, sym, ap, ◌∙◌, true, false, Option, List, arith, Outcome,
  ok,
}
use sqlprimer.Bytes.{Bytes}
use sqlprimer.OrderedMap.{Map, lookup}
use sqlprimer.Storage.Memory.{MemoryEngine}
use sqlprimer.Storage.Mvcc.Key.{version, encode}
use sqlprimer.Storage.Mvcc.State.{TransactionState, is_visible}
use sqlprimer.Storage.Mvcc.Bincode.{Bincode, IsInverse}
use sqlprimer.Storage.Mvcc.Txn.{get_value}
use sqlprimer.Storage.Mvcc.Reads.{Reads-congr, Reads-unique, visible-le}
use sqlprimer.Storage.Mvcc.Read.{get_value_lem}
use sqlprimer.Storage.Mvcc.Store.{IsStore}
use sqlprimer.Storage.Mvcc.Begin.{begin_result, lookup-begun, NextIs-fits}
use sqlprimer.Storage.Mvcc.Write.{write_inner_lem}
use sqlprimer.Storage.Mvcc.Write.Effect.{lookup-written}
use sqlprimer.Storage.Mvcc.Finish.Commit.{commit_lem, lookup-committed}
use sqlprimer.Storage.Mvcc.Finish.Rollback.{rollback_lem, lookup-rolled_back}
use sqlprimer.Storage.Mvcc.System.{
  System, Picks, here, there, Step, begins, writes, commits, rolls_back, Reach, next,
}
use sqlprimer.Storage.Mvcc.System.Live.{Apart, AllApart}
use sqlprimer.Storage.Mvcc.System.Invariant.{Inv, All-picked, Apart-sym}
use sqlprimer.Storage.Mvcc.System.Finishes.{mine_of}
use sqlprimer.Storage.Mvcc.System.Safety.{Reach-Inv}

-- Two different transactions of a list in which all are apart are apart.
pub Apart-picked :
    {t u : TransactionState} {us vs ws : List TransactionState}
    → Picks t us vs
    → Picks u us ws
    → t ≢ u
    → AllApart us
    → Apart t u
Apart-picked {t} {u} here here n a = absurd (n refl)
Apart-picked {t} {u} here (there q) n a = (All-picked (Apart t) q a.0).0
Apart-picked {t} {u} (there p) here n a = Apart-sym u t ((All-picked (Apart u) p a.0).0)
Apart-picked {t} {u} (there p) (there q) n a = Apart-picked p q n a.1

-- The transaction that makes a step.
abbrev pub actor : {b : Bincode} {s u : System} → Step b s u → TransactionState
actor (begins t m e room) = t
actor (writes t key value r m p k e) = t
actor (commits t r m p e) = t
actor (rolls_back t r m p e) = t

module _ (b : Bincode) (good : IsInverse b) where
  module _ (t : TransactionState) (key : Bytes) (m m' : Map Bytes) where
    -- What is read depends on the visible versions only.
    get_value_congr :
        t.version < 2 ^ 64
        → IsStore b m
        → IsStore b m'
        → ((w : ℕ)
            → is_visible t w ≡ true
            → lookup (encode (version key w)) m ≡ lookup (encode (version key w)) m')
        → (r : Option Bytes) × (get_value MemoryEngine b t key m ≡ (ok r, m))
          × (get_value MemoryEngine b t key m' ≡ (ok r, m'))
    get_value_congr f h k same =
        let (x, e, p) = get_value_lem b t key good f m h in
        let (y, d, q) = get_value_lem b t key good f m' k in
        (
          x,
          e,
          d
              ∙ ap {B = Outcome (Option Bytes) × Map Bytes} (λ z. (ok z, m'))
                  (Reads-unique b t key good m' y x q (Reads-congr b t key m m' x same p)),
        )

  -- The versions in the store after a step, but for those of who makes it.
  Step-lookup :
      {s u : System} (i : Inv b s) (st : Step b s u) (key : Bytes) (w : ℕ)
      → w < 2 ^ 64
      → w ≢ (actor st).version
      → lookup (encode (version key w)) s.store ≡ lookup (encode (version key w)) u.store
  Step-lookup {s} i (begins t m e room) key w f n =
      let (nx, p, fit, has) = begin_result b good s.store i.is_store t m e in
      sym (
        lookup-begun b good s.store i.is_store t.version (version key w)
          (NextIs-fits b s.store t.version nx) f (λ q. cc) (λ q. cc))
      ∙ ap (lookup (encode (version key w))) p
  Step-lookup {s} i (writes t k value r m p h e) key w f n =
      let mine = mine_of b i p in
      elim (write_inner_lem b t k value mine.bounded s.store i.is_store) [
        | inl (blocked, q) ↦ ap (λ x. lookup (encode (version key w)) x.1) (sym q ∙ e)
        | inr (free, q) ↦
            sym (
              lookup-written b t k value s.store (version key w) mine.bounded.version_fits f
                (λ d. n (cc)) (λ d. cc))
            ∙ ap (λ x. lookup (encode (version key w)) x.1) (sym q ∙ e)
      ]
  Step-lookup {s} i (commits t r m p e) key w f n =
      let fits = (mine_of b i p).bounded.version_fits in
      sym (lookup-committed b t s.store fits i.is_store (version key w) f (λ d. cc) (λ k d. cc))
      ∙ ap (λ x. lookup (encode (version key w)) x.1)
          (sym (commit_lem b t s.store fits i.is_store) ∙ e)
  Step-lookup {s} i (rolls_back t r m p e) key w f n =
      let fits = (mine_of b i p).bounded.version_fits in
      sym (
        lookup-rolled_back b t s.store fits i.is_store (version key w) f (λ d. cc) (λ k d. n (cc))
          (λ k d. cc))
      ∙ ap (λ x. lookup (encode (version key w)) x.1)
          (sym (rollback_lem b t s.store fits i.is_store) ∙ e)

  -- Who makes a step is not seen by another transaction that runs before and after.
  unseen_actor :
      {s u : System} {t : TransactionState} {vs ws : List TransactionState}
      → Inv b s
      → Inv b u
      → (st : Step b s u) → Picks t s.live vs
      → Picks t u.live ws
      → actor st ≢ t
      → is_visible t (actor st).version ≡ false
  unseen_actor i j (begins u m e room) p q n = (Apart-picked here q n j.apart).1
  unseen_actor i j (writes u key value r m pu k e) p q n = (Apart-picked pu p n i.apart).1
  unseen_actor i j (commits u r m pu e) p q n = (Apart-picked pu p n i.apart).1
  unseen_actor i j (rolls_back u r m pu e) p q n = (Apart-picked pu p n i.apart).1

  -- A step that another transaction makes does not change what a running one reads: its `get`
  -- succeeds before and after, with the same result.
  pub get_value-stable :
      {s u : System} {t : TransactionState} {vs ws : List TransactionState} (key : Bytes)
      → Reach b s
      → (st : Step b s u) → Picks t s.live vs
      → Picks t u.live ws
      → actor st ≢ t
      → (r : Option Bytes) × (get_value MemoryEngine b t key s.store ≡ (ok r, s.store))
        × (get_value MemoryEngine b t key u.store ≡ (ok r, u.store))
  get_value-stable {s} {u} {t} key r st p q n =
      let i = Reach-Inv b good r in
      let j = Reach-Inv b good (next r st) in
      let mine = mine_of b i p in
      get_value_congr t key s.store u.store mine.bounded.version_fits i.is_store j.is_store (λ w h.
        Step-lookup i st key w (omega (arith, visible-le t w h, mine.bounded.version_fits))
          (λ e. cc (unseen_actor i j st p q n, h, ap (is_visible t) e)))

-- Steps that transactions other than `t` make while `t` runs.
pub data Others (b : Bincode) (t : TransactionState) : System → System → Type 0 where
  none_yet : {s : System} → Others b t s s
  and_then :
      {s u v : System} {ws : List TransactionState} (st : Step b s u)
      → actor st ≢ t
      → Picks t u.live ws
      → Others b t u v
      → Others b t s v

module _ (b : Bincode) (good : IsInverse b) where
  -- In every reachable system (with a bincode whose deserializing undoes its serializing): however
  -- many steps other transactions make while a transaction runs, a `get` of it succeeds after them
  -- with the result that it had before them.
  pub repeatable_read :
      {t : TransactionState} {s v : System} {vs : List TransactionState} (key : Bytes)
      → Reach b s
      → Picks t s.live vs
      → Others b t s v
      → (r : Option Bytes) × (get_value MemoryEngine b t key s.store ≡ (ok r, s.store))
        × (get_value MemoryEngine b t key v.store ≡ (ok r, v.store))
  repeatable_read {t} {s} {v} key r p none_yet =
      let i = Reach-Inv b good r in
      let (x, e, reads) =
        get_value_lem b t key good (mine_of b i p).bounded.version_fits s.store i.is_store in
      (x, e, e)
  repeatable_read {t} {s} {v} key r p (and_then {u = u} st n q rest) =
      let (x, e, d) = get_value-stable b good key r st p q n in
      let (y, f, g) = repeatable_read key (next r st) q rest in
      let same : (ok y, u.store) ≡ (ok x, u.store) = sym f ∙ d in
      (x, e, g ∙ ap {B = Outcome (Option Bytes) × Map Bytes} (λ z. (z.0, v.store)) same)
