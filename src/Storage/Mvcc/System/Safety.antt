-- ===== src/Storage/Mvcc/System/Safety.antt =====
-- The running transactions of a reachable system, and their versions.
use sqlprimer.Prelude.{◌≡◌, ◌≢◌, ◌⊎◌, inl, inr, false, none, List, arith, dec_lt, Bool-cases}
use sqlprimer.Bytes.{Bytes}
use sqlprimer.OrderedMap.{lookup}
use sqlprimer.Storage.Mvcc.Key.{version, encode}
use sqlprimer.Storage.Mvcc.State.{TransactionState, is_visible}
use sqlprimer.Storage.Mvcc.Bincode.{Bincode, IsInverse}
use sqlprimer.Storage.Mvcc.Begin.{present}
use sqlprimer.Storage.Mvcc.System.{
  System, Picks, Step, begins, writes, commits, rolls_back, Reach, start, next,
}
use sqlprimer.Storage.Mvcc.System.Live.{IsLive, Apart}
use sqlprimer.Storage.Mvcc.System.Invariant.{Inv, initial-Inv, All-picked, AllApart-picked}
use sqlprimer.Storage.Mvcc.System.Begins.{begins-Inv}
use sqlprimer.Storage.Mvcc.System.Writes.{
  writes-Inv, Apart-version_ne, none_of_absent, ne_of_present,
}
use sqlprimer.Storage.Mvcc.System.Finishes.{commits-Inv, rolls_back-Inv, mine_of}

module _ (b : Bincode) (good : IsInverse b) where
  pub Step-Inv : {s u : System} → Inv b s → Step b s u → Inv b u
  Step-Inv i (begins t m e room) = begins-Inv b good i t m e room
  Step-Inv i (writes t key value r m p k e) = writes-Inv b i p key value r m k e
  Step-Inv i (commits t r m p e) = commits-Inv b i p r m e
  Step-Inv i (rolls_back t r m p e) = rolls_back-Inv b i p r m e

  pub Reach-Inv : {s : System} → Reach b s → Inv b s
  Reach-Inv start = initial-Inv b
  Reach-Inv (next r st) = Step-Inv (Reach-Inv r) st

module _ (b : Bincode) (good : IsInverse b) where
  -- In every reachable system (with a bincode whose deserializing undoes its serializing), two
  -- running transactions do not see each other's version, and have different versions.
  pub live-Apart :
      {s : System} {t u : TransactionState} {vs ws : List TransactionState}
      → Reach b s
      → Picks t s.live vs
      → Picks u vs ws
      → (is_visible t u.version ≡ false)
        × (is_visible u t.version ≡ false)
        × (t.version ≢ u.version)
  live-Apart {t = t} {u = u} r p q =
      let i = Reach-Inv b good r in
      let a = (All-picked (Apart t) q (AllApart-picked p i.apart).0).0 in
      (a.0, a.1, Apart-version_ne t u (mine_of b i p).sees_itself a)

  -- In every reachable system (with a bincode whose deserializing undoes its serializing), of two
  -- running transactions at most one has a version of a given key in the store.
  pub write_exclusion :
      {s : System} {t u : TransactionState} {vs ws : List TransactionState} (key : Bytes)
      → Reach b s
      → Picks t s.live vs
      → Picks u vs ws
      → (lookup (encode (version key t.version)) s.store ≡ none)
        ⊎ (lookup (encode (version key u.version)) s.store ≡ none)
  write_exclusion {s} {t} {u} key r p q =
      let i = Reach-Inv b good r in
      let (mine, others) = All-picked (IsLive i.n s.store) p i.live in
      let (yours, rest) = All-picked (IsLive i.n s.store) q others in
      let (a, c, ne) = live-Apart r p q in
      elim (Bool-cases (present (lookup (encode (version key t.version)) s.store))) [
        | inr n ↦ inl (none_of_absent _ n)
        | inl y ↦ elim (dec_lt t.version u.version) [
          | yes l ↦ inr (mine.newest key (ne_of_present _ y) u.version l yours.bounded.version_fits)
          | no l ↦ elim (Bool-cases (present (lookup (encode (version key u.version)) s.store))) [
            | inr n ↦ inr (none_of_absent _ n)
            | inl z ↦ inl (
                yours.newest key (ne_of_present _ z) t.version (omega arith)
                  mine.bounded.version_fits)
          ]
        ]
      ]
