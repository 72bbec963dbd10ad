-- ===== src/Storage/Mvcc/System/Invariant.antt =====
-- The invariant of a system of transactions.
use sqlprimer.Prelude.{ℕ, ◌^◌, ◌<◌, ◌≢◌, inl, refl, none, List, [], ◌∷◌, All}
use sqlprimer.Bytes.{Bytes}
use sqlprimer.OrderedMap.{lookup}
use sqlprimer.Storage.Mvcc.Key.{txn_active, version, encode}
use sqlprimer.Storage.Mvcc.State.{TransactionState}
use sqlprimer.Storage.Mvcc.Bincode.{Bincode}
use sqlprimer.Storage.Mvcc.Store.{IsStore, empty-IsStore}
use sqlprimer.Storage.Mvcc.Begin.{NextIs}
use sqlprimer.Storage.Mvcc.System.{System, initial, Picks, here, there}
use sqlprimer.Storage.Mvcc.System.Live.{IsLive, Apart, AllApart}

module _ (b : Bincode) where
  pub record Inv (s : System) : Type 0 where
    pub n : ℕ
    pub is_store : IsStore b s.store
    pub next : NextIs b s.store n
    pub versions_below :
        (key : Bytes) (w : ℕ) → w < 2 ^ 64 → lookup (encode (version key w)) s.store ≢ none → w < n
    pub marks_below : (w : ℕ) → w < 2 ^ 64 → lookup (encode (txn_active w)) s.store ≢ none → w < n
    pub live : All (IsLive n s.store) s.live
    pub apart : AllApart s.live

  pub initial-Inv : Inv initial
  unfolding lookup
  initial-Inv = record {
    n = 1;
    is_store = empty-IsStore b;
    next = inl (refl, refl);
    versions_below = λ key w f h. absurd (h refl);
    marks_below = λ w f h. absurd (h refl);
    live = tt;
    apart = tt;
  }

module _ {ℓ} (P : TransactionState → Type ℓ) where
  -- What holds of all holds of the one picked and of the rest, and back.
  pub All-picked :
      {t : TransactionState} {us vs : List TransactionState}
      → Picks t us vs
      → All P us
      → P t × All P vs
  All-picked here a = a
  All-picked (there p) a = let (h, k) = All-picked p a.1 in (h, (a.0, k))

  pub All-unpicked :
      {t : TransactionState} {us vs : List TransactionState}
      → Picks t us vs
      → P t
      → All P vs
      → All P us
  All-unpicked here h k = (h, k)
  All-unpicked (there p) h k = (k.0, All-unpicked p h k.1)

pub All-zip {ℓ κ μ} :
    (P : TransactionState → Type ℓ) (Q : TransactionState → Type κ) (R : TransactionState → Type μ)
    → ((u : TransactionState) → P u → Q u → R u)
    → (us : List TransactionState) → All P us
    → All Q us
    → All R us
All-zip P Q R f [] a c = tt
All-zip P Q R f (u ∷ us) a c = (f u a.0 c.0, All-zip P Q R f us a.1 c.1)

pub Apart-sym : (t u : TransactionState) → Apart t u → Apart u t
Apart-sym t u h = (h.1, h.0)

-- The one picked is apart from the rest, and the rest from one another.
pub AllApart-picked :
    {t : TransactionState} {us vs : List TransactionState}
    → Picks t us vs
    → AllApart us
    → All (Apart t) vs × AllApart vs
AllApart-picked here a = a
AllApart-picked {t} (there {u = u} {us = us} p) a =
    let (h, k) = AllApart-picked p a.1 in
    let (one, rest) = All-picked (Apart u) p a.0 in ((Apart-sym u t one, h), (rest, k))
