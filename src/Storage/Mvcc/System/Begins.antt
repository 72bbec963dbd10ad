-- ===== src/Storage/Mvcc/System/Begins.antt =====
-- `begin` as a step of a system (storage/mvcc.rs).
use sqlprimer.Prelude.{
  ℕ, ◌+◌, ◌^◌, ◌<◌, ◌≡◌, ◌≢◌, inl, inr, refl, sym, ap, subst, ◌∙◌, true, false, Option, none, some,
  List, [], ◌∷◌, All, arith, ok, ℕ_discrete, Bool-cases,
}
use sqlprimer.Bytes.{Bytes}
use sqlprimer.OrderedMap.{Map, lookup}
use sqlprimer.OrderedMap.Lookup.{lookup-insert_self, lookup-insert_ne}
use sqlprimer.Storage.Memory.{MemoryEngine}
use sqlprimer.Storage.Mvcc.Key.{MvccKey, next_version, txn_active, txn_write, version, encode}
use sqlprimer.Storage.Mvcc.Key.Codec.{Fits}
use sqlprimer.Storage.Mvcc.State.{TransactionState, contains, is_visible, next_of}
use sqlprimer.Storage.Mvcc.Bincode.{Bincode, IsInverse}
use sqlprimer.Storage.Mvcc.Txn.{begin}
use sqlprimer.Storage.Mvcc.Write.Effect.{encode_ne}
use sqlprimer.Storage.Mvcc.Begin.{NextIs, present, begun, begin_result, lookup-begun, begun-IsStore}
use sqlprimer.Storage.Mvcc.System.{System}
use sqlprimer.Storage.Mvcc.System.Live.{IsLive, Apart}
use sqlprimer.Storage.Mvcc.System.Invariant.{Inv, All-zip}

-- The next version is one number.
pub NextIs-unique :
    (b : Bincode) (m : Map Bytes) (x y : ℕ) → IsInverse b → NextIs b m x → NextIs b m y → x ≡ y
NextIs-unique b m x y good (inl (e, p)) (inl (f, q)) = p ∙ sym q
NextIs-unique b m x y good (inl (e, p)) (inr (f, q)) = absurd (cc)
NextIs-unique b m x y good (inr (e, p)) (inl (f, q)) = absurd (cc)
NextIs-unique b m x y good (inr (e, p)) (inr (f, q)) =
    let same : b.serialize_version x ≡ b.serialize_version y = cc in
    cc (good.version_round_trip x p, good.version_round_trip y q, ap b.deserialize_version same)

contains-head : (v : ℕ) (vs : List ℕ) → contains (v ∷ vs) v ≡ true
unfolding contains
contains-head v vs = ground arith

contains-tail : (v w : ℕ) (vs : List ℕ) → contains vs w ≡ true → contains (v ∷ vs) w ≡ true
unfolding contains
contains-tail v w vs h = ground arith

-- A bound on the members bounds the list.
All-of_contains :
    (vs : List ℕ) (n : ℕ) → ((v : ℕ) → contains vs v ≡ true → v < n) → All (λ v. v < n) vs
All-of_contains [] n h = tt
All-of_contains (v ∷ vs) n h =
    (h v (contains-head v vs), All-of_contains vs n (λ w k. h w (contains-tail v w vs k)))

-- Members of a list of `u64`s are `u64`s.
contains-lt : (vs : List ℕ) (n v : ℕ) → All (λ w. w < n) vs → contains vs v ≡ true → v < n
unfolding contains
contains-lt [] n v a h = absurd (cc)
contains-lt (w ∷ vs) n v a h = ground (arith, contains-lt vs n v a.1)

next_of_small : (n : ℕ) → n + 1 < 2 ^ 64 → next_of n ≡ n + 1
next_of_small n h = omega arith

module _ (b : Bincode) (good : IsInverse b) {s : System} (i : Inv b s) (active : List ℕ)
    (room : i.n + 1 < 2 ^ 64) (fit : All (λ w. w < 2 ^ 64) active)
    (has : (v : ℕ)
      → v < 2 ^ 64
      → contains active v ≡ present (lookup (encode (txn_active v)) s.store)) where
  abbrev newcomer : TransactionState
  newcomer = record { version = i.n; active_versions = active }

  abbrev after : Map Bytes
  after = begun b i.n s.store

  same :
      (j : MvccKey)
      → Fits j
      → j ≢ next_version
      → j ≢ txn_active i.n
      → lookup (encode j) after ≡ lookup (encode j) s.store
  same j f p q = lookup-begun b good s.store i.is_store i.n j (omega arith) f p q

  active_below : (v : ℕ) → contains active v ≡ true → v < i.n
  active_below v c =
      let f = contains-lt active (2 ^ 64) v fit c in
      i.marks_below v f (λ e. cc (has v f, ap present e))

  not_active : contains active i.n ≡ false
  not_active = elim (Bool-cases (contains active i.n)) [
    | inl y ↦ absurd (omega (arith, active_below i.n y))
    | inr y ↦ y
  ]

  fresh : (k : Bytes) → lookup (encode (version k i.n)) s.store ≡ none
  fresh k = go (lookup (encode (version k i.n)) s.store) refl
    where
      go :
          (o : Option Bytes)
          → lookup (encode (version k i.n)) s.store ≡ o
          → lookup (encode (version k i.n)) s.store ≡ none
      go none e = e
      go (some v) e = absurd (omega (arith, i.versions_below k i.n (omega arith) (λ q. cc)))

  newcomer-IsLive : IsLive (i.n + 1) after newcomer
  unfolding is_visible
  newcomer-IsLive = record {
    bounded = record { version_fits = omega arith; active_fit = fit };
    started = omega arith;
    sees_itself = ground (arith, not_active);
    earlier = All-of_contains active i.n active_below;
    marked = lookup-insert_self (encode (txn_active i.n)) _ _;
    recorded = λ k h. absurd (h (same (version k i.n) (omega arith) (λ e. cc) (λ e. cc) ∙ fresh k));
    newest =
        λ k h w g f. absurd (h (same (version k i.n) (omega arith) (λ e. cc) (λ e. cc) ∙ fresh k));
  }

  older-IsLive : (u : TransactionState) → IsLive i.n s.store u → IsLive (i.n + 1) after u
  older-IsLive u l = record {
    bounded = l.bounded;
    started = omega (arith, l.started);
    sees_itself = l.sees_itself;
    earlier = l.earlier;
    marked =
        same (txn_active u.version) l.bounded.version_fits (λ e. cc)
          (λ e. let q : u.version ≡ i.n = cc in absurd (omega (arith, l.started)))
        ∙ l.marked;
    recorded = λ k h.
        same (txn_write u.version k) l.bounded.version_fits (λ e. cc) (λ e. cc)
        ∙ l.recorded k
            (λ q. h (same (version k u.version) l.bounded.version_fits (λ e. cc) (λ e. cc) ∙ q));
    newest = λ k h w g f.
        same (version k w) f (λ e. cc) (λ e. cc)
        ∙ l.newest k
            (λ q. h (same (version k u.version) l.bounded.version_fits (λ e. cc) (λ e. cc) ∙ q)) w g
            f;
  }

  newcomer-Apart : (u : TransactionState) → IsLive i.n s.store u → Apart newcomer u
  unfolding is_visible
  newcomer-Apart u l =
      (ground (arith, has u.version l.bounded.version_fits, l.marked), ground (arith, l.started))

  begun-Inv : Inv b (record { store = after; live = newcomer ∷ s.live })
  begun-Inv = record {
    n = i.n + 1;
    is_store = begun-IsStore b good s.store i.is_store i.n (omega arith);
    next = inr (
      lookup-insert_ne (encode next_version) (encode (txn_active i.n)) _ _
            (encode_ne next_version (txn_active i.n) tt (omega arith) (λ e. cc))
          ∙ lookup-insert_self (encode next_version) _ _
          ∙ ap (λ x. some (b.serialize_version x)) (next_of_small i.n room),
      room,
    );
    versions_below = λ k w f h.
        omega
          (arith, i.versions_below k w f (λ e. h (same (version k w) f (λ q. cc) (λ q. cc) ∙ e)));
    marks_below = λ w f h. elim (ℕ_discrete w i.n) [
      | yes q ↦ omega arith
      | no q ↦
          let below =
            i.marks_below w f (λ e. h (same (txn_active w) f (λ r. cc) (λ r. q (cc)) ∙ e)) in
          omega arith
    ];
    live = (
      newcomer-IsLive,
      All-zip (IsLive i.n s.store) (IsLive i.n s.store) (IsLive (i.n + 1) after)
          (λ u l k. older-IsLive u l) s.live i.live i.live,
    );
    apart = (
      All-zip (IsLive i.n s.store) (IsLive i.n s.store) (Apart newcomer)
          (λ u l k. newcomer-Apart u l) s.live i.live i.live,
      i.apart,
    );
  }

Inv-moved :
    (b : Bincode) {m n : Map Bytes} {t u : TransactionState} (l : List TransactionState)
    → m ≡ n
    → t ≡ u
    → Inv b (record { store = m; live = t ∷ l })
    → Inv b (record { store = n; live = u ∷ l })
Inv-moved b {n = n} {t = t} l p q i =
    subst (λ u. Inv b (record { store = n; live = u ∷ l })) q
      (subst (λ m. Inv b (record { store = m; live = t ∷ l })) p i)

pub begins-Inv :
    (b : Bincode)
    → IsInverse b
    → {s : System} → Inv b s
    → (t : TransactionState) (m : Map Bytes) → begin MemoryEngine b s.store ≡ (ok t, m)
    → t.version + 1 < 2 ^ 64
    → Inv b (record { store = m; live = t ∷ s.live })
begins-Inv b good {s} i t m e room =
    let (nx, p, fit, has) = begin_result b good s.store i.is_store t m e in
    let same : t.version ≡ i.n = NextIs-unique b s.store t.version i.n good nx i.next in
    Inv-moved b s.live (ap (λ x. begun b x s.store) (sym same) ∙ p)
      (ap {B = TransactionState} (λ x. record { version = x; active_versions = t.active_versions })
        (sym same))
      (begun-Inv b good i t.active_versions (subst (λ x. x + 1 < 2 ^ 64) same room) fit has)
