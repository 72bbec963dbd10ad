-- ===== src/Storage/Mvcc/System/Live.antt =====
-- What holds of each running transaction, and what keeps it.
use sqlprimer.Prelude.{
  ℕ, zero, suc, ◌+◌, ◌^◌, ◌<◌, ◌≤◌, ◌≡◌, ◌≢◌, inl, inr, refl, sym, ap, subst, Bool, true, false,
  Option, none, some, List, [], ◌∷◌, All, arith, leb, if◌then◌else◌, Bool-cases, dec_lt,
}
use sqlprimer.Bytes.{Bytes}
use sqlprimer.OrderedMap.{Map, lookup}
use sqlprimer.Storage.Mvcc.Key.{txn_active, txn_write, version, encode}
use sqlprimer.Storage.Mvcc.State.{TransactionState, contains, is_visible, least}
use sqlprimer.Storage.Mvcc.Txn.{first_conflict, or_next}
use sqlprimer.Storage.Mvcc.Write.{least-lt, IsBounded}

-- Of a transaction `t` over a store `m` whose next version is `n`.
pub record IsLive (n : ℕ) (m : Map Bytes) (t : TransactionState) : Type 0 where
  pub bounded : IsBounded t
  pub started : t.version < n
  pub sees_itself : is_visible t t.version ≡ true
  pub earlier : All (λ v. v < t.version) t.active_versions
  pub marked : lookup (encode (txn_active t.version)) m ≡ some []
  -- Each version that it wrote is recorded, and is the newest of its key.
  pub recorded :
      (key : Bytes)
      → lookup (encode (version key t.version)) m ≢ none
      → lookup (encode (txn_write t.version key)) m ≡ some []
  pub newest :
      (key : Bytes)
      → lookup (encode (version key t.version)) m ≢ none
      → (w : ℕ) → t.version < w
      → w < 2 ^ 64
      → lookup (encode (version key w)) m ≡ none

-- Neither sees what the other writes.
abbrev pub Apart : TransactionState → TransactionState → Type 0
Apart t u = (is_visible t u.version ≡ false) × (is_visible u t.version ≡ false)

abbrev pub AllApart : List TransactionState → Type 0
AllApart [] = Unit
AllApart (t ∷ ts) = All (Apart t) ts × AllApart ts

least-le : (vs : List ℕ) (u : ℕ) → contains vs u ≡ true → (x : ℕ) × (least vs ≡ some x) × (x ≤ u)
unfolding contains least
least-le [] u h = absurd (cc)
least-le (v ∷ vs) u h = go (contains vs u) refl (least-le vs u)
  where
    go :
        (c : Bool)
        → contains vs u ≡ c
        → (contains vs u ≡ true → (x : ℕ) × (least vs ≡ some x) × (x ≤ u))
        → (x : ℕ) × (least (v ∷ vs) ≡ some x) × (x ≤ u)
    go true c ih = let (x, p, q) = ih c in (if leb v x then v else x, rw (p, least), ground arith)
    go false c ih = head (least vs) refl
      where
        head : (o : Option ℕ) → least vs ≡ o → (x : ℕ) × (least (v ∷ vs) ≡ some x) × (x ≤ u)
        head none e = (v, rw (e, least), ground (arith, h, c))
        head (some x) e = (if leb v x then v else x, rw (e, least), ground (arith, h, c))

-- The conflict test looks at every version that the transaction does not see.
pub first_conflict-le :
    (t : TransactionState) (u : ℕ)
    → t.version + 1 < 2 ^ 64
    → All (λ v. v < t.version) t.active_versions
    → is_visible t u ≡ false
    → first_conflict t ≤ u
unfolding first_conflict is_visible
first_conflict-le t u f a h = elim (Bool-cases (contains t.active_versions u)) [
  | inl c ↦
      let (x, p, q) = least-le t.active_versions u c in
      subst (λ o. or_next t.version o ≤ u) (sym p) q
  | inr c ↦
      beyond (ground (arith, h, c)) (least t.active_versions)
        (least-lt t.active_versions t.version a)
]
  where
    beyond :
        t.version < u
        → (o : Option ℕ) → ((v : ℕ) → o ≡ some v → v < t.version)
        → or_next t.version o ≤ u
    beyond g none k = omega arith
    beyond g (some x) k = omega (arith, k x refl)

below_last : (w n : ℕ) → w < suc n → w ≢ n → w < n
below_last w n h k = omega arith

-- The last number below `n` that passes a test that some number passes.
pub greatest :
    (p : ℕ → Bool) (n w : ℕ)
    → w < n
    → p w ≡ true
    → (u : ℕ) × (w ≤ u) × (u < n) × (p u ≡ true) × ((x : ℕ) → u < x → x < n → p x ≡ false)
greatest p zero w h q = absurd (omega arith)
greatest p (suc n) w h q = elim (Bool-cases (p n)) [
  | inl y ↦ (n, omega arith, omega arith, y, λ x a c. absurd (omega arith))
  | inr y ↦
      let below : w < n = below_last w n h (λ e. cc (ap p e)) in
      let (u, a, c, d, f) = greatest p n w below q in
      (
        u,
        a,
        omega arith,
        d,
        λ x g k. elim (dec_lt x n) [
          | yes l ↦ f x g l
          | no l ↦ let e : n ≡ x = omega arith in subst (λ i. p i ≡ false) e y
        ],
      )
]
