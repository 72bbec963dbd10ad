-- ===== src/Storage/Mvcc/System/Blocking.antt =====
-- When the conflict test of `write_inner` stops a write.
use sqlprimer.Prelude.{
  ℕ, ◌^◌, ◌<◌, ◌≡◌, ◌≢◌, inl, inr, refl, ap, subst, true, false, Option, none, some, All, arith,
  Bool-cases, dec_lt,
}
use sqlprimer.Bytes.{Bytes}
use sqlprimer.OrderedMap.{Map, lookup}
use sqlprimer.Storage.Mvcc.Key.{version, encode}
use sqlprimer.Storage.Mvcc.State.{TransactionState, is_visible}
use sqlprimer.Storage.Mvcc.Bincode.{Bincode}
use sqlprimer.Storage.Mvcc.Reads.{visible-le}
use sqlprimer.Storage.Mvcc.Write.{Blocked}
use sqlprimer.Storage.Mvcc.Begin.{present}
use sqlprimer.Storage.Mvcc.System.Live.{Apart, first_conflict-le, greatest}

pub Apart-version_ne :
    (t u : TransactionState) → is_visible t t.version ≡ true → Apart t u → t.version ≢ u.version
Apart-version_ne t u s a e = cc (ap (is_visible t) e)

present_of_ne : (o : Option Bytes) → o ≢ none → present o ≡ true
present_of_ne none h = absurd (h refl)
present_of_ne (some v) h = refl

pub none_of_absent : (o : Option Bytes) → present o ≡ false → o ≡ none
none_of_absent none h = refl
none_of_absent (some v) h = cc

pub ne_of_present : (o : Option Bytes) → present o ≡ true → o ≢ none
ne_of_present none h e = cc
ne_of_present (some v) h e = cc

module _ (b : Bincode) (t : TransactionState) (key : Bytes) (value : Option Bytes) (m : Map Bytes)
    (n : ℕ) where
  -- A version of the key that `t` does not see blocks its write.
  pub Blocked-of_unseen :
      (u : ℕ)
      → n < 2 ^ 64
      → ((w : ℕ) → w < 2 ^ 64 → lookup (encode (version key w)) m ≢ none → w < n)
      → t.version < n
      → All (λ v. v < t.version) t.active_versions
      → (u < 2 ^ 64)
      → is_visible t u ≡ false
      → lookup (encode (version key u)) m ≢ none
      → ((w : ℕ)
          → u < w
          → w < 2 ^ 64
          → lookup (encode (version key w)) m ≢ none
          → is_visible t w ≡ false)
      → Blocked b t key value m
  Blocked-of_unseen u f below g a k i p later =
      let (w, c, d, q, r) =
        greatest (λ x. present (lookup (encode (version key x)) m)) n u (below u k p)
          (present_of_ne _ p) in
      let unseen : is_visible t w ≡ false = elim (dec_lt u w) [
        | yes l ↦ later w l (omega arith) (ne_of_present _ q)
        | no l ↦ let e : u ≡ w = omega arith in subst (λ x. is_visible t x ≡ false) e i
      ] in
      (
        w,
        first_conflict-le t w (omega arith) a unseen,
        omega arith,
        unseen,
        ne_of_present _ q,
        λ x h j. elim (Bool-cases (present (lookup (encode (version key x)) m))) [
          | inl y ↦ cc (r x h (below x j (ne_of_present _ y)))
          | inr y ↦ none_of_absent _ y
        ],
      )

pub unseen_above : (t : TransactionState) (w : ℕ) → t.version < w → is_visible t w ≡ false
unseen_above t w h = elim (Bool-cases (is_visible t w)) [
  | inl y ↦ absurd (omega (arith, visible-le t w y))
  | inr y ↦ y
]
