-- ===== src/Storage/Mvcc/Reads.antt =====
-- What a transaction should read, as a relation to the entries of the store.
use sqlprimer.Prelude.{
  ℕ, ◌^◌, ◌<◌, ◌≤◌, ◌≡◌, ◌≢◌, ◌⊎◌, inl, inr, sym, ap, ◌∙◌, true, Option, none, some, dec_lt, arith,
}
use sqlprimer.Bytes.{Bytes}
use sqlprimer.OrderedMap.{Map, lookup}
use sqlprimer.Storage.Mvcc.Key.{version, encode}
use sqlprimer.Storage.Mvcc.Key.Codec.{encode-injective}
use sqlprimer.Storage.Mvcc.State.{TransactionState, is_visible}
use sqlprimer.Storage.Mvcc.Bincode.{Bincode, IsInverse}

pub visible-le : (t : TransactionState) (v : ℕ) → is_visible t v ≡ true → v ≤ t.version
unfolding is_visible
visible-le t v h = ground arith

pub encode-version_ne :
    (key : Bytes) (u w : ℕ)
    → u < 2 ^ 64
    → w < 2 ^ 64
    → u ≢ w
    → encode (version key u) ≢ encode (version key w)
encode-version_ne key u w h j n e = n (cc (encode-injective (version key u) (version key w) h j e))

module _ (b : Bincode) (t : TransactionState) (key : Bytes) where
  -- `r` is what `t` reads under `key`: the value of the newest version that it sees, or nothing
  -- where it sees none.
  abbrev pub Reads : Map Bytes → Option Bytes → Type 0
  Reads m r =
      ((u : ℕ) × (is_visible t u ≡ true)
        × (lookup (encode (version key u)) m ≡ some (b.serialize_value r))
        × ((w : ℕ) → u < w → is_visible t w ≡ true → lookup (encode (version key w)) m ≡ none))
      ⊎ ((r ≡ none) × ((w : ℕ) → is_visible t w ≡ true → lookup (encode (version key w)) m ≡ none))

  module _ (good : IsInverse b) where
    serialize_value-injective :
        (x y : Option Bytes) → b.serialize_value x ≡ b.serialize_value y → x ≡ y
    serialize_value-injective x y e =
        cc (good.value_round_trip x, good.value_round_trip y, ap b.deserialize_value e)

    -- A transaction reads one result.
    pub Reads-unique : (m : Map Bytes) (x y : Option Bytes) → Reads m x → Reads m y → x ≡ y
    Reads-unique m x y (inl (u, s, l, n)) (inl (w, q, k, o)) = elim (dec_lt u w) [
      | yes p ↦ cc (n w p q)
      | no p ↦ elim (dec_lt w u) [
        | yes p' ↦ cc (o u p' s)
        | no p' ↦
            let e : u ≡ w = omega arith in
            let p : some (b.serialize_value x) ≡ some (b.serialize_value y) =
              sym l ∙ ap (λ v. lookup (encode (version key v)) m) e ∙ k in
            serialize_value-injective x y (cc)
      ]
    ]
    Reads-unique m x y (inl (u, s, l, n)) (inr (e, o)) = cc (o u s)
    Reads-unique m x y (inr (e, n)) (inl (w, q, k, o)) = cc (n w q)
    Reads-unique m x y (inr (e, n)) (inr (f, o)) = cc

  -- Two stores with the same versions of the key under all that the transaction sees read alike.
  pub Reads-congr :
      (m n : Map Bytes) (r : Option Bytes)
      → ((w : ℕ)
          → is_visible t w ≡ true
          → lookup (encode (version key w)) m ≡ lookup (encode (version key w)) n)
      → Reads m r
      → Reads n r
  Reads-congr m n r h (inl (u, s, l, o)) =
      inl (u, s, sym (h u s) ∙ l, λ w j q. sym (h w q) ∙ o w j q)
  Reads-congr m n r h (inr (e, o)) = inr (e, λ w q. sym (h w q) ∙ o w q)
