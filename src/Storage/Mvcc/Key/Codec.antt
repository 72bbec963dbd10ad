-- ===== src/Storage/Mvcc/Key/Codec.antt =====
-- `encode` and `decode` of the keys in storage/mvcc.rs, and the order of the encodings.
use sqlprimer.Bytes.Prefix.{cmp-append}
use sqlprimer.Prelude.{
  ℕ, ◌^◌, ◌<◌, ◌≡◌, refl, sym, ap, subst, ◌∙◌, compare, Ordering, [], ◌∷◌, ◌++◌, append_assoc,
  append-nil, length, length-append, take-append, drop-append, le→leb, arith, ok,
}
use sqlprimer.Bytes.{Bytes, cmp}
use sqlprimer.Bytes.Order.{cmp_refl}
use sqlprimer.Storage.Keycode.{
  to_be, escape, take_bytes, serialize_u64, deserialize_u64, deserialize_byte_buf,
}
use sqlprimer.Storage.Keycode.BigEndian.{length-to_be, from_be-to_be, cmp-to_be}
use sqlprimer.Storage.Keycode.Escape.{next_bytes-escape, cmp-escape, then_cmp}
use sqlprimer.Storage.Mvcc.Key.{
  MvccKey, next_version, txn_active, txn_write, version, encode, decode,
}

-- The versions of a key are `u64`.
abbrev pub Fits : MvccKey → Type 0
Fits MvccKey.next_version = Unit
Fits (MvccKey.txn_active v) = v < 2 ^ 64
Fits (MvccKey.txn_write v k) = v < 2 ^ 64
Fits (MvccKey.version k v) = v < 2 ^ 64

take_bytes-length : (xs rest : Bytes) → take_bytes (length xs) (xs ++ rest) ≡ ok (xs, rest)
unfolding take_bytes
take_bytes-length xs rest =
    rw (le→leb (length xs) (length (xs ++ rest)) (omega (arith, length-append xs rest)))
      (rw (take-append xs rest, drop-append xs rest))

take_bytes-append :
    (n : ℕ) (xs rest : Bytes) → length xs ≡ n → take_bytes n (xs ++ rest) ≡ ok (xs, rest)
take_bytes-append n xs rest e =
    subst (λ k. take_bytes k (xs ++ rest) ≡ ok (xs, rest)) e (take_bytes-length xs rest)

-- `deserialize_u64` reads what `serialize_u64` wrote.
deserialize_u64-to_be :
    (v : ℕ) (rest : Bytes) → v < 2 ^ 64 → deserialize_u64 (to_be 8 v ++ rest) ≡ ok (v, rest)
unfolding deserialize_u64
deserialize_u64-to_be v rest h =
    rw (take_bytes-append 8 (to_be 8 v) rest (length-to_be 8 v)) (rw (from_be-to_be 8 v h))

-- What `serialize_u64` appended to the output, `deserialize_u64` reads back from there, and leaves
-- what follows; for a `u64`.
pub deserialize_u64-serialize_u64 :
    (v : ℕ) (output rest : Bytes)
    → v < 2 ^ 64
    → (input : Bytes) × (serialize_u64 v output ++ rest ≡ output ++ input)
      × (deserialize_u64 input ≡ ok (v, rest))
unfolding serialize_u64
deserialize_u64-serialize_u64 v output rest h =
    (to_be 8 v ++ rest, append_assoc output (to_be 8 v) rest, deserialize_u64-to_be v rest h)

deserialize_u64_end : (v : ℕ) → v < 2 ^ 64 → deserialize_u64 (to_be 8 v) ≡ ok (v, [])
deserialize_u64_end v h = rw append-nil at (deserialize_u64-to_be v [] h)

deserialize_byte_buf-escape :
    (k rest : Bytes) → deserialize_byte_buf (escape k ++ 0 ∷ 0 ∷ rest) ≡ ok (k, rest)
unfolding deserialize_byte_buf
deserialize_byte_buf-escape k rest = next_bytes-escape k rest

pub encode-version :
    (k : Bytes) (v : ℕ) → encode (version k v) ≡ 3 ∷ (escape k ++ 0 ∷ 0 ∷ to_be 8 v)
unfolding encode
encode-version k v = ap (λ t. 3 ∷ t) (append_assoc (escape k) (0 ∷ 0 ∷ []) (to_be 8 v))

pub encode-txn_write :
    (v : ℕ) (k : Bytes) → encode (txn_write v k) ≡ 2 ∷ (to_be 8 v ++ (escape k ++ 0 ∷ 0 ∷ []))
unfolding encode
encode-txn_write v k = refl

pub encode-txn_active : (v : ℕ) → encode (txn_active v) ≡ 1 ∷ to_be 8 v
unfolding encode
encode-txn_active v = refl

pub encode-next_version : encode next_version ≡ 0 ∷ []
unfolding encode
encode-next_version = refl

-- Decoding the encoding of a key gives the key back, if its version is a `u64`.
pub decode-encode : (k : MvccKey) → Fits k → decode (encode k) ≡ ok k
unfolding decode encode take_bytes
decode-encode MvccKey.next_version h = refl
decode-encode (MvccKey.txn_active v) h = ground (arith, deserialize_u64_end v h)
decode-encode (MvccKey.txn_write v k) h =
    ground
      (arith, deserialize_u64-to_be v (escape k ++ 0 ∷ 0 ∷ []) h, deserialize_byte_buf-escape k [])
decode-encode (MvccKey.version k v) h = ground (
  arith,
  append_assoc (escape k) (0 ∷ 0 ∷ []) (to_be 8 v),
  deserialize_byte_buf-escape k (to_be 8 v),
  deserialize_u64_end v h,
)

-- So no two keys share an encoding.
pub encode-injective : (j k : MvccKey) → Fits j → Fits k → encode j ≡ encode k → j ≡ k
encode-injective j k h i e =
    ok_injective (sym (decode-encode j h) ∙ ap decode e ∙ decode-encode k i)
  where
    ok_injective : {a b : MvccKey} → ok a ≡ ok b → a ≡ b
    ok_injective p = cc

-- How `derive(PartialOrd)` would compare keys: by kind, then field by field.
abbrev pub compare_key : MvccKey → MvccKey → Ordering
compare_key MvccKey.next_version MvccKey.next_version = Ordering.eq
compare_key MvccKey.next_version _ = Ordering.lt
compare_key (MvccKey.txn_active v) MvccKey.next_version = Ordering.gt
compare_key (MvccKey.txn_active v) (MvccKey.txn_active w) = compare v w
compare_key (MvccKey.txn_active v) _ = Ordering.lt
compare_key (MvccKey.txn_write v k) (MvccKey.txn_write w l) = then_cmp (compare v w) (cmp k l)
compare_key (MvccKey.txn_write v k) (MvccKey.version l w) = Ordering.lt
compare_key (MvccKey.txn_write v k) _ = Ordering.gt
compare_key (MvccKey.version k v) (MvccKey.version l w) = then_cmp (cmp k l) (compare v w)
compare_key (MvccKey.version k v) _ = Ordering.gt

-- Strings of the same length in front: they decide, else what follows.
cmp-append_length :
    (a b r s : Bytes) → length a ≡ length b → cmp (a ++ r) (b ++ s) ≡ then_cmp (cmp a b) (cmp r s)
unfolding cmp
cmp-append_length [] [] r s e = refl
cmp-append_length [] (y ∷ b) r s e = absurd (omega arith)
cmp-append_length (x ∷ a) [] r s e = absurd (omega arith)
cmp-append_length (x ∷ a) (y ∷ b) r s e = ground (arith, cmp-append_length a b r s (omega arith))

-- What `serialize_u64` appended to one output for two `u64`s compares as the numbers do; what follows
-- counts where they are the same.
pub cmp-serialize_u64 :
    (v w : ℕ) (output r s : Bytes)
    → v < 2 ^ 64
    → w < 2 ^ 64
    → cmp (serialize_u64 v output ++ r) (serialize_u64 w output ++ s)
      ≡ then_cmp (compare v w) (cmp r s)
unfolding serialize_u64
cmp-serialize_u64 v w output r s h k = rw (
  append_assoc output (to_be 8 v) r,
  append_assoc output (to_be 8 w) s,
  cmp-append,
  cmp-append_length (to_be 8 v) (to_be 8 w) r s (length-to_be 8 v ∙ sym (length-to_be 8 w)),
  cmp-to_be 8 v w h k,
)

then_cmp_eq : (o : Ordering) → then_cmp o Ordering.eq ≡ o
then_cmp_eq Ordering.lt = refl
then_cmp_eq Ordering.eq = refl
then_cmp_eq Ordering.gt = refl

-- The encodings of two keys, whose versions are `u64`s, compare as the keys do: by kind, then
-- field by field.
pub cmp-encode : (j k : MvccKey) → Fits j → Fits k → cmp (encode j) (encode k) ≡ compare_key j k
unfolding encode cmp
cmp-encode MvccKey.next_version MvccKey.next_version h i = refl
cmp-encode MvccKey.next_version (MvccKey.txn_active v) h i = refl
cmp-encode MvccKey.next_version _ h i = refl
cmp-encode (MvccKey.txn_active v) (MvccKey.txn_active w) h i = cmp-to_be 8 v w h i
cmp-encode (MvccKey.txn_active v) MvccKey.next_version h i = refl
cmp-encode (MvccKey.txn_active v) _ h i = refl
cmp-encode (MvccKey.txn_write v k) (MvccKey.txn_write w l) h i = cc (
  cmp-append_length (to_be 8 v) (to_be 8 w) (escape k ++ 0 ∷ 0 ∷ []) (escape l ++ 0 ∷ 0 ∷ [])
      (length-to_be 8 v ∙ sym (length-to_be 8 w)),
  cmp-to_be 8 v w h i,
  cmp-escape k l [] [],
  cmp_refl [],
  then_cmp_eq (cmp k l),
)
cmp-encode (MvccKey.txn_write v k) (MvccKey.version l w) h i = refl
cmp-encode (MvccKey.txn_write v k) _ h i = refl
cmp-encode (MvccKey.version k v) (MvccKey.version l w) h i =
    rw
      (
        append_assoc (escape k) (0 ∷ 0 ∷ []) (to_be 8 v),
        append_assoc (escape l) (0 ∷ 0 ∷ []) (to_be 8 w),
      )
      (cc (cmp-escape k l (to_be 8 v) (to_be 8 w), cmp-to_be 8 v w h i))
cmp-encode (MvccKey.version k v) _ h i = refl
