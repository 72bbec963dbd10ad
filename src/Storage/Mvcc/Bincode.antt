-- ===== src/Storage/Mvcc/Bincode.antt =====
-- The crate bincode, which mvcc.rs stores versions and values with. What the code relies on is
-- that `deserialize` undoes `serialize`.
use sqlprimer.Prelude.{
  ℕ, ◌^◌, ◌<◌, ◌≡◌, refl, Option, none, some, [], ◌∷◌, Outcome, ok, err, internal,
}
use sqlprimer.Bytes.{Bytes}

pub record Bincode : Type 0 where
  pub serialize_version : ℕ → Bytes
  pub deserialize_version : Bytes → Outcome ℕ
  pub serialize_value : Option Bytes → Bytes
  pub deserialize_value : Bytes → Outcome (Option Bytes)

pub record IsInverse (b : Bincode) : Type 0 where
  pub version_round_trip :
      (v : ℕ) → v < 2 ^ 64 → b.deserialize_version (b.serialize_version v) ≡ ok v
  pub value_round_trip : (v : Option Bytes) → b.deserialize_value (b.serialize_value v) ≡ ok v

-- A concrete format of the same kind, for tests.
abbrev plain_version : Bytes → Outcome ℕ
plain_version (v ∷ []) = ok v
plain_version _ = err internal

abbrev plain_value : Bytes → Outcome (Option Bytes)
plain_value [] = ok none
plain_value (t ∷ bs) = ok (some bs)

abbrev tag : Option Bytes → Bytes
tag none = []
tag (some bs) = 1 ∷ bs

abbrev pub plain : Bincode
plain = record {
  serialize_version = λ v. v ∷ [];
  deserialize_version = plain_version;
  serialize_value = tag;
  deserialize_value = plain_value;
}

value_back : (v : Option Bytes) → plain_value (tag v) ≡ ok v
value_back none = refl
value_back (some bs) = refl

pub plain-IsInverse : IsInverse plain
plain-IsInverse = record { version_round_trip = λ v h. refl; value_round_trip = value_back }
