-- ===== src/Sql/Kv/Codec.antt =====
-- The crate bincode, which sql/engine/kv.rs stores tables, rows and indexes with. What the code
-- relies on is that `deserialize` undoes `serialize`.
pub mod Plain
use sqlprimer.Prelude.{
  ◌≡◌, Bool, false, ◌||◌, Option, none, some, List, [], ◌∷◌, Outcome, ok, err, panic,
}
use sqlprimer.Bytes.{Bytes}
use sqlprimer.Sql.Value.{Value, Row}
use sqlprimer.Sql.Schema.{Table}
use sqlprimer.Sql.Exec.Join.{same_key}

pub record Codec : Type 0 where
  pub serialize_table : Table → Bytes
  pub deserialize_table : Bytes → Outcome Table
  pub serialize_row : Row → Bytes
  pub deserialize_row : Bytes → Outcome Row
  pub serialize_index : List Value → Bytes
  pub deserialize_index : Bytes → Outcome (List Value)

-- An index is a `HashSet`, held as the list of its members; the order means nothing.
unfoldable pub is_member : Value → List Value → Bool
is_member v [] = false
is_member v (w ∷ ws) = same_key w v || is_member v ws

-- A set is read with the members with which it was written.
pub record IsCodec (c : Codec) : Type 0 where
  pub table_round_trip : (t : Table) → c.deserialize_table (c.serialize_table t) ≡ ok t
  pub row_round_trip : (r : Row) → c.deserialize_row (c.serialize_row r) ≡ ok r
  pub index_round_trip :
      (vs : List Value)
      → (ws : List Value) × (c.deserialize_index (c.serialize_index vs) ≡ ok ws)
        × ((v : Value) → is_member v ws ≡ is_member v vs)

-- `map(|v| deserialize(&v)).transpose()`
unfoldable pub decode_option :
    {A : Type 0} → (Bytes → Outcome A) → Option Bytes → Outcome (Option A)
decode_option deserialize none = ok none
decode_option deserialize (some bytes) = elim (deserialize bytes) [
  | ok a ↦ ok (some a)
  | err e ↦ err e
  | panic ↦ panic
]
