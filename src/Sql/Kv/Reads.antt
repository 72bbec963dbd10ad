-- ===== src/Sql/Kv/Reads.antt =====
-- What `read_by_id` of sql/engine/kv.rs reads, and when the indexes stay.
use sqlprimer.Prelude.{◌≡◌, ◌≢◌, refl, sym, ap, ◌∙◌, Option, none, some, Outcome, ok, err, panic}
use sqlprimer.Bytes.{Bytes}
use sqlprimer.Storage.Mvcc.Monad.{◌>>=◌}
use sqlprimer.Sql.Numbers.{Floats}
use sqlprimer.Sql.Value.{Value}
use sqlprimer.Sql.Kv.Key.{Key, encode_key}
use sqlprimer.Sql.Kv.Key.Distinct.{encode-row, encode-index}
use sqlprimer.Sql.Kv.Store.{KeyValue, IsKeyValue}
use sqlprimer.Sql.Kv.Codec.{Codec, IsCodec, decode_option}
use sqlprimer.Sql.Kv.Txn.{read_by_id}
use sqlprimer.Sql.Kv.Indexes.{IsDb, IsNoIndex}

pub ok-injective : {A : Type 0} {a b : A} → ok a ≡ ok b → a ≡ b
ok-injective e = cc

pub decode_none :
    {A : Type 0} (deserialize : Bytes → Outcome A) → decode_option deserialize none ≡ ok none
unfolding decode_option
decode_none deserialize = refl

pub decode_some :
    {A : Type 0} (deserialize : Bytes → Outcome A) (bytes : Bytes) (o : Option A)
    → decode_option deserialize (some bytes) ≡ ok o
    → o ≢ none
unfolding decode_option
decode_some {A = A} deserialize bytes o e p = go (deserialize bytes) e
  where
    go : (r : Outcome A) → elim r [ ok a ↦ ok (some a) | err e ↦ err e | panic ↦ panic ] ≡ ok o → ⊥
    go (ok a) q = cc
    go (err x) q = cc
    go panic q = cc

module _ (x : KeyValue) (k : IsKeyValue x) (c : Codec) (codec : IsCodec c) (f : Floats) where
  open x use {State}
  open k use {IsGood, view}

  pub read_by_id-view :
      (n : Bytes) (id : Value) (s : State)
      → IsGood s
      → read_by_id x c f n id s
        ≡ (decode_option c.deserialize_row (view s (encode_key (Key.row n id))), s)
  unfolding read_by_id ◌>>=◌
  read_by_id-view n id s h = rw (k.get-view s (encode_key (Key.row n id)) h)

  pub row-IsNoIndex : (n : Bytes) (id : Value) → IsNoIndex x k c codec f (encode_key (Key.row n id))
  row-IsNoIndex n id m col v e = cc (e, encode-row n id, encode-index m col v)

  -- An entry of a row is none of an index.
  pub row_set-IsDb :
      (n : Bytes) (id : Value) (s s' : State)
      → IsDb x k c codec f s
      → IsGood s'
      → ((j : Bytes) → j ≢ encode_key (Key.row n id) → view s' j ≡ view s j)
      → IsDb x k c codec f s'
  row_set-IsDb n id s s' db good' others = record {
    good = good';
    readable = λ m col v.
        let (ws, e) = db.readable m col v in
        (
          ws,
          ap (decode_option c.deserialize_index)
                (others (encode_key (Key.index m col v)) (λ e. row-IsNoIndex n id m col v (sym e)))
              ∙ e,
        );
  }

  pub read_by_id-congr :
      (n : Bytes) (id : Value) (s s' : State)
      → IsGood s
      → IsGood s'
      → view s' (encode_key (Key.row n id)) ≡ view s (encode_key (Key.row n id))
      → read_by_id x c f n id s' ≡ ((read_by_id x c f n id s).0, s')
  read_by_id-congr n id s s' h h' e =
      rw (read_by_id-view n id s' h', read_by_id-view n id s h, e) refl
