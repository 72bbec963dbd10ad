-- ===== src/Sql/Kv/Tables.antt =====
-- What `create_table` of sql/engine/kv.rs leaves.
use sqlprimer.Prelude.{
  ◌≡◌, ◌≢◌, ◌⊎◌, inl, inr, refl, ap, ◌∙◌, Option, none, some, Outcome, ok, err, panic, internal,
  write_conflict,
}
use sqlprimer.Bytes.{Bytes}
use sqlprimer.Storage.Mvcc.Monad.{Act, ◌>>=◌, continue}
use sqlprimer.Sql.Numbers.{Floats}
use sqlprimer.Sql.Schema.{Table, validate}
use sqlprimer.Sql.Kv.Key.{Key, encode_key}
use sqlprimer.Sql.Kv.Key.Distinct.{IsName, encode-table, encode_key-IsBytes_table}
use sqlprimer.Sql.Kv.Store.{KeyValue, IsKeyValue}
use sqlprimer.Sql.Kv.Codec.{Codec, IsCodec, decode_option}
use sqlprimer.Sql.Kv.Txn.{get_table, create_table, reject_table}

-- Whether a test passes; where it does not, nothing behind it runs.
pub passes_cases :
    {S : Type 0} (v : Outcome (Unit {0}))
    → (v ≡ ok tt)
      ⊎ ((v ≢ ok tt) × ((k : Unit {0} → Act S (Unit {0})) (s : S) → continue v k s ≡ (v, s)))
passes_cases (ok u) = inl refl
passes_cases (err e) = inr ((λ q. cc), λ k s. refl)
passes_cases panic = inr ((λ q. cc), λ k s. refl)

module _ (x : KeyValue) (k : IsKeyValue x) (c : Codec) (f : Floats) where
  open x use {State}
  open k use {IsGood, view}

  pub get_table-view :
      (n : Bytes) (s : State)
      → IsGood s
      → get_table x c f n s
        ≡ (decode_option c.deserialize_table (view s (encode_key (Key.table n))), s)
  unfolding get_table ◌>>=◌
  get_table-view n s h = rw (k.get-view s (encode_key (Key.table n)) h)

  pub get_table-congr :
      (n : Bytes) (s s' : State)
      → IsGood s
      → IsGood s'
      → view s' (encode_key (Key.table n)) ≡ view s (encode_key (Key.table n))
      → get_table x c f n s' ≡ ((get_table x c f n s).0, s')
  get_table-congr n s s' h h' e = rw (get_table-view n s h, get_table-view n s' h', e)

  module _ (codec : IsCodec c) (table : Table) (name : IsName table.name) (s : State)
      (good : IsGood s) where
    abbrev write : Act State (Unit {0})
    write = x.set (encode_key (Key.table table.name)) (c.serialize_table table)

    -- After the first test.
    create_table-validated :
        get_table x c f table.name s ≡ (ok none, s)
        → create_table x c f table s ≡ continue (validate table) (λ u. write) s
    unfolding create_table ◌>>=◌ reject_table
    create_table-validated h = rw h

    refused :
        (t : Table)
        → get_table x c f table.name s ≡ (ok (some t), s)
        → create_table x c f table s ≡ (err internal, s)
    unfolding create_table ◌>>=◌ reject_table
    refused t h = rw h

    other_key :
        (n : Bytes) → n ≢ table.name → encode_key (Key.table n) ≢ encode_key (Key.table table.name)
    other_key n d e = d (cc (e, encode-table n, encode-table table.name))

    stored : decode_option c.deserialize_table (some (c.serialize_table table)) ≡ ok (some table)
    unfolding decode_option
    stored = rw (codec.table_round_trip table, decode_option) refl

    -- On a state of the storage that its laws allow, with a bincode whose deserializing undoes its
    -- serializing, for a table whose name consists of bytes above 4 and about which `get_table`
    -- gives a result: `create_table` is an internal error where the table exists, and fails as
    -- `validate` does where the table is not valid; otherwise it is a write conflict, or it
    -- succeeds, and then `get_table` gives the table, and all else about the tables of other names.
    -- Where it fails the state is the one before.
    pub create_table_lem :
        (o : Option Table)
        → get_table x c f table.name s ≡ (ok o, s)
        → ((o ≢ none) × (create_table x c f table s ≡ (err internal, s)))
          ⊎ ((o ≡ none)
              × (validate table ≢ ok tt)
              × (create_table x c f table s ≡ (validate table, s)))
          ⊎ ((o ≡ none)
              × (validate table ≡ ok tt)
              × (create_table x c f table s ≡ (err write_conflict, s)))
          ⊎ ((o ≡ none)
              × (validate table ≡ ok tt)
              × ((s' : State) × (create_table x c f table s ≡ (ok tt, s'))
                  × IsGood s'
                  × (get_table x c f table.name s' ≡ (ok (some table), s'))
                  × ((n : Bytes)
                      → n ≢ table.name
                      → get_table x c f n s' ≡ ((get_table x c f n s).0, s'))))
    create_table_lem (some t) h = inl ((λ e. cc), refused t h)
    create_table_lem none h = elim (passes_cases {S = State} (validate table)) [
      | inr bad ↦ inr (inl (refl, bad.0, create_table-validated h ∙ bad.1 _ s))
      | inl valid ↦
          let run = create_table-validated h ∙ ap (λ v. continue v (λ u. write) s) valid in
          elim (k.set_cases s (encode_key (Key.table table.name)) (c.serialize_table table)
            (encode_key-IsBytes_table table.name name) good) [
              | inl e ↦ inr (inr (inl (refl, valid, run ∙ e)))
              | inr (s', e, good', self, others) ↦ inr (
                  inr (
                    inr (
                      refl,
                      valid,
                      (
                        s',
                        run ∙ e,
                        good',
                        get_table-view table.name s' good'
                            ∙ ap {B = Outcome (Option Table) × State}
                                (λ v. (decode_option c.deserialize_table v, s')) self
                            ∙ ap {B = Outcome (Option Table) × State} (λ r. (r, s')) stored,
                        λ n d.
                            get_table-congr n s s' good good'
                              (others (encode_key (Key.table n)) (other_key n d)),
                      ),
                    )))
            ]
    ]
