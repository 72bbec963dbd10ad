-- ===== src/Sql/Kv/Indexes.antt =====
-- What the loop of `create_row` of sql/engine/kv.rs does to the indexes of a table.
pub mod Loop
use sqlprimer.Prelude.{
  ℕ, ◌≡◌, ◌≢◌, ◌⊎◌, inl, inr, refl, ap, ◌∙◌, true, Option, some, List, [], ◌∷◌, Outcome, ok, err,
  write_conflict, arith, Bool-cases,
}
use sqlprimer.Bytes.{Bytes}
use sqlprimer.OrderedMap.Lookup.{same, eq_of_same, same_refl}
use sqlprimer.Storage.Mvcc.Monad.{◌>>=◌}
use sqlprimer.Sql.Numbers.{Floats}
use sqlprimer.Sql.Value.{Value, Row}
use sqlprimer.Sql.Expr.{index_row}
use sqlprimer.Sql.Schema.{Column}
use sqlprimer.Sql.Exec.Join.{same_key}
use sqlprimer.Sql.Kv.Key.{Key, encode_key}
use sqlprimer.Sql.Kv.Key.Distinct.{IsName, IsStorable, encode_key-IsBytes_index}
use sqlprimer.Sql.Kv.Store.{KeyValue, IsKeyValue}
use sqlprimer.Sql.Kv.Codec.{Codec, IsCodec, decode_option, is_member}
use sqlprimer.Sql.Kv.Txn.{load_index, save_index, insert_member, add_to_index, or_empty}

is_member-insert_member :
    (v : Value) (ws : List Value) → same_key v v ≡ true → is_member v (insert_member v ws) ≡ true
unfolding is_member insert_member
is_member-insert_member v ws h = ground (arith, h)

module _ (x : KeyValue) (k : IsKeyValue x) (c : Codec) (codec : IsCodec c) (f : Floats) where
  open x use {State}
  open k use {IsGood, view}

  -- What a view makes of an index.
  abbrev pub index_in : Bytes → Bytes → Value → State → Outcome (Option (List Value))
  index_in n col v s = decode_option c.deserialize_index (view s (encode_key (Key.index n col v)))

  -- Each index can be read.
  pub record IsDb (s : State) : Type 0 where
    pub good : IsGood s
    pub readable :
        (n col : Bytes) (v : Value) → (ws : Option (List Value)) × (index_in n col v s ≡ ok ws)

  abbrev pub IsNoIndex : Bytes → Type 0
  IsNoIndex j = (n col : Bytes) (v : Value) → j ≢ encode_key (Key.index n col v)

  pub load_index-index_in :
      (n col : Bytes) (v : Value) (s : State) (ws : Option (List Value))
      → IsGood s
      → index_in n col v s ≡ ok ws
      → load_index x c f n col v s ≡ (ok (or_empty ws), s)
  unfolding load_index ◌>>=◌
  load_index-index_in n col v s ws h e =
      rw (k.get-view s (encode_key (Key.index n col v)) h) (rw e refl)

  module _ (pk : Value) where
    -- The index holds the key.
    abbrev pub Holds : Bytes → Bytes → Value → State → Type 0
    Holds n col v s =
        (ws : Option (List Value)) × (index_in n col v s ≡ ok ws)
        × (is_member pk (or_empty ws) ≡ true)

    -- From `s` to `s'` no index lost the key, and all but the indexes is as before.
    pub record IsKept (s s' : State) : Type 0 where
      pub db : IsDb s'
      pub others : (j : Bytes) → IsNoIndex j → view s' j ≡ view s j
      pub held : (n col : Bytes) (v : Value) → Holds n col v s → Holds n col v s'

    pub IsKept-refl : (s : State) → IsDb s → IsKept s s
    IsKept-refl s h = record { db = h; others = λ j n. refl; held = λ n col v p. p }

    pub IsKept-trans : (s t u : State) → IsKept s t → IsKept t u → IsKept s u
    IsKept-trans s t u p q = record {
      db = q.db;
      others = λ j n. q.others j n ∙ p.others j n;
      held = λ n col v h. q.held n col v (p.held n col v h);
    }

    module _ (n : Bytes) (name : IsName n) (self : same_key pk pk ≡ true) where
      module _ (col : Bytes) (v : Value) (s s' : State) (bytes : Bytes) (us : List Value)
          (h : IsDb s) (good' : IsGood s') (back : c.deserialize_index bytes ≡ ok us)
          (m : is_member pk us ≡ true)
          (at_key : view s' (encode_key (Key.index n col v)) ≡ some bytes)
          (others : (j : Bytes) → j ≢ encode_key (Key.index n col v) → view s' j ≡ view s j) where
        at_saved : index_in n col v s' ≡ ok (some us)
        unfolding decode_option
        at_saved = rw at_key (rw (back, decode_option) refl)

        -- Any index, after one was saved.
        after_save :
            (o d : Bytes) (u : Value)
            → (index_in o d u s' ≡ ok (some us)) ⊎ (index_in o d u s' ≡ index_in o d u s)
        after_save o d u =
            elim (Bool-cases
              (same (encode_key (Key.index o d u)) (encode_key (Key.index n col v)))) [
                | inl e ↦ inl (
                    ap (λ j. decode_option c.deserialize_index (view s' j)) (eq_of_same _ _ e)
                    ∙ at_saved)
                | inr e ↦ inr (
                    ap (decode_option c.deserialize_index) (
                      others (encode_key (Key.index o d u)) (λ p. cc (
                        same_refl (encode_key (Key.index n col v)),
                        ap (λ j. same j (encode_key (Key.index n col v))) p,
                      ))))
              ]

        saved-IsKept : IsKept s s'
        saved-IsKept = record {
          db = record {
            good = good';
            readable = λ o d u. elim (after_save o d u) [
              | inl e ↦ (some us, e)
              | inr e ↦ let (ws, r) = h.readable o d u in (ws, e ∙ r)
            ];
          };
          others = λ j d. others j (d n col v);
          held = λ o d u p. elim (after_save o d u) [
            | inl e ↦ (some us, e, m)
            | inr e ↦ let (ws, r, q) = p in (ws, e ∙ r, q)
          ];
        }

      -- An index that is saved with the key in it.
      saved :
          (col : Bytes) (v : Value) (ws : List Value) (s : State)
          → IsName col
          → IsStorable v
          → IsDb s
          → is_member pk ws ≡ true
          → (s' : State) × IsKept s s'
            × ((save_index x c f n col v ws s ≡ (err write_conflict, s'))
                ⊎ ((save_index x c f n col v ws s ≡ (ok tt, s')) × Holds n col v s'))
      unfolding save_index is_member
      saved col v [] s g st h m = cc
      saved col v (w ∷ ws) s g st h m =
          let key = encode_key (Key.index n col v) in
          elim (k.set_cases s key (c.serialize_index (w ∷ ws))
            (encode_key-IsBytes_index n col v name g st) h.good) [
              | inl e ↦ (s, IsKept-refl s h, inl e)
              | inr (s', e, good', at_key, others) ↦
                  let (us, back, same_members) = codec.index_round_trip (w ∷ ws) in
                  let bytes = c.serialize_index (w ∷ ws) in
                  let m' = same_members pk ∙ m in
                  (
                    s',
                    saved-IsKept col v s s' bytes us h good' back m' at_key others,
                    inr (
                      e,
                      (some us, at_saved col v s s' bytes us h good' back m' at_key others, m'),
                    ),
                  )
            ]

      -- What an index column of the row needs.
      abbrev pub IsFine : Row → ℕ × Column → Type 0
      IsFine row (i, col) =
          IsName col.name × ((v : Value) × (index_row row i ≡ ok v) × IsStorable v)

      abbrev pub HoldsCol : Row → State → ℕ × Column → Type 0
      HoldsCol row s (i, col) = (v : Value) × (index_row row i ≡ ok v) × Holds n col.name v s

      pub add_to_index_lem :
          (row : Row) (col : ℕ × Column) (s : State)
          → IsFine row col
          → IsDb s
          → (s' : State) × IsKept s s'
            × ((add_to_index x c f n pk row col s ≡ (err write_conflict, s'))
                ⊎ ((add_to_index x c f n pk row col s ≡ (ok tt, s')) × HoldsCol row s' col))
      unfolding add_to_index ◌>>=◌
      add_to_index_lem row (i, col) s (g, (v, e, st)) h =
          let (ws, r) = h.readable n col.name v in
          let l = load_index-index_in n col.name v s ws h.good r in
          let (s', kept, out) =
            saved col.name v (insert_member pk (or_empty ws)) s g st h
              (is_member-insert_member pk (or_empty ws) self) in
          (
            s',
            kept,
            elim out [
              | inl o ↦ inl (rw e (rw l o))
              | inr (o, holds) ↦ inr (rw e (rw l o), (v, e, holds))
            ],
          )
