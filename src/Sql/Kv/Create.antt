-- ===== src/Sql/Kv/Create.antt =====
-- What `create_row` of sql/engine/kv.rs leaves.
use sqlprimer.Prelude.{
  get_elem?, zero, suc, ◌+◌, Bool, false, if◌then◌else◌, subst, ℕ, ◌≡◌, ◌≢◌, ◌⊎◌, inl, inr, refl,
  sym, ap, ◌∙◌, true, Option, none, some, List, [], ◌∷◌, All, Outcome, ok, err, internal,
  write_conflict, arith,
}
use sqlprimer.Bytes.{Bytes}
use sqlprimer.Storage.Mvcc.Monad.{Act, ◌>>=◌, continue, for_each}
use sqlprimer.Sql.Numbers.{Floats}
use sqlprimer.Sql.Value.{Value, Row}
use sqlprimer.Sql.Schema.{Column, Table, get_primary_key}
use sqlprimer.Sql.Rows.{check_row}
use sqlprimer.Sql.Expr.{index_row}
use sqlprimer.Sql.Exec.Join.{same_key}
use sqlprimer.Sql.Kv.Key.{Key, encode_key}
use sqlprimer.Sql.Kv.Key.Distinct.{
  IsName, IsStorable, encode_key-IsBytes_row, encode_key-row_injective,
}
use sqlprimer.Sql.Kv.Store.{KeyValue, IsKeyValue}
use sqlprimer.Sql.Kv.Codec.{Codec, IsCodec, decode_option, is_member}
use sqlprimer.Sql.Kv.Txn.{
  get_table, get_table_or_fail, read_by_id, load_index, index_cols, reject_duplicate, create_row,
  add_to_index, or_empty,
}
use sqlprimer.Sql.Kv.Indexes.{IsDb, load_index-index_in, IsKept, HoldsCol}
use sqlprimer.Sql.Kv.Indexes.Loop.{index_cols-IsFine, add_to_indexes}
use sqlprimer.Sql.Kv.Reads.{
  ok-injective, decode_none, decode_some, read_by_id-view, row-IsNoIndex, row_set-IsDb,
}

-- What holds of the columns with an index.
at_index_col :
    (P : ℕ × Column → Type 0) (n : ℕ) (cols : List Column) (i : ℕ) (d : Column)
    → get_elem? cols i ≡ some d
    → d.index ≡ true
    → All P (index_cols n cols)
    → (j : ℕ) × (j ≡ n + i) × P (j, d)
unfolding index_cols
at_index_col P n [] i d e h a = cc
at_index_col P n (c ∷ cols) i d e h a =
    go i e c.index refl a (λ k q b. at_index_col P (suc n) cols k d q h b)
  where
    go :
        (i : ℕ)
        → get_elem? (c ∷ cols) i ≡ some d
        → (b : Bool) → c.index ≡ b
        → All P (if b then (n, c) ∷ index_cols (suc n) cols else index_cols (suc n) cols)
        → ((k : ℕ)
            → get_elem? cols k ≡ some d
            → All P (index_cols (suc n) cols)
            → (j : ℕ) × (j ≡ suc n + k) × P (j, d))
        → (j : ℕ) × (j ≡ n + i) × P (j, d)
    go zero e true q a ih = (n, omega arith, subst (λ (x : Column). P (n, x)) (cc) a.0)
    go zero e false q a ih =
        let same_column : c ≡ d = cc in
        absurd (cc (ap {A = Column} (λ x. x.index) same_column, q, h))
    go (suc i) e true q a ih = let (j, l, p) = ih i e a.1 in (j, omega arith, p)
    go (suc i) e false q a ih = let (j, l, p) = ih i e a in (j, omega arith, p)

elem_of_index_row :
    (row : Row) (i : ℕ) (v : Value) → index_row row i ≡ ok v → get_elem? row i ≡ some v
unfolding index_row
elem_of_index_row row i v h = go (get_elem? row i) refl
  where
    go : (o : Option Value) → get_elem? row i ≡ o → get_elem? row i ≡ some v
    go none e = ground (arith, e, h)
    go (some w) e = ground (arith, e, h)

module _ (x : KeyValue) (k : IsKeyValue x) (c : Codec) (codec : IsCodec c) (f : Floats) where
  open x use {State}
  open k use {IsGood, view}

  module _ (n : Bytes) (name : IsName n) (table : Table) (row : Row) (pk : Value)
      (names : All (λ d. IsName d.name) table.columns) (storable : All IsStorable row)
      (key : IsStorable pk) (self : same_key pk pk ≡ true)
      (checked : check_row table.columns row ≡ ok tt) (has_key : get_primary_key table row ≡ ok pk)
      (s : State) (db : IsDb x k c codec f s)
      (known : get_table x c f n s ≡ (ok (some table), s)) where
    -- `create_row`, after the tests of the row.
    create_row-checked :
        create_row x c f n row s
        ≡ continue
            (reject_duplicate (view s (encode_key (Key.row n pk))))
            (λ u. x.set (encode_key (Key.row n pk)) (c.serialize_row row) >>= λ u.
              for_each (index_cols 0 table.columns) (add_to_index x c f n pk row))
            s
    unfolding create_row ◌>>=◌ get_table_or_fail
    create_row-checked =
        rw (known, checked, has_key) (rw (k.get-view s (encode_key (Key.row n pk)) db.good) refl)

    abbrev loop : Act State (Unit {0})
    loop = for_each (index_cols 0 table.columns) (add_to_index x c f n pk row)

    abbrev row_key : Bytes
    row_key = encode_key (Key.row n pk)

    -- Whether the key is taken.
    taken :
        (o : Option Row)
        → decode_option c.deserialize_row (view s row_key) ≡ ok o
        → ((o ≢ none) × (create_row x c f n row s ≡ (err internal, s)))
          ⊎ ((o ≡ none)
              × (create_row x c f n row s ≡ (x.set row_key (c.serialize_row row) >>= λ u. loop) s))
    unfolding ◌>>=◌ reject_duplicate
    taken o e = go (view s row_key) e create_row-checked
      where
        go :
            (stored : Option Bytes)
            → decode_option c.deserialize_row stored ≡ ok o
            → create_row x c f n row s
              ≡ continue
                  (reject_duplicate stored)
                  (λ u. x.set row_key (c.serialize_row row) >>= λ u. loop)
                  s
            → ((o ≢ none) × (create_row x c f n row s ≡ (err internal, s)))
              ⊎ ((o ≡ none)
                  × (create_row x c f n row s
                      ≡ (x.set row_key (c.serialize_row row) >>= λ u. loop) s))
        go none e r = inr (sym (ok-injective (sym (decode_none c.deserialize_row) ∙ e)), r)
        go (some bytes) e r = inl (decode_some c.deserialize_row bytes o e, r)

    stored : decode_option c.deserialize_row (some (c.serialize_row row)) ≡ ok (some row)
    unfolding decode_option
    stored = rw (codec.row_round_trip row, decode_option) refl

    module _ (s' : State) (good' : IsGood s')
        (others : (j : Bytes) → j ≢ row_key → view s' j ≡ view s j) where
      module _ (s'' : State) (kept : IsKept x k c codec f pk s' s'')
          (at_key : view s' row_key ≡ some (c.serialize_row row)) where
        read_new : read_by_id x c f n pk s'' ≡ (ok (some row), s'')
        read_new =
            read_by_id-view x k c codec f n pk s'' kept.db.good
            ∙ ap {B = Outcome (Option Row) × State} (λ v. (decode_option c.deserialize_row v, s''))
                (kept.others row_key (row-IsNoIndex x k c codec f n pk) ∙ at_key)
            ∙ ap {B = Outcome (Option Row) × State} (λ r. (r, s'')) stored

        read_other :
            (m : Bytes) (id : Value)
            → IsName m
            → IsStorable id
            → ¬ ((m ≡ n) × (id ≡ pk))
            → read_by_id x c f m id s'' ≡ ((read_by_id x c f m id s).0, s'')
        read_other m id g st d =
            let at : view s'' (encode_key (Key.row m id)) ≡ view s (encode_key (Key.row m id)) =
              kept.others _ (row-IsNoIndex x k c codec f m id)
              ∙ others _ (λ e. d (encode_key-row_injective m n id pk g name st key e)) in
            rw
              (
                read_by_id-view x k c codec f m id s'' kept.db.good,
                read_by_id-view x k c codec f m id s db.good,
                at,
              )
              refl

        abbrev Indexed : State → ℕ × Column → Type 0
        Indexed t (i, d) =
            (v : Value) × (index_row row i ≡ ok v)
            × ((ws : List Value) × (load_index x c f n d.name v t ≡ (ok ws, t))
                × (is_member pk ws ≡ true))

        All-Indexed :
            (cols : List (ℕ × Column))
            → All (HoldsCol x k c codec f pk n name self row s'') cols
            → All (Indexed s'') cols
        All-Indexed [] h = tt
        All-Indexed ((i, d) ∷ cols) ((v, e, (ws, r, m)), h) = (
          (
            v,
            e,
            (or_empty ws, load_index-index_in x k c codec f n d.name v s'' ws kept.db.good r, m),
          ),
          All-Indexed cols h,
        )

        indexed_at :
            All (HoldsCol x k c codec f pk n name self row s'') (index_cols 0 table.columns)
            → (i : ℕ) (d : Column) → get_elem? table.columns i ≡ some d
            → d.index ≡ true
            → (v : Value) × (get_elem? row i ≡ some v)
              × ((ws : List Value) × (load_index x c f n d.name v s'' ≡ (ok ws, s''))
                  × (is_member pk ws ≡ true))
        indexed_at held i d e h =
            let (j, l, (v, p, w)) =
              at_index_col (Indexed s'') 0 table.columns i d e h (All-Indexed _ held) in
            let here : j ≡ i = omega (arith, l) in (v, elem_of_index_row row i v (rw here at p), w)

    -- On a state whose indexes can be read, with a bincode whose deserializing undoes its
    -- serializing, for a row that passes the check against a table that is found, whose names
    -- consist of bytes above 4 and whose values are storable, and whose primary key is no NaN:
    -- `create_row` is an internal error that changes nothing where a row of the primary key
    -- exists; otherwise it is a write conflict, or it succeeds, and then `read_by_id` gives the
    -- row, and what it gave before for each other row, and each index of the table holds the
    -- primary key under the row's value.
    pub create_row_lem :
        (o : Option Row)
        → read_by_id x c f n pk s ≡ (ok o, s)
        → ((o ≢ none) × (create_row x c f n row s ≡ (err internal, s)))
          ⊎ ((o ≡ none) × ((s' : State) × (create_row x c f n row s ≡ (err write_conflict, s'))))
          ⊎ ((o ≡ none)
              × ((s' : State) × (create_row x c f n row s ≡ (ok tt, s'))
                  × (read_by_id x c f n pk s' ≡ (ok (some row), s'))
                  × ((m : Bytes) (id : Value)
                      → IsName m
                      → IsStorable id
                      → ¬ ((m ≡ n) × (id ≡ pk))
                      → read_by_id x c f m id s' ≡ ((read_by_id x c f m id s).0, s'))
                  × ((i : ℕ) (d : Column)
                      → get_elem? table.columns i ≡ some d
                      → d.index ≡ true
                      → (v : Value) × (get_elem? row i ≡ some v)
                        × ((ws : List Value) × (load_index x c f n d.name v s' ≡ (ok ws, s'))
                            × (is_member pk ws ≡ true)))))
    unfolding ◌>>=◌
    create_row_lem o h =
        let view_o : decode_option c.deserialize_row (view s row_key) ≡ ok o =
          cc (h, read_by_id-view x k c codec f n pk s db.good) in
        elim (taken o view_o) [
          | inl e ↦ inl e
          | inr (free, run) ↦
              elim (k.set_cases s row_key (c.serialize_row row)
                (encode_key-IsBytes_row n pk name key) db.good) [
                  | inl e ↦ inr (inl (free, (s, run ∙ ap (λ r. continue r.0 (λ u. loop) r.1) e)))
                  | inr (t, e, good', at_key, others) ↦
                      let start = run ∙ ap (λ r. continue r.0 (λ u. loop) r.1) e in
                      let (s', kept, out) =
                        add_to_indexes x k c codec f pk n name self row storable
                          (index_cols 0 table.columns) t
                          (index_cols-IsFine x k c codec f pk n name self row storable 0
                            table.columns row checked names (omega arith))
                          (row_set-IsDb x k c codec f n pk s t db good' others) in
                      elim out [
                        | inl o' ↦ inr (inl (free, (s', start ∙ o')))
                        | inr (o', held) ↦ inr (
                            inr (
                              free,
                              (
                                s',
                                start ∙ o',
                                read_new t good' others s' kept at_key,
                                read_other t good' others s' kept at_key,
                                indexed_at t good' others s' kept at_key held,
                              ),
                            ))
                      ]
                ]
        ]
