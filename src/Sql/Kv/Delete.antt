-- ===== src/Sql/Kv/Delete.antt =====
-- What `delete_row` of sql/engine/kv.rs leaves.
use sqlprimer.Prelude.{
  ℕ, ◌≡◌, ◌⊎◌, inl, inr, refl, sym, ap, ◌∙◌, Option, none, some, List, [], ◌∷◌, All, Outcome, ok,
  err, write_conflict,
}
use sqlprimer.Bytes.{Bytes}
use sqlprimer.Storage.Mvcc.Monad.{◌>>=◌, for_each}
use sqlprimer.Sql.Numbers.{Floats}
use sqlprimer.Sql.Value.{Value, Row}
use sqlprimer.Sql.Schema.{Column, Table}
use sqlprimer.Sql.Expr.{index_row}
use sqlprimer.Sql.Kv.Key.{Key, encode_key}
use sqlprimer.Sql.Kv.Key.Distinct.{
  IsName, IsStorable, encode_key-IsBytes_row, encode_key-row_injective,
}
use sqlprimer.Sql.Kv.Store.{KeyValue, IsKeyValue}
use sqlprimer.Sql.Kv.Codec.{Codec, IsCodec, decode_option}
use sqlprimer.Sql.Kv.Txn.{
  read_by_id, load_index, index_cols, delete_row, remove_from_indexes, remove_from_index,
}
use sqlprimer.Sql.Kv.Indexes.{IsDb, load_index-index_in}
use sqlprimer.Sql.Kv.Reads.{decode_none, read_by_id-view, row-IsNoIndex, read_by_id-congr}

module _ (x : KeyValue) (k : IsKeyValue x) (c : Codec) (codec : IsCodec c) (f : Floats) where
  open x use {State}
  open k use {IsGood, view}

  -- An index is read as before where its entry is as before.
  load_index-congr :
      (n col : Bytes) (v : Value) (s s' : State)
      → IsDb x k c codec f s
      → IsGood s'
      → view s' (encode_key (Key.index n col v)) ≡ view s (encode_key (Key.index n col v))
      → load_index x c f n col v s' ≡ ((load_index x c f n col v s).0, s')
  load_index-congr n col v s s' h good' e =
      let (ws, r) = h.readable n col v in
      rw
        (
          load_index-index_in x k c codec f n col v s ws h.good r,
          load_index-index_in x k c codec f n col v s' ws good'
              (ap (decode_option c.deserialize_index) e ∙ r),
        )
        refl

  module _ (table : Table) (name : IsName table.name) (id : Value) (key : IsStorable id) (s : State)
      (db : IsDb x k c codec f s) where
    abbrev Has : Row → ℕ × Column → Type 0
    Has row e = (v : Value) × (index_row row e.0 ≡ ok v)

    unindex :
        (row : Row) (cols : List (ℕ × Column))
        → All (Has row) cols
        → for_each cols (remove_from_index x c f table.name row) s ≡ (ok tt, s)
    unfolding for_each ◌>>=◌ remove_from_index
    unindex row [] h = refl
    unindex row ((i, d) ∷ cols) h =
        let (ws, r) = db.readable table.name d.name h.0.0 in
        let l = load_index-index_in x k c codec f table.name d.name h.0.0 s ws db.good r in
        rw (h.0.1) (rw l (rw l (unindex row cols h.1)))

    delete_row-delete :
        (o : Option Row)
        → read_by_id x c f table.name id s ≡ (ok o, s)
        → ((row : Row) → o ≡ some row → All (Has row) (index_cols 0 table.columns))
        → delete_row x c f table id s ≡ x.delete (encode_key (Key.row table.name id)) s
    unfolding delete_row ◌>>=◌ remove_from_indexes
    delete_row-delete none h all = rw h refl
    delete_row-delete (some row) h all =
        rw h (rw (unindex row (index_cols 0 table.columns) (all row refl)) refl)

    -- On a state whose indexes can be read, for a table whose name consists of bytes above 4, a
    -- storable id, about which `read_by_id` gives a result, and, where that is a row, one that
    -- reaches to each index column: `delete_row` is a write conflict that changes nothing, or it
    -- succeeds, and then `read_by_id` gives no row for the id, and what it gave before for each
    -- other row, and each index of each table is what it was, also where it holds the id.
    pub delete_row_lem :
        (o : Option Row)
        → read_by_id x c f table.name id s ≡ (ok o, s)
        → ((row : Row)
            → o ≡ some row
            → All (λ e. (v : Value) × (index_row row e.0 ≡ ok v)) (index_cols 0 table.columns))
        → (delete_row x c f table id s ≡ (err write_conflict, s))
          ⊎ ((s' : State) × (delete_row x c f table id s ≡ (ok tt, s'))
              × (read_by_id x c f table.name id s' ≡ (ok none, s'))
              × ((m : Bytes) (other : Value)
                  → IsName m
                  → IsStorable other
                  → ¬ ((m ≡ table.name) × (other ≡ id))
                  → read_by_id x c f m other s' ≡ ((read_by_id x c f m other s).0, s'))
              × ((m col : Bytes) (v : Value)
                  → load_index x c f m col v s' ≡ ((load_index x c f m col v s).0, s')))
    delete_row_lem o h all =
        let run = delete_row-delete o h all in
        elim (k.delete_cases s (encode_key (Key.row table.name id))
          (encode_key-IsBytes_row table.name id name key) db.good) [
            | inl e ↦ inl (run ∙ e)
            | inr (s', e, good', at_key, others) ↦ inr (
              s',
              run ∙ e,
              read_by_id-view x k c codec f table.name id s' good'
                  ∙ ap {B = Outcome (Option Row) × State}
                      (λ v. (decode_option c.deserialize_row v, s')) at_key
                  ∙ ap {B = Outcome (Option Row) × State} (λ r. (r, s'))
                      (decode_none c.deserialize_row),
              λ m other g st d. read_by_id-congr x k c codec f m other s s' db.good good' (
                  others _
                    (λ q. d (encode_key-row_injective m table.name other id g name st key q))),
              λ m col v.
                  load_index-congr m col v s s' db good'
                    (others _ (λ q. row-IsNoIndex x k c codec f table.name id m col v (sym q))),
            )
          ]
