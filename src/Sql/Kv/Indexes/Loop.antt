-- ===== src/Sql/Kv/Indexes/Loop.antt =====
-- The loop of `create_row` of sql/engine/kv.rs over the indexes.
use sqlprimer.Prelude.{
  ℕ, zero, suc, ◌+◌, ◌<◌, ◌≤◌, ◌≡◌, ◌⊎◌, inl, inr, refl, Bool, true, false, some, List, [], ◌∷◌,
  All, length, get_elem?, Outcome, ◌>>◌, ok, err, panic, write_conflict, arith, if◌then◌else◌,
}
use sqlprimer.Bytes.{Bytes}
use sqlprimer.Storage.Mvcc.Monad.{◌>>=◌, for_each}
use sqlprimer.Sql.Numbers.{Floats}
use sqlprimer.Sql.Value.{Value, Row, datatype}
use sqlprimer.Sql.Expr.{index_row}
use sqlprimer.Sql.Schema.{Column}
use sqlprimer.Sql.Rows.{check_row, check_value}
use sqlprimer.Sql.Exec.Join.{same_key}
use sqlprimer.Sql.Kv.Key.Distinct.{IsName, IsStorable}
use sqlprimer.Sql.Kv.Store.{KeyValue, IsKeyValue}
use sqlprimer.Sql.Kv.Codec.{Codec, IsCodec}
use sqlprimer.Sql.Kv.Txn.{index_cols, add_to_index}
use sqlprimer.Sql.Kv.Indexes.{
  IsDb, IsKept, IsKept-refl, IsKept-trans, IsFine, HoldsCol, add_to_index_lem,
}

-- A row that passes the check has a value at each column.
get_elem?-lt :
    {A : Type 0} (P : A → Type 0) (xs : List A) (i : ℕ)
    → All P xs
    → i < length xs
    → (a : A) × (get_elem? xs i ≡ some a) × P a
get_elem?-lt P [] i h l = absurd (omega arith)
get_elem?-lt P (y ∷ ys) zero h l = (y, refl, h.0)
get_elem?-lt P (y ∷ ys) (suc i) h l = get_elem?-lt P ys i h.1 (omega arith)

index_row_lem :
    (row : Row) (i : ℕ)
    → All IsStorable row
    → i < length row
    → (v : Value) × (index_row row i ≡ ok v) × IsStorable v
unfolding index_row
index_row_lem row i h l =
    let (v, e, st) = get_elem?-lt IsStorable row i h l in (v, rw (e, index_row) refl, st)

check_row-tail :
    (c : Column) (cs : List Column) (v : Value) (vs : Row)
    → check_row (c ∷ cs) (v ∷ vs) ≡ ok tt
    → check_row cs vs ≡ ok tt
unfolding check_row
check_row-tail c cs v vs h = go (check_value c (datatype v)) h
  where
    go : (r : Outcome (Unit {0})) → r >> check_row cs vs ≡ ok tt → check_row cs vs ≡ ok tt
    go (ok u) h = h
    go (err e) h = cc
    go panic h = cc

module _ (x : KeyValue) (k : IsKeyValue x) (c : Codec) (codec : IsCodec c) (f : Floats) (pk : Value)
    (n : Bytes) (name : IsName n) (self : same_key pk pk ≡ true) where
  open x use {State}
  open k use {IsGood, view}

  module _ (row : Row) (storable : All IsStorable row) where
    abbrev FineIf : ℕ × Column → List (ℕ × Column) → Bool → Type 0
    FineIf e l b = All (IsFine x k c codec f pk n name self row) (if b then e ∷ l else l)

    pub index_cols-IsFine :
        (i : ℕ) (cs : List Column) (vs : Row)
        → check_row cs vs ≡ ok tt
        → All (λ d. IsName d.name) cs
        → i + length vs ≤ length row
        → All (IsFine x k c codec f pk n name self row) (index_cols i cs)
    unfolding check_row index_cols
    index_cols-IsFine i [] vs h g l = tt
    index_cols-IsFine i (d ∷ cs) [] h g l = cc
    index_cols-IsFine i (d ∷ cs) (v ∷ vs) h g l =
        let rest = index_cols-IsFine (suc i) cs vs (check_row-tail d cs v vs h) g.1 (omega arith) in
        go d.index (g.0, index_row_lem row i storable (omega arith)) rest
      where
        go :
            (b : Bool)
            → IsFine x k c codec f pk n name self row (i, d)
            → All (IsFine x k c codec f pk n name self row) (index_cols (suc i) cs)
            → FineIf (i, d) (index_cols (suc i) cs) b
        go true here rest = (here, rest)
        go false here rest = rest

    abbrev pub HoldsAll : State → List (ℕ × Column) → Type 0
    HoldsAll s = All (HoldsCol x k c codec f pk n name self row s)

    held-on :
        (s s' : State) (e : ℕ × Column)
        → IsKept x k c codec f pk s s'
        → HoldsCol x k c codec f pk n name self row s e
        → HoldsCol x k c codec f pk n name self row s' e
    held-on s s' (i, d) kept (v, e, h) = (v, e, kept.held n d.name v h)

    -- The loop over the indexes.
    pub add_to_indexes :
        (cols : List (ℕ × Column)) (s : State)
        → All (IsFine x k c codec f pk n name self row) cols
        → IsDb x k c codec f s
        → (s' : State) × IsKept x k c codec f pk s s'
          × ((for_each cols (add_to_index x c f n pk row) s ≡ (err write_conflict, s'))
              ⊎ ((for_each cols (add_to_index x c f n pk row) s ≡ (ok tt, s')) × HoldsAll s' cols))
    unfolding for_each ◌>>=◌
    add_to_indexes [] s g h = (s, IsKept-refl x k c codec f pk s h, inr (refl, tt))
    add_to_indexes (e ∷ cols) s g h =
        let (t, kept, out) = add_to_index_lem x k c codec f pk n name self row e s g.0 h in
        elim out [
          | inl o ↦ (t, kept, inl (rw o refl))
          | inr (o, holds) ↦
              let (u, kept', out') = add_to_indexes cols t g.1 kept.db in
              (
                u,
                IsKept-trans x k c codec f pk s t u kept kept',
                elim out' [
                  | inl o' ↦ inl (rw o o')
                  | inr (o', all) ↦ inr (rw o o', (held-on t u e kept' holds, all))
                ],
              )
        ]
