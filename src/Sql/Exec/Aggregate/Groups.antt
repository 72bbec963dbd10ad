-- ===== src/Sql/Exec/Aggregate/Groups.antt =====
-- The groups of `GROUP BY` (sql/executor/agg.rs).
use mathlib.Core.List.{Perm, perm_middle}
use mathlib.Core.List.Perm
use sqlprimer.Prelude.{
  ℕ, ◌<◌, ◌≡◌, ◌⊎◌, inl, inr, refl, sym, subst, Bool, true, false, List, [], ◌∷◌, ◌++◌,
  append_assoc, append-nil, All, All-append, length, ok, if◌then◌else◌,
}
use sqlprimer.Sql.Value.{Value, Row}
use sqlprimer.Sql.Expr.{index_row}
use sqlprimer.Sql.Expr.Total.{index_row-lt}
use sqlprimer.Sql.Exec.Join.{same_key}
use sqlprimer.Sql.Exec.Aggregate.{push_group, group_rows}

-- The rows of all groups.
abbrev pub concat : List (Value × List Row) → List Row
concat [] = []
concat ((key, rows) ∷ groups) = rows ++ concat groups

push_group-perm :
    (key : Value) (row : Row) (groups : List (Value × List Row))
    → Perm (concat (push_group key row groups)) (row ∷ concat groups)
unfolding push_group
push_group-perm key row [] = Perm.rfl
push_group-perm key row ((k, rows) ∷ groups) = go (same_key k key) (push_group-perm key row groups)
  where
    go :
        (b : Bool)
        → Perm (concat (push_group key row groups)) (row ∷ concat groups)
        → Perm
            (concat
              (if b then (k, rows ++ row ∷ []) ∷ groups else (k, rows) ∷ push_group key row groups))
            (row ∷ rows ++ concat groups)
    go true ih =
        subst (λ l. Perm l (row ∷ rows ++ concat groups))
          (sym (append_assoc rows (row ∷ []) (concat groups))) (perm_middle rows (concat groups))
    go false ih = Perm.trans (Perm.append_left rows ih) (perm_middle rows (concat groups))

-- What holds of the old keys and of the new one holds of the keys after it.
push_group-keys :
    (Q : Value → Type 0) (key : Value) (row : Row) (groups : List (Value × List Row))
    → Q key
    → All (λ g. Q g.0) groups
    → All (λ g. Q g.0) (push_group key row groups)
unfolding push_group
push_group-keys Q key row [] q a = (q, tt)
push_group-keys Q key row ((k, rows) ∷ groups) q a =
    go (same_key k key) (push_group-keys Q key row groups q a.1)
  where
    go :
        (b : Bool)
        → All (λ g. Q g.0) (push_group key row groups)
        → All
            (λ g. Q g.0)
            (if b then (k, rows ++ row ∷ []) ∷ groups else (k, rows) ∷ push_group key row groups)
    go true ih = a
    go false ih = (a.0, ih)

-- No key of a group finds a later group.
abbrev pub Apart : List (Value × List Row) → Type 0
Apart [] = Unit
Apart ((k, rows) ∷ groups) = All (λ g. same_key k g.0 ≡ false) groups × Apart groups

push_group-Apart :
    (key : Value) (row : Row) (groups : List (Value × List Row))
    → Apart groups
    → Apart (push_group key row groups)
unfolding push_group
push_group-Apart key row [] a = (tt, tt)
push_group-Apart key row ((k, rows) ∷ groups) a =
    go (same_key k key) refl (push_group-Apart key row groups a.1)
  where
    go :
        (b : Bool)
        → same_key k key ≡ b
        → Apart (push_group key row groups)
        → Apart
            (if b then (k, rows ++ row ∷ []) ∷ groups else (k, rows) ∷ push_group key row groups)
    go true e ih = a
    go false e ih = (push_group-keys (λ j. same_key k j ≡ false) key row groups e a.0, ih)

module _ (p : ℕ) where
  -- The row has, in column `p`, the key of its group.
  abbrev pub Belongs : Value → Row → Type 0
  Belongs k row = (v : Value) × (index_row row p ≡ ok v) × ((k ≡ v) ⊎ (same_key k v ≡ true))

  abbrev pub IsGroup : Value × List Row → Type 0
  IsGroup g = All (Belongs g.0) g.1

  push_group-IsGroup :
      (key : Value) (row : Row) (groups : List (Value × List Row))
      → index_row row p ≡ ok key
      → All IsGroup groups
      → All IsGroup (push_group key row groups)
  unfolding push_group
  push_group-IsGroup key row [] e a = (((key, e, inl refl), tt), tt)
  push_group-IsGroup key row ((k, rows) ∷ groups) e a =
      go (same_key k key) refl (push_group-IsGroup key row groups e a.1)
    where
      go :
          (b : Bool)
          → same_key k key ≡ b
          → All IsGroup (push_group key row groups)
          → All IsGroup
              (if b then (k, rows ++ row ∷ []) ∷ groups else (k, rows) ∷ push_group key row groups)
      go true s ih = (All-append (Belongs k) rows (row ∷ []) a.0 ((key, e, inr s), tt), a.1)
      go false s ih = (a.0, ih)

  group_rows_from :
      (groups : List (Value × List Row)) (rows : List Row)
      → All (λ row. p < length row) rows
      → All IsGroup groups
      → Apart groups
      → (result : List (Value × List Row)) × (group_rows p groups rows ≡ ok result)
        × Perm (concat result) (rows ++ concat groups)
        × All IsGroup result
        × Apart result
  unfolding group_rows
  group_rows_from groups [] h g a = (groups, refl, Perm.rfl, g, a)
  group_rows_from groups (row ∷ rows) h g a =
      let (key, e) = index_row-lt row p h.0 in
      let (result, r, perm, g', a') =
        group_rows_from (push_group key row groups) rows h.1 (push_group-IsGroup key row groups e g)
          (push_group-Apart key row groups a) in
      (
        result,
        rw e r,
        Perm.trans perm (
            Perm.trans (Perm.append_left rows (push_group-perm key row groups))
              (perm_middle rows (concat groups))),
        g',
        a',
      )

  -- Where each row has a value in the column of the `GROUP BY`, the rows are divided into groups:
  -- together the groups have each row as often as the source, each row stands in the group of its
  -- value in the column, and no key finds the group of a later key.
  pub group_rows_lem :
      (rows : List Row)
      → All (λ row. p < length row) rows
      → (groups : List (Value × List Row)) × (group_rows p [] rows ≡ ok groups)
        × Perm (concat groups) rows
        × All
            (λ g.
              All
                (λ row.
                  (v : Value) × (index_row row p ≡ ok v) × ((g.0 ≡ v) ⊎ (same_key g.0 v ≡ true)))
                g.1)
            groups
        × Apart groups
  group_rows_lem rows h =
      let (result, r, perm, g, a) = group_rows_from [] rows h tt tt in
      (result, r, subst (Perm (concat result)) (append-nil rows) perm, g, a)
