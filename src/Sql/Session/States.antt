-- ===== src/Sql/Session/States.antt =====
-- When a session of sql/engine/mod.rs is in a transaction.
use sqlprimer.Prelude.{
  ℕ, ◌≡◌, ◌≢◌, ◌⊎◌, inl, inr, refl, Option, none, some, Outcome, ok, err, panic,
}
use sqlprimer.Storage.Mvcc.Monad.{Act, ◌>>=◌, continue}
use sqlprimer.Sql.Statement.{Statement}
use sqlprimer.Sql.Exec.{ResultSet}
use sqlprimer.Sql.Session.{
  Database, Platform, Session, on_engine, set_txn, run_begin, run_commit, run_rollback,
  execute_statement,
}

-- The statements that begin and end transactions.
abbrev pub IsControl : Statement → Type 0
IsControl stmt = (stmt ≡ Statement.begin) ⊎ (stmt ≡ Statement.commit) ⊎ (stmt ≡ Statement.rollback)

module _ {State : Type 0} (d : Database State) (p : Platform) where
  open d use {Handle, begin, transaction}

  abbrev Failed : Outcome ResultSet → Type 0
  Failed o = (r : ResultSet) → o ≢ ok r

  abbrev rest : Handle → Act (Session d p) ResultSet
  rest h s = (ok (ResultSet.begin ((transaction h).version s.0)), (s.0, some h))

  begin_txn :
      (s : State)
      → ((h : Handle) × (v : ℕ) × ((run_begin d p (s, none)).0 ≡ ok (ResultSet.begin v))
          × ((run_begin d p (s, none)).1.1 ≡ some h))
        ⊎ (((run_begin d p (s, none)).1.1 ≡ none) × Failed (run_begin d p (s, none)).0)
  unfolding run_begin ◌>>=◌ on_engine set_txn
  begin_txn s = go (begin s).0 (begin s).1
    where
      go :
          (o : Outcome Handle) (s' : State)
          → ((h : Handle) × (v : ℕ) × ((continue o rest (s', none)).0 ≡ ok (ResultSet.begin v))
              × ((continue o rest (s', none)).1.1 ≡ some h))
            ⊎ (((continue o rest (s', none)).1.1 ≡ none) × Failed (continue o rest (s', none)).0)
      go (ok h) s' = inl (h, (transaction h).version s', refl, refl)
      go (err e) s' = inr (refl, λ r q. cc)
      go panic s' = inr (refl, λ r q. cc)

  -- A call of the transaction's, and then the end of the transaction.
  ended :
      (o : Outcome (Unit {0})) (s : State) (h : Handle) (r : ResultSet)
      → (((q : ResultSet) × ((continue {S = Session d p} o
                (λ u s'. (ok r, (s'.0, none)))
                (s, some h)).0
              ≡ ok q))
          × ((continue {S = Session d p} o (λ u s'. (ok r, (s'.0, none))) (s, some h)).1.1 ≡ none))
        ⊎ (((continue {S = Session d p} o (λ u s'. (ok r, (s'.0, none))) (s, some h)).1.1 ≡ some h)
            × Failed (continue {S = Session d p} o (λ u s'. (ok r, (s'.0, none))) (s, some h)).0)
  ended (ok u) s h r = inl ((r, refl), refl)
  ended (err e) s h r = inr (refl, λ q w. cc)
  ended panic s h r = inr (refl, λ q w. cc)

  commit_txn :
      (s : State) (h : Handle)
      → (((q : ResultSet) × ((run_commit d p h (s, some h)).0 ≡ ok q))
          × ((run_commit d p h (s, some h)).1.1 ≡ none))
        ⊎ (((run_commit d p h (s, some h)).1.1 ≡ some h) × Failed (run_commit d p h (s, some h)).0)
  unfolding run_commit ◌>>=◌ on_engine set_txn
  commit_txn s h =
      ended ((transaction h).commit s).0 ((transaction h).commit s).1 h
        (ResultSet.commit ((transaction h).version s))

  rollback_txn :
      (s : State) (h : Handle)
      → (((q : ResultSet) × ((run_rollback d p h (s, some h)).0 ≡ ok q))
          × ((run_rollback d p h (s, some h)).1.1 ≡ none))
        ⊎ (((run_rollback d p h (s, some h)).1.1 ≡ some h)
            × Failed (run_rollback d p h (s, some h)).0)
  unfolding run_rollback ◌>>=◌ on_engine set_txn
  rollback_txn s h =
      ended ((transaction h).rollback s).0 ((transaction h).rollback s).1 h
        (ResultSet.rollback ((transaction h).version s))

  -- A statement changes whether the session is in a transaction in two ways only: a `BEGIN` that
  -- succeeds outside a transaction enters one, and a `COMMIT` or `ROLLBACK` that succeeds in a
  -- transaction leaves it; each other statement, and each of these three that fails, leaves the
  -- session's transaction as it was.
  pub execute_statement_txn :
      (stmt : Statement) (s : State) (txn : Option Handle)
      → ((stmt ≡ Statement.begin)
          × (txn ≡ none)
          × ((h : Handle) × (v : ℕ) × ((execute_statement d p stmt (s, txn)).0
                ≡ ok (ResultSet.begin v))
              × ((execute_statement d p stmt (s, txn)).1.1 ≡ some h)))
        ⊎ (((stmt ≡ Statement.commit) ⊎ (stmt ≡ Statement.rollback))
            × (txn ≢ none)
            × ((r : ResultSet) × ((execute_statement d p stmt (s, txn)).0 ≡ ok r))
            × ((execute_statement d p stmt (s, txn)).1.1 ≡ none))
        ⊎ (((execute_statement d p stmt (s, txn)).1.1 ≡ txn)
            × (IsControl stmt → (r : ResultSet) → (execute_statement d p stmt (s, txn)).0 ≢ ok r))
  unfolding execute_statement on_engine
  execute_statement_txn Statement.begin s none = elim (begin_txn s) [
    | inl entered ↦ inl (refl, refl, entered)
    | inr (same, failed) ↦ inr (inr (same, λ c. failed))
  ]
  execute_statement_txn Statement.begin s (some h) = inr (inr (refl, λ c r q. cc))
  execute_statement_txn Statement.commit s none = inr (inr (refl, λ c r q. cc))
  execute_statement_txn Statement.commit s (some h) = elim (commit_txn s h) [
    | inl (done, left) ↦ inr (inl (inl refl, (λ q. cc), done, left))
    | inr (same, failed) ↦ inr (inr (same, λ c. failed))
  ]
  execute_statement_txn Statement.rollback s none = inr (inr (refl, λ c r q. cc))
  execute_statement_txn Statement.rollback s (some h) = elim (rollback_txn s h) [
    | inl (done, left) ↦ inr (inl (inr refl, (λ q. cc), done, left))
    | inr (same, failed) ↦ inr (inr (same, λ c. failed))
  ]
  execute_statement_txn (Statement.explain stmt) s txn =
      inr (inr (refl, λ c. elim c [ inl e ↦ cc | inr c2 ↦ elim c2 [ inl e ↦ cc | inr e ↦ cc ] ]))
  execute_statement_txn stmt s txn =
      inr (inr (refl, λ c. elim c [ inl e ↦ cc | inr c2 ↦ elim c2 [ inl e ↦ cc | inr e ↦ cc ] ]))
