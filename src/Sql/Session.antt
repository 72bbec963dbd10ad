-- ===== src/Sql/Session.antt =====
-- `Session` of sql/engine/mod.rs.
pub mod States
use sqlprimer.Prelude.{
  ℕ, Option, none, some, List, [], ◌∷◌, ◌++◌, Outcome, ok, err, panic, internal,
}
use sqlprimer.Bytes.{Bytes}
use sqlprimer.Storage.Mvcc.Monad.{Act, pure, lift, ◌>>=◌, ◌>>◌}
use sqlprimer.Sql.Text.{Unicode}
use sqlprimer.Sql.Numbers.{F64, Floats}
use sqlprimer.Sql.Value.{Value, Row}
use sqlprimer.Sql.Statement.{Statement}
use sqlprimer.Sql.Schema.{Table}
use sqlprimer.Sql.Transaction.{Transaction, must_get_table}
use sqlprimer.Sql.Plan.{Node, build_statement}
use sqlprimer.Sql.Plan.Display.{show_plan}
use sqlprimer.Sql.Display.{join_texts, show_table}
use sqlprimer.Sql.Exec.{ResultSet}
use sqlprimer.Sql.Exec.Sort.{Sorter}
use sqlprimer.Sql.Exec.Execute.{execute}
use sqlprimer.Sql.Parser.Grammar.Statements.{parse_text}

-- `Engine`: `begin` gives what identifies a transaction.
pub record Database (State : Type 0) : Type 1 where
  pub Handle : Type 0
  pub begin : Act State Handle
  pub transaction : Handle → Transaction State

-- What the standard library decides.
pub record Platform : Type 1 where
  pub floats : Floats
  pub unicode : Unicode
  pub show_float : F64 → Bytes
  pub sorter : Sorter
  pub arrange : List (Value × List Row) → List (Value × List Row)

module _ {State : Type 0} (d : Database State) (p : Platform) where
  open d use {Handle, begin, transaction}

  -- The state of the engine and the `txn` of the session.
  abbrev pub Session : Type 0
  Session = State × Option Handle

  -- A call that leaves the session's transaction.
  unfoldable pub on_engine : {A : Type 0} → Act State A → Act Session A
  on_engine m (s, txn) = let (r, s') = m s in (r, (s', txn))

  unfoldable pub set_txn : Option Handle → Act Session (Unit {0})
  set_txn txn (s, old) = (ok tt, (s, txn))

  -- `Plan::build` and `Plan::execute` in a transaction.
  unfoldable pub run_statement : Handle → Statement → Act State ResultSet
  unfolding ◌>>=◌
  run_statement h stmt = do
    node ← build_statement (transaction h) stmt
    execute (transaction h) p.floats p.sorter p.unicode p.arrange node

  unfoldable pub explained : Node → Outcome ResultSet
  explained node = elim (show_plan p.show_float node) [
    | ok text ↦ ok (ResultSet.explain text)
    | err e ↦ err e
    | panic ↦ panic
  ]

  -- What becomes of a transaction that a single statement began: a result is committed, an error
  -- rolled back.
  unfoldable pub finish : Handle → Outcome ResultSet → Act State ResultSet
  unfolding ◌>>=◌
  finish h (ok result) = do (transaction h).commit; pure result
  finish h (err e) = do (transaction h).rollback; lift (err e)
  finish h panic = lift panic

  -- The node that was planned is executed, and its outcome finishes the transaction.
  unfoldable pub execute_and_finish : Handle → Node → Act State ResultSet
  unfolding finish
  execute_and_finish h node s =
      let (r, s') = execute (transaction h) p.floats p.sorter p.unicode p.arrange node s in
      finish h r s'

  -- A statement outside a transaction; an error of the planner leaves the transaction open.
  unfoldable pub auto_commit : Statement → Act State ResultSet
  unfolding ◌>>=◌
  auto_commit stmt = do
    h ← begin
    node ← build_statement (transaction h) stmt
    execute_and_finish h node

  unfoldable pub explain : Option Handle → Statement → Act State ResultSet
  unfolding ◌>>=◌
  explain (some h) stmt = do node ← build_statement (transaction h) stmt; lift (explained node)
  explain none stmt = do
    h ← begin
    node ← build_statement (transaction h) stmt
    (transaction h).commit
    lift (explained node)

  unfoldable pub run_begin : Act Session ResultSet
  unfolding ◌>>=◌
  run_begin = do
    h ← on_engine begin
    set_txn (some h)
    on_engine (λ s. (ok (ResultSet.begin ((transaction h).version s)), s))

  unfoldable pub run_commit : Handle → Act Session ResultSet
  unfolding ◌>>=◌
  run_commit h = do
    version ← on_engine (λ s. (ok ((transaction h).version s), s))
    on_engine (transaction h).commit
    set_txn none
    pure (ResultSet.commit version)

  unfoldable pub run_rollback : Handle → Act Session ResultSet
  unfolding ◌>>=◌
  run_rollback h = do
    version ← on_engine (λ s. (ok ((transaction h).version s), s))
    on_engine (transaction h).rollback
    set_txn none
    pure (ResultSet.rollback version)

  -- Any other statement, in the session's transaction or in one of its own.
  unfoldable pub run_other : Option Handle → Statement → Act State ResultSet
  run_other (some h) stmt = run_statement h stmt
  run_other none stmt = auto_commit stmt

  -- The match of `execute`.
  unfoldable pub execute_statement : Statement → Act Session ResultSet
  execute_statement Statement.begin (s, some h) = (err internal, (s, some h))
  execute_statement Statement.commit (s, none) = (err internal, (s, none))
  execute_statement Statement.rollback (s, none) = (err internal, (s, none))
  execute_statement Statement.begin (s, none) = run_begin (s, none)
  execute_statement Statement.commit (s, some h) = run_commit h (s, some h)
  execute_statement Statement.rollback (s, some h) = run_rollback h (s, some h)
  execute_statement (Statement.explain stmt) (s, txn) = on_engine (explain txn stmt) (s, txn)
  execute_statement stmt (s, txn) = on_engine (run_other txn stmt) (s, txn)

  -- `execute`, on the text of a statement.
  unfoldable pub execute_sql : List ℕ → Act Session ResultSet
  unfolding ◌>>=◌
  execute_sql sql = do stmt ← lift (parse_text p.floats p.unicode sql); execute_statement stmt

  unfoldable pub get_table : Bytes → Act State Bytes
  unfolding ◌>>=◌
  get_table table_name = do
    h ← begin
    table ← must_get_table (transaction h) table_name
    (transaction h).commit
    pure (show_table p.show_float table)

  -- `get_table_names`: the names, a line each.
  unfoldable pub get_table_names : Act State Bytes
  unfolding ◌>>=◌
  get_table_names = do
    h ← begin
    names ← (transaction h).get_table_names
    (transaction h).commit
    pure (join_texts (10 ∷ []) names)
