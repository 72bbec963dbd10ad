-- ===== src/Sql/Plan/ReadsOnly.antt =====
-- The planner and the state of the transaction (sql/plan/planner.rs).
use sqlprimer.Prelude.{◌≡◌, refl, ◌∙◌, Option, none, some, Outcome, ok, err, panic}
use sqlprimer.Bytes.{Bytes}
use sqlprimer.Storage.Mvcc.Monad.{Act, pure, lift, continue, ◌>>=◌}
use sqlprimer.Sql.Value.{Value}
use sqlprimer.Sql.Expr.{Expression}
use sqlprimer.Sql.Schema.{Table}
use sqlprimer.Sql.Statement.{FromItem, table, join, JoinType, Statement}
use sqlprimer.Sql.Transaction.{Transaction, must_get_table, found}
use sqlprimer.Sql.Plan.{
  Node, parse_scan_filter, choose_scan, plan_scan, build_scan, join_node, sides, build_from_item,
  build_columns, wrap_selection, build_statement,
}

-- A method that leaves the state as it found it.
abbrev pub Keeps : {S A : Type 0} → Act S A → Type 0
Keeps {S} m = (s : S) → (m s).1 ≡ s

>>=-Keeps :
    {S A B : Type 0} (m : Act S A) (k : A → Act S B)
    → Keeps m
    → ((a : A) → Keeps (k a))
    → Keeps (m >>= k)
unfolding ◌>>=◌
>>=-Keeps {S} {A} {B} m k h g s = go (m s).0 ∙ h s
  where
    go : (r : Outcome A) → (continue r k (m s).1).1 ≡ (m s).1
    go (ok a) = g a (m s).1
    go (err e) = refl
    go panic = refl

module _ {State : Type 0} (tx : Transaction State)
    (reads : (name : Bytes) → Keeps (tx.get_table name)) where
  must_get_table-Keeps : (name : Bytes) → Keeps (must_get_table tx name)
  unfolding must_get_table
  must_get_table-Keeps name = >>=-Keeps (tx.get_table name) (found) (reads name) go
    where
      go : (o : Option Table) → Keeps {S = State} (found o)
      go none s = refl
      go (some t) s = refl

  build_scan-Keeps :
      (name : Bytes) (condition : Option Expression) → Keeps (build_scan tx name condition)
  unfolding build_scan plan_scan
  build_scan-Keeps name condition =
      >>=-Keeps (lift (parse_scan_filter condition)) (plan_scan tx name condition) (λ s. refl) go
    where
      go : (o : Option (Bytes × Value)) → Keeps (plan_scan tx name condition o)
      go none = λ s. refl
      go (some (field, value)) =
          >>=-Keeps (must_get_table tx name) (λ t. pure (choose_scan name condition field value t))
            (must_get_table-Keeps name) (λ t s. refl)

  build_from_item-Keeps :
      (item : FromItem) (condition : Option Expression) → Keeps (build_from_item tx item condition)
  unfolding build_from_item
  build_from_item-Keeps (table name) condition = build_scan-Keeps name condition
  build_from_item-Keeps (join l r kind predicate) condition =
      both kind (build_from_item tx l condition) (build_from_item tx r condition)
        (build_from_item-Keeps l condition) (build_from_item-Keeps r condition) predicate
    where
      ordered :
          (kind : JoinType) (m n : Act State Node)
          → Keeps m
          → Keeps n
          → (predicate : Option Expression)
          → Keeps (m >>= λ a. n >>= λ b. pure (join_node kind a b predicate))
      ordered kind m n h g predicate =
          >>=-Keeps m (λ a. n >>= λ b. pure (join_node kind a b predicate)) h
            (λ a. >>=-Keeps n (λ b. pure (join_node kind a b predicate)) g (λ b s. refl))

      both :
          (kind : JoinType) (m n : Act State Node)
          → Keeps m
          → Keeps n
          → (predicate : Option Expression)
          → Keeps (
              (sides kind m n).0 >>= λ a.
              (sides kind m n).1 >>= λ b. pure (join_node kind a b predicate))
      both JoinType.right m n h g predicate = ordered JoinType.right n m g h predicate
      both JoinType.cross m n h g predicate = ordered JoinType.cross m n h g predicate
      both JoinType.inner m n h g predicate = ordered JoinType.inner m n h g predicate
      both JoinType.left m n h g predicate = ordered JoinType.left m n h g predicate

  build_statement-Keeps : (stmt : Statement) → Keeps (build_statement tx stmt)
  unfolding build_statement
  build_statement-Keeps (Statement.create_table name columns) =
      >>=-Keeps (lift (build_columns columns))
        (λ cs. pure (Node.create_table (record { name = name; columns = cs }))) (λ s. refl)
        (λ cs s. refl)
  build_statement-Keeps (Statement.insert name columns values) = λ s. refl
  build_statement-Keeps (Statement.select q) =
      >>=-Keeps (build_from_item tx q.from_item q.where_clause)
        (λ node. lift (wrap_selection q node)) (build_from_item-Keeps q.from_item q.where_clause)
        (λ node s. refl)
  build_statement-Keeps (Statement.update name columns condition) =
      >>=-Keeps (build_scan tx name condition) (λ source. pure (Node.update name source columns))
        (build_scan-Keeps name condition) (λ source s. refl)
  build_statement-Keeps (Statement.delete name condition) =
      >>=-Keeps (build_scan tx name condition) (λ source. pure (Node.delete name source))
        (build_scan-Keeps name condition) (λ source s. refl)
  build_statement-Keeps Statement.begin = λ s. refl
  build_statement-Keeps Statement.commit = λ s. refl
  build_statement-Keeps Statement.rollback = λ s. refl
  build_statement-Keeps (Statement.explain stmt) = λ s. refl
  build_statement-Keeps (Statement.drop_table name) = λ s. refl

  -- Where looking a table up does not change the state of the transaction, planning any statement
  -- does not, whether it succeeds, fails or panics.
  pub build_statement_state : (stmt : Statement) (s : State) → (build_statement tx stmt s).1 ≡ s
  build_statement_state stmt s = build_statement-Keeps stmt s
