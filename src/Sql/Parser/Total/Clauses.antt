-- ===== src/Sql/Parser/Total/Clauses.antt =====
-- The fuel of the parser of the clauses in sql/parser/mod.rs.
use sqlprimer.Prelude.{ℕ, zero, suc, ◌≤◌, ◌<◌, Option, none, some, List, length, arith}
use sqlprimer.Storage.Mvcc.Monad.{pure, ◌>>=◌, ◌>>◌}
use sqlprimer.Sql.Numbers.{Floats}
use sqlprimer.Sql.Expr.{Expression}
use sqlprimer.Sql.Statement.{JoinType, FromItem}
use sqlprimer.Sql.Parser.Token.{Keyword, Token}
use sqlprimer.Sql.Parser.Lexer.{Item}
use sqlprimer.Sql.Parser.Grammar.{Parser, next_expect}
use sqlprimer.Sql.Parser.Grammar.Expressions.{parse_expression}
use sqlprimer.Sql.Parser.Total.{
  Takes, step, weaken, next_if_lem, next_if_token_lem, next_ident_lem, next_expect_lem, pure_lem,
  if_some_lem,
}
use sqlprimer.Sql.Parser.Total.Expressions.{parse_expression_lem, parse_operation_expr_lem}
use sqlprimer.Sql.Parser.Grammar.Clauses.{
  behind, more_behind_comma, select_list, parse_select_clause, parse_from_table_clause, joined_by,
  parse_from_clause_join, condition, join_predicate, join_one, join_loop, parse_from_clause,
  parse_where_clause, parse_group_clause, parse_having_clause, order_list, parse_order_clause,
  parse_select,
}

pub behind_lem :
    {A : Type 0} (k : Keyword) (part : Parser A) (s : List Item)
    → ((r : List Item) → length r ≤ length s → Takes 0 part r)
    → Takes 0 (behind k part) s
unfolding behind
behind_lem k part s h = step 0 (next_if_token_lem _ s) (λ o r l.
    if_some_lem o _ _ r (step 0 (h r (omega arith)) (λ a v w. pure_lem _ v)) (pure_lem _ r))

pub more_behind_comma_lem :
    {A : Type 0} (a : A) (more : Parser (List A)) (s : List Item)
    → ((r : List Item) → length r ≤ length s → Takes 0 more r)
    → Takes 0 (more_behind_comma a more) s
unfolding more_behind_comma
more_behind_comma_lem a more s h = step 0 (next_if_token_lem _ s) (λ o r l.
    if_some_lem o _ _ r (step 0 (h r (omega arith)) (λ b v w. pure_lem _ v)) (pure_lem _ r))

module _ (f : Floats) where
  select_list_lem : (fuel : ℕ) (s : List Item) → length s < fuel → Takes 0 (select_list f fuel) s
  unfolding select_list
  select_list_lem zero s h = absurd (omega arith)
  select_list_lem (suc fuel) s h = weaken (
      step 1 (parse_expression_lem f fuel s (omega arith)) (λ e r l.
        step 0 (behind_lem _ _ r (λ v w. weaken (next_ident_lem v)))
          (λ a v w. more_behind_comma_lem _ _ v (λ p q. select_list_lem fuel p (omega arith)))))

  parse_select_clause_lem :
      (fuel : ℕ) (s : List Item) → length s ≤ fuel → Takes 1 (parse_select_clause f fuel) s
  unfolding parse_select_clause
  parse_select_clause_lem fuel s h = step 1 (next_expect_lem _ s) (λ u r l.
      step 0 (next_if_token_lem _ r)
        (λ o v w. if_some_lem o _ _ v (pure_lem _ v) (select_list_lem fuel v (omega arith))))

  parse_from_table_clause_lem : (s : List Item) → Takes 1 (parse_from_table_clause f) s
  unfolding parse_from_table_clause
  parse_from_table_clause_lem s = step 1 (next_ident_lem s) (λ n r l. pure_lem _ r)

  joined_by_lem : (kind : JoinType) (s : List Item) → Takes 0 (joined_by f kind) s
  joined_by_lem kind s = weaken (step 1 (next_expect_lem _ s) (λ u r l. pure_lem _ r))

  parse_from_clause_join_lem : (s : List Item) → Takes 0 (parse_from_clause_join f) s
  unfolding parse_from_clause_join
  parse_from_clause_join_lem s = step 0 (next_if_token_lem _ s) (λ o r l.
      if_some_lem o _ _ r (joined_by_lem _ r) (
        step 0 (next_if_token_lem _ r) (λ o' r' l'. if_some_lem o' _ _ r' (pure_lem _ r') (
          step 0 (next_if_token_lem _ r') (λ p v w. if_some_lem p _ _ v (joined_by_lem _ v) (
            step 0 (next_if_token_lem _ v)
              (λ p' v' w'. if_some_lem p' _ _ v' (joined_by_lem _ v') (pure_lem _ v'))))))))

  on_lem :
      (fuel : ℕ) (make : Expression → Expression → Option Expression) (s : List Item)
      → length s ≤ fuel
      → Takes 0
          (do
            next_expect (Token.keyword Keyword.on)
            l ← parse_expression f fuel
            next_expect Token.equal
            r ← parse_expression f fuel
            pure (make l r))
          s
  on_lem fuel make s h = weaken (
      step 1 (next_expect_lem _ s) (λ u r l. weaken (
        step 1 (parse_expression_lem f fuel r (omega arith)) (λ e v w. weaken (
          step 1 (next_expect_lem _ v) (λ u' p q.
            weaken
              (step 1 (parse_expression_lem f fuel p (omega arith)) (λ e' y z. pure_lem _ y))))))))

  join_predicate_lem :
      (fuel : ℕ) (kind : JoinType) (s : List Item)
      → length s ≤ fuel
      → Takes 0 (join_predicate f fuel kind) s
  unfolding join_predicate
  join_predicate_lem fuel JoinType.cross s h = pure_lem _ s
  join_predicate_lem fuel JoinType.inner s h = on_lem fuel (condition f JoinType.inner) s h
  join_predicate_lem fuel JoinType.left s h = on_lem fuel (condition f JoinType.left) s h
  join_predicate_lem fuel JoinType.right s h = on_lem fuel (condition f JoinType.right) s h

  join_one_lem :
      (fuel : ℕ) (item : FromItem) (loop : FromItem → Parser FromItem) (o : Option JoinType)
      (s : List Item)
      → length s ≤ fuel
      → ((i : FromItem) (r : List Item) → length r < length s → Takes 0 (loop i) r)
      → Takes 0 (join_one f fuel item loop o) s
  unfolding join_one
  join_one_lem fuel item loop none s h k = pure_lem item s
  join_one_lem fuel item loop (some kind) s h k = weaken (
      step 1 (parse_from_table_clause_lem s) (λ t r l.
        step 0 (join_predicate_lem fuel kind r (omega arith)) (λ p v w. k _ v (omega arith))))

  join_loop_lem :
      (fuel : ℕ) (item : FromItem) (s : List Item)
      → length s < fuel
      → Takes 0 (join_loop f fuel item) s
  unfolding join_loop
  join_loop_lem zero item s h = absurd (omega arith)
  join_loop_lem (suc fuel) item s h = step 0 (parse_from_clause_join_lem s) (λ o r l.
      join_one_lem fuel item _ o r (omega arith) (λ i v w. join_loop_lem fuel i v (omega arith)))

  parse_from_clause_lem :
      (fuel : ℕ) (s : List Item) → length s ≤ fuel → Takes 0 (parse_from_clause f fuel) s
  unfolding parse_from_clause
  parse_from_clause_lem fuel s h = weaken (
      step 1 (next_expect_lem _ s) (λ u r l.
        weaken
          (step 1 (parse_from_table_clause_lem r) (λ t v w. join_loop_lem fuel t v (omega arith)))))

  pub parse_where_clause_lem :
      (fuel : ℕ) (s : List Item) → length s ≤ fuel → Takes 0 (parse_where_clause f fuel) s
  unfolding parse_where_clause
  parse_where_clause_lem fuel s h =
      behind_lem _ _ s (λ r l. weaken (parse_operation_expr_lem f fuel r (omega arith)))

  parse_group_clause_lem :
      (fuel : ℕ) (s : List Item) → length s ≤ fuel → Takes 0 (parse_group_clause f fuel) s
  unfolding parse_group_clause
  parse_group_clause_lem fuel s h = behind_lem _ _ s (λ r l. weaken (
      step 1 (next_expect_lem _ r) (λ u v w. weaken (parse_expression_lem f fuel v (omega arith)))))

  parse_having_clause_lem :
      (fuel : ℕ) (s : List Item) → length s ≤ fuel → Takes 0 (parse_having_clause f fuel) s
  unfolding parse_having_clause
  parse_having_clause_lem fuel s h =
      behind_lem _ _ s (λ r l. weaken (parse_operation_expr_lem f fuel r (omega arith)))

  order_list_lem : (fuel : ℕ) (s : List Item) → length s < fuel → Takes 0 (order_list f fuel) s
  unfolding order_list
  order_list_lem zero s h = absurd (omega arith)
  order_list_lem (suc fuel) s h = weaken (
      step 1 (next_ident_lem s) (λ n r l.
        step 0 (next_if_lem _ r)
          (λ o v w. more_behind_comma_lem _ _ v (λ p q. order_list_lem fuel p (omega arith)))))

  parse_order_clause_lem :
      (fuel : ℕ) (s : List Item) → length s ≤ fuel → Takes 0 (parse_order_clause f fuel) s
  unfolding parse_order_clause
  parse_order_clause_lem fuel s h =
      step 0
        (behind_lem _ _ s (λ r l.
          weaken (step 1 (next_expect_lem _ r) (λ u v w. order_list_lem fuel v (omega arith)))))
        (λ o r l. pure_lem _ r)

  pub parse_select_lem :
      (fuel : ℕ) (s : List Item) → length s ≤ fuel → Takes 0 (parse_select f fuel) s
  unfolding parse_select
  parse_select_lem fuel s h = weaken (
      step 1 (parse_select_clause_lem fuel s h) (λ a r l.
        step 0 (parse_from_clause_lem fuel r (omega arith)) (λ b r2 l2.
          step 0 (parse_where_clause_lem fuel r2 (omega arith)) (λ c r3 l3.
            step 0 (parse_group_clause_lem fuel r3 (omega arith)) (λ d r4 l4.
              step 0 (parse_having_clause_lem fuel r4 (omega arith)) (λ e r5 l5.
                step 0 (parse_order_clause_lem fuel r5 (omega arith)) (λ g r6 l6.
                  step 0
                    (behind_lem _ _ r6
                      (λ v w. weaken (parse_expression_lem f fuel v (omega arith))))
                    (λ i r7 l7.
                      step 0
                        (behind_lem _ _ r7
                          (λ v w. weaken (parse_expression_lem f fuel v (omega arith))))
                        (λ j r8 l8. pure_lem _ r8)))))))))
