-- ===== src/Sql/Parser/Total/Statements.antt =====
-- The fuel of the parser of the statements in sql/parser/mod.rs.
use sqlprimer.Prelude.{
  ℕ, zero, suc, ◌≤◌, ◌<◌, ◌≢◌, Option, none, some, List, length, arith, panic, parse,
}
use sqlprimer.OrderedMap.{Map, lookup}
use sqlprimer.Sql.Numbers.{Floats}
use sqlprimer.Sql.Expr.{Expression}
use sqlprimer.Sql.Statement.{ColumnDef, Statement}
use sqlprimer.Sql.Parser.Token.{Keyword, Token}
use sqlprimer.Sql.Parser.Lexer.{Item}
use sqlprimer.Sql.Parser.Grammar.{Parser, next_if_keyword}
use sqlprimer.Sql.Parser.Total.{
  Takes, step, weaken, peek_lem, next_lem, next_if_step, next_if_token_lem, next_ident_lem,
  next_datatype_lem, next_expect_lem, lift_lem, pure_lem, err_lem, if_some_lem,
}
use sqlprimer.Sql.Parser.Total.Expressions.{parse_expression_lem}
use sqlprimer.Sql.Parser.Total.Clauses.{
  more_behind_comma_lem, parse_where_clause_lem, parse_select_lem,
}
use sqlprimer.Sql.Parser.Grammar.Statements.{
  more_in_parens, ident_list, expression_list, row_list, parse_insert, reject_again, assignments,
  parse_update, parse_delete, transaction_of, parse_transaction, parse_drop, column_option,
  with_option, column_options, parse_ddl_column, column_list, parse_ddl_create_table, parse_ddl,
  parse_explain, statement_of, parse_statement, reject_rest, parse_items,
}

more_in_parens_lem :
    {A : Type 0} (a : A) (more : Parser (List A)) (t : Token) (s : List Item)
    → Takes 0 more s
    → Takes 0 (more_in_parens a more t) s
unfolding more_in_parens
more_in_parens_lem a more Token.close_paren s h = pure_lem _ s
more_in_parens_lem a more Token.comma s h = step 0 h (λ b r l. pure_lem _ r)
more_in_parens_lem a more _ s h = err_lem 0 parse s

ident_list_lem : (fuel : ℕ) (s : List Item) → length s < fuel → Takes 0 (ident_list fuel) s
unfolding ident_list
ident_list_lem zero s h = absurd (omega arith)
ident_list_lem (suc fuel) s h = weaken (
    step 1 (next_ident_lem s) (λ c r l. weaken (
      step 1 (next_lem r)
        (λ t v w. more_in_parens_lem c _ t v (ident_list_lem fuel v (omega arith))))))

transaction_of_ok : (f : Floats) (t : Token) → transaction_of f t ≢ panic
transaction_of_ok f (Token.keyword Keyword.begin) e = cc
transaction_of_ok f (Token.keyword Keyword.commit) e = cc
transaction_of_ok f (Token.keyword Keyword.rollback) e = cc
transaction_of_ok f _ e = cc

module _ (f : Floats) where
  expression_list_lem :
      (fuel : ℕ) (s : List Item) → length s < fuel → Takes 0 (expression_list f fuel) s
  unfolding expression_list
  expression_list_lem zero s h = absurd (omega arith)
  expression_list_lem (suc fuel) s h = weaken (
      step 1 (parse_expression_lem f fuel s (omega arith)) (λ c r l. weaken (
        step 1 (next_lem r)
          (λ t v w. more_in_parens_lem c _ t v (expression_list_lem fuel v (omega arith))))))

  row_list_lem : (fuel : ℕ) (s : List Item) → length s < fuel → Takes 0 (row_list f fuel) s
  unfolding row_list
  row_list_lem zero s h = absurd (omega arith)
  row_list_lem (suc fuel) s h = weaken (
      step 1 (next_expect_lem _ s) (λ u r l.
        step 0 (expression_list_lem fuel r (omega arith))
          (λ e v w. more_behind_comma_lem _ _ v (λ p q. row_list_lem fuel p (omega arith)))))

  parse_insert_lem : (fuel : ℕ) (s : List Item) → length s ≤ fuel → Takes 0 (parse_insert f fuel) s
  unfolding parse_insert
  parse_insert_lem fuel s h = weaken (
      step 1 (next_expect_lem _ s) (λ u r l. weaken (
        step 1 (next_expect_lem _ r) (λ u2 r2 l2. weaken (
          step 1 (next_ident_lem r2) (λ n r3 l3. step 0 (next_if_token_lem _ r3) (λ o r4 l4.
            step 0
              (if_some_lem o _ _ r4
                (step 0 (ident_list_lem fuel r4 (omega arith)) (λ c v w. pure_lem _ v))
                (pure_lem _ r4))
              (λ c r5 l5. weaken (
                step 1 (next_expect_lem _ r5) (λ u6 r6 l6.
                  step 0 (row_list_lem fuel r6 (omega arith)) (λ e r7 l7. pure_lem _ r7)))))))))))

  reject_again_ok : (o : Option Expression) → reject_again f o ≢ panic
  reject_again_ok none e = cc
  reject_again_ok (some x) e = cc

  assignments_lem :
      (fuel : ℕ) (columns : Map Expression) (s : List Item)
      → length s < fuel
      → Takes 0 (assignments f fuel columns) s
  unfolding assignments
  assignments_lem zero columns s h = absurd (omega arith)
  assignments_lem (suc fuel) columns s h = weaken (
      step 1 (next_ident_lem s) (λ n r l.
        step 0 (lift_lem _ r (reject_again_ok (lookup n columns))) (λ u2 r2 l2. weaken (
          step 1 (next_expect_lem _ r2) (λ u3 r3 l3. weaken (
            step 1 (parse_expression_lem f fuel r3 (omega arith)) (λ e r4 l4.
              step 0 (next_if_token_lem _ r4) (λ o r5 l5.
                if_some_lem o _ _ r5 (assignments_lem fuel _ r5 (omega arith))
                  (pure_lem _ r5)))))))))

  parse_update_lem : (fuel : ℕ) (s : List Item) → length s ≤ fuel → Takes 0 (parse_update f fuel) s
  unfolding parse_update
  parse_update_lem fuel s h = weaken (
      step 1 (next_expect_lem _ s) (λ u r l. weaken (
        step 1 (next_ident_lem r) (λ n r2 l2. weaken (
          step 1 (next_expect_lem _ r2) (λ u3 r3 l3.
            step 0 (assignments_lem fuel _ r3 (omega arith)) (λ c r4 l4.
              step 0 (parse_where_clause_lem f fuel r4 (omega arith))
                (λ e r5 l5. pure_lem _ r5))))))))

  parse_delete_lem : (fuel : ℕ) (s : List Item) → length s ≤ fuel → Takes 0 (parse_delete f fuel) s
  unfolding parse_delete
  parse_delete_lem fuel s h = weaken (
      step 1 (next_expect_lem _ s) (λ u r l. weaken (
        step 1 (next_expect_lem _ r) (λ u2 r2 l2. weaken (
          step 1 (next_ident_lem r2) (λ n r3 l3.
            step 0 (parse_where_clause_lem f fuel r3 (omega arith)) (λ e r4 l4. pure_lem _ r4)))))))

  parse_transaction_lem : (s : List Item) → Takes 0 (parse_transaction f) s
  unfolding parse_transaction
  parse_transaction_lem s =
      weaken (step 1 (next_lem s) (λ t r l. lift_lem _ r (transaction_of_ok f t)))

  parse_drop_lem : (s : List Item) → Takes 0 (parse_drop f) s
  unfolding parse_drop
  parse_drop_lem s = weaken (
      step 1 (next_expect_lem _ s) (λ u r l. weaken (
        step 1 (next_expect_lem _ r)
          (λ u2 r2 l2. weaken (step 1 (next_ident_lem r2) (λ n r3 l3. pure_lem _ r3))))))

  column_option_lem :
      (fuel : ℕ) (c : ColumnDef) (t : Token) (s : List Item)
      → length s ≤ fuel
      → Takes 0 (column_option f fuel c t) s
  unfolding column_option
  column_option_lem fuel c (Token.keyword Keyword.null) s h = pure_lem _ s
  column_option_lem fuel c (Token.keyword Keyword.not) s h =
      weaken (step 1 (next_expect_lem _ s) (λ u r l. pure_lem _ r))
  column_option_lem fuel c (Token.keyword Keyword.default) s h =
      weaken (step 1 (parse_expression_lem f fuel s h) (λ u r l. pure_lem _ r))
  column_option_lem fuel c (Token.keyword Keyword.primary) s h =
      weaken (step 1 (next_expect_lem _ s) (λ u r l. pure_lem _ r))
  column_option_lem fuel c (Token.keyword Keyword.index) s h = pure_lem _ s
  column_option_lem fuel c _ s h = err_lem 0 parse s

  column_options_lem :
      (fuel : ℕ) (c : ColumnDef) (s : List Item)
      → length s < fuel
      → Takes 0 (column_options f fuel c) s
  unfolding column_options with_option next_if_keyword
  column_options_lem zero c s h = absurd (omega arith)
  column_options_lem (suc fuel) c s h =
      next_if_step _ _ s
        (λ t r l.
          step 0 (column_option_lem fuel c t r (omega arith))
            (λ d v w. column_options_lem fuel d v (omega arith)))
        (pure_lem c s)

  parse_ddl_column_lem :
      (fuel : ℕ) (s : List Item) → length s ≤ fuel → Takes 1 (parse_ddl_column f fuel) s
  unfolding parse_ddl_column
  parse_ddl_column_lem fuel s h = step 1 (next_ident_lem s) (λ n r l.
      weaken (step 1 (next_datatype_lem r) (λ d r2 l2. column_options_lem fuel _ r2 (omega arith))))

  column_list_lem : (fuel : ℕ) (s : List Item) → length s < fuel → Takes 0 (column_list f fuel) s
  unfolding column_list
  column_list_lem zero s h = absurd (omega arith)
  column_list_lem (suc fuel) s h = weaken (
      step 1 (parse_ddl_column_lem fuel s (omega arith))
        (λ c r l. more_behind_comma_lem _ _ r (λ p q. column_list_lem fuel p (omega arith))))

  parse_ddl_create_table_lem :
      (fuel : ℕ) (s : List Item) → length s ≤ fuel → Takes 0 (parse_ddl_create_table f fuel) s
  unfolding parse_ddl_create_table
  parse_ddl_create_table_lem fuel s h = weaken (
      step 1 (next_ident_lem s) (λ n r l. weaken (
        step 1 (next_expect_lem _ r) (λ u r2 l2.
          step 0 (column_list_lem fuel r2 (omega arith))
            (λ c r3 l3. weaken (step 1 (next_expect_lem _ r3) (λ u4 r4 l4. pure_lem _ r4)))))))

  parse_ddl_lem : (fuel : ℕ) (s : List Item) → length s ≤ fuel → Takes 0 (parse_ddl f fuel) s
  unfolding parse_ddl
  parse_ddl_lem fuel s h = weaken (
      step 1 (next_expect_lem _ s) (λ u r l. weaken (
        step 1 (next_expect_lem _ r)
          (λ u2 r2 l2. parse_ddl_create_table_lem fuel r2 (omega arith)))))

  parse_explain_lem :
      (inner : Parser Statement) (s : List Item)
      → ((r : List Item) → length r < length s → Takes 0 inner r)
      → Takes 0 (parse_explain f inner) s
  unfolding parse_explain
  parse_explain_lem inner s k = weaken (
      step 1 (next_expect_lem _ s) (λ u r l. step 0 (next_if_token_lem _ r) (λ o r2 l2.
        if_some_lem o _ _ r2 (err_lem 0 parse r2)
          (step 0 (k r2 (omega arith)) (λ a r3 l3. pure_lem _ r3)))))

  statement_of_lem :
      (fuel : ℕ) (inner : Parser Statement) (o : Option Token) (s : List Item)
      → length s ≤ fuel
      → ((r : List Item) → length r < length s → Takes 0 inner r)
      → Takes 0 (statement_of f fuel inner o) s
  unfolding statement_of
  statement_of_lem fuel inner (some (Token.keyword Keyword.create)) s h k = parse_ddl_lem fuel s h
  statement_of_lem fuel inner (some (Token.keyword Keyword.select)) s h k =
      parse_select_lem f fuel s h
  statement_of_lem fuel inner (some (Token.keyword Keyword.insert)) s h k =
      parse_insert_lem fuel s h
  statement_of_lem fuel inner (some (Token.keyword Keyword.update)) s h k =
      parse_update_lem fuel s h
  statement_of_lem fuel inner (some (Token.keyword Keyword.delete)) s h k =
      parse_delete_lem fuel s h
  statement_of_lem fuel inner (some (Token.keyword Keyword.begin)) s h k = parse_transaction_lem s
  statement_of_lem fuel inner (some (Token.keyword Keyword.commit)) s h k = parse_transaction_lem s
  statement_of_lem fuel inner (some (Token.keyword Keyword.rollback)) s h k =
      parse_transaction_lem s
  statement_of_lem fuel inner (some (Token.keyword Keyword.explain)) s h k =
      parse_explain_lem inner s k
  statement_of_lem fuel inner (some (Token.keyword Keyword.drop)) s h k = parse_drop_lem s
  statement_of_lem fuel inner _ s h k = err_lem 0 parse s

  parse_statement_lem :
      (fuel : ℕ) (s : List Item) → length s < fuel → Takes 0 (parse_statement f fuel) s
  unfolding parse_statement
  parse_statement_lem zero s h = absurd (omega arith)
  parse_statement_lem (suc fuel) s h = step 0 (peek_lem s) (λ o r l.
      statement_of_lem fuel _ o r (omega arith) (λ v w. parse_statement_lem fuel v (omega arith)))

  reject_rest_ok : (o : Option Token) → reject_rest f o ≢ panic
  reject_rest_ok none e = cc
  reject_rest_ok (some t) e = cc

  pub parse_items_lem :
      (fuel : ℕ) (s : List Item) → length s < fuel → Takes 0 (parse_items f fuel) s
  unfolding parse_items
  parse_items_lem fuel s h = step 0 (parse_statement_lem fuel s h) (λ a r l. weaken (
      step 1 (next_expect_lem _ r) (λ u r2 l2.
        step 0 (peek_lem r2)
          (λ o r3 l3. step 0 (lift_lem _ r3 (reject_rest_ok o)) (λ u4 r4 l4. pure_lem a r4)))))
