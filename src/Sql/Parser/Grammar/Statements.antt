-- ===== src/Sql/Parser/Grammar/Statements.antt =====
-- The statements of sql/parser/mod.rs.
use sqlprimer.Prelude.{
  ℕ, zero, suc, true, false, Option, none, some, List, [], ◌∷◌, length, Outcome, ok, err, panic,
  parse,
}
use sqlprimer.Bytes.{Bytes}
use sqlprimer.OrderedMap.{Map, lookup, insert}
use sqlprimer.Storage.Mvcc.Monad.{pure, lift, ◌>>=◌, ◌>>◌}
use sqlprimer.Sql.Text.{Unicode}
use sqlprimer.Sql.Numbers.{Floats}
use sqlprimer.Sql.Expr.{Expression}
use sqlprimer.Sql.Statement.{ColumnDef, Statement}
use sqlprimer.Sql.Parser.Token.{Keyword, Token}
use sqlprimer.Sql.Parser.Lexer.{items}
use sqlprimer.Sql.Parser.Grammar.{
  Parser, peek, next, next_if_keyword, next_if_token, next_ident, next_datatype, next_expect,
  if_some,
}
use sqlprimer.Sql.Parser.Grammar.Expressions.{parse_expression}
use sqlprimer.Sql.Parser.Grammar.Clauses.{more_behind_comma, parse_select, parse_where_clause}

-- Up to the closing parenthesis, with a comma between two elements.
unfoldable pub more_in_parens : {A : Type 0} → A → Parser (List A) → Token → Parser (List A)
unfolding ◌>>=◌
more_in_parens a more Token.close_paren = pure (a ∷ [])
more_in_parens a more Token.comma = do rest ← more; pure (a ∷ rest)
more_in_parens a more _ = lift (err parse)

-- The loops over the columns and over the expressions of `parse_insert`.
unfoldable pub ident_list : ℕ → Parser (List Bytes)
unfolding ◌>>=◌
ident_list zero = lift panic
ident_list (suc fuel) =
    let more = ident_list fuel in
    next_ident >>= λ col. next >>= λ token. more_in_parens col more token

module _ (f : Floats) where
  unfoldable pub expression_list : ℕ → Parser (List Expression)
  unfolding ◌>>=◌
  expression_list zero = lift panic
  expression_list (suc fuel) =
      let more = expression_list fuel in
      parse_expression f fuel >>= λ expr. next >>= λ token. more_in_parens expr more token

  -- The loop over the rows of `parse_insert`.
  unfoldable pub row_list : ℕ → Parser (List (List Expression))
  unfolding ◌>>=◌
  row_list zero = lift panic
  row_list (suc fuel) =
      let more = row_list fuel in
      next_expect Token.open_paren >>= λ _.
      expression_list fuel >>= λ exprs. more_behind_comma exprs more

  unfoldable pub parse_insert : ℕ → Parser Statement
  unfolding ◌>>=◌
  parse_insert fuel = do
    next_expect (Token.keyword Keyword.insert)
    next_expect (Token.keyword Keyword.into)
    table_name ← next_ident
    paren ← next_if_token Token.open_paren
    columns ← if_some paren (do cols ← ident_list fuel; pure (some cols)) (pure none)
    next_expect (Token.keyword Keyword.values)
    values ← row_list fuel
    pure (Statement.insert table_name columns values)

  abbrev pub reject_again : Option Expression → Outcome (Unit {0})
  reject_again none = ok tt
  reject_again (some expr) = err parse

  -- The loop of `parse_update`.
  unfoldable pub assignments : ℕ → Map Expression → Parser (Map Expression)
  unfolding ◌>>=◌
  assignments zero columns = lift panic
  assignments (suc fuel) columns =
      let loop = λ (more : Map Expression). assignments fuel more in
      next_ident >>= λ col. lift (reject_again (lookup col columns)) >>= λ _.
      next_expect Token.equal >>= λ _. parse_expression f fuel >>= λ value.
      next_if_token Token.comma >>= λ comma.
      if_some comma (loop (insert col value columns)) (pure (insert col value columns))

  unfoldable pub parse_update : ℕ → Parser Statement
  unfolding ◌>>=◌
  parse_update fuel = do
    next_expect (Token.keyword Keyword.update)
    table_name ← next_ident
    next_expect (Token.keyword Keyword.set)
    columns ← assignments fuel []
    where_clause ← parse_where_clause f fuel
    pure (Statement.update table_name columns where_clause)

  unfoldable pub parse_delete : ℕ → Parser Statement
  unfolding ◌>>=◌
  parse_delete fuel = do
    next_expect (Token.keyword Keyword.delete)
    next_expect (Token.keyword Keyword.from)
    table_name ← next_ident
    where_clause ← parse_where_clause f fuel
    pure (Statement.delete table_name where_clause)

  abbrev pub transaction_of : Token → Outcome Statement
  transaction_of (Token.keyword Keyword.begin) = ok Statement.begin
  transaction_of (Token.keyword Keyword.commit) = ok Statement.commit
  transaction_of (Token.keyword Keyword.rollback) = ok Statement.rollback
  transaction_of _ = err parse

  unfoldable pub parse_transaction : Parser Statement
  unfolding ◌>>=◌
  parse_transaction = do token ← next; lift (transaction_of token)

  unfoldable pub parse_drop : Parser Statement
  unfolding ◌>>=◌
  parse_drop = do
    next_expect (Token.keyword Keyword.drop)
    next_expect (Token.keyword Keyword.table)
    table_name ← next_ident
    pure (Statement.drop_table table_name)

  -- One option of a column.
  unfoldable pub column_option : ℕ → ColumnDef → Token → Parser ColumnDef
  unfolding ◌>>=◌
  column_option fuel c (Token.keyword Keyword.null) = pure (record c { nullable = some true })
  column_option fuel c (Token.keyword Keyword.not) = do
    next_expect (Token.keyword Keyword.null)
    pure (record c { nullable = some false })
  column_option fuel c (Token.keyword Keyword.default) = do
    expr ← parse_expression f fuel
    pure (record c { default = some expr })
  column_option fuel c (Token.keyword Keyword.primary) = do
    next_expect (Token.keyword Keyword.key)
    pure (record c { primary_key = true })
  column_option fuel c (Token.keyword Keyword.index) = pure (record c { index = true })
  column_option fuel c _ = lift (err parse)

  -- One round of the loop of `parse_ddl_column`.
  unfoldable pub with_option :
      ℕ → ColumnDef → (ColumnDef → Parser ColumnDef) → Option Token → Parser ColumnDef
  unfolding ◌>>=◌
  with_option fuel c loop none = pure c
  with_option fuel c loop (some token) = column_option fuel c token >>= loop

  -- The loop of `parse_ddl_column`.
  unfoldable pub column_options : ℕ → ColumnDef → Parser ColumnDef
  unfolding ◌>>=◌
  column_options zero c = lift panic
  column_options (suc fuel) c =
      let loop = λ (d : ColumnDef). column_options fuel d in
      next_if_keyword >>= λ found. with_option fuel c loop found

  unfoldable pub parse_ddl_column : ℕ → Parser ColumnDef
  unfolding ◌>>=◌
  parse_ddl_column fuel = do
    name ← next_ident
    column_type ← next_datatype
    column_options fuel (record {
      name = name;
      column_type = column_type;
      nullable = none;
      default = none;
      primary_key = false;
      index = false;
    })

  -- The loop of `parse_ddl_create_table`.
  unfoldable pub column_list : ℕ → Parser (List ColumnDef)
  unfolding ◌>>=◌
  column_list zero = lift panic
  column_list (suc fuel) =
      let more = column_list fuel in
      parse_ddl_column fuel >>= λ column. more_behind_comma column more

  unfoldable pub parse_ddl_create_table : ℕ → Parser Statement
  unfolding ◌>>=◌
  parse_ddl_create_table fuel = do
    table_name ← next_ident
    next_expect Token.open_paren
    columns ← column_list fuel
    next_expect Token.close_paren
    pure (Statement.create_table table_name columns)

  unfoldable pub parse_ddl : ℕ → Parser Statement
  unfolding ◌>>=◌
  parse_ddl fuel = do
    next_expect (Token.keyword Keyword.create)
    next_expect (Token.keyword Keyword.table)
    parse_ddl_create_table fuel

  -- `parse_explain`, where `inner` parses the statement.
  unfoldable pub parse_explain : Parser Statement → Parser Statement
  unfolding ◌>>=◌
  parse_explain inner = do
    next_expect (Token.keyword Keyword.explain)
    again ← next_if_token (Token.keyword Keyword.explain)
    if_some again (lift (err parse)) (do stmt ← inner; pure (Statement.explain stmt))

  -- The match of `parse_statement`.
  unfoldable pub statement_of : ℕ → Parser Statement → Option Token → Parser Statement
  statement_of fuel inner (some (Token.keyword Keyword.create)) = parse_ddl fuel
  statement_of fuel inner (some (Token.keyword Keyword.select)) = parse_select f fuel
  statement_of fuel inner (some (Token.keyword Keyword.insert)) = parse_insert fuel
  statement_of fuel inner (some (Token.keyword Keyword.update)) = parse_update fuel
  statement_of fuel inner (some (Token.keyword Keyword.delete)) = parse_delete fuel
  statement_of fuel inner (some (Token.keyword Keyword.begin)) = parse_transaction
  statement_of fuel inner (some (Token.keyword Keyword.commit)) = parse_transaction
  statement_of fuel inner (some (Token.keyword Keyword.rollback)) = parse_transaction
  statement_of fuel inner (some (Token.keyword Keyword.explain)) = parse_explain inner
  statement_of fuel inner (some (Token.keyword Keyword.drop)) = parse_drop
  statement_of fuel inner _ = lift (err parse)

  unfoldable pub parse_statement : ℕ → Parser Statement
  unfolding ◌>>=◌
  parse_statement zero = lift panic
  parse_statement (suc fuel) =
      let inner = parse_statement fuel in peek >>= λ token. statement_of fuel inner token

  abbrev pub reject_rest : Option Token → Outcome (Unit {0})
  reject_rest none = ok tt
  reject_rest (some token) = err parse

  unfoldable pub parse_items : ℕ → Parser Statement
  unfolding ◌>>=◌
  parse_items fuel = do
    stmt ← parse_statement fuel
    next_expect Token.semicolon
    rest ← peek
    lift (reject_rest rest)
    pure stmt

  -- `parse`: a fuel of one more than there are items.
  unfoldable pub parse_text : Unicode → List ℕ → Outcome Statement
  parse_text u text = elim (items u text) [
    | none ↦ panic
    | some l ↦ (parse_items (suc (length l)) l).0
  ]
