-- ===== src/Sql/Parser/Grammar/Clauses.antt =====
-- The clauses of a SELECT (sql/parser/mod.rs), and what the other statements share with it.
use sqlprimer.Prelude.{ℕ, zero, suc, Bool, ◌||◌, Option, none, some, List, [], ◌∷◌, panic}
use sqlprimer.Bytes.{Bytes}
use sqlprimer.Storage.Mvcc.Monad.{pure, lift, ◌>>=◌, ◌>>◌}
use sqlprimer.Sql.Numbers.{Floats}
use sqlprimer.Sql.Expr.{Expression}
use sqlprimer.Sql.Statement.{OrderDirection, JoinType, FromItem, Statement}
use sqlprimer.Sql.Parser.Token.{Keyword, Token, same_token}
use sqlprimer.Sql.Parser.Grammar.{Parser, next_if, next_if_token, next_ident, next_expect, if_some}
use sqlprimer.Sql.Parser.Grammar.Expressions.{parse_expression, parse_operation_expr}

-- An optional part behind a keyword.
unfoldable pub behind : {A : Type 0} → Keyword → Parser A → Parser (Option A)
unfolding ◌>>=◌
behind keyword part = do
  found ← next_if_token (Token.keyword keyword)
  if_some found (do a ← part; pure (some a)) (pure none)

-- `if self.next_if_token(Token::Comma).is_none() { break; }`
unfoldable pub more_behind_comma : {A : Type 0} → A → Parser (List A) → Parser (List A)
unfolding ◌>>=◌
more_behind_comma a more = do
  comma ← next_if_token Token.comma
  if_some comma (do rest ← more; pure (a ∷ rest)) (pure (a ∷ []))

module _ (f : Floats) where
  -- The loop of `parse_select_clause`.
  unfoldable pub select_list : ℕ → Parser (List (Expression × Option Bytes))
  unfolding ◌>>=◌
  select_list zero = lift panic
  select_list (suc fuel) =
      let more = select_list fuel in
      parse_expression f fuel >>= λ expr.
      behind Keyword.as_ next_ident >>= λ alias. more_behind_comma (expr, alias) more

  unfoldable pub parse_select_clause : ℕ → Parser (List (Expression × Option Bytes))
  unfolding ◌>>=◌
  parse_select_clause fuel = do
    next_expect (Token.keyword Keyword.select)
    star ← next_if_token Token.asterisk
    if_some star (pure []) (select_list fuel)

  unfoldable pub parse_from_table_clause : Parser FromItem
  unfolding ◌>>=◌
  parse_from_table_clause = do name ← next_ident; pure (FromItem.table name)

  -- A keyword, then `JOIN`.
  abbrev pub joined_by : JoinType → Parser (Option JoinType)
  joined_by kind = next_expect (Token.keyword Keyword.join) >> pure (some kind)

  unfoldable pub parse_from_clause_join : Parser (Option JoinType)
  unfolding ◌>>=◌
  parse_from_clause_join = do
    cross ← next_if_token (Token.keyword Keyword.cross)
    if_some cross (joined_by JoinType.cross) (do
      inner ← next_if_token (Token.keyword Keyword.join)
      if_some inner (pure (some JoinType.inner)) (do
        left ← next_if_token (Token.keyword Keyword.left)
        if_some left (joined_by JoinType.left) (do
          right ← next_if_token (Token.keyword Keyword.right)
          if_some right (joined_by JoinType.right) (pure none))))

  -- The operands of a right join's condition are exchanged.
  abbrev pub condition : JoinType → Expression → Expression → Option Expression
  condition JoinType.right l r = some (Expression.equal r l)
  condition _ l r = some (Expression.equal l r)

  unfoldable pub join_predicate : ℕ → JoinType → Parser (Option Expression)
  unfolding ◌>>=◌
  join_predicate fuel JoinType.cross = pure none
  join_predicate fuel kind = do
    next_expect (Token.keyword Keyword.on)
    l ← parse_expression f fuel
    next_expect Token.equal
    r ← parse_expression f fuel
    pure (condition kind l r)

  -- One round of the loop of `parse_from_clause`.
  unfoldable pub join_one :
      ℕ → FromItem → (FromItem → Parser FromItem) → Option JoinType → Parser FromItem
  unfolding ◌>>=◌
  join_one fuel item loop none = pure item
  join_one fuel item loop (some kind) = parse_from_table_clause >>= λ right.
      join_predicate fuel kind >>= λ predicate. loop (FromItem.join item right kind predicate)

  -- The loop of `parse_from_clause`.
  unfoldable pub join_loop : ℕ → FromItem → Parser FromItem
  unfolding ◌>>=◌
  join_loop zero item = lift panic
  join_loop (suc fuel) item =
      let loop = λ (joined : FromItem). join_loop fuel joined in
      parse_from_clause_join >>= λ kind. join_one fuel item loop kind

  unfoldable pub parse_from_clause : ℕ → Parser FromItem
  unfolding ◌>>=◌
  parse_from_clause fuel = do
    next_expect (Token.keyword Keyword.from)
    item ← parse_from_table_clause
    join_loop fuel item

  unfoldable pub parse_where_clause : ℕ → Parser (Option Expression)
  parse_where_clause fuel = behind Keyword.where_ (parse_operation_expr f fuel)

  unfoldable pub parse_group_clause : ℕ → Parser (Option Expression)
  parse_group_clause fuel =
      behind Keyword.group (next_expect (Token.keyword Keyword.by) >> parse_expression f fuel)

  unfoldable pub parse_having_clause : ℕ → Parser (Option Expression)
  parse_having_clause fuel = behind Keyword.having (parse_operation_expr f fuel)

  abbrev pub is_direction : Token → Bool
  is_direction token =
      same_token token (Token.keyword Keyword.asc) || same_token token (Token.keyword Keyword.desc)

  abbrev pub direction_of : Option Token → OrderDirection
  direction_of (some (Token.keyword Keyword.desc)) = OrderDirection.desc
  direction_of _ = OrderDirection.asc

  -- The loop of `parse_order_clause`.
  unfoldable pub order_list : ℕ → Parser (List (Bytes × OrderDirection))
  unfolding ◌>>=◌
  order_list zero = lift panic
  order_list (suc fuel) =
      let more = order_list fuel in
      next_ident >>= λ col.
      next_if is_direction >>= λ found. more_behind_comma (col, direction_of found) more

  abbrev pub or_none : Option (List (Bytes × OrderDirection)) → List (Bytes × OrderDirection)
  or_none none = []
  or_none (some orders) = orders

  unfoldable pub parse_order_clause : ℕ → Parser (List (Bytes × OrderDirection))
  unfolding ◌>>=◌
  parse_order_clause fuel = do
    orders ← behind Keyword.order (next_expect (Token.keyword Keyword.by) >> order_list fuel)
    pure (or_none orders)

  unfoldable pub parse_select : ℕ → Parser Statement
  unfolding ◌>>=◌
  parse_select fuel = do
    select ← parse_select_clause fuel
    from_item ← parse_from_clause fuel
    where_clause ← parse_where_clause fuel
    group_by ← parse_group_clause fuel
    having ← parse_having_clause fuel
    order_by ← parse_order_clause fuel
    limit ← behind Keyword.limit (parse_expression f fuel)
    offset ← behind Keyword.offset (parse_expression f fuel)
    pure (
        Statement.select (record {
          select = select;
          from_item = from_item;
          where_clause = where_clause;
          group_by = group_by;
          having = having;
          order_by = order_by;
          limit = limit;
          offset = offset;
        }))
