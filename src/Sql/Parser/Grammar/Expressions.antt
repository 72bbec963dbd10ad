-- ===== src/Sql/Parser/Grammar/Expressions.antt =====
-- Expressions of sql/parser/mod.rs.
use sqlprimer.Prelude.{
  ℕ, zero, suc, ◌+◌, ◌*◌, ◌-◌, ◌^◌, Bool, true, false, not, ◌&&◌, Option, none, some, [], ◌∷◌,
  Outcome, ok, err, panic, parse, internal, if◌then◌else◌, ltb,
}
use sqlprimer.Bytes.{Bytes}
use sqlprimer.Storage.Mvcc.Monad.{pure, lift, ◌>>=◌, ◌>>◌}
use sqlprimer.Sql.Text.{is_ascii_digit}
use sqlprimer.Sql.Numbers.{pos, Floats}
use sqlprimer.Sql.Expr.{Expression, Consts}
use sqlprimer.Sql.Parser.Token.{Keyword, Token, is_operator, precedence, compute_expr}
use sqlprimer.Sql.Parser.Grammar.{
  Parser, peek, next, next_if_token, next_ident, next_expect, if_some,
}

-- `chars().all(|c| c.is_ascii_digit())`
unfoldable pub all_digits : Bytes → Bool
all_digits [] = true
all_digits (b ∷ bs) = let rest = all_digits bs in if is_ascii_digit b then rest else false

unfoldable pub decimal_from : ℕ → Bytes → ℕ
decimal_from n [] = n
decimal_from n (b ∷ bs) = decimal_from (n * 10 + (b - 48)) bs

-- `parse::<i64>` of digits: an error where the number is too large.
unfoldable pub parse_i64 : Bytes → Outcome Consts
parse_i64 digits =
    let n = decimal_from 0 digits in
    if ltb n (2 ^ 63) then ok (Consts.integer (pos n)) else err parse

abbrev pub constant : Outcome Consts → Outcome Expression
constant (ok c) = ok (Expression.consts c)
constant (err e) = err e
constant panic = panic

module _ (f : Floats) where
  unfoldable pub number_of : Bytes → Outcome Expression
  number_of digits =
      if all_digits digits
      then constant (parse_i64 digits)
      else ok (Expression.consts (Consts.float (f.of_text digits)))

  -- A function, or a column.
  unfoldable pub function_or_field : Bytes → Parser Expression
  unfolding ◌>>=◌
  function_or_field ident = do
    paren ← next_if_token Token.open_paren
    if_some paren
        (do
          col_name ← next_ident
          next_expect Token.close_paren
          pure (Expression.function ident col_name))
        (pure (Expression.field ident))

  -- The match of `parse_expression`, where `math` parses what stands in parentheses.
  unfoldable pub expression_of : Parser Expression → Token → Parser Expression
  unfolding ◌>>=◌
  expression_of math (Token.ident ident) = function_or_field ident
  expression_of math Token.open_paren = do expr ← math; next_expect Token.close_paren; pure expr
  expression_of math (Token.number n) = lift (number_of n)
  expression_of math (Token.string s) = pure (Expression.consts (Consts.string s))
  expression_of math (Token.keyword Keyword.true_) = pure (Expression.consts (Consts.boolean true))
  expression_of math (Token.keyword Keyword.false_) =
      pure (Expression.consts (Consts.boolean false))
  expression_of math (Token.keyword Keyword.null) = pure (Expression.consts Consts.null)
  expression_of math _ = lift (err parse)

  -- Whether the loop of `compute_math_operator` goes on with a token.
  abbrev pub goes_on : ℕ → Option Token → Option Token
  goes_on min_prec none = none
  goes_on min_prec (some token) =
      if is_operator token && not (ltb (precedence token) min_prec) then some token else none

  -- The rest of a round of the loop.
  unfoldable pub compute_step :
      Expression
      → (Expression → Parser Expression)
      → (Token → Parser Expression)
      → Option Token
      → Parser Expression
  unfolding ◌>>=◌
  compute_step left loop operand none = pure left
  compute_step left loop operand (some token) =
      next >>= λ _. operand token >>= λ right. lift (compute_expr f token left right) >>= loop

  -- `compute_math_operator`, and its loop with what stands to the left.
  unfoldable pub compute_math : ℕ → ℕ → Option Expression → Parser Expression
  unfolding ◌>>=◌
  compute_math zero min_prec left = lift panic
  compute_math (suc fuel) min_prec none =
      let math = compute_math fuel 1 none in
      let loop = λ (left : Expression). compute_math fuel min_prec (some left) in
      next >>= λ token. expression_of math token >>= loop
  compute_math (suc fuel) min_prec (some left) =
      let operand = λ (token : Token). compute_math fuel (precedence token + 1) none in
      let loop = λ (value : Expression). compute_math fuel min_prec (some value) in
      peek >>= λ found. compute_step left loop operand (goes_on min_prec found)

  unfoldable pub compute_math_operator : ℕ → ℕ → Parser Expression
  compute_math_operator fuel min_prec = compute_math fuel min_prec none

  unfoldable pub parse_expression : ℕ → Parser Expression
  unfolding ◌>>=◌
  parse_expression fuel = do token ← next; expression_of (compute_math_operator fuel 1) token

  abbrev pub comparison : Token → Outcome (Expression → Expression → Expression)
  comparison Token.equal = ok Expression.equal
  comparison Token.greater_than = ok Expression.greater_than
  comparison Token.less_than = ok Expression.less_than
  comparison _ = err internal

  unfoldable pub parse_operation_expr : ℕ → Parser Expression
  unfolding ◌>>=◌
  parse_operation_expr fuel = do
    left ← parse_expression fuel
    token ← next
    make ← lift (comparison token)
    right ← compute_math_operator fuel 1
    pure (make left right)
