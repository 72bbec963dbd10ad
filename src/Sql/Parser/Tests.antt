-- ===== src/Sql/Parser/Tests.antt =====
-- The lexer and the parser on concrete texts.
use sqlprimer.Prelude.{
  refl, true, ◌+◌, ◌-◌, ◌*◌, arith, ℕ, ◌≡◌, ◌⊎◌, false, some, List, [], ◌∷◌, Outcome, Error, ok,
  err,
}
use sqlprimer.Sql.Text.{Unicode}
use sqlprimer.Sql.Statement.{Statement}
use sqlprimer.Sql.Tests.{plain_floats}
use sqlprimer.Sql.Parser.Lexer.{Item, items}
use sqlprimer.Sql.Parser.Lexer.Ends.{items-some}
use sqlprimer.Sql.Numbers.{pos, negsuc, Floats}
use sqlprimer.Sql.Expr.{Expression, Consts}
use sqlprimer.Sql.Parser.Token.{Token}
use sqlprimer.Sql.Parser.Token.{is_operator, compute, compute_expr}
use sqlprimer.Sql.Parser.Grammar.Expressions.{
  number_of, all_digits, parse_i64, decimal_from, compute_math_operator,
}
use sqlprimer.Sql.Parser.Arithmetic.{
  Times, Adds, Product, product_items, factor_items, sum_items, product_from, product_value,
  sum_from, sum_value,
}
use sqlprimer.Sql.Parser.Arithmetic.Agree.{compute_math_operator-sum_value}
use sqlprimer.Sql.Parser.Grammar.Statements.{parse_text}
use sqlprimer.Sql.Parser.Total.Text.{parse_text-result}

abbrev ascii_only : Unicode
ascii_only = record {
  whitespace = λ c. false;
  alphabetic = λ c. false;
  numeric = λ c. false;
  upper = λ s. s;
  lower = λ s. s;
}

-- drop table b;
abbrev drop_text : List ℕ
drop_text = 100 ∷ 114 ∷ 111 ∷ 112 ∷ 32 ∷ 116 ∷ 97 ∷ 98 ∷ 108 ∷ 101 ∷ 32 ∷ 98 ∷ 59 ∷ []

-- insert into b values (1, 'A');
abbrev insert_text : List ℕ
insert_text =
    105 ∷ 110 ∷ 115 ∷ 101 ∷ 114 ∷ 116 ∷ 32 ∷ 105 ∷ 110 ∷ 116 ∷ 111 ∷ 32 ∷ 98 ∷ 32 ∷ 118 ∷ 97 ∷ 108
    ∷ 117 ∷ 101 ∷ 115 ∷ 32 ∷ 40 ∷ 49 ∷ 44 ∷ 32 ∷ 39 ∷ 65 ∷ 39 ∷ 41 ∷ 59 ∷ []

abbrev dropped : Outcome Statement
dropped = parse_text plain_floats ascii_only drop_text

abbrev inserted : Outcome Statement
inserted = parse_text plain_floats ascii_only insert_text

items-some_example : (l : List Item) × (items ascii_only drop_text ≡ some l)
items-some_example = items-some ascii_only drop_text

parse_text-result_example :
    ((stmt : Statement) × (parse_text plain_floats ascii_only drop_text ≡ ok stmt))
    ⊎ ((e : Error) × (parse_text plain_floats ascii_only drop_text ≡ err e))
parse_text-result_example = parse_text-result plain_floats ascii_only drop_text

-- Naturals in place of floats.
abbrev counting : Floats
counting = record {
  of_int = λ i. elim i [ pos n ↦ n | negsuc n ↦ 0 ];
  of_text = λ s. 0;
  add = λ x y. x + y;
  sub = λ x y. x - y;
  mul = λ x y. x * y;
  div = λ x y. x;
  is_whole = λ x. true;
  to_int = λ x. pos x;
}

-- 9 - 1 - 2 * 3.
abbrev first_product : Product
first_product = ((57 ∷ []), [])

abbrev more_products : List (Adds × Product)
more_products =
    (Adds.less, ((49 ∷ []), [])) ∷ (Adds.less, ((50 ∷ []), (Times.times, (51 ∷ [])) ∷ [])) ∷ []

computed : sum_value counting first_product more_products ≡ ok (Expression.consts (Consts.float 2))
unfolding sum_value product_value product_from sum_from number_of compute_expr compute all_digits
    parse_i64 decimal_from
computed = refl

compute_math_operator-sum_value_example :
    compute_math_operator counting 9 1
      (product_items first_product (sum_items more_products (Item.token Token.semicolon ∷ [])))
    ≡ (ok (Expression.consts (Consts.float 2)), Item.token Token.semicolon ∷ [])
unfolding is_operator product_items sum_items factor_items
compute_math_operator-sum_value_example =
    compute_math_operator-sum_value counting 9 first_product more_products _ Token.semicolon [] refl
      (omega arith) computed
