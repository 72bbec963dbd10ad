-- ===== src/Sql/Parser/Arithmetic.antt =====
-- Sums of products of number literals, and their value with the usual precedence: what the
-- arithmetic of sql/parser/mod.rs is to compute.
pub mod Steps
pub mod Agree
use sqlprimer.Prelude.{ℕ, List, [], ◌∷◌, Outcome, ok, ◌>>=◌}
use sqlprimer.Bytes.{Bytes}
use sqlprimer.Sql.Numbers.{Floats}
use sqlprimer.Sql.Expr.{Expression}
use sqlprimer.Sql.Parser.Token.{Token, compute_expr}
use sqlprimer.Sql.Parser.Lexer.{Item}
use sqlprimer.Sql.Parser.Grammar.Expressions.{number_of}

-- The operators of the two levels.
pub data Times : Type 0 where
  times : Times
  over : Times

pub data Adds : Type 0 where
  and : Adds
  less : Adds

abbrev pub times_token : Times → Token
times_token Times.times = Token.asterisk
times_token Times.over = Token.slash

abbrev pub adds_token : Adds → Token
adds_token Adds.and = Token.plus
adds_token Adds.less = Token.minus

-- The operators and literals behind the first one of a product.
abbrev pub Factors : Type 0
Factors = List (Times × Bytes)

abbrev pub Product : Type 0
Product = Bytes × Factors

-- Their items, and what follows them.
unfoldable pub factor_items : Factors → List Item → List Item
factor_items [] s = s
factor_items ((op, n) ∷ fs) s =
    Item.token (times_token op) ∷ Item.token (Token.number n) ∷ factor_items fs s

unfoldable pub product_items : Product → List Item → List Item
product_items p s = Item.token (Token.number p.0) ∷ factor_items p.1 s

unfoldable pub sum_items : List (Adds × Product) → List Item → List Item
sum_items [] s = s
sum_items ((op, p) ∷ ps) s = Item.token (adds_token op) ∷ product_items p (sum_items ps s)

module _ (f : Floats) where
  -- Each level from the left to the right.
  unfoldable pub product_from : Expression → Factors → Outcome Expression
  product_from left [] = ok left
  product_from left ((op, n) ∷ fs) = number_of f n >>= λ right.
      compute_expr f (times_token op) left right >>= λ v. product_from v fs

  unfoldable pub product_value : Product → Outcome Expression
  product_value p = number_of f p.0 >>= λ left. product_from left p.1

  unfoldable pub sum_from : Expression → List (Adds × Product) → Outcome Expression
  sum_from left [] = ok left
  sum_from left ((op, p) ∷ ps) =
      product_value p >>= λ right. compute_expr f (adds_token op) left right >>= λ v. sum_from v ps

  unfoldable pub sum_value : Product → List (Adds × Product) → Outcome Expression
  sum_value p ps = product_value p >>= λ left. sum_from left ps
