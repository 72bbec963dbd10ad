-- ===== src/Sql/Parser/Arithmetic/Steps.antt =====
-- Single rounds of the loop of `compute_math_operator` (sql/parser/mod.rs).
use sqlprimer.Prelude.{ℕ, suc, ◌+◌, ◌≡◌, refl, none, some, List, ◌∷◌, ok}
use sqlprimer.Bytes.{Bytes}
use sqlprimer.Storage.Mvcc.Monad.{◌>>=◌}
use sqlprimer.Sql.Numbers.{Floats}
use sqlprimer.Sql.Expr.{Expression}
use sqlprimer.Sql.Parser.Token.{Token, is_operator, precedence, compute_expr}
use sqlprimer.Sql.Parser.Lexer.{Item}
use sqlprimer.Sql.Parser.Grammar.{peek, next}
use sqlprimer.Sql.Parser.Grammar.Expressions.{
  number_of, expression_of, goes_on, compute_step, compute_math,
}

module _ (f : Floats) where
  -- No operator binds as tightly as 3.
  pub goes_on-three : (t : Token) → goes_on f 3 (some t) ≡ none
  unfolding is_operator precedence
  goes_on-three Token.asterisk = refl
  goes_on-three Token.slash = refl
  goes_on-three Token.plus = refl
  goes_on-three Token.minus = refl
  goes_on-three _ = refl

  -- The loop ends at a token that does not go on.
  pub ends_at :
      (G min : ℕ) (left : Expression) (t : Token) (s : List Item)
      → goes_on f min (some t) ≡ none
      → compute_math f (suc G) min (some left) (Item.token t ∷ s) ≡ (ok left, Item.token t ∷ s)
  unfolding compute_math compute_step peek ◌>>=◌
  ends_at G min left t s h = rw h refl

  -- A literal, and the loop.
  pub literal_step :
      (G min : ℕ) (n : Bytes) (v : Expression) (s : List Item)
      → number_of f n ≡ ok v
      → compute_math f (suc G) min none (Item.token (Token.number n) ∷ s)
        ≡ compute_math f G min (some v) s
  unfolding compute_math next expression_of ◌>>=◌
  literal_step G min n v s e = rw e refl

  -- An operator that goes on, whose operand is known.
  pub operator_step :
      (G min : ℕ) (t : Token) (left right v : Expression) (s r : List Item)
      → goes_on f min (some t) ≡ some t
      → compute_math f G (precedence t + 1) none s ≡ (ok right, r)
      → compute_expr f t left right ≡ ok v
      → compute_math f (suc G) min (some left) (Item.token t ∷ s) ≡ compute_math f G min (some v) r
  unfolding compute_math compute_step peek next ◌>>=◌
  operator_step G min t left right v s r h e k = rw h (rw e (rw k refl))
