-- ===== src/Sql/Parser/Total/Expressions.antt =====
-- The fuel of the parser of expressions in sql/parser/mod.rs.
use sqlprimer.Prelude.{
  ℕ, zero, suc, ◌≤◌, ◌<◌, ◌≢◌, refl, Bool, true, false, Option, none, some, List, length, arith,
  Outcome, ok, err, panic, parse, ◌>>=◌, if◌then◌else◌,
}
use sqlprimer.Bytes.{Bytes}
use sqlprimer.Sql.Numbers.{Floats}
use sqlprimer.Sql.Expr.{Expression, Consts}
use sqlprimer.Sql.Parser.Token.{Keyword, Token, compute, as_float, compute_expr}
use sqlprimer.Sql.Parser.Lexer.{Item}
use sqlprimer.Sql.Parser.Grammar.{Parser}
use sqlprimer.Sql.Parser.Grammar.Expressions.{
  constant, parse_i64, number_of, function_or_field, expression_of, compute_step, compute_math,
  compute_math_operator, parse_expression, comparison, parse_operation_expr, goes_on, all_digits,
}
use sqlprimer.Sql.Parser.Total.{
  Takes, step, weaken, peek_lem, next_lem, next_if_token_lem, next_ident_lem, next_expect_lem,
  lift_lem, pure_lem, err_lem, if_some_lem,
}

-- A chain of outcomes that are no panics.
>>=_ok :
    {A B : Type 0} (o : Outcome A) (g : A → Outcome B)
    → o ≢ panic
    → ((a : A) → g a ≢ panic)
    → (o >>= g) ≢ panic
>>=_ok (ok a) g h k q = k a q
>>=_ok (err e) g h k q = cc
>>=_ok panic g h k q = h refl

parse_i64_ok : (digits : Bytes) → parse_i64 digits ≢ panic
unfolding parse_i64
parse_i64_ok digits e = ground arith

constant_ok : (o : Outcome Consts) → o ≢ panic → constant o ≢ panic
constant_ok (ok c) h q = cc
constant_ok (err e) h q = cc
constant_ok panic h q = h refl

module _ (f : Floats) where
  number_of_ok : (digits : Bytes) → number_of f digits ≢ panic
  unfolding number_of
  number_of_ok digits = go (all_digits digits)
    where
      go :
          (b : Bool)
          → (if b
              then constant (parse_i64 digits)
              else ok (Expression.consts (Consts.float (f.of_text digits))))
            ≢ panic
      go true q = constant_ok (parse_i64 digits) (parse_i64_ok digits) q
      go false q = cc

  as_float_ok : (e : Expression) → as_float f e ≢ panic
  as_float_ok (Expression.consts (Consts.integer n)) q = cc
  as_float_ok (Expression.consts (Consts.float x)) q = cc
  as_float_ok _ q = cc

  compute_ok : (t : Token) (l r : ℕ) → compute f t l r ≢ panic
  unfolding compute
  compute_ok Token.asterisk l r q = cc
  compute_ok Token.plus l r q = cc
  compute_ok Token.minus l r q = cc
  compute_ok Token.slash l r q = cc
  compute_ok _ l r q = cc

  compute_expr_ok : (t : Token) (l r : Expression) → compute_expr f t l r ≢ panic
  unfolding compute_expr
  compute_expr_ok t l r = >>=_ok (as_float f l) _ (as_float_ok l) (λ a.
      >>=_ok (as_float f r) _ (as_float_ok r)
        (λ b. >>=_ok (compute f t a b) _ (compute_ok t a b) (λ v q. cc)))

  function_or_field_lem : (ident : Bytes) (s : List Item) → Takes 0 (function_or_field f ident) s
  unfolding function_or_field
  function_or_field_lem ident s = step 0 (next_if_token_lem _ s) (λ o r l.
      if_some_lem o _ _ r
        (weaken (
          step 1 (next_ident_lem r)
            (λ c t k. weaken (step 1 (next_expect_lem _ t) (λ u v w. pure_lem _ v)))))
        (pure_lem _ r))

  expression_of_lem :
      (math : Parser Expression) (t : Token) (s : List Item)
      → Takes 0 math s
      → Takes 0 (expression_of f math t) s
  unfolding expression_of
  expression_of_lem math (Token.ident ident) s h = function_or_field_lem ident s
  expression_of_lem math Token.open_paren s h =
      step 0 h (λ e r l. weaken (step 1 (next_expect_lem _ r) (λ u v w. pure_lem e v)))
  expression_of_lem math (Token.number n) s h = lift_lem (number_of f n) s (number_of_ok n)
  expression_of_lem math (Token.string t) s h = pure_lem _ s
  expression_of_lem math (Token.keyword Keyword.true_) s h = pure_lem _ s
  expression_of_lem math (Token.keyword Keyword.false_) s h = pure_lem _ s
  expression_of_lem math (Token.keyword Keyword.null) s h = pure_lem _ s
  expression_of_lem math _ s h = err_lem 0 parse s

  compute_step_lem :
      (left : Expression) (loop : Expression → Parser Expression)
      (operand : Token → Parser Expression) (o : Option Token) (s : List Item)
      → ((t : Token) (r : List Item) → length r < length s → Takes 0 (operand t) r)
      → ((e : Expression) (r : List Item) → length r < length s → Takes 0 (loop e) r)
      → Takes 0 (compute_step f left loop operand o) s
  unfolding compute_step
  compute_step_lem left loop operand none s h k = pure_lem left s
  compute_step_lem left loop operand (some t) s h k = weaken (
      step 1 (next_lem s) (λ u r l. step 0 (h t r (omega arith)) (λ right v w.
        step 0 (lift_lem (compute_expr f t left right) v (compute_expr_ok t left right))
          (λ e q z. k e q (omega arith)))))

  -- With more fuel than items.
  compute_math_lem :
      (fuel min : ℕ) (left : Option Expression) (s : List Item)
      → length s < fuel
      → Takes 0 (compute_math f fuel min left) s
  unfolding compute_math
  compute_math_lem zero min left s h = absurd (omega arith)
  compute_math_lem (suc fuel) min none s h = weaken (
      step 1 (next_lem s) (λ t r l.
        step 0 (expression_of_lem _ t r (compute_math_lem fuel 1 none r (omega arith)))
          (λ e v w. compute_math_lem fuel min (some e) v (omega arith))))
  compute_math_lem (suc fuel) min (some left) s h = step 0 (peek_lem s) (λ o r l.
      compute_step_lem left _ _ (goes_on f min o) r
        (λ t v w. compute_math_lem fuel _ none v (omega arith))
        (λ e v w. compute_math_lem fuel min (some e) v (omega arith)))

  pub compute_math_operator_lem :
      (fuel min : ℕ) (s : List Item)
      → length s < fuel
      → Takes 0 (compute_math_operator f fuel min) s
  unfolding compute_math_operator
  compute_math_operator_lem fuel min s h = compute_math_lem fuel min none s h

  pub parse_expression_lem :
      (fuel : ℕ) (s : List Item) → length s ≤ fuel → Takes 1 (parse_expression f fuel) s
  unfolding parse_expression
  parse_expression_lem fuel s h =
      step 1 (next_lem s)
        (λ t r l. expression_of_lem _ t r (compute_math_operator_lem fuel 1 r (omega arith)))

  comparison_ok : (t : Token) → comparison f t ≢ panic
  comparison_ok Token.equal q = cc
  comparison_ok Token.greater_than q = cc
  comparison_ok Token.less_than q = cc
  comparison_ok _ q = cc

  pub parse_operation_expr_lem :
      (fuel : ℕ) (s : List Item) → length s ≤ fuel → Takes 1 (parse_operation_expr f fuel) s
  unfolding parse_operation_expr
  parse_operation_expr_lem fuel s h = step 1 (parse_expression_lem fuel s h) (λ left r l. weaken (
      step 1 (next_lem r) (λ t v w.
        step 0 (lift_lem (comparison f t) v (comparison_ok t)) (λ make p q.
          step 0 (compute_math_operator_lem fuel 1 p (omega arith)) (λ right y z. pure_lem _ y)))))
