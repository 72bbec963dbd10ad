-- ===== src/Sql/Expr/Total.antt =====
-- When the evaluation of an expression panics, and when it fails.
use sqlprimer.Prelude.{
  ℕ, zero, suc, ◌<◌, ◌≤◌, ◌≡◌, ◌≢◌, refl, ap, sym, ◌∙◌, Bool, Option, none, some, List, [], ◌∷◌,
  length, Ordering, Outcome, ok, err, panic, internal, ◌>>=◌, arith,
}
use sqlprimer.Bytes.{Bytes}
use sqlprimer.Sql.Numbers.{Floats}
use sqlprimer.Sql.Value.{Value, Row, partial_cmp, is_eq}
use sqlprimer.Sql.Value.Order.{flip_some, partial_cmp-flip}
use sqlprimer.Sql.Expr.{
  Expression, evaluate_expr, compare_values, field_value, position, index_row, is_gt, is_lt,
}

pub position-lt :
    (name : Bytes) (cols : List Bytes) (i : ℕ) → position name cols ≡ some i → i < length cols
unfolding position
position-lt name [] i h = absurd (cc)
position-lt name (c ∷ cs) i h = go (position-lt name cs) (position name cs) refl
  where
    go :
        ((j : ℕ) → position name cs ≡ some j → j < length cs)
        → (o : Option ℕ) → position name cs ≡ o
        → i < suc (length cs)
    go ih none e = ground (arith, e)
    go ih (some j) e = ground (arith, e, ih j e)

pub index_row_ok : (row : Row) (i : ℕ) → i < length row → index_row row i ≢ panic
unfolding index_row
index_row_ok [] i h e = absurd (omega arith)
index_row_ok (v ∷ vs) zero h e = cc
index_row_ok (v ∷ vs) (suc i) h e = index_row_ok vs i (omega arith) e

pub index_row-lt : (row : Row) (i : ℕ) → i < length row → (v : Value) × (index_row row i ≡ ok v)
unfolding index_row
index_row-lt [] i h = absurd (omega arith)
index_row-lt (v ∷ vs) zero h = (v, refl)
index_row-lt (v ∷ vs) (suc i) h = index_row-lt vs i (omega arith)

field_value_ok :
    (cols : List Bytes) (row : Row) (name : Bytes)
    → length cols ≤ length row
    → field_value cols row name ≢ panic
unfolding field_value
field_value_ok cols row name h = go (position name cols) refl
  where
    go :
        (o : Option ℕ)
        → position name cols ≡ o
        → elim o [ some pos ↦ index_row row pos | none ↦ err internal ] ≢ panic
    go none e q = cc
    go (some i) e q = index_row_ok row i (omega (arith, position-lt name cols i e)) q

bind_ok :
    {A B : Type 0} (m : Outcome A) (k : A → Outcome B)
    → m ≢ panic
    → ((a : A) → k a ≢ panic)
    → (m >>= k) ≢ panic
bind_ok (ok a) k h g e = g a e
bind_ok (err x) k h g e = cc
bind_ok panic k h g e = h refl

module _ (f : Floats) where
  compare_values_ok :
      (test : Option Ordering → Bool) (l r : Value) → compare_values f test l r ≢ panic
  unfolding compare_values
  compare_values_ok test Value.null _ e = cc
  compare_values_ok test _ Value.null e = cc
  compare_values_ok test _ _ e = cc

  -- Over rows that have all their columns, the evaluation of an expression never panics.
  pub evaluate_expr_ok :
      (e : Expression) (lcols : List Bytes) (lrow : Row) (rcols : List Bytes) (rrow : Row)
      → length lcols ≤ length lrow
      → length rcols ≤ length rrow
      → evaluate_expr f e lcols lrow rcols rrow ≢ panic
  unfolding evaluate_expr
  evaluate_expr_ok (Expression.field name) lcols lrow rcols rrow h k =
      field_value_ok lcols lrow name h
  evaluate_expr_ok (Expression.consts c) lcols lrow rcols rrow h k = λ q. cc
  evaluate_expr_ok (Expression.function n a) lcols lrow rcols rrow h k = λ q. cc
  evaluate_expr_ok (Expression.equal l r) lcols lrow rcols rrow h k =
      bind_ok (evaluate_expr f l lcols lrow rcols rrow) _
        (evaluate_expr_ok l lcols lrow rcols rrow h k)
        (λ lv.
          bind_ok (evaluate_expr f r rcols rrow lcols lrow) _
            (evaluate_expr_ok r rcols rrow lcols lrow k h) (λ rv. compare_values_ok is_eq lv rv))
  evaluate_expr_ok (Expression.greater_than l r) lcols lrow rcols rrow h k =
      bind_ok (evaluate_expr f l lcols lrow rcols rrow) _
        (evaluate_expr_ok l lcols lrow rcols rrow h k)
        (λ lv.
          bind_ok (evaluate_expr f r rcols rrow lcols lrow) _
            (evaluate_expr_ok r rcols rrow lcols lrow k h) (λ rv. compare_values_ok is_gt lv rv))
  evaluate_expr_ok (Expression.less_than l r) lcols lrow rcols rrow h k =
      bind_ok (evaluate_expr f l lcols lrow rcols rrow) _
        (evaluate_expr_ok l lcols lrow rcols rrow h k)
        (λ lv.
          bind_ok (evaluate_expr f r rcols rrow lcols lrow) _
            (evaluate_expr_ok r rcols rrow lcols lrow k h) (λ rv. compare_values_ok is_lt lv rv))

module _ (f : Floats) where
  gt_of_flip : (o : Option Ordering) → is_lt (flip_some o) ≡ is_gt o
  gt_of_flip none = refl
  gt_of_flip (some Ordering.lt) = refl
  gt_of_flip (some Ordering.eq) = refl
  gt_of_flip (some Ordering.gt) = refl

  -- Two operands as `partial_cmp` relates them.
  compare_values-partial_cmp :
      (test : Option Ordering → Bool) (l r : Value) (v : Value)
      → l ≢ Value.null
      → r ≢ Value.null
      → compare_values f test l r ≡ ok v
      → v ≡ Value.boolean (test (partial_cmp f l r))
  unfolding compare_values partial_cmp
  compare_values-partial_cmp test Value.null r v p q e = absurd (p refl)
  compare_values-partial_cmp test _ Value.null v p q e = absurd (q refl)
  compare_values-partial_cmp test _ _ v p q e = cc

  -- A comparison of operands that are not NULL, where it gives a value, gives the Boolean that
  -- `partial_cmp` of the operands decides.
  evaluate_expr-partial_cmp :
      (l r : Expression) (lcols rcols : List Bytes) (lrow rrow : Row) (lv rv v : Value)
      → evaluate_expr f l lcols lrow rcols rrow ≡ ok lv
      → evaluate_expr f r rcols rrow lcols lrow ≡ ok rv
      → lv ≢ Value.null
      → rv ≢ Value.null
      → (evaluate_expr f (Expression.equal l r) lcols lrow rcols rrow ≡ ok v
          → v ≡ Value.boolean (is_eq (partial_cmp f lv rv)))
        × (evaluate_expr f (Expression.less_than l r) lcols lrow rcols rrow ≡ ok v
            → v ≡ Value.boolean (is_lt (partial_cmp f lv rv)))
        × (evaluate_expr f (Expression.greater_than l r) lcols lrow rcols rrow ≡ ok v
            → v ≡ Value.boolean (is_lt (partial_cmp f rv lv)))
  unfolding evaluate_expr
  evaluate_expr-partial_cmp l r lcols rcols lrow rrow lv rv v p q n o =
      rw (p, q)
        (
          λ e. compare_values-partial_cmp is_eq lv rv v n o e,
          λ e. compare_values-partial_cmp is_lt lv rv v n o e,
          λ e.
              compare_values-partial_cmp is_gt lv rv v n o e
              ∙ ap Value.boolean (
                  sym (gt_of_flip (partial_cmp f lv rv))
                  ∙ ap is_lt (sym (partial_cmp-flip f lv rv))),
        )
