-- ===== src/Sql/Parser/Arithmetic/Agree.antt =====
-- The arithmetic of sql/parser/mod.rs and the value of a sum of products.
use sqlprimer.Prelude.{
  ℕ, zero, suc, ◌+◌, ◌*◌, ◌≤◌, ◌<◌, ◌≡◌, ◌∙◌, refl, false, List, [], ◌∷◌, length, arith, Outcome,
  ok, err, panic, ◌>>=◌, none, some,
}
use sqlprimer.Bytes.{Bytes}
use sqlprimer.Sql.Numbers.{Floats}
use sqlprimer.Sql.Expr.{Expression}
use sqlprimer.Sql.Parser.Token.{Token, is_operator, precedence, compute_expr}
use sqlprimer.Sql.Parser.Lexer.{Item}
use sqlprimer.Sql.Parser.Grammar.Expressions.{
  number_of, goes_on, compute_math, compute_math_operator,
}
use sqlprimer.Sql.Parser.Arithmetic.{
  Times, Adds, times_token, adds_token, Factors, Product, factor_items, product_items, sum_items,
  product_from, product_value, sum_from, sum_value,
}
use sqlprimer.Sql.Parser.Arithmetic.Steps.{goes_on-three, ends_at, literal_step, operator_step}

-- The steps of a chain that succeeds.
>>=_inv :
    {A B : Type 0} (o : Outcome A) (g : A → Outcome B) (b : B)
    → (o >>= g) ≡ ok b
    → (a : A) × (o ≡ ok a) × (g a ≡ ok b)
>>=_inv (ok a) g b e = (a, refl, e)
>>=_inv (err x) g b e = absurd cc
>>=_inv panic g b e = absurd cc

module _ (f : Floats) where
  times_bind : (op : Times) → precedence (times_token op) ≡ 2
  unfolding precedence
  times_bind Times.times = refl
  times_bind Times.over = refl

  times_go_on-one : (op : Times) → goes_on f 1 (some (times_token op)) ≡ some (times_token op)
  unfolding is_operator precedence
  times_go_on-one Times.times = refl
  times_go_on-one Times.over = refl

  times_go_on-two : (op : Times) → goes_on f 2 (some (times_token op)) ≡ some (times_token op)
  unfolding is_operator precedence
  times_go_on-two Times.times = refl
  times_go_on-two Times.over = refl

  adds_bind : (op : Adds) → precedence (adds_token op) ≡ 1
  unfolding precedence
  adds_bind Adds.and = refl
  adds_bind Adds.less = refl

  adds_go_on : (op : Adds) → goes_on f 1 (some (adds_token op)) ≡ some (adds_token op)
  unfolding is_operator precedence
  adds_go_on Adds.and = refl
  adds_go_on Adds.less = refl

  adds_end : (op : Adds) → goes_on f 2 (some (adds_token op)) ≡ none
  unfolding is_operator precedence
  adds_end Adds.and = refl
  adds_end Adds.less = refl

  no_operator_ends : (min : ℕ) (t : Token) → is_operator t ≡ false → goes_on f min (some t) ≡ none
  no_operator_ends min t h = rw h refl

  -- A literal behind `*` or `/` is an operand by itself.
  operand_alone :
      (G : ℕ) (n : Bytes) (v : Expression) (fs : Factors) (t : Token) (s : List Item)
      → number_of f n ≡ ok v
      → compute_math f
          (suc (suc G))
          3
          none
          (Item.token (Token.number n) ∷ factor_items fs (Item.token t ∷ s))
        ≡ (ok v, factor_items fs (Item.token t ∷ s))
  unfolding factor_items
  operand_alone G n v [] t s e =
      literal_step f (suc G) 3 n v _ e ∙ ends_at f G 3 v t s (goes_on-three f t)
  operand_alone G n v ((op, m) ∷ fs) t s e =
      literal_step f (suc G) 3 n v _ e
      ∙ ends_at f G 3 v (times_token op) _ (goes_on-three f (times_token op))

  -- The loop takes all factors, whichever of the two levels it is at.
  factors_lem :
      (G min : ℕ) (left v : Expression) (fs : Factors) (t : Token) (s : List Item)
      → ((op : Times) → goes_on f min (some (times_token op)) ≡ some (times_token op))
      → 2 * length fs + 1 ≤ G
      → product_from f left fs ≡ ok v
      → (F : ℕ) × (length fs + F ≡ G)
        × (compute_math f G min (some left) (factor_items fs (Item.token t ∷ s))
            ≡ compute_math f F min (some v) (Item.token t ∷ s))
  unfolding product_from factor_items
  factors_lem G min left v [] t s go h e = (G, omega arith, cc)
  factors_lem (suc (suc (suc G))) min left v ((op, n) ∷ fs) t s go h e =
      let (right, e1, e2) = >>=_inv (number_of f n) _ v e in
      let (w, e3, e4) = >>=_inv (compute_expr f (times_token op) left right) _ v e2 in
      let (F, l, q) = factors_lem (suc (suc G)) min w v fs t s go (omega arith) e4 in
      (
        F,
        omega arith,
        operator_step f (suc (suc G)) min (times_token op) left right w _ _ (go op)
              (rw (times_bind op) (operand_alone G n right fs t s e1)) e3
            ∙ q,
      )
  factors_lem _ min left v ((op, n) ∷ fs) t s go h e = absurd (omega arith)

  ends_from :
      (F min : ℕ) (v : Expression) (t : Token) (s : List Item)
      → 1 ≤ F
      → goes_on f min (some t) ≡ none
      → compute_math f F min (some v) (Item.token t ∷ s) ≡ (ok v, Item.token t ∷ s)
  ends_from zero min v t s h k = absurd (omega arith)
  ends_from (suc F) min v t s h k = ends_at f F min v t s k

  -- A product behind `+` or `-`.
  product_lem :
      (G : ℕ) (p : Product) (v : Expression) (t : Token) (s : List Item)
      → goes_on f 2 (some t) ≡ none
      → 2 * length p.1 + 2 ≤ G
      → product_value f p ≡ ok v
      → compute_math f G 2 none (product_items p (Item.token t ∷ s)) ≡ (ok v, Item.token t ∷ s)
  unfolding product_value product_items
  product_lem zero p v t s k h e = absurd (omega arith)
  product_lem (suc G) p v t s k h e =
      let (left, e1, e2) = >>=_inv (number_of f p.0) _ v e in
      let (F, l, q) = factors_lem G 2 left v p.1 t s times_go_on-two (omega arith) e2 in
      literal_step f G 2 p.0 left _ e1 ∙ q ∙ ends_from F 2 v t s (omega arith) k

  -- What follows a product ends it.
  sum_items-ends :
      (ps : List (Adds × Product)) (t : Token) (s : List Item)
      → is_operator t ≡ false
      → (u : Token) × (r : List Item) × (sum_items ps (Item.token t ∷ s) ≡ Item.token u ∷ r)
        × (goes_on f 2 (some u) ≡ none)
  unfolding sum_items
  sum_items-ends [] t s h = (t, s, refl, no_operator_ends 2 t h)
  sum_items-ends ((op, p) ∷ ps) t s h = (adds_token op, _, refl, adds_end op)

  length-factor_items :
      (fs : Factors) (s : List Item) → length (factor_items fs s) ≡ 2 * length fs + length s
  unfolding factor_items
  length-factor_items [] s = omega arith
  length-factor_items ((op, n) ∷ fs) s = omega (arith, length-factor_items fs s)

  length-sum_items :
      (ps : List (Adds × Product)) (t : Token) (s : List Item)
      → 1 ≤ length (sum_items ps (Item.token t ∷ s))
  unfolding sum_items
  length-sum_items [] t s = omega arith
  length-sum_items ((op, p) ∷ ps) t s = omega arith

  factors_before_sum :
      (G : ℕ) (left v : Expression) (fs : Factors) (ps : List (Adds × Product)) (t : Token)
      (s : List Item)
      → is_operator t ≡ false
      → 2 * length fs + 1 ≤ G
      → product_from f left fs ≡ ok v
      → (F : ℕ) × (length fs + F ≡ G)
        × (compute_math f G 1 (some left) (factor_items fs (sum_items ps (Item.token t ∷ s)))
            ≡ compute_math f F 1 (some v) (sum_items ps (Item.token t ∷ s)))
  factors_before_sum G left v fs ps t s stop h e =
      let (u, r, q, k) = sum_items-ends ps t s stop in
      rw q (factors_lem G 1 left v fs u r times_go_on-one h e)

  product_before_sum :
      (G : ℕ) (p : Product) (v : Expression) (ps : List (Adds × Product)) (t : Token)
      (s : List Item)
      → is_operator t ≡ false
      → 2 * length p.1 + 2 ≤ G
      → product_value f p ≡ ok v
      → compute_math f G 2 none (product_items p (sum_items ps (Item.token t ∷ s)))
        ≡ (ok v, sum_items ps (Item.token t ∷ s))
  product_before_sum G p v ps t s stop h e =
      let (u, r, q, k) = sum_items-ends ps t s stop in rw q (product_lem G p v u r k h e)

  sum_lem :
      (G : ℕ) (left v : Expression) (ps : List (Adds × Product)) (t : Token) (s : List Item)
      → is_operator t ≡ false
      → length (sum_items ps (Item.token t ∷ s)) ≤ G
      → sum_from f left ps ≡ ok v
      → compute_math f G 1 (some left) (sum_items ps (Item.token t ∷ s)) ≡ (ok v, Item.token t ∷ s)
  unfolding sum_from sum_items product_items
  sum_lem G left v [] t s stop h e =
      ends_from G 1 left t s (omega arith) (no_operator_ends 1 t stop) ∙ cc
  sum_lem zero left v ((op, p) ∷ ps) t s stop h e = absurd (omega arith)
  sum_lem (suc G) left v ((op, p) ∷ ps) t s stop h e =
      let (right, e1, e2) = >>=_inv (product_value f p) _ v e in
      let (w, e3, e4) = >>=_inv (compute_expr f (adds_token op) left right) _ v e2 in
      let len = length-factor_items p.1 (sum_items ps (Item.token t ∷ s)) in
      let positive = length-sum_items ps t s in
      operator_step f G 1 (adds_token op) left right w _ _ (adds_go_on op)
        (rw (adds_bind op)
          (product_before_sum G p right ps t s stop (omega (arith, len, positive)) e1))
        e3
      ∙ sum_lem G w v ps t s stop (omega (arith, len, positive)) e4

  -- What follows a sum of products of literals, and no operator, is left, and the result is the value
  -- of the sum: `*` and `/` bind tighter than `+` and `-`, and each is taken from the left. Stated
  -- where the value is no error, with more fuel than there are items.
  pub compute_math_operator-sum_value :
      (fuel : ℕ) (p : Product) (ps : List (Adds × Product)) (v : Expression) (t : Token)
      (s : List Item)
      → is_operator t ≡ false
      → length (product_items p (sum_items ps (Item.token t ∷ s))) < fuel
      → sum_value f p ps ≡ ok v
      → compute_math_operator f fuel 1 (product_items p (sum_items ps (Item.token t ∷ s)))
        ≡ (ok v, Item.token t ∷ s)
  unfolding compute_math_operator sum_value product_value product_items
  compute_math_operator-sum_value zero p ps v t s stop h e = absurd (omega arith)
  compute_math_operator-sum_value (suc fuel) p ps v t s stop h e =
      let (w, e1, e2) = >>=_inv (product_value f p) _ v e in
      let (left, e3, e4) = >>=_inv (number_of f p.0) _ w e1 in
      let len = length-factor_items p.1 (sum_items ps (Item.token t ∷ s)) in
      let (F, l, q) =
        factors_before_sum fuel left w p.1 ps t s stop (omega (arith, len, length-sum_items ps t s))
          e4 in
      literal_step f fuel 1 p.0 left _ e3 ∙ q ∙ sum_lem F w v ps t s stop (omega (arith, len)) e2
