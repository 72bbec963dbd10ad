-- ===== src/Sql/Parser/Total.antt =====
-- What the calls of the parser of sql/parser/mod.rs take from the items.
pub mod Expressions
pub mod Clauses
pub mod Statements
pub mod Text
use sqlprimer.Prelude.{
  ℕ, ◌+◌, ◌≤◌, ◌≡◌, ◌≢◌, ◌⊎◌, inl, inr, refl, Bool, true, false, Option, none, some, List, [], ◌∷◌,
  length, arith, Outcome, Error, ok, err, panic, parse, suc, if◌then◌else◌,
}
use sqlprimer.Bytes.{Bytes}
use sqlprimer.Storage.Mvcc.Monad.{Act, pure, lift, continue, ◌>>=◌}
use sqlprimer.Sql.Value.{DataType}
use sqlprimer.Sql.Parser.Token.{Keyword, Token, same_token}
use sqlprimer.Sql.Parser.Lexer.{Item}
use sqlprimer.Sql.Parser.Grammar.{
  Parser, peek, next, next_if, next_if_token, next_ident, next_datatype, next_expect, ident_of,
  datatype_of, if_some,
}

-- No panic, and, with a result, at least `k` items were taken.
abbrev pub Bounded : {A : Type 0} → ℕ → List Item → Outcome A × List Item → Type 0
Bounded k s (ok a, r) = length r + k ≤ length s
Bounded k s (err e, r) = Unit
Bounded k s (panic, r) = ⊥

-- The same of a call of the parser.
pub record Takes {A : Type 0} (k : ℕ) (m : Parser A) (s : List Item) : Type 0 where
  pub bounded : Bounded k s (m s)

continue_lem :
    {A B : Type 0} (k : ℕ) (s : List Item) (o : Outcome A) (r : List Item) (g : A → Parser B)
    → Bounded k s (o, r)
    → ((a : A) (t : List Item) → length t + k ≤ length s → Bounded 0 t (g a t))
    → Bounded k s (continue o g r)
continue_lem {B = B} k s (ok a) r g h after = widen (g a r) (after a r h) h
  where
    widen :
        (out : Outcome B × List Item) → Bounded 0 r out → length r + k ≤ length s → Bounded k s out
    widen (ok b, t) p q = omega arith
    widen (err e, t) p q = tt
    widen (panic, t) p q = p
continue_lem k s (err e) r g h after = tt
continue_lem k s panic r g h after = h

-- What holds from fewer items holds from more.
Bounded-less :
    {A : Type 0} (r s : List Item) (o : Outcome A × List Item)
    → Bounded 0 r o
    → length r + 1 ≤ length s
    → Bounded 0 s o
Bounded-less r s (ok b, t) p q = omega arith
Bounded-less r s (err e, t) p q = tt
Bounded-less r s (panic, t) p q = p

-- A call, and what follows it.
pub step :
    {A B : Type 0} {m : Parser A} {g : A → Parser B} {s : List Item} (k : ℕ)
    → Takes k m s
    → ((a : A) (r : List Item) → length r + k ≤ length s → Takes 0 (g a) r)
    → Takes k (m >>= g) s
unfolding ◌>>=◌
step {m = m} {g = g} {s = s} k h f = record {
  bounded = continue_lem k s (m s).0 (m s).1 g h.bounded (λ a r l. (f a r l).bounded);
}

pub peek_lem : (s : List Item) → Takes 0 peek s
unfolding peek
peek_lem [] = record { bounded = omega arith }
peek_lem (Item.token t ∷ s) = record { bounded = omega arith }
peek_lem (Item.failure ∷ s) = record { bounded = tt }

pub next_lem : (s : List Item) → Takes 1 next s
unfolding next
next_lem [] = record { bounded = tt }
next_lem (Item.token t ∷ s) = record { bounded = omega arith }
next_lem (Item.failure ∷ s) = record { bounded = tt }

pub next_if_cases :
    (p : Token → Bool) (s : List Item)
    → ((t : Token) × (r : List Item) × (next_if p s ≡ (ok (some t), r)) × (length r + 1 ≤ length s))
      ⊎ (next_if p s ≡ (ok none, s))
unfolding next_if
next_if_cases p [] = inr refl
next_if_cases p (Item.token t ∷ s) = go (p t)
  where
    go :
        (b : Bool)
        → ((u : Token) × (r : List Item) × (◌≡◌ {A = Outcome (Option Token) × List Item}
              (if b then (ok (some t), s) else (ok none, Item.token t ∷ s))
              (ok (some u), r))
            × (length r + 1 ≤ suc (length s)))
          ⊎ (◌≡◌ {A = Outcome (Option Token) × List Item}
              (if b then (ok (some t), s) else (ok none, Item.token t ∷ s))
              (ok none, Item.token t ∷ s))
    go true = inl (t, s, refl, omega arith)
    go false = inr refl
next_if_cases p (Item.failure ∷ s) = inr refl

pub next_if_lem : (p : Token → Bool) (s : List Item) → Takes 0 (next_if p) s
next_if_lem p s = elim (next_if_cases p s) [
  | inl (t, r, e, l) ↦ record { bounded = rw e (omega arith) }
  | inr e ↦ record { bounded = rw e (omega arith) }
]

pub next_if_token_lem : (t : Token) (s : List Item) → Takes 0 (next_if_token t) s
unfolding next_if_token
next_if_token_lem t s = next_if_lem (λ u. same_token u t) s

-- An outcome that is no panic.
pub lift_lem : {A : Type 0} (o : Outcome A) (s : List Item) → o ≢ panic → Takes 0 (lift o) s
lift_lem (ok a) s h = record { bounded = omega arith }
lift_lem (err e) s h = record { bounded = tt }
lift_lem panic s h = absurd (h refl)

ident_of_ok : (t : Token) → ident_of t ≢ panic
ident_of_ok (Token.ident name) e = cc
ident_of_ok _ e = cc

datatype_of_ok : (t : Token) → datatype_of t ≢ panic
datatype_of_ok (Token.keyword Keyword.bool) e = cc
datatype_of_ok (Token.keyword Keyword.boolean) e = cc
datatype_of_ok (Token.keyword Keyword.int) e = cc
datatype_of_ok (Token.keyword Keyword.integer) e = cc
datatype_of_ok (Token.keyword Keyword.float) e = cc
datatype_of_ok (Token.keyword Keyword.double) e = cc
datatype_of_ok (Token.keyword Keyword.string) e = cc
datatype_of_ok (Token.keyword Keyword.text) e = cc
datatype_of_ok (Token.keyword Keyword.varchar) e = cc
datatype_of_ok _ e = cc

pub next_ident_lem : (s : List Item) → Takes 1 next_ident s
unfolding next_ident
next_ident_lem s = step 1 (next_lem s) (λ t r l. lift_lem (ident_of t) r (ident_of_ok t))

pub next_datatype_lem : (s : List Item) → Takes 1 next_datatype s
unfolding next_datatype
next_datatype_lem s = step 1 (next_lem s) (λ t r l. lift_lem (datatype_of t) r (datatype_of_ok t))

expected : (b : Bool) (s : List Item) → Takes 0 (lift (if b then ok tt else err parse)) s
expected true s = record { bounded = omega arith }
expected false s = record { bounded = tt }

pub next_expect_lem : (t : Token) (s : List Item) → Takes 1 (next_expect t) s
unfolding next_expect
next_expect_lem t s = step 1 (next_lem s) (λ u r l. expected (same_token u t) r)

-- Both ways on from an optional token.
pub if_some_lem :
    {A : Type 0} (o : Option Token) (present absent : Parser A) (s : List Item)
    → Takes 0 present s
    → Takes 0 absent s
    → Takes 0 (if_some o present absent) s
if_some_lem none present absent s h k = k
if_some_lem (some t) present absent s h k = h

pub pure_lem : {A : Type 0} (a : A) (s : List Item) → Takes 0 (pure a) s
pure_lem a s = record { bounded = omega arith }

pub err_lem : {A : Type 0} (k : ℕ) (e : Error) (s : List Item) → Takes k (lift {A = A} (err e)) s
err_lem k e s = record { bounded = tt }

-- A call that takes one item, where none is asked for.
pub weaken : {A : Type 0} {m : Parser A} {s : List Item} → Takes 1 m s → Takes 0 m s
weaken {A = A} {m = m} {s = s} h = record { bounded = go (m s).0 (m s).1 h.bounded }
  where
    go : (o : Outcome A) (r : List Item) → Bounded 1 s (o, r) → Bounded 0 s (o, r)
    go (ok a) r h = omega arith
    go (err e) r h = tt
    go panic r h = h

-- An optional token and both ways on: where the token was there, an item was taken.
pub next_if_step :
    {A : Type 0} (g : Option Token → Parser A) (p : Token → Bool) (s : List Item)
    → ((t : Token) (r : List Item) → length r + 1 ≤ length s → Takes 0 (g (some t)) r)
    → Takes 0 (g none) s
    → Takes 0 (next_if p >>= g) s
unfolding ◌>>=◌
next_if_step g p s h k = elim (next_if_cases p s) [
  | inl (t, r, e, l) ↦ record {
    bounded = rw e (Bounded-less r s (g (some t) r) (h t r l).bounded l);
  }
  | inr e ↦ record { bounded = rw e k.bounded }
]
