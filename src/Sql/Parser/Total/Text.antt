-- ===== src/Sql/Parser/Total/Text.antt =====
-- `parse` of sql/parser/mod.rs on a whole text.
use sqlprimer.Prelude.{
  ◌⊎◌, ℕ, suc, ◌≡◌, ◌≢◌, inl, inr, refl, List, length, arith, Outcome, Error, ok, err, panic,
}
use sqlprimer.Sql.Text.{Unicode}
use sqlprimer.Sql.Numbers.{Floats}
use sqlprimer.Sql.Statement.{Statement}
use sqlprimer.Sql.Parser.Lexer.{Item}
use sqlprimer.Sql.Parser.Lexer.Ends.{items-some}
use sqlprimer.Sql.Parser.Total.{Bounded}
use sqlprimer.Sql.Parser.Total.Statements.{parse_items_lem}
use sqlprimer.Sql.Parser.Grammar.Statements.{parse_text}

Bounded-ok :
    {A : Type 0} (k : ℕ) (s : List Item) (o : Outcome A) (r : List Item)
    → Bounded k s (o, r)
    → o ≢ panic
Bounded-ok k s (ok a) r h q = cc
Bounded-ok k s (err e) r h q = cc
Bounded-ok k s panic r h q = h

-- On every text the parser ends with a statement or an error: a fuel of one more than there are
-- items is enough for each loop and each nested call, whatever the tokens are, and no step of the
-- parser panics.
pub parse_text-result :
    (f : Floats) (u : Unicode) (text : List ℕ)
    → ((stmt : Statement) × (parse_text f u text ≡ ok stmt))
      ⊎ ((e : Error) × (parse_text f u text ≡ err e))
unfolding parse_text
parse_text-result f u text =
    let (l, e) = items-some u text in
    rw (e, parse_text)
      (result _ (Bounded-ok 0 l _ _ (parse_items_lem f (suc (length l)) l (omega arith)).bounded))
  where
    result :
        (o : Outcome Statement)
        → o ≢ panic
        → ((stmt : Statement) × (o ≡ ok stmt)) ⊎ ((e : Error) × (o ≡ err e))
    result (ok stmt) h = inl (stmt, refl)
    result (err e) h = inr (e, refl)
    result panic h = absurd (h refl)
