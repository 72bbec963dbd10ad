-- ===== src/Storage/Mvcc/Monad.antt =====
-- Methods of a transaction: they share the engine behind a mutex, so a method runs alone from its
-- `lock()` to its end, and gets and returns the engine's state. What was written before an error
-- stays written.
use sqlprimer.Prelude.{List, [], ◌∷◌, Outcome, ok, err, panic}

abbrev pub Act : Type 0 → Type 0 → Type 0
Act S A = S → Outcome A × S

module _ {S A : Type 0} where
  abbrev pub pure : A → Act S A
  pure a s = (ok a, s)

  abbrev pub lift : Outcome A → Act S A
  lift r s = (r, s)

  -- A call that only reads the state.
  abbrev pub reads : (S → Outcome A) → Act S A
  reads f s = (f s, s)

module _ {S A B : Type 0} where
  abbrev pub continue : Outcome A → (A → Act S B) → S → Outcome B × S
  continue (ok a) f s = f a s
  continue (err e) f s = (err e, s)
  continue panic f s = (panic, s)

  infixl 5 ◌>>=◌
  unfoldable pub ◌>>=◌ : Act S A → (A → Act S B) → Act S B
  ◌>>=◌ m f s = let (r, s') = m s in continue r f s'

module _ {S B : Type 0} where
  infixl 5 ◌>>◌
  abbrev pub ◌>>◌ : Act S (Unit {0}) → Act S B → Act S B
  m >> k = m >>= λ _. k

-- A `for` loop whose body may fail.
unfoldable pub for_each : {S A : Type 0} → List A → (A → Act S (Unit {0})) → Act S (Unit {0})
unfolding ◌>>=◌
for_each [] body = pure tt
for_each (x ∷ xs) body = let rest = for_each xs body in body x >> rest
