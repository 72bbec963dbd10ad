-- ===== src/Prelude/Outcomes.antt =====
-- error.rs: the error type and `Result`; a third outcome stands for a panic, which `todo!`,
-- `unwrap` on nothing, an index out of range and a bad `BTreeMap` range end in.

-- Messages are left out: nothing in the program reads them.
pub data Error : Type 0 where
  parse : Error
  internal : Error
  write_conflict : Error

pub data Outcome {ℓ} (A : Type ℓ) : Type ℓ where
  ok : A → Outcome A
  err : Error → Outcome A
  panic : Outcome A

-- The `?` operator: an error or a panic ends the caller.
infixl 5 ◌>>=◌ ◌>>◌
abbrev pub ◌>>=◌ {κ ℓ} : {X : Type κ} {Y : Type ℓ} → Outcome X → (X → Outcome Y) → Outcome Y
panic >>= rest = panic
err problem >>= rest = err problem
ok x >>= rest = rest x

-- The same for a call that returns nothing.
abbrev pub ◌>>◌ {κ} : {Y : Type κ} → Outcome (Unit {0}) → Outcome Y → Outcome Y
panic >> rest = panic
err problem >> rest = err problem
ok x >> rest = rest
