-- ===== src/Storage/Mvcc/State.antt =====
-- `TransactionState`: the version of a transaction, and which versions it sees.
use sqlprimer.Prelude.{
  ℕ, ◌+◌, ◌%◌, ◌^◌, Bool, false, Option, none, some, List, [], ◌∷◌, leb, ◌==◌, ◌||◌, if◌then◌else◌,
}

-- A `HashSet` of versions, as the list of its members, each once.
unfoldable pub contains : List ℕ → ℕ → Bool
contains [] v = false
contains (w ∷ ws) v = (w == v) || contains ws v

unfoldable pub insert_version : ℕ → List ℕ → List ℕ
unfolding contains
insert_version v ws = if contains ws v then ws else v ∷ ws

-- `iter().min()`
unfoldable pub least : List ℕ → Option ℕ
least [] = none
least (v ∷ vs) = elim (least vs) [ none ↦ some v | some w ↦ some (if leb v w then v else w) ]

pub record TransactionState : Type 0 where
  pub version : ℕ
  pub active_versions : List ℕ

unfoldable pub is_visible : TransactionState → ℕ → Bool
is_visible t v = if contains t.active_versions v then false else leb v t.version

-- `u64` addition wraps.
abbrev pub next_of : ℕ → ℕ
next_of v = (v + 1) % 2 ^ 64

abbrev pub max_version : ℕ
max_version = 18446744073709551615
