-- ===== src/Sql/Parser/Lexer/Ends.antt =====
-- The lexer of sql/parser/lexer.rs ends.
use sqlprimer.Prelude.{
  ℕ, zero, suc, ◌≤◌, ◌<◌, ◌≡◌, refl, ap, ◌∙◌, Bool, true, ◌||◌, Option, none, some, List, [], ◌∷◌,
  length, ◌==◌, arith,
}
use sqlprimer.Bytes.{Bytes}
use sqlprimer.Sql.Text.{Unicode, is_ascii_digit, is_whitespace, is_alphabetic, is_alphanumeric}
use sqlprimer.Sql.Parser.Token.{Token}
use sqlprimer.Sql.Parser.Lexer.{
  next_while, scan_string_from, scan_number, fraction, Scanned, Item, scan_ident, scan_first, scan,
  items_from, items, next_item,
}

next_while-length : (p : ℕ → Bool) (cs : List ℕ) → length (next_while p cs).1 ≤ length cs
unfolding next_while
next_while-length p [] = omega arith
next_while-length p (c ∷ cs) = ground (arith, next_while-length p cs)

next_while-first :
    (p : ℕ → Bool) (c : ℕ) (cs : List ℕ) → p c ≡ true → length (next_while p (c ∷ cs)).1 ≤ length cs
unfolding next_while
next_while-first p c cs h = ground (arith, h, next_while-length p cs)

scan_string_from-length : (cs : List ℕ) → length (scan_string_from cs).1 ≤ length cs
unfolding scan_string_from
scan_string_from-length [] = omega arith
scan_string_from-length (c ∷ cs) = ground (arith, scan_string_from-length cs)

fraction-length : (num : Bytes) (cs : List ℕ) → length (fraction num cs).1 ≤ length cs
unfolding fraction
fraction-length num [] = omega arith
fraction-length num (c ∷ cs) = ground (arith, next_while-length is_ascii_digit cs)

scan_number-length :
    (c : ℕ) (cs : List ℕ) → is_ascii_digit c ≡ true → length (scan_number (c ∷ cs)).1 ≤ length cs
unfolding scan_number
scan_number-length c cs h = omega (
  arith,
  next_while-first is_ascii_digit c cs h,
  fraction-length (next_while is_ascii_digit (c ∷ cs)).0 (next_while is_ascii_digit (c ∷ cs)).1,
)

module _ (u : Unicode) where
  scan_ident-length :
      (c : ℕ) (cs : List ℕ)
      → is_alphabetic u c ≡ true
      → length (scan_ident u (c ∷ cs)).1 ≤ length cs
  unfolding scan_ident is_alphanumeric
  scan_ident-length c cs h = next_while-first (λ d. is_alphanumeric u d || d == 95) c cs (rw h refl)

  scan_first-length :
      (c : ℕ) (cs : List ℕ) (t : Token)
      → (scan_first u (c ∷ cs)).0 ≡ Scanned.token t
      → length (scan_first u (c ∷ cs)).1 ≤ length cs
  unfolding scan_first
  scan_first-length c cs t h =
      ground (arith, scan_string_from-length cs, scan_number-length c cs, scan_ident-length c cs)

  no_token : (t : Token) → (scan_first u []).0 ≡ Scanned.token t → ⊥
  unfolding scan_first
  no_token t h = cc

  -- A scan that gives a token takes a character.
  scan-length :
      (cs : List ℕ) (t : Token) → (scan u cs).0 ≡ Scanned.token t → length (scan u cs).1 < length cs
  unfolding scan
  scan-length cs t h =
      go (next_while (is_whitespace u) cs).1 (next_while-length (is_whitespace u) cs) h
    where
      go :
          (ds : List ℕ)
          → length ds ≤ length cs
          → (scan_first u ds).0 ≡ Scanned.token t
          → length (scan_first u ds).1 < length cs
      go [] l h = absurd (no_token t h)
      go (d ∷ ds) l h = omega (arith, scan_first-length d ds t h)

  -- What one more item and the items behind it make.
  abbrev with_item : Option Item → Option (List Item) → Option (List Item)
  with_item none more = some []
  with_item (some (Item.token t)) none = none
  with_item (some (Item.token t)) (some l) = some (Item.token t ∷ l)
  with_item (some Item.failure) more = some (Item.failure ∷ [])

  items_from-suc :
      (fuel : ℕ) (cs : List ℕ)
      → items_from u (suc fuel) cs
        ≡ with_item (next_item u (scan u cs)) (items_from u fuel (scan u cs).1)
  unfolding items_from
  items_from-suc fuel cs = go (next_item u (scan u cs)) (items_from u fuel (scan u cs).1)
    where
      go :
          (o : Option Item) (more : Option (List Item))
          → elim o [
            | none ↦ some []
            | some item ↦ elim item [
              | Item.token t ↦ elim more [ none ↦ none | some l ↦ some (Item.token t ∷ l) ]
              | Item.failure ↦ some (Item.failure ∷ [])
            ]
          ]
            ≡ with_item o more
      go none more = refl
      go (some (Item.token t)) none = refl
      go (some (Item.token t)) (some l) = refl
      go (some Item.failure) more = refl

  -- The fuel is enough where each token leaves less than it.
  with_item-some :
      (out : Scanned) (rest : List ℕ) (more : Option (List Item))
      → ((t : Token) → out ≡ Scanned.token t → (l : List Item) × (more ≡ some l))
      → (l : List Item) × (with_item (next_item u (out, rest)) more ≡ some l)
  with_item-some (Scanned.token t) rest more h =
      let (l, e) = h t refl in (Item.token t ∷ l, ap (with_item (some (Item.token t))) e)
  with_item-some Scanned.nothing [] more h = ([], refl)
  with_item-some Scanned.nothing (c ∷ cs) more h = (Item.failure ∷ [], refl)
  with_item-some Scanned.failure rest more h = (Item.failure ∷ [], refl)

  items_from-enough :
      (fuel : ℕ) (cs : List ℕ)
      → length cs < fuel
      → (l : List Item) × (items_from u fuel cs ≡ some l)
  unfolding items_from
  items_from-enough zero cs h = absurd (omega arith)
  items_from-enough (suc fuel) cs h =
      let (l, e) =
        with_item-some (scan u cs).0 (scan u cs).1 (items_from u fuel (scan u cs).1)
          (λ t q. items_from-enough fuel (scan u cs).1 (omega (arith, scan-length cs t q))) in
      (l, items_from-suc fuel cs ∙ e)

  -- The lexer ends on every text: one round for each character, and one more, give its tokens up to
  -- the end or the first error.
  pub items-some : (cs : List ℕ) → (l : List Item) × (items u cs ≡ some l)
  unfolding items
  items-some cs = items_from-enough (suc (length cs)) cs (omega arith)
