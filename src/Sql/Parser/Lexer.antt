-- ===== src/Sql/Parser/Lexer.antt =====
-- `Lexer` of sql/parser/lexer.rs. A text is the list of its characters, a character its code.
pub mod Ends
use sqlprimer.Prelude.{
  ℕ, zero, suc, Bool, true, false, ◌||◌, Option, none, some, List, [], ◌∷◌, ◌++◌, length, ◌==◌,
  Outcome, ok, err, panic, parse, if◌then◌else◌,
}
use sqlprimer.Bytes.{Bytes}
use sqlprimer.Sql.Text.{
  Unicode, is_ascii_digit, utf8, is_whitespace, is_alphabetic, is_alphanumeric, to_lowercase,
}
use sqlprimer.Sql.Parser.Token.{Token, from_str}

-- `next_while`: the text of the characters that pass, and what is left.
unfoldable pub next_while : (ℕ → Bool) → List ℕ → Bytes × List ℕ
next_while predicate [] = ([], [])
next_while predicate (c ∷ cs) =
    let rest = next_while predicate cs in
    if predicate c then (utf8 c ++ rest.0, rest.1) else ([], c ∷ cs)

-- The loop of `scan_string`, up to the quote; nothing where the text ends before.
unfoldable pub scan_string_from : List ℕ → Option Bytes × List ℕ
scan_string_from [] = (none, [])
scan_string_from (c ∷ cs) =
    let rest = scan_string_from cs in if c == 39 then (some [], cs) else (push c rest.0, rest.1)
  where
    push : ℕ → Option Bytes → Option Bytes
    push c none = none
    push c (some value) = some (utf8 c ++ value)

-- A point, and the digits behind it.
unfoldable pub fraction : Bytes → List ℕ → Token × List ℕ
fraction num [] = (Token.number num, [])
fraction num (c ∷ cs) =
    let (digits, rest) = next_while is_ascii_digit cs in
    if c == 46 then (Token.number (num ++ 46 ∷ digits), rest) else (Token.number num, c ∷ cs)

-- `scan_number`
unfoldable pub scan_number : List ℕ → Token × List ℕ
scan_number cs = let (num, rest) = next_while is_ascii_digit cs in fraction num rest

-- `scan_symbol`
unfoldable pub symbol : ℕ → Option Token
symbol c =
    if c == 42
    then some Token.asterisk
    else if c == 40
    then some Token.open_paren
    else if c == 41
    then some Token.close_paren
    else if c == 44
    then some Token.comma
    else if c == 59
    then some Token.semicolon
    else if c == 43
    then some Token.plus
    else if c == 45
    then some Token.minus
    else if c == 47
    then some Token.slash
    else if c == 61
    then some Token.equal
    else if c == 62
    then some Token.greater_than
    else if c == 60
    then some Token.less_than
    else none

-- What `scan` gives: a token, nothing, or an error.
pub data Scanned : Type 0 where
  token : Token → Scanned
  nothing : Scanned
  failure : Scanned

-- What the iterator gives; each error is an `Error::Parse`.
pub data Item : Type 0 where
  token : Token → Item
  failure : Item

module _ (u : Unicode) where
  abbrev keyword_or_ident : Bytes → Token
  keyword_or_ident value = elim (from_str u value) [
    | some keyword ↦ Token.keyword keyword
    | none ↦ Token.ident (to_lowercase u value)
  ]

  -- `scan_ident`
  unfoldable pub scan_ident : List ℕ → Token × List ℕ
  scan_ident cs =
      let (value, rest) = next_while (λ c. is_alphanumeric u c || c == 95) cs in
      (keyword_or_ident value, rest)

  abbrev string_token : Option Bytes → Scanned
  string_token none = Scanned.failure
  string_token (some value) = Scanned.token (Token.string value)

  abbrev symbol_token : Option Token → List ℕ → List ℕ → Scanned × List ℕ
  symbol_token none cs rest = (Scanned.nothing, cs)
  symbol_token (some t) cs rest = (Scanned.token t, rest)

  -- The match of `scan` on the first character.
  unfoldable pub scan_first : List ℕ → Scanned × List ℕ
  scan_first [] = (Scanned.nothing, [])
  scan_first (c ∷ cs) =
      if c == 39
      then (string_token (scan_string_from cs).0, (scan_string_from cs).1)
      else if is_ascii_digit c
      then (Scanned.token (scan_number (c ∷ cs)).0, (scan_number (c ∷ cs)).1)
      else if is_alphabetic u c
      then (Scanned.token (scan_ident (c ∷ cs)).0, (scan_ident (c ∷ cs)).1)
      else symbol_token (symbol c) (c ∷ cs) cs

  -- `scan`
  unfoldable pub scan : List ℕ → Scanned × List ℕ
  scan cs = scan_first (next_while (is_whitespace u) cs).1

  -- `Iterator::next`: a character that no token begins with is an error.
  abbrev pub next_item : Scanned × List ℕ → Option Item
  next_item (Scanned.token t, rest) = some (Item.token t)
  next_item (Scanned.nothing, []) = none
  next_item (Scanned.nothing, c ∷ cs) = some Item.failure
  next_item (Scanned.failure, rest) = some Item.failure

  -- The items up to the first error, on fuel: a caller stops at an error.
  unfoldable pub items_from : ℕ → List ℕ → Option (List Item)
  items_from zero cs = none
  items_from (suc fuel) cs =
      let more = items_from fuel (scan cs).1 in
      elim (next_item (scan cs)) [
        | none ↦ some []
        | some item ↦ elim item [
          | Item.token t ↦ elim more [ none ↦ none | some items ↦ some (Item.token t ∷ items) ]
          | Item.failure ↦ some (Item.failure ∷ [])
        ]
      ]

  -- Each token takes a character.
  unfoldable pub items : List ℕ → Option (List Item)
  items cs = items_from (suc (length cs)) cs
