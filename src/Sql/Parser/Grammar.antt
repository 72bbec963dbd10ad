-- ===== src/Sql/Parser/Grammar.antt =====
-- `Parser` of sql/parser/mod.rs, over the items of the lexer. The recursion is on fuel; where that
-- ran out a parser would panic.
pub mod Expressions
pub mod Clauses
pub mod Statements
use sqlprimer.Prelude.{
  ℕ, zero, suc, Bool, true, false, Option, none, some, List, [], ◌∷◌, Outcome, ok, err, panic,
  parse, if◌then◌else◌,
}
use sqlprimer.Bytes.{Bytes}
use sqlprimer.Storage.Mvcc.Monad.{Act, pure, lift, ◌>>=◌, ◌>>◌}
use sqlprimer.Sql.Value.{DataType}
use sqlprimer.Sql.Parser.Token.{Keyword, Token, same_token}
use sqlprimer.Sql.Parser.Lexer.{Item}

-- A method of the parser: the state is what the lexer has yet to give.
abbrev pub Parser : Type 0 → Type 0
Parser = Act (List Item)

unfoldable pub peek : Parser (Option Token)
peek [] = (ok none, [])
peek (Item.token t ∷ s) = (ok (some t), Item.token t ∷ s)
peek (Item.failure ∷ s) = (err parse, Item.failure ∷ s)

unfoldable pub next : Parser Token
next [] = (err parse, [])
next (Item.token t ∷ s) = (ok t, s)
next (Item.failure ∷ s) = (err parse, s)

-- An error of the lexer is left for the next call.
unfoldable pub next_if : (Token → Bool) → Parser (Option Token)
next_if predicate [] = (ok none, [])
next_if predicate (Item.token t ∷ s) =
    if predicate t then (ok (some t), s) else (ok none, Item.token t ∷ s)
next_if predicate (Item.failure ∷ s) = (ok none, Item.failure ∷ s)

abbrev pub is_keyword : Token → Bool
is_keyword (Token.keyword k) = true
is_keyword _ = false

unfoldable pub next_if_keyword : Parser (Option Token)
next_if_keyword = next_if is_keyword

unfoldable pub next_if_token : Token → Parser (Option Token)
next_if_token token = next_if (λ t. same_token t token)

abbrev pub ident_of : Token → Outcome Bytes
ident_of (Token.ident name) = ok name
ident_of _ = err parse

unfoldable pub next_ident : Parser Bytes
unfolding ◌>>=◌
next_ident = do token ← next; lift (ident_of token)

abbrev pub datatype_of : Token → Outcome DataType
datatype_of (Token.keyword Keyword.bool) = ok DataType.boolean
datatype_of (Token.keyword Keyword.boolean) = ok DataType.boolean
datatype_of (Token.keyword Keyword.int) = ok DataType.integer
datatype_of (Token.keyword Keyword.integer) = ok DataType.integer
datatype_of (Token.keyword Keyword.float) = ok DataType.float
datatype_of (Token.keyword Keyword.double) = ok DataType.float
datatype_of (Token.keyword Keyword.string) = ok DataType.string
datatype_of (Token.keyword Keyword.text) = ok DataType.string
datatype_of (Token.keyword Keyword.varchar) = ok DataType.string
datatype_of _ = err parse

unfoldable pub next_datatype : Parser DataType
unfolding ◌>>=◌
next_datatype = do token ← next; lift (datatype_of token)

unfoldable pub next_expect : Token → Parser (Unit {0})
unfolding ◌>>=◌
next_expect expected = do
  token ← next
  lift (if same_token token expected then ok tt else err parse)

-- What follows where an optional token was there, and where it was not.
abbrev pub if_some : {A : Type 0} → Option Token → Parser A → Parser A → Parser A
if_some (some t) present absent = present
if_some none present absent = absent
