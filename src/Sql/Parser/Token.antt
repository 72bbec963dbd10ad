-- ===== src/Sql/Parser/Token.antt =====
-- sql/parser/lexer.rs: tokens and keywords.
pub mod Keywords
use sqlprimer.Prelude.{
  ℕ, Bool, true, false, Option, none, some, List, [], ◌∷◌, Outcome, ok, err, parse, ◌>>=◌,
  if◌then◌else◌,
}
use sqlprimer.Bytes.{Bytes}
use sqlprimer.OrderedMap.Lookup.{same}
use sqlprimer.Sql.Text.{ascii, Unicode, to_uppercase}
use sqlprimer.Sql.Numbers.{F64, Floats}
use sqlprimer.Sql.Expr.{Expression, Consts}

pub data Keyword : Type 0 where
  create : Keyword
  table : Keyword
  int : Keyword
  integer : Keyword
  boolean : Keyword
  bool : Keyword
  string : Keyword
  text : Keyword
  varchar : Keyword
  float : Keyword
  double : Keyword
  select : Keyword
  from : Keyword
  insert : Keyword
  into : Keyword
  values : Keyword
  true_ : Keyword
  false_ : Keyword
  default : Keyword
  not : Keyword
  null : Keyword
  primary : Keyword
  key : Keyword
  update : Keyword
  set : Keyword
  where_ : Keyword
  delete : Keyword
  order : Keyword
  by : Keyword
  asc : Keyword
  desc : Keyword
  limit : Keyword
  offset : Keyword
  as_ : Keyword
  cross : Keyword
  join : Keyword
  left : Keyword
  right : Keyword
  on : Keyword
  group : Keyword
  having : Keyword
  begin : Keyword
  commit : Keyword
  rollback : Keyword
  index : Keyword
  explain : Keyword
  drop : Keyword

unfoldable pub to_str : Keyword → Bytes
to_str Keyword.create = ascii "CREATE"
to_str Keyword.table = ascii "TABLE"
to_str Keyword.int = ascii "INT"
to_str Keyword.integer = ascii "INTEGER"
to_str Keyword.boolean = ascii "BOOLEAN"
to_str Keyword.bool = ascii "BOOL"
to_str Keyword.string = ascii "STRING"
to_str Keyword.text = ascii "TEXT"
to_str Keyword.varchar = ascii "VARCHAR"
to_str Keyword.float = ascii "FLOAT"
to_str Keyword.double = ascii "DOUBLE"
to_str Keyword.select = ascii "SELECT"
to_str Keyword.from = ascii "FROM"
to_str Keyword.insert = ascii "INSERT"
to_str Keyword.into = ascii "INTO"
to_str Keyword.values = ascii "VALUES"
to_str Keyword.true_ = ascii "TRUE"
to_str Keyword.false_ = ascii "FALSE"
to_str Keyword.default = ascii "DEFAULT"
to_str Keyword.not = ascii "NOT"
to_str Keyword.null = ascii "NULL"
to_str Keyword.primary = ascii "PRIMARY"
to_str Keyword.key = ascii "KEY"
to_str Keyword.update = ascii "UPDATE"
to_str Keyword.set = ascii "SET"
to_str Keyword.where_ = ascii "WHERE"
to_str Keyword.delete = ascii "DELETE"
to_str Keyword.order = ascii "ORDER"
to_str Keyword.by = ascii "BY"
to_str Keyword.asc = ascii "ASC"
to_str Keyword.desc = ascii "DESC"
to_str Keyword.limit = ascii "LIMIT"
to_str Keyword.offset = ascii "OFFSET"
to_str Keyword.as_ = ascii "AS"
to_str Keyword.cross = ascii "CROSS"
to_str Keyword.join = ascii "JOIN"
to_str Keyword.left = ascii "LEFT"
to_str Keyword.right = ascii "RIGHT"
to_str Keyword.on = ascii "ON"
to_str Keyword.group = ascii "GROUP"
to_str Keyword.having = ascii "HAVING"
to_str Keyword.begin = ascii "BEGIN"
to_str Keyword.commit = ascii "COMMIT"
to_str Keyword.rollback = ascii "ROLLBACK"
to_str Keyword.index = ascii "INDEX"
to_str Keyword.explain = ascii "EXPLAIN"
to_str Keyword.drop = ascii "DROP"

-- The arms of the match of `from_str`.
abbrev pub arms : List (Bytes × Keyword)
arms =
    (ascii "CREATE", Keyword.create)
    ∷ (ascii "TABLE", Keyword.table)
    ∷ (ascii "INT", Keyword.int)
    ∷ (ascii "INTEGER", Keyword.integer)
    ∷ (ascii "BOOLEAN", Keyword.boolean)
    ∷ (ascii "BOOL", Keyword.bool)
    ∷ (ascii "STRING", Keyword.string)
    ∷ (ascii "TEXT", Keyword.text)
    ∷ (ascii "VARCHAR", Keyword.varchar)
    ∷ (ascii "FLOAT", Keyword.float)
    ∷ (ascii "DOUBLE", Keyword.double)
    ∷ (ascii "SELECT", Keyword.select)
    ∷ (ascii "FROM", Keyword.from)
    ∷ (ascii "INSERT", Keyword.insert)
    ∷ (ascii "INTO", Keyword.into)
    ∷ (ascii "VALUES", Keyword.values)
    ∷ (ascii "TRUE", Keyword.true_)
    ∷ (ascii "FALSE", Keyword.false_)
    ∷ (ascii "DEFAULT", Keyword.default)
    ∷ (ascii "NOT", Keyword.not)
    ∷ (ascii "NULL", Keyword.null)
    ∷ (ascii "PRIMARY", Keyword.primary)
    ∷ (ascii "KEY", Keyword.key)
    ∷ (ascii "UPDATE", Keyword.update)
    ∷ (ascii "SET", Keyword.set)
    ∷ (ascii "WHERE", Keyword.where_)
    ∷ (ascii "DELETE", Keyword.delete)
    ∷ (ascii "ORDER", Keyword.order)
    ∷ (ascii "BY", Keyword.by)
    ∷ (ascii "ASC", Keyword.asc)
    ∷ (ascii "DESC", Keyword.desc)
    ∷ (ascii "LIMIT", Keyword.limit)
    ∷ (ascii "OFFSET", Keyword.offset)
    ∷ (ascii "AS", Keyword.as_)
    ∷ (ascii "CROSS", Keyword.cross)
    ∷ (ascii "JOIN", Keyword.join)
    ∷ (ascii "LEFT", Keyword.left)
    ∷ (ascii "RIGHT", Keyword.right)
    ∷ (ascii "ON", Keyword.on)
    ∷ (ascii "GROUP", Keyword.group)
    ∷ (ascii "HAVING", Keyword.having)
    ∷ (ascii "BEGIN", Keyword.begin)
    ∷ (ascii "COMMIT", Keyword.commit)
    ∷ (ascii "ROLLBACK", Keyword.rollback)
    ∷ (ascii "INDEX", Keyword.index)
    ∷ (ascii "EXPLAIN", Keyword.explain)
    ∷ (ascii "DROP", Keyword.drop)
    ∷ []

unfoldable pub first_arm : Bytes → List (Bytes × Keyword) → Option Keyword
first_arm word [] = none
first_arm word ((name, keyword) ∷ rest) =
    let later = first_arm word rest in if same word name then some keyword else later

unfoldable pub from_str : Unicode → Bytes → Option Keyword
from_str u word = first_arm (to_uppercase u word) arms

pub data Token : Type 0 where
  keyword : Keyword → Token
  ident : Bytes → Token
  string : Bytes → Token
  number : Bytes → Token
  open_paren : Token
  close_paren : Token
  comma : Token
  semicolon : Token
  asterisk : Token
  plus : Token
  minus : Token
  slash : Token
  equal : Token
  greater_than : Token
  less_than : Token

-- `==` of the derived `PartialEq`; keywords are the same where their texts are.
unfoldable pub same_token : Token → Token → Bool
unfolding to_str
same_token (Token.keyword k) (Token.keyword l) = same (to_str k) (to_str l)
same_token (Token.ident s) (Token.ident t) = same s t
same_token (Token.string s) (Token.string t) = same s t
same_token (Token.number s) (Token.number t) = same s t
same_token Token.open_paren Token.open_paren = true
same_token Token.close_paren Token.close_paren = true
same_token Token.comma Token.comma = true
same_token Token.semicolon Token.semicolon = true
same_token Token.asterisk Token.asterisk = true
same_token Token.plus Token.plus = true
same_token Token.minus Token.minus = true
same_token Token.slash Token.slash = true
same_token Token.equal Token.equal = true
same_token Token.greater_than Token.greater_than = true
same_token Token.less_than Token.less_than = true
same_token _ _ = false

unfoldable pub is_operator : Token → Bool
is_operator Token.plus = true
is_operator Token.minus = true
is_operator Token.asterisk = true
is_operator Token.slash = true
is_operator _ = false

unfoldable pub precedence : Token → ℕ
precedence Token.plus = 1
precedence Token.minus = 1
precedence Token.asterisk = 2
precedence Token.slash = 2
precedence _ = 0

module _ (f : Floats) where
  unfoldable pub compute : Token → F64 → F64 → Outcome F64
  compute Token.asterisk l r = ok (f.mul l r)
  compute Token.plus l r = ok (f.add l r)
  compute Token.minus l r = ok (f.sub l r)
  compute Token.slash l r = ok (f.div l r)
  compute _ l r = err parse

  -- The numbers that an operator takes.
  abbrev pub as_float : Expression → Outcome F64
  as_float (Expression.consts (Consts.integer n)) = ok (f.of_int n)
  as_float (Expression.consts (Consts.float x)) = ok x
  as_float _ = err parse

  unfoldable pub compute_expr : Token → Expression → Expression → Outcome Expression
  compute_expr token l r = do
    x ← as_float l
    y ← as_float r
    v ← compute token x y
    ok (Expression.consts (Consts.float v))
