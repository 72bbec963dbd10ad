-- ===== src/Sql/Parser/Token/Keywords.antt =====
-- The texts of the keywords (sql/parser/lexer.rs).
use sqlprimer.Prelude.{◌≡◌, refl, some}
use sqlprimer.Bytes.{cmp}
use sqlprimer.Sql.Text.{Unicode, is_ascii, to_uppercase}
use sqlprimer.Sql.Parser.Token.{Keyword, to_str, from_str, first_arm}

-- The text of each keyword is read as that keyword.
from_str-to_str : (u : Unicode) (k : Keyword) → from_str u (to_str k) ≡ some k
unfolding from_str to_str first_arm to_uppercase is_ascii cmp
from_str-to_str u Keyword.create = refl
from_str-to_str u Keyword.table = refl
from_str-to_str u Keyword.int = refl
from_str-to_str u Keyword.integer = refl
from_str-to_str u Keyword.boolean = refl
from_str-to_str u Keyword.bool = refl
from_str-to_str u Keyword.string = refl
from_str-to_str u Keyword.text = refl
from_str-to_str u Keyword.varchar = refl
from_str-to_str u Keyword.float = refl
from_str-to_str u Keyword.double = refl
from_str-to_str u Keyword.select = refl
from_str-to_str u Keyword.from = refl
from_str-to_str u Keyword.insert = refl
from_str-to_str u Keyword.into = refl
from_str-to_str u Keyword.values = refl
from_str-to_str u Keyword.true_ = refl
from_str-to_str u Keyword.false_ = refl
from_str-to_str u Keyword.default = refl
from_str-to_str u Keyword.not = refl
from_str-to_str u Keyword.null = refl
from_str-to_str u Keyword.primary = refl
from_str-to_str u Keyword.key = refl
from_str-to_str u Keyword.update = refl
from_str-to_str u Keyword.set = refl
from_str-to_str u Keyword.where_ = refl
from_str-to_str u Keyword.delete = refl
from_str-to_str u Keyword.order = refl
from_str-to_str u Keyword.by = refl
from_str-to_str u Keyword.asc = refl
from_str-to_str u Keyword.desc = refl
from_str-to_str u Keyword.limit = refl
from_str-to_str u Keyword.offset = refl
from_str-to_str u Keyword.as_ = refl
from_str-to_str u Keyword.cross = refl
from_str-to_str u Keyword.join = refl
from_str-to_str u Keyword.left = refl
from_str-to_str u Keyword.right = refl
from_str-to_str u Keyword.on = refl
from_str-to_str u Keyword.group = refl
from_str-to_str u Keyword.having = refl
from_str-to_str u Keyword.begin = refl
from_str-to_str u Keyword.commit = refl
from_str-to_str u Keyword.rollback = refl
from_str-to_str u Keyword.index = refl
from_str-to_str u Keyword.explain = refl
from_str-to_str u Keyword.drop = refl
