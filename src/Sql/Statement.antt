-- ===== src/Sql/Statement.antt =====
-- The statements of sql/parser/ast.rs.
use sqlprimer.Prelude.{Bool, Option, List}
use sqlprimer.Bytes.{Bytes}
use sqlprimer.OrderedMap.{Map}
use sqlprimer.Sql.Value.{DataType}
use sqlprimer.Sql.Expr.{Expression}

pub data OrderDirection : Type 0 where
  asc : OrderDirection
  desc : OrderDirection

-- `ast::Column`: a column as it is written.
pub record ColumnDef : Type 0 where
  pub name : Bytes
  pub column_type : DataType
  pub nullable : Option Bool
  pub default : Option Expression
  pub primary_key : Bool
  pub index : Bool

pub data JoinType : Type 0 where
  cross : JoinType
  inner : JoinType
  left : JoinType
  right : JoinType

pub data FromItem : Type 0 where
  table : Bytes → FromItem
  join : FromItem → FromItem → JoinType → Option Expression → FromItem

pub record Selection : Type 0 where
  pub select : List (Expression × Option Bytes)
  pub from_item : FromItem
  pub where_clause : Option Expression
  pub group_by : Option Expression
  pub having : Option Expression
  pub order_by : List (Bytes × OrderDirection)
  pub limit : Option Expression
  pub offset : Option Expression

pub data Statement : Type 0 where
  create_table : Bytes → List ColumnDef → Statement
  insert : Bytes → Option (List Bytes) → List (List Expression) → Statement
  select : Selection → Statement
  update : Bytes → Map Expression → Option Expression → Statement
  delete : Bytes → Option Expression → Statement
  begin : Statement
  commit : Statement
  rollback : Statement
  explain : Statement → Statement
  drop_table : Bytes → Statement
