-- ===== src/Sql.antt =====
-- sql/: values, expressions, tables, plans and their execution.
pub mod Text
pub mod Numbers
pub mod Value
pub mod Expr
pub mod Schema
pub mod Rows
pub mod Display
pub mod Transaction
pub mod Statement
pub mod Plan
pub mod Exec
pub mod Kv
pub mod Session
pub mod Parser
pub mod Tests
