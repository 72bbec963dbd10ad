-- ===== src/Lib.antt =====
-- sqlprimer, a small SQL database: a SQL layer over transactions over a key-value engine.
--
-- The parts, from the bottom:
--   src/error.rs             Prelude.Outcomes: the error kinds without their messages, `Result`,
--                            and a third outcome, `panic`, for `unwrap`, `expect`, `unreachable!`,
--                            an index out of range and a bad range of a `BTreeMap`.
--   src/storage/engine.rs    Storage.Engine: the trait `Engine` as a record of operations, the
--                            provided `scan_prefix`, and the laws that clients rely on (IsLawful).
--                            A `BTreeMap` is an ordered association list (OrderedMap), a key a list
--                            of bytes in lexicographic order (Bytes).
--   src/storage/memory.rs    Storage.Memory: the engine over an ordered map.
--   src/storage/disk.rs      Storage.Disk: the engine over a log file, which is the list of its bytes.
--                            Disk.History is a sequence of calls and what it means, Disk.Reopen
--                            what opening its log again gives, Disk.Compact what compacting it gives.
--   src/storage/keycode.rs   Storage.Keycode: the serde format of the keys, as functions on bytes.
--   src/storage/mvcc.rs      Storage.Mvcc: keys (Key), a transaction's view (State), its methods over
--                            any engine (Txn), each a function from the engine's state to an outcome
--                            and a state (Monad), for a method holds the engine's mutex to its end.
--                            Store is the invariant of a store; Read, Write, Finish and Begin say what
--                            each method does; System is the relation of the interleaved calls.
--   src/sql/types/mod.rs     Sql.Numbers, Sql.Value: values. An `i64` is an integer, an `f64` its bit
--                            pattern, compared by its bits.
--   src/sql/parser/ast.rs    Sql.Expr, Sql.Statement: expressions, `evaluate_expr`, statements.
--   src/sql/schema.rs        Sql.Schema: tables, `validate`, `get_primary_key`.
--   src/sql/engine/mod.rs    Sql.Transaction: the trait `Transaction` as a record of methods.
--                            Sql.Session: `Session::execute`; a session is the state of the engine
--                            and the transaction that it is in.
--   src/sql/engine/kv.rs     Sql.Kv: the keys of tables, rows and indexes (Key), what a method uses of
--                            a storage transaction (Store), which mvcc.rs provides (Mvcc), and the
--                            methods of `KVTransaction` (Txn). Tables, Create and Delete say what some
--                            of them do, Indexes what happens to the indexes.
--   src/sql/parser/          Sql.Parser: the lexer (Token, Lexer) as the items that it gives on a text,
--                            with a fuel of one more than there are characters; the parser (Grammar) as
--                            actions on the items that are left, with a fuel of one more than there
--                            are items. Where a fuel ran out the parser would panic; Lexer.Ends and
--                            Total are about that. Arithmetic is the value of a sum of products
--                            of literals.
--   src/sql/plan/            Sql.Plan: the nodes of a plan, the planner, and the text of a plan
--                            (Display).
--   src/sql/executor/        Sql.Exec, Sql.Rows: each executor as a function of what its source gave;
--                            Sql.Exec.Execute runs the executor of each node,
--                            Sql.Exec.Display gives the text of a result set. Order.Sorted is about
--                            the order that ORDER BY promises, by the order of values of one type
--                            (Sql.Value.Kinds).
--   standard library         Sql.Text: characters and texts; Sql.Display: the text of values,
--                            expressions and tables.
--
-- Transactions share one engine and nothing else. A run of a system is a sequence of calls, each by
-- one of the running transactions; a reachable system is one that such a run leads to from a new
-- store. Versions are `u64`s, and `begin` is a step of a run only while the version after it is one:
-- that bound is reached after 2^64 transactions.
--
-- Parameters: bincode (Storage.Mvcc.Bincode, Sql.Kv.Codec), of which it is assumed that deserializing
-- undoes serializing; the `f64` operations (Sql.Numbers.Floats) and the text of an `f64`; the tables of
-- Unicode beyond ASCII (Sql.Text.Unicode); and the order in which a `HashMap` gives its entries
-- (`arrange`): of these nothing is assumed; and `sort_by` of the standard library (Sql.Exec.Sort), of
-- which it is assumed that it sorts by a comparison that is a total order of the elements.
--
-- A loop is a recursion on the list that it runs through, but for those of the lexer and the parser
-- (above) and for the loop of `build_keydir`, which has one unit of fuel for each byte of the file and
-- one more: an entry has at least 8 bytes, so that is enough for every log that the engine writes.
--
-- Not modelled: the text of errors; the client and the server, which are input and output.
mod Prelude
pub mod Bytes
pub mod OrderedMap
pub mod Storage
pub mod Sql
