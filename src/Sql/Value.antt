-- ===== src/Sql/Value.antt =====
-- sql/types/mod.rs: the values of a row.
pub mod Order
pub mod Kinds
use sqlprimer.Prelude.{ℕ, Bool, true, false, Option, none, some, List, compare, Ordering}
use sqlprimer.Bytes.{Bytes, cmp}
use sqlprimer.Sql.Numbers.{ℤ, F64, compare_int, compare_float, Floats}

pub data DataType : Type 0 where
  boolean : DataType
  integer : DataType
  float : DataType
  string : DataType

pub data Value : Type 0 where
  null : Value
  boolean : Bool → Value
  integer : ℤ → Value
  float : F64 → Value
  string : Bytes → Value

abbrev pub Row : Type 0
Row = List Value

unfoldable pub datatype : Value → Option DataType
datatype Value.null = none
datatype (Value.boolean x) = some DataType.boolean
datatype (Value.integer x) = some DataType.integer
datatype (Value.float x) = some DataType.float
datatype (Value.string x) = some DataType.string

-- `==` of the derived `PartialEq` of `DataType`.
abbrev pub same_type : DataType → DataType → Bool
same_type DataType.boolean DataType.boolean = true
same_type DataType.integer DataType.integer = true
same_type DataType.float DataType.float = true
same_type DataType.string DataType.string = true
same_type _ _ = false

-- `false` is below `true`.
unfoldable pub compare_bool : Bool → Bool → Ordering
compare_bool false false = Ordering.eq
compare_bool false true = Ordering.lt
compare_bool true false = Ordering.gt
compare_bool true true = Ordering.eq

module _ (f : Floats) where
  -- `partial_cmp` of `Value`.
  unfoldable pub partial_cmp : Value → Value → Option Ordering
  partial_cmp Value.null Value.null = some Ordering.eq
  partial_cmp Value.null _ = some Ordering.lt
  partial_cmp _ Value.null = some Ordering.gt
  partial_cmp (Value.boolean a) (Value.boolean b) = some (compare_bool a b)
  partial_cmp (Value.integer a) (Value.integer b) = some (compare_int a b)
  partial_cmp (Value.integer a) (Value.float b) = compare_float (f.of_int a) b
  partial_cmp (Value.float a) (Value.integer b) = compare_float a (f.of_int b)
  partial_cmp (Value.float a) (Value.float b) = compare_float a b
  partial_cmp (Value.string a) (Value.string b) = some (cmp a b)
  partial_cmp _ _ = none

abbrev pub is_eq : Option Ordering → Bool
is_eq (some Ordering.eq) = true
is_eq _ = false

-- `==` of the derived `PartialEq`: variants of two kinds differ, and a NaN differs from itself.
unfoldable pub equal : Value → Value → Bool
equal Value.null Value.null = true
equal (Value.boolean a) (Value.boolean b) = is_eq (some (compare_bool a b))
equal (Value.integer a) (Value.integer b) = is_eq (some (compare_int a b))
equal (Value.float a) (Value.float b) = is_eq (compare_float a b)
equal (Value.string a) (Value.string b) = is_eq (some (cmp a b))
equal _ _ = false
