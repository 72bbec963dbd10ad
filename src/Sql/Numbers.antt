-- ===== src/Sql/Numbers.antt =====
-- The numbers of a value: `i64` as an integer, `f64` as its bit pattern.
use sqlprimer.Prelude.{
  ℕ, zero, suc, ◌-◌, ◌%◌, ◌^◌, Bool, ◌||◌, Option, none, some, List, compare, Ordering, ltb,
  if◌then◌else◌,
}

pub data ℤ : Type 0 where
  pos : ℕ → ℤ
  negsuc : ℕ → ℤ

unfoldable pub compare_int : ℤ → ℤ → Ordering
compare_int (pos m) (pos n) = compare m n
compare_int (pos m) (negsuc n) = Ordering.gt
compare_int (negsuc m) (pos n) = Ordering.lt
compare_int (negsuc m) (negsuc n) = compare n m

-- The 64 bits of an `f64`: a sign, 11 bits of exponent, 52 bits of fraction.
abbrev pub F64 : Type 0
F64 = ℕ

abbrev pub sign_bit : ℕ
sign_bit = 9223372036854775808

abbrev pub infinity : ℕ
infinity = 9218868437227405312

abbrev pub magnitude : F64 → ℕ
magnitude x = x % sign_bit

abbrev pub is_nan : F64 → Bool
is_nan x = ltb infinity (magnitude x)

abbrev pub negate : ℕ → ℤ
negate zero = pos 0
negate (suc n) = negsuc n

-- The bit patterns of the numbers, as integers in the order of the numbers; both zeros are 0.
abbrev pub ordinal : F64 → ℤ
ordinal x = if ltb x sign_bit then pos (magnitude x) else negate (magnitude x)

-- `partial_cmp` of `f64`: nothing compares with a NaN.
unfoldable pub compare_float : F64 → F64 → Option Ordering
unfolding compare_int
compare_float x y =
    if is_nan x || is_nan y then none else some (compare_int (ordinal x) (ordinal y))

-- The operations of `f64` that the program uses: `as f64`, `+`, `-`, `*`, `/`, `fract() == 0.0`,
-- `as i64`, and `parse` of digits, a point and digits.
pub record Floats : Type 0 where
  pub of_int : ℤ → F64
  pub of_text : List ℕ → F64
  pub add : F64 → F64 → F64
  pub sub : F64 → F64 → F64
  pub mul : F64 → F64 → F64
  pub div : F64 → F64 → F64
  pub is_whole : F64 → Bool
  pub to_int : F64 → ℤ

-- `as usize` of an `i64`: a negative number wraps.
unfoldable pub as_usize : ℤ → ℕ
as_usize (pos n) = n % 2 ^ 64
as_usize (negsuc n) = 2 ^ 64 - 1 - n % 2 ^ 64
