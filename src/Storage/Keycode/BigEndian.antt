-- ===== src/Storage/Keycode/BigEndian.antt =====
-- Big-endian words (storage/keycode.rs).
use native.Mathlib.Nat.{div-add-mod, mod-lt, pow-suc}
use sqlprimer.Prelude.{
  ℕ, zero, suc, ◌+◌, ◌*◌, ◌/◌, ◌%◌, ◌^◌, ◌<◌, ◌≤◌, ◌≡◌, refl, compare, Ordering, length, ap, arith,
}
use sqlprimer.Bytes.{IsBytes, cmp}
use sqlprimer.Storage.Keycode.{to_be, from_be}

pub length-to_be : (w v : ℕ) → length (to_be w v) ≡ w
unfolding to_be
length-to_be zero v = refl
length-to_be (suc w) v = ap suc (length-to_be w (v % 256 ^ w))

pow_pos : (w : ℕ) → 0 < 256 ^ w
pow_pos zero = omega arith
pow_pos (suc w) = omega (arith, pow_pos w, pow-suc 256 w)

mod-lt_pow : (w v : ℕ) → v % 256 ^ w < 256 ^ w
mod-lt_pow w v = grind (arith, pow_pos w)

pub to_be-IsBytes : (w v : ℕ) → v < 256 ^ w → IsBytes (to_be w v)
unfolding to_be
to_be-IsBytes zero v h = tt
to_be-IsBytes (suc w) v h = (
  grind (arith, pow_pos w, pow-suc 256 w, h),
  to_be-IsBytes w (v % 256 ^ w) (grind (arith, pow_pos w)),
)

-- Reading the bytes of a word of `w` bytes gives the number back, if it fits the word.
pub from_be-to_be : (w v : ℕ) → v < 256 ^ w → from_be (to_be w v) ≡ v
unfolding to_be from_be
from_be-to_be zero v h = omega arith
from_be-to_be (suc w) v h =
    rw (length-to_be, from_be-to_be w (v % 256 ^ w) (mod-lt_pow w v)) (grind arith)

mul_gap : (q r p : ℕ) → q < r → p * q + p ≤ p * r
mul_gap q r p h = grind arith

lt_of_div-lt : (a b p : ℕ) → 0 < p → a / p < b / p → a < b
lt_of_div-lt a b p h k =
    omega
      (arith, mul_gap (a / p) (b / p) p k, div-add-mod a p, div-add-mod b p, mod-lt a h, mod-lt b h)

lt_of_mod-lt : (a b p : ℕ) → 0 < p → a / p ≡ b / p → a % p < b % p → a < b
lt_of_mod-lt a b p h e k = omega (arith, div-add-mod a p, div-add-mod b p, ap (λ (t : ℕ). p * t) e)

-- Numbers compare as their quotients, then as their remainders.
compare_div_mod :
    (a b p : ℕ)
    → 0 < p
    → elim (compare (a / p) (b / p)) [
      | Ordering.lt ↦ Ordering.lt
      | Ordering.eq ↦ compare (a % p) (b % p)
      | Ordering.gt ↦ Ordering.gt
    ]
      ≡ compare a b
compare_div_mod a b p h = ground (
  arith,
  lt_of_div-lt a b p h,
  lt_of_div-lt b a p h,
  lt_of_mod-lt a b p h,
  lt_of_mod-lt b a p h,
  div-add-mod a p,
  div-add-mod b p,
)

-- Big-endian words of one width compare as the numbers do that they stand for.
pub cmp-to_be : (w a b : ℕ) → a < 256 ^ w → b < 256 ^ w → cmp (to_be w a) (to_be w b) ≡ compare a b
unfolding to_be cmp
cmp-to_be zero a b h k = ground arith
cmp-to_be (suc w) a b h k = ground (
  arith,
  cmp-to_be w (a % 256 ^ w) (b % 256 ^ w) (mod-lt_pow w a) (mod-lt_pow w b),
  compare_div_mod a b (256 ^ w) (pow_pos w),
)
