-- ===== src/Sql/Value/Order.antt =====
-- The order of values.
use sqlprimer.Prelude.{
  ℕ, ◌≡◌, refl, ap, Bool, true, false, Option, none, some, Ordering, compare, arith, Bool-cases,
  inl, inr, [], ◌∷◌,
}
use sqlprimer.Bytes.{Bytes, cmp}
use sqlprimer.Sql.Numbers.{ℤ, pos, negsuc, F64, compare_int, compare_float, is_nan, Floats}
use sqlprimer.Sql.Value.{Value, partial_cmp, compare_bool}

abbrev pub flip : Ordering → Ordering
flip Ordering.lt = Ordering.gt
flip Ordering.eq = Ordering.eq
flip Ordering.gt = Ordering.lt

abbrev pub flip_some : Option Ordering → Option Ordering
flip_some none = none
flip_some (some o) = some (flip o)

compare-flip : (m n : ℕ) → compare n m ≡ flip (compare m n)
compare-flip m n = ground arith

pub compare_int-flip : (x y : ℤ) → compare_int y x ≡ flip (compare_int x y)
unfolding compare_int
compare_int-flip (pos m) (pos n) = compare-flip m n
compare_int-flip (pos m) (negsuc n) = refl
compare_int-flip (negsuc m) (pos n) = refl
compare_int-flip (negsuc m) (negsuc n) = compare-flip n m

pub compare_float-flip : (x y : F64) → compare_float y x ≡ flip_some (compare_float x y)
unfolding compare_float
compare_float-flip x y = elim (Bool-cases (is_nan x)) [
  | inl p ↦ elim (Bool-cases (is_nan y)) [ inl q ↦ rw (p, q) | inr q ↦ rw (p, q) ]
  | inr p ↦ elim (Bool-cases (is_nan y)) [
    | inl q ↦ rw (p, q)
    | inr q ↦ rw (p, q) (ap some (compare_int-flip _ _))
  ]
]

pub cmp-flip : (a b : Bytes) → cmp b a ≡ flip (cmp a b)
unfolding cmp
cmp-flip [] [] = refl
cmp-flip [] (y ∷ b) = refl
cmp-flip (x ∷ a) [] = refl
cmp-flip (x ∷ a) (y ∷ b) = ground (arith, cmp-flip a b)

pub compare_bool-flip : (a b : Bool) → compare_bool b a ≡ flip (compare_bool a b)
unfolding compare_bool
compare_bool-flip false false = refl
compare_bool-flip false true = refl
compare_bool-flip true false = refl
compare_bool-flip true true = refl

-- Comparing two values the other way round gives the opposite answer, and no answer where there
-- was none; whatever the conversion of integers to floats.
pub partial_cmp-flip :
    (f : Floats) (a b : Value) → partial_cmp f b a ≡ flip_some (partial_cmp f a b)
unfolding partial_cmp
partial_cmp-flip f Value.null Value.null = refl
partial_cmp-flip f Value.null (Value.boolean b) = refl
partial_cmp-flip f Value.null (Value.integer b) = refl
partial_cmp-flip f Value.null (Value.float b) = refl
partial_cmp-flip f Value.null (Value.string b) = refl
partial_cmp-flip f (Value.boolean a) Value.null = refl
partial_cmp-flip f (Value.integer a) Value.null = refl
partial_cmp-flip f (Value.float a) Value.null = refl
partial_cmp-flip f (Value.string a) Value.null = refl
partial_cmp-flip f (Value.boolean a) (Value.boolean b) = ap some (compare_bool-flip a b)
partial_cmp-flip f (Value.boolean a) (Value.integer b) = refl
partial_cmp-flip f (Value.boolean a) (Value.float b) = refl
partial_cmp-flip f (Value.boolean a) (Value.string b) = refl
partial_cmp-flip f (Value.integer a) (Value.boolean b) = refl
partial_cmp-flip f (Value.integer a) (Value.integer b) = ap some (compare_int-flip a b)
partial_cmp-flip f (Value.integer a) (Value.float b) = compare_float-flip (f.of_int a) b
partial_cmp-flip f (Value.integer a) (Value.string b) = refl
partial_cmp-flip f (Value.float a) (Value.boolean b) = refl
partial_cmp-flip f (Value.float a) (Value.integer b) = compare_float-flip a (f.of_int b)
partial_cmp-flip f (Value.float a) (Value.float b) = compare_float-flip a b
partial_cmp-flip f (Value.float a) (Value.string b) = refl
partial_cmp-flip f (Value.string a) (Value.boolean b) = refl
partial_cmp-flip f (Value.string a) (Value.integer b) = refl
partial_cmp-flip f (Value.string a) (Value.float b) = refl
partial_cmp-flip f (Value.string a) (Value.string b) = ap some (cmp-flip a b)
