-- ===== src/Sql/Value/Kinds.antt =====
-- The order of the values of one type and NULL, without NaN.
use sqlprimer.Prelude.{ℕ, ◌≡◌, refl, ap, Bool, true, false, some, Ordering, compare, arith, [], ◌∷◌}
use sqlprimer.Bytes.{Bytes, cmp}
use sqlprimer.Sql.Numbers.{ordinal, F64, ℤ, pos, negsuc, compare_int, compare_float, is_nan, Floats}
use sqlprimer.Sql.Value.{DataType, Value, partial_cmp, compare_bool}
use sqlprimer.Sql.Value.Order.{flip}

-- A value of a type, or NULL; a float is a number.
pub data OfKind : DataType → Value → Type 0 where
  null : {k : DataType} → OfKind k Value.null
  boolean : (x : Bool) → OfKind DataType.boolean (Value.boolean x)
  integer : (x : ℤ) → OfKind DataType.integer (Value.integer x)
  float : (x : F64) → is_nan x ≡ false → OfKind DataType.float (Value.float x)
  string : (x : Bytes) → OfKind DataType.string (Value.string x)

-- What two comparisons in a row say of the comparison of the ends.
abbrev pub Follows : Ordering → Ordering → Ordering → Type 0
Follows Ordering.eq p r = r ≡ p
Follows Ordering.lt Ordering.gt r = Unit
Follows Ordering.gt Ordering.lt r = Unit
Follows Ordering.lt _ r = r ≡ Ordering.lt
Follows Ordering.gt _ r = r ≡ Ordering.gt

pub Follows-flip : (o p r : Ordering) → Follows o p r → Follows (flip o) (flip p) (flip r)
Follows-flip Ordering.eq p r h = ap flip h
Follows-flip Ordering.lt Ordering.gt r h = tt
Follows-flip Ordering.gt Ordering.lt r h = tt
Follows-flip Ordering.lt Ordering.lt r h = ap flip h
Follows-flip Ordering.lt Ordering.eq r h = ap flip h
Follows-flip Ordering.gt Ordering.gt r h = ap flip h
Follows-flip Ordering.gt Ordering.eq r h = ap flip h

compare-Follows : (x y z : ℕ) → Follows (compare x y) (compare y z) (compare x z)
compare-Follows x y z = ground arith

compare_int-Follows : (x y z : ℤ) → Follows (compare_int x y) (compare_int y z) (compare_int x z)
unfolding compare_int
compare_int-Follows (pos x) (pos y) (pos z) = compare-Follows x y z
compare_int-Follows (pos x) (pos y) (negsuc z) = ground arith
compare_int-Follows (pos x) (negsuc y) (pos z) = tt
compare_int-Follows (pos x) (negsuc y) (negsuc z) = ground arith
compare_int-Follows (negsuc x) (pos y) (pos z) = ground arith
compare_int-Follows (negsuc x) (pos y) (negsuc z) = tt
compare_int-Follows (negsuc x) (negsuc y) (pos z) = ground arith
compare_int-Follows (negsuc x) (negsuc y) (negsuc z) = ground arith

compare_bool-Follows :
    (x y z : Bool) → Follows (compare_bool x y) (compare_bool y z) (compare_bool x z)
unfolding compare_bool
compare_bool-Follows false false false = refl
compare_bool-Follows false false true = refl
compare_bool-Follows false true false = tt
compare_bool-Follows false true true = refl
compare_bool-Follows true false false = refl
compare_bool-Follows true false true = tt
compare_bool-Follows true true false = refl
compare_bool-Follows true true true = refl

cmp-Follows : (x y z : Bytes) → Follows (cmp x y) (cmp y z) (cmp x z)
unfolding cmp
cmp-Follows [] [] [] = refl
cmp-Follows [] [] (c ∷ z) = refl
cmp-Follows [] (b ∷ y) [] = tt
cmp-Follows [] (b ∷ y) (c ∷ z) = ground arith
cmp-Follows (a ∷ x) [] [] = refl
cmp-Follows (a ∷ x) [] (c ∷ z) = tt
cmp-Follows (a ∷ x) (b ∷ y) [] = ground arith
cmp-Follows (a ∷ x) (b ∷ y) (c ∷ z) = ground (arith, cmp-Follows x y z)

pub lt_first : (p : Ordering) → Follows Ordering.lt p Ordering.lt
lt_first Ordering.lt = refl
lt_first Ordering.eq = refl
lt_first Ordering.gt = tt

pub gt_first : (p : Ordering) → Follows Ordering.gt p Ordering.gt
gt_first Ordering.lt = tt
gt_first Ordering.eq = refl
gt_first Ordering.gt = refl

pub lt_last : (o : Ordering) → Follows o Ordering.lt Ordering.lt
lt_last Ordering.lt = refl
lt_last Ordering.eq = refl
lt_last Ordering.gt = tt

pub gt_last : (o : Ordering) → Follows o Ordering.gt Ordering.gt
gt_last Ordering.lt = tt
gt_last Ordering.eq = refl
gt_last Ordering.gt = refl

-- Three values of one type: each two compare, and the comparisons chain.
module _ (f : Floats) where
  abbrev Chain : Value → Value → Value → Type 0
  Chain a b c =
      (o : Ordering) × (p : Ordering) × (r : Ordering) × (partial_cmp f a b ≡ some o)
      × (partial_cmp f b c ≡ some p)
      × (partial_cmp f a c ≡ some r)
      × Follows o p r

  pub kinds-Chain :
      (k : DataType) (a b c : Value) → OfKind k a → OfKind k b → OfKind k c → Chain a b c
  unfolding partial_cmp compare_float
  kinds-Chain k _ _ _ OfKind.null OfKind.null OfKind.null =
      (Ordering.eq, Ordering.eq, Ordering.eq, refl, refl, refl, refl)
  kinds-Chain k _ _ _ OfKind.null OfKind.null (OfKind.boolean z) =
      (Ordering.eq, Ordering.lt, Ordering.lt, refl, refl, refl, refl)
  kinds-Chain k _ _ _ OfKind.null (OfKind.boolean y) OfKind.null =
      (Ordering.lt, Ordering.gt, Ordering.eq, refl, refl, refl, tt)
  kinds-Chain k _ _ _ OfKind.null (OfKind.boolean y) (OfKind.boolean z) =
      (Ordering.lt, compare_bool y z, Ordering.lt, refl, refl, refl, lt_first _)
  kinds-Chain k _ _ _ (OfKind.boolean x) OfKind.null OfKind.null =
      (Ordering.gt, Ordering.eq, Ordering.gt, refl, refl, refl, refl)
  kinds-Chain k _ _ _ (OfKind.boolean x) OfKind.null (OfKind.boolean z) =
      (Ordering.gt, Ordering.lt, compare_bool x z, refl, refl, refl, tt)
  kinds-Chain k _ _ _ (OfKind.boolean x) (OfKind.boolean y) OfKind.null =
      (compare_bool x y, Ordering.gt, Ordering.gt, refl, refl, refl, gt_last _)
  kinds-Chain k _ _ _ (OfKind.boolean x) (OfKind.boolean y) (OfKind.boolean z) = (
    compare_bool x y,
    compare_bool y z,
    compare_bool x z,
    refl,
    refl,
    refl,
    compare_bool-Follows x y z,
  )
  kinds-Chain k _ _ _ OfKind.null OfKind.null (OfKind.integer z) =
      (Ordering.eq, Ordering.lt, Ordering.lt, refl, refl, refl, refl)
  kinds-Chain k _ _ _ OfKind.null (OfKind.integer y) OfKind.null =
      (Ordering.lt, Ordering.gt, Ordering.eq, refl, refl, refl, tt)
  kinds-Chain k _ _ _ OfKind.null (OfKind.integer y) (OfKind.integer z) =
      (Ordering.lt, compare_int y z, Ordering.lt, refl, refl, refl, lt_first _)
  kinds-Chain k _ _ _ (OfKind.integer x) OfKind.null OfKind.null =
      (Ordering.gt, Ordering.eq, Ordering.gt, refl, refl, refl, refl)
  kinds-Chain k _ _ _ (OfKind.integer x) OfKind.null (OfKind.integer z) =
      (Ordering.gt, Ordering.lt, compare_int x z, refl, refl, refl, tt)
  kinds-Chain k _ _ _ (OfKind.integer x) (OfKind.integer y) OfKind.null =
      (compare_int x y, Ordering.gt, Ordering.gt, refl, refl, refl, gt_last _)
  kinds-Chain k _ _ _ (OfKind.integer x) (OfKind.integer y) (OfKind.integer z) = (
    compare_int x y,
    compare_int y z,
    compare_int x z,
    refl,
    refl,
    refl,
    compare_int-Follows x y z,
  )
  kinds-Chain k _ _ _ OfKind.null OfKind.null (OfKind.float z hz) =
      (Ordering.eq, Ordering.lt, Ordering.lt, refl, refl, refl, refl)
  kinds-Chain k _ _ _ OfKind.null (OfKind.float y hy) OfKind.null =
      (Ordering.lt, Ordering.gt, Ordering.eq, refl, refl, refl, tt)
  kinds-Chain k _ _ _ OfKind.null (OfKind.float y hy) (OfKind.float z hz) = (
    Ordering.lt,
    compare_int (ordinal y) (ordinal z),
    Ordering.lt,
    refl,
    rw (hy, hz) refl,
    refl,
    lt_first _,
  )
  kinds-Chain k _ _ _ (OfKind.float x hx) OfKind.null OfKind.null =
      (Ordering.gt, Ordering.eq, Ordering.gt, refl, refl, refl, refl)
  kinds-Chain k _ _ _ (OfKind.float x hx) OfKind.null (OfKind.float z hz) = (
    Ordering.gt,
    Ordering.lt,
    compare_int (ordinal x) (ordinal z),
    refl,
    refl,
    rw (hx, hz) refl,
    tt,
  )
  kinds-Chain k _ _ _ (OfKind.float x hx) (OfKind.float y hy) OfKind.null = (
    compare_int (ordinal x) (ordinal y),
    Ordering.gt,
    Ordering.gt,
    rw (hx, hy) refl,
    refl,
    refl,
    gt_last _,
  )
  kinds-Chain k _ _ _ (OfKind.float x hx) (OfKind.float y hy) (OfKind.float z hz) = (
    compare_int (ordinal x) (ordinal y),
    compare_int (ordinal y) (ordinal z),
    compare_int (ordinal x) (ordinal z),
    rw (hx, hy) refl,
    rw (hy, hz) refl,
    rw (hx, hz) refl,
    compare_int-Follows (ordinal x) (ordinal y) (ordinal z),
  )
  kinds-Chain k _ _ _ OfKind.null OfKind.null (OfKind.string z) =
      (Ordering.eq, Ordering.lt, Ordering.lt, refl, refl, refl, refl)
  kinds-Chain k _ _ _ OfKind.null (OfKind.string y) OfKind.null =
      (Ordering.lt, Ordering.gt, Ordering.eq, refl, refl, refl, tt)
  kinds-Chain k _ _ _ OfKind.null (OfKind.string y) (OfKind.string z) =
      (Ordering.lt, cmp y z, Ordering.lt, refl, refl, refl, lt_first _)
  kinds-Chain k _ _ _ (OfKind.string x) OfKind.null OfKind.null =
      (Ordering.gt, Ordering.eq, Ordering.gt, refl, refl, refl, refl)
  kinds-Chain k _ _ _ (OfKind.string x) OfKind.null (OfKind.string z) =
      (Ordering.gt, Ordering.lt, cmp x z, refl, refl, refl, tt)
  kinds-Chain k _ _ _ (OfKind.string x) (OfKind.string y) OfKind.null =
      (cmp x y, Ordering.gt, Ordering.gt, refl, refl, refl, gt_last _)
  kinds-Chain k _ _ _ (OfKind.string x) (OfKind.string y) (OfKind.string z) =
      (cmp x y, cmp y z, cmp x z, refl, refl, refl, cmp-Follows x y z)
