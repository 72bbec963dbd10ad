-- ===== src/Sql/Exec/Order/Lexicographic.antt =====
-- The order of two rows from those of their columns, for `Order::execute` of sql/executor/query.rs.
use sqlprimer.Prelude.{◌≡◌, ◌≢◌, refl, sym, ◌∙◌, Ordering}
use sqlprimer.Sql.Value.Order.{flip}
use sqlprimer.Sql.Value.Kinds.{lt_first, lt_last, gt_first, gt_last, Follows, Follows-flip}
use sqlprimer.Sql.Statement.{OrderDirection}

abbrev pub turn : OrderDirection → Ordering → Ordering
turn OrderDirection.asc o = o
turn OrderDirection.desc o = flip o

abbrev pub next_if_eq : Ordering → Ordering → Ordering
next_if_eq Ordering.eq p = p
next_if_eq o p = o

pub turn-Follows :
    (d : OrderDirection) (o p r : Ordering)
    → Follows o p r
    → Follows (turn d o) (turn d p) (turn d r)
turn-Follows OrderDirection.asc o p r h = h
turn-Follows OrderDirection.desc o p r h = Follows-flip o p r h

pub lexicographic :
    (o p r o' p' r' : Ordering)
    → Follows o p r
    → Follows o' p' r'
    → Follows (next_if_eq o o') (next_if_eq p p') (next_if_eq r r')
lexicographic Ordering.eq Ordering.eq r o' p' r' h k = rw h k
lexicographic Ordering.eq Ordering.lt r o' p' r' h k = rw h (lt_last o')
lexicographic Ordering.eq Ordering.gt r o' p' r' h k = rw h (gt_last o')
lexicographic Ordering.lt Ordering.gt r o' p' r' h k = tt
lexicographic Ordering.lt Ordering.eq r o' p' r' h k = rw h (lt_first p')
lexicographic Ordering.lt Ordering.lt r o' p' r' h k = rw h refl
lexicographic Ordering.gt Ordering.lt r o' p' r' h k = tt
lexicographic Ordering.gt Ordering.eq r o' p' r' h k = rw h (gt_first p')
lexicographic Ordering.gt Ordering.gt r o' p' r' h k = rw h refl

pub next_if_eq-flip :
    (d : OrderDirection) (o p : Ordering)
    → next_if_eq (turn d (flip o)) (flip p) ≡ flip (next_if_eq (turn d o) p)
next_if_eq-flip OrderDirection.asc Ordering.lt p = refl
next_if_eq-flip OrderDirection.asc Ordering.eq p = refl
next_if_eq-flip OrderDirection.asc Ordering.gt p = refl
next_if_eq-flip OrderDirection.desc Ordering.lt p = refl
next_if_eq-flip OrderDirection.desc Ordering.eq p = refl
next_if_eq-flip OrderDirection.desc Ordering.gt p = refl

pub Follows-not_gt :
    (o p r : Ordering) → Follows o p r → o ≢ Ordering.gt → p ≢ Ordering.gt → r ≢ Ordering.gt
Follows-not_gt Ordering.eq p r h n m e = m (sym h ∙ e)
Follows-not_gt Ordering.lt Ordering.gt r h n m e = m refl
Follows-not_gt Ordering.lt Ordering.eq r h n m e = cc
Follows-not_gt Ordering.lt Ordering.lt r h n m e = cc
Follows-not_gt Ordering.gt p r h n m e = n refl
