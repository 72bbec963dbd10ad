-- ===== src/Storage/Keycode/Escape.antt =====
-- Escaped byte strings (storage/keycode.rs).
use sqlprimer.Prelude.{
  zero, suc, ◌≡◌, refl, ap, Ordering, [], ◌∷◌, ◌++◌, append-nil, append_assoc, arith, ok,
}
use sqlprimer.Bytes.{Bytes, IsBytes, cmp}
use sqlprimer.Storage.Keycode.{escape, next_bytes, next_bytes_from}

next_bytes_from-escape :
    (res k rest : Bytes) → next_bytes_from res (escape k ++ 0 ∷ 0 ∷ rest) ≡ ok (res ++ k, rest)
unfolding next_bytes_from escape
next_bytes_from-escape res [] rest = rw append-nil
next_bytes_from-escape res (zero ∷ k) rest =
    rw (next_bytes_from-escape (res ++ 0 ∷ []) k rest, append_assoc)
next_bytes_from-escape res (suc b ∷ k) rest =
    rw (next_bytes_from-escape (res ++ suc b ∷ []) k rest, append_assoc)

-- What `serialize_bytes` wrote, `next_bytes` reads back, and leaves what follows.
pub next_bytes-escape : (k rest : Bytes) → next_bytes (escape k ++ 0 ∷ 0 ∷ rest) ≡ ok (k, rest)
unfolding next_bytes
next_bytes-escape k rest = next_bytes_from-escape [] k rest

-- One comparison, then another where the first finds no difference.
abbrev pub then_cmp : Ordering → Ordering → Ordering
then_cmp Ordering.lt second = Ordering.lt
then_cmp Ordering.eq second = second
then_cmp Ordering.gt second = Ordering.gt

-- Escaping and the end mark keep the order of byte strings, also where one is a prefix of the
-- other, and the order of what follows counts only where they are the same.
pub cmp-escape :
    (a b r s : Bytes)
    → cmp (escape a ++ 0 ∷ 0 ∷ r) (escape b ++ 0 ∷ 0 ∷ s) ≡ then_cmp (cmp a b) (cmp r s)
unfolding cmp escape
cmp-escape [] [] r s = refl
cmp-escape [] (zero ∷ b) r s = refl
cmp-escape [] (suc y ∷ b) r s = ground arith
cmp-escape (zero ∷ a) [] r s = refl
cmp-escape (zero ∷ a) (zero ∷ b) r s = cmp-escape a b r s
cmp-escape (zero ∷ a) (suc y ∷ b) r s = ground arith
cmp-escape (suc x ∷ a) [] r s = ground arith
cmp-escape (suc x ∷ a) (zero ∷ b) r s = ground arith
cmp-escape (suc x ∷ a) (suc y ∷ b) r s = ground (arith, cmp-escape a b r s)

pub escape-IsBytes : (k : Bytes) → IsBytes k → IsBytes (escape k)
unfolding escape
escape-IsBytes [] h = tt
escape-IsBytes (zero ∷ k) h = (omega arith, (omega arith, escape-IsBytes k h.1))
escape-IsBytes (suc b ∷ k) h = (h.0, escape-IsBytes k h.1)

pub escape-append : (a b : Bytes) → escape (a ++ b) ≡ escape a ++ escape b
unfolding escape
escape-append [] b = refl
escape-append (zero ∷ a) b = ap (λ t. 0 ∷ 255 ∷ t) (escape-append a b)
escape-append (suc x ∷ a) b = ap (λ t. suc x ∷ t) (escape-append a b)
