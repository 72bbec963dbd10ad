-- ===== src/Storage/Disk/Reopen/Finds.antt =====
-- `get` of storage/disk.rs on a log.
use sqlprimer.Prelude.{
  ◌+◌, ◌≡◌, inl, inr, refl, ap, sym, ◌∙◌, subst, Option, none, some, List, [], ◌∷◌, ◌++◌, length,
  length-append, append_assoc, ok, arith, Bool-cases,
}
use sqlprimer.Bytes.{Bytes}
use sqlprimer.OrderedMap.{Map, lookup}
use sqlprimer.OrderedMap.Lookup.{same, lookup-insert, lookup-remove}
use sqlprimer.Storage.Keycode.{to_be}
use sqlprimer.Storage.Keycode.BigEndian.{length-to_be}
use sqlprimer.Storage.Disk.{Place, DiskEngine, entry, read_value, get, as_u32}
use sqlprimer.Storage.Disk.Log.{read_value_of}
use sqlprimer.Storage.Disk.History.{Entry, replay, mean, encode_log}
use sqlprimer.Storage.Disk.Reopen.Build.{place, keydir_of}

-- Where the index and the meaning of the log agree on a key.
abbrev pub Agrees : Bytes → Option Place → Option Bytes → Type 0
Agrees file none none = Unit
Agrees file none (some v) = ⊥
Agrees file (some p) none = ⊥
Agrees file (some p) (some v) = read_value p.0 p.1 file ≡ ok v

regroup :
    (p a b c d e : Bytes) → p ++ ((a ++ b ++ c ++ d) ++ e) ≡ (p ++ (a ++ (b ++ c))) ++ (d ++ e)
regroup [] [] [] [] d e = refl
regroup [] [] [] (x ∷ c) d e = ap (λ t. x ∷ t) (regroup [] [] [] c d e)
regroup [] [] (x ∷ b) c d e = ap (λ t. x ∷ t) (regroup [] [] b c d e)
regroup [] (x ∷ a) b c d e = ap (λ t. x ∷ t) (regroup [] a b c d e)
regroup (x ∷ p) a b c d e = ap (λ t. x ∷ t) (regroup p a b c d e)

entry_parts :
    (key v : Bytes)
    → entry key (some v) ≡ to_be 4 (as_u32 (length key)) ++ to_be 4 (as_u32 (length v)) ++ key ++ v
unfolding entry
entry_parts key v = refl

value_at :
    (file pre post key v : Bytes)
    → file ≡ pre ++ (entry key (some v) ++ post)
    → read_value (length pre + 8 + length key) (length v) file ≡ ok v
value_at file pre post key v w =
    let ks = to_be 4 (as_u32 (length key)) in
    let vs = to_be 4 (as_u32 (length v)) in
    let before = pre ++ (ks ++ (vs ++ key)) in
    let split : file ≡ before ++ (v ++ post) =
      w ∙ ap (λ x. pre ++ (x ++ post)) (entry_parts key v) ∙ regroup pre ks vs key v post in
    read_value_of file before v post (length pre + 8 + length key) (length v) split
      (omega (
        arith,
        length-append pre (ks ++ (vs ++ key)),
        length-append ks (vs ++ key),
        length-append vs key,
        length-to_be 4 (as_u32 (length key)),
        length-to_be 4 (as_u32 (length v)),
      ))
      refl

place-Agrees :
    (file pre post : Bytes) (e : Entry) (keydir : Map Place) (m : Map Bytes)
    → file ≡ pre ++ (entry e.0 e.1 ++ post)
    → ((k : Bytes) → Agrees file (lookup k keydir) (lookup k m))
    → (k : Bytes) → Agrees file (lookup k (place (length pre) e keydir)) (lookup k (mean e m))
place-Agrees file pre post (key, none) keydir m w a k = elim (Bool-cases (same k key)) [
  | inl s ↦ rw (lookup-remove k key keydir, lookup-remove k key m, s) tt
  | inr s ↦ rw (lookup-remove k key keydir, lookup-remove k key m, s) (a k)
]
place-Agrees file pre post (key, some v) keydir m w a k = elim (Bool-cases (same k key)) [
  | inl s ↦
      rw
        (
          lookup-insert k key (length pre + 8 + length key, length v) keydir,
          lookup-insert k key v m,
          s,
        )
        (value_at file pre post key v w)
  | inr s ↦
      rw
        (
          lookup-insert k key (length pre + 8 + length key, length v) keydir,
          lookup-insert k key v m,
          s,
        )
        (a k)
]

pub keydir_of-Agrees :
    (file pre : Bytes) (es : List Entry) (keydir : Map Place) (m : Map Bytes)
    → file ≡ pre ++ encode_log es
    → ((k : Bytes) → Agrees file (lookup k keydir) (lookup k m))
    → (k : Bytes)
    → Agrees file (lookup k (keydir_of (length pre) es keydir)) (lookup k (replay es m))
unfolding keydir_of replay encode_log
keydir_of-Agrees file pre [] keydir m w a k = a k
keydir_of-Agrees file pre (e ∷ es) keydir m w a k =
    subst
      (λ n.
        Agrees file (lookup k (keydir_of n es (place (length pre) e keydir)))
          (lookup k (replay es (mean e m))))
      (length-append pre (entry e.0 e.1))
      (keydir_of-Agrees file (pre ++ entry e.0 e.1) es (place (length pre) e keydir) (mean e m)
        (w ∙ sym (append_assoc pre (entry e.0 e.1) (encode_log es)))
        (place-Agrees file pre (encode_log es) e keydir m w a) k)

pub get_of_Agrees :
    (d : DiskEngine) (k : Bytes) (o : Option Bytes)
    → Agrees d.file (lookup k d.keydir) o
    → get d k ≡ ok o
unfolding get
get_of_Agrees d k o a = go (lookup k d.keydir) refl o a
  where
    go :
        (p : Option Place)
        → lookup k d.keydir ≡ p
        → (o : Option Bytes) → Agrees d.file p o
        → get d k ≡ ok o
    go none e none h = rw (e, get)
    go none e (some v) h = absurd h
    go (some p) e none h = absurd h
    go (some p) e (some v) h = rw (e, get) (rw h)

pub nothing-Agrees : (file k : Bytes) → Agrees file (lookup k []) (lookup k [])
unfolding lookup
nothing-Agrees file k = tt
