-- ===== src/Storage/Disk/Compact.antt =====
-- `compact` of storage/disk.rs.
use sqlprimer.Prelude.{
  ◌^◌, ◌<◌, ◌≡◌, refl, sym, ◌∙◌, none, some, List, [], ◌∷◌, length, ok, arith, ℕ, ◌≢◌, Bool-cases,
  inl, inr, All,
}
use sqlprimer.Bytes.{Bytes}
use sqlprimer.OrderedMap.{Map, insert, lookup}
use sqlprimer.OrderedMap.Lookup.{
  lookup-insert, same, eq_of_same, same_refl, lookup-insert_ne, lookup-head, lookup-tail,
  lookup-insert_self,
}
use sqlprimer.OrderedMap.Order.{IsOrdered, lookup-Above}
use sqlprimer.Storage.Disk.{
  Place, DiskEngine, read_value, write_entry, copy_values, compact, set, get, open_log, as_u32,
}
use sqlprimer.Storage.Disk.Log.{EntryFits}
use sqlprimer.Storage.Disk.History.{Entry, run, replay, encode_log, empty}
use sqlprimer.Storage.Disk.Reopen.{open_log-run}
use sqlprimer.Storage.Disk.Reopen.Finds.{Agrees, get_of_Agrees}

-- The values that the places of an index hold.
abbrev pub Holds : Bytes → Map Place → List Bytes → Type 0
Holds file [] [] = Unit
Holds file ((key, place) ∷ keydir) (v ∷ vs) =
    (read_value place.0 place.1 file ≡ ok v) × (as_u32 (length v) ≡ place.1) × Holds file keydir vs
Holds _ _ _ = ⊥

-- The calls of `set` that write them.
abbrev pub writes : Map Place → List Bytes → List Entry
writes ((key, place) ∷ keydir) (v ∷ vs) = (key, some v) ∷ writes keydir vs
writes _ _ = []

copy_one :
    (file : Bytes) (key : Bytes) (offset size : ℕ) (v : Bytes) (keydir : Map Place)
    (new : DiskEngine)
    → read_value offset size file ≡ ok v
    → as_u32 (length v) ≡ size
    → copy_values file ((key, (offset, size)) ∷ keydir) new
      ≡ copy_values file keydir (set new key v)
unfolding copy_values set write_entry
copy_one file key offset size v keydir new e q = rw (e, copy_values) (rw (sym q) refl)

copy_values_lem :
    (file : Bytes) (keydir : Map Place) (vs : List Bytes) (new : DiskEngine)
    → Holds file keydir vs
    → copy_values file keydir new ≡ ok (run (writes keydir vs) new)
unfolding copy_values run
copy_values_lem file [] [] new h = refl
copy_values_lem file [] (v ∷ vs) new h = absurd h
copy_values_lem file (e ∷ keydir) [] new h = absurd h
copy_values_lem file ((key, (offset, size)) ∷ keydir) (v ∷ vs) new (e, q, h) =
    copy_one file key offset size v keydir new e q ∙ copy_values_lem file keydir vs _ h

-- A key that the index does not have is not written.
unfound :
    (file : Bytes) (keydir : Map Place) (vs : List Bytes) (m : Map Bytes) (k : Bytes)
    → lookup k keydir ≡ none
    → lookup k (replay (writes keydir vs) m) ≡ lookup k m
unfolding replay lookup
unfound file [] [] m k n = refl
unfound file [] (v ∷ vs) m k n = refl
unfound file (e ∷ keydir) [] m k n = refl
unfound file ((key, place) ∷ keydir) (v ∷ vs) m k n =
    ground (arith, unfound file keydir vs (insert key v m) k, lookup-insert k key v m)

Agrees-head :
    (file key v : Bytes) (place : Place) (keydir : Map Place) (m n : Map Bytes) (k : Bytes)
    → k ≡ key
    → read_value place.0 place.1 file ≡ ok v
    → lookup key n ≡ lookup key (insert key v m)
    → Agrees file (lookup k ((key, place) ∷ keydir)) (lookup k n)
Agrees-head file key v place keydir m n k s e q =
    rw (s, lookup-head key place keydir, q, lookup-insert_self key v m) e

Agrees-tail :
    (file key v : Bytes) (place : Place) (keydir : Map Place) (n : Map Bytes) (k : Bytes)
    → k ≢ key
    → Agrees file (lookup k keydir) (lookup k n)
    → Agrees file (lookup k ((key, place) ∷ keydir)) (lookup k n)
Agrees-tail file key v place keydir n k s a = rw (lookup-tail k key place keydir s) a

-- The index and the log that is written agree.
agrees :
    (file : Bytes) (keydir : Map Place) (vs : List Bytes) (m : Map Bytes) (k : Bytes)
    → IsOrdered keydir
    → Holds file keydir vs
    → lookup k m ≡ none
    → Agrees file (lookup k keydir) (lookup k (replay (writes keydir vs) m))
unfolding replay lookup
agrees file [] [] m k o h n = rw n tt
agrees file [] (v ∷ vs) m k o h n = absurd h
agrees file (e ∷ keydir) [] m k o h n = absurd h
agrees file ((key, place) ∷ keydir) (v ∷ vs) m k o (e, q, h) n = elim (Bool-cases (same k key)) [
  | inl s ↦
      Agrees-head file key v place keydir m _ k (eq_of_same k key s) e
        (unfound file keydir vs (insert key v m) key (lookup-Above key keydir o.0))
  | inr s ↦
      let other : k ≢ key = λ z. cc (s, same_refl key, z) in
      Agrees-tail file key v place keydir _ k other
        (agrees file keydir vs (insert key v m) k o.1 h (lookup-insert_ne k key v m other ∙ n))
]

lookup_nil : (k : Bytes) → lookup {V = Bytes} k [] ≡ none
unfolding lookup
lookup_nil k = refl

-- Where the index is in key order, each place holds a value, and the entries written fit their fields
-- and the file: a compaction into an empty file succeeds, `get` gives for each key what it gave
-- before, and opening the new file again gives the compacted engine.
pub compact-get :
    (d : DiskEngine) (vs : List Bytes)
    → IsOrdered d.keydir
    → Holds d.file d.keydir vs
    → All EntryFits (writes d.keydir vs)
    → length (encode_log (writes d.keydir vs)) < 2 ^ 64
    → (c : DiskEngine) × (compact [] d ≡ ok c)
      × ((k : Bytes) → get c k ≡ get d k)
      × (open_log c.file ≡ ok c)
unfolding compact
compact-get d vs o h f l =
    let es = writes d.keydir vs in
    let (reopened, gets) = open_log-run es f l in
    (
      run es empty,
      copy_values_lem d.file d.keydir vs empty h,
      λ k.
          gets k
          ∙ sym (
              get_of_Agrees d k (lookup k (replay es []))
                (agrees d.file d.keydir vs [] k o h (lookup_nil k))),
      reopened,
    )
