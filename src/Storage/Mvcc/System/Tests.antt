-- ===== src/Storage/Mvcc/System/Tests.antt =====
-- Runs of interleaved transactions, from the tests of storage/mvcc.rs.
use sqlprimer.Prelude.{
  ℕ, ◌<◌, ◌≡◌, ◌≢◌, ◌⊎◌, refl, Option, none, some, List, [], ◌∷◌, arith, Outcome, ok, err,
  write_conflict, true, false, ◌^◌, All,
}
use sqlprimer.Bytes.{Bytes, cmp}
use sqlprimer.OrderedMap.{Map, lookup, insert, remove, range, keep, above, below, bad_range}
use sqlprimer.Storage.Engine.{scan_prefix}
use sqlprimer.Storage.Keycode.{
  to_be, from_be, escape, deserialize_u64, deserialize_byte_buf, next_bytes,
}
use sqlprimer.Storage.Memory.{MemoryEngine, new}
use sqlprimer.Storage.Mvcc.Monad.{for_each}
use sqlprimer.Storage.Mvcc.Key.{encode, encode_prefix, decode, txn_active, version}
use sqlprimer.Storage.Mvcc.State.{TransactionState, is_visible, insert_version, contains}
use sqlprimer.Storage.Mvcc.Bincode.{plain, plain-IsInverse}
use sqlprimer.Storage.Mvcc.Txn.{
  begin, commit, rollback, write_inner, get_value, collect_active, collect_keys, collect_writes,
  check_conflict, last,
}
use sqlprimer.Storage.Mvcc.System.{here, there, Step, begins, writes, commits, Reach, start, next}
use sqlprimer.Storage.Mvcc.Store.{IsStore}
use sqlprimer.Storage.Mvcc.Reads.{Reads}
use sqlprimer.Storage.Mvcc.Read.{get_value_lem}
use sqlprimer.Storage.Mvcc.Write.{IsBounded, Blocked, written, write_inner_lem}
use sqlprimer.Storage.Mvcc.Write.Effect.{get_value-write_inner}
use sqlprimer.Storage.Mvcc.Begin.{begin_lem, begun, NextIs, present}
use sqlprimer.Storage.Mvcc.System.Safety.{Reach-Inv, live-Apart, write_exclusion}
use sqlprimer.Storage.Mvcc.System.Isolation.{none_yet, and_then, repeatable_read}
use sqlprimer.Storage.Mvcc.System.Durability.{commit-get_value, rollback-erases}

abbrev done : Outcome (Unit {0})
done = ok tt

abbrev first : TransactionState
first = record { version = 1; active_versions = [] }

abbrev pub second : TransactionState
second = record { version = 2; active_versions = 1 ∷ [] }

abbrev pub m1 : Map Bytes
unfolding begin encode encode_prefix decode lookup insert range cmp to_be from_be escape
    deserialize_u64 deserialize_byte_buf scan_prefix bad_range collect_active keep above below
    insert_version next_bytes
m1 = (begin MemoryEngine plain new).1

abbrev pub m2 : Map Bytes
m2 = (begin MemoryEngine plain m1).1

abbrev pub m3 : Map Bytes
m3 = (write_inner MemoryEngine plain second (107 ∷ []) (some (9 ∷ [])) m2).1

abbrev m4 : Map Bytes
m4 = (commit MemoryEngine plain second m3).1

begin-first : begin MemoryEngine plain new ≡ (ok first, m1)
unfolding begin encode encode_prefix decode lookup insert range cmp to_be from_be escape
    deserialize_u64 deserialize_byte_buf scan_prefix bad_range collect_active keep above below
    insert_version next_bytes
begin-first = refl

begin-second : begin MemoryEngine plain m1 ≡ (ok second, m2)
unfolding begin encode encode_prefix decode lookup insert range cmp to_be from_be escape
    deserialize_u64 deserialize_byte_buf scan_prefix bad_range collect_active keep above below
    insert_version next_bytes
begin-second = refl

second_writes : write_inner MemoryEngine plain second (107 ∷ []) (some (9 ∷ [])) m2 ≡ (ok tt, m3)
unfolding write_inner begin encode encode_prefix decode lookup insert range cmp to_be from_be escape
    deserialize_u64 deserialize_byte_buf scan_prefix bad_range collect_active keep above below
    insert_version next_bytes check_conflict last is_visible
second_writes = refl

second_commits : commit MemoryEngine plain second m3 ≡ (ok tt, m4)
unfolding commit write_inner begin encode encode_prefix decode lookup insert remove range cmp to_be
    from_be escape deserialize_u64 deserialize_byte_buf scan_prefix bad_range collect_active keep
    above below insert_version next_bytes check_conflict last is_visible collect_keys for_each
second_commits = refl

two_begun : Reach plain (record { store = m2; live = second ∷ first ∷ [] })
two_begun =
    next (next start (begins first m1 begin-first (omega arith)))
      (begins second m2 begin-second (omega arith))

one_wrote :
    Step plain
      (record { store = m2; live = second ∷ first ∷ [] })
      (record { store = m3; live = second ∷ first ∷ [] })
one_wrote = writes second (107 ∷ []) (some (9 ∷ [])) (ok tt) m3 here (omega arith, tt) second_writes

one_committed :
    Step plain
      (record { store = m3; live = second ∷ first ∷ [] })
      (record { store = m4; live = first ∷ [] })
one_committed = commits second (ok tt) m4 here second_commits

second_ne_first : second ≢ first
second_ne_first e = cc

-- The first transaction reads the key as before although the second wrote it and committed.
repeatable_read_example :
    (r : Option Bytes) × (get_value MemoryEngine plain first (107 ∷ []) m2 ≡ (ok r, m2))
    × (get_value MemoryEngine plain first (107 ∷ []) m4 ≡ (ok r, m4))
unfolding one_wrote one_committed
repeatable_read_example = repeatable_read plain plain-IsInverse (107 ∷ []) two_begun (there here) (
    and_then one_wrote second_ne_first (there here)
      (and_then one_committed second_ne_first here none_yet))

wrote : Reach plain (record { store = m3; live = second ∷ first ∷ [] })
wrote = next two_begun one_wrote

abbrev third : TransactionState
third = record { version = 3; active_versions = 1 ∷ [] }

abbrev m5 : Map Bytes
m5 = (begin MemoryEngine plain m4).1

abbrev m6 : Map Bytes
m6 = (rollback MemoryEngine plain second m3).1

begin-third : begin MemoryEngine plain m4 ≡ (ok third, m5)
unfolding commit write_inner begin encode encode_prefix decode lookup insert remove range cmp to_be
    from_be escape deserialize_u64 deserialize_byte_buf scan_prefix bad_range collect_active keep
    above below insert_version next_bytes check_conflict last is_visible collect_keys collect_writes
    for_each
begin-third = refl

second_wrote :
    lookup (encode (version (107 ∷ []) 2)) m3 ≡ some (plain.serialize_value (some (9 ∷ [])))
unfolding write_inner begin encode encode_prefix decode lookup insert remove range cmp to_be from_be
    escape deserialize_u64 deserialize_byte_buf scan_prefix bad_range collect_active keep above
    below insert_version next_bytes check_conflict last is_visible collect_keys collect_writes
    for_each
second_wrote = refl

second_rolls_back : rollback MemoryEngine plain second m3 ≡ (ok tt, m6)
unfolding rollback write_inner begin encode encode_prefix decode lookup insert remove range cmp
    to_be from_be escape deserialize_u64 deserialize_byte_buf scan_prefix bad_range collect_active
    keep above below insert_version next_bytes check_conflict last is_visible collect_keys
    collect_writes for_each
second_rolls_back = refl

commit-get_value_example :
    (done ≡ ok tt) × (get_value MemoryEngine plain third (107 ∷ []) m5 ≡ (ok (some (9 ∷ [])), m5))
commit-get_value_example =
    commit-get_value plain plain-IsInverse (107 ∷ []) (some (9 ∷ [])) (ok tt) m4 m5 wrote here
      second_wrote second_commits begin-third

write_exclusion_example :
    (lookup (encode (version (107 ∷ []) 2)) m3 ≡ none)
    ⊎ (lookup (encode (version (107 ∷ []) 1)) m3 ≡ none)
write_exclusion_example = write_exclusion plain plain-IsInverse (107 ∷ []) wrote here here

live-Apart_example :
    (is_visible second 1 ≡ false) × (is_visible first 2 ≡ false) × (second.version ≢ first.version)
live-Apart_example = live-Apart plain plain-IsInverse wrote here here

rollback-erases_example :
    (done ≡ ok tt)
    × (lookup (encode (txn_active 2)) m6 ≡ none)
    × ((key : Bytes) → lookup (encode (version key 2)) m6 ≡ none)
    × ((key : Bytes) (w : ℕ)
        → w < 2 ^ 64
        → w ≢ 2
        → lookup (encode (version key w)) m6 ≡ lookup (encode (version key w)) m3)
rollback-erases_example =
    rollback-erases plain plain-IsInverse (ok tt) m6 wrote here second_rolls_back

pub IsStore-wrote : IsStore plain m3
IsStore-wrote = (Reach-Inv plain plain-IsInverse wrote).is_store

get_value_lem_example :
    (r : Option Bytes) × (get_value MemoryEngine plain second (107 ∷ []) m3 ≡ (ok r, m3))
    × Reads plain second (107 ∷ []) m3 r
get_value_lem_example =
    get_value_lem plain second (107 ∷ []) plain-IsInverse (omega arith) m3 IsStore-wrote

pub second-IsBounded : IsBounded second
second-IsBounded = record { version_fits = omega arith; active_fit = (omega arith, tt) }

first-IsBounded : IsBounded first
first-IsBounded = record { version_fits = omega arith; active_fit = tt }

write_inner_lem_example :
    (Blocked plain first (107 ∷ []) none m3
      × (write_inner MemoryEngine plain first (107 ∷ []) none m3 ≡ (err write_conflict, m3)))
    ⊎ ((¬ Blocked plain first (107 ∷ []) none m3)
        × (write_inner MemoryEngine plain first (107 ∷ []) none m3
            ≡ (ok tt, written plain first (107 ∷ []) none m3)))
write_inner_lem_example =
    write_inner_lem plain first (107 ∷ []) none first-IsBounded m3 IsStore-wrote

begin_lem_example :
    (n : ℕ) × (active : List ℕ) × NextIs plain m3 n
    × (begin MemoryEngine plain m3
        ≡ (ok (record { version = n; active_versions = active }), begun plain n m3))
    × All (λ w. w < 2 ^ 64) active
    × ((v : ℕ) → v < 2 ^ 64 → contains active v ≡ present (lookup (encode (txn_active v)) m3))
begin_lem_example = begin_lem plain plain-IsInverse m3 IsStore-wrote

pub second_sees_itself : is_visible second 2 ≡ true
unfolding is_visible contains
second_sees_itself = refl

IsStore-begun : IsStore plain m2
IsStore-begun = (Reach-Inv plain plain-IsInverse two_begun).is_store

get_value-write_inner_example :
    (get_value MemoryEngine plain second (107 ∷ []) m3 ≡ (ok (some (9 ∷ [])), m3))
    × ((o : TransactionState) (k : Bytes)
        → o.version < 2 ^ 64
        → is_visible o 2 ≡ false
        → get_value MemoryEngine plain o k m3 ≡ ((get_value MemoryEngine plain o k m2).0, m3))
get_value-write_inner_example =
    get_value-write_inner plain second (107 ∷ []) (some (9 ∷ [])) m2 m3 plain-IsInverse
      second-IsBounded second_sees_itself (omega arith, tt) IsStore-begun second_writes
