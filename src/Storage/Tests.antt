-- ===== src/Storage/Tests.antt =====
-- The encodings and the engine in memory on concrete inputs.
use sqlprimer.Prelude.{
  ◌<◌, ◌^◌, List, none, some, All, length, ◌≡◌, refl, ◌++◌, [], ◌∷◌, map, arith, ok, compare,
}
use sqlprimer.Bytes.{Bytes, cmp, starts_with}
use sqlprimer.OrderedMap.{keep}
use sqlprimer.OrderedMap.{lookup, insert, remove}
use sqlprimer.Storage.Disk.{
  DiskEngine, open_log, get, entry, set, delete, write_entry, read_value, compact,
}
use sqlprimer.Storage.Disk.Compact.{compact-get}
use sqlprimer.Storage.Disk.Log.{EntryFits}
use sqlprimer.Storage.Disk.History.{Entry, encode_log, run, replay, empty}
use sqlprimer.Storage.Disk.Reopen.{open_log-run}
use sqlprimer.Storage.Engine.{scan_prefix}
use sqlprimer.Storage.Engine.Scan.{scan_prefix_lem}
use sqlprimer.Storage.Memory.{MemoryEngine, MemoryEngine-IsLawful}
use sqlprimer.Storage.Keycode.{to_be, escape, next_bytes, serialize_u64, deserialize_u64}
use sqlprimer.Storage.Keycode.Escape.{next_bytes-escape, cmp-escape, then_cmp}
use sqlprimer.Storage.Mvcc.Key.{encode, decode, version}
use sqlprimer.Storage.Mvcc.Key.Codec.{
  decode-encode, cmp-encode, compare_key, deserialize_u64-serialize_u64, cmp-serialize_u64,
}

deserialize_u64-serialize_u64_example :
    (input : Bytes) × (serialize_u64 259 (1 ∷ []) ++ 5 ∷ [] ≡ 1 ∷ input)
    × (deserialize_u64 input ≡ ok (259, 5 ∷ []))
deserialize_u64-serialize_u64_example =
    deserialize_u64-serialize_u64 259 (1 ∷ []) (5 ∷ []) (omega arith)

cmp-serialize_u64_example :
    cmp (serialize_u64 255 (1 ∷ []) ++ 9 ∷ []) (serialize_u64 256 (1 ∷ []) ++ 5 ∷ [])
    ≡ then_cmp (compare 255 256) (cmp (9 ∷ []) (5 ∷ []))
cmp-serialize_u64_example =
    cmp-serialize_u64 255 256 (1 ∷ []) (9 ∷ []) (5 ∷ []) (omega arith) (omega arith)

next_bytes-escape_example :
    next_bytes (escape (7 ∷ 0 ∷ 8 ∷ []) ++ 0 ∷ 0 ∷ 5 ∷ []) ≡ ok (7 ∷ 0 ∷ 8 ∷ [], 5 ∷ [])
next_bytes-escape_example = next_bytes-escape (7 ∷ 0 ∷ 8 ∷ []) (5 ∷ [])

cmp-escape_example :
    cmp (escape (7 ∷ 0 ∷ []) ++ 0 ∷ 0 ∷ 1 ∷ []) (escape (7 ∷ []) ++ 0 ∷ 0 ∷ 2 ∷ [])
    ≡ then_cmp (cmp (7 ∷ 0 ∷ []) (7 ∷ [])) (cmp (1 ∷ []) (2 ∷ []))
cmp-escape_example = cmp-escape (7 ∷ 0 ∷ []) (7 ∷ []) (1 ∷ []) (2 ∷ [])

decode-encode_example : decode (encode (version (107 ∷ 0 ∷ []) 3)) ≡ ok (version (107 ∷ 0 ∷ []) 3)
decode-encode_example = decode-encode (version (107 ∷ 0 ∷ []) 3) (omega arith)

cmp-encode_example :
    cmp (encode (version (107 ∷ []) 300)) (encode (version (107 ∷ []) 2))
    ≡ compare_key (version (107 ∷ []) 300) (version (107 ∷ []) 2)
cmp-encode_example =
    cmp-encode (version (107 ∷ []) 300) (version (107 ∷ []) 2) (omega arith) (omega arith)

two_entries_ordered : MemoryEngine-IsLawful.IsValid ((1 ∷ 2 ∷ [], 5 ∷ []) ∷ (3 ∷ [], 6 ∷ []) ∷ [])
unfolding cmp
two_entries_ordered = ((refl, tt), (tt, tt))

scan_prefix_lem_example :
    scan_prefix MemoryEngine ((1 ∷ 2 ∷ [], 5 ∷ []) ∷ (3 ∷ [], 6 ∷ []) ∷ []) (1 ∷ [])
    ≡ ok (map ok (keep (starts_with (1 ∷ [])) ((1 ∷ 2 ∷ [], 5 ∷ []) ∷ (3 ∷ [], 6 ∷ []) ∷ [])))
scan_prefix_lem_example =
    scan_prefix_lem MemoryEngine MemoryEngine-IsLawful
      ((1 ∷ 2 ∷ [], 5 ∷ []) ∷ (3 ∷ [], 6 ∷ []) ∷ []) (1 ∷ []) two_entries_ordered (omega arith, tt)
      ((omega arith, (omega arith, tt)), ((omega arith, tt), tt))

-- A key is set twice, and another is set and deleted.
abbrev history : List Entry
history =
    (1 ∷ [], some (5 ∷ []))
    ∷ (2 ∷ [], some (6 ∷ 7 ∷ []))
    ∷ (1 ∷ [], some (8 ∷ []))
    ∷ (2 ∷ [], none)
    ∷ []

history_fits : All EntryFits history
history_fits = (
  (omega arith, omega arith),
  ((omega arith, omega arith), ((omega arith, omega arith), (omega arith, tt))),
)

history_small : length (encode_log history) < 2 ^ 64
unfolding encode_log entry to_be
history_small = omega arith

open_log-run_example :
    (open_log (run history empty).file ≡ ok (run history empty))
    × ((k : Bytes) → get (run history empty) k ≡ ok (lookup k (replay history [])))
open_log-run_example = open_log-run history history_fits history_small

compact-get_example :
    (c : DiskEngine) × (compact [] (run history empty) ≡ ok c)
    × ((k : Bytes) → get c k ≡ get (run history empty) k)
    × (open_log c.file ≡ ok c)
unfolding run set delete write_entry insert remove read_value encode_log entry to_be cmp
compact-get_example =
    compact-get (run history empty) ((8 ∷ []) ∷ []) (tt, tt) (refl, refl, tt)
      ((omega arith, omega arith), tt) (omega arith)
