-- ===== src/Storage/Disk/History.antt =====
-- Calls of `set` and `delete`, the log that they write, and what it means.
use sqlprimer.Prelude.{Option, none, some, List, [], ◌∷◌, ◌++◌}
use sqlprimer.Bytes.{Bytes}
use sqlprimer.OrderedMap.{Map, insert, remove}
use sqlprimer.Storage.Disk.{DiskEngine, entry, set, delete}

abbrev pub Entry : Type 0
Entry = Bytes × Option Bytes

-- What a log of entries is.
unfoldable pub encode_log : List Entry → Bytes
encode_log [] = []
encode_log (e ∷ es) = entry e.0 e.1 ++ encode_log es

abbrev pub run_one : Entry → DiskEngine → DiskEngine
run_one (key, some v) d = set d key v
run_one (key, none) d = delete d key

-- The calls of `set` and `delete` that write the entries.
unfoldable pub run : List Entry → DiskEngine → DiskEngine
run [] d = d
run (e ∷ es) d = run es (run_one e d)

abbrev pub mean : Entry → Map Bytes → Map Bytes
mean (key, some v) m = insert key v m
mean (key, none) m = remove key m

-- What the entries mean, last over first.
unfoldable pub replay : List Entry → Map Bytes → Map Bytes
replay [] m = m
replay (e ∷ es) m = replay es (mean e m)

-- The engine with an empty log.
abbrev pub empty : DiskEngine
empty = record { keydir = []; file = [] }
