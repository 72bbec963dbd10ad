-- ===== src/Storage/Disk.antt =====
-- storage/disk.rs: the engine over a log file, with the index of the values in memory. The file is
-- the list of its bytes; the path, the lock and the creation of directories are left out.
pub mod Log
pub mod History
pub mod Reopen
pub mod Compact
use sqlprimer.Prelude.{
  ℕ, zero, suc, ◌+◌, ◌-◌, ◌%◌, ◌^◌, Bool, true, false, Option, none, some, List, [], ◌∷◌, ◌++◌,
  length, take, drop, leb, ltb, ◌==◌, if◌then◌else◌, Outcome, ok, err, panic, internal, ◌>>=◌,
}
use sqlprimer.Bytes.{Bytes}
use sqlprimer.OrderedMap.{Map, Bound, lookup, insert, remove, range}
use sqlprimer.Storage.Keycode.{to_be, from_be}

-- Where a value stands in the file, and its size.
abbrev pub Place : Type 0
Place = ℕ × ℕ

-- The `keydir` and the log file.
pub record DiskEngine : Type 0 where
  pub keydir : Map Place
  pub file : Bytes

-- `as u32`; an `i32` is its 32 bits, and -1 is all ones.
abbrev pub as_u32 : ℕ → ℕ
as_u32 n = n % 2 ^ 32

abbrev pub minus_one : ℕ
minus_one = 4294967295

-- An `i32` as a `u64` keeps its sign.
abbrev pub sign_extend : ℕ → ℕ
sign_extend n = if ltb n 2147483648 then n else n + 18446744069414584320

abbrev pub value_length : Option Bytes → ℕ
value_length none = 0
value_length (some v) = as_u32 (length v)

abbrev pub value_bits : Option Bytes → ℕ
value_bits none = minus_one
value_bits (some v) = as_u32 (length v)

abbrev pub value_bytes : Option Bytes → Bytes
value_bytes none = []
value_bytes (some v) = v

-- The bytes of one entry.
unfoldable pub entry : Bytes → Option Bytes → Bytes
entry key value =
    to_be 4 (as_u32 (length key)) ++ to_be 4 (value_bits value) ++ key ++ value_bytes value

-- `write_entry`: the offset and the size of the entry, and the file with it at its end.
unfoldable pub write_entry : Bytes → Bytes → Option Bytes → (ℕ × ℕ) × Bytes
write_entry file key value = (
  (length file, (as_u32 (length key) + value_length value + 8) % 2 ^ 32),
  file ++ entry key value,
)

-- `seek` and `read_exact`, which fails where the file ends too soon.
unfoldable pub read_value : ℕ → ℕ → Bytes → Outcome Bytes
read_value offset size file =
    if leb (offset + size) (length file) then ok (take size (drop offset file)) else err internal

-- The key, and the bits of the value's size.
unfoldable pub read_entry : ℕ → Bytes → Outcome (Bytes × ℕ)
read_entry offset file = do
  key_size ← read_value offset 4 file
  val_size ← read_value (offset + 4) 4 file
  key ← read_value (offset + 8) (from_be key_size) file
  ok (key, from_be val_size)

-- One round of `build_keydir`: the next offset and the index.
unfoldable pub place_entry : ℕ → Map Place → Bytes × ℕ → ℕ × Map Place
place_entry offset keydir (key, val_size) =
    if val_size == minus_one then ((offset + (length key + 8)) % 2 ^ 64, remove key keydir) else (
      (offset + (length key + 8 + sign_extend val_size)) % 2 ^ 64,
      insert key (offset + 8 + length key, val_size) keydir,
    )

-- The loop of `build_keydir`; without fuel, which stands for a loop that goes on, it panics.
unfoldable pub build_from : ℕ → ℕ → Map Place → Bytes → Outcome (Map Place)
build_from zero offset keydir file = panic
build_from (suc fuel) offset keydir file =
    if leb (length file) offset then ok keydir else elim (read_entry offset file) [
      | ok e ↦
          let (next, keydir') = place_entry offset keydir e in build_from fuel next keydir' file
      | err x ↦ err x
      | panic ↦ panic
    ]

-- An entry has 8 bytes at least, so there are fewer entries than bytes.
unfoldable pub build_keydir : Bytes → Outcome (Map Place)
build_keydir file = build_from (suc (length file)) 0 [] file

-- `DiskEngine::new`, on what the file holds.
unfoldable pub open_log : Bytes → Outcome DiskEngine
open_log file = elim (build_keydir file) [
  | ok keydir ↦ ok (record { keydir = keydir; file = file })
  | err x ↦ err x
  | panic ↦ panic
]

unfoldable pub set : DiskEngine → Bytes → Bytes → DiskEngine
set d key value =
    let ((offset, size), file) = write_entry d.file key (some value) in
    record {
      keydir =
          insert key
            ((offset + size + 2 ^ 64 - as_u32 (length value)) % 2 ^ 64, as_u32 (length value))
            d.keydir;
      file = file;
    }

unfoldable pub delete : DiskEngine → Bytes → DiskEngine
delete d key = record { keydir = remove key d.keydir; file = (write_entry d.file key none).1 }

unfoldable pub get : DiskEngine → Bytes → Outcome (Option Bytes)
get d key = elim (lookup key d.keydir) [
  | none ↦ ok none
  | some place ↦ elim (read_value place.0 place.1 d.file) [
    | ok value ↦ ok (some value)
    | err x ↦ err x
    | panic ↦ panic
  ]
]

abbrev read_item : Bytes → Bytes × Place → Outcome (Bytes × Bytes)
read_item file (key, (offset, size)) = read_value offset size file >>= λ v. ok (key, v)

unfoldable pub read_items : Bytes → Map Place → List (Outcome (Bytes × Bytes))
read_items file [] = []
read_items file (e ∷ keydir) = read_item file e ∷ read_items file keydir

-- The items of `scan`: each value is read from the file.
unfoldable pub scan : DiskEngine → Bound → Bound → Outcome (List (Outcome (Bytes × Bytes)))
scan d lo hi = elim (range lo hi d.keydir) [
  | ok keydir ↦ ok (read_items d.file keydir)
  | err x ↦ err x
  | panic ↦ panic
]

-- The loop of `compact`: the values of the index, written to the new log.
unfoldable pub copy_values : Bytes → Map Place → DiskEngine → Outcome DiskEngine
copy_values file [] new = ok new
copy_values file ((key, (offset, size)) ∷ keydir) new = elim (read_value offset size file) [
  | ok value ↦
      let ((new_offset, new_size), new_file) = write_entry new.file key (some value) in
      copy_values file keydir (record {
        keydir = insert key ((new_offset + new_size + 2 ^ 64 - size) % 2 ^ 64, size) new.keydir;
        file = new_file;
      })
  | err x ↦ err x
  | panic ↦ panic
]

-- `compact`; `stale` is what the file with the extension `compact` holds before.
unfoldable pub compact : Bytes → DiskEngine → Outcome DiskEngine
compact stale d = copy_values d.file d.keydir (record { keydir = []; file = stale })
