-- ===== src/Storage/Disk/Reopen.antt =====
-- Opening a log again (storage/disk.rs).
pub mod Build
pub mod Runs
pub mod Finds
use sqlprimer.Prelude.{
  ℕ, zero, suc, ◌+◌, ◌-◌, ◌%◌, ◌^◌, ◌<◌, ◌≤◌, ◌≡◌, ◌⊎◌, inl, inr, refl, ap, sym, ◌∙◌, subst, Bool,
  true, false, Option, none, some, List, [], ◌∷◌, ◌++◌, length, length-append, append_assoc,
  append-nil, All, Outcome, ok, err, panic, arith, leb, le→leb, if◌then◌else◌, Bool-cases,
}
use sqlprimer.Bytes.{Bytes}
use sqlprimer.OrderedMap.{Map, lookup, insert, remove}
use sqlprimer.OrderedMap.Lookup.{same, lookup-insert, lookup-remove}
use sqlprimer.Storage.Keycode.{to_be}
use sqlprimer.Storage.Keycode.BigEndian.{length-to_be}
use sqlprimer.Storage.Disk.{
  Place, DiskEngine, entry, write_entry, read_value, read_entry, place_entry, build_from,
  build_keydir, open_log, set, delete, get, value_bits, value_bytes, as_u32, minus_one, sign_extend,
}
use sqlprimer.Storage.Disk.Log.{EntryFits, read_value_of, read_entry_at, as_u32_small}
use sqlprimer.Storage.Disk.History.{Entry, run, run_one, replay, mean, encode_log, empty}
use sqlprimer.Storage.Disk.Reopen.Build.{keydir_of, open_log_lem}
use sqlprimer.Storage.Disk.Reopen.Runs.{run_lem}
use sqlprimer.Storage.Disk.Reopen.Finds.{Agrees, keydir_of-Agrees, get_of_Agrees, nothing-Agrees}

-- After any calls of `set` and `delete` on an engine with an empty log, of which each entry is less
-- than 2^32 bytes and each value less than 2^31, and while the file is less than 2^64 bytes: opening
-- the file again gives the same engine, index and all, and `get` succeeds with what was last set
-- under the key, or nothing where it was never set or was deleted after.
pub open_log-run :
    (es : List Entry)
    → All EntryFits es
    → length (encode_log es) < 2 ^ 64
    → (open_log (run es empty).file ≡ ok (run es empty))
      × ((k : Bytes) → get (run es empty) k ≡ ok (lookup k (replay es [])))
open_log-run es f l =
    let d : DiskEngine = record { keydir = keydir_of 0 es []; file = encode_log es } in
    let ran : run es empty ≡ d = run_lem es empty f l in
    (
      ap (λ x. open_log x.file) ran ∙ open_log_lem es f l ∙ ap ok (sym ran),
      λ k.
          ap (λ x. get x k) ran
          ∙ get_of_Agrees d k (lookup k (replay es [])) (
              keydir_of-Agrees (encode_log es) [] es [] [] refl (nothing-Agrees (encode_log es)) k),
    )
