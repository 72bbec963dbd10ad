-- ===== src/Storage/Disk/Reopen/Build.antt =====
-- `build_keydir` of storage/disk.rs on a log.
use sqlprimer.Prelude.{
  ℕ, zero, suc, ◌+◌, ◌%◌, ◌^◌, ◌<◌, ◌≤◌, ◌≡◌, ap, sym, ◌∙◌, subst, Option, none, some, List, [],
  ◌∷◌, ◌++◌, length, length-append, append_assoc, All, ok, arith,
}
use sqlprimer.Bytes.{Bytes}
use sqlprimer.OrderedMap.{Map, insert, remove}
use sqlprimer.Storage.Keycode.{to_be}
use sqlprimer.Storage.Keycode.BigEndian.{length-to_be}
use sqlprimer.Storage.Disk.{
  Place, entry, read_entry, place_entry, build_from, build_keydir, open_log, value_bits,
  value_bytes, as_u32,
}
use sqlprimer.Storage.Disk.Log.{EntryFits, read_entry_at, as_u32_small}
use sqlprimer.Storage.Disk.History.{Entry, encode_log}

abbrev pub place : ℕ → Entry → Map Place → Map Place
place offset (key, some v) keydir = insert key (offset + 8 + length key, length v) keydir
place offset (key, none) keydir = remove key keydir

unfoldable pub keydir_of : ℕ → List Entry → Map Place → Map Place
keydir_of offset [] keydir = keydir
keydir_of offset (e ∷ es) keydir =
    keydir_of (offset + length (entry e.0 e.1)) es (place offset e keydir)

pub length-entry :
    (key : Bytes) (value : Option Bytes)
    → length (entry key value) ≡ 8 + length key + length (value_bytes value)
unfolding entry to_be
length-entry key value = omega (
  arith,
  length-append (to_be 4 (as_u32 (length key)))
      (to_be 4 (value_bits value) ++ key ++ value_bytes value),
  length-append (to_be 4 (value_bits value)) (key ++ value_bytes value),
  length-append key (value_bytes value),
  length-to_be 4 (as_u32 (length key)),
  length-to_be 4 (value_bits value),
)

place_value :
    (offset n : ℕ) (key : Bytes) (keydir : Map Place)
    → n < 2 ^ 31
    → place_entry offset keydir (key, n)
      ≡ ((offset + (length key + 8 + n)) % 2 ^ 64, insert key (offset + 8 + length key, n) keydir)
unfolding place_entry
place_value offset n key keydir h = ground arith

wrap_none :
    (offset : ℕ) (key : Bytes)
    → offset + length (entry key none) < 2 ^ 64
    → (offset + (length key + 8)) % 2 ^ 64 ≡ offset + length (entry key none)
wrap_none offset key k = omega (arith, length-entry key none)

wrap_some :
    (offset : ℕ) (key v : Bytes)
    → offset + length (entry key (some v)) < 2 ^ 64
    → (offset + (length key + 8 + length v)) % 2 ^ 64 ≡ offset + length (entry key (some v))
wrap_some offset key v k = omega (arith, length-entry key (some v))

place_entry_lem :
    (offset : ℕ) (keydir : Map Place) (e : Entry)
    → EntryFits e
    → offset + length (entry e.0 e.1) < 2 ^ 64
    → place_entry offset keydir (e.0, value_bits e.1)
      ≡ (offset + length (entry e.0 e.1), place offset e keydir)
unfolding place_entry
place_entry_lem offset keydir (key, none) h k =
    ap {B = ℕ × Map Place} (λ x. (x, remove key keydir)) (wrap_none offset key k)
place_entry_lem offset keydir (key, some v) h k =
    ap (λ n. place_entry offset keydir (key, n)) (as_u32_small (length v) (omega arith))
    ∙ place_value offset (length v) key keydir h.1
    ∙ ap {B = ℕ × Map Place} (λ x. (x, insert key (offset + 8 + length key, length v) keydir))
        (wrap_some offset key v k)

build_step :
    (fuel offset : ℕ) (keydir : Map Place) (file : Bytes) (e : Bytes × ℕ)
    → offset < length file
    → read_entry offset file ≡ ok e
    → build_from (suc fuel) offset keydir file
      ≡ build_from fuel (place_entry offset keydir e).0 (place_entry offset keydir e).1 file
unfolding build_from
build_step fuel offset keydir file e h p = ground (arith, p)

build_from_lem :
    (es : List Entry) (pre : Bytes) (keydir : Map Place) (fuel : ℕ)
    → All EntryFits es
    → length (pre ++ encode_log es) < 2 ^ 64
    → length es < fuel
    → build_from fuel (length pre) keydir (pre ++ encode_log es)
      ≡ ok (keydir_of (length pre) es keydir)
unfolding build_from encode_log keydir_of
build_from_lem es pre keydir zero f l h = absurd (omega arith)
build_from_lem [] pre keydir (suc fuel) f l h = ground (arith, length-append pre [])
build_from_lem (e ∷ es) pre keydir (suc fuel) f l h =
    let en = entry e.0 e.1 in
    let file = pre ++ (en ++ encode_log es) in
    let len = length-append pre en in
    let assoc = append_assoc pre en (encode_log es) in
    let total = length-append pre (en ++ encode_log es) in
    let inner = length-append en (encode_log es) in
    let room : length pre + length en < 2 ^ 64 = omega arith in
    let positive : length pre < length file = omega (arith, length-entry e.0 e.1) in
    build_step fuel (length pre) keydir file (e.0, value_bits e.1) positive
      (read_entry_at pre (encode_log es) e.0 e.1 f.0)
    ∙ ap (λ x. build_from fuel x.0 x.1 file) (place_entry_lem (length pre) keydir e f.0 room)
    ∙ ap (λ x. build_from fuel x (place (length pre) e keydir) file) (sym len)
    ∙ ap (build_from fuel (length (pre ++ en)) (place (length pre) e keydir)) (sym assoc)
    ∙ build_from_lem es (pre ++ en) (place (length pre) e keydir) fuel f.1
        (subst (λ x. length x < 2 ^ 64) (sym assoc) l) (omega arith)
    ∙ ap (λ x. ok (keydir_of x es (place (length pre) e keydir))) len

length-encode_log : (es : List Entry) → length es ≤ length (encode_log es)
unfolding encode_log
length-encode_log [] = omega arith
length-encode_log (e ∷ es) = omega (
  arith,
  length-encode_log es,
  length-append (entry e.0 e.1) (encode_log es),
  length-entry e.0 e.1,
)

build_keydir_lem :
    (es : List Entry)
    → All EntryFits es
    → length (encode_log es) < 2 ^ 64
    → build_keydir (encode_log es) ≡ ok (keydir_of 0 es [])
unfolding build_keydir
build_keydir_lem es f l =
    build_from_lem es [] [] (suc (length (encode_log es))) f l (omega (arith, length-encode_log es))

pub open_log_lem :
    (es : List Entry)
    → All EntryFits es
    → length (encode_log es) < 2 ^ 64
    → open_log (encode_log es) ≡ ok (record { keydir = keydir_of 0 es []; file = encode_log es })
unfolding open_log
open_log_lem es f l = rw (build_keydir_lem es f l, open_log)
