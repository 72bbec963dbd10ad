-- ===== src/Storage/Disk/Log.antt =====
-- Reading what a log holds.
use sqlprimer.Prelude.{
  ℕ, ◌+◌, ◌^◌, ◌<◌, ◌≡◌, refl, ap, sym, ◌∙◌, Option, none, some, ◌++◌, length, length-append,
  take-append, drop-append, append_assoc, Outcome, ok, arith,
}
use sqlprimer.Bytes.{Bytes}
use sqlprimer.Storage.Keycode.{to_be, from_be}
use sqlprimer.Storage.Keycode.BigEndian.{length-to_be, from_be-to_be}
use sqlprimer.Storage.Disk.{entry, read_value, read_entry, value_bits, value_bytes, as_u32}

-- What stands between two parts of the file is read back.
pub read_value_at :
    (pre mid post : Bytes) → read_value (length pre) (length mid) (pre ++ (mid ++ post)) ≡ ok mid
unfolding read_value
read_value_at pre mid post =
    rw (drop-append pre (mid ++ post), take-append mid post)
      (ground (arith, length-append pre (mid ++ post), length-append mid post))

pub read_value_of :
    (file pre mid post : Bytes) (offset size : ℕ)
    → file ≡ pre ++ (mid ++ post)
    → offset ≡ length pre
    → size ≡ length mid
    → read_value offset size file ≡ ok mid
read_value_of file pre mid post offset size e p q = rw (e, p, q) (read_value_at pre mid post)

-- An entry whose sizes fit their fields.
abbrev pub EntryFits : Bytes × Option Bytes → Type 0
EntryFits (key, none) = length key + 8 < 2 ^ 32
EntryFits (key, some v) = (length key + length v + 8 < 2 ^ 32) × (length v < 2 ^ 31)

key_fits : (e : Bytes × Option Bytes) → EntryFits e → length e.0 < 2 ^ 32
key_fits (key, none) h = omega arith
key_fits (key, some v) h = omega arith

bits_fit : (e : Bytes × Option Bytes) → EntryFits e → value_bits e.1 < 2 ^ 32
bits_fit (key, none) h = omega arith
bits_fit (key, some v) h = omega arith

pub as_u32_small : (n : ℕ) → n < 2 ^ 32 → as_u32 n ≡ n
as_u32_small n h = omega arith

entry_split :
    (key : Bytes) (value : Option Bytes) (post : Bytes)
    → entry key value ++ post
      ≡ to_be 4 (as_u32 (length key))
        ++ (to_be 4 (value_bits value) ++ (key ++ (value_bytes value ++ post)))
unfolding entry to_be
entry_split key value post = rw (append_assoc)

pub read_entry_at :
    (pre post key : Bytes) (value : Option Bytes)
    → EntryFits (key, value)
    → read_entry (length pre) (pre ++ (entry key value ++ post)) ≡ ok (key, value_bits value)
unfolding read_entry
read_entry_at pre post key value h =
    let ks = to_be 4 (as_u32 (length key)) in
    let vs = to_be 4 (value_bits value) in
    let rest = key ++ (value_bytes value ++ post) in
    let file = pre ++ (entry key value ++ post) in
    let whole : file ≡ pre ++ (ks ++ (vs ++ rest)) =
      ap (λ x. pre ++ x) (entry_split key value post) in
    let second : file ≡ (pre ++ ks) ++ (vs ++ rest) =
      whole ∙ sym (append_assoc pre ks (vs ++ rest)) in
    let third : file ≡ ((pre ++ ks) ++ vs) ++ rest =
      second ∙ sym (append_assoc (pre ++ ks) vs rest) in
    let four = length-to_be 4 (as_u32 (length key)) in
    let four' = length-to_be 4 (value_bits value) in
    let size : from_be ks ≡ length key =
      from_be-to_be 4 (as_u32 (length key)) (omega arith)
      ∙ as_u32_small (length key) (key_fits (key, value) h) in
    rw (read_value_of file pre ks (vs ++ rest) (length pre) 4 whole refl (sym four)) (
      rw
        (read_value_of file (pre ++ ks) vs rest (length pre + 4) 4 second
          (omega (arith, four, length-append pre ks)) (sym four'))
        (rw
          (read_value_of file ((pre ++ ks) ++ vs) key (value_bytes value ++ post) (length pre + 8)
            (from_be ks) third
            (omega (arith, four, four', length-append pre ks, length-append (pre ++ ks) vs)) size)
          (ap {B = Outcome (Bytes × ℕ)} (λ x. ok (key, x))
            (from_be-to_be 4 (value_bits value) (bits_fit (key, value) h)))))
