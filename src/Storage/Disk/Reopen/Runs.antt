-- ===== src/Storage/Disk/Reopen/Runs.antt =====
-- What calls of `set` and `delete` leave.
use sqlprimer.Prelude.{
  ℕ, ◌+◌, ◌-◌, ◌%◌, ◌^◌, ◌<◌, ◌≡◌, refl, ap, sym, ◌∙◌, subst, none, some, List, [], ◌∷◌, ◌++◌,
  length, length-append, append_assoc, append-nil, All, arith,
}
use sqlprimer.Bytes.{Bytes}
use sqlprimer.OrderedMap.{insert}
use sqlprimer.Storage.Disk.{Place, DiskEngine, entry, write_entry, set, delete, as_u32}
use sqlprimer.Storage.Disk.Log.{EntryFits, as_u32_small}
use sqlprimer.Storage.Disk.History.{Entry, run, run_one, encode_log}
use sqlprimer.Storage.Disk.Reopen.Build.{place, keydir_of, length-entry}

place_eq : {a b c e : ℕ} → a ≡ b → c ≡ e → ◌≡◌ {A = Place} (a, c) (b, e)
place_eq p q = rw (p, q)

set_offset :
    (offset : ℕ) (key v : Bytes)
    → EntryFits (key, some v)
    → offset + length (entry key (some v)) < 2 ^ 64
    → (offset + (as_u32 (length key) + as_u32 (length v) + 8) % 2 ^ 32 + 2 ^ 64 - as_u32 (length v))
        % 2 ^ 64
      ≡ offset + 8 + length key
set_offset offset key v f l = omega (arith, length-entry key (some v))

set_lem :
    (d : DiskEngine) (key v : Bytes)
    → EntryFits (key, some v)
    → length d.file + length (entry key (some v)) < 2 ^ 64
    → set d key v ≡ record {
      keydir = place (length d.file) (key, some v) d.keydir;
      file = d.file ++ entry key (some v);
    }
unfolding set write_entry
set_lem d key v f l =
    ap {B = DiskEngine}
      (λ p. record { keydir = insert key p d.keydir; file = d.file ++ entry key (some v) })
      (place_eq (set_offset (length d.file) key v f l) (as_u32_small (length v) (omega arith)))

delete_lem :
    (d : DiskEngine) (key : Bytes)
    → delete d key ≡ record {
      keydir = place (length d.file) (key, none) d.keydir;
      file = d.file ++ entry key none;
    }
unfolding delete write_entry
delete_lem d key = refl

run_one_lem :
    (e : Entry) (d : DiskEngine)
    → EntryFits e
    → length d.file + length (entry e.0 e.1) < 2 ^ 64
    → run_one e d
      ≡ record { keydir = place (length d.file) e d.keydir; file = d.file ++ entry e.0 e.1 }
run_one_lem (key, some v) d f l = set_lem d key v f l
run_one_lem (key, none) d f l = delete_lem d key

pub run_lem :
    (es : List Entry) (d : DiskEngine)
    → All EntryFits es
    → length (d.file ++ encode_log es) < 2 ^ 64
    → run es d
      ≡ record { keydir = keydir_of (length d.file) es d.keydir; file = d.file ++ encode_log es }
unfolding run encode_log keydir_of
run_lem [] d f l =
    ap {B = DiskEngine} (λ x. record { keydir = d.keydir; file = x }) (sym (append-nil d.file))
run_lem (e ∷ es) d f l =
    let en = entry e.0 e.1 in
    let log = encode_log es in
    let after = place (length d.file) e d.keydir in
    let assoc = append_assoc d.file en log in
    let room : length d.file + length en < 2 ^ 64 =
      omega (arith, length-append d.file (en ++ log), length-append en log) in
    ap (run es) (run_one_lem e d f.0 room)
    ∙ run_lem es (record { keydir = after; file = d.file ++ en }) f.1
        (subst (λ x. length x < 2 ^ 64) (sym assoc) l)
    ∙ ap {B = DiskEngine}
        (λ n. record { keydir = keydir_of n es after; file = (d.file ++ en) ++ log })
        (length-append d.file en)
    ∙ ap {B = DiskEngine}
        (λ x. record { keydir = keydir_of (length d.file + length en) es after; file = x }) assoc
