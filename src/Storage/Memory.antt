-- ===== src/Storage/Memory.antt =====
-- storage/memory.rs: the engine over a `BTreeMap`.
use sqlprimer.Prelude.{refl, [], ok}
use sqlprimer.Bytes.{Bytes}
use sqlprimer.OrderedMap.{Map, lookup, insert, remove, range}
use sqlprimer.OrderedMap.Order.{IsOrdered, insert-IsOrdered, remove-IsOrdered}
use sqlprimer.Storage.Engine.{Engine, IsLawful, items}

-- `MemoryEngine::new`
abbrev pub new : Map Bytes
new = []

-- The four operations; each item of an iterator is a clone of an entry (`MemoryEngineIterator`).
abbrev pub MemoryEngine : Engine
MemoryEngine = record {
  State = Map Bytes;
  set = λ m key value. (ok tt, insert key value m);
  get = λ m key. ok (lookup key m);
  delete = λ m key. (ok tt, remove key m);
  scan = λ m lo hi. items (range lo hi m);
}

abbrev pub MemoryEngine-IsLawful : IsLawful MemoryEngine
MemoryEngine-IsLawful = record {
  view = λ s. s;
  IsValid = IsOrdered;
  ordered = λ s h. h;
  set_ok = λ s k v h. refl;
  view-set = λ s k v h. refl;
  set-IsValid = λ s k v h. insert-IsOrdered k v s h;
  get-view = λ s k h. refl;
  delete_ok = λ s k h. refl;
  view-delete = λ s k h. refl;
  delete-IsValid = λ s k h. remove-IsOrdered k s h;
  scan-view = λ s lo hi h. refl;
}
