-- ===== src/Persistence/Background.antt =====
-- What PersistenceManager does in threads of its own (RediCraft-Server/src/persistence.cpp): the
-- pool of workers, saveToFileAsync and the loop of automatic persistence. Of a thread the model keeps
-- that it runs; what a round of the loop meets is an argument.
use redi_craft.Prelude.{
  ℕ, suc, ◌+◌, ◌*◌, ◌≡◌, refl, ap, ◌∙◌, Bool, true, false, not, ◌&&◌, Option, none, List, [], ◌∷◌,
  ◌++◌, arith, ◌==◌, if◌then◌else◌, length, All, Bytes,
}
use redi_craft.Prelude.Int.{ℤ, pos, negsuc}
use redi_craft.Table.{Table, find}
use redi_craft.Storage.{Item, Storage, init, Readings, strings}
use redi_craft.Storage.Access.{get_string_data, get_hash_data, get_list_data, get_set_data}
use redi_craft.Storage.Strings.{get}
use redi_craft.Persistence.{SaveClock, save_to_file, load_from_file}
use redi_craft.Persistence.RoundTrip.{saved_text, IsSavable, get-load_from_file}

pub record PersistenceManager : Type 0 where
  pub auto_persistence_running : Bool
  pub workers_running : Bool
  pub worker_threads : ℕ

-- `cores` is hardware_concurrency()
unfoldable initialize_workers : ℕ → PersistenceManager → PersistenceManager
initialize_workers cores m = record m {
  workers_running = true;
  worker_threads = m.worker_threads + (if cores == 0 then 2 else cores);
}

-- the constructor
unfoldable pub new_manager : ℕ → PersistenceManager
unfolding initialize_workers
new_manager cores =
    initialize_workers cores
      (record { auto_persistence_running = false; workers_running = false; worker_threads = 0 })

unfoldable shutdown_workers : PersistenceManager → PersistenceManager
shutdown_workers m = record m { workers_running = false; worker_threads = 0 }

unfoldable start_auto_persistence : PersistenceManager → PersistenceManager
start_auto_persistence m =
    if m.auto_persistence_running then m else record m { auto_persistence_running = true }

unfoldable stop_auto_persistence : PersistenceManager → PersistenceManager
stop_auto_persistence m =
    if m.auto_persistence_running then record m { auto_persistence_running = false } else m

-- the destructor
unfoldable pub destroy : PersistenceManager → PersistenceManager
unfolding shutdown_workers stop_auto_persistence
destroy m = shutdown_workers (stop_auto_persistence m)

-- the copies that saveToFile writes
unfoldable create_snapshot :
    Storage
    → Table (Item Bytes)
      × Table (Item (Table Bytes))
      × Table (Item (List Bytes))
      × Table (Item (Table Bool))
unfolding get_string_data get_hash_data get_list_data get_set_data
create_snapshot s = (get_string_data s, get_hash_data s, get_list_data s, get_set_data s)

-- placeholders, as in the source
unfoldable pub serialize_string_data : Table (Item Bytes) → Bytes
serialize_string_data m = []

unfoldable pub serialize_hash_data : Table (Item (Table Bytes)) → Bytes
serialize_hash_data m = []

unfoldable pub serialize_list_data : Table (Item (List Bytes)) → Bytes
serialize_list_data m = []

unfoldable pub deserialize_string_data : Bytes → Storage → Storage
deserialize_string_data text s = s

unfoldable pub deserialize_hash_data : Bytes → Storage → Storage
deserialize_hash_data text s = s

unfoldable pub deserialize_list_data : Bytes → Storage → Storage
deserialize_list_data text s = s

-- what the promise of saveToFileAsync gets
pub data Future : Type 0 where
  value : Bool → Future
  exception : Future

-- what a save meets: the clock, whether the file opens, the storage, and whether the save throws
-- before it opens the file
pub record Save : Type 0 where
  pub now : SaveClock
  pub opens : Bool
  pub storage : Storage
  pub throws : Bool

-- saveToFileAsync, its thread run to the end: the future, and what the file holds
unfoldable save_to_file_async : Save → Option Bytes → Future × Option Bytes
unfolding save_to_file
save_to_file_async save old =
    let (saved, file) = save_to_file save.now save.opens save.storage old in
    if save.throws then (exception, old) else (value saved, file)

-- the seconds of the inner loop, where the loop is not stopped
unfoldable pub pause : ℤ → ℕ
pause (pos n) = n
pause (negsuc n) = 0

-- autoPersistenceLoop, where each save ends within the 30 seconds that the loop waits for it: the
-- file, and the seconds slept
unfoldable pub auto_persistence_loop : ℤ → List Save → Option Bytes → Option Bytes × ℕ
unfolding save_to_file_async pause
auto_persistence_loop interval [] file = (file, 0)
auto_persistence_loop interval (save ∷ rest) file =
    let (file', slept) = auto_persistence_loop interval rest (save_to_file_async save file).1 in
    (file', pause interval + slept)

-- A save that writes the file.
abbrev pub writes : Save → Bool
writes save = save.opens && not save.throws

save_to_file_async-skips :
    (save : Save) (file : Option Bytes)
    → writes save ≡ false
    → (save_to_file_async save file).1 ≡ file
unfolding save_to_file_async save_to_file
save_to_file_async-skips save file h = ground arith

save_to_file_async-writes :
    (save : Save) (file : Option Bytes)
    → writes save ≡ true
    → (save_to_file_async save file).1 ≡ (save_to_file save.now true save.storage none).1
unfolding save_to_file_async save_to_file
save_to_file_async-writes save file h = ground arith

module _ (interval : ℤ) where
  one_more : (n : ℕ) → pause interval + n * pause interval ≡ suc n * pause interval
  one_more n = omega arith

  one_more_at : (a n : ℕ) → pause interval + (a + n) * pause interval ≡ (suc a + n) * pause interval
  one_more_at a n = omega arith

  only_one : (n : ℕ) → pause interval + n * pause interval ≡ (0 + suc n) * pause interval
  only_one n = omega arith

  auto_persistence_loop-skips :
      (saves : List Save) (file : Option Bytes)
      → All (λ (x : Save). writes x ≡ false) saves
      → auto_persistence_loop interval saves file ≡ (file, length saves * pause interval)
  unfolding auto_persistence_loop
  auto_persistence_loop-skips [] file h =
      let p : 0 ≡ 0 * pause interval = omega arith in ap (λ (n : ℕ). (file, n)) p
  auto_persistence_loop-skips (save ∷ rest) file (h0, h) =
      rw
        (
          save_to_file_async-skips save file h0,
          auto_persistence_loop-skips rest file h,
          one_more (length rest),
        )
        refl

  -- A loop of automatic persistence leaves, in the file, what its last save that wrote the file had
  -- of the storage, whatever the saves before it and the file at the start were; and it sleeps the
  -- interval once a round, which is no second for an interval that is negative.
  auto_persistence_loop_lem :
      (earlier : List Save) (save : Save) (later : List Save) (file : Option Bytes)
      → writes save ≡ true
      → All (λ (x : Save). writes x ≡ false) later
      → auto_persistence_loop interval (earlier ++ save ∷ later) file ≡ (
        (save_to_file save.now true save.storage none).1,
        (length earlier + suc (length later)) * pause interval,
      )
  unfolding auto_persistence_loop
  auto_persistence_loop_lem [] save later file h none_after =
      rw
        (
          save_to_file_async-writes save file h,
          auto_persistence_loop-skips later _ none_after,
          only_one (length later),
        )
        refl
  auto_persistence_loop_lem (first ∷ earlier) save later file h none_after =
      rw
        (
          auto_persistence_loop_lem earlier save later (save_to_file_async first file).1 h
              none_after,
          one_more_at (length earlier) (suc (length later)),
        )
        refl

  -- What GET returns, at any time, after a restart that loads the file of automatic persistence: the
  -- text that the key had when the last save wrote the file, unless it had an expiry that was not in
  -- the future then. The storage of that save is IsSavable.
  pub get-auto_persistence_loop :
      (now : List Bytes → Readings) (earlier : List Save) (save : Save) (later : List Save)
      (file : Option Bytes) (at : Readings) (j : Bytes)
      → writes save ≡ true
      → All (λ (x : Save). writes x ≡ false) later
      → IsSavable save.now save.storage
      → (get at j
          (load_from_file now
            (auto_persistence_loop interval (earlier ++ save ∷ later) file).0
            init).1).0
        ≡ saved_text (save.now strings j) (find j save.storage.string_data)
  get-auto_persistence_loop now earlier save later file at j h none_after ok =
      ap (λ (r : Option Bytes × ℕ). (get at j (load_from_file now r.0 init).1).0)
        (auto_persistence_loop_lem earlier save later file h none_after)
      ∙ get-load_from_file now save.now save.storage none at j ok
