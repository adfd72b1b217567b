-- ===== src/Storage/Sets.antt =====
-- The set methods of Storage (RediCraft-Server/src/storage.cpp): sadd, srem, sismember, smembers,
-- scard.
pub mod Laws
pub mod Found
pub mod Counts
use redi_craft.Prelude.{
  ℕ, ◌+◌, Bool, true, false, Option, none, some, List, [], ◌∷◌, if◌then◌else◌, length, Bytes,
}
use redi_craft.Table.{Table, find, assign, erase, is_some}
use redi_craft.Storage.{Item, item, Storage, Readings, remove_expired}

-- set_data_[key] = it, and a write through an iterator at `key`
unfoldable pub put : Bytes → Item (Table Bool) → Storage → Storage
put key it s = record s { set_data = assign key it s.set_data }

-- the loop of sadd over a set that exists
unfoldable pub add_members : List Bytes → Table Bool → ℕ → Table Bool × ℕ
add_members [] m added = (m, added)
add_members (member ∷ rest) m added =
    let present = is_some (find member m) in
    add_members rest (if present then m else assign member true m)
      (if present then added else added + 1)

-- the loop of sadd over a new set
unfoldable pub fresh_members : List Bytes → Table Bool → ℕ → Table Bool × ℕ
fresh_members [] m added = (m, added)
fresh_members (member ∷ rest) m added = fresh_members rest (assign member true m) (added + 1)

unfoldable pub sadd_found : Bytes → List Bytes → Option (Item (Table Bool)) → Storage → ℕ × Storage
unfolding put
sadd_found key members none s =
    let (m, added) = fresh_members members [] 0 in (added, put key (item m) s)
sadd_found key members (some it) s =
    let (m, added) = add_members members it.value 0 in (added, put key (record it { value = m }) s)

unfoldable pub sadd : Readings → Bytes → List Bytes → Storage → ℕ × Storage
unfolding sadd_found
sadd now key members s =
    let s' = remove_expired now key s in sadd_found key members (find key s'.set_data) s'

-- the loop of srem; unordered_map::erase returns the number of entries erased
unfoldable pub remove_members : List Bytes → Table Bool → ℕ → Table Bool × ℕ
remove_members [] m removed = (m, removed)
remove_members (member ∷ rest) m removed =
    remove_members rest (erase member m) (if is_some (find member m) then removed + 1 else removed)

-- the set without the members, dropped from the table if none is left
unfoldable pub keep_set : Bytes → Item (Table Bool) → Table Bool → Storage → Storage
unfolding put
keep_set key it [] s = record s { set_data = erase key s.set_data }
keep_set key it (x ∷ m) s = put key (record it { value = x ∷ m }) s

unfoldable pub srem_found : Bytes → List Bytes → Option (Item (Table Bool)) → Storage → ℕ × Storage
unfolding keep_set
srem_found key members none s = (0, s)
srem_found key members (some it) s =
    let (m, removed) = remove_members members it.value 0 in (removed, keep_set key it m s)

unfoldable pub srem : Readings → Bytes → List Bytes → Storage → ℕ × Storage
unfolding srem_found
srem now key members s =
    let s' = remove_expired now key s in srem_found key members (find key s'.set_data) s'

unfoldable pub sismember : Readings → Bytes → Bytes → Storage → Bool × Storage
sismember now key member s =
    let s' = remove_expired now key s in
    (elim (find key s'.set_data) [ none ↦ false | some it ↦ is_some (find member it.value) ], s')

unfoldable pub smembers : Readings → Bytes → Storage → Table Bool × Storage
smembers now key s =
    let s' = remove_expired now key s in
    (elim (find key s'.set_data) [ none ↦ [] | some it ↦ it.value ], s')

unfoldable pub scard : Readings → Bytes → Storage → ℕ × Storage
scard now key s =
    let s' = remove_expired now key s in
    (elim (find key s'.set_data) [ none ↦ 0 | some it ↦ length it.value ], s')
