-- ===== src/Storage/Hashes.antt =====
-- The hash methods of Storage (RediCraft-Server/src/storage.cpp): hset, hget, hgetall.
pub mod Laws
use redi_craft.Prelude.{Bool, true, Option, none, some, [], Bytes}
use redi_craft.Table.{Table, find, assign}
use redi_craft.Storage.{Item, item, Storage, Readings, remove_expired}

-- hash_data_[key] = it, and a write through an iterator at `key`
unfoldable pub put : Bytes → Item (Table Bytes) → Storage → Storage
put key it s = record s { hash_data = assign key it s.hash_data }

unfoldable pub hset_found :
    Bytes → Bytes → Bytes → Option (Item (Table Bytes)) → Storage → Bool × Storage
unfolding put
hset_found key field value none s = (true, put key (item (assign field value [])) s)
hset_found key field value (some it) s =
    (true, put key (record it { value = assign field value it.value }) s)

unfoldable pub hset : Readings → Bytes → Bytes → Bytes → Storage → Bool × Storage
unfolding hset_found
hset now key field value s =
    let s' = remove_expired now key s in hset_found key field value (find key s'.hash_data) s'

unfoldable pub hget : Readings → Bytes → Bytes → Storage → Option Bytes × Storage
hget now key field s =
    let s' = remove_expired now key s in
    (elim (find key s'.hash_data) [ none ↦ none | some it ↦ find field it.value ], s')

unfoldable pub hgetall : Readings → Bytes → Storage → Table Bytes × Storage
hgetall now key s =
    let s' = remove_expired now key s in
    (elim (find key s'.hash_data) [ none ↦ [] | some it ↦ it.value ], s')
