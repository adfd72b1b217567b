-- ===== src/Storage/Strings.antt =====
-- The string methods of Storage (RediCraft-Server/src/storage.cpp): set, get, incr, decr, incrby.
-- A method takes the clock's readings and returns its result with the storage that it leaves.
pub mod Laws
pub mod Counters
use redi_craft.Prelude.{Bool, true, Option, none, some, Bytes, codes}
use redi_craft.Prelude.Int.{ℤ, ◌+ℤ◌, ◌-ℤ◌, wrap64, pos, negsuc}
use redi_craft.Table.{find, assign}
use redi_craft.Number.{to_string, stoll}
use redi_craft.Storage.{Item, item, Storage, Readings, remove_expired}

-- string_data_[key] = it, and a write through an iterator at `key`
unfoldable pub put : Bytes → Item Bytes → Storage → Storage
put key it s = record s { string_data = assign key it s.string_data }

unfoldable pub set : Readings → Bytes → Bytes → Storage → Bool × Storage
unfolding put
set now key value s = (true, put key (item value) (remove_expired now key s))

-- the result and the value that the reference parameter gets
unfoldable pub get : Readings → Bytes → Storage → Option Bytes × Storage
get now key s =
    let s' = remove_expired now key s in
    (elim (find key s'.string_data) [ none ↦ none | some it ↦ some it.value ], s')

-- value++, with the number that stoll read; `none` is its exception
unfoldable pub incr_parsed : Bytes → Item Bytes → Option ℤ → Storage → ℤ × Storage
unfolding put
incr_parsed key it none s = (pos 1, put key (item (codes "1")) s)
incr_parsed key it (some value) s =
    let v = wrap64 (value +ℤ pos 1) in (v, put key (record it { value = to_string v }) s)

unfoldable pub incr_found : Bytes → Option (Item Bytes) → Storage → ℤ × Storage
unfolding incr_parsed
incr_found key none s = (pos 1, put key (item (codes "1")) s)
incr_found key (some it) s = incr_parsed key it (stoll it.value) s

unfoldable pub incr : Readings → Bytes → Storage → ℤ × Storage
unfolding incr_found
incr now key s = let s' = remove_expired now key s in incr_found key (find key s'.string_data) s'

unfoldable pub decr_parsed : Bytes → Item Bytes → Option ℤ → Storage → ℤ × Storage
unfolding put
decr_parsed key it none s = (negsuc 0, put key (item (codes "-1")) s)
decr_parsed key it (some value) s =
    let v = wrap64 (value -ℤ pos 1) in (v, put key (record it { value = to_string v }) s)

unfoldable pub decr_found : Bytes → Option (Item Bytes) → Storage → ℤ × Storage
unfolding decr_parsed
decr_found key none s = (negsuc 0, put key (item (codes "-1")) s)
decr_found key (some it) s = decr_parsed key it (stoll it.value) s

unfoldable pub decr : Readings → Bytes → Storage → ℤ × Storage
unfolding decr_found
decr now key s = let s' = remove_expired now key s in decr_found key (find key s'.string_data) s'

unfoldable pub incrby_parsed : ℤ → Bytes → Item Bytes → Option ℤ → Storage → ℤ × Storage
unfolding put
incrby_parsed increment key it none s = (increment, put key (item (to_string increment)) s)
incrby_parsed increment key it (some value) s =
    let v = wrap64 (value +ℤ increment) in (v, put key (record it { value = to_string v }) s)

unfoldable pub incrby_found : ℤ → Bytes → Option (Item Bytes) → Storage → ℤ × Storage
unfolding incrby_parsed
incrby_found increment key none s = (increment, put key (item (to_string increment)) s)
incrby_found increment key (some it) s = incrby_parsed increment key it (stoll it.value) s

unfoldable pub incrby : Readings → Bytes → ℤ → Storage → ℤ × Storage
unfolding incrby_found
incrby now key increment s =
    let s' = remove_expired now key s in incrby_found increment key (find key s'.string_data) s'
