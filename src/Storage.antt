-- ===== src/Storage.antt =====
-- The data of Storage (RediCraft-Server/include/storage.h) and the helpers is_expired and
-- remove_expired (RediCraft-Server/src/storage.cpp). The four item structs differ in the type of
-- their first member only, so they are one record over it. A time point is its count of nanoseconds
-- since the epoch of std::chrono::steady_clock; each call of now() is a reading that the caller of
-- the model supplies, one for each of the four tables where a method reads the clock for each.
pub mod View
pub mod Invariant
pub mod Strings
pub mod Hashes
pub mod Lists
pub mod Sets
pub mod Expiry
pub mod Reads
pub mod Locks
pub mod Access
pub mod Order
use redi_craft.Prelude.{Bool, false, ◌&&◌, none, some, List, [], if◌then◌else◌, Bytes}
use redi_craft.Prelude.Int.{ℤ, ltb_ℤ, pos}
use redi_craft.Table.{Table, find, erase}

-- DataItem, HashItem, ListItem and SetItem; `value` is their value, fields, values or members.
pub record Item (A : Type 0) : Type 0 where
  pub value : A
  pub has_expiry : Bool
  pub expiry : ℤ

-- an item with the default members: no expiry, and the clock's epoch as time point
abbrev pub item : {A : Type 0} → A → Item A
item v = record { value = v; has_expiry = false; expiry = pos 0 }

pub record Storage : Type 0 where
  pub string_data : Table (Item Bytes)
  pub hash_data : Table (Item (Table Bytes))
  pub list_data : Table (Item (List Bytes))
  pub set_data : Table (Item (Table Bool))

abbrev pub init : Storage
init = record { string_data = []; hash_data = []; list_data = []; set_data = [] }

-- the four tables
pub data Kind : Type 0 where
  strings hashes lists sets : Kind

-- the readings of the clock that remove_expired makes, one at each table
abbrev pub Readings : Type 0
Readings = Kind → ℤ

unfoldable pub is_expired : ℤ → ℤ → Bool
is_expired now expiry = ltb_ℤ (pos 0) expiry && ltb_ℤ expiry now

-- the test that remove_expired makes of an item
unfoldable pub has_expired : {A : Type 0} → ℤ → Item A → Bool
unfolding is_expired
has_expired now it = it.has_expiry && is_expired now it.expiry

-- one block of remove_expired
unfoldable pub purge : {A : Type 0} → ℤ → Bytes → Table (Item A) → Table (Item A)
purge now key m = elim (find key m) [
  | none ↦ m
  | some it ↦ if has_expired now it then erase key m else m
]

unfoldable pub remove_expired : Readings → Bytes → Storage → Storage
remove_expired now key s = record {
  string_data = purge (now strings) key s.string_data;
  hash_data = purge (now hashes) key s.hash_data;
  list_data = purge (now lists) key s.list_data;
  set_data = purge (now sets) key s.set_data;
}
