-- ===== src/Storage/Access.antt =====
-- The other methods of Storage: ping (RediCraft-Server/src/storage.cpp) and the access to its tables
-- (include/storage.h).
use redi_craft.Prelude.{Bool, true, List, Bytes}
use redi_craft.Table.{Table}
use redi_craft.Storage.{Item, Storage}

unfoldable pub ping : Storage → Bool × Storage
ping s = (true, s)

unfoldable pub get_string_data : Storage → Table (Item Bytes)
get_string_data s = s.string_data

unfoldable pub get_hash_data : Storage → Table (Item (Table Bytes))
get_hash_data s = s.hash_data

unfoldable pub get_list_data : Storage → Table (Item (List Bytes))
get_list_data s = s.list_data

unfoldable pub get_set_data : Storage → Table (Item (Table Bool))
get_set_data s = s.set_data
