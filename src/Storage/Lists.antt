-- ===== src/Storage/Lists.antt =====
-- The list methods of Storage (RediCraft-Server/src/storage.cpp): lpush, rpop, lrange. Sizes are
-- numbers, far below 2^63.
pub mod Laws
pub mod Range
pub mod Queue
use redi_craft.Prelude.{
  ℕ, ◌+◌, ◌-◌, Option, none, some, List, [], ◌∷◌, ◌++◌, if◌then◌else◌, length, take, drop, Bytes,
}
use redi_craft.Prelude.Int.{ℤ, pos_part, ◌+ℤ◌, ◌-ℤ◌, ltb_ℤ, max_ℤ, min_ℤ, pos}
use redi_craft.Table.{find, assign}
use redi_craft.Storage.{Item, item, Storage, Readings, remove_expired}

-- list_data_[key] = it, and a write through an iterator at `key`
unfoldable pub put : Bytes → Item (List Bytes) → Storage → Storage
put key it s = record s { list_data = assign key it s.list_data }

unfoldable pub lpush_found : Bytes → List Bytes → Option (Item (List Bytes)) → Storage → ℕ × Storage
unfolding put
lpush_found key values none s = (length values, put key (item values) s)
lpush_found key values (some it) s =
    let all = values ++ it.value in (length all, put key (record it { value = all }) s)

unfoldable pub lpush : Readings → Bytes → List Bytes → Storage → ℕ × Storage
unfolding lpush_found
lpush now key values s =
    let s' = remove_expired now key s in lpush_found key values (find key s'.list_data) s'

-- back() and pop_back() of a vector that is not empty
unfoldable pub back : {A : Type 0} → A → List A → A
back x [] = x
back x (y ∷ ys) = back y ys

unfoldable pub pop_back : {A : Type 0} → List A → List A
pop_back [] = []
pop_back (x ∷ []) = []
pop_back (x ∷ y ∷ ys) = x ∷ pop_back (y ∷ ys)

unfoldable pub rpop_from : Bytes → Item (List Bytes) → List Bytes → Storage → Option Bytes × Storage
unfolding put
rpop_from key it [] s = (none, s)
rpop_from key it (x ∷ xs) s =
    (some (back x xs), put key (record it { value = pop_back (x ∷ xs) }) s)

unfoldable pub rpop_found : Bytes → Option (Item (List Bytes)) → Storage → Option Bytes × Storage
unfolding rpop_from
rpop_found key none s = (none, s)
rpop_found key (some it) s = rpop_from key it it.value s

unfoldable pub rpop : Readings → Bytes → Storage → Option Bytes × Storage
unfolding rpop_found
rpop now key s = let s' = remove_expired now key s in rpop_found key (find key s'.list_data) s'

-- A negative index counts from the end; then the index is clamped to [0, size - 1].
unfoldable pub clamp_index : ℕ → ℤ → ℤ
clamp_index size i =
    let j = if ltb_ℤ i (pos 0) then pos size +ℤ i else i in
    max_ℤ (pos 0) (min_ℤ j (pos size -ℤ pos 1))

unfoldable pub range_of : List Bytes → ℤ → ℤ → List Bytes
unfolding clamp_index
range_of [] start end = []
range_of (x ∷ xs) start end =
    let values = x ∷ xs in
    let i = clamp_index (length values) start in
    let j = clamp_index (length values) end in
    if ltb_ℤ j i then [] else take (pos_part j + 1 - pos_part i) (drop (pos_part i) values)

unfoldable pub lrange : Readings → Bytes → ℤ → ℤ → Storage → List Bytes × Storage
unfolding range_of
lrange now key start end s =
    let s' = remove_expired now key s in
    (elim (find key s'.list_data) [ none ↦ [] | some it ↦ range_of it.value start end ], s')
