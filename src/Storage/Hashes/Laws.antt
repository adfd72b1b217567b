-- ===== src/Storage/Hashes/Laws.antt =====
-- hget and hgetall after hset (RediCraft-Server/src/storage.cpp).
use redi_craft.Prelude.{
  ◌≡◌, Option, none, some, [], arith, if◌then◌else◌, Bytes, bytes_eq, bytes_eq_refl,
}
use redi_craft.Prelude.Int.{ℤ}
use redi_craft.Table.{Table, find, assign}
use redi_craft.Table.Laws.{find-assign}
use redi_craft.Storage.{Item, item, Storage, Readings, has_expired, remove_expired, hashes}
use redi_craft.Storage.View.{live, value_at, Outlives, find-purge, find-purge_self}
use redi_craft.Storage.Hashes.{hset_found, hset, hget, hgetall}

-- the fields of the live hash at a key: no hash is a hash with no field
abbrev pub fields_of : Option (Table Bytes) → Table Bytes
fields_of none = []
fields_of (some fields) = fields

pub hgetall_lem :
    (now : Readings) (k : Bytes) (s : Storage)
    → (hgetall now k s).0 ≡ fields_of (value_at (now hashes) k s.hash_data)
unfolding hgetall value_at remove_expired
hgetall_lem now k s = ground (arith, find-purge_self (now hashes) k s.hash_data)

-- HGET returns the entry of the field in what HGETALL returns.
hget-hgetall :
    (now : Readings) (k f : Bytes) (s : Storage) → (hget now k f s).0 ≡ find f (hgetall now k s).0
unfolding hgetall hget find
hget-hgetall now k f s = ground arith

value_at-hset_found :
    (k f v j : Bytes) (o : Option (Item (Table Bytes))) (s : Storage) (later : ℤ)
    → live later o ≡ o
    → value_at later j (hset_found k f v o s).1.hash_data ≡ (
        if bytes_eq k j
        then some (assign f v (elim o [ none ↦ [] | some it ↦ it.value ]))
        else value_at later j s.hash_data)
unfolding hset_found value_at has_expired
value_at-hset_found k f v j none s later h =
    ground (arith, find-assign k (item (assign f v [])) s.hash_data j)
value_at-hset_found k f v j (some it) s later h =
    ground (arith, find-assign k (record it { value = assign f v it.value }) s.hash_data j)

value_at-hset :
    (now : Readings) (k f v j : Bytes) (s : Storage) (later : ℤ)
    → Outlives (now hashes) later k s.hash_data
    → value_at later j (hset now k f v s).1.hash_data ≡ (
        if bytes_eq k j
        then some (assign f v (hgetall now k s).0)
        else value_at later j s.hash_data)
unfolding hset hgetall remove_expired
value_at-hset now k f v j s later alive =
    let s' = remove_expired now k s in
    let p = find-purge_self (now hashes) k s.hash_data in
    let q = find-purge (now hashes) k s.hash_data j in
    unfold value_at in
    ground (arith, value_at-hset_found k f v j (find k s'.hash_data) s' later (rw p alive), q)

-- After HSET of a field of a key that does not expire before the next call, HGETALL of the key
-- returns the fields that it would have returned, with the new value at the field; HGETALL of
-- another key returns what it would have returned.
pub hgetall-hset :
    (now now' : Readings) (k f v j : Bytes) (s : Storage)
    → Outlives (now hashes) (now' hashes) k s.hash_data
    → (hgetall now' j (hset now k f v s).1).0
      ≡ (if bytes_eq k j then assign f v (hgetall now k s).0 else (hgetall now' j s).0)
hgetall-hset now now' k f v j s alive = ground (
  arith,
  hgetall_lem now' j (hset now k f v s).1,
  hgetall_lem now' j s,
  value_at-hset now k f v j s (now' hashes) alive,
)

-- After HSET of a field of a key that does not expire before the next call, HGET of that field
-- returns the new value, and HGET of any other field of the key what it returned before.
hget-hset :
    (now now' : Readings) (k f v g : Bytes) (s : Storage)
    → Outlives (now hashes) (now' hashes) k s.hash_data
    → (hget now' k g (hset now k f v s).1).0 ≡ (if bytes_eq f g then some v else (hget now k g s).0)
hget-hset now now' k f v g s alive = ground (
  arith,
  hget-hgetall now' k g (hset now k f v s).1,
  hget-hgetall now k g s,
  hgetall-hset now now' k f v k s alive,
  bytes_eq_refl k,
  find-assign f v (hgetall now k s).0 g,
)
