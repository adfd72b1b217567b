-- ===== src/Storage/Expiry.antt =====
-- The expiry methods of Storage (RediCraft-Server/src/storage.cpp): expire, ttl.
pub mod Laws
use redi_craft.Prelude.{
  ℕ, suc, ◌/◌, ◌^◌, Bool, true, false, Option, none, some, if◌then◌else◌, Bytes,
}
use redi_craft.Prelude.Int.{ℤ, sub_ℕ, ◌+ℤ◌, ◌-ℤ◌, scale, wrap64, pos, negsuc}
use redi_craft.Table.{Table, find, assign, erase}
use redi_craft.Storage.{Item, Storage, Readings, is_expired, strings, hashes, lists, sets}

abbrev pub nanoseconds : ℕ
nanoseconds = 10 ^ 9

-- now() + std::chrono::seconds(seconds)
unfoldable pub expiry_time : ℤ → ℤ → ℤ
expiry_time now seconds = wrap64 (now +ℤ scale nanoseconds seconds)

-- one block of expire: `none` if the table has no such key
unfoldable pub expire_in : {A : Type 0} → ℤ → Bytes → Table (Item A) → Option (Table (Item A))
expire_in time key m = elim (find key m) [
  | none ↦ none
  | some it ↦ some (assign key (record it { has_expiry = true; expiry = time }) m)
]

unfoldable pub expire_sets : ℤ → Bytes → Storage → Bool × Storage
expire_sets time key s = elim (expire_in time key s.set_data) [
  | none ↦ (false, s)
  | some m ↦ (true, record s { set_data = m })
]

unfoldable pub expire_lists : ℤ → Bytes → Storage → Bool × Storage
unfolding expire_sets
expire_lists time key s = elim (expire_in time key s.list_data) [
  | none ↦ expire_sets time key s
  | some m ↦ (true, record s { list_data = m })
]

unfoldable pub expire_hashes : ℤ → Bytes → Storage → Bool × Storage
unfolding expire_lists
expire_hashes time key s = elim (expire_in time key s.hash_data) [
  | none ↦ expire_lists time key s
  | some m ↦ (true, record s { hash_data = m })
]

-- the four blocks in the order of the source; the first table that has the key ends the search
unfoldable pub expire : ℤ → Bytes → ℤ → Storage → Bool × Storage
unfolding expire_hashes
expire now key seconds s =
    let time = expiry_time now seconds in
    elim (expire_in time key s.string_data) [
      | none ↦ expire_hashes time key s
      | some m ↦ (true, record s { string_data = m })
    ]

-- duration_cast to seconds truncates towards zero
unfoldable pub whole_seconds : ℤ → ℤ
whole_seconds (pos n) = pos (n / nanoseconds)
whole_seconds (negsuc n) = sub_ℕ 0 (suc n / nanoseconds)

-- One block of ttl: `none` if the table has no such key. `start` is the reading at the head of ttl,
-- `now` that of is_expired.
unfoldable pub ttl_in : {A : Type 0} → ℤ → ℤ → Bytes → Table (Item A) → Option (ℤ × Table (Item A))
ttl_in start now key m = elim (find key m) [
  | none ↦ none
  | some it ↦
      if it.has_expiry
      then (if is_expired now it.expiry
          then some (negsuc 1, erase key m)
          else some (whole_seconds (wrap64 (it.expiry -ℤ start)), m))
      else some (negsuc 0, m)
]

unfoldable pub ttl_sets : ℤ → Readings → Bytes → Storage → ℤ × Storage
ttl_sets start now key s = elim (ttl_in start (now sets) key s.set_data) [
  | none ↦ (negsuc 1, s)
  | some (r, m) ↦ (r, record s { set_data = m })
]

unfoldable pub ttl_lists : ℤ → Readings → Bytes → Storage → ℤ × Storage
unfolding ttl_sets
ttl_lists start now key s = elim (ttl_in start (now lists) key s.list_data) [
  | none ↦ ttl_sets start now key s
  | some (r, m) ↦ (r, record s { list_data = m })
]

unfoldable pub ttl_hashes : ℤ → Readings → Bytes → Storage → ℤ × Storage
unfolding ttl_lists
ttl_hashes start now key s = elim (ttl_in start (now hashes) key s.hash_data) [
  | none ↦ ttl_lists start now key s
  | some (r, m) ↦ (r, record s { hash_data = m })
]

unfoldable pub ttl : ℤ → Readings → Bytes → Storage → ℤ × Storage
unfolding ttl_hashes
ttl start now key s = elim (ttl_in start (now strings) key s.string_data) [
  | none ↦ ttl_hashes start now key s
  | some (r, m) ↦ (r, record s { string_data = m })
]
