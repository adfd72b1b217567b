-- ===== src/Storage/Reads.antt =====
-- What the methods that read leave behind: they only call remove_expired
-- (RediCraft-Server/src/storage.cpp).
use redi_craft.Prelude.{◌≡◌, sym, ap, ◌∙◌, Option, none, some, Bytes}
use redi_craft.Prelude.Int.{ℤ, ◌≤ℤ◌}
use redi_craft.Table.{Table}
use redi_craft.Storage.{
  Item, Storage, Kind, Readings, purge, remove_expired, strings, hashes, lists, sets,
}
use redi_craft.Storage.View.{value_at, live-purge}
use redi_craft.Storage.Strings.{get}
use redi_craft.Storage.Strings.Laws.{get_lem}
use redi_craft.Storage.Hashes.{hgetall}
use redi_craft.Storage.Hashes.Laws.{fields_of, hgetall_lem}
use redi_craft.Storage.Lists.{range_of, lrange}
use redi_craft.Storage.Lists.Laws.{values_of, values_at, lrange_lem}
use redi_craft.Storage.Sets.{smembers}
use redi_craft.Storage.Sets.Laws.{members_of, members_at, smembers_lem}

value_at-purge :
    {A : Type 0} (now later : ℤ) (k : Bytes) (m : Table (Item A)) (j : Bytes)
    → now ≤ℤ later
    → value_at later j (purge now k m) ≡ value_at later j m
unfolding value_at
value_at-purge {A} now later k m j h =
    ap
      (λ (o : Option (Item A)). elim o as (λ _. Option A) [ none ↦ none | some it ↦ some it.value ])
      (live-purge now later k m j h)

-- For each table, the second reading is not before the first.
abbrev pub NotBefore : Readings → Readings → Type 0
NotBefore now later = (t : Kind) → now t ≤ℤ later t

-- remove_expired cannot be observed: whatever it erases, GET, HGETALL, LRANGE and SMEMBERS of any key
-- return, at readings of the clock that are not before its own, what they would have returned had
-- it not been called.
remove_expired_unseen :
    (now later : Readings) (k j : Bytes) (start end : ℤ) (s : Storage)
    → NotBefore now later
    → let s' = remove_expired now k s in
      ((get later j s').0 ≡ (get later j s).0)
      × ((hgetall later j s').0 ≡ (hgetall later j s).0)
      × ((lrange later j start end s').0 ≡ (lrange later j start end s).0)
      × ((smembers later j s').0 ≡ (smembers later j s).0)
unfolding remove_expired values_at members_at
remove_expired_unseen now later k j start end s h =
    let s' = remove_expired now k s in
    let text = value_at-purge (now strings) (later strings) k s.string_data j (h strings) in
    let hash = value_at-purge (now hashes) (later hashes) k s.hash_data j (h hashes) in
    let list = value_at-purge (now lists) (later lists) k s.list_data j (h lists) in
    let members = value_at-purge (now sets) (later sets) k s.set_data j (h sets) in
    (
      get_lem later j s' ∙ text ∙ sym (get_lem later j s),
      hgetall_lem later j s' ∙ ap fields_of hash ∙ sym (hgetall_lem later j s),
      lrange_lem later j s' start end
          ∙ ap (λ o. range_of (values_of o) start end) list
          ∙ sym (lrange_lem later j s start end),
      smembers_lem later j s' ∙ ap members_of members ∙ sym (smembers_lem later j s),
    )
