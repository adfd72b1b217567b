-- ===== src/Storage/Expiry/Laws.antt =====
-- When an expiry takes effect, and what ttl says of it (RediCraft-Server/src/storage.cpp).
use redi_craft.Prelude.{
  ℕ, suc, ◌+◌, ◌-◌, ◌*◌, ◌/◌, ◌≤◌, ◌<◌, ◌≡◌, refl, ◌∙◌, Bool, true, false, ◌&&◌, ◌||◌, none, some,
  arith, ltb, if◌then◌else◌, Bytes,
}
use redi_craft.Prelude.Int.{
  ℤ, ◌+ℤ◌, ◌-ℤ◌, ltb_ℤ, scale, half64, wrap64, IsInt64, wrap64_id, pos, negsuc,
}
use redi_craft.Table.{find, is_some}
use redi_craft.Table.Laws.{find_assigned}
use redi_craft.Storage.{Item, Storage, Readings, is_expired, has_expired, strings}
use redi_craft.Storage.View.{value_at}
use redi_craft.Storage.Strings.{get}
use redi_craft.Storage.Strings.Laws.{get_lem}
use redi_craft.Storage.Expiry.{
  nanoseconds, expiry_time, expire_in, expire, whole_seconds, ttl_in, ttl,
}

-- The tables have a key.
abbrev pub present : Bytes → Storage → Bool
present key s =
    is_some (find key s.string_data)
    || is_some (find key s.hash_data)
    || is_some (find key s.list_data)
    || is_some (find key s.set_data)

-- EXPIRE reports success exactly if some table holds the key, expired or not; otherwise it changes
-- nothing.
expire-present :
    (now : ℤ) (k : Bytes) (seconds : ℤ) (s : Storage)
    → ((expire now k seconds s).0 ≡ present k s)
      × (present k s ≡ false → (expire now k seconds s).1 ≡ s)
unfolding expire expire_in
expire-present now k seconds s = ground arith

-- the time point, where the computation does not overflow
expiry_time_lem :
    (now seconds : ℤ)
    → IsInt64 (now +ℤ scale nanoseconds seconds)
    → expiry_time now seconds ≡ now +ℤ scale nanoseconds seconds
unfolding expiry_time
expiry_time_lem now seconds h = wrap64_id _ h

-- what expire writes for a key with a text
find-expire :
    (now : ℤ) (k : Bytes) (seconds : ℤ) (s : Storage) (it : Item Bytes)
    → find k s.string_data ≡ some it
    → find k (expire now k seconds s).1.string_data
      ≡ some (record it { has_expiry = true; expiry = expiry_time now seconds })
unfolding expire expire_in
find-expire now k seconds s it h =
    let it' = record it { has_expiry = true; expiry = expiry_time now seconds } in
    ground (arith, h, find_assigned k it' s.string_data)

-- After EXPIRE of a key with a text, expired or not, whose time point fits in 64 bits: GET returns
-- the text as long as the clock has not passed the time point, and nothing from then on; if the time
-- point is not after the clock's epoch, GET returns the text always.
pub get-expire :
    (now : ℤ) (at : Readings) (k : Bytes) (seconds : ℤ) (s : Storage) (it : Item Bytes)
    → find k s.string_data ≡ some it
    → IsInt64 (now +ℤ scale nanoseconds seconds)
    → (get at k (expire now k seconds s).1).0 ≡ (
        if ltb_ℤ (pos 0) (now +ℤ scale nanoseconds seconds)
          && ltb_ℤ (now +ℤ scale nanoseconds seconds) (at strings)
        then none
        else some it.value)
get-expire now at k seconds s it h fits =
    get_lem at k (expire now k seconds s).1
    ∙ (unfold value_at has_expired is_expired in
        ground (arith, find-expire now k seconds s it h, expiry_time_lem now seconds fits))

ttl_found :
    (start : ℤ) (at : Readings) (k : Bytes) (s : Storage) (it : Item Bytes)
    → find k s.string_data ≡ some it
    → it.has_expiry ≡ true
    → (ttl start at k s).0 ≡ (
        if is_expired (at strings) it.expiry
        then negsuc 1
        else whole_seconds (wrap64 (it.expiry -ℤ start)))
unfolding ttl ttl_in
ttl_found start at k s it h e = ground (arith, h, e)

-- the number of whole seconds between two time points of the epoch
whole_seconds_between :
    (a b : ℕ)
    → a ≤ b
    → b < half64
    → whole_seconds (wrap64 (pos b -ℤ pos a)) ≡ pos ((b - a) / nanoseconds)
unfolding whole_seconds wrap64 ◌-ℤ◌
whole_seconds_between a b h fits = ground arith

expiry_time_pos :
    (a n : ℕ)
    → a + nanoseconds * n < half64
    → expiry_time (pos a) (pos n) ≡ pos (a + nanoseconds * n)
unfolding expiry_time wrap64 scale ◌+ℤ◌
expiry_time_pos a n h = ground arith

-- After EXPIRE of a key with a text by a positive number of seconds, at a time not before the clock's
-- epoch and with a time point below 2^63, TTL returns the seconds left, rounded down, until the time
-- point has passed, and then -2.
pub ttl-expire :
    (now start last : ℕ) (at : Readings) (k : Bytes) (n : ℕ) (s : Storage) (it : Item Bytes)
    → find k s.string_data ≡ some it
    → start ≤ last
    → at strings ≡ pos last
    → now + nanoseconds * suc n < half64
    → (ttl (pos start) at k (expire (pos now) k (pos (suc n)) s).1).0 ≡ (
        if ltb (now + nanoseconds * suc n) last
        then negsuc 1
        else pos ((now + nanoseconds * suc n - start) / nanoseconds))
ttl-expire now start last at k n s it h later reading fits =
    let time = now + nanoseconds * suc n in
    let it' = record it { has_expiry = true; expiry = expiry_time (pos now) (pos (suc n)) } in
    let s' = (expire (pos now) k (pos (suc n)) s).1 in
    let found = find-expire (pos now) k (pos (suc n)) s it h in
    ttl_found (pos start) at k s' it' found refl
    ∙ rw (expiry_time_pos now (suc n) fits, reading)
        (unfold is_expired in ground (arith, whole_seconds_between start time))
