-- ===== src/Storage/View.antt =====
-- What a client can see of a table of Storage at a time: the items that have not expired. Expiry
-- is tested as is_expired and remove_expired test it (RediCraft-Server/src/storage.cpp).
use redi_craft.Prelude.{
  ◌≡◌, refl, Option, none, some, arith, if◌then◌else◌, Bytes, bytes_eq, key_laws, bytes_eq_refl,
}
use redi_craft.Prelude.Int.{ℤ, ◌≤ℤ◌}
use redi_craft.Table.{Table, find, IsTable}
use redi_craft.Table.Laws.{find-erase, erase-IsTable}
use redi_craft.Storage.{Item, has_expired, purge}

-- the item, unless it has expired
unfoldable pub live : {A : Type 0} → ℤ → Option (Item A) → Option (Item A)
live now none = none
live now (some it) = if has_expired now it then none else some it

-- the value of the live item of a key
unfoldable pub value_at : {A : Type 0} → ℤ → Bytes → Table (Item A) → Option A
unfolding live
value_at now key m = elim (live now (find key m)) [ none ↦ none | some it ↦ some it.value ]

-- The item of the key, if there is one now, has not expired at the later reading.
abbrev pub Outlives : {A : Type 0} → ℤ → ℤ → Bytes → Table (Item A) → Type 0
Outlives now later key m = live later (live now (find key m)) ≡ live now (find key m)

pub find-purge :
    {A : Type 0} (now : ℤ) (k : Bytes) (m : Table (Item A)) (j : Bytes)
    → find j (purge now k m) ≡ (if bytes_eq k j then live now (find j m) else find j m)
unfolding purge live
find-purge now k m j = grind (key_laws, find-erase k m j)

pub find-purge_self :
    {A : Type 0} (now : ℤ) (k : Bytes) (m : Table (Item A))
    → find k (purge now k m) ≡ live now (find k m)
find-purge_self now k m = rw (find-purge now k m k, bytes_eq_refl k) refl

-- What has expired stays expired.
pub live-live :
    {A : Type 0} (now later : ℤ) (o : Option (Item A))
    → now ≤ℤ later
    → live later (live now o) ≡ live later o
unfolding live has_expired
live-live now later o h = ground arith

pub live-purge :
    {A : Type 0} (now later : ℤ) (k : Bytes) (m : Table (Item A)) (j : Bytes)
    → now ≤ℤ later
    → live later (find j (purge now k m)) ≡ live later (find j m)
live-purge now later k m j h =
    ground (arith, find-purge now k m j, live-live now later (find j m) h)

purge-IsTable :
    {A : Type 0} (now : ℤ) (k : Bytes) (m : Table (Item A)) → IsTable m → IsTable (purge now k m)
unfolding purge
purge-IsTable now k m h = ground (arith, erase-IsTable k m h)
