-- ===== src/Benchmark/Shows.antt =====
-- The storage as the benchmark (RediCraft-Server/src/benchmark.cpp) meets it: texts with no expiry.
use redi_craft.Prelude.{◌≡◌, refl, Option, none, some, arith, if◌then◌else◌, Bytes, codes, bytes_eq}
use redi_craft.Prelude.Int.{ℤ, ◌+ℤ◌, wrap64, pos}
use redi_craft.Table.{find}
use redi_craft.Table.Laws.{find-assign}
use redi_craft.Number.{to_string, stoll}
use redi_craft.Storage.{Item, item, Storage, Readings, has_expired, remove_expired, strings}
use redi_craft.Storage.View.{live, find-purge}
use redi_craft.Storage.Strings.{put, set, get, incr_parsed, incr_found, incr}

-- an item with no expiry
abbrev item_of : Option Bytes → Option (Item Bytes)
item_of none = none
item_of (some text) = some (item text)

-- The texts of the storage are those of the function, and none of them expires.
abbrev pub Shows : Storage → (Bytes → Option Bytes) → Type 0
Shows s f = (j : Bytes) → find j s.string_data ≡ item_of (f j)

abbrev pub change : Bytes → Bytes → (Bytes → Option Bytes) → Bytes → Option Bytes
change k v f j = if bytes_eq k j then some v else f j

live-item_of : (now : ℤ) (o : Option Bytes) → live now (item_of o) ≡ item_of o
unfolding live has_expired
live-item_of now none = refl
live-item_of now (some text) = refl

remove_expired-Shows :
    (now : Readings) (k : Bytes) (s : Storage) (f : Bytes → Option Bytes)
    → Shows s f
    → Shows (remove_expired now k s) f
unfolding remove_expired
remove_expired-Shows now k s f h j =
    ground
      (arith, find-purge (now strings) k s.string_data j, h j, live-item_of (now strings) (f j))

put-Shows :
    (k v : Bytes) (s : Storage) (f : Bytes → Option Bytes)
    → Shows s f
    → Shows (put k (item v) s) (change k v f)
unfolding put
put-Shows k v s f h j = ground (arith, find-assign k (item v) s.string_data j, h j)

pub set-Shows :
    (now : Readings) (k v : Bytes) (s : Storage) (f : Bytes → Option Bytes)
    → Shows s f
    → Shows (set now k v s).1 (change k v f)
unfolding set
set-Shows now k v s f h =
    put-Shows k v (remove_expired now k s) f (remove_expired-Shows now k s f h)

pub get-Shows :
    (now : Readings) (k : Bytes) (s : Storage) (f : Bytes → Option Bytes)
    → Shows s f
    → ((get now k s).0 ≡ f k) × Shows (get now k s).1 f
unfolding get
get-Shows now k s f h =
    let kept = remove_expired-Shows now k s f h in (value_of (f k) (kept k), kept)
  where
    value_of :
        {o : Option (Item Bytes)} (t : Option Bytes)
        → o ≡ item_of t
        → (elim o as (λ _. Option Bytes) [ none ↦ none | some it ↦ some it.value ]) ≡ t
    value_of none e = rw e refl
    value_of (some text) e = rw e refl

-- the text that incr leaves
abbrev pub next : Option Bytes → Bytes
next none = codes "1"
next (some text) = elim (stoll text) as (λ _. Bytes) [
  | none ↦ codes "1"
  | some n ↦ to_string (wrap64 (n +ℤ pos 1))
]

incr_found-put :
    (k : Bytes) (o : Option Bytes) (s : Storage)
    → (incr_found k (item_of o) s).1 ≡ put k (item (next o)) s
unfolding incr_found
incr_found-put k none s = refl
incr_found-put k (some text) s = parsed (stoll text)
  where
    parsed :
        (n : Option ℤ)
        → (incr_parsed k (item text) n s).1
          ≡ put k
              (item (elim n as (λ _. Bytes) [
                | none ↦ codes "1"
                | some v ↦ to_string (wrap64 (v +ℤ pos 1))
              ]))
              s
    parsed none = refl
    parsed (some n) = refl

pub incr-Shows :
    (now : Readings) (k : Bytes) (s : Storage) (f : Bytes → Option Bytes)
    → Shows s f
    → Shows (incr now k s).1 (change k (next (f k)) f)
unfolding incr
incr-Shows now k s f h =
    let s' = remove_expired now k s in
    let kept = remove_expired-Shows now k s f h in
    rw (kept k, incr_found-put k (f k) s') (put-Shows k (next (f k)) s' f kept)
