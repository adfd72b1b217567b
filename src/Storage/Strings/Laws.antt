-- ===== src/Storage/Strings/Laws.antt =====
-- get after set, and the counters incr, decr and incrby (RediCraft-Server/src/storage.cpp).
use redi_craft.Prelude.{
  ◌≡◌, refl, sym, ap, ◌∙◌, Option, none, some, arith, if◌then◌else◌, Bytes, bytes_eq,
}
use redi_craft.Prelude.Int.{ℤ, ◌+ℤ◌, ◌-ℤ◌, wrap64, pos, negsuc}
use redi_craft.Table.Laws.{find-assign}
use redi_craft.Number.{to_string, stoll}
use redi_craft.Storage.{Item, item, Storage, Readings, has_expired, purge, remove_expired, strings}
use redi_craft.Storage.View.{value_at, find-purge, find-purge_self}
use redi_craft.Storage.Strings.{
  put, set, get, incr_parsed, incr_found, incr, decr_parsed, decr_found, decr, incrby_parsed,
  incrby_found, incrby,
}

-- The value that get returns is the live one.
pub get_lem :
    (now : Readings) (k : Bytes) (s : Storage)
    → (get now k s).0 ≡ value_at (now strings) k s.string_data
unfolding get value_at remove_expired
get_lem now k s = ground (arith, find-purge_self (now strings) k s.string_data)

value_at-set :
    (now now' : Readings) (k v j : Bytes) (s : Storage)
    → value_at (now' strings) j (set now k v s).1.string_data
      ≡ (if bytes_eq k j then some v else value_at (now' strings) j s.string_data)
unfolding set put value_at has_expired remove_expired
value_at-set now now' k v j s =
    let m = purge (now strings) k s.string_data in
    ground (arith, find-assign k (item v) m j, find-purge (now strings) k s.string_data j)

-- After SET of a key, GET of a key returns the value that was set, and GET of another key what it
-- returned before, whatever had an expiry and whenever it is called.
pub get-set :
    (now now' : Readings) (k v j : Bytes) (s : Storage)
    → (get now' j (set now k v s).1).0 ≡ (if bytes_eq k j then some v else (get now' j s).0)
get-set now now' k v j s =
    get_lem now' j (set now k v s).1
    ∙ value_at-set now now' k v j s
    ∙ ap (λ r. if bytes_eq k j then some v else r) (sym (get_lem now' j s))

-- the number that a counter stands for: 0 for no text, or for one that is no number
abbrev pub count_of : Option Bytes → ℤ
count_of none = pos 0
count_of (some text) = elim (stoll text) [ none ↦ pos 0 | some n ↦ n ]

minus_one : (n : ℤ) → n -ℤ pos 1 ≡ n +ℤ negsuc 0
unfolding ◌-ℤ◌ ◌+ℤ◌
minus_one n = refl

incr_found-incrby_found :
    (k : Bytes) (o : Option (Item Bytes)) (s : Storage)
    → incr_found k o s ≡ incrby_found (pos 1) k o s
unfolding incr_found incrby_found to_string
incr_found-incrby_found k none s = refl
incr_found-incrby_found k (some it) s = parsed (stoll it.value)
  where
    parsed : (n : Option ℤ) → incr_parsed k it n s ≡ incrby_parsed (pos 1) k it n s
    parsed none = refl
    parsed (some n) = refl

decr_found-incrby_found :
    (k : Bytes) (o : Option (Item Bytes)) (s : Storage)
    → decr_found k o s ≡ incrby_found (negsuc 0) k o s
unfolding decr_found incrby_found to_string
decr_found-incrby_found k none s = refl
decr_found-incrby_found k (some it) s = parsed (stoll it.value)
  where
    parsed : (n : Option ℤ) → decr_parsed k it n s ≡ incrby_parsed (negsuc 0) k it n s
    parsed none = refl
    parsed (some n) =
        ap (λ v. (v, put k (record it { value = to_string v }) s)) (ap wrap64 (minus_one n))

-- INCR is INCRBY by 1 and DECR is INCRBY by -1: the three bodies agree in result and storage.
pub incr-decr-incrby :
    (now : Readings) (k : Bytes) (s : Storage)
    → (incr now k s ≡ incrby now k (pos 1) s) × (decr now k s ≡ incrby now k (negsuc 0) s)
unfolding incr decr incrby
incr-decr-incrby now k s = (incr_found-incrby_found k _ _, decr_found-incrby_found k _ _)
