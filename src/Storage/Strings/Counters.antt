-- ===== src/Storage/Strings/Counters.antt =====
-- What incrby computes and leaves behind (RediCraft-Server/src/storage.cpp); incr and decr are
-- instances of it.
use redi_craft.Prelude.{◌≡◌, refl, sym, ap, ◌∙◌, Option, none, some, arith, Bytes}
use redi_craft.Prelude.Int.{ℤ, ◌+ℤ◌, wrap64, IsInt64, wrap64-IsInt64, pos}
use redi_craft.Table.{find}
use redi_craft.Table.Laws.{find_assigned}
use redi_craft.Number.{to_string, stoll}
use redi_craft.Number.RoundTrip.{stoll-to_string}
use redi_craft.Storage.{Item, item, Storage, Readings, has_expired, remove_expired, strings}
use redi_craft.Storage.View.{live, value_at, Outlives, find-purge_self}
use redi_craft.Storage.Strings.{put, get, incrby_parsed, incrby_found, incrby}
use redi_craft.Storage.Strings.Laws.{get_lem, count_of}

abbrev text_of : Option (Item Bytes) → Option Bytes
text_of none = none
text_of (some it) = some it.value

wrap64_zero_add : (a : ℤ) → IsInt64 a → wrap64 (pos 0 +ℤ a) ≡ a
unfolding wrap64 ◌+ℤ◌
wrap64_zero_add a h = ground arith

incrby_found-result :
    (a : ℤ) (k : Bytes) (o : Option (Item Bytes)) (s : Storage)
    → IsInt64 a
    → (incrby_found a k o s).0 ≡ wrap64 (count_of (text_of o) +ℤ a)
unfolding incrby_found
incrby_found-result a k none s h = sym (wrap64_zero_add a h)
incrby_found-result a k (some it) s h = parsed (stoll it.value)
  where
    parsed :
        (n : Option ℤ)
        → (incrby_parsed a k it n s).0 ≡ wrap64 (elim n [ none ↦ pos 0 | some v ↦ v ] +ℤ a)
    parsed none = sym (wrap64_zero_add a h)
    parsed (some n) = refl

-- the item that incrby leaves at its key
incrby_found-value :
    (a : ℤ) (k : Bytes) (o : Option (Item Bytes)) (s : Storage) (later : ℤ)
    → live later o ≡ o
    → value_at later k (incrby_found a k o s).1.string_data
      ≡ some (to_string (incrby_found a k o s).0)
unfolding incrby_found value_at has_expired put
incrby_found-value a k none s later h =
    ground (arith, find_assigned k (item (to_string a)) s.string_data)
incrby_found-value a k (some it) s later h = parsed (stoll it.value)
  where
    parsed :
        (n : Option ℤ)
        → value_at later k (incrby_parsed a k it n s).1.string_data
          ≡ some (to_string (incrby_parsed a k it n s).0)
    parsed none = ground (arith, find_assigned k (item (to_string a)) s.string_data)
    parsed (some n) =
        let it' = record it { value = to_string (wrap64 (n +ℤ a)) } in
        ground (arith, find_assigned k it' s.string_data, h)

-- The text of the live item, as remove_expired leaves it.
text_of-purge :
    (now : Readings) (k : Bytes) (s : Storage)
    → text_of (find k (remove_expired now k s).string_data) ≡ value_at (now strings) k s.string_data
unfolding value_at remove_expired
text_of-purge now k s = ground (arith, find-purge_self (now strings) k s.string_data)

incrby-result :
    (now : Readings) (k : Bytes) (a : ℤ) (s : Storage)
    → IsInt64 a
    → (incrby now k a s).0 ≡ wrap64 (count_of (get now k s).0 +ℤ a)
unfolding incrby
incrby-result now k a s h =
    let s' = remove_expired now k s in
    let p = text_of-purge now k s ∙ sym (get_lem now k s) in
    incrby_found-result a k (find k s'.string_data) s' h ∙ ap (λ t. wrap64 (count_of t +ℤ a)) p

incrby-value_at :
    (now : Readings) (k : Bytes) (a : ℤ) (s : Storage) (later : ℤ)
    → Outlives (now strings) later k s.string_data
    → value_at later k (incrby now k a s).1.string_data ≡ some (to_string (incrby now k a s).0)
unfolding incrby
incrby-value_at now k a s later alive =
    let s' = remove_expired now k s in
    incrby_found-value a k (find k s'.string_data) s' later
      (unfold remove_expired in rw (find-purge_self (now strings) k s.string_data) alive)

incrby-IsInt64 :
    (now : Readings) (k : Bytes) (a : ℤ) (s : Storage) → IsInt64 a → IsInt64 (incrby now k a s).0
incrby-IsInt64 now k a s h = rw (incrby-result now k a s h) (wrap64-IsInt64 _)

count_of-to_string : (n : ℤ) → IsInt64 n → count_of (some (to_string n)) ≡ n
count_of-to_string n h = rw (stoll-to_string n h, count_of) refl

-- INCRBY, by an increment of 64 bits, of a key that does not expire before the next call returns the
-- number at the key, or 0 if the key has none, plus the increment, wrapped to 64 bits; and GET then
-- returns the decimal print of that result.
pub incrby_lem :
    (now now' : Readings) (k : Bytes) (a : ℤ) (s : Storage)
    → IsInt64 a
    → Outlives (now strings) (now' strings) k s.string_data
    → ((incrby now k a s).0 ≡ wrap64 (count_of (get now k s).0 +ℤ a))
      × ((get now' k (incrby now k a s).1).0 ≡ some (to_string (incrby now k a s).0))
incrby_lem now now' k a s h alive = (incrby-result now k a s h, get-incrby)
  where
    get-incrby : (get now' k (incrby now k a s).1).0 ≡ some (to_string (incrby now k a s).0)
    get-incrby =
        get_lem now' k (incrby now k a s).1 ∙ incrby-value_at now k a s (now' strings) alive

-- Two increments, both of 64 bits, of a key that does not expire between them add up: the second
-- INCRBY returns the sum of its increment and the result of the first, wrapped to 64 bits, whatever
-- the key held before.
incrby-incrby :
    (now now' : Readings) (k : Bytes) (a b : ℤ) (s : Storage)
    → IsInt64 a
    → IsInt64 b
    → Outlives (now strings) (now' strings) k s.string_data
    → (incrby now' k b (incrby now k a s).1).0 ≡ wrap64 ((incrby now k a s).0 +ℤ b)
incrby-incrby now now' k a b s ha hb alive =
    let kept = (incrby_lem now now' k a s ha alive).1 in
    incrby-result now' k b (incrby now k a s).1 hb
    ∙ rw kept (ap (λ n. wrap64 (n +ℤ b)) (count_of-to_string _ (incrby-IsInt64 now k a s ha)))
