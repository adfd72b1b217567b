-- ===== src/Storage/Invariant/Results.antt =====
-- The predicate that the tables hold, at what the readers of Storage return
-- (RediCraft-Server/src/storage.cpp).
use redi_craft.Prelude.{
  ◌+◌, ◌-◌, ◌≡◌, refl, Option, none, some, List, [], ◌∷◌, if_both, length, All, take-All, drop-All,
  Bytes,
}
use redi_craft.Prelude.Int.{ℤ, ltb_ℤ, pos_part}
use redi_craft.Table.{Table, find}
use redi_craft.Table.Laws.{Entries, find-Entries}
use redi_craft.Storage.{Item, Storage, Readings, remove_expired}
use redi_craft.Storage.Invariant.{IsTextOf, IsStoreOf, remove_expired-IsStoreOf}
use redi_craft.Storage.Strings
use redi_craft.Storage.Hashes
use redi_craft.Storage.Lists
use redi_craft.Storage.Lists.{back, clamp_index, range_of}
use redi_craft.Storage.Sets

-- A predicate of the value, if there is one.
abbrev pub Each : {A : Type 0} → (A → Type 0) → Option A → Type 0
Each P none = Unit
Each P (some v) = P v

module _ {A : Type 0} (P : A → Type 0) where
  back-All : (x : A) (xs : List A) → All P (x ∷ xs) → P (back x xs)
  unfolding back
  back-All x [] h = h.0
  back-All x (y ∷ ys) (px, h) = back-All y ys h

range_of-All :
    (Q : Bytes → Type 0) (values : List Bytes) (start end : ℤ)
    → All Q values
    → All Q (range_of values start end)
unfolding range_of
range_of-All Q [] start end h = tt
range_of-All Q (x ∷ xs) start end h =
    let i = clamp_index (length (x ∷ xs)) start in
    let j = clamp_index (length (x ∷ xs)) end in
    if_both (All Q) (ltb_ℤ j i) [] _ (λ _. tt)
      (take-All Q (pos_part j + 1 - pos_part i) _ (drop-All Q (pos_part i) (x ∷ xs) h))

find-Each :
    (Q : Bytes → Type 0) (f : Bytes) (m : Table Bytes) → Entries (IsTextOf Q) m → Each Q (find f m)
unfolding find
find-Each Q f [] h = tt
find-Each Q f ((g, v) ∷ m) ((qg, qv), h) =
    if_both (Each Q) _ (some v) _ (λ _. qv) (find-Each Q f m h)

-- What a reader makes of the item that it found, by that item.
on_found :
    {A B : Type 0} (G : B → Type 0) (o : Option (Item A)) (missing : B) (f : Item A → B)
    → G missing
    → ((it : Item A) → o ≡ some it → G (f it))
    → G (elim o as (λ _. B) [ none ↦ missing | some it ↦ f it ])
on_found G none missing f h k = h
on_found G (some it) missing f h k = k it refl

module _ {Q : Bytes → Type 0} (now : Readings) (k : Bytes) (s : Storage) (w : IsStoreOf Q s) where
  left : IsStoreOf Q (remove_expired now k s)
  left = remove_expired-IsStoreOf now k s w

  pub get-Each : Each Q (Strings.get now k s).0
  unfolding Strings.get
  get-Each =
      on_found (Each Q) (find k (remove_expired now k s).string_data) none _ tt
        (λ it e. (find-Entries _ k _ it left.texts.values e).1)

  pub hget-Each : (f : Bytes) → Each Q (Hashes.hget now k f s).0
  unfolding Hashes.hget
  hget-Each f =
      on_found (Each Q) (find k (remove_expired now k s).hash_data) none _ tt
        (λ it e. find-Each Q f it.value (find-Entries _ k _ it left.hashes_hold.values e).1.1)

  pub hgetall-Entries : Entries (IsTextOf Q) (Hashes.hgetall now k s).0
  unfolding Hashes.hgetall
  hgetall-Entries =
      on_found (Entries (IsTextOf Q)) (find k (remove_expired now k s).hash_data) [] _ tt
        (λ it e. (find-Entries _ k _ it left.hashes_hold.values e).1.1)

  pub lrange-All : (i j : ℤ) → All Q (Lists.lrange now k i j s).0
  unfolding Lists.lrange
  lrange-All i j =
      on_found (All Q) (find k (remove_expired now k s).list_data) [] _ tt
        (λ it e. range_of-All Q it.value i j (find-Entries _ k _ it left.lists_hold.values e).1)

  pub smembers-Entries : Entries (λ x present. Q x) (Sets.smembers now k s).0
  unfolding Sets.smembers
  smembers-Entries =
      on_found (Entries (λ x present. Q x)) (find k (remove_expired now k s).set_data) [] _ tt
        (λ it e. (find-Entries _ k _ it left.sets_hold.values e).1.0.1)

  rpop_from-Each :
      (it : Item (List Bytes)) (values : List Bytes)
      → All Q values
      → Each Q (Lists.rpop_from k it values (remove_expired now k s)).0
  unfolding Lists.rpop_from
  rpop_from-Each it [] h = tt
  rpop_from-Each it (x ∷ xs) h = back-All Q x xs h

  rpop_found-Each :
      (o : Option (Item (List Bytes)))
      → find k (remove_expired now k s).list_data ≡ o
      → Each Q (Lists.rpop_found k o (remove_expired now k s)).0
  unfolding Lists.rpop_found
  rpop_found-Each none e = tt
  rpop_found-Each (some it) e =
      rpop_from-Each it it.value (find-Entries _ k _ it left.lists_hold.values e).1

  pub rpop-Each : Each Q (Lists.rpop now k s).0
  unfolding Lists.rpop
  rpop-Each = rpop_found-Each _ refl
