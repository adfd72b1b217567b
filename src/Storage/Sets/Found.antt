-- ===== src/Storage/Sets/Found.antt =====
-- What sadd and srem do to the set that they find at their key
-- (RediCraft-Server/src/storage.cpp).
use redi_craft.Prelude.{
  ℕ, ◌+◌, ◌≡◌, refl, ◌≢◌, Bool, false, ◌||◌, Option, none, some, List, [], ◌∷◌, arith,
  if◌then◌else◌, length, Bytes, bytes_eq, bytes_eq_refl,
}
use redi_craft.Prelude.Int.{ℤ}
use redi_craft.Table.{Table, find, erase, is_some}
use redi_craft.Table.Laws.{find-assign, find-erase}
use redi_craft.Storage.{Item, item, Storage, has_expired}
use redi_craft.Storage.View.{live}
use redi_craft.Storage.Sets.{
  put, add_members, fresh_members, sadd_found, remove_members, keep_set, srem_found,
}
use redi_craft.Storage.Sets.Laws.{
  listed, add_members-count, is_some-add_members, fresh_members-count, is_some-fresh_members,
  members_at,
}

-- the members behind an iterator: none for end()
abbrev pub found_members : Option (Item (Table Bool)) → Table Bool
found_members none = []
found_members (some it) = it.value

members_at-put :
    (k : Bytes) (it : Item (Table Bool)) (s : Storage) (later : ℤ) (j : Bytes)
    → has_expired later it ≡ false
    → members_at later j (put k it s) ≡ (if bytes_eq k j then it.value else members_at later j s)
unfolding members_at put
members_at-put k it s later j h = ground (arith, find-assign k it s.set_data j)

live-some :
    {A : Type 0} (later : ℤ) (it : Item A)
    → live later (some it) ≡ some it
    → has_expired later it ≡ false
unfolding live has_expired
live-some later it h = ground arith

find_empty : (x : Bytes) → find {V = Bool} x [] ≡ none
unfolding find
find_empty x = refl

-- sadd leaves a set in which a member is found exactly if it was listed or found before
pub is_some-sadd_found :
    (k : Bytes) (ms : List Bytes) (o : Option (Item (Table Bool))) (s : Storage) (later : ℤ)
    (j x : Bytes)
    → live later o ≡ o
    → is_some (find x (members_at later j (sadd_found k ms o s).1)) ≡ (
        if bytes_eq k j
        then listed x ms || is_some (find x (found_members o))
        else is_some (find x (members_at later j s)))
unfolding sadd_found
is_some-sadd_found k ms none s later j x h =
    let m = (fresh_members ms [] 0).0 in
    rw (members_at-put k (item m) s later j (unfold has_expired in refl))
      (ground (arith, is_some-fresh_members ms [] 0 x, find_empty x))
is_some-sadd_found k ms (some it) s later j x h =
    let it' = record it { value = (add_members ms it.value 0).0 } in
    rw (members_at-put k it' s later j (unfold has_expired in live-some later it h))
      (ground (arith, is_some-add_members ms it.value 0 x))

-- the members at the key after srem: a set with none left is no longer there
members_at-keep_set :
    (k : Bytes) (it : Item (Table Bool)) (m : Table Bool) (s : Storage) (later : ℤ) (j : Bytes)
    → has_expired later it ≡ false
    → members_at later j (keep_set k it m s) ≡ (if bytes_eq k j then m else members_at later j s)
unfolding keep_set
members_at-keep_set k it [] s later j h =
    unfold members_at in ground (arith, find-erase k s.set_data j)
members_at-keep_set k it (x ∷ m) s later j h =
    members_at-put k (record it { value = x ∷ m }) s later j (unfold has_expired in h)

pub sadd_found-count :
    (k : Bytes) (ms : List Bytes) (o : Option (Item (Table Bool))) (s : Storage) (later : ℤ)
    → live later o ≡ o
    → o ≢ none
    → (sadd_found k ms o s).0 + length (found_members o)
      ≡ length (members_at later k (sadd_found k ms o s).1)
unfolding sadd_found
sadd_found-count k ms none s later h there = absurd (there refl)
sadd_found-count k ms (some it) s later h there =
    let it' = record it { value = (add_members ms it.value 0).0 } in
    rw
      (members_at-put k it' s later k (unfold has_expired in live-some later it h), bytes_eq_refl k)
      (omega (arith, add_members-count ms it.value 0))

pub remove_members-empty : (ms : List Bytes) (n : ℕ) → remove_members ms [] n ≡ ([], n)
unfolding remove_members erase find
remove_members-empty [] n = refl
remove_members-empty (x ∷ ms) n = remove_members-empty ms n

-- the members at the key after srem
pub members_at-srem_found :
    (k : Bytes) (ms : List Bytes) (o : Option (Item (Table Bool))) (s : Storage) (later : ℤ)
    → live later o ≡ o
    → find k s.set_data ≡ o
    → members_at later k (srem_found k ms o s).1 ≡ (remove_members ms (found_members o) 0).0
unfolding srem_found
members_at-srem_found k ms none s later h e =
    unfold members_at in ground (arith, remove_members-empty ms 0)
members_at-srem_found k ms (some it) s later h e =
    rw (members_at-keep_set k it (remove_members ms it.value 0).0 s later k (live-some later it h))
      (rw bytes_eq_refl)

pub srem_found-result :
    (k : Bytes) (ms : List Bytes) (o : Option (Item (Table Bool))) (s : Storage)
    → (srem_found k ms o s).0 ≡ (remove_members ms (found_members o) 0).1
unfolding srem_found
srem_found-result k ms none s = ground (arith, remove_members-empty ms 0)
srem_found-result k ms (some it) s = refl

pub sadd_found-none-count :
    (k : Bytes) (ms : List Bytes) (s : Storage) (later : ℤ)
    → ((sadd_found k ms none s).0 ≡ length ms)
      × (members_at later k (sadd_found k ms none s).1 ≡ (fresh_members ms [] 0).0)
unfolding sadd_found
sadd_found-none-count k ms s later = (
  omega (arith, fresh_members-count ms [] 0),
  rw (members_at-put k (item (fresh_members ms [] 0).0) s later k (unfold has_expired in refl))
      (rw bytes_eq_refl),
)
