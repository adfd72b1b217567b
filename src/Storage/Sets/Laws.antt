-- ===== src/Storage/Sets/Laws.antt =====
-- Membership and the counts of sadd, srem and scard (RediCraft-Server/src/storage.cpp).
use redi_craft.Prelude.{
  ℕ, ◌+◌, ◌≡◌, refl, Bool, true, false, not, ◌&&◌, ◌||◌, Option, none, some, List, [], ◌∷◌, arith,
  if◌then◌else◌, length, Bytes, bytes_eq, key_laws,
}
use redi_craft.Prelude.Int.{ℤ}
use redi_craft.Table.{Table, find, assign, erase, is_some, IsTable}
use redi_craft.Table.Laws.{find-assign, find-erase, erase-IsTable, length-assign, length-erase}
use redi_craft.Storage.{Storage, Readings, remove_expired, sets}
use redi_craft.Storage.View.{value_at, find-purge_self}
use redi_craft.Storage.Sets.{add_members, fresh_members, remove_members, sismember, smembers, scard}

-- whether a member is in a list of members
unfoldable pub listed : Bytes → List Bytes → Bool
listed x [] = false
listed x (y ∷ ys) = bytes_eq y x || listed x ys

pub add_members-count :
    (ms : List Bytes) (m : Table Bool) (n : ℕ)
    → (add_members ms m n).1 + length m ≡ n + length (add_members ms m n).0
unfolding add_members
add_members-count [] m n = omega arith
add_members-count (x ∷ ms) m n =
    let m' = if is_some (find x m) then m else assign x true m in
    let n' = if is_some (find x m) then n else n + 1 in
    ground (arith, add_members-count ms m' n', length-assign x true m)

pub is_some-add_members :
    (ms : List Bytes) (m : Table Bool) (n : ℕ) (x : Bytes)
    → is_some (find x (add_members ms m n).0) ≡ listed x ms || is_some (find x m)
unfolding add_members listed
is_some-add_members [] m n x = refl
is_some-add_members (y ∷ ms) m n x =
    let m' = if is_some (find y m) then m else assign y true m in
    let n' = if is_some (find y m) then n else n + 1 in
    grind (key_laws, is_some-add_members ms m' n' x, find-assign y true m x)

pub fresh_members-count :
    (ms : List Bytes) (m : Table Bool) (n : ℕ) → (fresh_members ms m n).1 ≡ n + length ms
unfolding fresh_members
fresh_members-count [] m n = omega arith
fresh_members-count (x ∷ ms) m n = omega (arith, fresh_members-count ms (assign x true m) (n + 1))

pub is_some-fresh_members :
    (ms : List Bytes) (m : Table Bool) (n : ℕ) (x : Bytes)
    → is_some (find x (fresh_members ms m n).0) ≡ listed x ms || is_some (find x m)
unfolding fresh_members listed
is_some-fresh_members [] m n x = refl
is_some-fresh_members (y ∷ ms) m n x =
    ground (arith, is_some-fresh_members ms (assign y true m) (n + 1) x, find-assign y true m x)

pub remove_members-count :
    (ms : List Bytes) (m : Table Bool) (n : ℕ)
    → IsTable m
    → (remove_members ms m n).1 + length (remove_members ms m n).0 ≡ n + length m
unfolding remove_members
remove_members-count [] m n h = refl
remove_members-count (x ∷ ms) m n h =
    let n' = if is_some (find x m) then n + 1 else n in
    ground (arith, remove_members-count ms (erase x m) n' (erase-IsTable x m h), length-erase x m h)

pub is_some-remove_members :
    (ms : List Bytes) (m : Table Bool) (n : ℕ) (x : Bytes)
    → is_some (find x (remove_members ms m n).0) ≡ not (listed x ms) && is_some (find x m)
unfolding remove_members listed
is_some-remove_members [] m n x = refl
is_some-remove_members (y ∷ ms) m n x =
    let n' = if is_some (find y m) then n + 1 else n in
    ground (arith, is_some-remove_members ms (erase y m) n' x, find-erase y m x)

-- the members of the live set at a key: no set is the empty set
abbrev pub members_of : Option (Table Bool) → Table Bool
members_of none = []
members_of (some members) = members

unfoldable pub members_at : ℤ → Bytes → Storage → Table Bool
unfolding value_at
members_at now k s = members_of (value_at now k s.set_data)

-- SMEMBERS returns the live set; SISMEMBER and SCARD look a member up in it and count it.
pub smembers_lem :
    (now : Readings) (k : Bytes) (s : Storage) → (smembers now k s).0 ≡ members_at (now sets) k s
unfolding smembers members_at remove_expired
smembers_lem now k s = ground (arith, find-purge_self (now sets) k s.set_data)

pub sismember_lem :
    (now : Readings) (k x : Bytes) (s : Storage)
    → (sismember now k x s).0 ≡ is_some (find x (members_at (now sets) k s))
unfolding sismember members_at remove_expired find
sismember_lem now k x s = ground (arith, find-purge_self (now sets) k s.set_data)

pub scard_lem :
    (now : Readings) (k : Bytes) (s : Storage)
    → (scard now k s).0 ≡ length (members_at (now sets) k s)
unfolding scard members_at remove_expired
scard_lem now k s = ground (arith, find-purge_self (now sets) k s.set_data)
