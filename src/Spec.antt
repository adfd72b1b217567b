-- ===== src/Spec.antt =====
-- What the storage promises its clients, with no tables, no locks and no cleaning up: a store maps a
-- key to an item in each of four kinds, and an item is seen until it expires. The functions have the
-- names of the methods of RediCraft-Server/include/storage.h.
pub mod Agrees
pub mod Texts
pub mod Collections
pub mod Lifetimes
pub mod Respond
pub mod Refines
use redi_craft.Prelude.{
  ℕ, Bool, true, false, Option, none, some, List, [], ◌∷◌, ◌++◌, if◌then◌else◌, length, Bytes,
  bytes_eq,
}
use redi_craft.Prelude.Int.{ℤ, ◌+ℤ◌, ◌-ℤ◌, wrap64, pos, negsuc}
use redi_craft.Table.{Table, find, assign, is_some}
use redi_craft.Number.{to_string, stoll}
use redi_craft.Storage.{Item, item, Readings, strings, hashes, lists, sets}
use redi_craft.Storage.View.{live}
use redi_craft.Storage.Lists.{back, pop_back, range_of}
use redi_craft.Storage.Sets.{add_members, fresh_members, remove_members}
use redi_craft.Storage.Expiry.{expiry_time, whole_seconds}
use redi_craft.Session.Calls.{Methods}

pub record Store : Type 0 where
  pub texts : Bytes → Option (Item Bytes)
  pub hashes_at : Bytes → Option (Item (Table Bytes))
  pub lists_at : Bytes → Option (Item (List Bytes))
  pub sets_at : Bytes → Option (Item (Table Bool))

-- the function, changed at one key
unfoldable pub update : {A : Type 0} → Bytes → Option A → (Bytes → Option A) → Bytes → Option A
update k o f j = if bytes_eq k j then o else f j

abbrev pub value_of : {A : Type 0} → Option (Item A) → Option A
value_of none = none
value_of (some it) = some it.value

-- the value, in an item that keeps the expiry of the one that was there
abbrev pub renew : {A : Type 0} → Option (Item A) → A → Item A
renew none v = item v
renew (some it) v = record it { value = v }

unfoldable pub set : Readings → Bytes → Bytes → Store → Bool × Store
set now k v f = (true, record f { texts = update k (some (item v)) f.texts })

unfoldable pub get : Readings → Bytes → Store → Option Bytes × Store
get now k f = (value_of (live (now strings) (f.texts k)), f)

-- the number at a key after an addition, and its item: a text that is no number counts as absent
unfoldable pub add_to : ℤ → Option (Item Bytes) → ℤ × Item Bytes
add_to n none = (n, item (to_string n))
add_to n (some it) = elim (stoll it.value) [
  | none ↦ (n, item (to_string n))
  | some old ↦ (wrap64 (old +ℤ n), record it { value = to_string (wrap64 (old +ℤ n)) })
]

unfoldable pub incrby : Readings → Bytes → ℤ → Store → ℤ × Store
incrby now k n f =
    let (r, it) = add_to n (live (now strings) (f.texts k)) in
    (r, record f { texts = update k (some it) f.texts })

unfoldable pub incr : Readings → Bytes → Store → ℤ × Store
unfolding incrby
incr now k f = incrby now k (pos 1) f

unfoldable pub decr : Readings → Bytes → Store → ℤ × Store
unfolding incrby
decr now k f = incrby now k (negsuc 0) f

abbrev pub fields_in : Option (Item (Table Bytes)) → Table Bytes
fields_in none = []
fields_in (some it) = it.value

unfoldable pub hset : Readings → Bytes → Bytes → Bytes → Store → Bool × Store
hset now k field v f =
    let o = live (now hashes) (f.hashes_at k) in
    (
      true,
      record f { hashes_at = update k (some (renew o (assign field v (fields_in o)))) f.hashes_at },
    )

unfoldable pub hgetall : Readings → Bytes → Store → Table Bytes × Store
hgetall now k f = (fields_in (live (now hashes) (f.hashes_at k)), f)

unfoldable pub hget : Readings → Bytes → Bytes → Store → Option Bytes × Store
hget now k field f = (find field (fields_in (live (now hashes) (f.hashes_at k))), f)

abbrev pub values_in : Option (Item (List Bytes)) → List Bytes
values_in none = []
values_in (some it) = it.value

unfoldable pub lpush : Readings → Bytes → List Bytes → Store → ℕ × Store
lpush now k values f =
    let o = live (now lists) (f.lists_at k) in
    let all = values ++ values_in o in
    (length all, record f { lists_at = update k (some (renew o all)) f.lists_at })

-- the last value, and the store without it
unfoldable pub rpop_of :
    Bytes → Option (Item (List Bytes)) → List Bytes → Store → Option Bytes × Store
rpop_of k o [] f = (none, f)
rpop_of k o (x ∷ xs) f = (
  some (back x xs),
  record f { lists_at = update k (some (renew o (pop_back (x ∷ xs)))) f.lists_at },
)

unfoldable pub rpop : Readings → Bytes → Store → Option Bytes × Store
unfolding rpop_of
rpop now k f = let o = live (now lists) (f.lists_at k) in rpop_of k o (values_in o) f

unfoldable pub lrange : Readings → Bytes → ℤ → ℤ → Store → List Bytes × Store
lrange now k start end f = (range_of (values_in (live (now lists) (f.lists_at k))) start end, f)

abbrev pub members_in : Option (Item (Table Bool)) → Table Bool
members_in none = []
members_in (some it) = it.value

-- the set with the members, and how many the code counts: all of them in a new set
unfoldable pub add_all : List Bytes → Option (Item (Table Bool)) → Table Bool × ℕ
add_all members none = fresh_members members [] 0
add_all members (some it) = add_members members it.value 0

unfoldable pub sadd : Readings → Bytes → List Bytes → Store → ℕ × Store
sadd now k members f =
    let o = live (now sets) (f.sets_at k) in
    let (m, added) = add_all members o in
    (added, record f { sets_at = update k (some (renew o m)) f.sets_at })

-- an item of a set, if it has a member
abbrev pub if_any : Option (Item (Table Bool)) → Table Bool → Option (Item (Table Bool))
if_any o [] = none
if_any o (x ∷ m) = some (renew o (x ∷ m))

unfoldable pub srem : Readings → Bytes → List Bytes → Store → ℕ × Store
srem now k members f =
    let o = live (now sets) (f.sets_at k) in
    let (m, removed) = remove_members members (members_in o) 0 in
    (removed, record f { sets_at = update k (if_any o m) f.sets_at })

unfoldable pub sismember : Readings → Bytes → Bytes → Store → Bool × Store
sismember now k member f = (is_some (find member (members_in (live (now sets) (f.sets_at k)))), f)

unfoldable pub smembers : Readings → Bytes → Store → Table Bool × Store
smembers now k f = (members_in (live (now sets) (f.sets_at k)), f)

unfoldable pub scard : Readings → Bytes → Store → ℕ × Store
scard now k f = (length (members_in (live (now sets) (f.sets_at k))), f)

-- the item with a deadline
abbrev pub due : {A : Type 0} → ℤ → Item A → Item A
due time it = record it { has_expiry = true; expiry = time }

-- A deadline for the item, if one is seen, and otherwise what `next` does.
unfoldable pub due_text : ℤ → Bytes → Option (Item Bytes) → Store → Bool × Store → Bool × Store
due_text time k none f next = next
due_text time k (some it) f next =
    (true, record f { texts = update k (some (due time it)) f.texts })

unfoldable pub due_hash :
    ℤ → Bytes → Option (Item (Table Bytes)) → Store → Bool × Store → Bool × Store
due_hash time k none f next = next
due_hash time k (some it) f next =
    (true, record f { hashes_at = update k (some (due time it)) f.hashes_at })

unfoldable pub due_list :
    ℤ → Bytes → Option (Item (List Bytes)) → Store → Bool × Store → Bool × Store
due_list time k none f next = next
due_list time k (some it) f next =
    (true, record f { lists_at = update k (some (due time it)) f.lists_at })

unfoldable pub due_set :
    ℤ → Bytes → Option (Item (Table Bool)) → Store → Bool × Store → Bool × Store
due_set time k none f next = next
due_set time k (some it) f next =
    (true, record f { sets_at = update k (some (due time it)) f.sets_at })

-- the first item that is seen gets the deadline: text, hash, list, set
unfoldable pub expire : ℤ → Bytes → ℤ → Store → Bool × Store
unfolding due_text due_hash due_list due_set
expire now k seconds f =
    let time = expiry_time now seconds in
    due_text time k (live now (f.texts k)) f (
      due_hash time k (live now (f.hashes_at k)) f (
        due_list time k (live now (f.lists_at k)) f
          (due_set time k (live now (f.sets_at k)) f (false, f))))

-- the seconds left, or -1 for an item with no deadline
unfoldable pub left : {A : Type 0} → ℤ → Item A → ℤ
left start it = if it.has_expiry then whole_seconds (wrap64 (it.expiry -ℤ start)) else negsuc 0

-- the seconds left for the item, if one is seen, and otherwise `next`
unfoldable pub left_or : {A : Type 0} → ℤ → Option (Item A) → ℤ → ℤ
unfolding left
left_or start none next = next
left_or start (some it) next = left start it

unfoldable pub ttl : ℤ → Readings → Bytes → Store → ℤ × Store
unfolding left_or
ttl start now k f = (
  left_or start (live (now strings) (f.texts k)) (
      left_or start (live (now hashes) (f.hashes_at k)) (
        left_or start (live (now lists) (f.lists_at k))
          (left_or start (live (now sets) (f.sets_at k)) (negsuc 1)))),
  f,
)

abbrev pub store_methods : Methods Store
store_methods = record {
  set = set;
  get = get;
  incr = incr;
  decr = decr;
  incrby = incrby;
  hset = hset;
  hget = hget;
  hgetall = hgetall;
  lpush = lpush;
  rpop = rpop;
  lrange = lrange;
  sadd = sadd;
  srem = srem;
  sismember = sismember;
  smembers = smembers;
  scard = scard;
  expire = expire;
  ttl = ttl;
}
