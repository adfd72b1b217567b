-- ===== src/Storage/Invariant/Methods.antt =====
-- The methods of Storage (RediCraft-Server/src/storage.cpp) and what the tables hold, where the
-- predicate holds of the arguments; sadd is called with at least one member, as the session calls it.
use redi_craft.Prelude.{◌≡◌, refl, Bool, Option, none, some, List, [], ◌∷◌, All, All-append, Bytes}
use redi_craft.Prelude.Int.{ℤ, pos, negsuc}
use redi_craft.Table.{Table, find}
use redi_craft.Table.Laws.{assign-IsTable, find-Entries, assign-Entries}
use redi_craft.Storage.{Item, item, Storage, Readings, remove_expired}
use redi_craft.Storage.Invariant.{
  IsClosed, IsFieldsOf, IsMembersOf, IsSetOf, IsStoreOf, assign-Holds, erase-Holds,
  remove_expired-IsStoreOf, with_texts, with_hashes, with_lists, with_sets,
}
use redi_craft.Storage.Invariant.Members.{
  add_members-IsFilledOf, new_members-IsFilledOf, remove_members-IsMembersOf,
}
use redi_craft.Storage.Strings
use redi_craft.Storage.Hashes
use redi_craft.Storage.Lists
use redi_craft.Storage.Sets
use redi_craft.Storage.Strings.Laws.{incr-decr-incrby}

pop_back-All :
    (Q : Bytes → Type 0) (values : List Bytes) → All Q values → All Q (Lists.pop_back values)
unfolding Lists.pop_back
pop_back-All Q [] q = tt
pop_back-All Q (x ∷ []) q = tt
pop_back-All Q (x ∷ y ∷ ys) (qx, q) = (qx, pop_back-All Q (y ∷ ys) q)

module _ {Q : Bytes → Type 0} (closed : IsClosed Q) (s : Storage) (w : IsStoreOf Q s) where
  put_text : (k : Bytes) (it : Item Bytes) → Q k → Q it.value → IsStoreOf Q (Strings.put k it s)
  unfolding Strings.put
  put_text k it qk qv = with_texts s w _ (assign-Holds _ _ w.texts k it (qk, qv))

  put_hash :
      (k : Bytes) (it : Item (Table Bytes))
      → Q k
      → IsFieldsOf Q it.value
      → IsStoreOf Q (Hashes.put k it s)
  unfolding Hashes.put
  put_hash k it qk h = with_hashes s w _ (assign-Holds _ _ w.hashes_hold k it (qk, h))

  put_list :
      (k : Bytes) (it : Item (List Bytes)) → Q k → All Q it.value → IsStoreOf Q (Lists.put k it s)
  unfolding Lists.put
  put_list k it qk h = with_lists s w _ (assign-Holds _ _ w.lists_hold k it (qk, h))

  put_set :
      (k : Bytes) (it : Item (Table Bool)) → IsSetOf Q k it.value → IsStoreOf Q (Sets.put k it s)
  unfolding Sets.put
  put_set k it h = with_sets s w _ (assign-Holds _ _ w.sets_hold k it h)

  keep_set-IsStoreOf :
      (k : Bytes) (it : Item (Table Bool)) (m : Table Bool)
      → Q k
      → IsMembersOf Q m
      → IsStoreOf Q (Sets.keep_set k it m s)
  unfolding Sets.keep_set
  keep_set-IsStoreOf k it [] qk h = with_sets s w _ (erase-Holds _ _ w.sets_hold k)
  keep_set-IsStoreOf k it (x ∷ m) qk h = put_set k (record it { value = x ∷ m }) (qk, (h, cc))

  incrby_parsed-IsStoreOf :
      (a : ℤ) (k : Bytes) (it : Item Bytes) (n : Option ℤ)
      → Q k
      → IsStoreOf Q (Strings.incrby_parsed a k it n s).1
  unfolding Strings.incrby_parsed
  incrby_parsed-IsStoreOf a k it none qk = put_text k _ qk (closed.printed a)
  incrby_parsed-IsStoreOf a k it (some n) qk = put_text k _ qk (closed.printed _)

  incrby_found-IsStoreOf :
      (a : ℤ) (k : Bytes) (o : Option (Item Bytes))
      → Q k
      → IsStoreOf Q (Strings.incrby_found a k o s).1
  unfolding Strings.incrby_found
  incrby_found-IsStoreOf a k none qk = put_text k _ qk (closed.printed a)
  incrby_found-IsStoreOf a k (some it) qk = incrby_parsed-IsStoreOf a k it _ qk

  hset_found-IsStoreOf :
      (k f v : Bytes) (o : Option (Item (Table Bytes)))
      → Q k
      → Q f
      → Q v
      → find k s.hash_data ≡ o
      → IsStoreOf Q (Hashes.hset_found k f v o s).1
  unfolding Hashes.hset_found
  hset_found-IsStoreOf k f v none qk qf qv e =
      put_hash k _ qk (assign-IsTable f v [] tt, assign-Entries _ f v [] (qf, qv) tt)
  hset_found-IsStoreOf k f v (some it) qk qf qv e =
      let (t, h) = (find-Entries _ k s.hash_data it w.hashes_hold.values e).1 in
      put_hash k _ qk (assign-IsTable f v it.value t, assign-Entries _ f v it.value (qf, qv) h)

  lpush_found-IsStoreOf :
      (k : Bytes) (values : List Bytes) (o : Option (Item (List Bytes)))
      → Q k
      → All Q values
      → find k s.list_data ≡ o
      → IsStoreOf Q (Lists.lpush_found k values o s).1
  unfolding Lists.lpush_found
  lpush_found-IsStoreOf k values none qk q e = put_list k _ qk q
  lpush_found-IsStoreOf k values (some it) qk q e =
      put_list k _ qk
        (All-append Q values it.value q (find-Entries _ k s.list_data it w.lists_hold.values e).1)

  rpop_from-IsStoreOf :
      (k : Bytes) (it : Item (List Bytes)) (values : List Bytes)
      → Q k
      → All Q values
      → IsStoreOf Q (Lists.rpop_from k it values s).1
  unfolding Lists.rpop_from
  rpop_from-IsStoreOf k it [] qk q = w
  rpop_from-IsStoreOf k it (x ∷ xs) qk q = put_list k _ qk (pop_back-All Q (x ∷ xs) q)

  rpop_found-IsStoreOf :
      (k : Bytes) (o : Option (Item (List Bytes)))
      → Q k
      → find k s.list_data ≡ o
      → IsStoreOf Q (Lists.rpop_found k o s).1
  unfolding Lists.rpop_found
  rpop_found-IsStoreOf k none qk e = w
  rpop_found-IsStoreOf k (some it) qk e =
      rpop_from-IsStoreOf k it it.value qk (find-Entries _ k s.list_data it w.lists_hold.values e).1

  sadd_found-IsStoreOf :
      (k x : Bytes) (ms : List Bytes) (o : Option (Item (Table Bool)))
      → Q k
      → All Q (x ∷ ms)
      → find k s.set_data ≡ o
      → IsStoreOf Q (Sets.sadd_found k (x ∷ ms) o s).1
  unfolding Sets.sadd_found
  sadd_found-IsStoreOf k x ms none qk q e = put_set k _ (qk, new_members-IsFilledOf Q x ms q)
  sadd_found-IsStoreOf k x ms (some it) qk q e =
      let h = (find-Entries _ k s.set_data it w.sets_hold.values e).1 in
      put_set k _ (qk, add_members-IsFilledOf Q (x ∷ ms) it.value 0 q h)

  srem_found-IsStoreOf :
      (k : Bytes) (ms : List Bytes) (o : Option (Item (Table Bool)))
      → Q k
      → find k s.set_data ≡ o
      → IsStoreOf Q (Sets.srem_found k ms o s).1
  unfolding Sets.srem_found
  srem_found-IsStoreOf k ms none qk e = w
  srem_found-IsStoreOf k ms (some it) qk e =
      let h = (find-Entries _ k s.set_data it w.sets_hold.values e).1.0 in
      keep_set-IsStoreOf k it _ qk (remove_members-IsMembersOf Q ms it.value 0 h)

module _ {Q : Bytes → Type 0} (closed : IsClosed Q) (now : Readings) (k : Bytes) (s : Storage)
    (qk : Q k) (w : IsStoreOf Q s) where
  purged : IsStoreOf Q (remove_expired now k s)
  purged = remove_expired-IsStoreOf now k s w

  pub set-IsStoreOf : (v : Bytes) → Q v → IsStoreOf Q (Strings.set now k v s).1
  unfolding Strings.set
  set-IsStoreOf v qv = put_text closed (remove_expired now k s) purged k (item v) qk qv

  pub incrby-IsStoreOf : (a : ℤ) → IsStoreOf Q (Strings.incrby now k a s).1
  unfolding Strings.incrby
  incrby-IsStoreOf a = incrby_found-IsStoreOf closed (remove_expired now k s) purged a k _ qk

  pub incr-IsStoreOf : IsStoreOf Q (Strings.incr now k s).1
  incr-IsStoreOf = rw ((incr-decr-incrby now k s).0) (incrby-IsStoreOf (pos 1))

  pub decr-IsStoreOf : IsStoreOf Q (Strings.decr now k s).1
  decr-IsStoreOf = rw ((incr-decr-incrby now k s).1) (incrby-IsStoreOf (negsuc 0))

  pub hset-IsStoreOf : (f v : Bytes) → Q f → Q v → IsStoreOf Q (Hashes.hset now k f v s).1
  unfolding Hashes.hset
  hset-IsStoreOf f v qf qv =
      hset_found-IsStoreOf closed (remove_expired now k s) purged k f v _ qk qf qv refl

  pub lpush-IsStoreOf :
      (values : List Bytes) → All Q values → IsStoreOf Q (Lists.lpush now k values s).1
  unfolding Lists.lpush
  lpush-IsStoreOf values q =
      lpush_found-IsStoreOf closed (remove_expired now k s) purged k values _ qk q refl

  pub rpop-IsStoreOf : IsStoreOf Q (Lists.rpop now k s).1
  unfolding Lists.rpop
  rpop-IsStoreOf = rpop_found-IsStoreOf closed (remove_expired now k s) purged k _ qk refl

  pub sadd-IsStoreOf :
      (x : Bytes) (ms : List Bytes) → All Q (x ∷ ms) → IsStoreOf Q (Sets.sadd now k (x ∷ ms) s).1
  unfolding Sets.sadd
  sadd-IsStoreOf x ms q =
      sadd_found-IsStoreOf closed (remove_expired now k s) purged k x ms _ qk q refl

  pub srem-IsStoreOf : (ms : List Bytes) → IsStoreOf Q (Sets.srem now k ms s).1
  unfolding Sets.srem
  srem-IsStoreOf ms = srem_found-IsStoreOf closed (remove_expired now k s) purged k ms _ qk refl
