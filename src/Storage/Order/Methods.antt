-- ===== src/Storage/Order/Methods.antt =====
-- The methods of Storage (RediCraft-Server/src/storage.cpp) on storages that hold the same items in
-- another order.
use mathlib.Core.Path.{subst}
use redi_craft.Prelude.{◌≡◌, refl, Bool, Option, none, some, List, [], ◌∷◌, Bytes}
use redi_craft.Prelude.Int.{ℤ, pos, negsuc}
use redi_craft.Table.{Table}
use redi_craft.Number.{stoll}
use redi_craft.Storage.{Item, item, Storage, Readings, remove_expired}
use redi_craft.Storage.Order.{
  erase-SameAt, SameItems, Alike, remove_expired-SameItems, put_text, put_hash, put_list, put_set,
}
use redi_craft.Storage.Strings
use redi_craft.Storage.Hashes
use redi_craft.Storage.Lists
use redi_craft.Storage.Lists.{range_of}
use redi_craft.Storage.Sets
use redi_craft.Storage.Strings.Laws.{incr-decr-incrby}

-- What a method does with the item that it found, by that item.
module _ (k : Bytes) (s t : Storage) (h : SameItems s t) where
  incrby_parsed-Alike :
      (a : ℤ) (it : Item Bytes) (n : Option ℤ)
      → Alike (Strings.incrby_parsed a k it n s) (Strings.incrby_parsed a k it n t)
  unfolding Strings.incrby_parsed
  incrby_parsed-Alike a it none = (refl, put_text k s t h _)
  incrby_parsed-Alike a it (some n) = (refl, put_text k s t h _)

  incrby_found-Alike :
      (a : ℤ) (o : Option (Item Bytes))
      → Alike (Strings.incrby_found a k o s) (Strings.incrby_found a k o t)
  unfolding Strings.incrby_found
  incrby_found-Alike a none = (refl, put_text k s t h _)
  incrby_found-Alike a (some it) = incrby_parsed-Alike a it (stoll it.value)

  hset_found-Alike :
      (f v : Bytes) (o : Option (Item (Table Bytes)))
      → Alike (Hashes.hset_found k f v o s) (Hashes.hset_found k f v o t)
  unfolding Hashes.hset_found
  hset_found-Alike f v none = (refl, put_hash k s t h _)
  hset_found-Alike f v (some it) = (refl, put_hash k s t h _)

  lpush_found-Alike :
      (values : List Bytes) (o : Option (Item (List Bytes)))
      → Alike (Lists.lpush_found k values o s) (Lists.lpush_found k values o t)
  unfolding Lists.lpush_found
  lpush_found-Alike values none = (refl, put_list k s t h _)
  lpush_found-Alike values (some it) = (refl, put_list k s t h _)

  rpop_from-Alike :
      (it : Item (List Bytes)) (values : List Bytes)
      → Alike (Lists.rpop_from k it values s) (Lists.rpop_from k it values t)
  unfolding Lists.rpop_from
  rpop_from-Alike it [] = (refl, h)
  rpop_from-Alike it (x ∷ xs) = (refl, put_list k s t h _)

  rpop_found-Alike :
      (o : Option (Item (List Bytes))) → Alike (Lists.rpop_found k o s) (Lists.rpop_found k o t)
  unfolding Lists.rpop_found
  rpop_found-Alike none = (refl, h)
  rpop_found-Alike (some it) = rpop_from-Alike it it.value

  sadd_found-Alike :
      (ms : List Bytes) (o : Option (Item (Table Bool)))
      → Alike (Sets.sadd_found k ms o s) (Sets.sadd_found k ms o t)
  unfolding Sets.sadd_found
  sadd_found-Alike ms none = (refl, put_set k s t h _)
  sadd_found-Alike ms (some it) = (refl, put_set k s t h _)

  keep_set-SameItems :
      (it : Item (Table Bool)) (m : Table Bool)
      → SameItems (Sets.keep_set k it m s) (Sets.keep_set k it m t)
  unfolding Sets.keep_set
  keep_set-SameItems it [] = record {
    texts_same = h.texts_same;
    hashes_same = h.hashes_same;
    lists_same = h.lists_same;
    sets_same = erase-SameAt k _ _ h.sets_same;
  }
  keep_set-SameItems it (x ∷ m) = put_set k s t h _

  srem_found-Alike :
      (ms : List Bytes) (o : Option (Item (Table Bool)))
      → Alike (Sets.srem_found k ms o s) (Sets.srem_found k ms o t)
  unfolding Sets.srem_found
  srem_found-Alike ms none = (refl, h)
  srem_found-Alike ms (some it) = (refl, keep_set-SameItems it _)

module _ (now : Readings) (k : Bytes) (s t : Storage) (h : SameItems s t) where
  purged : SameItems (remove_expired now k s) (remove_expired now k t)
  purged = remove_expired-SameItems now k s t h

  -- The item that is found is the same, and so is what a reader makes of it.
  found :
      {V R : Type 0} {o o' : Option V} (p : o ≡ o') (f : Option V → Storage → R × Storage)
      → ((o'' : Option V) → Alike (f o'' (remove_expired now k s)) (f o'' (remove_expired now k t)))
      → Alike (f o (remove_expired now k s)) (f o' (remove_expired now k t))
  found {o = o} p f a =
      subst (λ o'. Alike (f o (remove_expired now k s)) (f o' (remove_expired now k t))) p (a o)

  pub set-Alike : (v : Bytes) → Alike (Strings.set now k v s) (Strings.set now k v t)
  unfolding Strings.set
  set-Alike v = (refl, put_text k _ _ purged (item v))

  pub get-Alike : Alike (Strings.get now k s) (Strings.get now k t)
  unfolding Strings.get
  get-Alike = (rw (Strings.get, purged.texts_same k) refl, purged)

  pub incrby-Alike : (a : ℤ) → Alike (Strings.incrby now k a s) (Strings.incrby now k a t)
  unfolding Strings.incrby
  incrby-Alike a =
      found (purged.texts_same k) (Strings.incrby_found a k) (incrby_found-Alike k _ _ purged a)

  pub incr-Alike : Alike (Strings.incr now k s) (Strings.incr now k t)
  incr-Alike =
      rw ((incr-decr-incrby now k s).0, (incr-decr-incrby now k t).0) (incrby-Alike (pos 1))

  pub decr-Alike : Alike (Strings.decr now k s) (Strings.decr now k t)
  decr-Alike =
      rw ((incr-decr-incrby now k s).1, (incr-decr-incrby now k t).1) (incrby-Alike (negsuc 0))

  pub hset-Alike : (f v : Bytes) → Alike (Hashes.hset now k f v s) (Hashes.hset now k f v t)
  unfolding Hashes.hset
  hset-Alike f v =
      found (purged.hashes_same k) (Hashes.hset_found k f v) (hset_found-Alike k _ _ purged f v)

  pub hget-Alike : (f : Bytes) → Alike (Hashes.hget now k f s) (Hashes.hget now k f t)
  unfolding Hashes.hget
  hget-Alike f = (rw (Hashes.hget, purged.hashes_same k) refl, purged)

  pub hgetall-Alike : Alike (Hashes.hgetall now k s) (Hashes.hgetall now k t)
  unfolding Hashes.hgetall
  hgetall-Alike = (rw (Hashes.hgetall, purged.hashes_same k) refl, purged)

  pub lpush-Alike :
      (values : List Bytes) → Alike (Lists.lpush now k values s) (Lists.lpush now k values t)
  unfolding Lists.lpush
  lpush-Alike values =
      found (purged.lists_same k) (Lists.lpush_found k values)
        (lpush_found-Alike k _ _ purged values)

  pub rpop-Alike : Alike (Lists.rpop now k s) (Lists.rpop now k t)
  unfolding Lists.rpop
  rpop-Alike = found (purged.lists_same k) (Lists.rpop_found k) (rpop_found-Alike k _ _ purged)

  pub lrange-Alike : (i j : ℤ) → Alike (Lists.lrange now k i j s) (Lists.lrange now k i j t)
  unfolding Lists.lrange
  lrange-Alike i j = (rw (Lists.lrange, purged.lists_same k) refl, purged)

  pub sadd-Alike : (ms : List Bytes) → Alike (Sets.sadd now k ms s) (Sets.sadd now k ms t)
  unfolding Sets.sadd
  sadd-Alike ms =
      found (purged.sets_same k) (Sets.sadd_found k ms) (sadd_found-Alike k _ _ purged ms)

  pub srem-Alike : (ms : List Bytes) → Alike (Sets.srem now k ms s) (Sets.srem now k ms t)
  unfolding Sets.srem
  srem-Alike ms =
      found (purged.sets_same k) (Sets.srem_found k ms) (srem_found-Alike k _ _ purged ms)

  pub sismember-Alike : (x : Bytes) → Alike (Sets.sismember now k x s) (Sets.sismember now k x t)
  unfolding Sets.sismember
  sismember-Alike x = (rw (Sets.sismember, purged.sets_same k) refl, purged)

  pub smembers-Alike : Alike (Sets.smembers now k s) (Sets.smembers now k t)
  unfolding Sets.smembers
  smembers-Alike = (rw (Sets.smembers, purged.sets_same k) refl, purged)

  pub scard-Alike : Alike (Sets.scard now k s) (Sets.scard now k t)
  unfolding Sets.scard
  scard-Alike = (rw (Sets.scard, purged.sets_same k) refl, purged)
