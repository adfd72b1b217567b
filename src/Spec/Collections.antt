-- ===== src/Spec/Collections.antt =====
-- The methods on hashes, lists and sets answer as the store does (RediCraft-Server/src/storage.cpp).
use redi_craft.Prelude.{
  ◌≡◌, refl, ap, ◌∙◌, Bool, true, Option, none, some, List, [], ◌∷◌, ◌++◌, append-nil, arith,
  length, Bytes,
}
use redi_craft.Prelude.Int.{ℤ}
use redi_craft.Table.{Table, find, assign, erase}
use redi_craft.Storage.{Item, Storage, Readings, remove_expired, hashes, lists, sets}
use redi_craft.Storage.Sets.Found.{remove_members-empty}
use redi_craft.Storage.View.{live}
use redi_craft.Storage.Reads.{NotBefore}
use redi_craft.Spec.Agrees.{
  Implements, Agrees-assign, Agrees-erase, Agrees-drop, IsPurged, remove_expired-IsPurged, Same,
  Same-eq,
}
use redi_craft.Storage.Hashes
use redi_craft.Storage.Lists
use redi_craft.Storage.Sets
use redi_craft.Spec

pub put_hash-Implements :
    (now : Readings) (k : Bytes) (it : Item (Table Bytes)) (s : Storage) (f : Spec.Store)
    → Implements now s f
    → Implements now
        (Hashes.put k it s)
        (record f { hashes_at = Spec.update k (some it) f.hashes_at })
unfolding Hashes.put
put_hash-Implements now k it s f h = record {
  texts_agree = h.texts_agree;
  hashes_agree = Agrees-assign (now hashes) k it s.hash_data f.hashes_at h.hashes_agree;
  lists_agree = h.lists_agree;
  sets_agree = h.sets_agree;
}

pub put_list-Implements :
    (now : Readings) (k : Bytes) (it : Item (List Bytes)) (s : Storage) (f : Spec.Store)
    → Implements now s f
    → Implements now (Lists.put k it s) (record f { lists_at = Spec.update k (some it) f.lists_at })
unfolding Lists.put
put_list-Implements now k it s f h = record {
  texts_agree = h.texts_agree;
  hashes_agree = h.hashes_agree;
  lists_agree = Agrees-assign (now lists) k it s.list_data f.lists_at h.lists_agree;
  sets_agree = h.sets_agree;
}

pub put_set-Implements :
    (now : Readings) (k : Bytes) (it : Item (Table Bool)) (s : Storage) (f : Spec.Store)
    → Implements now s f
    → Implements now (Sets.put k it s) (record f { sets_at = Spec.update k (some it) f.sets_at })
unfolding Sets.put
put_set-Implements now k it s f h = record {
  texts_agree = h.texts_agree;
  hashes_agree = h.hashes_agree;
  lists_agree = h.lists_agree;
  sets_agree = Agrees-assign (now sets) k it s.set_data f.sets_at h.sets_agree;
}

hset_found-renew :
    (k field v : Bytes) (o : Option (Item (Table Bytes))) (s : Storage)
    → Hashes.hset_found k field v o s
      ≡ (true, Hashes.put k (Spec.renew o (assign field v (Spec.fields_in o))) s)
unfolding Hashes.hset_found
hset_found-renew k field v none s = refl
hset_found-renew k field v (some it) s = refl

lpush_found-renew :
    (k : Bytes) (values : List Bytes) (o : Option (Item (List Bytes))) (s : Storage)
    → Lists.lpush_found k values o s ≡ (
      length (values ++ Spec.values_in o),
      Lists.put k (Spec.renew o (values ++ Spec.values_in o)) s,
    )
unfolding Lists.lpush_found
lpush_found-renew k values none s = rw append-nil refl
lpush_found-renew k values (some it) s = refl

rpop_found-Same :
    (now : Readings) (k : Bytes) (o : Option (Item (List Bytes))) (s : Storage) (f : Spec.Store)
    → Implements now s f
    → Same now (Lists.rpop_found k o s) (Spec.rpop_of k o (Spec.values_in o) f)
unfolding Lists.rpop_found Spec.rpop_of
rpop_found-Same now k none s f h = (refl, h)
rpop_found-Same now k (some it) s f h = from it.value
  where
    from :
        (values : List Bytes)
        → Same now (Lists.rpop_from k it values s) (Spec.rpop_of k (some it) values f)
    from [] = (refl, h)
    from (x ∷ xs) =
        (refl, put_list-Implements now k (record it { value = Lists.pop_back (x ∷ xs) }) s f h)

sadd_found-renew :
    (k : Bytes) (ms : List Bytes) (o : Option (Item (Table Bool))) (s : Storage)
    → Sets.sadd_found k ms o s
      ≡ ((Spec.add_all ms o).1, Sets.put k (Spec.renew o (Spec.add_all ms o).0) s)
unfolding Sets.sadd_found Spec.add_all
sadd_found-renew k ms none s = refl
sadd_found-renew k ms (some it) s = refl

-- a set without its key
erase_set-Implements :
    (now : Readings) (k : Bytes) (s : Storage) (f : Spec.Store)
    → Implements now s f
    → Implements now
        (record s { set_data = erase k s.set_data })
        (record f { sets_at = Spec.update k none f.sets_at })
erase_set-Implements now k s f h = record {
  texts_agree = h.texts_agree;
  hashes_agree = h.hashes_agree;
  lists_agree = h.lists_agree;
  sets_agree = Agrees-erase (now sets) k s.set_data f.sets_at h.sets_agree;
}

keep_set-Implements :
    (now : Readings) (k : Bytes) (it : Item (Table Bool)) (m : Table Bool) (s : Storage)
    (f : Spec.Store)
    → Implements now s f
    → Implements now
        (Sets.keep_set k it m s)
        (record f { sets_at = Spec.update k (Spec.if_any (some it) m) f.sets_at })
unfolding Sets.keep_set
keep_set-Implements now k it [] s f h = erase_set-Implements now k s f h
keep_set-Implements now k it (x ∷ m) s f h =
    put_set-Implements now k (record it { value = x ∷ m }) s f h

srem_found-Same :
    (now : Readings) (k : Bytes) (ms : List Bytes) (o : Option (Item (Table Bool))) (s : Storage)
    (f : Spec.Store)
    → Implements now s f
    → live (now sets) (f.sets_at k) ≡ o
    → let (m, removed) = Sets.remove_members ms (Spec.members_in o) 0 in
      Same now
        (Sets.srem_found k ms o s)
        (removed, record f { sets_at = Spec.update k (Spec.if_any o m) f.sets_at })
unfolding Sets.srem_found
srem_found-Same now k ms none s f h e = rw (remove_members-empty ms 0) (
  refl,
  record {
    texts_agree = h.texts_agree;
    hashes_agree = h.hashes_agree;
    lists_agree = h.lists_agree;
    sets_agree = Agrees-drop (now sets) k s.set_data f.sets_at h.sets_agree e;
  },
)
srem_found-Same now k ms (some it) s f h e =
    (refl, keep_set-Implements now k it (Sets.remove_members ms it.value 0).0 s f h)

module _ (before now : Readings) (k : Bytes) (s : Storage) (f : Spec.Store)
    (le : NotBefore before now) (h : Implements before s f) where
  purged : IsPurged now k (remove_expired now k s) f
  purged = remove_expired-IsPurged before now k s f le h

  pub hset-Same :
      (field v : Bytes) → Same now (Hashes.hset now k field v s) (Spec.hset now k field v f)
  unfolding Hashes.hset Spec.hset
  hset-Same field v =
      let s' = remove_expired now k s in
      let o = live (now hashes) (f.hashes_at k) in
      let it = Spec.renew o (assign field v (Spec.fields_in o)) in
      Same-eq now _ (true, Hashes.put k it s') _
        (ap (λ x. Hashes.hset_found k field v x s') purged.hash ∙ hset_found-renew k field v o s')
        (refl, put_hash-Implements now k it s' f purged.implements)

  pub hget-Same : (field : Bytes) → Same now (Hashes.hget now k field s) (Spec.hget now k field f)
  unfolding Hashes.hget Spec.hget find
  hget-Same field = (ground (arith, purged.hash), purged.implements)

  pub hgetall-Same : Same now (Hashes.hgetall now k s) (Spec.hgetall now k f)
  unfolding Hashes.hgetall Spec.hgetall
  hgetall-Same = (ground (arith, purged.hash), purged.implements)

  pub lpush-Same :
      (values : List Bytes) → Same now (Lists.lpush now k values s) (Spec.lpush now k values f)
  unfolding Lists.lpush Spec.lpush
  lpush-Same values =
      let s' = remove_expired now k s in
      let o = live (now lists) (f.lists_at k) in
      let all = values ++ Spec.values_in o in
      Same-eq now _ (length all, Lists.put k (Spec.renew o all) s') _
        (ap (λ x. Lists.lpush_found k values x s') purged.list ∙ lpush_found-renew k values o s')
        (refl, put_list-Implements now k (Spec.renew o all) s' f purged.implements)

  pub rpop-Same : Same now (Lists.rpop now k s) (Spec.rpop now k f)
  unfolding Lists.rpop Spec.rpop
  rpop-Same =
      let s' = remove_expired now k s in
      let o = live (now lists) (f.lists_at k) in
      Same-eq now _ (Lists.rpop_found k o s') _ (ap (λ x. Lists.rpop_found k x s') purged.list)
        (rpop_found-Same now k o s' f purged.implements)

  pub lrange-Same :
      (start end : ℤ) → Same now (Lists.lrange now k start end s) (Spec.lrange now k start end f)
  unfolding Lists.lrange Spec.lrange Lists.range_of
  lrange-Same start end = (ground (arith, purged.list), purged.implements)

  pub sadd-Same : (ms : List Bytes) → Same now (Sets.sadd now k ms s) (Spec.sadd now k ms f)
  unfolding Sets.sadd Spec.sadd
  sadd-Same ms =
      let s' = remove_expired now k s in
      let o = live (now sets) (f.sets_at k) in
      let r = Spec.add_all ms o in
      Same-eq now _ (r.1, Sets.put k (Spec.renew o r.0) s') _
        (ap (λ x. Sets.sadd_found k ms x s') purged.members ∙ sadd_found-renew k ms o s')
        (refl, put_set-Implements now k (Spec.renew o r.0) s' f purged.implements)

  pub srem-Same : (ms : List Bytes) → Same now (Sets.srem now k ms s) (Spec.srem now k ms f)
  unfolding Sets.srem Spec.srem
  srem-Same ms =
      let s' = remove_expired now k s in
      let o = live (now sets) (f.sets_at k) in
      Same-eq now _ (Sets.srem_found k ms o s') _
        (ap (λ x. Sets.srem_found k ms x s') purged.members)
        (srem_found-Same now k ms o s' f purged.implements refl)

  pub sismember-Same : (x : Bytes) → Same now (Sets.sismember now k x s) (Spec.sismember now k x f)
  unfolding Sets.sismember Spec.sismember find
  sismember-Same x = (ground (arith, purged.members), purged.implements)

  pub smembers-Same : Same now (Sets.smembers now k s) (Spec.smembers now k f)
  unfolding Sets.smembers Spec.smembers
  smembers-Same = (ground (arith, purged.members), purged.implements)

  pub scard-Same : Same now (Sets.scard now k s) (Spec.scard now k f)
  unfolding Sets.scard Spec.scard
  scard-Same = (ground (arith, purged.members), purged.implements)
