-- ===== src/Spec/Lifetimes.antt =====
-- EXPIRE and TTL answer as the store does, of a key that no table holds past its time
-- (RediCraft-Server/src/storage.cpp).
use redi_craft.Prelude.{
  ◌≡◌, refl, sym, ◌∙◌, Bool, true, false, Option, none, some, List, arith, Bytes,
}
use redi_craft.Prelude.Int.{ℤ, negsuc}
use redi_craft.Table.{Table, find}
use redi_craft.Storage.{Item, Storage, Readings, has_expired, strings, hashes, lists, sets}
use redi_craft.Storage.View.{live, live-live}
use redi_craft.Storage.Reads.{NotBefore}
use redi_craft.Spec.Agrees.{Agrees, Implements, Agrees-later, Same, Same-eq}
use redi_craft.Spec.Texts.{put-Implements}
use redi_craft.Spec.Collections.{put_hash-Implements, put_list-Implements, put_set-Implements}
use redi_craft.Storage.Strings
use redi_craft.Storage.Hashes
use redi_craft.Storage.Lists
use redi_craft.Storage.Sets
use redi_craft.Storage.Expiry
use redi_craft.Spec

-- The table holds no item at the key that has expired.
abbrev NotStaleIn : {A : Type 0} → ℤ → Bytes → Table (Item A) → Type 0
NotStaleIn now k m = live now (find k m) ≡ find k m

-- No table holds an item at the key that has expired and has not been removed.
pub record NotStale (now : Readings) (k : Bytes) (s : Storage) : Type 0 where
  pub text : NotStaleIn (now strings) k s.string_data
  pub hash : NotStaleIn (now hashes) k s.hash_data
  pub list : NotStaleIn (now lists) k s.list_data
  pub members : NotStaleIn (now sets) k s.set_data

-- EXPIRE, table by table: what a table does with the key, and what is left to the next.

module _ (now : Readings) (time : ℤ) (k : Bytes) (s : Storage) (f : Spec.Store)
    (h : Implements now s f) where
  set_step :
      (o : Option (Item (Table Bool)))
      → find k s.set_data ≡ o
      → Same now (Expiry.expire_sets time k s) (Spec.due_set time k o f (false, f))
  unfolding Spec.due_set Expiry.expire_sets Expiry.expire_in Sets.put
  set_step none e =
      Same-eq now _ (false, s) _ (rw (e, Expiry.expire_sets, Expiry.expire_in) refl) (refl, h)
  set_step (some it) e =
      Same-eq now _ (true, Sets.put k (Spec.due time it) s) _
        (rw (e, Expiry.expire_sets, Expiry.expire_in) refl)
        (refl, put_set-Implements now k (Spec.due time it) s f h)

  list_step :
      (o : Option (Item (List Bytes))) (next : Bool × Spec.Store)
      → find k s.list_data ≡ o
      → Same now (Expiry.expire_sets time k s) next
      → Same now (Expiry.expire_lists time k s) (Spec.due_list time k o f next)
  unfolding Spec.due_list Expiry.expire_lists Expiry.expire_in Lists.put
  list_step none next e rest =
      Same-eq now _ (Expiry.expire_sets time k s) _
        (rw (e, Expiry.expire_lists, Expiry.expire_in) refl) rest
  list_step (some it) next e rest =
      Same-eq now _ (true, Lists.put k (Spec.due time it) s) _
        (rw (e, Expiry.expire_lists, Expiry.expire_in) refl)
        (refl, put_list-Implements now k (Spec.due time it) s f h)

  hash_step :
      (o : Option (Item (Table Bytes))) (next : Bool × Spec.Store)
      → find k s.hash_data ≡ o
      → Same now (Expiry.expire_lists time k s) next
      → Same now (Expiry.expire_hashes time k s) (Spec.due_hash time k o f next)
  unfolding Spec.due_hash Expiry.expire_hashes Expiry.expire_in Hashes.put
  hash_step none next e rest =
      Same-eq now _ (Expiry.expire_lists time k s) _
        (rw (e, Expiry.expire_hashes, Expiry.expire_in) refl) rest
  hash_step (some it) next e rest =
      Same-eq now _ (true, Hashes.put k (Spec.due time it) s) _
        (rw (e, Expiry.expire_hashes, Expiry.expire_in) refl)
        (refl, put_hash-Implements now k (Spec.due time it) s f h)

text_step :
    (now : Readings) (start : ℤ) (k : Bytes) (seconds : ℤ) (s : Storage) (f : Spec.Store)
    (o : Option (Item Bytes)) (next : Bool × Spec.Store)
    → Implements now s f
    → find k s.string_data ≡ o
    → Same now (Expiry.expire_hashes (Expiry.expiry_time start seconds) k s) next
    → Same now
        (Expiry.expire start k seconds s)
        (Spec.due_text (Expiry.expiry_time start seconds) k o f next)
unfolding Spec.due_text Expiry.expire Expiry.expire_in Strings.put
text_step now start k seconds s f none next h e rest =
    Same-eq now _ (Expiry.expire_hashes (Expiry.expiry_time start seconds) k s) _
      (rw (e, Expiry.expire, Expiry.expire_in) refl) rest
text_step now start k seconds s f (some it) next h e rest =
    let it' = Spec.due (Expiry.expiry_time start seconds) it in
    Same-eq now _ (true, Strings.put k it' s) _ (rw (e, Expiry.expire, Expiry.expire_in) refl)
      (refl, put-Implements now k it' s f h)

-- An item that has not expired is the one that the store shows.
shown :
    {A : Type 0} (now : ℤ) (k : Bytes) (m : Table (Item A)) (f : Bytes → Option (Item A))
    → NotStaleIn now k m
    → Agrees now m f
    → find k m ≡ live now (f k)
shown now k m f fresh h = sym fresh ∙ h k

pub Implements-later :
    (before now : Readings) (s : Storage) (f : Spec.Store)
    → NotBefore before now
    → Implements before s f
    → Implements now s f
Implements-later before now s f le h = record {
  texts_agree = Agrees-later (before strings) _ s.string_data _ (le strings) h.texts_agree;
  hashes_agree = Agrees-later (before hashes) _ s.hash_data _ (le hashes) h.hashes_agree;
  lists_agree = Agrees-later (before lists) _ s.list_data _ (le lists) h.lists_agree;
  sets_agree = Agrees-later (before sets) _ s.set_data _ (le sets) h.sets_agree;
}

-- EXPIRE at `start`, of a key that is not stale then.
pub expire-Same :
    (start : ℤ) (k : Bytes) (seconds : ℤ) (s : Storage) (f : Spec.Store)
    → Implements (λ t. start) s f
    → NotStale (λ t. start) k s
    → Same (λ t. start) (Expiry.expire start k seconds s) (Spec.expire start k seconds f)
unfolding Spec.expire
expire-Same start k seconds s f h fresh =
    let now : Readings = λ t. start in
    let time = Expiry.expiry_time start seconds in
    text_step now start k seconds s f _ _ h
      (shown start k s.string_data f.texts fresh.text h.texts_agree)
      (hash_step now time k s f h _ _
        (shown start k s.hash_data f.hashes_at fresh.hash h.hashes_agree)
        (list_step now time k s f h _ _
          (shown start k s.list_data f.lists_at fresh.list h.lists_agree)
          (set_step now time k s f h _
            (shown start k s.set_data f.sets_at fresh.members h.sets_agree))))

-- TTL, table by table.

seen : {A : Type 0} → ℤ → Option (Item A) → Table (Item A) → Option (ℤ × Table (Item A))
seen start none m = none
seen start (some it) m = some (Spec.left start it, m)

ttl_in-seen :
    {A : Type 0} (start now : ℤ) (k : Bytes) (m : Table (Item A)) (o : Option (Item A))
    → find k m ≡ o
    → live now o ≡ o
    → Expiry.ttl_in start now k m ≡ seen start o m
unfolding Expiry.ttl_in Spec.left live has_expired seen
ttl_in-seen start now k m none e h = rw (e, Expiry.ttl_in) refl
ttl_in-seen start now k m (some it) e h = ground arith

module _ (start : ℤ) (now : Readings) (k : Bytes) (s : Storage) where
  set_left :
      (o : Option (Item (Table Bool)))
      → find k s.set_data ≡ o
      → live (now sets) o ≡ o
      → Expiry.ttl_sets start now k s ≡ (Spec.left_or start o (negsuc 1), s)
  unfolding Spec.left_or Expiry.ttl_sets seen
  set_left none e l = rw (ttl_in-seen start (now sets) k s.set_data none e l, Expiry.ttl_sets) refl
  set_left (some it) e l =
      rw (ttl_in-seen start (now sets) k s.set_data (some it) e l, Expiry.ttl_sets) refl

  list_left :
      (o : Option (Item (List Bytes))) (next : ℤ)
      → find k s.list_data ≡ o
      → live (now lists) o ≡ o
      → Expiry.ttl_sets start now k s ≡ (next, s)
      → Expiry.ttl_lists start now k s ≡ (Spec.left_or start o next, s)
  unfolding Spec.left_or Expiry.ttl_lists seen
  list_left none next e l rest =
      rw (ttl_in-seen start (now lists) k s.list_data none e l, Expiry.ttl_lists) rest
  list_left (some it) next e l rest =
      rw (ttl_in-seen start (now lists) k s.list_data (some it) e l, Expiry.ttl_lists) refl

  hash_left :
      (o : Option (Item (Table Bytes))) (next : ℤ)
      → find k s.hash_data ≡ o
      → live (now hashes) o ≡ o
      → Expiry.ttl_lists start now k s ≡ (next, s)
      → Expiry.ttl_hashes start now k s ≡ (Spec.left_or start o next, s)
  unfolding Spec.left_or Expiry.ttl_hashes seen
  hash_left none next e l rest =
      rw (ttl_in-seen start (now hashes) k s.hash_data none e l, Expiry.ttl_hashes) rest
  hash_left (some it) next e l rest =
      rw (ttl_in-seen start (now hashes) k s.hash_data (some it) e l, Expiry.ttl_hashes) refl

  text_left :
      (o : Option (Item (Bytes))) (next : ℤ)
      → find k s.string_data ≡ o
      → live (now strings) o ≡ o
      → Expiry.ttl_hashes start now k s ≡ (next, s)
      → Expiry.ttl start now k s ≡ (Spec.left_or start o next, s)
  unfolding Spec.left_or Expiry.ttl seen
  text_left none next e l rest =
      rw (ttl_in-seen start (now strings) k s.string_data none e l, Expiry.ttl) rest
  text_left (some it) next e l rest =
      rw (ttl_in-seen start (now strings) k s.string_data (some it) e l, Expiry.ttl) refl

live_twice : {A : Type 0} (now : ℤ) (o : Option (Item A)) → live now (live now o) ≡ live now o
live_twice now o = live-live now now o (omega arith)

-- TTL, of a key that is not stale.
pub ttl-Same :
    (start : ℤ) (now : Readings) (k : Bytes) (s : Storage) (f : Spec.Store)
    → Implements now s f
    → NotStale now k s
    → Same now (Expiry.ttl start now k s) (Spec.ttl start now k f)
unfolding Spec.ttl
ttl-Same start now k s f h fresh =
    Same-eq now _ ((Spec.ttl start now k f).0, s) _
      (text_left start now k s _ _
        (shown (now strings) k s.string_data f.texts fresh.text h.texts_agree)
        (live_twice (now strings) (f.texts k))
        (hash_left start now k s _ _
          (shown (now hashes) k s.hash_data f.hashes_at fresh.hash h.hashes_agree)
          (live_twice (now hashes) (f.hashes_at k))
          (list_left start now k s _ _
            (shown (now lists) k s.list_data f.lists_at fresh.list h.lists_agree)
            (live_twice (now lists) (f.lists_at k))
            (set_left start now k s _
              (shown (now sets) k s.set_data f.sets_at fresh.members h.sets_agree)
              (live_twice (now sets) (f.sets_at k))))))
      (refl, h)
