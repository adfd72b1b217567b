-- ===== src/Storage/Order.antt =====
-- The order in which std::unordered_map keeps its entries (RediCraft-Server/src/storage.cpp): storages
-- that hold the same items in any order.
pub mod Methods
pub mod Expiries
use redi_craft.Prelude.{
  ◌≡◌, refl, sym, ap, ◌∙◌, Bool, Option, none, some, List, if◌then◌else◌, if_alike, Bytes, bytes_eq,
}
use redi_craft.Prelude.Int.{ℤ}
use redi_craft.Table.{Table, find, assign, erase}
use redi_craft.Table.Laws.{find-assign, find-erase}
use redi_craft.Storage.{
  Item, Storage, Readings, has_expired, purge, remove_expired, strings, hashes, lists, sets,
}
use redi_craft.Storage.Strings
use redi_craft.Storage.Hashes
use redi_craft.Storage.Lists
use redi_craft.Storage.Sets

-- Two tables that hold the same at every key.
abbrev pub SameAt {ℓ} : {V : Type ℓ} → Table V → Table V → Type ℓ
SameAt m n = (k : Bytes) → find k m ≡ find k n

-- Two storages that hold the same item at every key of every kind, in any order.
pub record SameItems (s t : Storage) : Type 0 where
  pub texts_same : SameAt s.string_data t.string_data
  pub hashes_same : SameAt s.hash_data t.hash_data
  pub lists_same : SameAt s.list_data t.list_data
  pub sets_same : SameAt s.set_data t.set_data

-- The same result, and the same items left.
abbrev pub Alike : {R : Type 0} → R × Storage → R × Storage → Type 0
Alike p q = (p.0 ≡ q.0) × SameItems p.1 q.1

module _ {ℓ} {V : Type ℓ} (k : Bytes) (m n : Table V) (h : SameAt m n) where
  pub assign-SameAt : (v : V) → SameAt (assign k v m) (assign k v n)
  assign-SameAt v j =
      find-assign k v m j
      ∙ ap (λ o. if bytes_eq k j then some v else o) (h j)
      ∙ sym (find-assign k v n j)

  pub erase-SameAt : SameAt (erase k m) (erase k n)
  erase-SameAt j =
      find-erase k m j ∙ ap (λ o. if bytes_eq k j then none else o) (h j) ∙ sym (find-erase k n j)

-- what a block of remove_expired leaves, by the item at its key
purge-SameAt :
    {A : Type 0} (now : ℤ) (k : Bytes) (m n : Table (Item A))
    → SameAt m n
    → SameAt (purge now k m) (purge now k n)
unfolding purge
purge-SameAt {A = A} now k m n h = rw (h k, purge) (from (find k n))
  where
    from :
        (o : Option (Item A))
        → SameAt
            (elim o as (λ _. Table (Item A)) [
              | none ↦ m
              | some it ↦ if has_expired now it then erase k m else m
            ])
            (elim o as (λ _. Table (Item A)) [
              | none ↦ n
              | some it ↦ if has_expired now it then erase k n else n
            ])
    from none = h
    from (some it) = if_alike SameAt (has_expired now it) _ _ m n (erase-SameAt k m n h) h

pub remove_expired-SameItems :
    (now : Readings) (k : Bytes) (s t : Storage)
    → SameItems s t
    → SameItems (remove_expired now k s) (remove_expired now k t)
unfolding remove_expired
remove_expired-SameItems now k s t h = record {
  texts_same = purge-SameAt (now strings) k _ _ h.texts_same;
  hashes_same = purge-SameAt (now hashes) k _ _ h.hashes_same;
  lists_same = purge-SameAt (now lists) k _ _ h.lists_same;
  sets_same = purge-SameAt (now sets) k _ _ h.sets_same;
}

module _ (k : Bytes) (s t : Storage) (h : SameItems s t) where
  pub put_text : (it : Item Bytes) → SameItems (Strings.put k it s) (Strings.put k it t)
  unfolding Strings.put
  put_text it = record {
    texts_same = assign-SameAt k _ _ h.texts_same it;
    hashes_same = h.hashes_same;
    lists_same = h.lists_same;
    sets_same = h.sets_same;
  }

  pub put_hash : (it : Item (Table Bytes)) → SameItems (Hashes.put k it s) (Hashes.put k it t)
  unfolding Hashes.put
  put_hash it = record {
    texts_same = h.texts_same;
    hashes_same = assign-SameAt k _ _ h.hashes_same it;
    lists_same = h.lists_same;
    sets_same = h.sets_same;
  }

  pub put_list : (it : Item (List Bytes)) → SameItems (Lists.put k it s) (Lists.put k it t)
  unfolding Lists.put
  put_list it = record {
    texts_same = h.texts_same;
    hashes_same = h.hashes_same;
    lists_same = assign-SameAt k _ _ h.lists_same it;
    sets_same = h.sets_same;
  }

  pub put_set : (it : Item (Table Bool)) → SameItems (Sets.put k it s) (Sets.put k it t)
  unfolding Sets.put
  put_set it = record {
    texts_same = h.texts_same;
    hashes_same = h.hashes_same;
    lists_same = h.lists_same;
    sets_same = assign-SameAt k _ _ h.sets_same it;
  }
