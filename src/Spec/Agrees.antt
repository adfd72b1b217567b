-- ===== src/Spec/Agrees.antt =====
-- A storage and a store show the same items, now and from now on
-- (RediCraft-Server/src/storage.cpp).
use redi_craft.Prelude.{◌≡◌, sym, ap, ◌∙◌, Option, none, some, arith, Bytes, key_laws}
use redi_craft.Prelude.Int.{ℤ, ◌≤ℤ◌}
use redi_craft.Table.{Table, find, assign, erase}
use redi_craft.Table.Laws.{find-assign, find-erase}
use redi_craft.Storage.{
  Item, Storage, Readings, purge, remove_expired, strings, hashes, lists, sets,
}
use redi_craft.Storage.View.{live, find-purge_self, live-live, live-purge}
use redi_craft.Storage.Reads.{NotBefore}
use redi_craft.Spec.{Store, update}

-- From the reading on, the table and the function show the same item at each key.
abbrev pub Agrees : {A : Type 0} → ℤ → Table (Item A) → (Bytes → Option (Item A)) → Type 0
Agrees now m f = (k : Bytes) → live now (find k m) ≡ live now (f k)

-- The storage shows what the store shows.
pub record Implements (now : Readings) (s : Storage) (f : Store) : Type 0 where
  pub texts_agree : Agrees (now strings) s.string_data f.texts
  pub hashes_agree : Agrees (now hashes) s.hash_data f.hashes_at
  pub lists_agree : Agrees (now lists) s.list_data f.lists_at
  pub sets_agree : Agrees (now sets) s.set_data f.sets_at

pub Agrees-later :
    {A : Type 0} (now later : ℤ) (m : Table (Item A)) (f : Bytes → Option (Item A))
    → now ≤ℤ later
    → Agrees now m f
    → Agrees later m f
Agrees-later now later m f le h k =
    sym (live-live now later (find k m) le) ∙ ap (live later) (h k) ∙ live-live now later (f k) le

Agrees-purge :
    {A : Type 0} (now later : ℤ) (key : Bytes) (m : Table (Item A)) (f : Bytes → Option (Item A))
    → now ≤ℤ later
    → Agrees now m f
    → Agrees later (purge later key m) f
Agrees-purge now later key m f le h k =
    live-purge later later key m k (omega arith) ∙ Agrees-later now later m f le h k

pub Agrees-assign :
    {A : Type 0} (now : ℤ) (key : Bytes) (it : Item A) (m : Table (Item A))
    (f : Bytes → Option (Item A))
    → Agrees now m f
    → Agrees now (assign key it m) (update key (some it) f)
unfolding update
Agrees-assign now key it m f h k = ground (arith, find-assign key it m k, h k)

pub Agrees-erase :
    {A : Type 0} (now : ℤ) (key : Bytes) (m : Table (Item A)) (f : Bytes → Option (Item A))
    → Agrees now m f
    → Agrees now (erase key m) (update key none f)
unfolding update
Agrees-erase now key m f h k = ground (arith, find-erase key m k, h k)

-- A key that shows no item may be set to none.
pub Agrees-drop :
    {A : Type 0} (now : ℤ) (key : Bytes) (m : Table (Item A)) (f : Bytes → Option (Item A))
    → Agrees now m f
    → live now (f key) ≡ none
    → Agrees now m (update key none f)
unfolding update live
Agrees-drop now key m f h gone k = grind (key_laws, h k)

-- What a method finds behind remove_expired is what the store shows.
find-purge-Agrees :
    {A : Type 0} (now later : ℤ) (key : Bytes) (m : Table (Item A)) (f : Bytes → Option (Item A))
    → now ≤ℤ later
    → Agrees now m f
    → find key (purge later key m) ≡ live later (f key)
find-purge-Agrees now later key m f le h =
    find-purge_self later key m ∙ Agrees-later now later m f le h key

-- The state behind remove_expired: it implements the same store, and shows its items as they are.
pub record IsPurged (now : Readings) (k : Bytes) (s : Storage) (f : Store) : Type 0 where
  pub implements : Implements now s f
  pub text : find k s.string_data ≡ live (now strings) (f.texts k)
  pub hash : find k s.hash_data ≡ live (now hashes) (f.hashes_at k)
  pub list : find k s.list_data ≡ live (now lists) (f.lists_at k)
  pub members : find k s.set_data ≡ live (now sets) (f.sets_at k)

pub remove_expired-IsPurged :
    (now later : Readings) (k : Bytes) (s : Storage) (f : Store)
    → NotBefore now later
    → Implements now s f
    → IsPurged later k (remove_expired later k s) f
unfolding remove_expired
remove_expired-IsPurged now later k s f le h = record {
  implements = record {
    texts_agree = Agrees-purge (now strings) _ k s.string_data _ (le strings) h.texts_agree;
    hashes_agree = Agrees-purge (now hashes) _ k s.hash_data _ (le hashes) h.hashes_agree;
    lists_agree = Agrees-purge (now lists) _ k s.list_data _ (le lists) h.lists_agree;
    sets_agree = Agrees-purge (now sets) _ k s.set_data _ (le sets) h.sets_agree;
  };
  text = find-purge-Agrees (now strings) _ k s.string_data _ (le strings) h.texts_agree;
  hash = find-purge-Agrees (now hashes) _ k s.hash_data _ (le hashes) h.hashes_agree;
  list = find-purge-Agrees (now lists) _ k s.list_data _ (le lists) h.lists_agree;
  members = find-purge-Agrees (now sets) _ k s.set_data _ (le sets) h.sets_agree;
}

-- The same answer, and states that show the same.
abbrev pub Same : {R : Type 0} → Readings → R × Storage → R × Store → Type 0
Same now x y = (x.0 ≡ y.0) × Implements now x.1 y.1

pub Same-eq :
    {R : Type 0} (now : Readings) (x x' : R × Storage) (y : R × Store)
    → x ≡ x'
    → Same now x' y
    → Same now x y
Same-eq now x x' y e h = rw e h
