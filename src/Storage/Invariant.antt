-- ===== src/Storage/Invariant.antt =====
-- What the tables of Storage hold (RediCraft-Server/src/storage.cpp): each key once in a table, each
-- field once in a hash, each member once in a set, no set without a member, and a predicate at every
-- key, field, member and value. With no predicate this is the well-formedness of a storage.
pub mod Members
pub mod Methods
pub mod Expiries
pub mod Results
use redi_craft.Prelude.{◌≢◌, inl, inr, Bool, List, [], if_both, Option-cases, All, Bytes}
use redi_craft.Prelude.Int.{ℤ}
use redi_craft.Number.{to_string}
use redi_craft.Table.{Table, find, assign, erase, IsTable}
use redi_craft.Table.Laws.{assign-IsTable, erase-IsTable, Entries, assign-Entries, erase-Entries}
use redi_craft.Storage.{
  Item, Storage, Readings, has_expired, purge, remove_expired, strings, hashes, lists, sets,
}

-- A table has each key once, and its keys and the values of their items have the property.
pub record Holds {A : Type 0} (P : Bytes → A → Type 0) (m : Table (Item A)) : Type 0 where
  pub keys : IsTable m
  pub values : Entries (λ k (it : Item A). P k it.value) m

module _ (Q : Bytes → Type 0) where
  -- The predicate holds of the texts that a command makes itself.
  pub record IsClosed : Type 0 where
    pub empty : Q []
    pub printed : (a : ℤ) → Q (to_string a)

  abbrev pub IsTextOf : Bytes → Bytes → Type 0
  IsTextOf k v = Q k × Q v

  abbrev pub IsFieldsOf : Table Bytes → Type 0
  IsFieldsOf m = IsTable m × Entries IsTextOf m

  abbrev pub IsHashOf : Bytes → Table Bytes → Type 0
  IsHashOf k m = Q k × IsFieldsOf m

  abbrev pub IsListOf : Bytes → List Bytes → Type 0
  IsListOf k values = Q k × All Q values

  abbrev pub IsMembersOf : Table Bool → Type 0
  IsMembersOf m = IsTable m × Entries (λ x present. Q x) m

  abbrev pub IsFilledOf : Table Bool → Type 0
  IsFilledOf m = IsMembersOf m × (m ≢ [])

  abbrev pub IsSetOf : Bytes → Table Bool → Type 0
  IsSetOf k m = Q k × IsFilledOf m

  pub record IsStoreOf (s : Storage) : Type 0 where
    pub texts : Holds IsTextOf s.string_data
    pub hashes_hold : Holds IsHashOf s.hash_data
    pub lists_hold : Holds IsListOf s.list_data
    pub sets_hold : Holds IsSetOf s.set_data

abbrev pub Anything : Bytes → Type 0
Anything v = Unit

pub Anything-IsClosed : IsClosed Anything
Anything-IsClosed = record { empty = tt; printed = λ a. tt }

abbrev pub IsWellFormed : Storage → Type 0
IsWellFormed = IsStoreOf Anything

module _ {A : Type 0} (P : Bytes → A → Type 0) (m : Table (Item A)) (h : Holds P m) where
  pub assign-Holds : (k : Bytes) (it : Item A) → P k it.value → Holds P (assign k it m)
  assign-Holds k it p = record {
    keys = assign-IsTable k it m h.keys;
    values = assign-Entries _ k it m p h.values;
  }

  pub erase-Holds : (k : Bytes) → Holds P (erase k m)
  erase-Holds k = record { keys = erase-IsTable k m h.keys; values = erase-Entries _ k m h.values }

  purge-Holds : (now : ℤ) (k : Bytes) → Holds P (purge now k m)
  unfolding purge
  purge-Holds now k = elim (Option-cases (find k m)) [
    | inl absent ↦ rw (absent, purge) h
    | inr (it, there) ↦
        rw (there, purge) (if_both (Holds P) (has_expired now it) _ m (λ _. erase-Holds k) h)
  ]

pub remove_expired-IsStoreOf :
    {Q : Bytes → Type 0} (now : Readings) (k : Bytes) (s : Storage)
    → IsStoreOf Q s
    → IsStoreOf Q (remove_expired now k s)
unfolding remove_expired
remove_expired-IsStoreOf now k s w = record {
  texts = purge-Holds _ _ w.texts (now strings) k;
  hashes_hold = purge-Holds _ _ w.hashes_hold (now hashes) k;
  lists_hold = purge-Holds _ _ w.lists_hold (now lists) k;
  sets_hold = purge-Holds _ _ w.sets_hold (now sets) k;
}

-- A storage with another table in the place of one of its own.
module _ {Q : Bytes → Type 0} (s : Storage) (w : IsStoreOf Q s) where
  pub with_texts :
      (m : Table (Item Bytes)) → Holds (IsTextOf Q) m → IsStoreOf Q (record s { string_data = m })
  with_texts m h = record {
    texts = h;
    hashes_hold = w.hashes_hold;
    lists_hold = w.lists_hold;
    sets_hold = w.sets_hold;
  }

  pub with_hashes :
      (m : Table (Item (Table Bytes)))
      → Holds (IsHashOf Q) m
      → IsStoreOf Q (record s { hash_data = m })
  with_hashes m h = record {
    texts = w.texts;
    hashes_hold = h;
    lists_hold = w.lists_hold;
    sets_hold = w.sets_hold;
  }

  pub with_lists :
      (m : Table (Item (List Bytes)))
      → Holds (IsListOf Q) m
      → IsStoreOf Q (record s { list_data = m })
  with_lists m h = record {
    texts = w.texts;
    hashes_hold = w.hashes_hold;
    lists_hold = h;
    sets_hold = w.sets_hold;
  }

  pub with_sets :
      (m : Table (Item (Table Bool)))
      → Holds (IsSetOf Q) m
      → IsStoreOf Q (record s { set_data = m })
  with_sets m h = record {
    texts = w.texts;
    hashes_hold = w.hashes_hold;
    lists_hold = w.lists_hold;
    sets_hold = h;
  }
