-- ===== src/Storage/Invariant/Expiries.antt =====
-- expire and ttl (RediCraft-Server/src/storage.cpp) and what the tables hold.
use mathlib.Core.Path.{subst}
use redi_craft.Prelude.{
  ◌≡◌, ◌⊎◌, inl, inr, true, refl, Option, none, some, arith, Option-cases, Bytes,
}
use redi_craft.Prelude.Int.{ℤ}
use redi_craft.Table.{Table, find, assign, erase}
use redi_craft.Table.Laws.{find-Entries}
use redi_craft.Storage.{Item, Storage, Readings, strings, hashes, lists, sets}
use redi_craft.Storage.Expiry.{
  expiry_time, expire_in, expire_sets, expire_lists, expire_hashes, expire, ttl_in, ttl_sets,
  ttl_lists, ttl_hashes, ttl,
}
use redi_craft.Storage.Invariant.{
  Holds, IsStoreOf, assign-Holds, erase-Holds, with_texts, with_hashes, with_lists, with_sets,
}

module _ {A : Type 0} (P : Bytes → A → Type 0) (m : Table (Item A)) (h : Holds P m) where
  expire_in-Holds :
      (time : ℤ) (k : Bytes) (m' : Table (Item A)) → expire_in time k m ≡ some m' → Holds P m'
  unfolding expire_in
  expire_in-Holds time k m' e = elim (Option-cases (find k m)) [
    | inl absent ↦ absurd (cc (rw (absent, expire_in) at e))
    | inr (it, there) ↦
        let it' = record it { has_expiry = true; expiry = time } in
        let e' : some (assign k it' m) ≡ some m' = rw (there, expire_in) at e in
        let p : assign k it' m ≡ m' = cc e' in
        subst (Holds P) p (assign-Holds P m h k it' (find-Entries _ k m it h.values there))
  ]

  ttl_in-Holds :
      (start now : ℤ) (k : Bytes) (r : ℤ × Table (Item A))
      → ttl_in start now k m ≡ some r
      → Holds P r.1
  unfolding ttl_in
  ttl_in-Holds start now k r e = elim (ttl_in-cases start now k r e) [
    | inl same ↦ rw same h
    | inr erased ↦ rw erased (erase-Holds P m h k)
  ]
    where
      ttl_in-cases :
          (start now : ℤ) (k : Bytes) (r : ℤ × Table (Item A))
          → ttl_in start now k m ≡ some r
          → (r.1 ≡ m) ⊎ (r.1 ≡ erase k m)
      ttl_in-cases start now k r e = ground arith

-- A block, and what stands behind it in the chain.
chain :
    {Q : Bytes → Type 0} {V R : Type 0} (o : Option V) (x : R × Storage) (f : V → R × Storage)
    → IsStoreOf Q x.1
    → ((m : V) → o ≡ some m → IsStoreOf Q (f m).1)
    → IsStoreOf Q (elim o as (λ _. R × Storage) [ none ↦ x | some m ↦ f m ]).1
chain none x f w h = w
chain (some m) x f w h = h m refl

module _ {Q : Bytes → Type 0} (time : ℤ) (k : Bytes) (s : Storage) (w : IsStoreOf Q s) where
  expire_sets-IsStoreOf : IsStoreOf Q (expire_sets time k s).1
  unfolding expire_sets
  expire_sets-IsStoreOf =
      chain _ _ _ w (λ m e. with_sets s w m (expire_in-Holds _ _ w.sets_hold time k m e))

  expire_lists-IsStoreOf : IsStoreOf Q (expire_lists time k s).1
  unfolding expire_lists
  expire_lists-IsStoreOf =
      chain _ _ _ expire_sets-IsStoreOf
        (λ m e. with_lists s w m (expire_in-Holds _ _ w.lists_hold time k m e))

  expire_hashes-IsStoreOf : IsStoreOf Q (expire_hashes time k s).1
  unfolding expire_hashes
  expire_hashes-IsStoreOf =
      chain _ _ _ expire_lists-IsStoreOf
        (λ m e. with_hashes s w m (expire_in-Holds _ _ w.hashes_hold time k m e))

module _ {Q : Bytes → Type 0} (start : ℤ) (now : Readings) (k : Bytes) (s : Storage)
    (w : IsStoreOf Q s) where
  ttl_sets-IsStoreOf : IsStoreOf Q (ttl_sets start now k s).1
  unfolding ttl_sets
  ttl_sets-IsStoreOf =
      chain _ _ _ w (λ r e. with_sets s w _ (ttl_in-Holds _ _ w.sets_hold start (now sets) k r e))

  ttl_lists-IsStoreOf : IsStoreOf Q (ttl_lists start now k s).1
  unfolding ttl_lists
  ttl_lists-IsStoreOf =
      chain _ _ _ ttl_sets-IsStoreOf
        (λ r e. with_lists s w _ (ttl_in-Holds _ _ w.lists_hold start (now lists) k r e))

  ttl_hashes-IsStoreOf : IsStoreOf Q (ttl_hashes start now k s).1
  unfolding ttl_hashes
  ttl_hashes-IsStoreOf =
      chain _ _ _ ttl_lists-IsStoreOf
        (λ r e. with_hashes s w _ (ttl_in-Holds _ _ w.hashes_hold start (now hashes) k r e))

  pub ttl-IsStoreOf : IsStoreOf Q (ttl start now k s).1
  unfolding ttl
  ttl-IsStoreOf =
      chain _ _ _ ttl_hashes-IsStoreOf
        (λ r e. with_texts s w _ (ttl_in-Holds _ _ w.texts start (now strings) k r e))

pub expire-IsStoreOf :
    {Q : Bytes → Type 0} (now : ℤ) (k : Bytes) (seconds : ℤ) (s : Storage)
    → IsStoreOf Q s
    → IsStoreOf Q (expire now k seconds s).1
unfolding expire
expire-IsStoreOf now k seconds s w =
    let time = expiry_time now seconds in
    chain _ _ _ (expire_hashes-IsStoreOf time k s w)
      (λ m e. with_texts s w m (expire_in-Holds _ _ w.texts time k m e))
