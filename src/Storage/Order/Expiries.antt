-- ===== src/Storage/Order/Expiries.antt =====
-- expire and ttl (RediCraft-Server/src/storage.cpp) on storages that hold the same items in another
-- order.
use redi_craft.Prelude.{
  ◌≡◌, refl, Bool, true, Option, none, some, List, if◌then◌else◌, if_alike, Bytes,
}
use redi_craft.Prelude.Int.{ℤ, ◌-ℤ◌, wrap64, negsuc}
use redi_craft.Table.{Table, find, assign, erase}
use redi_craft.Storage.{Item, Storage, Readings, is_expired, strings, hashes, lists, sets}
use redi_craft.Storage.Expiry.{
  expiry_time, expire_in, expire_sets, expire_lists, expire_hashes, expire, whole_seconds, ttl_in,
  ttl_sets, ttl_lists, ttl_hashes, ttl,
}
use redi_craft.Storage.Order.{SameAt, assign-SameAt, erase-SameAt, SameItems, Alike}

-- Both blocks find nothing, or both leave related results.
abbrev Both : {V : Type 0} → (V → V → Type 0) → Option V → Option V → Type 0
Both R none none = Unit
Both R (some x) (some y) = R x y
Both R _ _ = ⊥

-- A block and what stands behind it in the chain.
chain :
    {V R : Type 0} {Related : V → V → Type 0} (o o' : Option V) {x x' : R × Storage}
    {f f' : V → R × Storage}
    → Both Related o o'
    → Alike x x'
    → ((m m' : V) → Related m m' → Alike (f m) (f' m'))
    → Alike
        (elim o as (λ _. R × Storage) [ none ↦ x | some m ↦ f m ])
        (elim o' as (λ _. R × Storage) [ none ↦ x' | some m ↦ f' m ])
chain none none b h k = h
chain none (some m') b h k = absurd b
chain (some m) none b h k = absurd b
chain (some m) (some m') b h k = k m m' b

-- the same answer of ttl, and the same left in the table
abbrev SameLeft : {A : Type 0} → ℤ × Table (Item A) → ℤ × Table (Item A) → Type 0
SameLeft p q = (p.0 ≡ q.0) × SameAt p.1 q.1

module _ {A : Type 0} (k : Bytes) (m n : Table (Item A)) (h : SameAt m n) where
  expire_in-Both : (time : ℤ) → Both SameAt (expire_in time k m) (expire_in time k n)
  unfolding expire_in
  expire_in-Both time = rw (h k, expire_in) (from (find k n))
    where
      from :
          (o : Option (Item A))
          → Both SameAt
              (elim o as (λ _. Option (Table (Item A))) [
                | none ↦ none
                | some it ↦ some (assign k (record it { has_expiry = true; expiry = time }) m)
              ])
              (elim o as (λ _. Option (Table (Item A))) [
                | none ↦ none
                | some it ↦ some (assign k (record it { has_expiry = true; expiry = time }) n)
              ])
      from none = tt
      from (some it) = assign-SameAt k m n h _

  ttl_in-Both : (start now : ℤ) → Both SameLeft (ttl_in start now k m) (ttl_in start now k n)
  unfolding ttl_in
  ttl_in-Both start now = rw (h k, ttl_in) (from (find k n))
    where
      block : Table (Item A) → Item A → Option (ℤ × Table (Item A))
      block m it =
          if it.has_expiry
          then (if is_expired now it.expiry
              then some (negsuc 1, erase k m)
              else some (whole_seconds (wrap64 (it.expiry -ℤ start)), m))
          else some (negsuc 0, m)

      from :
          (o : Option (Item A))
          → Both SameLeft
              (elim o as (λ _. Option (ℤ × Table (Item A))) [ none ↦ none | some it ↦ block m it ])
              (elim o as (λ _. Option (ℤ × Table (Item A))) [ none ↦ none | some it ↦ block n it ])
      from none = tt
      from (some it) =
          if_alike (Both SameLeft) it.has_expiry _ _ _ _
            (if_alike (Both SameLeft) (is_expired now it.expiry) _ _ _ _
              (refl, erase-SameAt k m n h) (refl, h))
            (refl, h)

module _ (s t : Storage) (h : SameItems s t) where
  with_texts :
      (m m' : Table (Item Bytes))
      → SameAt m m'
      → SameItems (record s { string_data = m }) (record t { string_data = m' })
  with_texts m m' p = record {
    texts_same = p;
    hashes_same = h.hashes_same;
    lists_same = h.lists_same;
    sets_same = h.sets_same;
  }

  with_hashes :
      (m m' : Table (Item (Table Bytes)))
      → SameAt m m'
      → SameItems (record s { hash_data = m }) (record t { hash_data = m' })
  with_hashes m m' p = record {
    texts_same = h.texts_same;
    hashes_same = p;
    lists_same = h.lists_same;
    sets_same = h.sets_same;
  }

  with_lists :
      (m m' : Table (Item (List Bytes)))
      → SameAt m m'
      → SameItems (record s { list_data = m }) (record t { list_data = m' })
  with_lists m m' p = record {
    texts_same = h.texts_same;
    hashes_same = h.hashes_same;
    lists_same = p;
    sets_same = h.sets_same;
  }

  with_sets :
      (m m' : Table (Item (Table Bool)))
      → SameAt m m'
      → SameItems (record s { set_data = m }) (record t { set_data = m' })
  with_sets m m' p = record {
    texts_same = h.texts_same;
    hashes_same = h.hashes_same;
    lists_same = h.lists_same;
    sets_same = p;
  }

  module _ (time : ℤ) (k : Bytes) where
    expire_sets-Alike : Alike (expire_sets time k s) (expire_sets time k t)
    unfolding expire_sets
    expire_sets-Alike =
        chain _ _ (expire_in-Both k _ _ h.sets_same time) (refl, h)
          (λ m m' p. (refl, with_sets m m' p))

    expire_lists-Alike : Alike (expire_lists time k s) (expire_lists time k t)
    unfolding expire_lists
    expire_lists-Alike =
        chain _ _ (expire_in-Both k _ _ h.lists_same time) expire_sets-Alike
          (λ m m' p. (refl, with_lists m m' p))

    expire_hashes-Alike : Alike (expire_hashes time k s) (expire_hashes time k t)
    unfolding expire_hashes
    expire_hashes-Alike =
        chain _ _ (expire_in-Both k _ _ h.hashes_same time) expire_lists-Alike
          (λ m m' p. (refl, with_hashes m m' p))

  pub expire-Alike :
      (now : ℤ) (k : Bytes) (seconds : ℤ) → Alike (expire now k seconds s) (expire now k seconds t)
  unfolding expire
  expire-Alike now k seconds =
      let time = expiry_time now seconds in
      chain _ _ (expire_in-Both k _ _ h.texts_same time) (expire_hashes-Alike time k)
        (λ m m' p. (refl, with_texts m m' p))

  module _ (start : ℤ) (now : Readings) (k : Bytes) where
    ttl_sets-Alike : Alike (ttl_sets start now k s) (ttl_sets start now k t)
    unfolding ttl_sets
    ttl_sets-Alike =
        chain {Related = SameLeft} _ _ (ttl_in-Both k _ _ h.sets_same start (now sets)) (refl, h)
          (λ m m' p. (p.0, with_sets m.1 m'.1 p.1))

    ttl_lists-Alike : Alike (ttl_lists start now k s) (ttl_lists start now k t)
    unfolding ttl_lists
    ttl_lists-Alike =
        chain {Related = SameLeft} _ _ (ttl_in-Both k _ _ h.lists_same start (now lists))
          ttl_sets-Alike (λ m m' p. (p.0, with_lists m.1 m'.1 p.1))

    ttl_hashes-Alike : Alike (ttl_hashes start now k s) (ttl_hashes start now k t)
    unfolding ttl_hashes
    ttl_hashes-Alike =
        chain {Related = SameLeft} _ _ (ttl_in-Both k _ _ h.hashes_same start (now hashes))
          ttl_lists-Alike (λ m m' p. (p.0, with_hashes m.1 m'.1 p.1))

    pub ttl-Alike : Alike (ttl start now k s) (ttl start now k t)
    unfolding ttl
    ttl-Alike =
        chain {Related = SameLeft} _ _ (ttl_in-Both k _ _ h.texts_same start (now strings))
          ttl_hashes-Alike (λ m m' p. (p.0, with_texts m.1 m'.1 p.1))
