-- ===== src/Storage/Sets/Counts.antt =====
-- What sadd and srem return, and what the other set methods then find
-- (RediCraft-Server/src/storage.cpp).
use redi_craft.Prelude.{
  ℕ, ◌+◌, ◌≤◌, ◌≡◌, refl, ap, ◌≢◌, Bool, true, false, not, ◌&&◌, ◌||◌, none, List, [], ◌∷◌, arith,
  if◌then◌else◌, length, Bytes, bytes_eq, bytes_eq_sym, ltb,
}
use redi_craft.Prelude.Int.{ℤ}
use redi_craft.Table.{Table, find, assign, is_some, IsTable}
use redi_craft.Table.Laws.{find-assign, length-assign}
use redi_craft.Storage.{Storage, Readings, remove_expired, sets}
use redi_craft.Storage.View.{live, value_at, Outlives, find-purge, find-purge_self}
use redi_craft.Storage.Sets.{fresh_members, sadd_found, sadd, srem, sismember, scard}
use redi_craft.Storage.Sets.Laws.{
  listed, remove_members-count, is_some-remove_members, members_at, sismember_lem, scard_lem,
}
use redi_craft.Storage.Sets.Found.{
  found_members, is_some-sadd_found, sadd_found-count, members_at-srem_found, srem_found-result,
  sadd_found-none-count,
}

-- whether some member stands twice in the list
unfoldable pub repeats : List Bytes → Bool
unfolding listed
repeats [] = false
repeats (x ∷ ms) = listed x ms || repeats ms

-- whether some member of the list is in the table
unfoldable meets : List Bytes → Table Bool → Bool
meets [] m = false
meets (x ∷ ms) m = is_some (find x m) || meets ms m

-- A further entry meets what the table met, and the member itself where it is listed.
meets-assign :
    (ms : List Bytes) (y : Bytes) (m : Table Bool)
    → meets ms (assign y true m) ≡ listed y ms || meets ms m
unfolding meets listed
meets-assign [] y m = refl
meets-assign (x ∷ ms) y m =
    ground (arith, meets-assign ms y m, find-assign y true m x, bytes_eq_sym x y)

-- Assigning members adds as many entries as there are members if none of them repeats or is there
-- before, and fewer otherwise.
length-fresh_members :
    (ms : List Bytes) (m : Table Bool) (n : ℕ)
    → (length (fresh_members ms m n).0 ≤ length m + length ms)
      × (ltb (length (fresh_members ms m n).0) (length m + length ms) ≡ meets ms m || repeats ms)
unfolding fresh_members meets repeats
length-fresh_members [] m n = (omega arith, ground arith)
length-fresh_members (y ∷ ms) m n =
    let (le, lt) = length-fresh_members ms (assign y true m) (n + 1) in
    (
      ground (arith, le, length-assign y true m),
      ground (arith, le, lt, length-assign y true m, meets-assign ms y m),
    )

meets-nil : (ms : List Bytes) → meets ms [] ≡ false
unfolding meets find
meets-nil [] = refl
meets-nil (x ∷ ms) = meets-nil ms

module _ (now : Readings) (k : Bytes) (s : Storage) where
  found_members-remove_expired :
      found_members (find k (remove_expired now k s).set_data) ≡ members_at (now sets) k s
  unfolding remove_expired members_at
  found_members-remove_expired = ground (arith, find-purge_self (now sets) k s.set_data)

  members_at-remove_expired_ne :
      (later : ℤ) (j : Bytes)
      → bytes_eq k j ≡ false
      → members_at later j (remove_expired now k s) ≡ members_at later j s
  unfolding remove_expired members_at
  members_at-remove_expired_ne later j h = ground (arith, find-purge (now sets) k s.set_data j)

  live-remove_expired :
      (later : ℤ)
      → Outlives (now sets) later k s.set_data
      → live later (find k (remove_expired now k s).set_data)
        ≡ find k (remove_expired now k s).set_data
  unfolding remove_expired
  live-remove_expired later alive = rw (find-purge_self (now sets) k s.set_data) alive

  found-remove_expired :
      value_at (now sets) k s.set_data ≢ none → find k (remove_expired now k s).set_data ≢ none
  unfolding remove_expired value_at
  found-remove_expired there = ground (arith, find-purge_self (now sets) k s.set_data)

  -- After SADD to a key that does not expire before the next call, SISMEMBER finds exactly the
  -- members that were listed or that it found before; at another key it finds what it would have
  -- found without the SADD.
  pub sismember-sadd :
      (now' : Readings) (ms : List Bytes) (j x : Bytes)
      → Outlives (now sets) (now' sets) k s.set_data
      → (sismember now' j x (sadd now k ms s).1).0 ≡ (
          if bytes_eq k j then listed x ms || (sismember now k x s).0 else (sismember now' j x s).0)
  unfolding sadd
  sismember-sadd now' ms j x alive =
      let s' = remove_expired now k s in
      ground (
        arith,
        sismember_lem now' j x (sadd now k ms s).1,
        sismember_lem now k x s,
        sismember_lem now' j x s,
        is_some-sadd_found k ms (find k s'.set_data) s' (now' sets) j x
            (live-remove_expired _ alive),
        found_members-remove_expired,
        members_at-remove_expired_ne (now' sets) j,
      )

  -- SADD to a set that is there, and does not expire before the next call, returns by how many
  -- members SCARD grows.
  scard-sadd :
      (now' : Readings) (ms : List Bytes)
      → Outlives (now sets) (now' sets) k s.set_data
      → value_at (now sets) k s.set_data ≢ none
      → (sadd now k ms s).0 + (scard now k s).0 ≡ (scard now' k (sadd now k ms s).1).0
  unfolding sadd
  scard-sadd now' ms alive there =
      let s' = remove_expired now k s in
      ground (
        arith,
        scard_lem now' k (sadd now k ms s).1,
        scard_lem now k s,
        sadd_found-count k ms (find k s'.set_data) s' (now' sets) (live-remove_expired _ alive),
        found_members-remove_expired,
        found-remove_expired there,
      )

  sadd_absent :
      (ms : List Bytes)
      → value_at (now sets) k s.set_data ≡ none
      → sadd now k ms s ≡ sadd_found k ms none (remove_expired now k s)
  unfolding sadd remove_expired value_at
  sadd_absent ms absent =
      let p = find-purge_self (now sets) k s.set_data in
      ap (λ o. sadd_found k ms o (remove_expired now k s)) {y = none} (ground (arith, p))

  -- SADD to a key with no set returns the number of its arguments; this is more than the SCARD of the
  -- set that it leaves if some member stands twice among them, and else it is the SCARD.
  pub sadd_repeats :
      (now' : Readings) (ms : List Bytes)
      → value_at (now sets) k s.set_data ≡ none
      → ((sadd now k ms s).0 ≡ length ms)
        × ((scard now' k (sadd now k ms s).1).0 ≤ (sadd now k ms s).0)
        × (ltb (scard now' k (sadd now k ms s).1).0 (sadd now k ms s).0 ≡ repeats ms)
  sadd_repeats now' ms absent =
      let p = sadd_absent ms absent in
      let q = sadd_found-none-count k ms (remove_expired now k s) (now' sets) in
      let (le, lt) = length-fresh_members ms [] 0 in
      rw (p, scard_lem)
        (q.0, rw (q.1, q.0) (omega (arith, le)), rw (q.1, q.0) (ground (arith, lt, meets-nil ms)))

  -- After SREM from a key that does not expire before the next call, SISMEMBER finds exactly the
  -- members that it found before and that were not listed.
  sismember-srem :
      (now' : Readings) (ms : List Bytes) (x : Bytes)
      → Outlives (now sets) (now' sets) k s.set_data
      → (sismember now' k x (srem now k ms s).1).0 ≡ not (listed x ms) && (sismember now k x s).0
  unfolding srem
  sismember-srem now' ms x alive =
      let s' = remove_expired now k s in
      let o = find k s'.set_data in
      ground (
        arith,
        sismember_lem now' k x (srem now k ms s).1,
        sismember_lem now k x s,
        members_at-srem_found k ms o s' (now' sets) (live-remove_expired _ alive) refl,
        is_some-remove_members ms (found_members o) 0 x,
        found_members-remove_expired,
      )

  -- SREM from a key that does not expire before the next call returns by how many members SCARD
  -- shrinks, if the set holds each member once.
  pub scard-srem :
      (now' : Readings) (ms : List Bytes)
      → Outlives (now sets) (now' sets) k s.set_data
      → IsTable (members_at (now sets) k s)
      → (srem now k ms s).0 + (scard now' k (srem now k ms s).1).0 ≡ (scard now k s).0
  unfolding srem
  scard-srem now' ms alive fine =
      let s' = remove_expired now k s in
      let o = find k s'.set_data in
      ground (
        arith,
        scard_lem now' k (srem now k ms s).1,
        scard_lem now k s,
        members_at-srem_found k ms o s' (now' sets) (live-remove_expired _ alive) refl,
        srem_found-result k ms o s',
        remove_members-count ms (found_members o) 0 (rw found_members-remove_expired fine),
        found_members-remove_expired,
      )
