-- ===== src/Storage/Lists/Laws.antt =====
-- lpush and rpop as a queue (RediCraft-Server/src/storage.cpp).
use mathlib.Core.List.{concat-ne-nil}
use redi_craft.Prelude.{
  ◌≡◌, refl, sym, ap, ◌∙◌, false, Option, none, some, List, [], ◌∷◌, ◌++◌, append-nil, arith,
  length, Bytes,
}
use redi_craft.Prelude.Int.{ℤ}
use redi_craft.Table.{find}
use redi_craft.Table.Laws.{find_assigned}
use redi_craft.Storage.{Item, item, Storage, Readings, has_expired, remove_expired, lists}
use redi_craft.Storage.View.{live, value_at, Outlives, find-purge_self}
use redi_craft.Storage.Lists.{
  put, lpush_found, lpush, back, pop_back, rpop_from, rpop_found, rpop, range_of, lrange,
}

-- the values of the live list at a key: no list is the empty list
abbrev pub values_of : Option (List Bytes) → List Bytes
values_of none = []
values_of (some values) = values

unfoldable pub values_at : ℤ → Bytes → Storage → List Bytes
values_at now k s = values_of (value_at now k s.list_data)

pub pop_back-concat : {A : Type 0} (xs : List A) (x : A) → pop_back (xs ++ x ∷ []) ≡ xs
unfolding pop_back
pop_back-concat [] x = refl
pop_back-concat (y ∷ []) x = refl
pop_back-concat (y ∷ z ∷ xs) x = ap (◌∷◌ y) (pop_back-concat (z ∷ xs) x)

pub back-concat : {A : Type 0} (y : A) (xs : List A) (x : A) → back y (xs ++ x ∷ []) ≡ x
unfolding back
back-concat y [] x = refl
back-concat y (z ∷ xs) x = back-concat z xs x

values_at-lpush_found :
    (k : Bytes) (values : List Bytes) (o : Option (Item (List Bytes))) (s : Storage) (later : ℤ)
    → live later o ≡ o
    → let all = values ++ elim o [ none ↦ [] | some it ↦ it.value ] in
      ((lpush_found k values o s).0 ≡ length all)
      × (values_at later k (lpush_found k values o s).1 ≡ all)
unfolding lpush_found values_at value_at has_expired
values_at-lpush_found k values none s later h =
    rw append-nil (refl, ground (arith, find_assigned k (item values) s.list_data))
values_at-lpush_found k values (some it) s later h =
    let it' = record it { value = values ++ it.value } in
    (refl, ground (arith, find_assigned k it' s.list_data, h))

values_at-put :
    (k : Bytes) (it : Item (List Bytes)) (s : Storage) (later : ℤ)
    → has_expired later it ≡ false
    → values_at later k (put k it s) ≡ it.value
unfolding values_at value_at put
values_at-put k it s later h = ground (arith, find_assigned k it s.list_data)

-- the last value of a list, and the list without it, as rpop takes them
rpop_found-result :
    (k : Bytes) (o : Option (Item (List Bytes))) (s : Storage) (later : ℤ) (xs : List Bytes)
    (x : Bytes)
    → live later o ≡ o
    → elim o [ none ↦ [] | some it ↦ it.value ] ≡ xs ++ x ∷ []
    → ((rpop_found k o s).0 ≡ some x) × (values_at later k (rpop_found k o s).1 ≡ xs)
unfolding rpop_found back
rpop_found-result k none s later xs x h e = absurd (concat-ne-nil x xs (sym e))
rpop_found-result k (some it) s later xs x h e = from it.value e
  where
    from :
        (values : List Bytes)
        → values ≡ xs ++ x ∷ []
        → ((rpop_from k it values s).0 ≡ some x)
          × (values_at later k (rpop_from k it values s).1 ≡ xs)
    from [] p = absurd (concat-ne-nil x xs (sym p))
    from (y ∷ ys) p = (
      ap some (ap (back y) p ∙ back-concat y xs x),
      values_at-put k (record it { value = pop_back (y ∷ ys) }) s later
            (unfold live has_expired in ground arith)
          ∙ ap pop_back p
          ∙ pop_back-concat xs x,
    )

module _ (now : Readings) (k : Bytes) (s : Storage) where
  found-remove_expired :
      find k (remove_expired now k s).list_data ≡ live (now lists) (find k s.list_data)
  unfolding remove_expired
  found-remove_expired = find-purge_self (now lists) k s.list_data

  found_values :
      elim (find k (remove_expired now k s).list_data) [ none ↦ [] | some it ↦ it.value ]
      ≡ values_at (now lists) k s
  unfolding values_at value_at
  found_values = ground (arith, found-remove_expired)

  -- LPUSH to a key that does not expire before the next call puts the values, in the order of its
  -- arguments, in front of the list, and returns the new length.
  pub lpush_lem :
      (later : ℤ) (values : List Bytes)
      → Outlives (now lists) later k s.list_data
      → ((lpush now k values s).0 ≡ length (values ++ values_at (now lists) k s))
        × (values_at later k (lpush now k values s).1 ≡ values ++ values_at (now lists) k s)
  unfolding lpush
  lpush_lem later values alive =
      let s' = remove_expired now k s in
      rw (← found_values) (
        values_at-lpush_found k values (find k s'.list_data) s' later
          (rw found-remove_expired alive))

  -- RPOP of a list that does not expire before the next call returns its last value and leaves the
  -- others.
  rpop_lem :
      (later : ℤ) (xs : List Bytes) (x : Bytes)
      → Outlives (now lists) later k s.list_data
      → values_at (now lists) k s ≡ xs ++ x ∷ []
      → ((rpop now k s).0 ≡ some x) × (values_at later k (rpop now k s).1 ≡ xs)
  unfolding rpop
  rpop_lem later xs x alive e =
      let s' = remove_expired now k s in
      rpop_found-result k (find k s'.list_data) s' later xs x (rw found-remove_expired alive)
        (found_values ∙ e)

  -- RPOP of an empty list, or of a key with no list, returns nothing.
  rpop_empty : values_at (now lists) k s ≡ [] → (rpop now k s).0 ≡ none
  unfolding rpop rpop_found
  rpop_empty e = ground (arith, found_values)

  pub lrange_lem :
      (start end : ℤ)
      → (lrange now k start end s).0 ≡ range_of (values_at (now lists) k s) start end
  unfolding lrange values_at value_at range_of
  lrange_lem start end = ground (arith, found-remove_expired)
