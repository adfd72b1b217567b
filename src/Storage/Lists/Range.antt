-- ===== src/Storage/Lists/Range.antt =====
-- The indices of lrange (RediCraft-Server/src/storage.cpp).
use redi_craft.Prelude.{
  ℕ, zero, suc, ◌+◌, ◌-◌, ◌≤◌, ◌≡◌, refl, ap, ◌∙◌, ◌≢◌, List, [], ◌∷◌, arith, ltb, if◌then◌else◌,
  length, take, drop, Bytes,
}
use redi_craft.Prelude.Int.{ℤ, ◌+ℤ◌, ◌-ℤ◌, max_ℤ, min_ℤ, pos, negsuc}
use redi_craft.Storage.{Storage, Readings, lists}
use redi_craft.Storage.Lists.{clamp_index, range_of, lrange}
use redi_craft.Storage.Lists.Laws.{values_at, lrange_lem}

-- the index that an argument of LRANGE stands for, in a list that is not empty
unfoldable pub index : ℕ → ℤ → ℕ
index size (pos n) = if ltb n size then n else size - 1
index size (negsuc n) = size - 1 - n

clamp_index_lem : (n : ℕ) (i : ℤ) → clamp_index (suc n) i ≡ pos (index (suc n) i)
unfolding clamp_index index max_ℤ min_ℤ ◌+ℤ◌ ◌-ℤ◌
clamp_index_lem n (pos i) = ground arith
clamp_index_lem n (negsuc i) = ground arith

index-lt : (n : ℕ) (i : ℤ) → index (suc n) i ≤ n
unfolding index
index-lt n (pos i) = ground arith
index-lt n (negsuc i) = omega arith

range_of_lem :
    (values : List Bytes) (start end : ℤ)
    → values ≢ []
    → range_of values start end
      ≡ take
          (index (length values) end + 1 - index (length values) start)
          (drop (index (length values) start) values)
unfolding range_of
range_of_lem [] start end h = absurd (h refl)
range_of_lem (x ∷ xs) start end h =
    ground (arith, clamp_index_lem (length xs) start, clamp_index_lem (length xs) end)

take_all : (xs : List Bytes) (n : ℕ) → length xs ≤ n → take n xs ≡ xs
take_all [] zero h = refl
take_all [] (suc n) h = refl
take_all (x ∷ xs) zero h = absurd (omega arith)
take_all (x ∷ xs) (suc n) h = ap (◌∷◌ x) (take_all xs n (omega arith))

first_index : (n : ℕ) → index (suc n) (pos 0) ≡ 0
unfolding index
first_index n = ground arith

last_index : (n : ℕ) → index (suc n) (negsuc 0) ≡ n
unfolding index
last_index n = omega arith

module _ (now : Readings) (k : Bytes) (s : Storage) where
  -- LRANGE of a list that is not empty returns the values from the start index up to the end index:
  -- an index counts from the front, or from the back if it is negative, and the nearest index of
  -- the list stands for one outside.
  pub lrange_slice :
      (start end : ℤ)
      → values_at (now lists) k s ≢ []
      → let size = length (values_at (now lists) k s) in
        (lrange now k start end s).0
        ≡ take
            (index size end + 1 - index size start)
            (drop (index size start) (values_at (now lists) k s))
  lrange_slice start end h = lrange_lem now k s start end ∙ range_of_lem _ start end h

  -- LRANGE from 0 to -1 returns the whole list.
  lrange_all : (lrange now k (pos 0) (negsuc 0) s).0 ≡ values_at (now lists) k s
  lrange_all = lrange_lem now k s (pos 0) (negsuc 0) ∙ whole (values_at (now lists) k s)
    where
      whole : (values : List Bytes) → range_of values (pos 0) (negsuc 0) ≡ values
      whole [] = unfold range_of in refl
      whole (x ∷ xs) =
          range_of_lem (x ∷ xs) (pos 0) (negsuc 0) (cc)
          ∙ rw (first_index (length xs), last_index (length xs)) (take_all (x ∷ xs) _ (omega arith))
