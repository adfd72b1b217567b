-- ===== src/Benchmark/Laws.antt =====
-- What the benchmark (RediCraft-Server/src/benchmark.cpp) counts.
use redi_craft.Prelude.{
  ℕ, zero, suc, ◌+◌, ◌^◌, ◌<◌, ◌≡◌, refl, sym, ap, ◌∙◌, inl, inr, Bool, true, false, ◌||◌, Option,
  none, some, List, [], ◌∷◌, map, arith, ◌==◌, if◌then◌else◌, ==_iff, Bool-cases, length, Bytes,
  bytes_eq, bytes_eq_iff,
}
use redi_craft.Prelude.Int.{◌+ℤ◌, wrap64, wrap64_id, pos}
use redi_craft.Table.{find, is_some}
use redi_craft.Number.{decimal, to_string, stoll}
use redi_craft.Number.RoundTrip.{read-decimal, stoll-to_string}
use redi_craft.Storage.{Storage, init, Readings}
use redi_craft.Storage.Strings.{get}
use redi_craft.Benchmark.{key_for, counter_for, set_loop, count_hit, get_loop, incr_loop, run}
use redi_craft.Benchmark.Shows.{Shows, change, set-Shows, get-Shows, next, incr-Shows}

decimal_eq : (a b : ℕ) → bytes_eq (decimal a) (decimal b) ≡ (a == b)
decimal_eq a b =
    ground (arith, bytes_eq_iff (decimal a) (decimal b), read-decimal a, read-decimal b)

-- Different numbers have different keys.
key_for-eq : (a b : ℕ) → bytes_eq (key_for a) (key_for b) ≡ (a == b)
unfolding key_for to_string bytes_eq
key_for-eq a b = decimal_eq a b

counter_for-eq : (a b : ℕ) → bytes_eq (counter_for a) (counter_for b) ≡ (a == b)
unfolding counter_for to_string bytes_eq
counter_for-eq a b = decimal_eq a b

key_is_no_counter : (a b : ℕ) → bytes_eq (key_for a) (counter_for b) ≡ false
unfolding key_for counter_for bytes_eq
key_is_no_counter a b = refl

-- whether the number is in the list, and how often
abbrev occurs : ℕ → List ℕ → Bool
occurs n [] = false
occurs n (m ∷ ms) = m == n || occurs n ms

abbrev times : ℕ → List ℕ → ℕ
times n [] = 0
times n (m ∷ ms) = (if m == n then 1 else 0) + times n ms

-- how many of the numbers looked up were set
abbrev hits : List ℕ → List ℕ → ℕ
hits known [] = 0
hits known (n ∷ ns) = (if occurs n known then 1 else 0) + hits known ns

-- the texts behind the loops
abbrev after_sets : List (Readings × (ℕ × ℕ)) → (Bytes → Option Bytes) → Bytes → Option Bytes
after_sets [] f = f
after_sets ((now, (k, v)) ∷ rounds) f = after_sets rounds (change (key_for k) (to_string (pos v)) f)

abbrev after_incrs : List (Readings × ℕ) → (Bytes → Option Bytes) → Bytes → Option Bytes
after_incrs [] f = f
after_incrs ((now, k) ∷ rounds) f =
    after_incrs rounds (change (counter_for k) (next (f (counter_for k))) f)

abbrev keys_of : List (Readings × (ℕ × ℕ)) → List ℕ
keys_of = map (λ (round : Readings × (ℕ × ℕ)). round.1.0)

abbrev numbers_of : List (Readings × ℕ) → List ℕ
numbers_of = map (λ (round : Readings × ℕ). round.1)

set_loop-Shows :
    (rounds : List (Readings × (ℕ × ℕ))) (s : Storage) (f : Bytes → Option Bytes)
    → Shows s f
    → Shows (set_loop rounds s) (after_sets rounds f)
unfolding set_loop
set_loop-Shows [] s f h = h
set_loop-Shows ((now, (k, v)) ∷ rounds) s f h =
    set_loop-Shows rounds _ _ (set-Shows now (key_for k) (to_string (pos v)) s f h)

after_sets-key :
    (rounds : List (Readings × (ℕ × ℕ))) (f : Bytes → Option Bytes) (n : ℕ)
    → is_some (after_sets rounds f (key_for n))
      ≡ (occurs n (keys_of rounds) || is_some (f (key_for n)))
after_sets-key [] f n = refl
after_sets-key ((now, (k, v)) ∷ rounds) f n =
    let f' = change (key_for k) (to_string (pos v)) f in
    ground (arith, after_sets-key rounds f' n, key_for-eq k n)

after_sets-counter :
    (rounds : List (Readings × (ℕ × ℕ))) (f : Bytes → Option Bytes) (n : ℕ)
    → after_sets rounds f (counter_for n) ≡ f (counter_for n)
after_sets-counter [] f n = refl
after_sets-counter ((now, (k, v)) ∷ rounds) f n =
    let f' = change (key_for k) (to_string (pos v)) f in
    after_sets-counter rounds f' n ∙ rw (key_is_no_counter k n) refl

count_hit_lem :
    (found : ℕ) (o : Option Bytes) (b : Bool)
    → is_some o ≡ b
    → count_hit o found ≡ found + (if b then 1 else 0)
unfolding count_hit
count_hit_lem found none true p = absurd (cc p)
count_hit_lem found none false p = omega arith
count_hit_lem found (some text) true p = refl
count_hit_lem found (some text) false p = absurd (cc p)

get_loop-Shows :
    (rounds : List (Readings × ℕ)) (found : ℕ) (s : Storage) (f : Bytes → Option Bytes)
    (known : List ℕ)
    → Shows s f
    → ((n : ℕ) → is_some (f (key_for n)) ≡ occurs n known)
    → ((get_loop rounds found s).0 ≡ found + hits known (numbers_of rounds))
      × Shows (get_loop rounds found s).1 f
unfolding get_loop
get_loop-Shows [] found s f known h e = (omega arith, h)
get_loop-Shows ((now, k) ∷ rounds) found s f known h e =
    let (value, kept) = get-Shows now (key_for k) s f h in
    let counted : count_hit (get now (key_for k) s).0 found
        ≡ found + (if occurs k known then 1 else 0) =
      rw value (count_hit_lem found (f (key_for k)) (occurs k known) (e k)) in
    let (rest, kept') =
      get_loop-Shows rounds (count_hit (get now (key_for k) s).0 found) (get now (key_for k) s).1 f
        known kept e in
    (rest ∙ ap (λ x. x + hits known (numbers_of rounds)) counted ∙ regroup, kept')
  where
    regroup :
        found + (if occurs k known then 1 else 0) + hits known (numbers_of rounds)
        ≡ found + ((if occurs k known then 1 else 0) + hits known (numbers_of rounds))
    regroup = omega arith

incr_loop-Shows :
    (rounds : List (Readings × ℕ)) (s : Storage) (f : Bytes → Option Bytes)
    → Shows s f
    → Shows (incr_loop rounds s) (after_incrs rounds f)
unfolding incr_loop
incr_loop-Shows [] s f h = h
incr_loop-Shows ((now, k) ∷ rounds) s f h =
    incr_loop-Shows rounds _ _ (incr-Shows now (counter_for k) s f h)

-- the text of a counter that was incremented so often
abbrev count_text : ℕ → Option Bytes
count_text n = if n == 0 then none else some (to_string (pos n))

wrap64_suc : (n : ℕ) → n + 1 < 2 ^ 63 → wrap64 (pos n +ℤ pos 1) ≡ pos (n + 1)
wrap64_suc n h =
    let p : pos n +ℤ pos 1 ≡ pos (n + 1) = unfold ◌+ℤ◌ in ground arith in
    ap wrap64 p ∙ wrap64_id (pos (n + 1)) (h, omega arith)

next-count_text : (n : ℕ) → n + 1 < 2 ^ 63 → some (next (count_text n)) ≡ count_text (n + 1)
next-count_text zero h = unfold to_string in refl
next-count_text (suc n) h =
    let before : count_text (suc n) ≡ some (to_string (pos (suc n))) = ground arith in
    let after : count_text (suc n + 1) ≡ some (to_string (pos (suc n + 1))) = ground arith in
    let read_back : stoll (to_string (pos (suc n))) ≡ some (pos (suc n)) =
      stoll-to_string (pos (suc n)) (omega arith, omega arith) in
    ap (λ t. some (next t)) before
    ∙ rw (next, read_back) (ap (λ i. some (to_string i)) (wrap64_suc (suc n) h))
    ∙ sym after

incr_step :
    (k n before : ℕ) (f : Bytes → Option Bytes)
    → before + 1 < 2 ^ 63
    → f (counter_for n) ≡ count_text before
    → change (counter_for k) (next (f (counter_for k))) f (counter_for n)
      ≡ count_text (before + (if k == n then 1 else 0))
incr_step k n before f h e = elim (Bool-cases (k == n)) [
  | inl same ↦
      rw (counter_for-eq k n, same)
        (ap (λ t. some (next t)) (ap (λ i. f (counter_for i)) ((==_iff k n).0 same) ∙ e)
          ∙ next-count_text before h)
  | inr other ↦ rw (counter_for-eq k n, other) (e ∙ ap count_text (omega arith))
]

after_incrs-counter :
    (rounds : List (Readings × ℕ)) (f : Bytes → Option Bytes) (n before : ℕ)
    → before + length rounds < 2 ^ 63
    → f (counter_for n) ≡ count_text before
    → after_incrs rounds f (counter_for n) ≡ count_text (before + times n (numbers_of rounds))
after_incrs-counter [] f n before small e =
    let p : before ≡ before + 0 = omega arith in e ∙ ap count_text p
after_incrs-counter ((now, k) ∷ rounds) f n before small e =
    let one : ℕ = if k == n then 1 else 0 in
    let p : before + one + times n (numbers_of rounds)
        ≡ before + (one + times n (numbers_of rounds)) =
      omega arith in
    after_incrs-counter rounds (change (counter_for k) (next (f (counter_for k))) f) n
      (before + one) (ground arith) (incr_step k n before f (omega arith) e)
    ∙ ap count_text p

-- The benchmark, over any random numbers and any readings of the clock, counts as found exactly the
-- lookups of a number that one of its SET operations has set; and after fewer than 2^63 INCR
-- operations GET of a number's counter returns how often the number was drawn, and nothing if it was
-- not.
pub run_lem :
    (setting : List (Readings × (ℕ × ℕ))) (getting counting : List (Readings × ℕ)) (now : Readings)
    (n : ℕ)
    → length counting < 2 ^ 63
    → ((run setting getting counting).0 ≡ hits (keys_of setting) (numbers_of getting))
      × ((get now (counter_for n) (run setting getting counting).1).0
          ≡ count_text (times n (numbers_of counting)))
unfolding run
run_lem setting getting counting now n small =
    let f : Bytes → Option Bytes = after_sets setting (λ j. none) in
    let set_up : Shows (set_loop setting init) f =
      set_loop-Shows setting init (λ j. none) (unfold find in λ j. refl) in
    let (found, kept) =
      get_loop-Shows getting 0 (set_loop setting init) f (keys_of setting) set_up
        (λ m. after_sets-key setting (λ j. none) m ∙ ground arith) in
    let t = (get_loop getting 0 (set_loop setting init)).1 in
    let counted = incr_loop-Shows counting t f kept in
    let start : f (counter_for n) ≡ count_text 0 = after_sets-counter setting (λ j. none) n in
    let p : 0 + times n (numbers_of counting) ≡ times n (numbers_of counting) = omega arith in
    (
      found ∙ omega arith,
      (get-Shows now (counter_for n) (incr_loop counting t) (after_incrs counting f) counted).0
          ∙ after_incrs-counter counting f n 0 (omega arith) start
          ∙ ap count_text p,
    )
