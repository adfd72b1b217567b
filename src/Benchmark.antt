-- ===== src/Benchmark.antt =====
-- The benchmark (RediCraft-Server/src/benchmark.cpp): its three loops over one storage. The random
-- numbers and the clock's readings are arguments, by round; the times that it prints are outside the
-- model.
pub mod Shows
pub mod Laws
use redi_craft.Prelude.{ℕ, ◌+◌, Option, none, some, List, [], ◌∷◌, ◌++◌, Bytes, codes}
use redi_craft.Prelude.Int.{pos}
use redi_craft.Number.{to_string}
use redi_craft.Storage.{Storage, init, Readings}
use redi_craft.Storage.Strings.{set, get, incr}

-- "key:" + std::to_string(number)
unfoldable pub key_for : ℕ → Bytes
key_for n = codes "key:" ++ to_string (pos n)

unfoldable pub counter_for : ℕ → Bytes
counter_for n = codes "counter:" ++ to_string (pos n)

-- the loop of SET operations, over keys and values
unfoldable pub set_loop : List (Readings × (ℕ × ℕ)) → Storage → Storage
unfolding key_for
set_loop [] s = s
set_loop ((now, (k, v)) ∷ rounds) s = set_loop rounds (set now (key_for k) (to_string (pos v)) s).1

-- found++ for a hit
unfoldable pub count_hit : Option Bytes → ℕ → ℕ
count_hit none found = found
count_hit (some value) found = found + 1

-- the loop of GET operations: `found`, and the storage
unfoldable pub get_loop : List (Readings × ℕ) → ℕ → Storage → ℕ × Storage
unfolding key_for count_hit
get_loop [] found s = (found, s)
get_loop ((now, k) ∷ rounds) found s =
    let (value, s') = get now (key_for k) s in get_loop rounds (count_hit value found) s'

-- the loop of INCR operations
unfoldable pub incr_loop : List (Readings × ℕ) → Storage → Storage
unfolding counter_for
incr_loop [] s = s
incr_loop ((now, k) ∷ rounds) s = incr_loop rounds (incr now (counter_for k) s).1

-- main: what the storage holds at the end, and the hits
unfoldable pub run :
    List (Readings × (ℕ × ℕ)) → List (Readings × ℕ) → List (Readings × ℕ) → ℕ × Storage
unfolding set_loop get_loop incr_loop
run setting getting counting =
    let (found, s) = get_loop getting 0 (set_loop setting init) in (found, incr_loop counting s)
