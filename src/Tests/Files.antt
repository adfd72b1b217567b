-- ===== src/Tests/Files.antt =====
-- The theorems on saved files (RediCraft-Server/src/persistence.cpp) at concrete inputs.
use redi_craft.Prelude.{
  ℕ, ◌≡◌, refl, ap, Bool, true, ◌&&◌, none, some, List, [], ◌∷◌, arith, get_or, All, Bytes, codes,
  bytes_eq,
}
use redi_craft.Prelude.Int.{ℤ, pos, negsuc}
use redi_craft.Table.{find}
use redi_craft.Number.{to_string}
use redi_craft.Lines.Laws.{Lacks, lacks, lacks-Lacks}
use redi_craft.Storage.{init, Readings}
use redi_craft.Storage.Strings.{get}
use redi_craft.Storage.Expiry.{ttl}
use redi_craft.Persistence.{
  SaveClock, is_saved, string_lines, hash_lines, list_lines, set_lines, saved_lines, save_to_file,
  load_from_file,
}
use redi_craft.Persistence.RoundTrip.{IsSavable, get-load_from_file}
use redi_craft.Persistence.Losses.{load_from_file_lem, ttl-load_from_file}
use redi_craft.Tests.{later, key, other, small}

all_lack : ℕ → List Bytes → Bool
unfolding lacks
all_lack b [] = true
all_lack b (l ∷ ls) = lacks b l && all_lack b ls

all_lack-Lacks : (b : ℕ) (ls : List Bytes) → all_lack b ls ≡ true → All (Lacks b) ls
unfolding all_lack
all_lack-Lacks b [] h = tt
all_lack-Lacks b (l ∷ ls) h = ground (arith, lacks-Lacks b l, all_lack-Lacks b ls)

-- "k" of small has expired at its time.
abbrev pub saving : SaveClock
saving kind k = pos 8

-- "k" has not expired yet.
abbrev early : SaveClock
early kind k = pos 6

abbrev pub loading : List Bytes → Readings
loading left kind = pos 20

pub small-IsSavable : IsSavable saving small
unfolding find bytes_eq lacks all_lack saved_lines to_string string_lines hash_lines list_lines
    set_lines
small-IsSavable = record {
  keys = (refl, (refl, tt));
  plain = (
    (lacks-Lacks 61 key refl, λ e. omega (arith, ap {B = ℕ} (λ t. get_or t 0 0) e)),
    ((lacks-Lacks 61 other refl, λ e. omega (arith, ap {B = ℕ} (λ t. get_or t 0 0) e)), tt),
  );
  one_line = all_lack-Lacks 10 (saved_lines saving small) refl;
}

get-load_from_file_example :
    (get later other (load_from_file loading (save_to_file saving true small none).1 init).1).0
    ≡ some (codes "8")
unfolding find bytes_eq is_saved
get-load_from_file_example =
    get-load_from_file loading saving small none later other small-IsSavable

load_from_file_lem_example :
    let s = (load_from_file loading (save_to_file saving true small none).1 init).1 in
    (s.hash_data ≡ []) × (s.list_data ≡ []) × (s.set_data ≡ [])
load_from_file_lem_example = load_from_file_lem loading (save_to_file saving true small none).1

-- "k" had a deadline when it was saved.
ttl-load_from_file_example :
    let s = (load_from_file loading (save_to_file early true small none).1 init).1 in
    (ttl (pos 6) later key s).0
    ≡ (elim (get later key s).0 as (λ _. ℤ) [ none ↦ negsuc 1 | some text ↦ negsuc 0 ])
ttl-load_from_file_example =
    ttl-load_from_file loading (save_to_file early true small none).1 (pos 6) later key
