-- ===== src/Persistence.antt =====
-- PersistenceManager (RediCraft-Server/src/persistence.cpp, include/persistence.h). A file is its
-- content, or `none` if it cannot be opened. saveToFile reads the clock at each item; here the
-- reading is an argument, by table and key. Threads and futures are outside the model.
pub mod Texts
pub mod Sections
pub mod RoundTrip
pub mod OneLine
pub mod Commands
pub mod Losses
pub mod Background
use redi_craft.Prelude.{
  ℕ, ◌+◌, Bool, true, false, not, ◌&&◌, ◌||◌, Option, none, some, List, [], ◌∷◌, ◌++◌, ◌==◌,
  if◌then◌else◌, Bytes, codes, bytes_eq,
}
use redi_craft.Prelude.Int.{ℤ, ltb_ℤ, pos}
use redi_craft.Table.{Table}
use redi_craft.Number.{to_string}
use redi_craft.Lines.{lines, cut, unlines}
use redi_craft.Storage.{Item, Storage, Kind, Readings, strings, hashes, lists, sets}
use redi_craft.Storage.Lists.{back, pop_back}
use redi_craft.Storage.Strings.{set}

-- the readings of the clock that saveToFile makes
abbrev pub SaveClock : Type 0
SaveClock = Kind → Bytes → ℤ

-- !has_expiry || expiry > now()
unfoldable pub is_saved : {A : Type 0} → ℤ → Item A → Bool
is_saved now it = not it.has_expiry || ltb_ℤ now it.expiry

-- key=value
unfoldable pub text_line : Bytes → Bytes → Bytes
text_line key value = key ++ (b'=' ∷ value)

unfoldable pub string_lines : (Bytes → ℤ) → Table (Item Bytes) → List Bytes
unfolding text_line is_saved
string_lines now [] = []
string_lines now ((key, it) ∷ m) =
    let rest = string_lines now m in
    if is_saved (now key) it then text_line key it.value ∷ rest else rest

-- key.field=value, for each field
unfoldable pub field_lines : Bytes → Table Bytes → List Bytes
unfolding text_line
field_lines key [] = []
field_lines key ((field, value) ∷ m) = text_line (key ++ (b'.' ∷ field)) value ∷ field_lines key m

unfoldable pub hash_lines : (Bytes → ℤ) → Table (Item (Table Bytes)) → List Bytes
unfolding field_lines is_saved
hash_lines now [] = []
hash_lines now ((key, it) ∷ m) =
    let rest = hash_lines now m in
    if is_saved (now key) it then field_lines key it.value ++ rest else rest

-- key[i]=value, for each value
unfoldable pub value_lines : Bytes → ℕ → List Bytes → List Bytes
unfolding text_line
value_lines key i [] = []
value_lines key i (value ∷ rest) =
    text_line (key ++ (b'[' ∷ (to_string (pos i) ++ b']' ∷ []))) value
    ∷ value_lines key (i + 1) rest

unfoldable pub list_lines : (Bytes → ℤ) → Table (Item (List Bytes)) → List Bytes
unfolding value_lines is_saved
list_lines now [] = []
list_lines now ((key, it) ∷ m) =
    let rest = list_lines now m in
    if is_saved (now key) it then value_lines key 0 it.value ++ rest else rest

-- key.member=1, for each member
unfoldable pub member_lines : Bytes → Table Bool → List Bytes
unfolding text_line
member_lines key [] = []
member_lines key ((member, present) ∷ m) =
    text_line (key ++ (b'.' ∷ member)) (codes "1") ∷ member_lines key m

unfoldable pub set_lines : (Bytes → ℤ) → Table (Item (Table Bool)) → List Bytes
unfolding member_lines is_saved
set_lines now [] = []
set_lines now ((key, it) ∷ m) =
    let rest = set_lines now m in
    if is_saved (now key) it then member_lines key it.value ++ rest else rest

-- the lines of the file, without their "\n"
unfoldable pub saved_lines : SaveClock → Storage → List Bytes
saved_lines now s =
    codes "[STRINGS]"
    ∷ (string_lines (now strings) s.string_data
        ++ (codes "[HASHES]"
            ∷ (hash_lines (now hashes) s.hash_data
                ++ (codes "[LISTS]"
                    ∷ (list_lines (now lists) s.list_data
                        ++ (codes "[SETS]" ∷ set_lines (now sets) s.set_data))))))

-- the result and what the file then holds; `opens` is whether the file could be opened, and a file
-- that could not keeps its content
unfoldable pub save_to_file : SaveClock → Bool → Storage → Option Bytes → Bool × Option Bytes
save_to_file now opens s old =
    if opens then (true, some (unlines (saved_lines now s))) else (false, old)

-- `line` with a key and a value, in a section
unfoldable pub load_pair : Readings → Bytes → Bytes → Bytes → Storage → Storage
load_pair now section key value s =
    if bytes_eq section (codes "STRINGS") then (set now key value s).1 else s

-- the loop's state: the section and the storage
abbrev pub Loading : Type 0
Loading = Bytes × Storage

-- one round of the loop of loadFromFile
unfoldable pub load_line : Readings → Bytes → Loading → Loading
unfolding load_pair
load_line now [] state = state
load_line now (c ∷ line) (section, s) =
    if c == b'[' && back c line == b']' then (pop_back line, s) else (elim (cut b'=' (c ∷ line)) [
      | none ↦ (section, s)
      | some (key, value) ↦ (section, load_pair now section key value s)
    ])

-- the readings of the clock in a round, by the lines that are left
unfoldable pub load_lines : (List Bytes → Readings) → List Bytes → Loading → Loading
load_lines now [] state = state
load_lines now (line ∷ rest) state = load_lines now rest (load_line (now rest) line state)

unfoldable pub load_from_file : (List Bytes → Readings) → Option Bytes → Storage → Bool × Storage
load_from_file now none s = (false, s)
load_from_file now (some file) s = (true, (load_lines now (lines file) ([], s)).1)
