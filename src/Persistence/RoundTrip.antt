-- ===== src/Persistence/RoundTrip.antt =====
-- What a storage holds after a file that was saved is loaded (RediCraft-Server/src/persistence.cpp).
use redi_craft.Prelude.{
  ◌≡◌, refl, ap, ◌∙◌, true, Option, none, some, List, [], ◌∷◌, ◌++◌, arith, if◌then◌else◌, All,
  All-append, Bytes, codes, bytes_eq, key_laws,
}
use redi_craft.Prelude.Int.{ℤ, ltb_ℤ}
use redi_craft.Table.{Table, find, assign, IsTable}
use redi_craft.Table.Laws.{find-assign}
use redi_craft.Lines.Laws.{Lacks, lines-unlines}
use redi_craft.Storage.{
  Item, item, Storage, init, Readings, has_expired, strings, hashes, lists, sets,
}
use redi_craft.Storage.View.{live, value_at}
use redi_craft.Storage.Lists.{back, pop_back}
use redi_craft.Storage.Strings.{get}
use redi_craft.Storage.Strings.Laws.{get_lem}
use redi_craft.Persistence.{
  SaveClock, is_saved, string_lines, hash_lines, list_lines, set_lines, saved_lines, save_to_file,
  Loading, load_line, load_lines, load_from_file,
}
use redi_craft.Persistence.Texts.{texts_only, restore, IsPlainKey, PlainKeys, load_lines-strings}
use redi_craft.Persistence.Sections.{
  Rests, load_lines-Rests, Others, hash_lines-Others, list_lines-Others, set_lines-Others,
}

load_lines-saved :
    (now : List Bytes → Readings) (at : SaveClock) (s : Storage)
    → PlainKeys s.string_data
    → (load_lines now (saved_lines at s) ([], init)).1
      ≡ texts_only (restore (at strings) s.string_data [])
unfolding saved_lines
load_lines-saved now at s p =
    let t = texts_only (restore (at strings) s.string_data []) in
    let behind =
      hash_lines (at hashes) s.hash_data
      ++ (codes "[LISTS]"
          ∷ (list_lines (at lists) s.list_data
              ++ (codes "[SETS]" ∷ set_lines (at sets) s.set_data))) in
    let others : Others behind = All-append _ _ _ (hash_lines-Others (at hashes) s.hash_data) (
      λ e. cc e,
      All-append _ _ _ (list_lines-Others (at lists) s.list_data)
          (λ e. cc e, set_lines-Others (at sets) s.set_data),
    ) in
    let texts = string_lines (at strings) s.string_data in
    let rest = codes "[HASHES]" ∷ behind in
    let head : load_line (now (texts ++ rest)) (codes "[STRINGS]") ([], init)
        ≡ (codes "STRINGS", texts_only []) =
      unfold load_line back pop_back in refl in
    let next : load_lines now rest (codes "STRINGS", t)
        ≡ load_lines now behind (codes "HASHES", t) =
      unfold load_lines load_line back pop_back in refl in
    let start : Rests t (codes "HASHES", t) = (unfold bytes_eq in refl, refl) in
    let whole : load_lines now (saved_lines at s) ([], init)
        ≡ load_lines now behind (codes "HASHES", t) =
      unfold load_lines saved_lines in
      ap (load_lines now (texts ++ rest)) head
      ∙ load_lines-strings now (at strings) s.string_data [] rest p (unfold find in λ k it e. cc e)
      ∙ next in
    ap (λ (state : Loading). state.1) whole
    ∙ (load_lines-Rests now behind t (codes "HASHES", t) others start).1

-- what the lines of the texts leave at a key
unfoldable kept : ℤ → Option (Item Bytes) → Option (Item Bytes) → Option (Item Bytes)
kept now none old = old
kept now (some it) old = if is_saved now it then some (item it.value) else old

find-restore :
    (at : Bytes → ℤ) (m d : Table (Item Bytes)) (j : Bytes)
    → IsTable m
    → find j (restore at m d) ≡ kept (at j) (find j m) (find j d)
unfolding restore kept find
find-restore at [] d j h = unfold find in refl
find-restore at ((k, it) ∷ m) d j (fresh, h) =
    let d' = if is_saved (at k) it then assign k (item it.value) d else d in
    grind (key_laws, find-restore at m d' j h, find-assign k (item it.value) d j)

-- the text of an item, unless its expiry has come
abbrev pub saved_text : ℤ → Option (Item Bytes) → Option Bytes
saved_text now none = none
saved_text now (some it) =
    if it.has_expiry then (if ltb_ℤ now it.expiry then some it.value else none) else some it.value

value_at-kept :
    (now later : ℤ) (o : Option (Item Bytes))
    → (elim (live later (kept now o none)) as (λ _. Option Bytes) [
      | none ↦ none
      | some it ↦ some it.value
    ])
      ≡ saved_text now o
unfolding live kept has_expired is_saved
value_at-kept now later none = refl
value_at-kept now later (some it) = ground arith

value_at-restore :
    (at : Bytes → ℤ) (later : ℤ) (m : Table (Item Bytes)) (j : Bytes)
    → IsTable m
    → value_at later j (restore at m []) ≡ saved_text (at j) (find j m)
unfolding value_at
value_at-restore at later m j h =
    ap
      (λ (o : Option (Item Bytes)). elim (live later o) as (λ _. Option Bytes) [
        | none ↦ none
        | some it ↦ some it.value
      ])
      (find-restore at m [] j h)
    ∙ (unfold find in value_at-kept (at j) later (find j m))

-- A storage can be saved if each text has a key of its own with no '=' and no '[' at its head, and no
-- key, field, member or value holds a line break.
pub record IsSavable (at : SaveClock) (s : Storage) : Type 0 where
  pub keys : IsTable s.string_data
  pub plain : All (λ (e : Bytes × Item Bytes). IsPlainKey e.0) s.string_data
  pub one_line : All (Lacks 10) (saved_lines at s)

load-saved :
    (now : List Bytes → Readings) (at : SaveClock) (s : Storage) (old : Option Bytes)
    → IsSavable at s
    → (load_from_file now (save_to_file at true s old).1 init).1
      ≡ texts_only (restore (at strings) s.string_data [])
unfolding load_from_file save_to_file
load-saved now at s old h =
    ap (λ ls. (load_lines now ls ([], init)).1) (lines-unlines (saved_lines at s) h.one_line)
    ∙ load_lines-saved now at s (h.plain)

-- When a storage is saved to a file and the file is loaded into an empty storage, GET of a key
-- returns, at any time, the text that the key had, unless it had an expiry that was not in the future
-- when it was saved. The storage is IsSavable: it holds each text at a key of its own with no '=' and
-- no '[' at its head, and no key, field, member or value that is saved holds a line break.
pub get-load_from_file :
    (now : List Bytes → Readings) (at : SaveClock) (s : Storage) (old : Option Bytes)
    (later : Readings) (j : Bytes)
    → IsSavable at s
    → (get later j (load_from_file now (save_to_file at true s old).1 init).1).0
      ≡ saved_text (at strings j) (find j s.string_data)
get-load_from_file now at s old later j h =
    ap (λ t. (get later j t).0) (load-saved now at s old h)
    ∙ get_lem later j _
    ∙ value_at-restore (at strings) (later strings) s.string_data j h.keys
