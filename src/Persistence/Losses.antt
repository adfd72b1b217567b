-- ===== src/Persistence/Losses.antt =====
-- What no file brings back (RediCraft-Server/src/persistence.cpp).
use mathlib.Core.Path.{subst}
use redi_craft.Prelude.{
  ap, arith, ◌∙◌, sym, inl, inr, Option-cases, ◌≡◌, refl, ◌&&◌, Option, none, some, List, [], ◌∷◌,
  ◌==◌, if_both, Bytes, codes, bytes_eq,
}
use redi_craft.Prelude.Int.{ℤ, negsuc}
use redi_craft.Table.{Table, find}
use redi_craft.Lines.{lines, cut}
use redi_craft.Storage.{
  Item, Storage, init, Readings, purge, remove_expired, strings, hashes, lists, sets,
}
use redi_craft.Storage.Lists.{back, pop_back}
use redi_craft.Storage.Strings.{set, get}
use redi_craft.Storage.Expiry.{ttl, ttl_in, ttl_hashes, ttl_lists, ttl_sets}
use redi_craft.Persistence.Texts.{Never, purge-Never, assign-Never}
use redi_craft.Persistence.{load_pair, Loading, load_line, load_lines, load_from_file}

-- texts with no deadline, and nothing else
abbrev OnlyTexts : Storage → Type 0
OnlyTexts s = (s.hash_data ≡ []) × (s.list_data ≡ []) × (s.set_data ≡ []) × Never s.string_data

purge_empty : {A : Type 0} (now : ℤ) (k : Bytes) (m : Table (Item A)) → m ≡ [] → purge now k m ≡ []
purge_empty now k m h = rw h (unfold purge find in refl)

set-OnlyTexts :
    (now : Readings) (k v : Bytes) (s : Storage) → OnlyTexts s → OnlyTexts (set now k v s).1
unfolding set remove_expired
set-OnlyTexts now k v s (h, l, t, n) = (
  purge_empty (now hashes) k s.hash_data h,
  purge_empty (now lists) k s.list_data l,
  purge_empty (now sets) k s.set_data t,
  assign-Never k v (purge (now strings) k s.string_data)
      (subst Never (sym (purge-Never (now strings) k s.string_data n)) n),
)

load_line-OnlyTexts :
    (now : Readings) (line : Bytes) (state : Loading)
    → OnlyTexts state.1
    → OnlyTexts (load_line now line state).1
unfolding load_line load_pair
load_line-OnlyTexts now [] state h = h
load_line-OnlyTexts now (c ∷ line) (section, s) h =
    if_both P (c == b'[' && back c line == b']') (pop_back line, s) _ (λ _. h)
      (from (cut b'=' (c ∷ line)))
  where
    P : Loading → Type 0
    P state = OnlyTexts state.1

    from :
        (o : Option (Bytes × Bytes))
        → OnlyTexts
            (elim o as (λ _. Loading) [
              | none ↦ (section, s)
              | some (key, value) ↦ (section, load_pair now section key value s)
            ]).1
    from none = h
    from (some (key, value)) =
        if_both OnlyTexts (bytes_eq section (codes "STRINGS")) (set now key value s).1 s
          (λ _. set-OnlyTexts now key value s h) h

load_lines-OnlyTexts :
    (now : List Bytes → Readings) (ls : List Bytes) (state : Loading)
    → OnlyTexts state.1
    → OnlyTexts (load_lines now ls state).1
unfolding load_lines
load_lines-OnlyTexts now [] state h = h
load_lines-OnlyTexts now (l ∷ ls) state h =
    load_lines-OnlyTexts now ls (load_line (now ls) l state)
      (load_line-OnlyTexts (now ls) l state h)

init-OnlyTexts : OnlyTexts init
unfolding find
init-OnlyTexts = (refl, refl, refl, λ k it e. cc e)

load_from_file-OnlyTexts :
    (now : List Bytes → Readings) (file : Option Bytes) → OnlyTexts (load_from_file now file init).1
unfolding load_from_file
load_from_file-OnlyTexts now none = init-OnlyTexts
load_from_file-OnlyTexts now (some file) =
    load_lines-OnlyTexts now (lines file) ([], init) init-OnlyTexts

-- Whatever the file, loading it into an empty storage brings back no hash, list or set, also where
-- saveToFile wrote them: the storage then holds only texts.
pub load_from_file_lem :
    (now : List Bytes → Readings) (file : Option Bytes)
    → let s = (load_from_file now file init).1 in
      (s.hash_data ≡ []) × (s.list_data ≡ []) × (s.set_data ≡ [])
load_from_file_lem now file = let (h, l, t, n) = load_from_file-OnlyTexts now file in (h, l, t)

-- what TTL says of a key, by the text that GET returns
abbrev lasting : Option Bytes → ℤ
lasting none = negsuc 1
lasting (some text) = negsuc 0

text_of : Option (Item Bytes) → Option Bytes
text_of none = none
text_of (some it) = some it.value

get-Never :
    (at : Readings) (k : Bytes) (s : Storage)
    → Never s.string_data
    → (get at k s).0 ≡ text_of (find k s.string_data)
unfolding get remove_expired text_of
get-Never at k s n = ap (λ d. text_of (find k d)) (purge-Never (at strings) k s.string_data n)

ttl-absent :
    (start : ℤ) (at : Readings) (k : Bytes) (s : Storage)
    → OnlyTexts s
    → find k s.string_data ≡ none
    → (ttl start at k s).0 ≡ negsuc 1
unfolding ttl ttl_in ttl_hashes ttl_lists ttl_sets find
ttl-absent start at k s (h, l, t, n) absent = ground (arith, h, l, t, absent)

ttl-present :
    (start : ℤ) (at : Readings) (k : Bytes) (s : Storage) (it : Item Bytes)
    → Never s.string_data
    → find k s.string_data ≡ some it
    → (ttl start at k s).0 ≡ negsuc 0
unfolding ttl ttl_in
ttl-present start at k s it n there = ground (arith, n k it there, there)

ttl-OnlyTexts :
    (start : ℤ) (at : Readings) (k : Bytes) (s : Storage)
    → OnlyTexts s
    → (ttl start at k s).0 ≡ lasting (get at k s).0
unfolding text_of
ttl-OnlyTexts start at k s h = elim (Option-cases (find k s.string_data)) [
  | inl absent ↦
      let r = get-Never at k s h.3 ∙ ap text_of absent in
      ttl-absent start at k s h absent ∙ sym (ap lasting r)
  | inr (it, there) ↦
      let r = get-Never at k s h.3 ∙ ap text_of there in
      ttl-present start at k s it h.3 there ∙ sym (ap lasting r)
]

-- No deadline comes back from a file: when any file is loaded into an empty storage, TTL of a key says
-- at every time that the key has no deadline (-1) if GET returns a text for it, and that there is
-- nothing (-2) if not.
pub ttl-load_from_file :
    (now : List Bytes → Readings) (file : Option Bytes) (start : ℤ) (at : Readings) (k : Bytes)
    → let s = (load_from_file now file init).1 in
      (ttl start at k s).0
      ≡ (elim (get at k s).0 as (λ _. ℤ) [ none ↦ negsuc 1 | some text ↦ negsuc 0 ])
ttl-load_from_file now file start at k =
    ttl-OnlyTexts start at k (load_from_file now file init).1 (load_from_file-OnlyTexts now file)
