-- ===== src/Persistence/Texts.antt =====
-- The loop of loadFromFile over the lines of the texts (RediCraft-Server/src/persistence.cpp).
use redi_craft.Prelude.{
  ℕ, ◌≡◌, refl, ap, ◌∙◌, ◌≢◌, inl, inr, false, some, List, [], ◌∷◌, ◌++◌, arith, ◌==◌,
  if◌then◌else◌, ==_iff, Bool-cases, Option-cases, take, All, Bytes, codes, bytes_eq,
}
use redi_craft.Prelude.Int.{ℤ}
use redi_craft.Table.{Table, find, assign}
use redi_craft.Table.Laws.{find-assign}
use redi_craft.Lines.{cut}
use redi_craft.Lines.Laws.{Lacks, cut-append}
use redi_craft.Storage.{
  Item, item, Storage, init, Readings, has_expired, purge, remove_expired, strings,
}
use redi_craft.Storage.Strings.{set}
use redi_craft.Persistence.{is_saved, text_line, string_lines, load_pair, load_line, load_lines}

-- a storage of texts only
abbrev pub texts_only : Table (Item Bytes) → Storage
texts_only d = record init { string_data = d }

-- No item of the table has an expiry.
abbrev pub Never : Table (Item Bytes) → Type 0
Never d = (k : Bytes) (it : Item Bytes) → find k d ≡ some it → it.has_expiry ≡ false

pub purge-Never : (now : ℤ) (k : Bytes) (d : Table (Item Bytes)) → Never d → purge now k d ≡ d
unfolding purge
purge-Never now k d h = elim (Option-cases (find k d)) [
  | inl absent ↦ rw (absent, purge) refl
  | inr (it, there) ↦ rw (there, purge) (unfold has_expired in rw (h k it there) refl)
]

pub assign-Never : (k v : Bytes) (d : Table (Item Bytes)) → Never d → Never (assign k (item v) d)
assign-Never k v d h j it e = ground (arith, find-assign k (item v) d j, h j it)

set-texts_only :
    (now : Readings) (k v : Bytes) (d : Table (Item Bytes))
    → Never d
    → (set now k v (texts_only d)).1 ≡ texts_only (assign k (item v) d)
unfolding set remove_expired
set-texts_only now k v d h = rw (purge-Never (now strings) k d h) (unfold purge find in refl)

-- the texts that are saved, put one after the other into a table
unfoldable pub restore : (Bytes → ℤ) → Table (Item Bytes) → Table (Item Bytes) → Table (Item Bytes)
restore at [] d = d
restore at ((k, it) ∷ m) d =
    restore at m (if is_saved (at k) it then assign k (item it.value) d else d)

-- The key is not taken for a part of the file's form: no '=', and no '[' at its head.
abbrev pub IsPlainKey : Bytes → Type 0
IsPlainKey k = Lacks b'=' k × (take 1 k ≢ b'[' ∷ [])

abbrev pub PlainKeys : Table (Item Bytes) → Type 0
PlainKeys m = All (λ e. IsPlainKey e.0) m

load_line-pair :
    (now : Readings) (c : ℕ) (line section key value : Bytes) (s : Storage)
    → (c == b'[') ≡ false
    → cut b'=' (c ∷ line) ≡ some (key, value)
    → load_line now (c ∷ line) (section, s) ≡ (section, load_pair now section key value s)
unfolding load_line
load_line-pair now c line section key value s n e = rw e (rw n refl)

load_line-text :
    (now : Readings) (k v : Bytes) (d : Table (Item Bytes))
    → IsPlainKey k
    → Never d
    → load_line now (text_line k v) (codes "STRINGS", texts_only d)
      ≡ (codes "STRINGS", texts_only (assign k (item v) d))
unfolding text_line
load_line-text now [] v d (lacks, head) h =
    unfold load_line load_pair cut bytes_eq in
    ap (λ t. (codes "STRINGS", t)) (set-texts_only now [] v d h)
load_line-text now (c ∷ k) v d (lacks, head) h =
    let stored : load_pair now (codes "STRINGS") (c ∷ k) v (texts_only d)
        ≡ texts_only (assign (c ∷ k) (item v) d) =
      unfold load_pair bytes_eq in set-texts_only now (c ∷ k) v d h in
    let other : (c == b'[') ≡ false = elim (Bool-cases (c == b'[')) [
      | inl same ↦ absurd (head (ap (λ x. x ∷ []) ((==_iff c b'[').0 same)))
      | inr n ↦ n
    ] in
    load_line-pair now c (k ++ (b'=' ∷ v)) (codes "STRINGS") (c ∷ k) v (texts_only d) other
      (cut-append b'=' (c ∷ k) v lacks)
    ∙ ap (λ t. (codes "STRINGS", t)) stored

pub load_lines-strings :
    (now : List Bytes → Readings) (at : Bytes → ℤ) (m d : Table (Item Bytes)) (rest : List Bytes)
    → PlainKeys m
    → Never d
    → load_lines now (string_lines at m ++ rest) (codes "STRINGS", texts_only d)
      ≡ load_lines now rest (codes "STRINGS", texts_only (restore at m d))
unfolding string_lines restore load_lines
load_lines-strings now at [] d rest p h = refl
load_lines-strings now at ((k, it) ∷ m) d rest (pk, p) h = elim (Bool-cases (is_saved (at k) it)) [
  | inl saved ↦
      let ls = string_lines at m ++ rest in
      let p' = ap (load_lines now ls) (load_line-text (now ls) k it.value d pk h) in
      let q =
        load_lines-strings now at m (assign k (item it.value) d) rest p
          (assign-Never k it.value d h) in
      rw (saved, string_lines, restore) (p' ∙ q)
  | inr dropped ↦ rw (dropped, string_lines, restore) (load_lines-strings now at m d rest p h)
]
