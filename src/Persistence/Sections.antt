-- ===== src/Persistence/Sections.antt =====
-- The loop of loadFromFile over the lines of the hashes, lists and sets
-- (RediCraft-Server/src/persistence.cpp).
use redi_craft.Prelude.{
  ℕ, ◌+◌, ◌≡◌, refl, sym, ap, ◌∙◌, ◌≢◌, inl, inr, Bool, true, false, ◌&&◌, ◌||◌, Option, none, some,
  List, [], ◌∷◌, ◌++◌, arith, ◌==◌, Bool-cases, if_both, All, All-append, Bytes, codes, bytes_eq,
  bytes_eq_iff,
}
use redi_craft.Prelude.Int.{ℤ}
use redi_craft.Table.{Table}
use redi_craft.Lines.{cut}
use redi_craft.Storage.{Item, Storage, Readings}
use redi_craft.Storage.Lists.{back, pop_back}
use redi_craft.Persistence.{
  is_saved, text_line, field_lines, hash_lines, value_lines, list_lines, member_lines, set_lines,
  load_pair, Loading, load_line, load_lines,
}

unfoldable has : ℕ → Bytes → Bool
has b [] = false
has b (c ∷ s) = c == b || has b s

has-append : (b : ℕ) (s t : Bytes) → has b (s ++ (b ∷ t)) ≡ true
unfolding has
has-append b [] t = ground arith
has-append b (c ∷ s) t = ground (arith, has-append b s t)

pop_back-back : (c : ℕ) (s : Bytes) → pop_back (c ∷ s) ++ back c s ∷ [] ≡ c ∷ s
unfolding pop_back back
pop_back-back c [] = refl
pop_back-back c (d ∷ s) = ap (λ t. c ∷ t) (pop_back-back d s)

-- A state of the loop that keeps the storage: the section is not that of the strings.
abbrev pub Rests : Storage → Loading → Type 0
Rests s state = (bytes_eq state.0 (codes "STRINGS") ≡ false) × (state.1 ≡ s)

header_other :
    (c : ℕ) (line : Bytes)
    → c ∷ line ≢ codes "[STRINGS]"
    → (c == b'[' && back c line == b']') ≡ true
    → bytes_eq (pop_back line) (codes "STRINGS") ≡ false
unfolding back pop_back
header_other c [] n h = absurd (ground arith)
header_other c (d ∷ line) n h =
    elim (Bool-cases (bytes_eq (pop_back (d ∷ line)) (codes "STRINGS"))) [
      | inl same ↦
          let inner = (bytes_eq_iff (pop_back (d ∷ line)) (codes "STRINGS")).0 same in
          let first : c ≡ b'[' = ground (arith, h) in
          let last : back d line ≡ b']' = ground (arith, h) in
          absurd (n (sym (ap (λ t. c ∷ t) (pop_back-back d line)) ∙ cc (first, last, inner)))
      | inr other ↦ other
    ]

load_line-Rests :
    (now : Readings) (line : Bytes) (s : Storage) (state : Loading)
    → line ≢ codes "[STRINGS]"
    → Rests s state
    → Rests s (load_line now line state)
unfolding load_line
load_line-Rests now [] s state n r = r
load_line-Rests now (c ∷ line) s (section, t) n (r, e) =
    if_both (Rests s) (c == b'[' && back c line == b']') (pop_back line, t) _
      (λ h. (header_other c line n h, e)) (from (cut b'=' (c ∷ line)))
  where
    from :
        (o : Option (Bytes × Bytes))
        → Rests s (elim o as (λ _. Loading) [
          | none ↦ (section, t)
          | some (key, value) ↦ (section, load_pair now section key value t)
        ])
    from none = (r, e)
    from (some (key, value)) = (r, rw (r, load_pair) e)

pub load_lines-Rests :
    (now : List Bytes → Readings) (ls : List Bytes) (s : Storage) (state : Loading)
    → All (λ l. l ≢ codes "[STRINGS]") ls
    → Rests s state
    → Rests s (load_lines now ls state)
unfolding load_lines
load_lines-Rests now [] s state n r = r
load_lines-Rests now (l ∷ ls) s state (n, ns) r =
    load_lines-Rests now ls s (load_line (now ls) l state) ns
      (load_line-Rests (now ls) l s state n r)

text_line-other : (k v : Bytes) → text_line k v ≢ codes "[STRINGS]"
unfolding text_line has
text_line-other k v e = let p = sym (has-append b'=' k v) ∙ ap (has b'=') e in cc p

abbrev pub Others : List Bytes → Type 0
Others ls = All (λ l. l ≢ codes "[STRINGS]") ls

field_lines-Others : (k : Bytes) (m : Table Bytes) → Others (field_lines k m)
unfolding field_lines
field_lines-Others k [] = tt
field_lines-Others k ((f, v) ∷ m) = (text_line-other _ v, field_lines-Others k m)

value_lines-Others : (k : Bytes) (i : ℕ) (vs : List Bytes) → Others (value_lines k i vs)
unfolding value_lines
value_lines-Others k i [] = tt
value_lines-Others k i (v ∷ vs) = (text_line-other _ v, value_lines-Others k (i + 1) vs)

member_lines-Others : (k : Bytes) (m : Table Bool) → Others (member_lines k m)
unfolding member_lines
member_lines-Others k [] = tt
member_lines-Others k ((x, b) ∷ m) = (text_line-other _ (codes "1"), member_lines-Others k m)

pub hash_lines-Others : (at : Bytes → ℤ) (m : Table (Item (Table Bytes))) → Others (hash_lines at m)
unfolding hash_lines
hash_lines-Others at [] = tt
hash_lines-Others at ((k, it) ∷ m) =
    if_both Others (is_saved (at k) it) _ _
      (λ _. All-append _ _ _ (field_lines-Others k it.value) (hash_lines-Others at m))
      (hash_lines-Others at m)

pub list_lines-Others : (at : Bytes → ℤ) (m : Table (Item (List Bytes))) → Others (list_lines at m)
unfolding list_lines
list_lines-Others at [] = tt
list_lines-Others at ((k, it) ∷ m) =
    if_both Others (is_saved (at k) it) _ _
      (λ _. All-append _ _ _ (value_lines-Others k 0 it.value) (list_lines-Others at m))
      (list_lines-Others at m)

pub set_lines-Others : (at : Bytes → ℤ) (m : Table (Item (Table Bool))) → Others (set_lines at m)
unfolding set_lines
set_lines-Others at [] = tt
set_lines-Others at ((k, it) ∷ m) =
    if_both Others (is_saved (at k) it) _ _
      (λ _. All-append _ _ _ (member_lines-Others k it.value) (set_lines-Others at m))
      (set_lines-Others at m)
