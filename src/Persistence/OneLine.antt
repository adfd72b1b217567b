-- ===== src/Persistence/OneLine.antt =====
-- Line breaks in keys, fields, members and values (RediCraft-Server/src/session.cpp, parser.cpp,
-- persistence.cpp), and in the lines that saveToFile writes.
use redi_craft.Prelude.{
  ℕ, refl, Bool, ◌+◌, ◌≢◌, List, [], ◌∷◌, ◌++◌, arith, if_both, All, All-append, All-weaken, Bytes,
  codes, is_space,
}
use redi_craft.Prelude.Int.{ℤ, pos}
use redi_craft.Table.{Table}
use redi_craft.Number.{to_string}
use redi_craft.Number.RoundTrip.{to_string-All}
use redi_craft.Lines.Laws.{Lacks, lacks, lacks-Lacks}
use redi_craft.Parser.Tokens.Laws.{IsToken}
use redi_craft.Storage.{Item, Storage, init, strings, hashes, lists, sets}
use redi_craft.Storage.Invariant.{IsTextOf, IsHashOf, IsListOf, IsSetOf, IsClosed, IsStoreOf}
use redi_craft.Table.Laws.{Entries}
use redi_craft.Persistence.{
  SaveClock, is_saved, text_line, string_lines, field_lines, hash_lines, value_lines, list_lines,
  member_lines, set_lines, saved_lines,
}

abbrev pub IsOneLine : Bytes → Type 0
IsOneLine = Lacks 10

pub IsOneLine-IsClosed : IsClosed IsOneLine
IsOneLine-IsClosed = record {
  empty = tt;
  printed = to_string-All (λ c. c ≢ 10) (λ e. omega arith) (λ d h e. omega arith);
}

pub IsToken-IsOneLine : (t : Bytes) → IsToken t → IsOneLine t
unfolding is_space
IsToken-IsOneLine t h = All-weaken (λ c e n. ground arith) t h.0

pub init-IsStoreOf : (Q : Bytes → Type 0) → IsStoreOf Q init
init-IsStoreOf Q = record {
  texts = record { keys = tt; values = tt };
  hashes_hold = record { keys = tt; values = tt };
  lists_hold = record { keys = tt; values = tt };
  sets_hold = record { keys = tt; values = tt };
}

-- What is saved of such a storage.
text_line-IsOneLine : (k v : Bytes) → IsOneLine k → IsOneLine v → IsOneLine (text_line k v)
unfolding text_line
text_line-IsOneLine k v hk hv = All-append _ k _ hk (λ e. omega arith, hv)

behind_key :
    (k rest : Bytes) (b : ℕ) → IsOneLine k → b ≢ 10 → IsOneLine rest → IsOneLine (k ++ (b ∷ rest))
behind_key k rest b hk hb h = All-append _ k _ hk (hb, h)

field_lines-IsOneLine :
    (k : Bytes) (m : Table Bytes)
    → IsOneLine k
    → Entries (IsTextOf IsOneLine) m
    → All IsOneLine (field_lines k m)
unfolding field_lines
field_lines-IsOneLine k [] hk h = tt
field_lines-IsOneLine k ((f, v) ∷ m) hk ((hf, hv), h) = (
  text_line-IsOneLine _ v (behind_key k f b'.' hk (λ e. omega arith) hf) hv,
  field_lines-IsOneLine k m hk h,
)

value_lines-IsOneLine :
    (k : Bytes) (i : ℕ) (vs : List Bytes)
    → IsOneLine k
    → All IsOneLine vs
    → All IsOneLine (value_lines k i vs)
unfolding value_lines
value_lines-IsOneLine k i [] hk h = tt
value_lines-IsOneLine k i (v ∷ vs) hk (hv, h) =
    let index =
      All-append _ (to_string (pos i)) (b']' ∷ []) (IsOneLine-IsClosed.printed (pos i))
        (λ e. omega arith, tt) in
    (
      text_line-IsOneLine _ v (behind_key k _ b'[' hk (λ e. omega arith) index) hv,
      value_lines-IsOneLine k (i + 1) vs hk h,
    )

member_lines-IsOneLine :
    (k : Bytes) (m : Table Bool)
    → IsOneLine k
    → Entries (λ x present. IsOneLine x) m
    → All IsOneLine (member_lines k m)
unfolding member_lines
member_lines-IsOneLine k [] hk h = tt
member_lines-IsOneLine k ((x, b) ∷ m) hk (hx, h) = (
  text_line-IsOneLine _ (codes "1") (behind_key k x b'.' hk (λ e. omega arith) hx)
      (λ e. omega arith, tt),
  member_lines-IsOneLine k m hk h,
)

module _ (at : Bytes → ℤ) where
  string_lines-IsOneLine :
      (m : Table (Item Bytes))
      → Entries (λ k (it : Item Bytes). IsTextOf IsOneLine k it.value) m
      → All IsOneLine (string_lines at m)
  unfolding string_lines
  string_lines-IsOneLine [] h = tt
  string_lines-IsOneLine ((k, it) ∷ m) ((hk, hv), h) =
      if_both (All IsOneLine) (is_saved (at k) it) _ _
        (λ _. (text_line-IsOneLine k it.value hk hv, string_lines-IsOneLine m h))
        (string_lines-IsOneLine m h)

  hash_lines-IsOneLine :
      (m : Table (Item (Table Bytes)))
      → Entries (λ k (it : Item (Table Bytes)). IsHashOf IsOneLine k it.value) m
      → All IsOneLine (hash_lines at m)
  unfolding hash_lines
  hash_lines-IsOneLine [] h = tt
  hash_lines-IsOneLine ((k, it) ∷ m) ((hk, hm), h) =
      if_both (All IsOneLine) (is_saved (at k) it) _ _
        (λ _.
          All-append _ (field_lines k it.value) _ (field_lines-IsOneLine k it.value hk hm.1)
            (hash_lines-IsOneLine m h))
        (hash_lines-IsOneLine m h)

  list_lines-IsOneLine :
      (m : Table (Item (List Bytes)))
      → Entries (λ k (it : Item (List Bytes)). IsListOf IsOneLine k it.value) m
      → All IsOneLine (list_lines at m)
  unfolding list_lines
  list_lines-IsOneLine [] h = tt
  list_lines-IsOneLine ((k, it) ∷ m) ((hk, hm), h) =
      if_both (All IsOneLine) (is_saved (at k) it) _ _
        (λ _.
          All-append _ (value_lines k 0 it.value) _ (value_lines-IsOneLine k 0 it.value hk hm)
            (list_lines-IsOneLine m h))
        (list_lines-IsOneLine m h)

  set_lines-IsOneLine :
      (m : Table (Item (Table Bool)))
      → Entries (λ k (it : Item (Table Bool)). IsSetOf IsOneLine k it.value) m
      → All IsOneLine (set_lines at m)
  unfolding set_lines
  set_lines-IsOneLine [] h = tt
  set_lines-IsOneLine ((k, it) ∷ m) ((hk, hm), h) =
      if_both (All IsOneLine) (is_saved (at k) it) _ _
        (λ _.
          All-append _ (member_lines k it.value) _ (member_lines-IsOneLine k it.value hk hm.0.1)
            (set_lines-IsOneLine m h))
        (set_lines-IsOneLine m h)

pub saved_lines-IsOneLine :
    (at : SaveClock) (s : Storage) → IsStoreOf IsOneLine s → All IsOneLine (saved_lines at s)
unfolding saved_lines lacks
saved_lines-IsOneLine at s w = (
  lacks-Lacks 10 (codes "[STRINGS]") refl,
  All-append _ _ _ (string_lines-IsOneLine (at strings) s.string_data w.texts.values) (
    lacks-Lacks 10 (codes "[HASHES]") refl,
    All-append _ _ _ (hash_lines-IsOneLine (at hashes) s.hash_data w.hashes_hold.values) (
      lacks-Lacks 10 (codes "[LISTS]") refl,
      All-append _ _ _ (list_lines-IsOneLine (at lists) s.list_data w.lists_hold.values) (
        lacks-Lacks 10 (codes "[SETS]") refl,
        set_lines-IsOneLine (at sets) s.set_data w.sets_hold.values,
      ),
    ),
  ),
)
