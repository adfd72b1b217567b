-- ===== src/Session/Decode.antt =====
-- A client that reads back the listings of a session (RediCraft-Server/src/session.cpp): what HGETALL,
-- LRANGE and SMEMBERS answer, taken apart again. The decoders are the client's.
use redi_craft.Prelude.{
  ℕ, ◌+◌, ◌≡◌, refl, sym, ap, ◌∙◌, ◌≢◌, Bool, Option, none, some, List, [], ◌∷◌, ◌++◌, map,
  append_assoc, arith, ◌==◌, if◌then◌else◌, All, All-append, All-weaken, Bytes, codes, is_space,
}
use redi_craft.Prelude.Int.{pos}
use redi_craft.Table.{Table}
use redi_craft.Table.Laws.{Entries}
use redi_craft.Number.{to_string}
use redi_craft.Number.RoundTrip.{to_string-All}
use redi_craft.Lines.{lines, cut}
use redi_craft.Lines.Laws.{Lacks, lines-append, cut-append}
use redi_craft.Parser.Tokens.Laws.{HasNoSpace}
use redi_craft.Storage.Invariant.{IsTextOf}
use redi_craft.Storage.Lists.{pop_back}
use redi_craft.Storage.Lists.Laws.{pop_back-concat}
use redi_craft.Session.Replies.{
  line, field_lines, fields_text, value_lines, values_text, member_lines, members_text,
}

-- the lines of an answer, without their "\r\n"
unfoldable pub answer_lines : Bytes → List Bytes
unfolding lines pop_back
answer_lines b = map pop_back (lines b)

-- what the lines hold, where they hold something
unfoldable pub collect : {A : Type 0} → (Bytes → Option A) → List Bytes → List A
collect f [] = []
collect f (l ∷ ls) = let rest = collect f ls in elim (f l) [ none ↦ rest | some a ↦ a ∷ rest ]

-- the value behind ") "
abbrev behind_blank : Bytes → Option Bytes
behind_blank [] = none
behind_blank (c ∷ value) = some value

unfoldable pub value_of : Bytes → Option Bytes
unfolding cut
value_of l = elim (cut b')' l) [ none ↦ none | some (index, rest) ↦ behind_blank rest ]

-- the text before a ':' at the end
unfoldable before_colon : Bytes → Option Bytes
before_colon [] = none
before_colon (c ∷ []) = if c == b':' then some [] else none
before_colon (c ∷ d ∷ s) = elim (before_colon (d ∷ s)) [ none ↦ none | some t ↦ some (c ∷ t) ]

-- a name and a value, around ": "
unfoldable pub field_of : Bytes → Option (Bytes × Bytes)
unfolding cut before_colon
field_of l = elim (cut b' ' l) [
  | none ↦ none
  | some (head, value) ↦ elim (before_colon head) [ none ↦ none | some name ↦ some (name, value) ]
]

-- a member has no blank
unfoldable pub member_of : Bytes → Option Bytes
unfolding cut
member_of l = elim (cut b' ' l) [ none ↦ some l | some parts ↦ none ]

answer_lines-line :
    (l rest : Bytes) → Lacks 10 l → answer_lines (line l ++ rest) ≡ l ∷ answer_lines rest
unfolding answer_lines line
answer_lines-line l rest h =
    let shape : (l ++ 13 ∷ 10 ∷ []) ++ rest ≡ (l ++ 13 ∷ []) ++ (10 ∷ rest) =
      append_assoc l (13 ∷ 10 ∷ []) rest ∙ sym (append_assoc l (13 ∷ []) (10 ∷ rest)) in
    let ends : Lacks 10 (l ++ 13 ∷ []) = All-append _ l (13 ∷ []) h (λ e. omega arith, tt) in
    ap (λ b. map pop_back (lines b)) shape
    ∙ ap (map pop_back) (lines-append (l ++ 13 ∷ []) rest ends)
    ∙ ap (λ t. t ∷ map pop_back (lines rest)) (pop_back-concat l 13)

no_break : (t : Bytes) → HasNoSpace t → Lacks 10 t
unfolding is_space
no_break t h = All-weaken (λ c e n. ground arith) t h

no_blank : (t : Bytes) → HasNoSpace t → Lacks b' ' t
unfolding is_space
no_blank t h = All-weaken (λ c e n. ground arith) t h

cut_absent : (b : ℕ) (s : Bytes) → Lacks b s → cut b s ≡ none
unfolding cut
cut_absent b [] h = refl
cut_absent b (c ∷ s) (hc, h) = ground (arith, cut_absent b s h)

before_colon-append : (s : Bytes) → before_colon (s ++ b':' ∷ []) ≡ some s
unfolding before_colon
before_colon-append [] = refl
before_colon-append (c ∷ []) = refl
before_colon-append (c ∷ d ∷ s) = rw (before_colon-append (d ∷ s)) refl

value_of-line :
    (i : ℕ) (value : Bytes) → value_of (to_string (pos i) ++ (codes ") " ++ value)) ≡ some value
unfolding value_of
value_of-line i value =
    let digits : Lacks b')' (to_string (pos i)) =
      to_string-All (λ c. c ≢ b')') (λ e. omega arith) (λ d h e. omega arith) (pos i) in
    rw (value_of, cut-append b')' (to_string (pos i)) (b' ' ∷ value) digits) refl

field_of-line :
    (name value : Bytes)
    → HasNoSpace name
    → field_of (name ++ (codes ": " ++ value)) ≡ some (name, value)
unfolding field_of
field_of-line name value h =
    let head : Lacks b' ' (name ++ b':' ∷ []) =
      All-append _ name (b':' ∷ []) (no_blank name h) (λ e. omega arith, tt) in
    rw
      (
        sym (append_assoc name (b':' ∷ []) (b' ' ∷ value)),
        field_of,
        cut-append b' ' (name ++ b':' ∷ []) value head,
        before_colon-append name,
      )
      refl

member_of-line : (x : Bytes) → HasNoSpace x → member_of x ≡ some x
unfolding member_of
member_of-line x h = rw (member_of, cut_absent b' ' x (no_blank x h)) refl

field_lines-decode :
    (m : Table Bytes)
    → Entries (IsTextOf HasNoSpace) m
    → collect field_of (answer_lines (field_lines m)) ≡ m
unfolding field_lines collect
field_lines-decode [] h = unfold answer_lines lines in refl
field_lines-decode ((name, value) ∷ m) ((hn, hv), h) =
    let whole : Lacks 10 (name ++ (codes ": " ++ value)) =
      All-append _ name _ (no_break name hn)
        (λ e. omega arith, (λ e. omega arith, no_break value hv)) in
    rw
      (
        answer_lines-line (name ++ (codes ": " ++ value)) (field_lines m) whole,
        collect,
        field_of-line name value hn,
        field_lines-decode m h,
      )
      refl

value_lines-decode :
    (i : ℕ) (values : List Bytes)
    → All HasNoSpace values
    → collect value_of (answer_lines (value_lines i values)) ≡ values
unfolding value_lines collect
value_lines-decode i [] h = unfold answer_lines lines in refl
value_lines-decode i (value ∷ values) (hv, h) =
    let index : Lacks 10 (to_string (pos i)) =
      to_string-All (λ c. c ≢ 10) (λ e. omega arith) (λ d h e. omega arith) (pos i) in
    let whole : Lacks 10 (to_string (pos i) ++ (codes ") " ++ value)) =
      All-append _ (to_string (pos i)) _ index
        (λ e. omega arith, (λ e. omega arith, no_break value hv)) in
    rw
      (
        answer_lines-line (to_string (pos i) ++ (codes ") " ++ value)) (value_lines (i + 1) values)
            whole,
        collect,
        value_of-line i value,
        value_lines-decode (i + 1) values h,
      )
      refl

-- the members, with the number that the map keeps for each left out
abbrev pub names : Table Bool → List Bytes
names [] = []
names ((member, present) ∷ m) = member ∷ names m

member_lines-decode :
    (m : Table Bool)
    → Entries (λ x present. HasNoSpace x) m
    → collect member_of (answer_lines (member_lines m)) ≡ names m
unfolding member_lines collect
member_lines-decode [] h = unfold answer_lines lines in refl
member_lines-decode ((x, present) ∷ m) (hx, h) =
    rw
      (
        answer_lines-line x (member_lines m) (no_break x hx),
        collect,
        member_of-line x hx,
        member_lines-decode m h,
      )
      refl

pub fields_text-decode :
    (m : Table Bytes)
    → Entries (IsTextOf HasNoSpace) m
    → collect field_of (answer_lines (fields_text m)) ≡ m
unfolding fields_text
fields_text-decode [] h = unfold collect answer_lines lines field_of line in refl
fields_text-decode (e ∷ m) h = field_lines-decode (e ∷ m) h

pub values_text-decode :
    (values : List Bytes)
    → All HasNoSpace values
    → collect value_of (answer_lines (values_text values)) ≡ values
unfolding values_text
values_text-decode [] h = unfold collect answer_lines lines value_of line in refl
values_text-decode (v ∷ values) h = value_lines-decode 0 (v ∷ values) h

pub members_text-decode :
    (m : Table Bool)
    → Entries (λ x present. HasNoSpace x) m
    → collect member_of (answer_lines (members_text m)) ≡ names m
unfolding members_text
members_text-decode [] h = unfold collect answer_lines lines member_of line in refl
members_text-decode (e ∷ m) h = member_lines-decode (e ∷ m) h
