-- ===== src/Session/Framing.antt =====
-- How Session (RediCraft-Server/src/session.cpp) frames what it reads and what it answers.
use redi_craft.Prelude.{
  ℕ, ◌+◌, ◌≡◌, refl, sym, ap, ◌∙◌, ◌≢◌, Bool, true, false, Option, none, some, List, [], ◌∷◌, ◌++◌,
  append-nil, append_assoc, arith, if◌then◌else◌, All, Bytes, codes,
}
use redi_craft.Prelude.Int.{ℤ}
use redi_craft.Table.{Table}
use redi_craft.Number.{stoll}
use redi_craft.Parser.{
  CommandType, at, parse, ping, set, get, incr, decr, incrby, hset, hget, hgetall, lpush, rpop,
  lrange, expire, ttl, sadd, smembers, srem, sismember, scard, unknown,
}
use redi_craft.Storage.{Storage}
use redi_craft.Session.Replies.{
  Clock, line, number, value_or_nil, flag, field_lines, fields_text, value_lines, values_text,
  member_lines, members_text,
}
use redi_craft.Session.{respond, handle_command, Session, remove_byte, on_read, writing}

-- The text ends with "\r\n".
abbrev pub EndsLine : Bytes → Type 0
EndsLine b = (text : Bytes) × (b ≡ text ++ 13 ∷ 10 ∷ [])

line-EndsLine : (text : Bytes) → EndsLine (line text)
unfolding line
line-EndsLine text = (text, refl)

append-EndsLine : (a b : Bytes) → EndsLine b → EndsLine (a ++ b)
append-EndsLine a b (text, e) = (a ++ text, rw e (sym (append_assoc a text (13 ∷ 10 ∷ []))))

field_lines-EndsLine :
    (x : Bytes × Bytes) (fields : Table Bytes) → EndsLine (field_lines (x ∷ fields))
unfolding field_lines
field_lines-EndsLine (name, value) [] = rw append-nil (line-EndsLine _)
field_lines-EndsLine (name, value) (y ∷ fields) =
    append-EndsLine _ _ (field_lines-EndsLine y fields)

value_lines-EndsLine : (i : ℕ) (x : Bytes) (xs : List Bytes) → EndsLine (value_lines i (x ∷ xs))
unfolding value_lines
value_lines-EndsLine i x [] = rw append-nil (line-EndsLine _)
value_lines-EndsLine i x (y ∷ xs) = append-EndsLine _ _ (value_lines-EndsLine (i + 1) y xs)

member_lines-EndsLine : (x : Bytes × Bool) (ms : Table Bool) → EndsLine (member_lines (x ∷ ms))
unfolding member_lines
member_lines-EndsLine (m, p) [] = rw append-nil (line-EndsLine _)
member_lines-EndsLine (m, p) (y ∷ ms) = append-EndsLine _ _ (member_lines-EndsLine y ms)

number-EndsLine : (n : ℤ) → EndsLine (number n)
unfolding number
number-EndsLine n = line-EndsLine _

value_or_nil-EndsLine : (o : Option Bytes) → EndsLine (value_or_nil o)
unfolding value_or_nil
value_or_nil-EndsLine none = line-EndsLine (codes "(nil)")
value_or_nil-EndsLine (some v) = line-EndsLine v

flag-EndsLine : (b : Bool) → EndsLine (flag b)
unfolding flag
flag-EndsLine true = line-EndsLine (codes "1")
flag-EndsLine false = line-EndsLine (codes "0")

fields_text-EndsLine : (fields : Table Bytes) → EndsLine (fields_text fields)
unfolding fields_text
fields_text-EndsLine [] = line-EndsLine (codes "(empty hash)")
fields_text-EndsLine (x ∷ fields) = field_lines-EndsLine x fields

values_text-EndsLine : (values : List Bytes) → EndsLine (values_text values)
unfolding values_text
values_text-EndsLine [] = line-EndsLine (codes "(empty list)")
values_text-EndsLine (x ∷ xs) = value_lines-EndsLine 0 x xs

members_text-EndsLine : (ms : Table Bool) → EndsLine (members_text ms)
unfolding members_text
members_text-EndsLine [] = line-EndsLine (codes "(empty set)")
members_text-EndsLine (x ∷ ms) = member_lines-EndsLine x ms

gate :
    (b : Bool) (x y : Bytes × Storage)
    → EndsLine x.0
    → EndsLine y.0
    → EndsLine (if b then x else y).0
gate true x y h k = h
gate false x y h k = k

parsed :
    (o : Option ℤ) (x : Bytes × Storage) (f : ℤ → Bytes × Storage)
    → EndsLine x.0
    → ((n : ℤ) → EndsLine (f n).0)
    → EndsLine (elim o as (λ _. Bytes × Storage) [ none ↦ x | some n ↦ f n ]).0
parsed none x f h k = h
parsed (some n) x f h k = k n

respond-EndsLine :
    (c : Clock) (t : CommandType) (args : List Bytes) (s : Storage)
    → EndsLine (respond c t args s).0
unfolding respond
respond-EndsLine c ping args s = line-EndsLine _
respond-EndsLine c unknown args s = line-EndsLine _
respond-EndsLine c set args s = gate _ _ _ (line-EndsLine _) (line-EndsLine _)
respond-EndsLine c get args s = gate _ _ _ (value_or_nil-EndsLine _) (line-EndsLine _)
respond-EndsLine c incr args s = gate _ _ _ (number-EndsLine _) (line-EndsLine _)
respond-EndsLine c decr args s = gate _ _ _ (number-EndsLine _) (line-EndsLine _)
respond-EndsLine c incrby args s =
    gate _ _ _ (parsed (stoll (at args 1)) _ _ (line-EndsLine _) (λ n. number-EndsLine _))
      (line-EndsLine _)
respond-EndsLine c hset args s = gate _ _ _ (line-EndsLine _) (line-EndsLine _)
respond-EndsLine c hget args s = gate _ _ _ (value_or_nil-EndsLine _) (line-EndsLine _)
respond-EndsLine c hgetall args s = gate _ _ _ (fields_text-EndsLine _) (line-EndsLine _)
respond-EndsLine c lpush args s = gate _ _ _ (number-EndsLine _) (line-EndsLine _)
respond-EndsLine c rpop args s = gate _ _ _ (value_or_nil-EndsLine _) (line-EndsLine _)
respond-EndsLine c lrange args s =
    gate _ _ _
      (parsed (stoll (at args 1)) _ _ (line-EndsLine _)
        (λ i. parsed (stoll (at args 2)) _ _ (line-EndsLine _) (λ j. values_text-EndsLine _)))
      (line-EndsLine _)
respond-EndsLine c expire args s =
    gate _ _ _ (parsed (stoll (at args 1)) _ _ (line-EndsLine _) (λ n. flag-EndsLine _))
      (line-EndsLine _)
respond-EndsLine c ttl args s = gate _ _ _ (number-EndsLine _) (line-EndsLine _)
respond-EndsLine c sadd args s = gate _ _ _ (number-EndsLine _) (line-EndsLine _)
respond-EndsLine c smembers args s = gate _ _ _ (members_text-EndsLine _) (line-EndsLine _)
respond-EndsLine c srem args s = gate _ _ _ (number-EndsLine _) (line-EndsLine _)
respond-EndsLine c sismember args s = gate _ _ _ (flag-EndsLine _) (line-EndsLine _)
respond-EndsLine c scard args s = gate _ _ _ (number-EndsLine _) (line-EndsLine _)

-- Whatever a client sends, the answer ends with "\r\n".
pub handle_command-EndsLine :
    (c : Clock) (text : Bytes) (s : Storage) → EndsLine (handle_command c text s).0
unfolding handle_command
handle_command-EndsLine c text s = respond-EndsLine c (parse text).type (parse text).args s

-- no line break in the text
abbrev IsOneLine : Bytes → Type 0
IsOneLine = All (λ c. (c ≢ 10) × (c ≢ 13))

remove_byte-append :
    (b : ℕ) (s t : Bytes) → remove_byte b (s ++ t) ≡ remove_byte b s ++ remove_byte b t
unfolding remove_byte
remove_byte-append b [] t = refl
remove_byte-append b (c ∷ s) t = ground (arith, remove_byte-append b s t)

remove_byte-IsOneLine : (t : Bytes) → IsOneLine t → (remove_byte 10 t ≡ t) × (remove_byte 13 t ≡ t)
unfolding remove_byte
remove_byte-IsOneLine [] h = (refl, refl)
remove_byte-IsOneLine (c ∷ t) ((x, y), h) = ground (arith, remove_byte-IsOneLine t h)

strip_break :
    (a rest : Bytes)
    → IsOneLine a
    → remove_byte 13 (remove_byte 10 (a ++ (13 ∷ 10 ∷ rest)))
      ≡ a ++ remove_byte 13 (remove_byte 10 rest)
unfolding remove_byte
strip_break a rest h = ground (
  arith,
  remove_byte-append 10 a (13 ∷ 10 ∷ rest),
  remove_byte-append 13 a (13 ∷ remove_byte 10 rest),
  remove_byte-IsOneLine a h,
)

strip_end : (b : Bytes) → IsOneLine b → remove_byte 13 (remove_byte 10 (b ++ (13 ∷ 10 ∷ []))) ≡ b
strip_end b h = strip_break b [] h ∙ (unfold remove_byte in append-nil b)

-- Line breaks are removed wherever they stand, not only at the end: two lines that arrive in one
-- read are handled as one command, the second glued to the first.
pub on_read_two_lines :
    (c : Clock) (a b : Bytes) (session : Session) (s : Storage)
    → IsOneLine a
    → IsOneLine b
    → on_read c (some (a ++ (13 ∷ 10 ∷ (b ++ (13 ∷ 10 ∷ []))))) session s ≡ (
      record { phase = writing; response = (handle_command c (a ++ b) s).0 },
      (handle_command c (a ++ b) s).1,
    )
unfolding on_read
on_read_two_lines c a b session s ha hb =
    ap
      (λ text.
        let r = handle_command c text s in
        let after : Session = record { phase = writing; response = r.0 } in (after, r.1))
      (strip_break a _ ha ∙ ap (◌++◌ a) (strip_end b hb))
