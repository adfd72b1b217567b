-- ===== src/Session/Replies.antt =====
-- The texts that Session::handle_command answers (RediCraft-Server/src/session.cpp), and the
-- readings of the clock that one command makes.
use redi_craft.Prelude.{
  ℕ, ◌+◌, Bool, true, false, Option, none, some, List, [], ◌∷◌, ◌++◌, Bytes, codes,
}
use redi_craft.Prelude.Int.{ℤ, pos}
use redi_craft.Table.{Table}
use redi_craft.Number.{to_string}
use redi_craft.Storage.{Readings}

-- `start` is the reading at the head of expire and ttl.
pub record Clock : Type 0 where
  pub start : ℤ
  pub at : Readings

-- the text with "\r\n"
unfoldable pub line : Bytes → Bytes
line text = text ++ 13 ∷ 10 ∷ []

unfoldable pub number : ℤ → Bytes
unfolding line
number n = line (to_string n)

unfoldable pub value_or_nil : Option Bytes → Bytes
unfolding line
value_or_nil none = line (codes "(nil)")
value_or_nil (some value) = line value

unfoldable pub flag : Bool → Bytes
unfolding line
flag true = line (codes "1")
flag false = line (codes "0")

-- the loop of HGETALL
unfoldable pub field_lines : Table Bytes → Bytes
unfolding line
field_lines [] = []
field_lines ((name, value) ∷ rest) = line (name ++ (codes ": " ++ value)) ++ field_lines rest

unfoldable pub fields_text : Table Bytes → Bytes
unfolding field_lines
fields_text [] = line (codes "(empty hash)")
fields_text (x ∷ fields) = field_lines (x ∷ fields)

-- the loop of LRANGE, from index `i`
unfoldable pub value_lines : ℕ → List Bytes → Bytes
unfolding line
value_lines i [] = []
value_lines i (value ∷ rest) =
    line (to_string (pos i) ++ (codes ") " ++ value)) ++ value_lines (i + 1) rest

unfoldable pub values_text : List Bytes → Bytes
unfolding value_lines
values_text [] = line (codes "(empty list)")
values_text (x ∷ values) = value_lines 0 (x ∷ values)

-- the loop of SMEMBERS
unfoldable pub member_lines : Table Bool → Bytes
unfolding line
member_lines [] = []
member_lines ((member, present) ∷ rest) = line member ++ member_lines rest

unfoldable pub members_text : Table Bool → Bytes
unfolding member_lines
members_text [] = line (codes "(empty set)")
members_text (x ∷ members) = member_lines (x ∷ members)
