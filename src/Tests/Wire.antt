-- ===== src/Tests/Wire.antt =====
-- The theorems on the parser and the session (RediCraft-Server/src/parser.cpp, session.cpp) at
-- concrete inputs.
use redi_craft.Prelude.{
  ◌↔◌, ◌≡◌, refl, true, Option, some, [], ◌∷◌, ◌++◌, arith, Bytes, codes, bytes_eq, is_space,
  toupper,
}
use redi_craft.Table.{find, assign}
use redi_craft.Storage.{item}
use redi_craft.Storage.Invariant.{
  Holds, Anything, IsHashOf, IsListOf, IsSetOf, IsWellFormed, assign-Holds,
}
use redi_craft.Parser.{command, parse, get}
use redi_craft.Parser.Tokens.{tokenize}
use redi_craft.Parser.Tokens.Laws.{join}
use redi_craft.Session.Replies.{line}
use redi_craft.Session.{handle_command, start, on_read, on_write, writing}
use redi_craft.Session.Keeps.{handle_command-IsWellFormed}
use redi_craft.Session.EndToEnd.{get_after_set}
use redi_craft.Session.Framing.{on_read_two_lines}
use redi_craft.Server.Clients.{
  Service, Reach, IsSound, Reach-IsSound, accepts, reads, writes, here, next,
}
use redi_craft.Parser.Meaning.{Spells, parse_iff}
use redi_craft.Tests.{clock, key, small}

nothing-Holds : {A : Type 0} (P : Bytes → A → Type 0) → Holds P []
unfolding find
nothing-Holds P = record { keys = tt; values = tt }

-- a table with one item
one-Holds : {A : Type 0} (P : Bytes → A → Type 0) (a : A) → P key a → Holds P ((key, item a) ∷ [])
unfolding assign
one-Holds P a p = assign-Holds P [] (nothing-Holds P) key (item a) p

small-IsWellFormed : IsWellFormed small
unfolding find bytes_eq
small-IsWellFormed = record {
  texts = record { keys = (refl, (refl, tt)); values = ((tt, tt), ((tt, tt), tt)) };
  hashes_hold = one-Holds (IsHashOf Anything) _ (tt, ((refl, tt), ((tt, tt), tt)));
  lists_hold = one-Holds (IsListOf Anything) _ (tt, (tt, (tt, (tt, tt))));
  sets_hold =
      one-Holds (IsSetOf Anything) _ (tt, (((refl, (refl, tt)), (tt, (tt, tt))), λ e. cc e));
}

handle_command-IsWellFormed_example :
    IsWellFormed (handle_command clock (codes "srem k x y") small).1
handle_command-IsWellFormed_example =
    handle_command-IsWellFormed clock (codes "srem k x y") small small-IsWellFormed

-- A word too many is dropped.
parse_iff_example :
    (parse (codes "Get k x") ≡ command get (key ∷ []))
    ↔ Spells get (key ∷ []) (tokenize (codes "Get k x"))
parse_iff_example = parse_iff get (codes "Get k x") (key ∷ []) cc

get_after_set_example :
    (handle_command clock
      (join (codes "get" ∷ key ∷ []))
      (handle_command clock (join (codes "Set" ∷ key ∷ codes "v" ∷ [])) small).1).0
    ≡ line (codes "v")
unfolding is_space bytes_eq toupper
get_after_set_example =
    get_after_set clock clock (codes "Set") (codes "get") key (codes "v") key small
      (ground arith, λ e. cc e) refl (ground arith, λ e. cc e) refl (ground arith, λ e. cc e)
      (ground arith, λ e. cc e) (ground arith, λ e. cc e)

on_read_two_lines_example :
    on_read clock
      (some (codes "SET a b" ++ (13 ∷ 10 ∷ (codes "GET a" ++ (13 ∷ 10 ∷ [])))))
      start
      small
    ≡ (
      record { phase = writing; response = (handle_command clock (codes "SET a bGET a") small).0 },
      (handle_command clock (codes "SET a bGET a") small).1,
    )
on_read_two_lines_example =
    on_read_two_lines clock (codes "SET a b") (codes "GET a") start small (ground arith)
      (ground arith)

abbrev received : Option Bytes
received = some (codes "SET k v" ++ (13 ∷ 10 ∷ []))

abbrev opened : Service
opened = record { sessions = []; storage = small }

abbrev served : Service
served = record {
  sessions = on_write true (on_read clock received start small).0 ∷ [];
  storage = (on_read clock received start small).1;
}

-- A client connects, sends a command and reads the answer.
visit : Reach opened served
unfolding on_read
visit = next (next (next here (accepts opened)) (reads [] [] clock received start small refl)) (
    writes [] [] true (on_read clock received start small).0 (on_read clock received start small).1
      refl)

Reach-IsSound_example : IsSound served
Reach-IsSound_example =
    Reach-IsSound visit (record { storage_is = small-IsWellFormed; sessions_are = tt })
