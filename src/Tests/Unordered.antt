-- ===== src/Tests/Unordered.antt =====
-- The storage up to the order of its entries (RediCraft-Server/src/session.cpp, storage.cpp) at
-- concrete runs.
use mathlib.Core.Quot
use redi_craft.Prelude.{◌≡◌, refl, some, [], ◌∷◌, codes}
use redi_craft.Storage.{item, Storage, init}
use redi_craft.Session.{Session, start, on_read}
use redi_craft.Server.Clients.{Service, Reach, reads, here, next}
use redi_craft.Server.Answers.{calls_of, answers_of}
use redi_craft.Server.Unordered.{serve, clients_unordered}
use redi_craft.Tests.{clock, key, other}

-- Two texts, in the two orders.
abbrev one_order : Storage
one_order = record init { string_data = (key, item (codes "1")) ∷ (other, item (codes "2")) ∷ [] }

-- a client that waits for its next command
abbrev before : Storage → Service
before s = record { sessions = start ∷ []; storage = s }

abbrev outcome : Storage → Session × Storage
outcome s = on_read clock (some (codes "incr k")) start s

abbrev behind : Storage → Service
behind s = record { sessions = (outcome s).0 ∷ []; storage = (outcome s).1 }

-- It sends "incr k".
one_command : (s : Storage) → Reach (before s) (behind s)
one_command s = next here (reads [] [] clock (some (codes "incr k")) start s refl)

clients_unordered_example :
    serve (calls_of (one_command one_order)) (Quot.mk one_order)
    ≡ (answers_of (one_command one_order), Quot.mk (behind one_order).storage)
clients_unordered_example =
    clients_unordered (before one_order) (behind one_order) (one_command one_order)
