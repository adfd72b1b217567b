-- ===== src/Tests/Decoded.antt =====
-- The listings of a server (RediCraft-Server/src/session.cpp), read back at a concrete run.
use redi_craft.Prelude.{◌≡◌, some, [], ◌∷◌, refl, arith, codes}
use redi_craft.Prelude.Int.{pos, negsuc}
use redi_craft.Number.{to_string}
use redi_craft.Parser.{hgetall, lrange, smembers}
use redi_craft.Storage.{Storage, init}
use redi_craft.Session.{Session, respond, start, on_read}
use redi_craft.Session.Decode.{answer_lines, collect, value_of, field_of, member_of, names}
use redi_craft.Server.Clients.{Service, Reach, accepts, reads, here, next}
use redi_craft.Server.Decoded.{listings_decode}
use redi_craft.Storage.Hashes
use redi_craft.Storage.Lists
use redi_craft.Storage.Sets
use redi_craft.Tests.{clock, key}

abbrev empty : Service
empty = record { sessions = []; storage = init }

-- A client sends "lpush k a b".
abbrev pushed : Session × Storage
pushed = on_read clock (some (codes "lpush k a b")) start init

abbrev behind : Service
behind = record { sessions = pushed.0 ∷ []; storage = pushed.1 }

one_push : Reach empty behind
one_push =
    next (next here (accepts empty))
      (reads [] [] clock (some (codes "lpush k a b")) start init refl)

listings_decode_example :
    (collect field_of (answer_lines (respond clock hgetall (key ∷ []) behind.storage).0)
      ≡ (Hashes.hgetall clock.at key behind.storage).0)
    × (collect value_of (
          answer_lines
            (respond clock lrange
              (key ∷ to_string (pos 0) ∷ to_string (negsuc 0) ∷ [])
              behind.storage).0)
        ≡ (Lists.lrange clock.at key (pos 0) (negsuc 0) behind.storage).0)
    × (collect member_of (answer_lines (respond clock smembers (key ∷ []) behind.storage).0)
        ≡ names (Sets.smembers clock.at key behind.storage).0)
listings_decode_example =
    listings_decode behind one_push clock key (pos 0) (negsuc 0) (omega arith, omega arith)
      (omega arith, omega arith)
