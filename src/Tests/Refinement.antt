-- ===== src/Tests/Refinement.antt =====
-- The refinement of the abstract store (RediCraft-Server/src/session.cpp, storage.cpp) at a concrete
-- run.
use redi_craft.Prelude.{◌≡◌, refl, some, [], ◌∷◌, arith, codes, bytes_eq, is_space, toupper}
use redi_craft.Prelude.Int.{pos}
use redi_craft.Storage.{Storage, init, Readings}
use redi_craft.Parser.{is_command, second_half, first_half, parse_tokens, parse}
use redi_craft.Parser.Tokens.{tokenize}
use redi_craft.Session.Replies.{Clock, line}
use redi_craft.Number.{stoll}
use redi_craft.Session.Cases.{handle_with}
use redi_craft.Session.Errors.{handle_with_lem}
use redi_craft.Session.{storage_methods, Session, start, remove_byte, on_read}
use redi_craft.Tests.{later, clock, small}
use redi_craft.Spec.Respond.{InOrder}
use redi_craft.Spec.Refines.{Calls, serve_with, IsTimely, store_of}
use redi_craft.Server.Clients.{Service, Reach, accepts, reads, here, next}
use redi_craft.Server.Answers.{calls_of, answers_of, clients_refine}
use redi_craft.Spec

abbrev start_of_time : Readings
start_of_time k = pos 0

abbrev clock_later : Clock
clock_later = record { start = pos 8; at = later }

abbrev two_calls : Calls
two_calls = (clock, codes "set k v") ∷ (clock_later, codes "get k") ∷ []

two_calls-IsTimely : IsTimely start_of_time two_calls init
unfolding parse tokenize first_half parse_tokens bytes_eq is_space toupper is_command
two_calls-IsTimely = (first, tt, (second, tt, tt))
  where
    first : InOrder start_of_time clock
    first = record { head = λ t. omega arith; body = λ t. omega arith }

    second : InOrder clock.at clock_later
    second = record { head = λ t. omega arith; body = λ t. omega arith }

-- Two clients connect, the first sends "set k v" and the second "get k".
abbrev empty : Service
empty = record { sessions = []; storage = init }

abbrev first_read : Session × Storage
first_read = on_read clock (some (codes "set k v")) start init

abbrev second_read : Session × Storage
second_read = on_read clock_later (some (codes "get k")) start first_read.1

abbrev at_end : Service
at_end = record { sessions = first_read.0 ∷ second_read.0 ∷ []; storage = second_read.1 }

two_clients : Reach empty at_end
two_clients =
    next
      (next
        (next (next here (accepts empty))
          (accepts (record { sessions = start ∷ []; storage = init })))
        (reads [] (start ∷ []) clock (some (codes "set k v")) start init refl))
      (reads (first_read.0 ∷ []) [] clock_later (some (codes "get k")) start first_read.1 refl)

two_clients-IsTimely : IsTimely start_of_time (calls_of two_clients) init
unfolding two_clients remove_byte
two_clients-IsTimely = two_calls-IsTimely

clients_refine_example :
    answers_of two_clients ≡ serve_with Spec.store_methods (calls_of two_clients) (store_of init)
clients_refine_example = clients_refine empty at_end two_clients start_of_time two_clients-IsTimely

handle_with_lem_example :
    handle_with storage_methods clock (codes "expire k soon") small
    ≡ (line (codes "ERROR: Invalid seconds value"), small)
unfolding parse tokenize first_half second_half parse_tokens bytes_eq is_space toupper is_command
    stoll
handle_with_lem_example = handle_with_lem storage_methods clock (codes "expire k soon") small
