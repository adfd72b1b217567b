-- ===== src/Server/Answers.antt =====
-- What all the clients of a server are answered (RediCraft-Server/src/server.cpp, session.cpp).
use redi_craft.Prelude.{◌≡◌, refl, sym, ap, ◌∙◌, none, some, List, [], ◌∷◌, ◌++◌, Bytes}
use redi_craft.Storage.{Storage, Readings}
use redi_craft.Session.Cases.{handle_with}
use redi_craft.Session.{storage_methods, respond, handle_command, remove_byte, on_read}
use redi_craft.Server.Clients.{Service, Step, Reach, accepts, misses, reads, writes, here, next}
use redi_craft.Spec.Refines.{Calls, serve_with, IsTimely, store_of, server_refines}
use redi_craft.Spec

-- the text that a read brings to handle_command, and the answer that it leaves
abbrev call_of : {v w : Service} → Step v w → Calls
call_of (reads before after c (some received) session s e) =
    (c, remove_byte 13 (remove_byte 10 received)) ∷ []
call_of _ = []

abbrev answer_of : {v w : Service} → Step v w → List Bytes
answer_of (reads before after c (some received) session s e) =
    (on_read c (some received) session s).0.response ∷ []
answer_of _ = []

-- the commands of all clients in the order in which the server reads them, and their answers
abbrev pub calls_of : {v w : Service} → Reach v w → Calls
calls_of here = []
calls_of (next run step) = calls_of run ++ call_of step

abbrev pub answers_of : {v w : Service} → Reach v w → List Bytes
answers_of here = []
answers_of (next run step) = answers_of run ++ answer_of step

-- the storage behind a sequence of commands
abbrev pub final_storage : Calls → Storage → Storage
final_storage [] s = s
final_storage ((c, text) ∷ rest) s = final_storage rest (handle_with storage_methods c text s).1

serve_with-append :
    (xs ys : Calls) (s : Storage)
    → serve_with storage_methods (xs ++ ys) s
      ≡ serve_with storage_methods xs s ++ serve_with storage_methods ys (final_storage xs s)
unfolding serve_with
serve_with-append [] ys s = refl
serve_with-append ((c, text) ∷ xs) ys s =
    ap (λ t. (handle_with storage_methods c text s).0 ∷ t)
      (serve_with-append xs ys (handle_with storage_methods c text s).1)

final_storage-append :
    (xs ys : Calls) (s : Storage)
    → final_storage (xs ++ ys) s ≡ final_storage ys (final_storage xs s)
final_storage-append [] ys s = refl
final_storage-append ((c, text) ∷ xs) ys s =
    final_storage-append xs ys (handle_with storage_methods c text s).1

Step-serves :
    (v w : Service) (step : Step v w)
    → (answer_of step ≡ serve_with storage_methods (call_of step) v.storage)
      × (w.storage ≡ final_storage (call_of step) v.storage)
unfolding serve_with handle_with on_read handle_command respond
Step-serves v w (accepts u) = (refl, refl)
Step-serves v w (misses u) = (refl, refl)
Step-serves v w (reads before after c none session s e) = (refl, refl)
Step-serves v w (reads before after c (some received) session s e) = (refl, refl)
Step-serves v w (writes before after done session s e) = (refl, refl)

pub Reach-serves :
    (v w : Service) (run : Reach v w)
    → (answers_of run ≡ serve_with storage_methods (calls_of run) v.storage)
      × (w.storage ≡ final_storage (calls_of run) v.storage)
unfolding serve_with
Reach-serves v w here = (refl, refl)
Reach-serves v w (next {u = x} {w = y} run step) =
    let (answers, storage) = Reach-serves v x run in
    let (answer, storage') = Step-serves x y step in
    (
      rw (serve_with-append (calls_of run) (call_of step) v.storage, sym answers, sym storage)
          (ap (λ t. answers_of run ++ t) answer),
      rw (final_storage-append (calls_of run) (call_of step) v.storage, sym storage) storage',
    )

-- However any number of clients connect, send commands, read their answers and break off, in any
-- order, at a server with any storage: the answers, in the order in which the server reads the
-- commands, are those of one abstract store with the same items that serves the commands one after
-- the other, in which an item is there until its time has passed and nothing is ever cleaned up. The
-- clocks of the commands go forward, and no EXPIRE or TTL meets a key that has expired and has not
-- been removed.
pub clients_refine :
    (v w : Service) (run : Reach v w) (before : Readings)
    → IsTimely before (calls_of run) v.storage
    → answers_of run ≡ serve_with Spec.store_methods (calls_of run) (store_of v.storage)
clients_refine v w run before timely =
    (Reach-serves v w run).0 ∙ server_refines (calls_of run) before v.storage timely
