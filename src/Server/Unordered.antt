-- ===== src/Server/Unordered.antt =====
-- The server over storages whose maps have no order (RediCraft-Server/src/server.cpp, session.cpp,
-- storage.cpp): a state is a storage up to the order of its entries.
use mathlib.Core.Quot
use mathlib.Core.Quot.{Quot, Quot-set}
use redi_craft.Prelude.{◌≡◌, refl, sym, ap, ◌∙◌, List, [], ◌∷◌, Bytes}
use redi_craft.Storage.{Storage}
use redi_craft.Storage.Order.{SameItems, Alike}
use redi_craft.Session.Replies.{Clock}
use redi_craft.Session.Cases.{handle_with}
use redi_craft.Session.{storage_methods, respond, handle_command}
use redi_craft.Spec.Refines.{Calls, serve_with}
use redi_craft.Server.Clients.{Service, Reach}
use redi_craft.Server.Answers.{calls_of, answers_of, final_storage, Reach-serves}
use redi_craft.Session.Order.{handle_command-Alike}

-- a storage, up to the order of its entries
abbrev pub State : Type 0
State = Quot SameItems

shown : Bytes × Storage → Bytes × State
shown p = (p.0, Quot.mk p.1)

Alike-shown : (p q : Bytes × Storage) → Alike p q → shown p ≡ shown q
unfolding shown
Alike-shown p q h = λ i. (h.0 i, Quot.sound h.1 i)

-- handle_command on such a state
handle : Clock → Bytes → State → Bytes × State
unfolding shown
handle c text =
    Quot.lift (hlevel (Quot-set)) (λ s. shown (handle_command c text s))
      (λ s t h. Alike-shown _ _ (handle_command-Alike c text s t h))

-- the answers to a sequence of commands, and the state behind it
pub serve : Calls → State → List Bytes × State
serve [] q = ([], q)
serve ((c, text) ∷ rest) q =
    let (r, q') = handle c text q in let (rs, q'') = serve rest q' in (r ∷ rs, q'')

serve-mk :
    (calls : Calls) (s : Storage)
    → serve calls (Quot.mk s)
      ≡ (serve_with storage_methods calls s, Quot.mk (final_storage calls s))
unfolding serve serve_with handle shown handle_command handle_with respond
serve-mk [] s = refl
serve-mk ((c, text) ∷ rest) s =
    ap (λ (r : List Bytes × State). ((handle_with storage_methods c text s).0 ∷ r.0, r.1))
      (serve-mk rest (handle_with storage_methods c text s).1)

-- The order in which the four maps keep their entries is never seen. A server, whatever its clients
-- do and whatever it held at the start, is a machine whose state is its storage up to that order: the
-- answers that it gives, and the storage that it leaves, are those of the machine for the commands
-- that it has read.
pub clients_unordered :
    (v w : Service) (run : Reach v w)
    → serve (calls_of run) (Quot.mk v.storage) ≡ (answers_of run, Quot.mk w.storage)
clients_unordered v w run =
    let (answers, storage) = Reach-serves v w run in
    serve-mk (calls_of run) v.storage ∙ (λ i. (sym answers i, Quot.mk (sym storage i)))
