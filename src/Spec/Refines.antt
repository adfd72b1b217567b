-- ===== src/Spec/Refines.antt =====
-- A session over the storage answers as a session over the store
-- (RediCraft-Server/src/session.cpp, storage.cpp).
use redi_craft.Prelude.{◌≡◌, refl, List, [], ◌∷◌, Bytes}
use redi_craft.Table.{find}
use redi_craft.Parser.{parse}
use redi_craft.Storage.{Storage, Readings}
use redi_craft.Session.Replies.{Clock}
use redi_craft.Session.Calls.{Methods}
use redi_craft.Session.Cases.{handle_with}
use redi_craft.Session.{storage_methods, respond, handle_command}
use redi_craft.Spec.Agrees.{Implements, Same}
use redi_craft.Spec
use redi_craft.Spec.Respond.{InOrder, IsFresh, respond-Same}

-- A sequence of texts that clients send, each at its clock.
abbrev pub Calls : Type 0
Calls = List (Clock × Bytes)

-- the answers, in order
unfoldable pub serve_with : {S : Type 0} → Methods S → Calls → S → List Bytes
serve_with m [] s = []
serve_with m ((c, text) ∷ rest) s = let (r, s') = handle_with m c text s in r ∷ serve_with m rest s'

-- The clocks go forward, and EXPIRE and TTL meet no key that a table holds past its time.
abbrev pub IsTimely : Readings → Calls → Storage → Type 0
IsTimely before [] s = Unit
IsTimely before ((c, text) ∷ rest) s =
    InOrder before c
    × IsFresh c (parse text).type (parse text).args s
    × IsTimely c.at rest (handle_command c text s).1

serve_refines :
    (calls : Calls) (before : Readings) (s : Storage) (f : Spec.Store)
    → Implements before s f
    → IsTimely before calls s
    → serve_with storage_methods calls s ≡ serve_with Spec.store_methods calls f
unfolding serve_with handle_with handle_command respond
serve_refines [] before s f h ok = refl
serve_refines ((c, text) ∷ rest) before s f h (order, fresh, ok) =
    let step : Same c.at (handle_with storage_methods c text s)
        (handle_with Spec.store_methods c text f) =
      unfold handle_with in
      respond-Same before c (parse text).args s f order h (parse text).type fresh in
    cc (step.0, serve_refines rest c.at _ _ step.1 ok)

-- the items of a storage, as a store
abbrev pub store_of : Storage → Spec.Store
store_of s = record {
  texts = λ k. find k s.string_data;
  hashes_at = λ k. find k s.hash_data;
  lists_at = λ k. find k s.list_data;
  sets_at = λ k. find k s.set_data;
}

-- A storage shows what the store of its items shows.
Implements-store_of : (now : Readings) (s : Storage) → Implements now s (store_of s)
Implements-store_of now s = record {
  texts_agree = λ k. refl;
  hashes_agree = λ k. refl;
  lists_agree = λ k. refl;
  sets_agree = λ k. refl;
}

-- Whatever texts clients send to a storage, with clocks that go forward, and except that no EXPIRE or
-- TTL meets a key that has expired and has not yet been removed: every answer is that of the abstract
-- store with the same items, in which an item is there until its time has passed and nothing is ever
-- cleaned up.
pub server_refines :
    (calls : Calls) (before : Readings) (s : Storage)
    → IsTimely before calls s
    → serve_with storage_methods calls s ≡ serve_with Spec.store_methods calls (store_of s)
server_refines calls before s ok =
    serve_refines calls before s (store_of s) (Implements-store_of before s) ok
