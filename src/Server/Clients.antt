-- ===== src/Server/Clients.antt =====
-- The clients of a server: Server::do_accept (RediCraft-Server/src/server.cpp) and the sessions that
-- it starts (src/session.cpp), over one storage. Handlers run one after the other, in any order.
use redi_craft.Prelude.{
  ◌≡◌, refl, Bool, true, false, Option, none, some, List, [], ◌∷◌, ◌++◌, All, All-append, Bytes,
}
use redi_craft.Parser.Tokens.Laws.{IsToken}
use redi_craft.Storage.{Storage}
use redi_craft.Storage.Invariant.{IsClosed, IsStoreOf, Anything-IsClosed, IsWellFormed}
use redi_craft.Session.Replies.{Clock}
use redi_craft.Session.{Session, start, remove_byte, on_read, on_write, reading, writing}
use redi_craft.Session.Keeps.{handle_command-IsStoreOf}
use redi_craft.Session.Framing.{EndsLine, handle_command-EndsLine}

pub record Service : Type 0 where
  pub sessions : List Session
  pub storage : Storage

-- The handler that runs next: an accept, with a client or with an error, or the end of a read or a
-- write of one of the sessions.
pub data Step : Service → Service → Type 0 where
  accepts : (v : Service) → Step v (record v { sessions = v.sessions ++ start ∷ [] })
  misses : (v : Service) → Step v v
  reads :
      (before after : List Session) (c : Clock) (received : Option Bytes) (session : Session)
      (s : Storage)
      → session.phase ≡ reading
      → Step
          (record { sessions = before ++ session ∷ after; storage = s })
          (record {
            sessions = before ++ (on_read c received session s).0 ∷ after;
            storage = (on_read c received session s).1;
          })
  writes :
      (before after : List Session) (done : Bool) (session : Session) (s : Storage)
      → session.phase ≡ writing
      → Step
          (record { sessions = before ++ session ∷ after; storage = s })
          (record { sessions = before ++ on_write done session ∷ after; storage = s })

pub data Reach (v : Service) : Service → Type 0 where
  here : Reach v v
  next : {u w : Service} → Reach v u → Step u w → Reach v w

-- A session that writes has an answer, ended by "\r\n"; one that reads has sent its last one.
abbrev IsAnswering : Session → Type 0
IsAnswering session =
    (session.phase ≡ writing → EndsLine session.response)
    × (session.phase ≡ reading → session.response ≡ [])

pub record IsSound (v : Service) : Type 0 where
  pub storage_is : IsWellFormed v.storage
  pub sessions_are : All IsAnswering v.sessions

on_read-IsAnswering :
    (c : Clock) (received : Option Bytes) (session : Session) (s : Storage)
    → IsAnswering (on_read c received session s).0
unfolding on_read
on_read-IsAnswering c none session s = (λ e. cc e, λ e. cc e)
on_read-IsAnswering c (some received) session s =
    (λ _. handle_command-EndsLine c (remove_byte 13 (remove_byte 10 received)) s, λ e. cc e)

-- A predicate that tokens have, and texts that a command makes itself, is kept by a read.
on_read-IsStoreOf :
    {Q : Bytes → Type 0} (closed : IsClosed Q) (c : Clock) (received : Option Bytes)
    (session : Session) (s : Storage)
    → ((t : Bytes) → IsToken t → Q t)
    → IsStoreOf Q s
    → IsStoreOf Q (on_read c received session s).1
unfolding on_read
on_read-IsStoreOf closed c none session s q w = w
on_read-IsStoreOf closed c (some received) session s q w =
    handle_command-IsStoreOf closed c (remove_byte 13 (remove_byte 10 received)) s q w

-- So it is kept by a server, whatever its clients do.
pub Reach-IsStoreOf :
    {Q : Bytes → Type 0} (closed : IsClosed Q) {v w : Service}
    → ((t : Bytes) → IsToken t → Q t)
    → Reach v w
    → IsStoreOf Q v.storage
    → IsStoreOf Q w.storage
Reach-IsStoreOf closed q here h = h
Reach-IsStoreOf closed q (next run (accepts u)) h = Reach-IsStoreOf closed q run h
Reach-IsStoreOf closed q (next run (misses u)) h = Reach-IsStoreOf closed q run h
Reach-IsStoreOf closed q (next run (reads before after c received session s e)) h =
    on_read-IsStoreOf closed c received session s q (Reach-IsStoreOf closed q run h)
Reach-IsStoreOf closed q (next run (writes before after done session s e)) h =
    Reach-IsStoreOf closed q run h

on_write-IsAnswering : (done : Bool) (session : Session) → IsAnswering (on_write done session)
unfolding on_write
on_write-IsAnswering false session = (λ e. cc e, λ e. cc e)
on_write-IsAnswering true session = (λ e. cc e, λ _. refl)

replace-IsAnswering :
    (before after : List Session) (old new : Session)
    → All IsAnswering (before ++ old ∷ after)
    → IsAnswering new
    → All IsAnswering (before ++ new ∷ after)
replace-IsAnswering [] after old new (_, h) k = (k, h)
replace-IsAnswering (x ∷ before) after old new (hx, h) k =
    (hx, replace-IsAnswering before after old new h k)

Step-IsSound : {v w : Service} → Step v w → IsSound v → IsSound w
Step-IsSound (accepts v) h = record {
  storage_is = h.storage_is;
  sessions_are = All-append _ _ _ h.sessions_are ((λ e. cc e, λ _. refl), tt);
}
Step-IsSound (misses v) h = h
Step-IsSound (reads before after c received session s e) h = record {
  storage_is = on_read-IsStoreOf Anything-IsClosed c received session s (λ t k. tt) h.storage_is;
  sessions_are =
      replace-IsAnswering before after session _ h.sessions_are
        (on_read-IsAnswering c received session s);
}
Step-IsSound (writes before after done session s e) h = record {
  storage_is = h.storage_is;
  sessions_are =
      replace-IsAnswering before after session _ h.sessions_are (on_write-IsAnswering done session);
}

-- However clients connect, send bytes, read their answers and break off, in any order: if the server
-- starts sound, then its storage stays well-formed (each key, field and member once, no empty set),
-- a session that writes has an answer that ends with "\r\n", and one that waits for its next command
-- has nothing left to send.
pub Reach-IsSound : {v w : Service} → Reach v w → IsSound v → IsSound w
Reach-IsSound here h = h
Reach-IsSound (next r e) h = Step-IsSound e (Reach-IsSound r h)
