-- ===== src/Replication/Master.antt =====
-- The master's side of replication (RediCraft-Server/src/replication.cpp): the loop that accepts
-- slaves and what a slave is sent. What the network answers is an argument.
use redi_craft.Prelude.{
  ℕ, ◌≡◌, refl, ap, Bool, true, false, List, [], ◌∷◌, map, if◌then◌else◌, All, Bytes,
}
use redi_craft.Sockets.{Read, Accept, connections, got, ended, accepted, unaccepted, crashed}
use redi_craft.Storage.{Storage, init}
use redi_craft.Replication.{Verdict, generate_storage_snapshot}
use redi_craft.Replication.Slave.{handle_master_commands, handle_master_commands_lem}

-- what a slave is sent, and the seconds that its connection is then held
pub data Sent : Type 0 where
  unsent : Sent
  sent : Bytes → ℕ → Sent

-- handleSlaveConnection: whether the write succeeds, and the rounds of its loop until
-- master_running_ is found cleared or the socket closed
unfoldable handle_slave_connection : Storage → Bool × ℕ → Sent
handle_slave_connection s (written, rounds) =
    if written then sent (generate_storage_snapshot s) rounds else unsent

-- masterAcceptLoop, behind its test of the acceptor: the connections in threads of their own, each
-- with the storage that it finds
unfoldable master_accept_loop : Bool → List (Accept (Storage × (Bool × ℕ)) × Bool) → List Sent
unfolding handle_slave_connection
master_accept_loop false rounds = []
master_accept_loop true [] = []
master_accept_loop true ((accepted (s, how), true) ∷ rounds) =
    handle_slave_connection s how ∷ master_accept_loop true rounds
master_accept_loop true ((unaccepted, true) ∷ rounds) = master_accept_loop true rounds
master_accept_loop true ((crashed, true) ∷ rounds) = master_accept_loop true rounds
master_accept_loop true ((_, false) ∷ rounds) = []

unfoldable sync_to_slaves : Storage → Bool × Storage
sync_to_slaves s = (true, s)

unfoldable sync_from_master : Storage → Bool × Storage
sync_from_master s = (true, s)

-- what a slave reads, in one read, of what it was sent
abbrev reads_of : Sent → List Read
reads_of unsent = ended ∷ []
reads_of (sent snapshot held) = got snapshot ∷ []

handle_master_commands-keeps :
    (reads : List Read) (s : Storage) → (handle_master_commands reads s).1 ≡ s
handle_master_commands-keeps reads s =
    ap (λ (r : List Verdict × Storage). r.1) (handle_master_commands_lem reads s)

handle_slave_connection-init :
    (s : Storage) (how : Bool × ℕ)
    → handle_slave_connection s how ≡ handle_slave_connection init how
unfolding handle_slave_connection generate_storage_snapshot
handle_slave_connection-init s how = refl

-- Every slave that a running master accepts is sent the same bytes, or nothing if the write fails,
-- whatever the storage holds; accepts that fail are passed over; and a slave that reads what it was
-- sent keeps the storage that it had.
master_accept_loop_lem :
    (rounds : List (Accept (Storage × (Bool × ℕ)) × Bool)) (to : Storage)
    → (master_accept_loop true rounds
        ≡ map (λ (x : Storage × (Bool × ℕ)). handle_slave_connection init x.1) (connections rounds))
      × All (λ x. (handle_master_commands (reads_of x) to).1 ≡ to) (master_accept_loop true rounds)
unfolding master_accept_loop
master_accept_loop_lem [] to = (refl, tt)
master_accept_loop_lem ((accepted (s, how), true) ∷ rounds) to =
    let (same, kept) = master_accept_loop_lem rounds to in
    (
      rw (same, handle_slave_connection-init s how) refl,
      (handle_master_commands-keeps (reads_of (handle_slave_connection s how)) to, kept),
    )
master_accept_loop_lem ((unaccepted, true) ∷ rounds) to = master_accept_loop_lem rounds to
master_accept_loop_lem ((crashed, true) ∷ rounds) to = master_accept_loop_lem rounds to
master_accept_loop_lem ((accepted x, false) ∷ rounds) to = (refl, tt)
master_accept_loop_lem ((unaccepted, false) ∷ rounds) to = (refl, tt)
master_accept_loop_lem ((crashed, false) ∷ rounds) to = (refl, tt)
