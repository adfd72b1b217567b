-- ===== src/Tests/Loops.antt =====
-- The theorems on the loops of the threads (RediCraft-Server/src/cluster.cpp, replication.cpp,
-- persistence.cpp, benchmark.cpp) at concrete inputs.
use redi_craft.Prelude.{
  ◌≡◌, refl, Bool, true, false, none, some, List, [], ◌∷◌, arith, Bytes, codes, bytes_eq,
}
use redi_craft.Prelude.Int.{ℤ, pos}
use redi_craft.Table.{find}
use redi_craft.Number.{to_string}
use redi_craft.Storage.{init}
use redi_craft.Storage.Strings.{get}
use redi_craft.Sockets.{got, ended}
use redi_craft.Replication.Slave.{
  Attempt, slave_connect_loop, slave_connect_loop_lem, refused, connected,
}
use redi_craft.Cluster.{ClusterManager, int_eq, unread}
use redi_craft.Cluster.Loops.{node_discovery_loop, network, node_discovery_loop_lem}
use redi_craft.Replication.{process_replication_command, applying_set, unknown_command}
use redi_craft.Persistence.{is_saved, load_from_file}
use redi_craft.Persistence.Background.{Save, auto_persistence_loop, get-auto_persistence_loop}
use redi_craft.Benchmark.{counter_for, run}
use redi_craft.Benchmark.Laws.{run_lem}
use redi_craft.Tests.{soon, later, other, small}
use redi_craft.Tests.Files.{saving, loading, small-IsSavable}

-- The master is found at the second attempt, sends two commands and closes the connection.
abbrev attempts : List Attempt
attempts =
    refused
    ∷ connected (got (codes "SET k v") ∷ got (codes "PING") ∷ ended ∷ got (codes "DEL k") ∷ [])
    ∷ []

slave_connect_loop_lem_example :
    slave_connect_loop attempts small
    ≡ record { reports = applying_set ∷ unknown_command ∷ []; slept = 5; storage = small }
unfolding process_replication_command bytes_eq
slave_connect_loop_lem_example = slave_connect_loop_lem attempts small

-- a node that nothing has been heard of yet, and one that has been given up
abbrev two_nodes : ClusterManager
two_nodes = record {
  nodes =
      record { host = codes "a"; port = pos 1; is_master = true; is_alive = true }
      ∷ record { host = codes "b"; port = pos 2; is_master = false; is_alive = false }
      ∷ [];
  cluster_running = true;
  cluster_threads = 3;
  discovery_running = true;
}

abbrev only_second : Bytes → ℤ → Bool
only_second host port = int_eq port (pos 2)

node_discovery_loop_lem_example :
    node_discovery_loop ((λ host port. unread) ∷ network only_second ∷ []) two_nodes ≡ (
      10,
      record two_nodes {
        nodes =
            record { host = codes "a"; port = pos 1; is_master = true; is_alive = false }
            ∷ record { host = codes "b"; port = pos 2; is_master = false; is_alive = true }
            ∷ [];
      },
    )
unfolding int_eq
node_discovery_loop_lem_example =
    node_discovery_loop_lem only_second ((λ host port. unread) ∷ []) two_nodes

abbrev first_save : Save
first_save = record { now = saving; opens = true; storage = small; throws = false }

abbrev lost_save : Save
lost_save = record { now = saving; opens = false; storage = init; throws = false }

get-auto_persistence_loop_example :
    (get later other
      (load_from_file loading
        (auto_persistence_loop (pos 60) (first_save ∷ lost_save ∷ []) none).0
        init).1).0
    ≡ some (codes "8")
unfolding find bytes_eq is_saved
get-auto_persistence_loop_example =
    get-auto_persistence_loop (pos 60) loading [] first_save (lost_save ∷ []) none later other refl
      (refl, tt) small-IsSavable

run_lem_example :
    ((run
        ((soon, (3, 10)) ∷ (soon, (4, 20)) ∷ [])
        ((soon, 4) ∷ (soon, 9) ∷ (later, 4) ∷ [])
        ((later, 7) ∷ (later, 3) ∷ (later, 7) ∷ [])).0
      ≡ 2)
    × ((get later
          (counter_for 7)
          (run
            ((soon, (3, 10)) ∷ (soon, (4, 20)) ∷ [])
            ((soon, 4) ∷ (soon, 9) ∷ (later, 4) ∷ [])
            ((later, 7) ∷ (later, 3) ∷ (later, 7) ∷ [])).1).0
        ≡ some (to_string (pos 2)))
run_lem_example =
    run_lem ((soon, (3, 10)) ∷ (soon, (4, 20)) ∷ []) ((soon, 4) ∷ (soon, 9) ∷ (later, 4) ∷ [])
      ((later, 7) ∷ (later, 3) ∷ (later, 7) ∷ []) later 7 (omega arith)
