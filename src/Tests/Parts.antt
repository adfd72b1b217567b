-- ===== src/Tests/Parts.antt =====
-- The theorems on the configuration, the managers and the server (RediCraft-Server/src/config.cpp,
-- cluster.cpp, replication.cpp, server.cpp, main.cpp) at concrete inputs.
use redi_craft.Config.Accessors.{
  Setting, number, text, flag, port_key, host_key, clustering_enabled_key,
}
use redi_craft.Prelude.{◌≡◌, refl, true, false, some, List, [], ◌∷◌, ◌++◌, Bytes, codes}
use redi_craft.Prelude.Int.{pos}
use redi_craft.Config.{default_config, load}
use redi_craft.Server.{Host, new_server}
use redi_craft.Server.Lifecycle.{
  Event, run, HasNoStrayThread, run-HasNoStrayThread, master_runs, master_outlives_stop,
  enable_replication_as, enable_clustering_on, disable_replication_now, stop_now,
}
use redi_craft.Server.Startup.{configure, nodes_of, configure_no_nodes}
use redi_craft.Cluster
use redi_craft.Replication

abbrev host : Host
host = record { listens = true; cores = 2; made = 0 }

abbrev config_text : Bytes
config_text = codes "clustering_enabled=true" ++ (10 ∷ codes "cluster_node=localhost:7382:true")

configure_no_nodes_example :
    nodes_of (configure host (load (some config_text) default_config).1).cluster_manager ≡ []
configure_no_nodes_example = configure_no_nodes host (some config_text)

abbrev as_master : Event
as_master = enable_replication_as host Replication.master [] (pos 7380)

run-HasNoStrayThread_example :
    HasNoStrayThread (run (as_master ∷ enable_clustering_on host ∷ stop_now ∷ []) new_server)
run-HasNoStrayThread_example =
    run-HasNoStrayThread (as_master ∷ enable_clustering_on host ∷ stop_now ∷ []) new_server
      (λ _. refl, (λ _. refl, (tt, tt))) (record { master = tt; cluster = tt })

abbrev as_slave : Event
as_slave = enable_replication_as host Replication.slave (codes "localhost") (pos 7390)

master_outlives_stop_example :
    (master_runs
        (run (as_master ∷ as_slave ∷ disable_replication_now ∷ []) new_server).replication_manager
      ≡ true)
    × (master_runs (run (as_master ∷ as_slave ∷ stop_now ∷ []) new_server).replication_manager
        ≡ true)
master_outlives_stop_example =
    master_outlives_stop host host (codes "localhost") (pos 7380) (pos 7390) new_server refl refl

-- The fourth thread of a start cannot be made.
abbrev narrow : Host
narrow = record { listens = false; cores = 8; made = 3 }

abbrev before : List Event
before = as_master ∷ enable_clustering_on host ∷ stop_now ∷ []

abbrev port_lines : List Setting
port_lines = number port_key (pos 7379) ∷ text host_key (codes "h") ∷ []

abbrev more_lines : List Setting
more_lines = flag clustering_enabled_key true ∷ []
