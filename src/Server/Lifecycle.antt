-- ===== src/Server/Lifecycle.antt =====
-- What runs after a server's managers were started and stopped (RediCraft-Server/src/server.cpp).
use redi_craft.Prelude.{
  ◌≡◌, Bool, true, false, Option, none, some, List, [], ◌∷◌, arith, All, Bytes,
}
use redi_craft.Prelude.Int.{ℤ}
use redi_craft.Server.{
  Host, Server, with_role, start_role, enable_replication, stop_role, stop_replication,
  disable_replication, cluster_or_new, enable_clustering, stop_clustering, disable_clustering,
  add_cluster_node, remove_cluster_node, stop,
}
use redi_craft.Replication
use redi_craft.Cluster

pub data Event : Type 0 where
  enable_replication_as : Host → Replication.ReplicationRole → Bytes → ℤ → Event
  enable_clustering_on : Host → Event
  disable_replication_now disable_clustering_now stop_now : Event
  add_node_at : Bytes → ℤ → Bool → Event
  remove_node_at : Bytes → ℤ → Event

unfoldable pub apply : Event → Server → Server
apply (enable_replication_as host role master_host port) s =
    enable_replication host role master_host port s
apply (enable_clustering_on host) s = enable_clustering host s
apply disable_replication_now s = disable_replication s
apply disable_clustering_now s = disable_clustering s
apply stop_now s = stop s
apply (add_node_at host port is_master) s = add_cluster_node host port is_master s
apply (remove_node_at host port) s = remove_cluster_node host port s

unfoldable pub run : List Event → Server → Server
run [] s = s
run (e ∷ es) s = run es (apply e s)

-- A replication manager that runs no master has no thread in master_threads_.
abbrev pub IsQuietMaster : Option Replication.ReplicationManager → Type 0
IsQuietMaster none = Unit
IsQuietMaster (some m) = m.master_running ≡ false → m.master_threads ≡ 0

-- A cluster manager that does not run has no thread in cluster_threads_.
abbrev pub IsQuietCluster : Option Cluster.ClusterManager → Type 0
IsQuietCluster none = Unit
IsQuietCluster (some m) = m.cluster_running ≡ false → m.cluster_threads ≡ 0

pub record HasNoStrayThread (s : Server) : Type 0 where
  pub master : IsQuietMaster s.replication_manager
  pub cluster : IsQuietCluster s.cluster_manager

-- A start that fails has made no threads: the exception comes from the listener.
abbrev pub IsSteady : Host → Type 0
IsSteady host = host.listens ≡ false → host.made ≡ 0

abbrev pub IsSteadyEvent : Event → Type 0
IsSteadyEvent (enable_replication_as host role master_host port) = IsSteady host
IsSteadyEvent (enable_clustering_on host) = IsSteady host
IsSteadyEvent _ = Unit

IsQuietMaster-enable :
    (host : Host) (role : Replication.ReplicationRole) (master_host : Bytes) (port : ℤ)
    (o : Option Replication.ReplicationManager)
    → IsSteady host
    → IsQuietMaster o
    → IsQuietMaster (some (start_role host role master_host port (with_role role o)))
unfolding start_role with_role Replication.start_master Replication.start_slave
    Replication.set_replication_role
IsQuietMaster-enable host Replication.master master_host port none q h = ground arith
IsQuietMaster-enable host Replication.master master_host port (some m) q h = ground arith
IsQuietMaster-enable host Replication.slave master_host port none q h = ground arith
IsQuietMaster-enable host Replication.slave master_host port (some m) q h = ground arith

IsQuietMaster-stop :
    (o : Option Replication.ReplicationManager)
    → IsQuietMaster o
    → IsQuietMaster (stop_replication o)
unfolding stop_replication Replication.stop_master Replication.stop_slave
IsQuietMaster-stop none h = tt
IsQuietMaster-stop (some m) h = stopped m.role
  where
    stopped : (role : Replication.ReplicationRole) → IsQuietMaster (some (stop_role role m))
    stopped Replication.master = ground arith
    stopped Replication.slave = ground arith

IsQuietCluster-enable :
    (host : Host) (s : Server)
    → IsSteady host
    → IsQuietCluster s.cluster_manager
    → IsQuietCluster (enable_clustering host s).cluster_manager
unfolding enable_clustering Cluster.start_cluster Cluster.start_node_discovery
IsQuietCluster-enable host s q h = from s.cluster_manager h
  where
    from :
        (o : Option Cluster.ClusterManager)
        → IsQuietCluster o
        → IsQuietCluster (
            some (
              Cluster.start_node_discovery
                (Cluster.start_cluster host.listens host.cores host.made (cluster_or_new o))))
    from none k = ground arith
    from (some m) k = ground arith

IsQuietCluster-stop :
    (o : Option Cluster.ClusterManager) → IsQuietCluster o → IsQuietCluster (stop_clustering o)
unfolding stop_clustering Cluster.stop_cluster Cluster.stop_node_discovery
IsQuietCluster-stop none h = tt
IsQuietCluster-stop (some m) h = ground arith

IsQuietCluster-add :
    (host : Bytes) (port : ℤ) (is_master : Bool) (s : Server)
    → IsQuietCluster s.cluster_manager
    → IsQuietCluster (add_cluster_node host port is_master s).cluster_manager
unfolding add_cluster_node Cluster.add_node
IsQuietCluster-add host port is_master s h = from s.cluster_manager h
  where
    from :
        (o : Option Cluster.ClusterManager)
        → IsQuietCluster o
        → IsQuietCluster (elim o as (λ _. Option Cluster.ClusterManager) [
          | none ↦ none
          | some m ↦ some (Cluster.add_node host port is_master m)
        ])
    from none k = tt
    from (some m) k = k

IsQuietCluster-remove :
    (host : Bytes) (port : ℤ) (s : Server)
    → IsQuietCluster s.cluster_manager
    → IsQuietCluster (remove_cluster_node host port s).cluster_manager
unfolding remove_cluster_node Cluster.remove_node
IsQuietCluster-remove host port s h = from s.cluster_manager h
  where
    from :
        (o : Option Cluster.ClusterManager)
        → IsQuietCluster o
        → IsQuietCluster (elim o as (λ _. Option Cluster.ClusterManager) [
          | none ↦ none
          | some m ↦ some (Cluster.remove_node host port m)
        ])
    from none k = tt
    from (some m) k = k

pub apply-HasNoStrayThread :
    (e : Event) (s : Server) → IsSteadyEvent e → HasNoStrayThread s → HasNoStrayThread (apply e s)
unfolding apply enable_replication enable_clustering disable_replication disable_clustering stop
    add_cluster_node remove_cluster_node
apply-HasNoStrayThread (enable_replication_as host role master_host port) s q h = record {
  master = IsQuietMaster-enable host role master_host port s.replication_manager q h.master;
  cluster = h.cluster;
}
apply-HasNoStrayThread (enable_clustering_on host) s q h = record {
  master = h.master;
  cluster = IsQuietCluster-enable host s q h.cluster;
}
apply-HasNoStrayThread disable_replication_now s q h = record {
  master = IsQuietMaster-stop s.replication_manager h.master;
  cluster = h.cluster;
}
apply-HasNoStrayThread disable_clustering_now s q h = record {
  master = h.master;
  cluster = IsQuietCluster-stop s.cluster_manager h.cluster;
}
apply-HasNoStrayThread stop_now s q h = record {
  master = IsQuietMaster-stop s.replication_manager h.master;
  cluster = IsQuietCluster-stop s.cluster_manager h.cluster;
}
apply-HasNoStrayThread (add_node_at host port is_master) s q h = record {
  master = h.master;
  cluster = IsQuietCluster-add host port is_master s h.cluster;
}
apply-HasNoStrayThread (remove_node_at host port) s q h = record {
  master = h.master;
  cluster = IsQuietCluster-remove host port s h.cluster;
}

-- Whatever is started, stopped, added and removed, a replication manager that runs no master has no
-- thread in master_threads_, and a cluster manager that does not run has none in cluster_threads_, if
-- no start fails after it has made a thread and the server began so. The threads of a slave, of the
-- node discovery and of single connections are not counted.
pub run-HasNoStrayThread :
    (es : List Event) (s : Server)
    → All IsSteadyEvent es
    → HasNoStrayThread s
    → HasNoStrayThread (run es s)
unfolding run
run-HasNoStrayThread [] s q h = h
run-HasNoStrayThread (e ∷ es) s (qe, q) h =
    run-HasNoStrayThread es (apply e s) q (apply-HasNoStrayThread e s qe h)

abbrev pub master_runs : Option Replication.ReplicationManager → Bool
master_runs none = false
master_runs (some m) = m.master_running

abbrev pub cluster_runs : Option Cluster.ClusterManager → Bool
cluster_runs none = false
cluster_runs (some m) = m.cluster_running

abbrev slave_runs : Option Replication.ReplicationManager → Bool
slave_runs none = false
slave_runs (some m) = m.slave_connected

-- A server with no replication manager runs neither a master nor a slave after its replication was
-- enabled in one role and then disabled, or the server stopped.
disable_ends_replication :
    (host : Host) (role : Replication.ReplicationRole) (master_host : Bytes) (port : ℤ) (s : Server)
    → s.replication_manager ≡ none
    → let on = enable_replication_as host role master_host port in
      (master_runs (run (on ∷ disable_replication_now ∷ []) s).replication_manager ≡ false)
      × (slave_runs (run (on ∷ disable_replication_now ∷ []) s).replication_manager ≡ false)
      × (master_runs (run (on ∷ stop_now ∷ []) s).replication_manager ≡ false)
      × (slave_runs (run (on ∷ stop_now ∷ []) s).replication_manager ≡ false)
unfolding run apply enable_replication disable_replication stop start_role with_role
    stop_replication stop_role Replication.start_master Replication.start_as_master
    Replication.start_slave Replication.start_as_slave Replication.stop_master
    Replication.stop_slave Replication.set_replication_role
disable_ends_replication host Replication.master master_host port s h = rw h (ground arith)
disable_ends_replication host Replication.slave master_host port s h = rw h (ground arith)

-- If a server with no replication manager becomes a master whose listener can be opened, and is then
-- made a slave, disabling its replication or stopping the server leaves the master running.
pub master_outlives_stop :
    (host host' : Host) (master_host : Bytes) (port port' : ℤ) (s : Server)
    → s.replication_manager ≡ none
    → host.listens ≡ true
    → let on = enable_replication_as host Replication.master [] port in
      let switch = enable_replication_as host' Replication.slave master_host port' in
      (master_runs (run (on ∷ switch ∷ disable_replication_now ∷ []) s).replication_manager ≡ true)
      × (master_runs (run (on ∷ switch ∷ stop_now ∷ []) s).replication_manager ≡ true)
unfolding run apply enable_replication disable_replication stop start_role with_role
    stop_replication stop_role Replication.start_master Replication.start_as_master
    Replication.start_slave Replication.start_as_slave Replication.stop_master
    Replication.stop_slave Replication.set_replication_role
master_outlives_stop host host' master_host port port' s h l = rw h (ground (arith, l))
