-- ===== src/Server.antt =====
-- Server (RediCraft-Server/src/server.cpp, include/server.h) and the start-up of main
-- (src/main.cpp). The clients' sessions are in Session. `Host` is what the machine answers while a
-- manager starts: whether its listener, socket and threads could be made, hardware_concurrency(), and
-- how many threads were made before an exception. The discovery thread is taken to be made.
pub mod Lifecycle
pub mod Startup
pub mod Failures
pub mod Clients
pub mod Typed
pub mod Decoded
pub mod Unordered
pub mod Answers
pub mod Main
use redi_craft.Prelude.{ℕ, Bool, true, false, ◌&&◌, Option, none, some, Bytes}
use redi_craft.Table.{is_some}
use redi_craft.Prelude.Int.{ℤ}
use redi_craft.Replication.{
  ReplicationRole, ReplicationManager, new_manager, set_replication_role, start_master, stop_master,
  start_slave, stop_slave, master, slave,
}
use redi_craft.Cluster.{
  ClusterManager, add_node, remove_node, start_cluster, stop_cluster, start_node_discovery,
  stop_node_discovery,
}
use redi_craft.Replication
use redi_craft.Cluster

pub record Host : Type 0 where
  pub listens : Bool
  pub cores : ℕ
  pub made : ℕ

pub record Server : Type 0 where
  pub accepting : Bool
  pub replication_manager : Option ReplicationManager
  pub replication_enabled : Bool
  pub cluster_manager : Option ClusterManager
  pub clustering_enabled : Bool

-- the constructor, before start()
abbrev pub new_server : Server
new_server = record {
  accepting = false;
  replication_manager = none;
  replication_enabled = false;
  cluster_manager = none;
  clustering_enabled = false;
}

-- start(): accepts can bring clients from now on (Server.Clients)
unfoldable pub start : Server → Server
start server = record server { accepting = true }

-- the manager for a role: a new one, or the one that is there with its role changed
unfoldable pub with_role : ReplicationRole → Option ReplicationManager → ReplicationManager
with_role role none = Replication.new_manager role
with_role role (some m) = Replication.set_replication_role role m

unfoldable pub start_role :
    Host → ReplicationRole → Bytes → ℤ → ReplicationManager → ReplicationManager
start_role host master master_host master_port m =
    Replication.start_master host.listens host.cores host.made m
start_role host slave master_host master_port m =
    Replication.start_slave host.listens master_host master_port m

unfoldable pub enable_replication : Host → ReplicationRole → Bytes → ℤ → Server → Server
unfolding with_role start_role
enable_replication host role master_host master_port server = record server {
  replication_manager =
      some
        (start_role host role master_host master_port (with_role role server.replication_manager));
  replication_enabled = true;
}

-- stopMaster or stopSlave, by the role
unfoldable pub stop_role : ReplicationRole → ReplicationManager → ReplicationManager
stop_role master m = Replication.stop_master m
stop_role slave m = Replication.stop_slave m

unfoldable pub stop_replication : Option ReplicationManager → Option ReplicationManager
unfolding stop_role
stop_replication none = none
stop_replication (some m) = some (stop_role m.role m)

unfoldable pub disable_replication : Server → Server
unfolding stop_replication
disable_replication server = record server {
  replication_manager = stop_replication server.replication_manager;
  replication_enabled = false;
}

unfoldable pub cluster_or_new : Option ClusterManager → ClusterManager
cluster_or_new none = Cluster.new_manager
cluster_or_new (some m) = m

unfoldable pub enable_clustering : Host → Server → Server
unfolding cluster_or_new
enable_clustering host server =
    let m =
      Cluster.start_cluster host.listens host.cores host.made
        (cluster_or_new server.cluster_manager) in
    record server {
      cluster_manager = some (Cluster.start_node_discovery m);
      clustering_enabled = true;
    }

unfoldable pub stop_clustering : Option ClusterManager → Option ClusterManager
stop_clustering none = none
stop_clustering (some m) = some (Cluster.stop_node_discovery (Cluster.stop_cluster m))

unfoldable pub disable_clustering : Server → Server
unfolding stop_clustering
disable_clustering server = record server {
  cluster_manager = stop_clustering server.cluster_manager;
  clustering_enabled = false;
}

unfoldable pub add_cluster_node : Bytes → ℤ → Bool → Server → Server
add_cluster_node host port is_master server = record server {
  cluster_manager = elim server.cluster_manager [
    | none ↦ none
    | some m ↦ some (Cluster.add_node host port is_master m)
  ];
}

unfoldable pub remove_cluster_node : Bytes → ℤ → Server → Server
remove_cluster_node host port server = record server {
  cluster_manager = elim server.cluster_manager [
    | none ↦ none
    | some m ↦ some (Cluster.remove_node host port m)
  ];
}

unfoldable pub stop : Server → Server
unfolding stop_replication stop_clustering
stop server = record server {
  accepting = false;
  replication_manager = stop_replication server.replication_manager;
  cluster_manager = stop_clustering server.cluster_manager;
}

unfoldable pub destroy_cluster : Option ClusterManager → Bool
destroy_cluster none = true
destroy_cluster (some m) = is_some (Cluster.destroy m)

unfoldable pub destroy_replication : Option ReplicationManager → Bool
destroy_replication none = true
destroy_replication (some m) = is_some (Replication.destroy m)

-- the implicit destructor, by the members that it destroys, the last one first: whether it returns,
-- or std::terminate ends the process in it
unfoldable pub destroy : Server → Bool
unfolding destroy_cluster destroy_replication
destroy server =
    destroy_cluster server.cluster_manager && destroy_replication server.replication_manager
