-- ===== src/Server/Startup.antt =====
-- main (RediCraft-Server/src/main.cpp): the server that a configuration starts.
use redi_craft.Prelude.{
  ◌≡◌, refl, inl, inr, Option, none, some, List, [], ◌∷◌, arith, if◌then◌else◌, Bool-cases, Bytes,
  codes, bytes_eq,
}
use redi_craft.Config.{ClusterNodeConfig, Config, default_config, load}
use redi_craft.Config.Nodes.{cluster_nodes-load}
use redi_craft.Server.{
  Host, Server, new_server, start, enable_replication, enable_clustering, add_cluster_node,
}
use redi_craft.Replication.{master, slave}
use redi_craft.Cluster.{ClusterNode, ClusterManager, start_cluster, start_node_discovery}
use redi_craft.Replication
use redi_craft.Cluster

-- the replication that the configuration asks for; another role starts none
unfoldable pub configure_replication : Host → Config → Server → Server
configure_replication host config server =
    if config.replication_enabled
    then (if bytes_eq config.replication_role (codes "master")
        then enable_replication host Replication.master [] config.replication_port server
        else if bytes_eq config.replication_role (codes "slave")
        then enable_replication host Replication.slave config.master_host config.master_port server
        else server)
    else server

unfoldable pub add_nodes : List ClusterNodeConfig → Server → Server
add_nodes [] server = server
add_nodes (node ∷ rest) server =
    add_nodes rest (add_cluster_node node.host node.port node.is_master server)

unfoldable pub configure_clustering : Host → Config → Server → Server
unfolding add_nodes
configure_clustering host config server =
    if config.clustering_enabled
    then add_nodes config.cluster_nodes (enable_clustering host server)
    else server

-- main, up to the threads that run the io_context
unfoldable pub configure : Host → Config → Server
configure host config =
    start (configure_clustering host config (configure_replication host config new_server))

-- the nodes of the server's cluster
abbrev pub nodes_of : Option Cluster.ClusterManager → List Cluster.ClusterNode
nodes_of none = []
nodes_of (some m) = m.nodes

cluster_manager-replication :
    (host : Host) (config : Config) (server : Server)
    → (configure_replication host config server).cluster_manager ≡ server.cluster_manager
unfolding configure_replication enable_replication
cluster_manager-replication host config server = ground arith

nodes_of-enable_clustering :
    (host : Host) (server : Server)
    → server.cluster_manager ≡ none
    → nodes_of (enable_clustering host server).cluster_manager ≡ []
unfolding enable_clustering Cluster.start_cluster Cluster.start_node_discovery
nodes_of-enable_clustering host server h = ground (arith, h)

nodes_of-configure_clustering :
    (host : Host) (config : Config) (server : Server)
    → config.cluster_nodes ≡ []
    → server.cluster_manager ≡ none
    → nodes_of (configure_clustering host config server).cluster_manager ≡ []
unfolding configure_clustering
nodes_of-configure_clustering host config server h e = elim (Bool-cases config.clustering_enabled) [
  | inl on ↦
      rw (on, configure_clustering) (rw (h, add_nodes) (nodes_of-enable_clustering host server e))
  | inr off ↦ rw (off, configure_clustering) (rw e refl)
]

-- Whatever stands in the configuration file, main starts a server whose cluster has no node: the
-- cluster_node lines of the file are lost.
pub configure_no_nodes :
    (host : Host) (file : Option Bytes)
    → nodes_of (configure host (load file default_config).1).cluster_manager ≡ []
unfolding configure start
configure_no_nodes host file =
    let config = (load file default_config).1 in
    nodes_of-configure_clustering host config (configure_replication host config new_server)
      (cluster_nodes-load file default_config) (cluster_manager-replication host config new_server)
