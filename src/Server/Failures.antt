-- ===== src/Server/Failures.antt =====
-- The destructor of a server behind starts and stops of its managers
-- (RediCraft-Server/src/server.cpp, replication.cpp, cluster.cpp), and of the one that main starts
-- (src/main.cpp).
use redi_craft.Prelude.{
  ◌≡◌, refl, true, inl, inr, Option, none, some, List, [], ◌∷◌, arith, Bool-cases, Bytes, codes,
  bytes_eq,
}
use redi_craft.Config.{ClusterNodeConfig, Config}
use redi_craft.Server.Startup.{configure_replication, add_nodes, configure_clustering, configure}
use redi_craft.Prelude.Int.{ℤ}
use redi_craft.Server.{
  Host, Server, new_server, start, destroy_cluster, destroy_replication, destroy,
}
use redi_craft.Server.Lifecycle.{
  apply, IsSteady, apply-HasNoStrayThread, enable_replication_as, enable_clustering_on, add_node_at,
  HasNoStrayThread, IsQuietMaster, IsQuietCluster,
}
use redi_craft.Replication
use redi_craft.Cluster

destroy_replication-IsQuietMaster :
    (o : Option Replication.ReplicationManager) → IsQuietMaster o → destroy_replication o ≡ true
unfolding destroy_replication Replication.destroy Replication.stop_master Replication.stop_slave
destroy_replication-IsQuietMaster none h = refl
destroy_replication-IsQuietMaster (some m) h = ground arith

destroy_cluster-IsQuietCluster :
    (o : Option Cluster.ClusterManager) → IsQuietCluster o → destroy_cluster o ≡ true
unfolding destroy_cluster Cluster.destroy Cluster.stop_cluster Cluster.stop_node_discovery
destroy_cluster-IsQuietCluster none h = refl
destroy_cluster-IsQuietCluster (some m) h = ground arith

pub destroy-HasNoStrayThread : (s : Server) → HasNoStrayThread s → destroy s ≡ true
unfolding destroy
destroy-HasNoStrayThread s h =
    rw
      (
        destroy_cluster-IsQuietCluster s.cluster_manager h.cluster,
        destroy_replication-IsQuietMaster s.replication_manager h.master,
      )
      refl

configure_replication-HasNoStrayThread :
    (host : Host) (config : Config) (s : Server)
    → IsSteady host
    → HasNoStrayThread s
    → HasNoStrayThread (configure_replication host config s)
unfolding configure_replication apply
configure_replication-HasNoStrayThread host config s q h =
    elim (Bool-cases config.replication_enabled) [
      | inr off ↦ rw (off, configure_replication) h
      | inl enabled ↦ elim (Bool-cases (bytes_eq config.replication_role (codes "master"))) [
        | inl is_master ↦
            rw (enabled, is_master, configure_replication)
              (on Replication.master [] config.replication_port)
        | inr other ↦ elim (Bool-cases (bytes_eq config.replication_role (codes "slave"))) [
          | inl is_slave ↦
              rw (enabled, other, is_slave, configure_replication)
                (on Replication.slave config.master_host config.master_port)
          | inr neither ↦ rw (enabled, other, neither, configure_replication) h
        ]
      ]
    ]
  where
    on :
        (role : Replication.ReplicationRole) (master_host : Bytes) (port : ℤ)
        → HasNoStrayThread (apply (enable_replication_as host role master_host port) s)
    on role master_host port =
        apply-HasNoStrayThread (enable_replication_as host role master_host port) s q h

add_nodes-HasNoStrayThread :
    (nodes : List ClusterNodeConfig) (s : Server)
    → HasNoStrayThread s
    → HasNoStrayThread (add_nodes nodes s)
unfolding add_nodes apply
add_nodes-HasNoStrayThread [] s h = h
add_nodes-HasNoStrayThread (node ∷ rest) s h =
    add_nodes-HasNoStrayThread rest _
      (apply-HasNoStrayThread (add_node_at node.host node.port node.is_master) s tt h)

configure_clustering-HasNoStrayThread :
    (host : Host) (config : Config) (s : Server)
    → IsSteady host
    → HasNoStrayThread s
    → HasNoStrayThread (configure_clustering host config s)
unfolding configure_clustering apply
configure_clustering-HasNoStrayThread host config s q h =
    elim (Bool-cases config.clustering_enabled) [
      | inl on ↦
          rw (on, configure_clustering)
            (add_nodes-HasNoStrayThread config.cluster_nodes _
              (apply-HasNoStrayThread (enable_clustering_on host) s q h))
      | inr off ↦ rw (off, configure_clustering) h
    ]

-- the destructor of the server that main starts
pub destroy-configure :
    (host : Host) (config : Config) → IsSteady host → destroy (configure host config) ≡ true
unfolding configure start configure_clustering destroy
destroy-configure host config steady =
    let began : HasNoStrayThread new_server = record { master = tt; cluster = tt } in
    destroy-HasNoStrayThread _ (
      configure_clustering-HasNoStrayThread host config _ steady
        (configure_replication-HasNoStrayThread host config new_server steady began))
