-- ===== src/Cluster/Health.antt =====
-- isClusterHealthy and the list of nodes (RediCraft-Server/src/cluster.cpp).
use redi_craft.Prelude.{
  ◌*◌, ◌≤◌, ◌≡◌, refl, ◌≢◌, ◌↔◌, true, List, [], ◌∷◌, arith, leb→le, le→leb, length,
}
use redi_craft.Cluster.{ClusterNode, ClusterManager, alive_nodes, health, is_cluster_healthy}

-- The cluster is healthy exactly if it has nodes and at least half of them are alive.
is_cluster_healthy_iff :
    (m : ClusterManager)
    → (is_cluster_healthy m ≡ true) ↔ ((m.nodes ≢ []) × (length m.nodes ≤ 2 * alive_nodes m.nodes))
unfolding is_cluster_healthy
is_cluster_healthy_iff m = from m.nodes
  where
    from :
        (ns : List ClusterNode)
        → (health ns ≡ true) ↔ ((ns ≢ []) × (length ns ≤ 2 * alive_nodes ns))
    from [] = (λ h. absurd (cc h), λ h. absurd (h.0 refl))
    from (n ∷ ns) = (λ h. (cc, omega (arith, leb→le _ _ h)), λ h. le→leb _ _ (omega arith))
