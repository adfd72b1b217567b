-- ===== src/Cluster/Loops.antt =====
-- The loops of the cluster's threads (RediCraft-Server/src/cluster.cpp). What the network answers in
-- each round is an argument; a list of rounds ends where the loop's flag is found cleared.
use redi_craft.Prelude.{
  ℕ, suc, ◌+◌, ◌*◌, ◌≡◌, refl, ap, ◌∙◌, Bool, true, false, List, [], ◌∷◌, ◌++◌, map, arith,
  if◌then◌else◌, length, Bytes, codes, bytes_eq,
}
use redi_craft.Prelude.Int.{ℤ}
use redi_craft.Sockets.{
  Read, Accept, received, connections, got, ended, failed, threw, accepted, unaccepted, crashed,
}
use redi_craft.Cluster.{
  ClusterNode, ClusterManager, starts_with, node_reply, contains, Outcome, ping_text, ping_node,
  ping_each, ping_nodes, unresolved, refused, unsent, unread, thrown, answered,
}

-- handleNodeConnection: what is written to the node, a write that fails included
unfoldable pub handle_node_connection : List Read → List Bytes
handle_node_connection [] = []
handle_node_connection (got command ∷ rest) = node_reply command ∷ handle_node_connection rest
handle_node_connection (ended ∷ rest) = []
handle_node_connection (failed ∷ rest) = []
handle_node_connection (threw ∷ rest) = []

-- clusterAcceptLoop, behind its test of the acceptor: what the connections' threads write
unfoldable cluster_accept_loop : Bool → List (Accept (List Read) × Bool) → List (List Bytes)
unfolding handle_node_connection
cluster_accept_loop false rounds = []
cluster_accept_loop true [] = []
cluster_accept_loop true ((accepted reads, true) ∷ rounds) =
    handle_node_connection reads ∷ cluster_accept_loop true rounds
cluster_accept_loop true ((unaccepted, true) ∷ rounds) = cluster_accept_loop true rounds
cluster_accept_loop true ((crashed, true) ∷ rounds) = cluster_accept_loop true rounds
cluster_accept_loop true ((_, false) ∷ rounds) = []

-- nodeDiscoveryLoop: the network in each round; the seconds slept and the nodes
unfoldable pub node_discovery_loop :
    List (Bytes → ℤ → Outcome) → ClusterManager → ℕ × ClusterManager
node_discovery_loop [] m = (0, m)
node_discovery_loop (net ∷ rounds) m =
    let (slept, m') = node_discovery_loop rounds (ping_nodes net m) in (5 + slept, m')

handle_node_connection_lem :
    (reads : List Read) → handle_node_connection reads ≡ map node_reply (received reads)
unfolding handle_node_connection
handle_node_connection_lem [] = refl
handle_node_connection_lem (got command ∷ rest) =
    ap (λ t. node_reply command ∷ t) (handle_node_connection_lem rest)
handle_node_connection_lem (ended ∷ rest) = refl
handle_node_connection_lem (failed ∷ rest) = refl
handle_node_connection_lem (threw ∷ rest) = refl

-- A running listener answers each node that it accepts, one answer for each command that is read
-- before a read fails; accepts and reads that fail take nothing from the other nodes.
cluster_accept_loop_lem :
    (rounds : List (Accept (List Read) × Bool))
    → cluster_accept_loop true rounds
      ≡ map (λ (reads : List Read). map node_reply (received reads)) (connections rounds)
unfolding cluster_accept_loop
cluster_accept_loop_lem [] = refl
cluster_accept_loop_lem ((accepted reads, true) ∷ rounds) =
    rw (handle_node_connection_lem reads, cluster_accept_loop_lem rounds) refl
cluster_accept_loop_lem ((unaccepted, true) ∷ rounds) = cluster_accept_loop_lem rounds
cluster_accept_loop_lem ((crashed, true) ∷ rounds) = cluster_accept_loop_lem rounds
cluster_accept_loop_lem ((accepted x, false) ∷ rounds) = refl
cluster_accept_loop_lem ((unaccepted, false) ∷ rounds) = refl
cluster_accept_loop_lem ((crashed, false) ∷ rounds) = refl

-- what comes back of a connection's first write
abbrev first_answer : List Bytes → Outcome
first_answer [] = unread
first_answer (reply ∷ rest) = answered reply

-- A network on which the nodes of `up` run their cluster listener and the others refuse.
abbrev pub network : (Bytes → ℤ → Bool) → Bytes → ℤ → Outcome
network up host port =
    if up host port then first_answer (handle_node_connection (got ping_text ∷ [])) else refused

abbrev marked : (Bytes → ℤ → Bool) → ClusterNode → ClusterNode
marked up node = record node { is_alive = up node.host node.port }

-- whether an outcome brings a PONG
abbrev hears_pong : Outcome → Bool
hears_pong (answered response) = contains (codes "PONG") response
hears_pong _ = false

ping_node_lem :
    (o : Outcome) (node : ClusterNode) → ping_node o node ≡ record node { is_alive = hears_pong o }
unfolding ping_node
ping_node_lem unresolved node = refl
ping_node_lem refused node = refl
ping_node_lem unsent node = refl
ping_node_lem unread node = refl
ping_node_lem thrown node = refl
ping_node_lem (answered response) node = ground arith

hears_pong-network :
    (up : Bytes → ℤ → Bool) (host : Bytes) (port : ℤ)
    → hears_pong (network up host port) ≡ up host port
unfolding handle_node_connection node_reply contains bytes_eq starts_with
hears_pong-network up host port = ground arith

ping_node-network :
    (up : Bytes → ℤ → Bool) (node : ClusterNode)
    → ping_node (network up node.host node.port) node ≡ marked up node
ping_node-network up node =
    ping_node_lem _ node
    ∙ ap (λ b. record node { is_alive = b }) (hears_pong-network up node.host node.port)

ping_each-network :
    (up : Bytes → ℤ → Bool) (nodes : List ClusterNode)
    → ping_each (network up) nodes ≡ map (marked up) nodes
unfolding ping_each
ping_each-network up [] = refl
ping_each-network up (node ∷ nodes) =
    rw (ping_node-network up node, ping_each-network up nodes) refl

-- A mark takes the place of what a ping has found.
map-marked-ping_each :
    (up : Bytes → ℤ → Bool) (net : Bytes → ℤ → Outcome) (nodes : List ClusterNode)
    → map (marked up) (ping_each net nodes) ≡ map (marked up) nodes
unfolding ping_each
map-marked-ping_each up net [] = refl
map-marked-ping_each up net (node ∷ nodes) =
    rw
      (
        ap (marked up) (ping_node_lem (net node.host node.port) node),
        map-marked-ping_each up net nodes,
      )
      refl

times_five : (n : ℕ) → 5 + 5 * (n + 1) ≡ 5 * (suc n + 1)
times_five n = omega arith

-- Whatever the network did in the rounds before: when exactly the nodes of `up` run their listener in
-- a round of the discovery loop, then exactly they are alive behind it, in the same order and with
-- the same hosts, ports and roles; and the loop has slept five seconds a round.
pub node_discovery_loop_lem :
    (up : Bytes → ℤ → Bool) (rounds : List (Bytes → ℤ → Outcome)) (m : ClusterManager)
    → node_discovery_loop (rounds ++ network up ∷ []) m
      ≡ (5 * (length rounds + 1), record m { nodes = map (marked up) m.nodes })
unfolding node_discovery_loop ping_nodes
node_discovery_loop_lem up [] m = rw (ping_each-network up m.nodes) refl
node_discovery_loop_lem up (net ∷ rounds) m =
    rw
      (
        node_discovery_loop_lem up rounds (ping_nodes net m),
        map-marked-ping_each up net m.nodes,
        times_five (length rounds),
      )
      refl
