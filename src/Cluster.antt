-- ===== src/Cluster.antt =====
-- ClusterManager (RediCraft-Server/src/cluster.cpp, include/cluster.h). asio, threads and the
-- standard streams are outside the model: a network exchange is its outcome, which the network
-- chooses, starting a listener reports whether it threw, and the threads of cluster_threads_ are
-- counted. The detached threads that the accept loop makes for its connections are not counted, and
-- a join is taken to return.
pub mod Slots
pub mod Health
pub mod Probes
pub mod Loops
use redi_craft.Prelude.{
  ℕ, ◌+◌, ◌-◌, ◌*◌, ◌/◌, ◌%◌, ◌^◌, Bool, true, false, ◌&&◌, Option, none, some, List, [], ◌∷◌, ◌++◌,
  ltb, leb, ◌==◌, if◌then◌else◌, length, take, Bytes, codes, bytes_eq,
}
use redi_craft.Prelude.Int.{ℤ, pos, negsuc}

pub record ClusterNode : Type 0 where
  pub host : Bytes
  pub port : ℤ
  pub is_master : Bool
  pub is_alive : Bool

pub record ClusterManager : Type 0 where
  pub nodes : List ClusterNode
  pub cluster_running : Bool
  pub cluster_threads : ℕ
  pub discovery_running : Bool

-- the constructor
abbrev pub new_manager : ClusterManager
new_manager = record {
  nodes = [];
  cluster_running = false;
  cluster_threads = 0;
  discovery_running = false;
}

unfoldable pub add_node : Bytes → ℤ → Bool → ClusterManager → ClusterManager
add_node host port is_master m = record m {
  nodes =
      m.nodes ++ record { host = host; port = port; is_master = is_master; is_alive = true } ∷ [];
}

unfoldable pub int_eq : ℤ → ℤ → Bool
int_eq (pos a) (pos b) = a == b
int_eq (negsuc a) (negsuc b) = a == b
int_eq _ _ = false

-- erase(remove_if(...))
unfoldable without_node : Bytes → ℤ → List ClusterNode → List ClusterNode
unfolding int_eq
without_node host port [] = []
without_node host port (node ∷ rest) =
    let kept = without_node host port rest in
    if bytes_eq node.host host && int_eq node.port port then kept else node ∷ kept

unfoldable pub remove_node : Bytes → ℤ → ClusterManager → ClusterManager
unfolding without_node
remove_node host port m = record m { nodes = without_node host port m.nodes }

-- `listens` is whether the io_context, the acceptor and the threads were made without an exception,
-- `cores` is hardware_concurrency(). A start makes num_threads + 1 threads; `made` is how many of them
-- were made before an exception, so num_threads at most. A start over threads that a failed one has left
-- replaces the io_context that they run on, which is undefined; here it adds to them.
unfoldable pub start_cluster : Bool → ℕ → ℕ → ClusterManager → ClusterManager
start_cluster listens cores made m =
    if m.cluster_running
    then m
    else (let num_threads = if cores == 0 then 4 else cores in
        if listens
        then record m {
          cluster_running = true;
          cluster_threads = m.cluster_threads + 1 + num_threads;
        }
        else record m {
          cluster_running = false;
          cluster_threads =
              m.cluster_threads + (if ltb made num_threads then made else num_threads);
        })

unfoldable pub stop_cluster : ClusterManager → ClusterManager
stop_cluster m =
    if m.cluster_running then record m { cluster_running = false; cluster_threads = 0 } else m

unfoldable pub start_node_discovery : ClusterManager → ClusterManager
start_node_discovery m = if m.discovery_running then m else record m { discovery_running = true }

unfoldable pub stop_node_discovery : ClusterManager → ClusterManager
stop_node_discovery m = if m.discovery_running then record m { discovery_running = false } else m

unfoldable pub get_cluster_nodes : ClusterManager → List ClusterNode
get_cluster_nodes m = m.nodes

-- the destructor with that of the members: the threads that are still in cluster_threads_ behind
-- stopCluster have not been joined, and their destructor calls std::terminate, `none`.
-- discovery_thread_ is joinable only while discovery_running_ is set, so it is not behind
-- stopNodeDiscovery.
unfoldable pub destroy : ClusterManager → Option ClusterManager
unfolding stop_cluster stop_node_discovery
destroy m =
    let m' = stop_node_discovery (stop_cluster m) in
    if m'.cluster_threads == 0 then some m' else none

-- command.substr(0, n) == word
unfoldable pub starts_with : ℕ → Bytes → Bytes → Bool
starts_with n word text = bytes_eq (take n text) word

-- the answer of handleNodeConnection to the bytes of one read
unfoldable pub node_reply : Bytes → Bytes
node_reply text =
    if starts_with 5 (codes "PING ") text
    then codes "PONG" ++ 13 ∷ 10 ∷ []
    else if starts_with 4 (codes "NODE") text
    then codes "NODE_OK" ++ 13 ∷ 10 ∷ []
    else codes "COMMAND_PROCESSED" ++ 13 ∷ 10 ∷ []

-- response.find(word) != npos
unfoldable pub contains : Bytes → Bytes → Bool
contains word [] = bytes_eq [] word
contains word (c ∷ s) =
    let later = contains word s in
    if bytes_eq (take (length word) (c ∷ s)) word then true else later

-- the outcome of resolve, connect, write and read: the bytes that came back, or the step that failed
pub data Outcome : Type 0 where
  unresolved refused unsent unread thrown : Outcome
  answered : Bytes → Outcome

-- what pingNodes writes to a node
abbrev pub ping_text : Bytes
ping_text = codes "PING CLUSTER" ++ 13 ∷ 10 ∷ []

-- one round of pingNodes
unfoldable pub ping_node : Outcome → ClusterNode → ClusterNode
unfolding contains
ping_node (answered response) node =
    if contains (codes "PONG") response
    then record node { is_alive = true }
    else record node { is_alive = false }
ping_node unresolved node = record node { is_alive = false }
ping_node refused node = record node { is_alive = false }
ping_node unsent node = record node { is_alive = false }
ping_node unread node = record node { is_alive = false }
ping_node thrown node = record node { is_alive = false }

-- the network gives the outcome of the exchange with a host and port
unfoldable pub ping_each : (Bytes → ℤ → Outcome) → List ClusterNode → List ClusterNode
unfolding ping_node
ping_each net [] = []
ping_each net (node ∷ rest) = ping_node (net node.host node.port) node ∷ ping_each net rest

unfoldable pub ping_nodes : (Bytes → ℤ → Outcome) → ClusterManager → ClusterManager
unfolding ping_each
ping_nodes net m = record m { nodes = ping_each net m.nodes }

unfoldable pub alive_nodes : List ClusterNode → ℕ
alive_nodes [] = 0
alive_nodes (node ∷ rest) = (if node.is_alive then 1 else 0) + alive_nodes rest

unfoldable pub health : List ClusterNode → Bool
unfolding alive_nodes
health [] = false
health (node ∷ rest) = leb ((length (node ∷ rest) + 1) / 2) (alive_nodes (node ∷ rest))

unfoldable pub is_cluster_healthy : ClusterManager → Bool
unfolding health
is_cluster_healthy m = health m.nodes

-- `char c` as it is added to a size_t: signed, as on x86
unfoldable char_value : ℕ → ℕ
char_value c = if ltb c 128 then c else 2 ^ 64 - 256 + c

-- one round of the loop of calculateHashSlot, on 64 bits
unfoldable pub hash_step : ℕ → ℕ → ℕ
unfolding char_value
hash_step hash c = ((hash * 2 ^ 5) % 2 ^ 64 + hash + char_value c) % 2 ^ 64

unfoldable pub hash_from : ℕ → Bytes → ℕ
hash_from hash [] = hash
hash_from hash (c ∷ key) = hash_from (hash_step hash c) key

unfoldable pub calculate_hash_slot : Bytes → ℕ
unfolding hash_from
calculate_hash_slot key = hash_from 5381 key % 16384

-- the index of the node; `none` is nullptr
unfoldable pub find_node_for_slot : ℕ → ClusterManager → Option ℕ
find_node_for_slot slot m = if length m.nodes == 0 then none else some (slot % length m.nodes)

-- routeRequest connects to localhost:7379, sends the command and waits for an answer
unfoldable route_request : (Bytes → ℤ → Bytes → Outcome) → Bytes → Bytes → Bool
route_request net key command =
    elim (net (codes "localhost") (pos 7379) (command ++ 13 ∷ 10 ∷ [])) [
      | answered response ↦ true
      | _ ↦ false
    ]
