-- ===== src/Config.antt =====
-- Config (RediCraft-Server/src/config.cpp, include/config.h). A file is its content, or `none` if
-- it cannot be opened.
pub mod Nodes
pub mod Accessors
pub mod RoundTrip
use redi_craft.Prelude.{
  ℕ, Bool, true, false, ◌&&◌, ◌||◌, Option, none, some, List, [], ◌∷◌, ◌++◌, ◌==◌, if◌then◌else◌,
  take, Bytes, codes, bytes_eq,
}
use redi_craft.Prelude.Int.{ℤ, pos}
use redi_craft.Table.{Table, assign}
use redi_craft.Number.{stoi}
use redi_craft.Lines.{lines, cut}

pub record ClusterNodeConfig : Type 0 where
  pub host : Bytes
  pub port : ℤ
  pub is_master : Bool

pub record Config : Type 0 where
  pub port : ℤ
  pub host : Bytes
  pub persistence_enabled : Bool
  pub persistence_file : Bytes
  pub persistence_interval : ℤ
  pub replication_enabled : Bool
  pub replication_role : Bytes
  pub replication_port : ℤ
  pub master_host : Bytes
  pub master_port : ℤ
  pub clustering_enabled : Bool
  pub cluster_port : ℤ
  pub cluster_nodes : List ClusterNodeConfig
  pub config_values : Table Bytes

-- the constructor
abbrev pub default_config : Config
default_config = record {
  port = pos 7379;
  host = codes "localhost";
  persistence_enabled = false;
  persistence_file = codes "redicraft.rdb";
  persistence_interval = pos 60;
  replication_enabled = false;
  replication_role = codes "master";
  replication_port = pos 7380;
  master_host = codes "localhost";
  master_port = pos 7379;
  clustering_enabled = false;
  cluster_port = pos 7381;
  cluster_nodes = [];
  config_values = [];
}

unfoldable pub is_blank : ℕ → Bool
is_blank c = c == b' ' || c == 9

-- erase(0, find_first_not_of(" \t"))
unfoldable pub trim_left : Bytes → Bytes
unfolding is_blank
trim_left [] = []
trim_left (c ∷ s) = let rest = trim_left s in if is_blank c then rest else c ∷ s

unfoldable pub is_nil : Bytes → Bool
is_nil [] = true
is_nil (c ∷ s) = false

-- erase(find_last_not_of(" \t") + 1)
unfoldable pub trim_right : Bytes → Bytes
unfolding is_blank is_nil
trim_right [] = []
trim_right (c ∷ s) = let rest = trim_right s in if is_blank c && is_nil rest then [] else c ∷ rest

unfoldable pub trim : Bytes → Bytes
unfolding trim_left trim_right
trim s = trim_right (trim_left s)

-- value == "true" || value == "1"
unfoldable pub is_true : Bytes → Bool
is_true value = bytes_eq value (codes "true") || bytes_eq value (codes "1")

-- stoi with its exceptions caught: the value before is kept
unfoldable pub int_or : Option ℤ → ℤ → ℤ
int_or none old = old
int_or (some n) old = n

-- host:port:is_master; a value with fewer colons or no port is skipped
unfoldable pub add_node_line : Bytes → Config → Config
add_node_line value c = elim (cut b':' value) [
  | none ↦ c
  | some (node_host, rest) ↦ elim (cut b':' rest) [
    | none ↦ c
    | some (port_str, master_str) ↦ elim (stoi port_str) [
      | none ↦ c
      | some node_port ↦ record c {
        cluster_nodes =
            c.cluster_nodes
            ++ record { host = node_host; port = node_port; is_master = is_true master_str } ∷ [];
      }
    ]
  ]
]

-- the chain of tests on the key, behind the entry in config_values_
unfoldable pub update : Bytes → Bytes → Config → Config
update key value c =
    if bytes_eq key (codes "port")
    then record c { port = int_or (stoi value) c.port }
    else if bytes_eq key (codes "host")
    then record c { host = value }
    else if bytes_eq key (codes "persistence_enabled")
    then record c { persistence_enabled = is_true value }
    else if bytes_eq key (codes "persistence_file")
    then record c { persistence_file = value }
    else if bytes_eq key (codes "persistence_interval")
    then record c { persistence_interval = int_or (stoi value) c.persistence_interval }
    else if bytes_eq key (codes "replication_enabled")
    then record c { replication_enabled = is_true value }
    else if bytes_eq key (codes "replication_role")
    then record c { replication_role = value }
    else if bytes_eq key (codes "replication_port")
    then record c { replication_port = int_or (stoi value) c.replication_port }
    else if bytes_eq key (codes "master_host")
    then record c { master_host = value }
    else if bytes_eq key (codes "master_port")
    then record c { master_port = int_or (stoi value) c.master_port }
    else if bytes_eq key (codes "clustering_enabled")
    then record c { clustering_enabled = is_true value }
    else if bytes_eq key (codes "cluster_port")
    then record c { cluster_port = int_or (stoi value) c.cluster_port }
    else if bytes_eq (take 11 key) (codes "cluster_node")
    then add_node_line value c
    else c

-- a line with a key and a value
unfoldable pub load_pair : Bytes → Bytes → Config → Config
load_pair key value c =
    update key value (record c { config_values = assign key value c.config_values })

-- one round of the loop
unfoldable pub load_line : Bytes → Config → Config
load_line [] c = c
load_line (x ∷ line) c = if x == b'#' || x == b';' then c else (elim (cut b'=' (x ∷ line)) [
  | none ↦ c
  | some (key, value) ↦ load_pair (trim key) (trim value) c
])

unfoldable pub load_lines : List Bytes → Config → Config
load_lines [] c = c
load_lines (line ∷ rest) c = load_lines rest (load_line line c)

unfoldable pub load : Option Bytes → Config → Bool × Config
load none c = (false, c)
load (some file) c = (true, load_lines (lines file) c)

-- addClusterNode
unfoldable pub add_cluster_node : Bytes → ℤ → Bool → Config → Config
add_cluster_node host port is_master c = record c {
  cluster_nodes =
      c.cluster_nodes ++ record { host = host; port = port; is_master = is_master } ∷ [];
}
