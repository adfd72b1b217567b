-- ===== src/Config/Accessors.antt =====
-- The getters and setters of Config (RediCraft-Server/src/config.cpp), and the settings that they
-- make a configuration of.
use redi_craft.Prelude.{Bool, List, [], ◌∷◌, Bytes}
use redi_craft.Prelude.Int.{ℤ}
use redi_craft.Config.{ClusterNodeConfig, Config}

unfoldable pub get_port : Config → ℤ
get_port c = c.port

unfoldable get_host : Config → Bytes
get_host c = c.host

unfoldable is_persistence_enabled : Config → Bool
is_persistence_enabled c = c.persistence_enabled

unfoldable get_persistence_file : Config → Bytes
get_persistence_file c = c.persistence_file

unfoldable get_persistence_interval : Config → ℤ
get_persistence_interval c = c.persistence_interval

unfoldable is_replication_enabled : Config → Bool
is_replication_enabled c = c.replication_enabled

unfoldable pub get_replication_role : Config → Bytes
get_replication_role c = c.replication_role

unfoldable get_replication_port : Config → ℤ
get_replication_port c = c.replication_port

unfoldable get_master_host : Config → Bytes
get_master_host c = c.master_host

unfoldable get_master_port : Config → ℤ
get_master_port c = c.master_port

unfoldable is_clustering_enabled : Config → Bool
is_clustering_enabled c = c.clustering_enabled

unfoldable get_cluster_port : Config → ℤ
get_cluster_port c = c.cluster_port

unfoldable pub get_cluster_nodes : Config → List ClusterNodeConfig
get_cluster_nodes c = c.cluster_nodes

unfoldable pub set_port : ℤ → Config → Config
set_port n c = record c { port = n }

unfoldable set_host : Bytes → Config → Config
set_host s c = record c { host = s }

unfoldable set_persistence_enabled : Bool → Config → Config
set_persistence_enabled b c = record c { persistence_enabled = b }

unfoldable set_persistence_file : Bytes → Config → Config
set_persistence_file s c = record c { persistence_file = s }

unfoldable set_persistence_interval : ℤ → Config → Config
set_persistence_interval n c = record c { persistence_interval = n }

unfoldable set_replication_enabled : Bool → Config → Config
set_replication_enabled b c = record c { replication_enabled = b }

unfoldable pub set_replication_role : Bytes → Config → Config
set_replication_role s c = record c { replication_role = s }

unfoldable set_replication_port : ℤ → Config → Config
set_replication_port n c = record c { replication_port = n }

unfoldable set_master_host : Bytes → Config → Config
set_master_host s c = record c { master_host = s }

unfoldable set_master_port : ℤ → Config → Config
set_master_port n c = record c { master_port = n }

unfoldable set_clustering_enabled : Bool → Config → Config
set_clustering_enabled b c = record c { clustering_enabled = b }

unfoldable set_cluster_port : ℤ → Config → Config
set_cluster_port n c = record c { cluster_port = n }

-- the keys of a file, by the type of their value
pub data NumberKey : Type 0 where
  port_key persistence_interval_key replication_port_key master_port_key cluster_port_key :
      NumberKey

pub data TextKey : Type 0 where
  host_key persistence_file_key replication_role_key master_host_key : TextKey

pub data FlagKey : Type 0 where
  persistence_enabled_key replication_enabled_key clustering_enabled_key : FlagKey

-- a key with its value
pub data Setting : Type 0 where
  number : NumberKey → ℤ → Setting
  text : TextKey → Bytes → Setting
  flag : FlagKey → Bool → Setting

-- the setter of a setting's key
unfoldable pub apply : Setting → Config → Config
unfolding set_port set_persistence_interval set_replication_port set_master_port set_cluster_port
    set_host set_persistence_file set_replication_role set_master_host set_persistence_enabled
    set_replication_enabled set_clustering_enabled
apply (number port_key n) c = set_port n c
apply (number persistence_interval_key n) c = set_persistence_interval n c
apply (number replication_port_key n) c = set_replication_port n c
apply (number master_port_key n) c = set_master_port n c
apply (number cluster_port_key n) c = set_cluster_port n c
apply (text host_key s) c = set_host s c
apply (text persistence_file_key s) c = set_persistence_file s c
apply (text replication_role_key s) c = set_replication_role s c
apply (text master_host_key s) c = set_master_host s c
apply (flag persistence_enabled_key b) c = set_persistence_enabled b c
apply (flag replication_enabled_key b) c = set_replication_enabled b c
apply (flag clustering_enabled_key b) c = set_clustering_enabled b c

-- all that the getters give, but the nodes
unfoldable pub settings_of : Config → List Setting
unfolding get_port get_host is_persistence_enabled get_persistence_file get_persistence_interval
    is_replication_enabled get_replication_role get_replication_port get_master_host get_master_port
    is_clustering_enabled get_cluster_port
settings_of c =
    number port_key (get_port c)
    ∷ text host_key (get_host c)
    ∷ flag persistence_enabled_key (is_persistence_enabled c)
    ∷ text persistence_file_key (get_persistence_file c)
    ∷ number persistence_interval_key (get_persistence_interval c)
    ∷ flag replication_enabled_key (is_replication_enabled c)
    ∷ text replication_role_key (get_replication_role c)
    ∷ number replication_port_key (get_replication_port c)
    ∷ text master_host_key (get_master_host c)
    ∷ number master_port_key (get_master_port c)
    ∷ flag clustering_enabled_key (is_clustering_enabled c)
    ∷ number cluster_port_key (get_cluster_port c)
    ∷ []
