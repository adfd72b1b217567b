-- ===== src/Config/Nodes.antt =====
-- The cluster nodes of a configuration file (RediCraft-Server/src/config.cpp).
use redi_craft.Prelude.{
  ℕ, ◌≡◌, refl, ap, ◌∙◌, inl, inr, false, ◌||◌, Option, none, some, List, [], ◌∷◌, arith, ◌==◌,
  Bool-cases, if_both, length, take, length-take, Bytes, codes, bytes_eq, bytes_eq_iff,
}
use redi_craft.Table.{assign}
use redi_craft.Lines.{lines, cut}
use redi_craft.Config.{Config, trim, update, load_pair, load_line, load_lines, load}

prefix_is_shorter : (key : Bytes) → bytes_eq (take 11 key) (codes "cluster_node") ≡ false
prefix_is_shorter key = elim (Bool-cases (bytes_eq (take 11 key) (codes "cluster_node"))) [
  | inl same ↦
      absurd (omega (arith, length-take 11 key, ap {B = ℕ} length ((bytes_eq_iff _ _).0 same)))
  | inr other ↦ other
]

cluster_nodes-update :
    (key value : Bytes) (c : Config) → (update key value c).cluster_nodes ≡ c.cluster_nodes
unfolding update
cluster_nodes-update key value c = ground (arith, prefix_is_shorter key)

cluster_nodes-load_line :
    (line : Bytes) (c : Config) → (load_line line c).cluster_nodes ≡ c.cluster_nodes
unfolding load_line load_pair
cluster_nodes-load_line [] c = refl
cluster_nodes-load_line (x ∷ line) c =
    if_both (λ (d : Config). d.cluster_nodes ≡ c.cluster_nodes) (x == b'#' || x == b';') c _
      (λ _. refl) (from (cut b'=' (x ∷ line)))
  where
    from :
        (o : Option (Bytes × Bytes))
        → (elim o as (λ _. Config) [
          | none ↦ c
          | some (key, value) ↦ load_pair (trim key) (trim value) c
        ]).cluster_nodes
          ≡ c.cluster_nodes
    from none = refl
    from (some (key, value)) =
        let c' = record c { config_values = assign (trim key) (trim value) c.config_values } in
        cluster_nodes-update (trim key) (trim value) c'

cluster_nodes-load_lines :
    (ls : List Bytes) (c : Config) → (load_lines ls c).cluster_nodes ≡ c.cluster_nodes
unfolding load_lines
cluster_nodes-load_lines [] c = refl
cluster_nodes-load_lines (l ∷ ls) c =
    cluster_nodes-load_lines ls (load_line l c) ∙ cluster_nodes-load_line l c

-- No file adds a cluster node: the test compares the first 11 bytes of the key with a word of 12.
pub cluster_nodes-load :
    (file : Option Bytes) (c : Config) → (load file c).1.cluster_nodes ≡ c.cluster_nodes
unfolding load
cluster_nodes-load none c = refl
cluster_nodes-load (some file) c = cluster_nodes-load_lines (lines file) c
