-- ===== src/Cluster/Slots.antt =====
-- The hash slot of a key and the node of a slot (RediCraft-Server/src/cluster.cpp).
use redi_craft.Prelude.{
  ℕ, ◌+◌, ◌*◌, ◌%◌, ◌<◌, ◌≡◌, refl, ◌⊎◌, inl, inr, some, List, [], ◌∷◌, arith, length, All, Bytes,
}
use redi_craft.Cluster.{ClusterNode, ClusterManager, calculate_hash_slot, find_node_for_slot}

-- the hash with no bound: a key's bytes as digits of base 33 behind 5381
abbrev pub djb2 : ℕ → Bytes → ℕ
djb2 h [] = h
djb2 h (c ∷ key) = djb2 (h * 33 + c) key

abbrev pub IsAscii : Bytes → Type 0
IsAscii = All (λ c. c < 128)

-- The slot of a key is one of the 16384, and unless the cluster has no nodes, the index that is
-- chosen for the slot is that of a node.
find_node_for_key :
    (key : Bytes) (m : ClusterManager)
    → (calculate_hash_slot key < 16384)
      × ((m.nodes ≡ [])
          ⊎ ((i : ℕ) × (find_node_for_slot (calculate_hash_slot key) m ≡ some i)
              × (i < length m.nodes)))
unfolding calculate_hash_slot find_node_for_slot
find_node_for_key key m = (omega arith, from m.nodes refl)
  where
    from :
        (ns : List ClusterNode)
        → m.nodes ≡ ns
        → (m.nodes ≡ [])
          ⊎ ((i : ℕ) × (find_node_for_slot (calculate_hash_slot key) m ≡ some i)
              × (i < length m.nodes))
    from [] e = inl e
    from (n ∷ ns) e = inr (calculate_hash_slot key % length m.nodes, ground arith, ground arith)
