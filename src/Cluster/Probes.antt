-- ===== src/Cluster/Probes.antt =====
-- What pingNodes finds out (RediCraft-Server/src/cluster.cpp).
use redi_craft.Prelude.{◌≡◌, refl, true, bytes_eq, toupper}
use redi_craft.Parser.Tokens.{tokenize}
use redi_craft.Parser.{first_half, parse_tokens, parse}
use redi_craft.Storage.{Storage}
use redi_craft.Session.Replies.{Clock, line}
use redi_craft.Session.{respond, handle_command, remove_byte}
use redi_craft.Cluster.{ClusterNode, starts_with, node_reply, ping_text, ping_node, answered}

-- Both listeners of a RediCraft server pass for a living node: the cluster port answers the ping of
-- pingNodes so, and so does the client port.
ping_node_replies :
    (node : ClusterNode) (c : Clock) (s : Storage)
    → ((ping_node (answered (node_reply ping_text)) node).is_alive ≡ true)
      × ((ping_node
            (answered (handle_command c (remove_byte 13 (remove_byte 10 ping_text)) s).0)
            node).is_alive
          ≡ true)
unfolding ping_node node_reply handle_command remove_byte parse respond line bytes_eq starts_with
    tokenize first_half parse_tokens toupper
ping_node_replies node c s = (refl, refl)
