-- ===== src/Rpc/Laws.antt =====
-- What the calls of another node return.
use koorde_dht_web_cache.Prelude.{
  ◌≡◌, refl, arith, ◌↔◌, true, Option, none, some, List, [], ◌∷◌, map, returned,
}
use koorde_dht_web_cache.Domain.Space.{Space, is_valid_id}
use koorde_dht_web_cache.Domain.Hex.{Node}
use koorde_dht_web_cache.Domain.Proto.{node_to_proto_dht, node_from_proto_dht}
use koorde_dht_web_cache.Rpc.{convert_nodes}

-- Every node that a list holds has a valid identifier.
abbrev pub AllValid : Space → List (Option Node) → Type 0
AllValid sp [] = Unit {0}
AllValid sp (none ∷ ns) = AllValid sp ns
AllValid sp (some n ∷ ns) = (is_valid_id sp n.id ≡ true) × AllValid sp ns

-- The list that a node sends to another, each entry as a message, is read back as it was exactly
-- when every node in it is valid in the space of the reader; else the reader gets an error.
pub convert_nodes-map_iff :
    (sp : Space) (ns : List (Option Node))
    → (convert_nodes sp (map node_to_proto_dht ns) ≡ returned ns) ↔ AllValid sp ns
unfolding convert_nodes node_to_proto_dht node_from_proto_dht
convert_nodes-map_iff sp [] = (λ e. tt, λ a. refl)
convert_nodes-map_iff sp (none ∷ ns) = ground (arith, convert_nodes-map_iff sp ns)
convert_nodes-map_iff sp (some n ∷ ns) = ground (arith, convert_nodes-map_iff sp ns)
