-- ===== src/Chord/Fingers.antt =====
-- internal/node/chord/routingtable.go: the links of a Chord node, under one lock. An index that the
-- code passes is never negative.
use koorde_dht_web_cache.Prelude.{
  ℕ, Option, none, some, List, [], ◌∷◌, ◌==◌, ltb, if◌then◌else◌, length, replicate, Bytes,
}
use koorde_dht_web_cache.Domain.Space.{Space}
use koorde_dht_web_cache.Domain.Hex.{Node}
use koorde_dht_web_cache.Domain.Ring.{between}
use koorde_dht_web_cache.Routing.{RoutingEntries, entry_at, set_entry, known_nodes}

pub record FingerTable : Type 0 where
  pub self : Node
  pub space : Space
  pub successor_list : RoutingEntries
  pub fingers : RoutingEntries
  pub predecessor : Option Node

unfoldable pub new_routing_table : Node → Space → FingerTable
new_routing_table self space = record {
  self = self;
  space = space;
  successor_list = replicate space.succ_list_size none;
  fingers = replicate space.bits none;
  predecessor = none;
}

-- The first successor is the first finger too.
unfoldable pub first_finger : ℕ → Option Node → RoutingEntries → RoutingEntries
first_finger i none fingers = fingers
first_finger i (some node) fingers = if i == 0 then set_entry fingers 0 (some node) else fingers

unfoldable pub set_successor : ℕ → Option Node → FingerTable → FingerTable
set_successor i node rt =
    if ltb i (length rt.successor_list)
    then record rt {
      successor_list = set_entry rt.successor_list i node;
      fingers = first_finger i node rt.fingers;
    }
    else rt

unfoldable pub first_successor : FingerTable → Option Node
first_successor rt = entry_at rt.successor_list 0

unfoldable pub set_predecessor : Option Node → FingerTable → FingerTable
set_predecessor node rt = record rt { predecessor = node }

-- The scan from the last finger down: the result for the fingers after the first one, else the first.
unfoldable pub last_between : Bytes → Bytes → RoutingEntries → Option Node
last_between self id [] = none
last_between self id (finger ∷ fingers) = elim (last_between self id fingers) [
  | some node ↦ some node
  | none ↦ elim finger [
    | none ↦ none
    | some node ↦ if between node.id self id then some node else none
  ]
]

unfoldable pub closest_preceding_node : Bytes → FingerTable → Node
closest_preceding_node id rt = elim (last_between rt.self.id id rt.fingers) [
  | some node ↦ node
  | none ↦ rt.self
]

unfoldable pub set_finger : ℕ → Option Node → FingerTable → FingerTable
set_finger i node rt =
    if ltb i (length rt.fingers) then record rt { fingers = set_entry rt.fingers i node } else rt

unfoldable pub get_finger : ℕ → FingerTable → Option Node
get_finger i rt = if ltb i (length rt.fingers) then entry_at rt.fingers i else none

unfoldable pub finger_list : FingerTable → List Node
finger_list rt = known_nodes rt.fingers
