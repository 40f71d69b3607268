-- ===== src/Http/Nodes.antt =====
-- The two kinds of node as the HTTP server sees them: internal/node/logicnode/operation.go and
-- internal/node/chord/node.go.
use koorde_dht_web_cache.Prelude.{Option, none, some, [], map, codes, Result, returned, refused}
use koorde_dht_web_cache.Domain.Hex.{Node}
use koorde_dht_web_cache.Routing as Routing
use koorde_dht_web_cache.Actions.{finishes, ◌>>=◌, KoordeNode}
use koorde_dht_web_cache.Chord.{ChordNode, look_up}
use koorde_dht_web_cache.Chord.Fingers.{finger_list}
use koorde_dht_web_cache.Server.Clients.{look_up_at}
use koorde_dht_web_cache.Http.{DhtNode}

abbrev found_or_nil : {E : Type 0} → Result E (Option Node) → Option Node
found_or_nil (returned node) = node
found_or_nil (refused e) = none

abbrev pub koorde_dht : DhtNode KoordeNode
koorde_dht = record {
  space = λ n. n.rt.space;
  self = λ n. some n.rt.self;
  predecessor = λ n. n.rt.predecessor;
  successor_list = λ n. map some (Routing.successor_list n.rt);
  de_bruijn_list = λ n. map some (Routing.de_bruijn_list n.rt);
  finger_list = none;
  protocol = codes "koorde";
  look_up = λ ended id n.
      look_up_at ended id n >>= λ found. finishes (found.node, found_or_nil found.result);
}

abbrev pub chord_dht : DhtNode ChordNode
chord_dht = record {
  space = λ n. n.rt.space;
  self = λ n. some n.rt.self;
  predecessor = λ n. n.rt.predecessor;
  successor_list = λ n. n.rt.successor_list;
  de_bruijn_list = λ n. [];
  finger_list = some (λ n. map some (finger_list n.rt));
  protocol = codes "chord";
  look_up = λ ended id n. look_up ended id n >>= λ found. finishes (found.0, found_or_nil found.1);
}
