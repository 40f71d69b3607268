-- ===== src/Tests/Stubs.antt =====
-- Connections, networks and nodes for the tests of the calls between nodes.
use koorde_dht_web_cache.Prelude.{
  ◌≡◌, refl, arith, false, none, some, [], ◌∷◌, Bytes, returned, refused,
}
use koorde_dht_web_cache.Domain.Space.{Space, is_valid_id, extra_bits}
use koorde_dht_web_cache.Domain.Valid.{IsSpace, IsId, is_valid_id_iff}
use koorde_dht_web_cache.Domain.Hex.{Node, Resource}
use koorde_dht_web_cache.Pool.{ClientPool}
use koorde_dht_web_cache.Routing.{
  RoutingTable, first_successor, get_successor, get_guarded, entry_at, de_bruijn_list, known_nodes,
}
use koorde_dht_web_cache.Routing.Standing.{IsStanding}
use koorde_dht_web_cache.Membership.Laws.{IsOpen}
use koorde_dht_web_cache.Lookup.NextHop.Found.{AllIds}
use koorde_dht_web_cache.Rpc.{Stub, RpcError, deadline_exceeded}
use koorde_dht_web_cache.Actions.{Network, KoordeNode}
use koorde_dht_web_cache.Actions.Laws.{IsRouting}
use koorde_dht_web_cache.Service.Alone.{IsAlone}

abbrev pub ring : Space
ring = record { bits = 10; byte_len = 2; graph_grade = 4; succ_list_size = 3 }

abbrev pub ring-IsSpace : IsSpace ring
ring-IsSpace = record {
  bits_pos = omega arith;
  whole_bytes = refl;
  digit_bits = 2;
  digit_pos = omega arith;
  grade_pow = refl;
  succ_pos = omega arith;
}

-- The identifiers 300, 519 and 700.
abbrev pub id_300 : Bytes
id_300 = 1 ∷ 44 ∷ []

abbrev pub id_519 : Bytes
id_519 = 2 ∷ 7 ∷ []

abbrev pub id_700 : Bytes
id_700 = 2 ∷ 188 ∷ []

pub id_300-IsId : IsId ring id_300
unfolding is_valid_id extra_bits
id_300-IsId = (is_valid_id_iff ring-IsSpace id_300 (omega arith, (omega arith, tt))).0 refl

pub id_519-IsId : IsId ring id_519
unfolding is_valid_id extra_bits
id_519-IsId = (is_valid_id_iff ring-IsSpace id_519 (omega arith, (omega arith, tt))).0 refl

pub id_700-IsId : IsId ring id_700
unfolding is_valid_id extra_bits
id_700-IsId = (is_valid_id_iff ring-IsSpace id_700 (omega arith, (omega arith, tt))).0 refl

abbrev pub here : Node
here = record { id = id_300; addr = 97 ∷ [] }

abbrev pub there : Node
there = record { id = id_519; addr = 98 ∷ [] }

abbrev pub page : Resource
page = record { key = id_700; raw_key = 112 ∷ []; value = 49 ∷ [] }

-- A node with one other node as its successor and in its de Bruijn window.
abbrev pub table : RoutingTable
table = record {
  space = ring;
  self = here;
  successors = some there ∷ none ∷ none ∷ [];
  predecessor = some there;
  de_bruijn = none ∷ some there ∷ none ∷ some here ∷ [];
}

pub table_first : first_successor table ≡ some there
unfolding first_successor get_successor get_guarded entry_at
table_first = refl

pub table_hops : AllIds ring (de_bruijn_list table)
unfolding de_bruijn_list known_nodes
table_hops = (id_519-IsId, (id_300-IsId, tt))

abbrev pub table-IsRouting : IsRouting table
table-IsRouting = record {
  space = ring-IsSpace;
  short = omega arith;
  fits = omega arith;
  self = id_300-IsId;
  succ = there;
  first = table_first;
  succ_id = id_519-IsId;
  hops = table_hops;
}

abbrev pub table-IsStanding : IsStanding table
table-IsStanding = record {
  sized = record { successors = refl; de_bruijn = refl };
  succ = there;
  first = table_first;
}

abbrev no_answer : RpcError
no_answer = record { is_deadline = false; is_canceled = false; code = some deadline_exceeded }

-- A node that does not answer, and one that stores everything and names no node.
abbrev pub deaf : Stub
deaf = record {
  find_successor = λ r. refused no_answer;
  ends_context = λ r. false;
  get_predecessor = refused no_answer;
  get_successor_list = refused no_answer;
  notify = λ n. refused no_answer;
  ping = refused no_answer;
  store = refused no_answer;
  send = λ r. refused no_answer;
  close_and_recv = refused no_answer;
  retrieve = λ k. refused no_answer;
  remove = λ k. refused no_answer;
  leave = λ n. refused no_answer;
}

abbrev pub willing : Stub
willing = record {
  find_successor = λ r. returned none;
  ends_context = λ r. false;
  get_predecessor = returned none;
  get_successor_list = returned [];
  notify = λ n. returned tt;
  ping = returned tt;
  store = returned tt;
  send = λ r. returned tt;
  close_and_recv = returned tt;
  retrieve = λ k. returned none;
  remove = λ k. returned tt;
  leave = λ n. returned tt;
}

abbrev pub net : Network
net = record { dial = λ addr. some willing; close_fails = λ client. false }

abbrev pub pool_of : Stub → ClientPool Stub
pool_of client = record {
  self_addr = 97 ∷ [];
  clients = (98 ∷ [], record { conn = client; refs = 2 }) ∷ [];
  closed = false;
  locked = false;
}

abbrev pub pool_of-IsOpen : (client : Stub) → IsOpen (pool_of client)
pool_of-IsOpen client = record { is_open = refl; is_free = refl }

abbrev pub node_with : Stub → KoordeNode
node_with client = record { rt = table; pool = pool_of client; storage = ([], page) ∷ [] }

-- The only node of a ring.
abbrev pub alone : KoordeNode
alone = record (node_with deaf) {
  rt = record table { successors = some here ∷ none ∷ none ∷ []; predecessor = some here };
}

pub alone_first : first_successor alone.rt ≡ some here
unfolding first_successor get_successor get_guarded entry_at
alone_first = refl

abbrev pub alone-IsAlone : IsAlone alone.rt
alone-IsAlone = record { self = id_300-IsId; first = alone_first; predecessor = refl }
