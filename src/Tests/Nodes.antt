-- ===== src/Tests/Nodes.antt =====
-- The links, the resources and the connections of a node (internal/node/routingtable,
-- internal/node/storage, internal/node/client and internal/node/logicnode).
use koorde_dht_web_cache.Prelude.{
  ℕ, ◌≡◌, ◌↔◌, refl, arith, Bool, true, false, none, some, [], ◌∷◌, Bytes, bytes_eq, pos,
}
use koorde_dht_web_cache.Prelude.Maps.{lookup}
use koorde_dht_web_cache.Domain.Space.{Space}
use koorde_dht_web_cache.Domain.Ring.{between}
use koorde_dht_web_cache.Domain.Hex.{Node, Resource}
use koorde_dht_web_cache.Storage.{between_keys, all}
use koorde_dht_web_cache.Storage.Laws.{Among}
use koorde_dht_web_cache.Routing.{
  RoutingTable, entry_at, known_nodes, successor_list, promote_candidate,
}
use koorde_dht_web_cache.Routing.Laws.{IsSized, successor_list-promote_candidate}
use koorde_dht_web_cache.Pool.{
  ClientPool, new_pool, failed, waits, pool_closed, add_ref, get_from_pool, dial_ephemeral, release,
  close,
}
use koorde_dht_web_cache.Pool.Counts.{
  IsCounted, new_pool-IsCounted, acquire, give_up, run, count, count-run,
}
use koorde_dht_web_cache.Pool.Closed.{release_after_close_locks}
use koorde_dht_web_cache.Domain.Space.{is_valid_id, extra_bits}
use koorde_dht_web_cache.Domain.Valid.{IsSpace, IsId, is_valid_id_iff}
use koorde_dht_web_cache.Domain.Ring.{equal, cmp}
use koorde_dht_web_cache.Routing.{set_predecessor}
use koorde_dht_web_cache.Prelude.{List, inl, bytes_compare}
use koorde_dht_web_cache.Prelude.Maps.{insert}
use koorde_dht_web_cache.Pool.{when_open}
use koorde_dht_web_cache.Membership.{unless_waiting, release_old}
use koorde_dht_web_cache.Membership.{LogicNode, is_candidate, notify, store_local}
use koorde_dht_web_cache.Membership.Laws.{IsOpen, notify_lem}
use koorde_dht_web_cache.Membership.Storing.{store_local-notify}
use koorde_dht_web_cache.Domain.Value.{to_big_int}
use koorde_dht_web_cache.Estimate.{estimate_network_size, estimate_network_size_lem}

abbrev key_a : Bytes
key_a = 1 ∷ 44 ∷ []

abbrev key_b : Bytes
key_b = 2 ∷ 7 ∷ []

abbrev resource_a : Resource
resource_a = record { key = key_a; raw_key = 97 ∷ []; value = 49 ∷ [] }

abbrev ten_bits : Space
ten_bits = record { bits = 10; byte_len = 2; graph_grade = 4; succ_list_size = 3 }

abbrev node_a : Node
node_a = record { id = key_a; addr = 97 ∷ [] }

abbrev node_b : Node
node_b = record { id = key_b; addr = 98 ∷ [] }

abbrev linked : RoutingTable
linked = record {
  space = ten_bits;
  self = node_a;
  successors = some node_a ∷ some node_b ∷ some node_a ∷ [];
  predecessor = none;
  de_bruijn = none ∷ none ∷ none ∷ some node_b ∷ [];
}

abbrev linked-IsSized : IsSized linked
linked-IsSized = record { successors = refl; de_bruijn = refl }

second_entry : entry_at linked.successors 1 ≡ some node_b
unfolding entry_at
second_entry = refl

successor_list-promote_candidate_example :
    IsSized (promote_candidate (pos 1) linked)
    × (successor_list (promote_candidate (pos 1) linked) ≡ node_b ∷ known_nodes (some node_a ∷ []))
successor_list-promote_candidate_example =
    successor_list-promote_candidate 0 node_b linked-IsSized (omega arith) second_entry

-- Connections are numbers here, of which none fails to close.
abbrev never : ℕ → Bool
never conn = false

abbrev fresh_pool : ClientPool ℕ
fresh_pool = record { self_addr = 97 ∷ []; clients = []; closed = false; locked = false }

fresh_pool-IsCounted : IsCounted fresh_pool
unfolding new_pool
fresh_pool-IsCounted = new_pool-IsCounted (97 ∷ [])

other_address : bytes_eq (98 ∷ []) (97 ∷ []) ≡ false
unfolding bytes_eq
other_address = refl

named_address : bytes_eq (98 ∷ []) [] ≡ false
unfolding bytes_eq
named_address = refl

count-run_example :
    IsCounted
      (run never (acquire 7 (98 ∷ []) ∷ acquire 8 (98 ∷ []) ∷ give_up (98 ∷ []) ∷ []) fresh_pool)
    × (count (98 ∷ []) (
          run never (acquire 7 (98 ∷ []) ∷ acquire 8 (98 ∷ []) ∷ give_up (98 ∷ []) ∷ []) fresh_pool)
        ≡ 1)
unfolding bytes_eq lookup
count-run_example =
    count-run never (acquire 7 (98 ∷ []) ∷ acquire 8 (98 ∷ []) ∷ give_up (98 ∷ []) ∷ [])
      fresh_pool-IsCounted
      ((named_address, other_address), ((named_address, other_address), (named_address, tt)))
      (98 ∷ [])

abbrev locked_pool : ClientPool ℕ
locked_pool = (release never (98 ∷ []) (close never fresh_pool).0).0

release_after_close_locks_example :
    ((release never (98 ∷ []) (close never fresh_pool).0).1 ≡ failed pool_closed)
    × (release never (98 ∷ []) locked_pool ≡ (locked_pool, waits))
    × (add_ref (some 7) (98 ∷ []) locked_pool ≡ (locked_pool, waits))
    × (get_from_pool (98 ∷ []) locked_pool ≡ (locked_pool, waits))
    × (dial_ephemeral (some 7) (98 ∷ []) locked_pool ≡ (locked_pool, waits))
    × (close never locked_pool ≡ (locked_pool, waits))
release_after_close_locks_example =
    release_after_close_locks never (some 7) fresh_pool (98 ∷ []) (98 ∷ []) refl named_address
      named_address other_address

abbrev ten_bits-IsSpace : IsSpace ten_bits
ten_bits-IsSpace = record {
  bits_pos = omega arith;
  whole_bytes = refl;
  digit_bits = 2;
  digit_pos = omega arith;
  grade_pow = refl;
  succ_pos = omega arith;
}

key_a-IsId : IsId ten_bits key_a
unfolding is_valid_id extra_bits
key_a-IsId = (is_valid_id_iff ten_bits-IsSpace key_a (omega arith, (omega arith, tt))).0 refl

key_b-IsId : IsId ten_bits key_b
unfolding is_valid_id extra_bits
key_b-IsId = (is_valid_id_iff ten_bits-IsSpace key_b (omega arith, (omega arith, tt))).0 refl

-- Node a, alone, with a resource between b and a; then with b as its predecessor.
abbrev resource_b : Resource
resource_b = record { key = key_b; raw_key = 98 ∷ []; value = 50 ∷ [] }

abbrev member : LogicNode ℕ
member = record { rt = linked; pool = fresh_pool; storage = ([], resource_b) ∷ [] }

fresh_pool-IsOpen : IsOpen fresh_pool
fresh_pool-IsOpen = record { is_open = refl; is_free = refl }

another : equal key_b key_a ≡ false
unfolding equal bytes_eq
another = refl

candidate : is_candidate node_b member ≡ true
unfolding is_candidate
candidate = refl

notify_lem_example :
    (next : LogicNode ℕ) × (moved : List Resource) × (notify (some 7) never (some node_b) member
      ≡ some (next, moved))
    × (next.rt ≡ set_predecessor (some node_b) linked)
    × (next.storage ≡ member.storage)
    × (Among resource_b moved
        ↔ (Among resource_b (all member.storage) × (between key_b key_b key_a ≡ false)))
notify_lem_example =
    notify_lem (some 7) never node_b member fresh_pool-IsOpen key_a-IsId key_b-IsId another
      candidate resource_b key_b-IsId

abbrev joined : LogicNode ℕ
joined = record {
  rt = record linked { predecessor = some node_b };
  pool = record {
    self_addr = 97 ∷ [];
    clients = (98 ∷ [], record { conn = 7; refs = 1 }) ∷ [];
    closed = false;
    locked = false;
  };
  storage = ([], resource_b) ∷ [];
}

moves : notify (some 7) never (some node_b) member ≡ some (joined, resource_b ∷ [])
unfolding notify equal bytes_eq is_candidate unless_waiting add_ref when_open lookup release_old
    set_predecessor insert between_keys between cmp bytes_compare
moves = refl

store_local-notify_example : store_local resource_b joined ≡ (joined, false)
store_local-notify_example =
    store_local-notify (some 7) never node_b member fresh_pool-IsOpen key_a-IsId key_b-IsId another
      candidate joined (resource_b ∷ []) moves resource_b key_b-IsId (inl refl)

joined-IsOpen : IsOpen joined.pool
joined-IsOpen = record { is_open = refl; is_free = refl }

same_node : equal key_b key_b ≡ true
unfolding equal bytes_eq
same_node = refl

-- Node a with node b as its first successor, 219 steps ahead on a ring of 1024.
abbrev ahead : RoutingTable
ahead = record linked { successors = some node_b ∷ none ∷ none ∷ [] }

ahead_successors : successor_list ahead ≡ node_b ∷ []
unfolding successor_list known_nodes
ahead_successors = refl

estimate_network_size_lem_example : estimate_network_size pos ahead ≡ 4
unfolding to_big_int
estimate_network_size_lem_example =
    estimate_network_size_lem pos ahead node_b [] ahead_successors key_a-IsId key_b-IsId another
      refl
