-- ===== src/Lookup/NextHop.antt =====
-- internal/node/logicnode/operation.go: findNextHop, which chooses the entry of the de Bruijn list
-- that precedes an identifier. An index is Go's int, and -1 is `negsuc 0`.
pub mod Found
use koorde_dht_web_cache.Prelude.{
  ℕ, zero, suc, ◌+◌, ◌%◌, Bool, Option, none, some, List, [], ◌∷◌, ◌==◌, if◌then◌else◌, length,
  Bytes, ℤ, pos, negsuc,
}
use koorde_dht_web_cache.Domain.Hex.{Node}
use koorde_dht_web_cache.Domain.Ring.{equal, between}
use koorde_dht_web_cache.Routing.{RoutingEntries, entry_at}

-- nonNilCount.
unfoldable pub count_nodes : RoutingEntries → ℕ
count_nodes [] = 0
count_nodes (none ∷ list) = count_nodes list
count_nodes (some n ∷ list) = suc (count_nodes list)

-- The loop that returns the index of the only node, from index i.
unfoldable pub only_node : ℕ → RoutingEntries → ℤ
only_node i [] = negsuc 0
only_node i (none ∷ list) = only_node (suc i) list
only_node i (some n ∷ list) = pos i

-- The first pass, from index i: a node with the identifier itself.
unfoldable pub exact_match : ℕ → RoutingEntries → Bytes → Option ℕ
exact_match i [] current_i = none
exact_match i (none ∷ list) current_i = exact_match (suc i) list current_i
exact_match i (some n ∷ list) current_i =
    if equal n.id current_i then some i else exact_match (suc i) list current_i

-- The loop that skips nil entries from index j, with the iterations left; none when they run out.
unfoldable pub skip_nil : RoutingEntries → ℕ → ℕ → Option Node
skip_nil list j zero = none
skip_nil list j (suc left) = elim (entry_at list j) [
  | some next ↦ some next
  | none ↦ skip_nil list ((j + 1) % length list) left
]

-- The second pass over what is left of the list, from index i.
unfoldable pub scan_pairs : RoutingEntries → ℕ → RoutingEntries → Bytes → ℤ
scan_pairs list i [] current_i = negsuc 0
scan_pairs list i (none ∷ rest) current_i = scan_pairs list (suc i) rest current_i
scan_pairs list i (some curr ∷ rest) current_i =
    let later = scan_pairs list (suc i) rest current_i in
    elim (skip_nil list ((i + 1) % length list) (length list)) [
      | none ↦ later
      | some next ↦ if between current_i curr.id next.id then pos i else later
    ]

unfoldable pub find_next_hop : RoutingEntries → Bytes → ℤ
find_next_hop list current_i =
    if length list == 0
    then negsuc 0
    else (if count_nodes list == 0
        then negsuc 0
        else (if count_nodes list == 1
            then only_node 0 list
            else elim (exact_match 0 list current_i) [
              | some i ↦ pos i
              | none ↦ scan_pairs list 0 list current_i
            ]))
