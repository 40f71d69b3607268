-- ===== src/Worker.antt =====
-- internal/node/logicnode/worker.go: the periodic tasks that keep the successors and the predecessor of
-- a Koorde node. Each runs in a context of its own that has not ended when a call begins, and without
-- others between its steps. Go visits a map in no fixed order; here the order is that of the list.
pub mod DeBruijn
pub mod Repair
pub mod Join
pub mod Laws
use koorde_dht_web_cache.Prelude.{
  ℕ, zero, suc, ◌-◌, Bool, true, false, not, ◌&&◌, Option, none, some, List, [], ◌∷◌, if◌then◌else◌,
  Bytes, replicate, ℤ, pos, Result, returned, refused,
}
use koorde_dht_web_cache.Prelude.Maps.{lookup, insert}
use koorde_dht_web_cache.Domain.Hex.{Node}
use koorde_dht_web_cache.Domain.Ring.{equal, between}
use koorde_dht_web_cache.Routing.{
  RoutingEntries, RoutingTable, known_nodes, first_successor, get_successor, set_successor,
  successor_list, set_successor_list, set_predecessor, de_bruijn_list, promote_candidate,
  init_single_node,
}
use koorde_dht_web_cache.Membership.{LogicNode}
use koorde_dht_web_cache.Rpc as Client
use koorde_dht_web_cache.Actions.{
  Run, finishes, ◌>>=◌, Network, KoordeNode, pooled, keep_address, drop_address,
}

unfoldable pub with_table : RoutingTable → KoordeNode → KoordeNode
with_table rt n = record n { rt = rt }

-- The first index from i on whose successor is not nil, with the rounds of the loop left.
unfoldable pub find_candidate : ℕ → ℕ → RoutingTable → Option (ℕ × Node)
find_candidate i zero rt = none
find_candidate i (suc left) rt = elim (get_successor (pos i) rt) [
  | some candidate ↦ some (i, candidate)
  | none ↦ find_candidate (suc i) left rt
]

unfoldable pub drop_all : Network → List Node → KoordeNode → Run KoordeNode
drop_all net [] n = finishes n
drop_all net (nd ∷ nodes) n = do m ← drop_address net nd.addr n; drop_all net nodes m

unfoldable pub drop_predecessor : Network → Option Node → KoordeNode → Run KoordeNode
drop_predecessor net none n = finishes n
drop_predecessor net (some pred) n = drop_address net pred.addr n

-- No candidate is left: every reference is released, and the node is alone.
unfoldable pub revert_to_single : Network → KoordeNode → Run KoordeNode
revert_to_single net n = do
  a ← drop_predecessor net n.rt.predecessor n
  b ← drop_all net (successor_list n.rt) a
  c ← drop_all net (de_bruijn_list n.rt) b
  finishes (with_table (init_single_node n.rt) c)

-- Step 4, with the successor after steps 2 and 3; the answer of Notify is only logged.
unfoldable pub notify_successor : Node → KoordeNode → Run KoordeNode
notify_successor succ n = if equal succ.id n.rt.self.id then finishes n else do
  got ← pooled succ.addr n
  elim got.1 [
    | none ↦ finishes got.0
    | some client ↦ elim (Client.notify false client (some n.rt.self)) [
      | returned u ↦ finishes got.0
      | refused e ↦ finishes got.0
    ]
  ]

-- Step 2: the successor does not answer.
unfoldable pub replace_successor : Network → Node → KoordeNode → Run KoordeNode
replace_successor net succ n = elim (find_candidate 1 (n.rt.space.succ_list_size - 1) n.rt) [
  | none ↦ revert_to_single net n
  | some found ↦ do
    m ← drop_address net succ.addr (with_table (promote_candidate (pos found.0) n.rt) n)
    notify_successor found.1 m
]

unfoldable pub switch_to : Network → Node → Node → KoordeNode → Run KoordeNode
switch_to net succ pred n = do
  added ← keep_address net pred.addr n
  m ← drop_address net succ.addr (with_table (set_successor (pos 0) (some pred) n.rt) added)
  notify_successor pred m

-- Steps 3 and 4, with the predecessor of the successor.
unfoldable pub adopt_predecessor : Network → Node → Node → KoordeNode → Run KoordeNode
adopt_predecessor net succ pred n =
    if between pred.id n.rt.self.id succ.id && not (equal pred.id n.rt.self.id)
    then switch_to net succ pred n
    else notify_successor succ n

unfoldable pub continue_with : Network → Node → Option Node → KoordeNode → Run KoordeNode
continue_with net succ none n = replace_successor net succ n
continue_with net succ (some pred) n = adopt_predecessor net succ pred n

-- The node that a call returned, nil with an error.
abbrev pub node_or_nil : Result Client.ClientError (Option Node) → Option Node
node_or_nil (returned node) = node
node_or_nil (refused e) = none

unfoldable pub stabilize_successor : Network → KoordeNode → Run KoordeNode
stabilize_successor net n = elim (first_successor n.rt) [
  | none ↦ finishes n
  | some succ ↦ if equal succ.id n.rt.self.id then continue_with net succ n.rt.predecessor n else do
    got ← pooled succ.addr n
    elim got.1 [
      | none ↦ finishes got.0
      | some client ↦
          continue_with net succ (node_or_nil (Client.get_predecessor false client n.rt.space))
            got.0
    ]
]

-- newList[1:]: the remote list up to a node with the identifier of self, then nil.
unfoldable pub fill_list : ℕ → Node → RoutingEntries → RoutingEntries
fill_list zero self remote = []
fill_list (suc left) self [] = replicate (suc left) none
fill_list (suc left) self (none ∷ remote) = none ∷ fill_list left self remote
fill_list (suc left) self (some nd ∷ remote) =
    if equal nd.id self.id then replicate (suc left) none else some nd ∷ fill_list left self remote

-- The nodes by their address.
unfoldable pub address_set : List Node → List (Bytes × Node)
address_set [] = []
address_set (nd ∷ nodes) = insert nd.addr nd (address_set nodes)

-- AddRef, and Release, for the addresses of the first set that are not in the second.
unfoldable pub keep_new :
    Network → List (Bytes × Node) → List (Bytes × Node) → KoordeNode → Run KoordeNode
keep_new net [] old n = finishes n
keep_new net ((addr, nd) ∷ new) old n = elim (lookup addr old) [
  | some x ↦ keep_new net new old n
  | none ↦ do m ← keep_address net addr n; keep_new net new old m
]

unfoldable pub drop_gone :
    Network → List (Bytes × Node) → List (Bytes × Node) → KoordeNode → Run KoordeNode
drop_gone net [] new n = finishes n
drop_gone net ((addr, nd) ∷ old) new n = elim (lookup addr new) [
  | some x ↦ drop_gone net old new n
  | none ↦ do m ← drop_address net addr n; drop_gone net old new m
]

-- The references of the old nodes exchanged for those of the new ones, around a change of the table.
unfoldable pub exchange :
    Network → List Node → List Node → RoutingTable → KoordeNode → Run KoordeNode
exchange net old new rt n = do
  added ← keep_new net (address_set new) (address_set old) n
  drop_gone net (address_set old) (address_set new) (with_table rt added)

unfoldable pub fix_successor_list : Network → KoordeNode → Run KoordeNode
fix_successor_list net n = elim (first_successor n.rt) [
  | none ↦ finishes n
  | some succ ↦ if equal succ.id n.rt.self.id then finishes n else do
    got ← pooled succ.addr n
    elim got.1 [
      | none ↦ finishes got.0
      | some client ↦ elim (Client.get_successor_list false client n.rt.space) [
        | refused e ↦ finishes got.0
        | returned remote ↦
            let new = some succ ∷ fill_list (n.rt.space.succ_list_size - 1) n.rt.self remote in
            exchange net (successor_list n.rt) (known_nodes new) (set_successor_list new n.rt) got.0
      ]
    ]
]

unfoldable pub check_predecessor : Network → KoordeNode → Run KoordeNode
check_predecessor net n = elim n.rt.predecessor [
  | none ↦ finishes n
  | some pred ↦ if equal pred.id n.rt.self.id then finishes n else do
    got ← pooled pred.addr n
    elim got.1 [
      | none ↦ finishes (with_table (set_predecessor none n.rt) got.0)
      | some client ↦ elim (Client.ping false client) [
        | returned u ↦ finishes got.0
        | refused e ↦ do
          m ← drop_address net pred.addr got.0
          finishes (with_table (set_predecessor none n.rt) m)
      ]
    ]
]

-- The body of the loop "Chord-style stabilizers", at one tick.
unfoldable pub stabilizer_tick : Network → KoordeNode → Run KoordeNode
stabilizer_tick net n = do
  a ← stabilize_successor net n
  b ← fix_successor_list net a
  check_predecessor net b

-- The loop over the ticks, each of which meets a network of its own.
unfoldable pub stabilizer_loop : List Network → KoordeNode → Run KoordeNode
stabilizer_loop [] n = finishes n
stabilizer_loop (net ∷ later) n = do m ← stabilizer_tick net n; stabilizer_loop later m
