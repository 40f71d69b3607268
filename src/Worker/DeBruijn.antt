-- ===== src/Worker/DeBruijn.antt =====
-- internal/node/logicnode/worker.go: the de Bruijn window of a node. `int64` is the conversion of a
-- big number of EstimateNetworkSize.
use koorde_dht_web_cache.Prelude.{
  ℕ, zero, suc, ◌-◌, false, Option, none, some, [], ◌∷◌, if◌then◌else◌, leb, length, ◌==◌,
  replicate, ℤ, pos, ok, err, panic, returned, refused,
}
use koorde_dht_web_cache.Domain.Hex.{Node}
use koorde_dht_web_cache.Domain.Ring.{equal}
use koorde_dht_web_cache.Domain.Target.{compute_fault_tolerant_target}
use koorde_dht_web_cache.Routing.{
  RoutingEntries, known_nodes, some_entries, successor_list, de_bruijn_list, set_de_bruijn_list,
}
use koorde_dht_web_cache.Rpc as Client
use koorde_dht_web_cache.Actions.{
  Run, finishes, panics, ◌>>=◌, Network, KoordeNode, find_successor, pooled_or_dialed,
}
use koorde_dht_web_cache.Worker.{exchange}
use koorde_dht_web_cache.Estimate.{estimate_network_size}

unfoldable pub update_de_bruijn_window : Network → RoutingEntries → KoordeNode → Run KoordeNode
update_de_bruijn_window net new n =
    exchange net (de_bruijn_list n.rt) (known_nodes new) (set_de_bruijn_list new n.rt) n

-- newNodes[1:] of fixDeBruijn: as many entries of the list as there is room for, then nil.
unfoldable pub fill_window : ℕ → RoutingEntries → RoutingEntries
fill_window zero list = []
fill_window (suc left) [] = replicate (suc left) none
fill_window (suc left) (nd ∷ list) = nd ∷ fill_window left list

unfoldable pub install_window : Network → Node → RoutingEntries → KoordeNode → Run KoordeNode
install_window net anchor list n =
    update_de_bruijn_window net (some anchor ∷ fill_window (n.rt.space.graph_grade - 1) list) n

-- Step 3, with the anchor.
unfoldable pub build_window : Network → Option Node → KoordeNode → Run KoordeNode
build_window net none n = finishes n
build_window net (some anchor) n =
    if equal anchor.id n.rt.self.id
    then install_window net anchor (some_entries (successor_list n.rt)) n
    else do
      got ← pooled_or_dialed net anchor.addr n
      elim got.1 [
        | none ↦ finishes got.0
        | some client ↦ elim (Client.get_successor_list false client n.rt.space) [
          | refused e ↦ finishes got.0
          | returned list ↦ install_window net anchor list got.0
        ]
      ]

-- Step 2, with the successor of the target.
unfoldable pub window_from : Network → Node → KoordeNode → Run KoordeNode
window_from net succ n =
    if equal succ.id n.rt.self.id then build_window net n.rt.predecessor n else do
      got ← pooled_or_dialed net succ.addr n
      elim got.1 [
        | none ↦ finishes got.0
        | some client ↦ elim (Client.get_predecessor false client n.rt.space) [
          | refused e ↦ finishes got.0
          | returned anchor ↦ build_window net anchor got.0
        ]
      ]

unfoldable pub fix_de_bruijn : (ℕ → ℤ) → Network → KoordeNode → Run KoordeNode
fix_de_bruijn int64 net n =
    elim (compute_fault_tolerant_target n.rt.space n.rt.self.id
      (pos (estimate_network_size int64 n.rt))) [
        | panic ↦ panics
        | err e ↦ finishes n
        | ok target ↦ do
          found ← find_successor false target n
          elim found.result [
            | refused e ↦ finishes found.node
            | returned none ↦ finishes found.node
            | returned (some succ) ↦ window_from net succ found.node
          ]
      ]

-- newNodes[1:] of seedDeBruijnWindow: nil entries of the list are passed over.
unfoldable pub fill_slots : ℕ → RoutingEntries → RoutingEntries
fill_slots zero list = []
fill_slots (suc left) [] = replicate (suc left) none
fill_slots (suc left) (none ∷ list) = fill_slots (suc left) list
fill_slots (suc left) (some cand ∷ list) = some cand ∷ fill_slots left list

unfoldable pub seed_from : Network → Node → ℕ → RoutingEntries → KoordeNode → Run KoordeNode
seed_from net anchor current_filled list n =
    let new = some anchor ∷ fill_slots (n.rt.space.graph_grade - 1) list in
    if leb (length (known_nodes new)) current_filled
    then finishes n
    else update_de_bruijn_window net new n

unfoldable pub seed_de_bruijn_window : Network → Option Node → KoordeNode → Run KoordeNode
seed_de_bruijn_window net none n = finishes n
seed_de_bruijn_window net (some anchor) n =
    let required = n.rt.space.graph_grade in
    let current_filled = length (de_bruijn_list n.rt) in
    if required == 0
    then finishes n
    else (if leb required current_filled then finishes n else do
      got ← pooled_or_dialed net anchor.addr n
      elim got.1 [
        | none ↦ finishes got.0
        | some client ↦ elim (Client.get_successor_list false client n.rt.space) [
          | refused e ↦ finishes got.0
          | returned list ↦ seed_from net anchor current_filled list got.0
        ]
      ])
