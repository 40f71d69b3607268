-- ===== src/Tests/Calls.antt =====
-- Lookups, services, tasks and calls of nodes (internal/node/logicnode, internal/node/client).
use koorde_dht_web_cache.Prelude.{ℕ, ◌≡◌, arith, false, Option, some, returned, [], ◌∷◌, pos}
use koorde_dht_web_cache.Routing.{some_entries}
use koorde_dht_web_cache.Lookup.FindSuccessor.{look_up}
use koorde_dht_web_cache.Lookup.NextHop.{find_next_hop}
use koorde_dht_web_cache.Lookup.NextHop.Found.{IsNextHop, find_next_hop-IsNextHop}
use koorde_dht_web_cache.Lookup.Ends.{Decides, look_up-Decides}
use koorde_dht_web_cache.Rpc.{Stub}
use koorde_dht_web_cache.Actions.Laws.{Finishes, Kept}
use koorde_dht_web_cache.Service.{
  Request, step_mode, handle_find_successor, transfer_resources_async,
}
use koorde_dht_web_cache.Service.Laws.{
  connection, Transferred, handle_find_successor-Finishes, transfer_resources_async-Finishes,
}
use koorde_dht_web_cache.Worker.{stabilizer_loop}
use koorde_dht_web_cache.Worker.Laws.{IsActive, stabilizer_loop-IsActive}
use koorde_dht_web_cache.Tests.Stubs.{
  ring-IsSpace, id_519, id_700, id_300-IsId, id_519-IsId, id_700-IsId, here, there, page, table,
  table_first, table_hops, table-IsRouting, table-IsStanding, deaf, willing, net, pool_of,
  pool_of-IsOpen, node_with,
}

look_up-Decides_example :
    Decides (look_up 21 table id_700 (record { pool = pool_of deaf; ended = false }))
look_up-Decides_example =
    look_up-Decides table ring-IsSpace (omega arith) (omega arith) table_hops id_300-IsId
      id_519-IsId 21 id_700 table_first id_700-IsId (omega arith)
      (record { pool = pool_of deaf; ended = false }) (pool_of-IsOpen deaf)

-- A node that answers every step with the node 700.
abbrev knowing : Stub
knowing = record deaf {
  find_successor = λ r. returned (some (record { id = id_700; address = 99 ∷ [] }));
}

find_next_hop-IsNextHop_example :
    (i : ℕ) × (find_next_hop (some_entries (there ∷ here ∷ [])) id_700 ≡ pos i)
    × IsNextHop (some_entries (there ∷ here ∷ [])) id_700 i
find_next_hop-IsNextHop_example =
    find_next_hop-IsNextHop id_700-IsId (there ∷ here ∷ []) (omega arith)
      (id_519-IsId, (id_300-IsId, tt))

abbrev request : Option Request
request = some (record { target_id = id_700; mode = step_mode id_519 id_700 })

handle_find_successor-Finishes_example :
    Finishes
      (handle_find_successor false request (node_with deaf))
      (λ reply. Kept (node_with deaf) reply.0)
handle_find_successor-Finishes_example =
    handle_find_successor-Finishes false request (node_with deaf) table-IsRouting
      (pool_of-IsOpen deaf)
      (
        (omega arith, (omega arith, tt)),
        ((omega arith, (omega arith, tt)), (omega arith, (omega arith, tt))),
      )

transfer_resources_async-Finishes_example :
    Finishes (transfer_resources_async there (page ∷ []) (node_with willing)) (λ m.
      Transferred
        (connection there.addr (pool_of willing))
        (page ∷ [])
        (node_with willing).storage
        m.storage)
transfer_resources_async-Finishes_example =
    transfer_resources_async-Finishes there (page ∷ []) (node_with willing) (pool_of-IsOpen willing)

abbrev node_with-IsActive : IsActive (node_with deaf)
node_with-IsActive = record { table = table-IsStanding; pool = pool_of-IsOpen deaf }

stabilizer_loop-IsActive_example :
    Finishes (stabilizer_loop (net ∷ net ∷ []) (node_with deaf)) IsActive
stabilizer_loop-IsActive_example =
    stabilizer_loop-IsActive (net ∷ net ∷ []) (node_with deaf) node_with-IsActive
