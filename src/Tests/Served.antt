-- ===== src/Tests/Served.antt =====
-- Requests that a node serves to other nodes (internal/node/server).
use koorde_dht_web_cache.Prelude.{
  ◌≡◌, ◌↔◌, refl, true, false, some, [], ◌∷◌, bytes_compare, Result, returned,
}
use koorde_dht_web_cache.Domain.Ring.{between, cmp}
use koorde_dht_web_cache.Rpc.{RpcError, not_found, retrieve_remote}
use koorde_dht_web_cache.Actions.{KoordeNode, finishes}
use koorde_dht_web_cache.Server.{Status, store}
use koorde_dht_web_cache.Server.Laws.{
  stream_of, taken, takes_all, in_range, connected, store-stream_of, retrieve_remote-store,
}
use koorde_dht_web_cache.Tests.Stubs.{
  ring, ring-IsSpace, id_700, id_700-IsId, page, deaf, node_with,
}

abbrev to_error : Status → RpcError
to_error status = record { is_deadline = false; is_canceled = false; code = some not_found }

abbrev server : KoordeNode
server = node_with deaf

page-in_range : in_range server.rt page ≡ true
unfolding between cmp bytes_compare
page-in_range = refl

store-stream_of_example :
    (reply : Result Status (Unit {0})) × (store (stream_of (page ∷ page ∷ [])) server
      ≡ finishes
          (record server { storage = taken server.rt (page ∷ page ∷ []) server.storage }, reply))
    × ((reply ≡ returned tt) ↔ (takes_all server.rt (page ∷ page ∷ []) ≡ true))
store-stream_of_example = store-stream_of (page ∷ page ∷ []) server

retrieve_remote-store_example :
    (m : KoordeNode) × (store (stream_of (page ∷ [])) server ≡ finishes (m, returned tt))
    × (retrieve_remote false (connected to_error m deaf) ring id_700 ≡ returned (some page))
retrieve_remote-store_example =
    retrieve_remote-store to_error deaf server page ring-IsSpace id_700-IsId page-in_range
