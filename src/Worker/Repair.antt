-- ===== src/Worker/Repair.antt =====
-- internal/node/logicnode/worker.go: resourceRepair, which sends on the resources that the node does
-- not own; internal/node/logicnode/node.go: Leave, which sends on all of them, and Stop.
use koorde_dht_web_cache.Prelude.{
  Bool, true, false, none, some, List, [], ◌∷◌, if◌then◌else◌, returned, refused,
}
use koorde_dht_web_cache.Domain.Hex.{Node, Resource}
use koorde_dht_web_cache.Domain.Ring.{equal}
use koorde_dht_web_cache.Storage as MemoryStorage
use koorde_dht_web_cache.Storage.{between_keys}
use koorde_dht_web_cache.Routing.{first_successor}
use koorde_dht_web_cache.Pool.{close}
use koorde_dht_web_cache.Rpc as Client
use koorde_dht_web_cache.Rpc.{Stub}
use koorde_dht_web_cache.Actions.{
  Run, finishes, ◌>>=◌, Network, KoordeNode, Found, find_successor, pooled, pooled_or_dialed,
  after_reply,
}

unfoldable pub delete_local : Resource → KoordeNode → KoordeNode
delete_local res n = record n { storage = (MemoryStorage.delete res.key n.storage).0 }

-- One resource, sent to the node that is responsible for it; a copy stays here if that fails.
unfoldable pub send_on : Network → Bool → Resource → Node → KoordeNode → Run KoordeNode
send_on net ended res resp n = do
  got ← pooled_or_dialed net resp.addr n
  finishes (elim got.1 [
    | none ↦ got.0
    | some client ↦ elim (Client.store_remote ended client (res ∷ [])).1 [
      | some e ↦ got.0
      | none ↦ delete_local res got.0
    ]
  ])

unfoldable pub repair_found : Network → Resource → Found → Run KoordeNode
repair_found net res found = elim found.result [
  | refused e ↦ finishes found.node
  | returned none ↦ finishes found.node
  | returned (some resp) ↦
      if equal resp.id found.node.rt.self.id
      then finishes found.node
      else send_on net found.ended res resp found.node
]

-- The loop; the context of the worker may end in a lookup.
unfoldable pub repair_all : Network → Bool → List Resource → KoordeNode → Run KoordeNode
repair_all net ended [] n = finishes n
repair_all net ended (res ∷ resources) n = do
  found ← find_successor ended res.key n
  m ← repair_found net res found
  repair_all net found.ended resources m

unfoldable pub resource_repair : Network → Bool → KoordeNode → Run KoordeNode
resource_repair net ended n = elim n.rt.predecessor [
  | none ↦ finishes n
  | some pred ↦ repair_all net ended (between_keys n.rt.self.id pred.id n.storage) n
]

-- A resource that the successor did not take, sent to the node that the successor names.
unfoldable pub retry_one : Network → Stub → Resource → KoordeNode → Run KoordeNode
retry_one net client res n = elim (Client.find_successor_start false client n.rt.space res.key) [
  | refused e ↦ finishes n
  | returned none ↦ finishes n
  | returned (some correct) ↦ if equal correct.id n.rt.self.id then finishes n else do
    got ← pooled_or_dialed net correct.addr n
    elim got.1 [
      | none ↦ finishes got.0
      | some other ↦ elim (Client.store_remote false other (res ∷ [])).1 [
        | some e ↦ finishes got.0
        | none ↦ finishes got.0
      ]
    ]
]

unfoldable pub retry_all : Network → Stub → List Resource → KoordeNode → Run KoordeNode
retry_all net client [] n = finishes n
retry_all net client (res ∷ failed) n = do
  m ← retry_one net client res n
  retry_all net client failed m

-- The resources to try again, after the transfer of all of them.
unfoldable pub to_retry : Stub → List Resource → List Resource
to_retry client [] = []
to_retry client (res ∷ resources) =
    let sent = Client.store_remote false client (res ∷ resources) in
    elim sent.1 [ none ↦ sent.0 | some e ↦ res ∷ resources ]

unfoldable pub transfer_all : Network → Stub → KoordeNode → Run (KoordeNode × Bool)
transfer_all net client n = do
  m ← retry_all net client (to_retry client (MemoryStorage.all n.storage)) n
  finishes (m, true)

-- Leave: the node, and whether it returned no error.
unfoldable pub leave_ring : Network → KoordeNode → Run (KoordeNode × Bool)
leave_ring net n = elim (first_successor n.rt) [
  | none ↦ finishes (n, true)
  | some succ ↦ if equal succ.id n.rt.self.id then finishes (n, true) else do
    got ← pooled succ.addr n
    elim got.1 [
      | none ↦ finishes (got.0, false)
      | some client ↦ elim (Client.leave false client (some n.rt.self)) [
        | refused e ↦ transfer_all net client got.0
        | returned u ↦ transfer_all net client got.0
      ]
    ]
]

unfoldable pub stop : Network → KoordeNode → Run KoordeNode
stop net n = do
  left ← leave_ring net n
  closed ← after_reply left.0 (close net.close_fails left.0.pool)
  finishes closed.0
