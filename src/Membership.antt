-- ===== src/Membership.antt =====
-- internal/node/logicnode/operation.go: how a Koorde node learns of its predecessor, and which
-- resources it hands on and accepts. A call runs without others between its steps; its context has
-- not expired. `none` says that a call waits for ever for the mutex of the pool.
pub mod Laws
pub mod Storing
use koorde_dht_web_cache.Prelude.{
  Bool, true, false, Option, none, some, List, [], if◌then◌else◌, Bytes,
}
use koorde_dht_web_cache.Domain.Hex.{Node, Resource}
use koorde_dht_web_cache.Domain.Ring.{equal, between}
use koorde_dht_web_cache.Storage as MemoryStorage
use koorde_dht_web_cache.Storage.{Storage, between_keys}
use koorde_dht_web_cache.Routing.{RoutingTable, set_predecessor}
use koorde_dht_web_cache.Pool.{ClientPool, Reply, done, failed, waits, add_ref, release}

pub record LogicNode (C : Type 0) : Type 0 where
  pub rt : RoutingTable
  pub pool : ClientPool C
  pub storage : Storage

-- An error of the pool is logged and passed over.
unfoldable pub unless_waiting : {A X : Type 0} → Reply A → Option X → Option X
unless_waiting (done a) next = next
unless_waiting (failed e) next = next
unless_waiting waits next = none

-- The test of Notify: no predecessor is set, or p is a better candidate.
unfoldable pub is_candidate : {C : Type 0} → Node → LogicNode C → Bool
is_candidate p n = elim n.rt.predecessor [
  | none ↦ true
  | some pred ↦ between p.id pred.id n.rt.self.id
]

unfoldable pub release_old :
    {C : Type 0} → (C → Bool) → Option Node → LogicNode C → Option (LogicNode C)
release_old close_fails none n = some n
release_old close_fails (some pred) n =
    let released = release close_fails pred.addr n.pool in
    unless_waiting released.1 (some (record n { pool = released.0 }))

-- The node after Notify, and the resources that it starts to transfer to p.
unfoldable pub notify :
    {C : Type 0}
    → Option C
    → (C → Bool)
    → Option Node
    → LogicNode C
    → Option (LogicNode C × List Resource)
notify dialed close_fails none n = some (n, [])
notify dialed close_fails (some p) n =
    if equal p.id n.rt.self.id
    then some (n, [])
    else (if is_candidate p n
        then (let added = add_ref dialed p.addr n.pool in
            unless_waiting added.1
              (elim (release_old close_fails n.rt.predecessor
                (record n { pool = added.0; rt = set_predecessor (some p) n.rt })) [
                  | none ↦ none
                  | some next ↦ some (next, between_keys next.rt.self.id p.id next.storage)
                ]))
        else some (n, []))

-- StoreLocal: the node, and whether it accepted the resource.
unfoldable pub store_local : {C : Type 0} → Resource → LogicNode C → LogicNode C × Bool
store_local resource n = elim n.rt.predecessor [
  | none ↦ (record n { storage = MemoryStorage.put resource n.storage }, true)
  | some pred ↦
      if between resource.key pred.id n.rt.self.id
      then (record n { storage = MemoryStorage.put resource n.storage }, true)
      else (n, false)
]

unfoldable pub handle_leave :
    {C : Type 0} → (C → Bool) → Option Node → LogicNode C → Option (LogicNode C)
handle_leave close_fails none n = some n
handle_leave close_fails (some leave) n = elim n.rt.predecessor [
  | none ↦ some n
  | some pred ↦
      if equal leave.id pred.id
      then release_old close_fails (some leave) (record n { rt = set_predecessor none n.rt })
      else some n
]
