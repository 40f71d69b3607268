-- ===== src/Chord.antt =====
-- internal/node/chord: the other protocol of a node. routingtable.go is Chord/Fingers.antt, node.go is
-- here, stabilization.go is Chord/Stabilization.antt. A call runs without others between its steps, and
-- `ended` says that the context of a call has ended. A nil dereference panics.
pub mod Fingers
pub mod Stabilization
pub mod Laws
pub mod Pools
pub mod Isolated
use koorde_dht_web_cache.Prelude.{
  ℕ, Bool, true, false, ◌||◌, Option, none, some, List, [], ◌∷◌, if◌then◌else◌, Bytes, bytes_eq,
  length, ◌==◌, Result, returned, refused,
}
use koorde_dht_web_cache.Domain.Hex.{Node, Resource}
use koorde_dht_web_cache.Domain.Proto.{ProtoNode, node_to_proto_dht}
use koorde_dht_web_cache.Domain.Ring.{equal, between}
use koorde_dht_web_cache.Storage as MemoryStorage
use koorde_dht_web_cache.Storage.{Storage, StorageError}
use koorde_dht_web_cache.Pool.{
  ClientPool, Reply, done, failed, waits, get_from_pool, dial_ephemeral, close,
}
use koorde_dht_web_cache.Rpc as Client
use koorde_dht_web_cache.Rpc.{Stub, ClientError}
use koorde_dht_web_cache.Actions.{Run, finishes, panics, stuck, ◌>>=◌, Network}
use koorde_dht_web_cache.Chord.Fingers.{
  FingerTable, first_successor, set_successor, set_predecessor, closest_preceding_node,
}

pub record ChordNode : Type 0 where
  pub rt : FingerTable
  pub pool : ClientPool Stub
  pub storage : Storage

pub data ChordError : Type 0 where
  request_ended no_successor no_connection missing_target_id lookup_failed : ChordError
  no_peers same_id all_failed : ChordError
  remote : ClientError → ChordError
  storage_failed : StorageError → ChordError

unfoldable pub after_reply :
    {A : Type 0} → ChordNode → ClientPool Stub × Reply A → Run (ChordNode × Option A)
after_reply n (pool, waits) = stuck
after_reply n (pool, failed e) = finishes (record n { pool = pool }, none)
after_reply n (pool, done a) = finishes (record n { pool = pool }, some a)

unfoldable pub pooled : Bytes → ChordNode → Run (ChordNode × Option Stub)
pooled addr n = after_reply n (get_from_pool addr n.pool)

unfoldable pub dialed : Network → Bytes → ChordNode → Run (ChordNode × Option Stub)
dialed net addr n = after_reply n (dial_ephemeral (net.dial addr) addr n.pool)

abbrev pub Served : Type 0 → Type 0
Served A = Run (ChordNode × Result ChordError A)

abbrev pub from_client : {A : Type 0} → Result ClientError A → Result ChordError A
from_client (returned a) = returned a
from_client (refused e) = refused (remote e)

-- The node that a lookup is sent on to: the closest finger, or the successor if that is self.
unfoldable pub next_node : FingerTable → Node → Bytes → Node
next_node rt succ id =
    let closest = closest_preceding_node id rt in
    if equal closest.id rt.self.id then succ else closest

unfoldable pub look_up : Bool → Bytes → ChordNode → Served (Option Node)
look_up ended id n = elim (first_successor n.rt) [
  | none ↦ finishes (n, refused no_successor)
  | some succ ↦
      if between id n.rt.self.id succ.id || equal id succ.id
      then finishes (n, returned (some succ))
      else do
        got ← pooled (next_node n.rt succ id).addr n
        finishes (
          got.0,
          elim got.1 [
            | none ↦ refused no_connection
            | some client ↦ from_client (Client.find_successor_start ended client n.rt.space id)
          ],
        )
]

-- The part that Put, Get and Delete share.
unfoldable pub at_successor :
    {A : Type 0}
    → Bool
    → Bytes
    → (ChordNode → ChordNode × Result ChordError A)
    → (Stub → Result ChordError A)
    → ChordNode
    → Served A
at_successor ended key here there n = if ended then finishes (n, refused request_ended) else do
  found ← look_up ended key n
  elim found.1 [
    | refused e ↦ finishes (found.0, refused e)
    | returned none ↦ panics
    | returned (some succ) ↦ if equal succ.id n.rt.self.id then finishes (here found.0) else do
      got ← pooled succ.addr found.0
      finishes (got.0, elim got.1 [ none ↦ refused no_connection | some client ↦ there client ])
  ]

unfoldable pub store_local : Resource → ChordNode → ChordNode
store_local res n = record n { storage = MemoryStorage.put res n.storage }

unfoldable pub put : Bool → Resource → ChordNode → Served (Unit {0})
put ended res n =
    at_successor ended res.key (λ m. (store_local res m, returned tt))
      (λ client. elim (Client.store_remote ended client (res ∷ [])).1 [
        | none ↦ returned tt
        | some e ↦ refused (remote e)
      ])
      n

unfoldable pub get : Bool → Bytes → ChordNode → Served (Option Resource)
get ended id n =
    at_successor ended id
      (λ m.
        let got = MemoryStorage.get id m.storage in
        (m, elim got.1 [ none ↦ returned (some got.0) | some e ↦ refused (storage_failed e) ]))
      (λ client. from_client (Client.retrieve_remote ended client n.rt.space id)) n

unfoldable pub delete : Bool → Bytes → ChordNode → Served (Unit {0})
delete ended id n =
    at_successor ended id
      (λ m.
        let deleted = MemoryStorage.delete id m.storage in
        (
          record m { storage = deleted.0 },
          elim deleted.1 [ none ↦ returned tt | some e ↦ refused (storage_failed e) ],
        ))
      (λ client. from_client (Client.remove_remote ended client id)) n

-- The request's target, none for a nil request; the node of the response may be nil.
unfoldable pub handle_find_successor : Bool → Option Bytes → ChordNode → Served (Option ProtoNode)
handle_find_successor ended none n = finishes (n, refused missing_target_id)
handle_find_successor ended (some target) n =
    if length target == 0 then finishes (n, refused missing_target_id) else do
      found ← look_up ended target n
      finishes (
        found.0,
        elim found.1 [
          | refused e ↦ refused lookup_failed
          | returned succ ↦ returned (node_to_proto_dht succ)
        ],
      )

unfoldable pub notify : Option Node → ChordNode → ChordNode
notify none n = n
notify (some node) n = elim n.rt.predecessor [
  | none ↦ record n { rt = set_predecessor (some node) n.rt }
  | some pred ↦
      if between node.id pred.id n.rt.self.id
      then record n { rt = set_predecessor (some node) n.rt }
      else n
]

-- The successor that the first peer to answer names.
unfoldable pub ask_peers : Network → List Bytes → ChordNode → Served Node
ask_peers net [] n = finishes (n, refused all_failed)
ask_peers net (addr ∷ peers) n = if bytes_eq addr n.rt.self.addr then ask_peers net peers n else do
  got ← dialed net addr n
  elim got.1 [
    | none ↦ ask_peers net peers got.0
    | some client ↦ elim (Client.find_successor_start false client n.rt.space n.rt.self.id) [
      | refused e ↦ ask_peers net peers got.0
      | returned none ↦ ask_peers net peers got.0
      | returned (some succ) ↦
          if equal succ.id n.rt.self.id
          then finishes (got.0, refused same_id)
          else finishes (got.0, returned succ)
    ]
  ]

unfoldable pub join : Network → List Bytes → ChordNode → Served (Unit {0})
join net [] n = finishes (n, refused no_peers)
join net (addr ∷ peers) n = do
  asked ← ask_peers net (addr ∷ peers) n
  finishes (elim asked.1 [
    | refused e ↦ (asked.0, refused e)
    | returned succ ↦ (record asked.0 { rt = set_successor 0 (some succ) asked.0.rt }, returned tt)
  ])

unfoldable pub create_new_dht : ChordNode → ChordNode
create_new_dht n = record n { rt = set_predecessor none (set_successor 0 (some n.rt.self) n.rt) }

unfoldable pub stop : Network → ChordNode → Run ChordNode
stop net n = do closed ← after_reply n (close net.close_fails n.pool); finishes closed.0
