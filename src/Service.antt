-- ===== src/Service.antt =====
-- internal/node/logicnode/operation.go: the calls that other nodes and the clients of the DHT make of
-- a Koorde node: HandleFindSuccessor, Put, Get, Delete, RetrieveLocal, RemoveLocal and the transfer of
-- resources that Notify starts. A call runs without others between its steps.
pub mod Laws
pub mod Ends
pub mod Alone
use koorde_dht_web_cache.Prelude.{
  ℕ, Bool, true, false, Option, none, some, List, [], ◌∷◌, if◌then◌else◌, Bytes, length, ◌==◌,
  Result, returned, refused,
}
use koorde_dht_web_cache.Prelude.Maps.{lookup, insert, remove}
use koorde_dht_web_cache.Domain.Space.{is_valid_id}
use koorde_dht_web_cache.Domain.Hex.{Node, Resource, to_hex_string}
use koorde_dht_web_cache.Domain.Proto.{ProtoNode, node_to_proto_dht}
use koorde_dht_web_cache.Domain.Ring.{equal}
use koorde_dht_web_cache.Storage as MemoryStorage
use koorde_dht_web_cache.Storage.{Storage, StorageError}
use koorde_dht_web_cache.Membership.{LogicNode, store_local}
use koorde_dht_web_cache.Rpc.{Stub, ClientError, store_remote, retrieve_remote, remove_remote}
use koorde_dht_web_cache.Lookup.FindSuccessor.{
  LookupState, LookupError, Lookup, answer, find_successor_init, find_successor_step,
}
use koorde_dht_web_cache.Actions.{
  Run, finishes, ◌>>=◌, Network, KoordeNode, Found, find_successor, after_lookup, lookup_fuel,
  pooled, pooled_or_dialed,
}

pub data ServiceError : Type 0 where
  request_ended no_successor not_responsible no_connection : ServiceError
  missing_target_id invalid_target_id invalid_current_i invalid_kshift invalid_mode : ServiceError
  successor_not_found : ServiceError
  lookup_failed : LookupError → ServiceError
  storage_failed : StorageError → ServiceError
  remote_failed : ClientError → ServiceError

-- A request as it comes from the wire: `mode` may be unset.
pub data RequestMode : Type 0 where
  initial_mode unset_mode : RequestMode
  step_mode : Bytes → Bytes → RequestMode

pub record Request : Type 0 where
  pub target_id : Bytes
  pub mode : RequestMode

abbrev pub Served : Type 0 → Type 0
Served A = Run (KoordeNode × Result ServiceError A)

-- The end of HandleFindSuccessor: the answer of the lookup as a response.
unfoldable pub respond : Run Found → Served ProtoNode
respond run = do
  found ← run
  finishes (
    found.node,
    elim found.result [
      | refused e ↦ refused (lookup_failed e)
      | returned succ ↦ elim (node_to_proto_dht succ) [
        | none ↦ refused successor_not_found
        | some node ↦ returned node
      ]
    ],
  )

unfoldable pub dispatch : Bool → Bytes → RequestMode → KoordeNode → Served ProtoNode
dispatch ended target initial_mode n = respond (find_successor ended target n)
dispatch ended target (step_mode current_i kshift) n =
    if is_valid_id n.rt.space current_i
    then (if is_valid_id n.rt.space kshift
        then respond (
            after_lookup n (
              find_successor_step (lookup_fuel n.rt.space) n.rt target current_i kshift
                (record { pool = n.pool; ended = ended })))
        else finishes (n, refused invalid_kshift))
    else finishes (n, refused invalid_current_i)
dispatch ended target unset_mode n = finishes (n, refused invalid_mode)

unfoldable pub handle_find_successor : Bool → Option Request → KoordeNode → Served ProtoNode
handle_find_successor ended none n = finishes (n, refused missing_target_id)
handle_find_successor ended (some req) n =
    if length req.target_id == 0
    then finishes (n, refused missing_target_id)
    else (if is_valid_id n.rt.space req.target_id
        then dispatch ended req.target_id req.mode n
        else finishes (n, refused invalid_target_id))

-- The part that Put, Get and Delete share: the node that is responsible for a key, and the call of it,
-- here or there.
unfoldable pub at_successor :
    {A : Type 0}
    → Network
    → Bool
    → Bytes
    → (Bool → KoordeNode → KoordeNode × Result ServiceError A)
    → (Bool → Stub → Result ServiceError A)
    → KoordeNode
    → Served A
at_successor net ended key here there n = if ended then finishes (n, refused request_ended) else do
  found ← find_successor ended key n
  elim found.result [
    | refused e ↦ finishes (found.node, refused (lookup_failed e))
    | returned none ↦ finishes (found.node, refused no_successor)
    | returned (some succ) ↦
        if equal succ.id n.rt.self.id then finishes (here found.ended found.node) else do
          got ← pooled_or_dialed net succ.addr found.node
          finishes (
            got.0,
            elim got.1 [ none ↦ refused no_connection | some client ↦ there found.ended client ],
          )
  ]

-- StoreLocal, with its test of the context.
unfoldable pub put_here : Resource → Bool → KoordeNode → KoordeNode × Result ServiceError (Unit {0})
put_here res ended n =
    if ended
    then (n, refused request_ended)
    else (let stored = store_local res n in
        (stored.0, if stored.1 then returned tt else refused not_responsible))

unfoldable pub put_there : Resource → Bool → Stub → Result ServiceError (Unit {0})
put_there res ended client = elim (store_remote ended client (res ∷ [])).1 [
  | none ↦ returned tt
  | some e ↦ refused (remote_failed e)
]

unfoldable pub put : Network → Bool → Resource → KoordeNode → Served (Unit {0})
put net ended res n = at_successor net ended res.key (put_here res) (put_there res) n

unfoldable pub retrieve_local : Bytes → KoordeNode → Resource × Option StorageError
retrieve_local id n = MemoryStorage.get id n.storage

unfoldable pub remove_local : Bytes → KoordeNode → KoordeNode × Option StorageError
remove_local id n =
    let deleted = MemoryStorage.delete id n.storage in (record n { storage = deleted.0 }, deleted.1)

unfoldable pub get_here :
    Bytes → Bool → KoordeNode → KoordeNode × Result ServiceError (Option Resource)
get_here id ended n =
    let got = retrieve_local id n in
    (n, elim got.1 [ none ↦ returned (some got.0) | some e ↦ refused (storage_failed e) ])

unfoldable pub get : Network → Bool → Bytes → KoordeNode → Served (Option Resource)
get net ended id n =
    at_successor net ended id (get_here id)
      (λ done client. elim (retrieve_remote done client n.rt.space id) [
        | returned res ↦ returned res
        | refused e ↦ refused (remote_failed e)
      ])
      n

unfoldable pub delete_here : Bytes → Bool → KoordeNode → KoordeNode × Result ServiceError (Unit {0})
delete_here id ended n =
    let removed = remove_local id n in
    (removed.0, elim removed.1 [ none ↦ returned tt | some e ↦ refused (storage_failed e) ])

unfoldable pub delete : Network → Bool → Bytes → KoordeNode → Served (Unit {0})
delete net ended id n =
    at_successor net ended id (delete_here id)
      (λ done client. elim (remove_remote done client id) [
        | returned u ↦ returned tt
        | refused e ↦ refused (remote_failed e)
      ])
      n

-- The set `success`, by the text of a key: the resources less those that failed.
unfoldable pub all_keys : List Resource → List (Bytes × Unit {0})
all_keys [] = []
all_keys (r ∷ resources) = insert (to_hex_string false r.key) tt (all_keys resources)

unfoldable pub without_keys : List Resource → List (Bytes × Unit {0}) → List (Bytes × Unit {0})
without_keys [] success = success
without_keys (r ∷ failed) success = without_keys failed (remove (to_hex_string false r.key) success)

unfoldable pub delete_sent : List (Bytes × Unit {0}) → List Resource → Storage → Storage
delete_sent success [] s = s
delete_sent success (r ∷ resources) s = elim (lookup (to_hex_string false r.key) success) [
  | none ↦ delete_sent success resources s
  | some u ↦ delete_sent success resources (MemoryStorage.delete r.key s).0
]

unfoldable pub transfer_resources_async : Node → List Resource → KoordeNode → Run KoordeNode
transfer_resources_async p resources n = do
  got ← pooled p.addr n
  elim got.1 [
    | none ↦ finishes got.0
    | some client ↦
        let sent = store_remote false client resources in
        elim sent.1 [
          | some e ↦ finishes got.0
          | none ↦ finishes (record got.0 {
            storage =
                delete_sent (without_keys sent.0 (all_keys resources)) resources got.0.storage;
          })
        ]
  ]
