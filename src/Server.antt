-- ===== src/Server.antt =====
-- internal/node/server/dht_service.go: the handlers of the service that other nodes call, at a Koorde
-- node. A handler runs without others between its steps; its first argument says whether its context
-- has ended.
pub mod Laws
pub mod Clients
pub mod Listen
use koorde_dht_web_cache.Prelude.{
  Bool, Option, none, some, List, [], map, if◌then◌else◌, Bytes, length, ◌==◌, Result, returned,
  refused,
}
use koorde_dht_web_cache.Domain.Space.{is_valid_id}
use koorde_dht_web_cache.Domain.Hex.{Resource}
use koorde_dht_web_cache.Domain.Proto.{
  ProtoNode, ProtoResource, node_to_proto_dht, node_from_proto_dht, resource_to_proto_dht,
  resource_from_proto_dht,
}
use koorde_dht_web_cache.Storage.{StorageError, resource_not_found}
use koorde_dht_web_cache.Routing.{successor_list}
use koorde_dht_web_cache.Membership as Membership
use koorde_dht_web_cache.Actions.{Run, finishes, panics, stuck, ◌>>=◌, Network, KoordeNode}
use koorde_dht_web_cache.Service.{
  ServiceError, Request, handle_find_successor, retrieve_local, remove_local,
}

-- The status of a refused request; `node_refused` is an error that the node returned.
pub data Status : Type 0 where
  request_ended invalid_argument not_found internal : Status
  node_refused : ServiceError → Status

abbrev from_node : {A : Type 0} → Result ServiceError A → Result Status A
from_node (returned a) = returned a
from_node (refused e) = refused (node_refused e)

unfoldable pub find_successor :
    Bool → Option Request → KoordeNode → Run (KoordeNode × Result Status ProtoNode)
find_successor ended none n = finishes (n, refused invalid_argument)
find_successor ended (some req) n =
    if length req.target_id == 0
    then finishes (n, refused invalid_argument)
    else (if ended then finishes (n, refused request_ended) else do
      reply ← handle_find_successor ended (some req) n
      finishes (reply.0, from_node reply.1))

unfoldable pub get_predecessor : Bool → KoordeNode → Result Status (Option ProtoNode)
get_predecessor ended n = if ended then refused request_ended else elim n.rt.predecessor [
  | none ↦ refused not_found
  | some pred ↦ returned (node_to_proto_dht (some pred))
]

unfoldable pub get_successor_list : Bool → KoordeNode → Result Status (List (Option ProtoNode))
get_successor_list ended n =
    if ended
    then refused request_ended
    else returned (map (λ node. node_to_proto_dht (some node)) (successor_list n.rt))

-- Notify: the node, the resources that it starts to transfer, and the reply.
unfoldable pub notify :
    Network
    → Bool
    → Option ProtoNode
    → KoordeNode
    → Run (KoordeNode × List Resource × Result Status (Unit {0}))
notify net ended none n =
    finishes (n, [], refused (if ended then request_ended else invalid_argument))
notify net ended (some req) n =
    if ended
    then finishes (n, [], refused request_ended)
    else (if length req.id == 0
        then finishes (n, [], refused invalid_argument)
        else elim (node_from_proto_dht n.rt.space (some req)) [
          | refused e ↦ finishes (n, [], refused invalid_argument)
          | returned node ↦ elim (Membership.notify (net.dial req.address) net.close_fails node n) [
            | none ↦ stuck
            | some next ↦ finishes (next.0, next.1, returned tt)
          ]
        ])

unfoldable pub ping : Bool → Result Status (Unit {0})
ping ended = if ended then refused request_ended else returned tt

-- What the stream of a Store request brings: the end of the context, a failure to receive, a message
-- and what follows it, or the end of the stream, with whether the reply is sent.
pub data Incoming : Type 0 where
  canceled broken : Incoming
  end_of_stream : Bool → Incoming
  message : Option ProtoResource → Incoming → Incoming

unfoldable pub store : Incoming → KoordeNode → Run (KoordeNode × Result Status (Unit {0}))
store canceled n = finishes (n, refused request_ended)
store broken n = finishes (n, refused internal)
store (end_of_stream sent) n = finishes (n, if sent then returned tt else refused internal)
store (message none later) n = finishes (n, refused invalid_argument)
store (message (some res) later) n = elim (resource_from_proto_dht n.rt.space (some res)) [
  | refused e ↦ finishes (n, refused invalid_argument)
  | returned converted ↦ elim converted [
    | none ↦ panics
    | some resource ↦
        let stored = Membership.store_local resource n in
        if stored.1 then store later stored.0 else finishes (stored.0, refused internal)
  ]
]

abbrev storage_status : StorageError → Status
storage_status resource_not_found = not_found

unfoldable pub retrieve : Bool → Option Bytes → KoordeNode → Result Status (Option ProtoResource)
retrieve ended none n = refused (if ended then request_ended else invalid_argument)
retrieve ended (some key) n =
    if ended
    then refused request_ended
    else (if length key == 0
        then refused invalid_argument
        else (if is_valid_id n.rt.space key
            then (let got = retrieve_local key n in
                elim got.1 [
                  | none ↦ returned (resource_to_proto_dht (some got.0))
                  | some e ↦ refused (storage_status e)
                ])
            else refused invalid_argument))

unfoldable pub remove : Bool → Option Bytes → KoordeNode → KoordeNode × Result Status (Unit {0})
remove ended none n = (n, refused (if ended then request_ended else invalid_argument))
remove ended (some key) n =
    if ended
    then (n, refused request_ended)
    else (if length key == 0
        then (n, refused invalid_argument)
        else (if is_valid_id n.rt.space key
            then (let removed = remove_local key n in
                (
                  removed.0,
                  elim removed.1 [ none ↦ returned tt | some e ↦ refused (storage_status e) ],
                ))
            else (n, refused invalid_argument)))

unfoldable pub leave :
    Network → Bool → Option ProtoNode → KoordeNode → Run (KoordeNode × Result Status (Unit {0}))
leave net ended none n = finishes (n, refused (if ended then request_ended else invalid_argument))
leave net ended (some req) n =
    if ended
    then finishes (n, refused request_ended)
    else (if length req.id == 0
        then finishes (n, refused invalid_argument)
        else elim (node_from_proto_dht n.rt.space (some req)) [
          | refused e ↦ finishes (n, refused internal)
          | returned node ↦ elim (Membership.handle_leave net.close_fails node n) [
            | none ↦ stuck
            | some next ↦ finishes (next, returned tt)
          ]
        ])
