-- ===== src/Server/Clients.antt =====
-- internal/node/server/client_service.go: the handlers of the service for clients, at a Koorde node.
-- SHA-1 is the first argument of those that hash a key; `ended` says whether the context of the request
-- has ended.
pub mod Laws
pub mod Answers
use koorde_dht_web_cache.Prelude.{
  ℕ, suc, Bool, true, false, Option, none, some, List, [], ◌∷◌, map, if◌then◌else◌, Bytes, length,
  ◌==◌, Outcome, ok, err, panic, Result, returned, refused,
}
use koorde_dht_web_cache.Domain.Hex.{Node, Resource, to_hex_string}
use koorde_dht_web_cache.Domain.Text.{new_id_from_string, from_hex_string}
use koorde_dht_web_cache.Domain.Proto.{
  NodeInfo, ClientResource, node_to_proto_client, resource_from_proto_client,
}
use koorde_dht_web_cache.Storage as MemoryStorage
use koorde_dht_web_cache.Storage.{StorageError, resource_not_found}
use koorde_dht_web_cache.Routing.{successor_list, de_bruijn_list}
use koorde_dht_web_cache.Lookup.FindSuccessor.{look_up}
use koorde_dht_web_cache.Actions.{
  Run, finishes, panics, ◌>>=◌, Network, KoordeNode, Found, after_lookup, lookup_fuel,
}
use koorde_dht_web_cache.Service as Service
use koorde_dht_web_cache.Service.{ServiceError, storage_failed}
use koorde_dht_web_cache.Server.{Status, request_ended, invalid_argument, not_found, internal}

abbrev pub Served : Type 0 → Type 0
Served A = Run (KoordeNode × Result Status A)

-- What the hash of a key makes of the node; the hash may panic.
abbrev hashed : {A B : Type 0} → Outcome A → (A → Run B) → Run B
hashed (ok a) next = next a
hashed (err e) next = panics
hashed panic next = panics

-- Put, once the request is not nil.
unfoldable pub put_resource :
    (Bytes → Bytes) → Network → Option ClientResource → KoordeNode → Served (Unit {0})
put_resource sha1 net none n = finishes (n, refused invalid_argument)
put_resource sha1 net (some req) n =
    if length req.key == 0
    then finishes (n, refused invalid_argument)
    else (if length req.value == 0
        then finishes (n, refused invalid_argument)
        else hashed (resource_from_proto_client sha1 n.rt.space (some req)) λ converted.
          elim converted [
            | none ↦ panics
            | some res ↦ do
              reply ← Service.put net false res n
              finishes (
                reply.0,
                elim reply.1 [ returned u ↦ returned tt | refused e ↦ refused internal ],
              )
          ])

-- A request holds a resource or nil, and may itself be nil.
unfoldable pub put :
    (Bytes → Bytes)
    → Network
    → Bool
    → Option (Option ClientResource)
    → KoordeNode
    → Served (Unit {0})
put sha1 net true req n = finishes (n, refused request_ended)
put sha1 net false none n = finishes (n, refused invalid_argument)
put sha1 net false (some resource) n = put_resource sha1 net resource n

-- The value of the resource that was found.
abbrev value_reply : Result ServiceError (Option Resource) → Result Status Bytes
value_reply (refused e) = refused internal
value_reply (returned none) = refused not_found
value_reply (returned (some res)) = returned res.value

unfoldable pub get : (Bytes → Bytes) → Network → Bool → Option Bytes → KoordeNode → Served Bytes
get sha1 net true key n = finishes (n, refused request_ended)
get sha1 net false none n = finishes (n, refused invalid_argument)
get sha1 net false (some key) n =
    if length key == 0
    then finishes (n, refused invalid_argument)
    else hashed (new_id_from_string sha1 n.rt.space key)
        λ id. do reply ← Service.get net false id n; finishes (reply.0, value_reply reply.1)

-- ErrResourceNotFound of the storage is found in the error that Delete of the node wraps it in.
abbrev delete_reply : Result ServiceError (Unit {0}) → Result Status (Unit {0})
delete_reply (returned u) = returned tt
delete_reply (refused (storage_failed resource_not_found)) = refused not_found
delete_reply (refused other) = refused internal

unfoldable pub delete :
    (Bytes → Bytes) → Network → Bool → Option Bytes → KoordeNode → Served (Unit {0})
delete sha1 net true key n = finishes (n, refused request_ended)
delete sha1 net false none n = finishes (n, refused invalid_argument)
delete sha1 net false (some key) n =
    if length key == 0
    then finishes (n, refused invalid_argument)
    else hashed (new_id_from_string sha1 n.rt.space key)
        λ id. do reply ← Service.delete net false id n; finishes (reply.0, delete_reply reply.1)

pub record StoreItem : Type 0 where
  pub id : Bytes
  pub item : ClientResource

-- What becomes of the message for a resource: the context has ended before it, it fails, or it is sent.
pub data Sending : Type 0 where
  ended_before send_fails sent : Sending

-- The messages of GetStore from resource i on, and its reply.
unfoldable pub stream_items :
    (ℕ → Sending) → ℕ → List Resource → List StoreItem × Result Status (Unit {0})
stream_items sending i [] = ([], returned tt)
stream_items sending i (r ∷ resources) =
    let later = stream_items sending (suc i) resources in
    elim (sending i) [
      | ended_before ↦ ([], refused request_ended)
      | send_fails ↦ ([], refused internal)
      | sent ↦ (
        record { id = to_hex_string true r.key; item = record { key = r.raw_key; value = r.value } }
            ∷ later.0,
        later.1,
      )
    ]

unfoldable pub get_store :
    Bool → (ℕ → Sending) → KoordeNode → List StoreItem × Result Status (Unit {0})
get_store ended sending n =
    if ended
    then ([], refused request_ended)
    else stream_items sending 0 (MemoryStorage.all n.storage)

pub record RoutingReply : Type 0 where
  pub self : Option NodeInfo
  pub predecessor : Option NodeInfo
  pub successors : List (Option NodeInfo)
  pub de_bruijn : List (Option NodeInfo)

unfoldable pub get_routing_table : Bool → KoordeNode → Result Status RoutingReply
get_routing_table ended n =
    if ended
    then refused request_ended
    else returned (record {
      self = node_to_proto_client (some n.rt.self);
      predecessor = node_to_proto_client n.rt.predecessor;
      successors = map (λ succ. node_to_proto_client (some succ)) (successor_list n.rt);
      de_bruijn = map (λ node. node_to_proto_client (some node)) (de_bruijn_list n.rt);
    })

-- LookUp of a node.
unfoldable pub look_up_at : Bool → Bytes → KoordeNode → Run Found
look_up_at ended id n =
    after_lookup n
      (look_up (lookup_fuel n.rt.space) n.rt id (record { pool = n.pool; ended = ended }))

unfoldable pub lookup_node : Bool → Option Bytes → KoordeNode → Served NodeInfo
lookup_node true id n = finishes (n, refused request_ended)
lookup_node false none n = finishes (n, refused invalid_argument)
lookup_node false (some text) n =
    if length text == 0
    then finishes (n, refused invalid_argument)
    else elim (from_hex_string n.rt.space text) [
      | refused e ↦ finishes (n, refused invalid_argument)
      | returned id ↦ do
        found ← look_up_at false id n
        finishes (
          found.node,
          elim found.result [
            | refused e ↦ refused internal
            | returned succ ↦ elim (node_to_proto_client succ) [
              | none ↦ refused not_found
              | some info ↦ returned info
            ]
          ],
        )
    ]
