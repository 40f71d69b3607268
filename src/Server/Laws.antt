-- ===== src/Server/Laws.antt =====
-- What the handlers promise to the nodes that call them.
use koorde_dht_web_cache.Prelude.{
  ap, ◌∙◌, bytes_eq_iff, length, ◌==◌, ◌≡◌, refl, ◌↔◌, arith, Bool, true, false, ◌&&◌, Option, none,
  some, List, [], ◌∷◌, map, if◌then◌else◌, Bytes, Result, returned, refused, Bool-cases, inl, inr,
}
use koorde_dht_web_cache.Domain.Space.{is_valid_id}
use koorde_dht_web_cache.Domain.Hex.{Node, Resource}
use koorde_dht_web_cache.Domain.Ring.{between}
use koorde_dht_web_cache.Domain.Proto.{
  resource_to_proto_dht, resource_from_proto_dht, node_to_proto_dht,
}
use koorde_dht_web_cache.Storage as MemoryStorage
use koorde_dht_web_cache.Storage.{Storage, StorageError}
use koorde_dht_web_cache.Routing.{RoutingTable, successor_list}
use koorde_dht_web_cache.Membership.{store_local}
use koorde_dht_web_cache.Actions.{finishes, KoordeNode}
use koorde_dht_web_cache.Prelude.Maps.{lookup, lookup-insert}
use koorde_dht_web_cache.Domain.Valid.{IsSpace, IsId, is_valid_id_iff}
use koorde_dht_web_cache.Domain.Hex.{to_hex_string}
use koorde_dht_web_cache.Storage.Laws.{get_value, stored_or_zero}
use koorde_dht_web_cache.Service.{retrieve_local}
use koorde_dht_web_cache.Rpc as Client
use koorde_dht_web_cache.Rpc.Laws.{AllValid, convert_nodes-map_iff}
use koorde_dht_web_cache.Rpc.{Stub, RpcError, invalid_resource, converted, retrieve_remote}
use koorde_dht_web_cache.Server.{
  get_predecessor, get_successor_list, retrieve, Status, internal, invalid_argument, Incoming,
  message, end_of_stream, store,
}

-- The stream of a StoreRemote of some resources.
unfoldable pub stream_of : List Resource → Incoming
stream_of [] = end_of_stream true
stream_of (res ∷ resources) = message (resource_to_proto_dht (some res)) (stream_of resources)

-- The node accepts the key of a resource as its own.
abbrev pub in_range : RoutingTable → Resource → Bool
in_range rt res = elim rt.predecessor [
  | none ↦ true
  | some pred ↦ between res.key pred.id rt.self.id
]

-- A node takes a resource: its key is an identifier, and is not one that the predecessor has.
abbrev pub takes : RoutingTable → Resource → Bool
takes rt res = is_valid_id rt.space res.key && in_range rt res

-- The node with a resource in its storage.
abbrev pub storing : Resource → KoordeNode → KoordeNode
storing res n = record n { storage = MemoryStorage.put res n.storage }

store_local_lem :
    (res : Resource) (n : KoordeNode)
    → store_local res n ≡ (if in_range n.rt res then (storing res n, true) else (n, false))
unfolding store_local
store_local_lem res n = ground arith

store-message :
    (res : Resource) (later : Incoming) (n : KoordeNode)
    → store (message (resource_to_proto_dht (some res)) later) n ≡ (
        if takes n.rt res
        then store later (storing res n)
        else finishes
            (n, refused (if is_valid_id n.rt.space res.key then internal else invalid_argument)))
unfolding store resource_to_proto_dht resource_from_proto_dht
store-message res later n = elim (Bool-cases (is_valid_id n.rt.space res.key)) [
  | inl valid ↦ elim (Bool-cases (in_range n.rt res)) [
    | inl inside ↦ rw (store, valid, store_local_lem res n, inside) refl
    | inr outside ↦ rw (store, valid, store_local_lem res n, outside) refl
  ]
  | inr invalid ↦ rw (store, invalid) refl
]

-- The storage after the resources that a node takes, up to the first one that it does not take.
abbrev pub taken : RoutingTable → List Resource → Storage → Storage
taken rt [] s = s
taken rt (res ∷ resources) s =
    if takes rt res then taken rt resources (MemoryStorage.put res s) else s

abbrev pub takes_all : RoutingTable → List Resource → Bool
takes_all rt [] = true
takes_all rt (res ∷ resources) = takes rt res && takes_all rt resources

-- Store of the stream of a StoreRemote ends: it puts the resources into the storage in their order,
-- up to the first one whose key is not an identifier or lies outside (predecessor, self], and changes
-- nothing else. It acknowledges the stream exactly when there is no such resource.
pub store-stream_of :
    (resources : List Resource) (n : KoordeNode)
    → (reply : Result Status (Unit {0})) × (store (stream_of resources) n
        ≡ finishes (record n { storage = taken n.rt resources n.storage }, reply))
      × ((reply ≡ returned tt) ↔ (takes_all n.rt resources ≡ true))
unfolding stream_of
store-stream_of [] n = (returned tt, unfold store in refl, (λ e. refl, λ e. refl))
store-stream_of (res ∷ resources) n = elim (Bool-cases (takes n.rt res)) [
  | inl took ↦
      let (reply, e, iff) = store-stream_of resources (storing res n) in
      (reply, rw (store-message res (stream_of resources) n, took) e, rw took iff)
  | inr left ↦
      let reply : Status = if is_valid_id n.rt.space res.key then internal else invalid_argument in
      (
        refused reply,
        rw (store-message res (stream_of resources) n, left) refl,
        rw left (λ e. ground (arith, e), λ e. ground (arith, e)),
      )
]

-- A connection to a node, with what gRPC makes of a status, when the node stays as it is.
abbrev pub answered : {A : Type 0} → (Status → RpcError) → Result Status A → Result RpcError A
answered to_error (returned a) = returned a
answered to_error (refused status) = refused (to_error status)

abbrev pub connected : (Status → RpcError) → KoordeNode → Stub → Stub
connected to_error n other = record other {
  get_predecessor = answered to_error (get_predecessor false n);
  get_successor_list = answered to_error (get_successor_list false n);
  retrieve = λ key. answered to_error (retrieve false (some key) n);
}

module _ (to_error : Status → RpcError) (other : Stub) (n : KoordeNode)
    (s : IsSpace n.rt.space) where
  retrieve_lem :
      (key : Bytes)
      → IsId n.rt.space key
      → retrieve false (some key) n
        ≡ returned (resource_to_proto_dht (some (MemoryStorage.get key n.storage).0))
  unfolding retrieve retrieve_local
  retrieve_lem key ik = rw (named, (is_valid_id_iff s key ik.bytes).1 ik, no_error) refl
    where
      no_error : (MemoryStorage.get key n.storage).1 ≡ none
      no_error = ap (λ (got : Resource × Option StorageError). got.1) (get_value key n.storage)

      named : (length key == 0) ≡ false
      named = ground (arith, ik.size, s.whole_bytes, s.bits_pos)

  read_back :
      (key : Bytes)
      → IsId n.rt.space key
      → retrieve_remote false (connected to_error n other) n.rt.space key
        ≡ converted invalid_resource (
            resource_from_proto_dht n.rt.space (
              resource_to_proto_dht
                (some (stored_or_zero (lookup (to_hex_string false key) n.storage)))))
  unfolding retrieve_remote
  read_back key ik = rw (retrieve_lem key ik, get_value key n.storage) refl

  no_key : is_valid_id n.rt.space [] ≡ false
  unfolding is_valid_id
  no_key = ground (arith, s.whole_bytes, s.bits_pos)

  -- RetrieveRemote from a node returns what the node holds under an identifier, if the key of it is
  -- one too. Of an identifier that the node does not hold, it does not say that the key is not found,
  -- but that the resource of the reply is invalid.
  pub retrieve_remote-connected :
      (key : Bytes)
      → IsId n.rt.space key
      → (stored : Option Resource) → lookup (to_hex_string false key) n.storage ≡ stored
      → retrieve_remote false (connected to_error n other) n.rt.space key ≡ elim stored [
        | none ↦ refused invalid_resource
        | some res ↦
            if is_valid_id n.rt.space res.key then returned (some res) else refused invalid_resource
      ]
  unfolding resource_from_proto_dht resource_to_proto_dht
  retrieve_remote-connected key ik none e = rw (read_back key ik, e, no_key) refl
  retrieve_remote-connected key ik (some res) e =
      rw (read_back key ik, e)
        (elim (Bool-cases (is_valid_id n.rt.space res.key)) [
          | inl valid ↦ rw valid refl
          | inr invalid ↦ rw invalid refl
        ])

-- A resource whose key is an identifier in (predecessor, self] is taken by the Store of a node, and
-- what a RetrieveRemote from the node then returns for the key is the resource.
pub retrieve_remote-store :
    (to_error : Status → RpcError) (other : Stub) (n : KoordeNode) (res : Resource)
    → IsSpace n.rt.space
    → IsId n.rt.space res.key
    → in_range n.rt res ≡ true
    → (m : KoordeNode) × (store (stream_of (res ∷ [])) n ≡ finishes (m, returned tt))
      × (retrieve_remote false (connected to_error m other) n.rt.space res.key
          ≡ returned (some res))
unfolding MemoryStorage.put
retrieve_remote-store to_error other n res s ik inside = (
  storing res n,
  unfold stream_of in
      rw (store-message res (end_of_stream true) n, valid, inside) (unfold store in refl),
  rw (retrieve_remote-connected to_error other (storing res n) s res.key ik (some res) held, valid)
      refl,
)
  where
    valid : is_valid_id n.rt.space res.key ≡ true
    valid = (is_valid_id_iff s res.key ik.bytes).1 ik

    held : lookup (to_hex_string false res.key) (MemoryStorage.put res n.storage) ≡ some res
    held =
        lookup-insert (to_hex_string false res.key) (to_hex_string false res.key) res n.storage
        ∙ rw ((bytes_eq_iff (to_hex_string false res.key) (to_hex_string false res.key)).1 refl)
            refl

map-some :
    (ns : List Node)
    → map (λ node. node_to_proto_dht (some node)) ns ≡ map node_to_proto_dht (map some ns)
map-some [] = refl
map-some (n ∷ ns) = rw (map-some ns) refl

-- The successor list that a node sends is read back by another node of the space as the successors in
-- their order, exactly when all of them have identifiers that are valid there.
get_successor_list-connected_iff :
    (to_error : Status → RpcError) (other : Stub) (n : KoordeNode)
    → (Client.get_successor_list false (connected to_error n other) n.rt.space
        ≡ returned (map some (successor_list n.rt)))
      ↔ AllValid n.rt.space (map some (successor_list n.rt))
unfolding Client.get_successor_list get_successor_list
get_successor_list-connected_iff to_error other n =
    rw (map-some (successor_list n.rt))
      (convert_nodes-map_iff n.rt.space (map some (successor_list n.rt)))
