-- ===== src/Rpc.antt =====
-- internal/node/client/handler.go: the calls that a node makes of another one. The generated client of
-- the DHT service is a record of answers (Stub), a parameter of every caller; the conversion of a
-- message and the treatment of an error are the code's. `expired` says that the context of a call has
-- ended when the call begins (internal/node/ctxutil); spans of the tracer are not modelled.
pub mod Laws
use koorde_dht_web_cache.Prelude.{
  Bool, true, false, Option, none, some, List, [], ◌∷◌, if◌then◌else◌, Bytes, Result, returned,
  refused, Error,
}
use koorde_dht_web_cache.Domain.Space.{Space}
use koorde_dht_web_cache.Domain.Hex.{Node, Resource}
use koorde_dht_web_cache.Domain.Proto.{
  ProtoNode, ProtoResource, node_to_proto_dht, node_from_proto_dht, resource_to_proto_dht,
  resource_from_proto_dht,
}

-- The status codes that the code asks for.
pub data Code : Type 0 where
  deadline_exceeded not_found other_code : Code

-- An error of an RPC: whether `errors.Is` finds context.DeadlineExceeded or context.Canceled in it,
-- and the code that `status.FromError` finds, if any.
pub record RpcError : Type 0 where
  pub is_deadline : Bool
  pub is_canceled : Bool
  pub code : Option Code

pub data FindSuccessorMode : Type 0 where
  initial : FindSuccessorMode
  step : Bytes → Bytes → FindSuccessorMode

pub record FindSuccessorRequest : Type 0 where
  pub target_id : Bytes
  pub mode : FindSuccessorMode

-- What a connection answers to each call, and whether the context of the caller has ended once a
-- FindSuccessor has answered.
pub record Stub : Type 0 where
  pub find_successor : FindSuccessorRequest → Result RpcError (Option ProtoNode)
  pub ends_context : FindSuccessorRequest → Bool
  pub get_predecessor : Result RpcError (Option ProtoNode)
  pub get_successor_list : Result RpcError (List (Option ProtoNode))
  pub notify : Option ProtoNode → Result RpcError (Unit {0})
  pub ping : Result RpcError (Unit {0})
  pub store : Result RpcError (Unit {0})
  pub send : Option ProtoResource → Result RpcError (Unit {0})
  pub close_and_recv : Result RpcError (Unit {0})
  pub retrieve : Bytes → Result RpcError (Option ProtoResource)
  pub remove : Bytes → Result RpcError (Unit {0})
  pub leave : Option ProtoNode → Result RpcError (Unit {0})

pub data ClientError : Type 0 where
  context_error err_timeout err_no_predecessor invalid_node invalid_resource : ClientError
  rpc_failed : RpcError → ClientError

abbrev pub has_code : Code → RpcError → Bool
has_code deadline_exceeded e = elim e.code [ some deadline_exceeded ↦ true | _ ↦ false ]
has_code not_found e = elim e.code [ some not_found ↦ true | _ ↦ false ]
has_code other_code e = elim e.code [ some other_code ↦ true | _ ↦ false ]

-- The two ways in which a failed call becomes an error of the package.
abbrev pub deadline_or_failed : RpcError → ClientError
deadline_or_failed e = if e.is_deadline then err_timeout else rpc_failed e

abbrev pub status_or_failed : RpcError → ClientError
status_or_failed e = if has_code deadline_exceeded e then err_timeout else rpc_failed e

-- An answer that is a node of the space, or none.
abbrev pub converted : {A : Type 0} → ClientError → Result Error A → Result ClientError A
converted e (returned a) = returned a
converted e (refused x) = refused e

abbrev pub acknowledged : Result RpcError (Unit {0}) → Result ClientError (Unit {0})
acknowledged (returned u) = returned tt
acknowledged (refused e) = refused (deadline_or_failed e)

unfoldable pub find_successor_start : Bool → Stub → Space → Bytes → Result ClientError (Option Node)
find_successor_start expired client sp target =
    if expired
    then refused context_error
    else elim (client.find_successor (record { target_id = target; mode = initial })) [
      | refused e ↦ refused (deadline_or_failed e)
      | returned node ↦ converted invalid_node (node_from_proto_dht sp node)
    ]

unfoldable pub remote_step :
    Bool → Stub → Space → Bytes → Bytes → Bytes → Result ClientError (Option Node)
remote_step expired client sp target current_i kshift =
    if expired
    then refused context_error
    else elim (client.find_successor
        (record { target_id = target; mode = step current_i kshift })) [
          | refused e ↦ refused (status_or_failed e)
          | returned node ↦ converted invalid_node (node_from_proto_dht sp node)
        ]

unfoldable pub get_predecessor : Bool → Stub → Space → Result ClientError (Option Node)
get_predecessor expired client sp =
    if expired then refused context_error else elim client.get_predecessor [
      | refused e ↦ refused (
          if e.is_deadline
          then err_timeout
          else (if has_code not_found e then err_no_predecessor else rpc_failed e))
      | returned node ↦ converted invalid_node (node_from_proto_dht sp node)
    ]

-- The loop over the successors of the answer, which stops at the first node that is not valid.
unfoldable pub convert_nodes :
    Space → List (Option ProtoNode) → Result ClientError (List (Option Node))
convert_nodes sp [] = returned []
convert_nodes sp (p ∷ ps) = elim (node_from_proto_dht sp p) [
  | refused e ↦ refused invalid_node
  | returned n ↦ elim (convert_nodes sp ps) [
    | refused e ↦ refused e
    | returned ns ↦ returned (n ∷ ns)
  ]
]

unfoldable pub get_successor_list : Bool → Stub → Space → Result ClientError (List (Option Node))
get_successor_list expired client sp =
    if expired then refused context_error else elim client.get_successor_list [
      | refused e ↦ refused (deadline_or_failed e)
      | returned nodes ↦ convert_nodes sp nodes
    ]

unfoldable pub notify : Bool → Stub → Option Node → Result ClientError (Unit {0})
notify expired client self =
    if expired then refused context_error else acknowledged (client.notify (node_to_proto_dht self))

unfoldable pub ping : Bool → Stub → Result ClientError (Unit {0})
ping expired client = if expired then refused context_error else acknowledged client.ping

-- The resources that `stream.Send` refused, in their order.
unfoldable pub send_all : Stub → List Resource → List Resource
send_all client [] = []
send_all client (res ∷ resources) = elim (client.send (resource_to_proto_dht (some res))) [
  | refused e ↦ res ∷ send_all client resources
  | returned u ↦ send_all client resources
]

-- StoreRemote: the resources that failed, and the error.
unfoldable pub store_remote : Bool → Stub → List Resource → List Resource × Option ClientError
store_remote expired client resources =
    if expired then ([], some context_error) else elim client.store [
      | refused e ↦ (resources, some (rpc_failed e))
      | returned u ↦ elim client.close_and_recv [
        | refused e ↦
            if has_code deadline_exceeded e
            then ([], some err_timeout)
            else (resources, some (rpc_failed e))
        | returned v ↦ (send_all client resources, none)
      ]
    ]

unfoldable pub retrieve_remote : Bool → Stub → Space → Bytes → Result ClientError (Option Resource)
retrieve_remote expired client sp key =
    if expired then refused context_error else elim (client.retrieve key) [
      | refused e ↦ refused (deadline_or_failed e)
      | returned res ↦ converted invalid_resource (resource_from_proto_dht sp res)
    ]

unfoldable pub remove_remote : Bool → Stub → Bytes → Result ClientError (Unit {0})
remove_remote expired client key =
    if expired then refused context_error else acknowledged (client.remove key)

unfoldable pub leave : Bool → Stub → Option Node → Result ClientError (Unit {0})
leave expired client self =
    if expired then refused context_error else acknowledged (client.leave (node_to_proto_dht self))
