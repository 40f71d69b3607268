-- ===== src/Domain/Proto.antt =====
-- internal/domain/node.go and resource.go: the messages of the DHT service and their conversions. A
-- nil pointer is `none`.
use koorde_dht_web_cache.Prelude.{
  ◌≡◌, refl, true, Option, none, some, Bytes, if◌then◌else◌, Result, returned, refused, Error,
  invalid_id, Outcome, ok, ◌>>=◌,
}
use koorde_dht_web_cache.Domain.Space.{Space, is_valid_id}
use koorde_dht_web_cache.Domain.Valid.{IsSpace, IsId, is_valid_id_iff}
use koorde_dht_web_cache.Domain.Hex.{Node, Resource, to_hex_string}
use koorde_dht_web_cache.Domain.Text.{new_id_from_string, from_hex_string}
use koorde_dht_web_cache.Domain.Text.Laws.{from_hex_string-to_hex_string}

-- `dht.v1.Node` and `dht.v1.Resource`.
pub record ProtoNode : Type 0 where
  pub id : Bytes
  pub address : Bytes

pub record ProtoResource : Type 0 where
  pub key : Bytes
  pub raw_key : Bytes
  pub value : Bytes

unfoldable pub node_to_proto_dht : Option Node → Option ProtoNode
node_to_proto_dht none = none
node_to_proto_dht (some n) = some (record { id = n.id; address = n.addr })

unfoldable pub node_from_proto_dht : Space → Option ProtoNode → Result Error (Option Node)
node_from_proto_dht sp none = returned none
node_from_proto_dht sp (some p) =
    if is_valid_id sp p.id
    then returned (some (record { id = p.id; addr = p.address }))
    else refused invalid_id

unfoldable pub resource_to_proto_dht : Option Resource → Option ProtoResource
resource_to_proto_dht none = none
resource_to_proto_dht (some r) = some (record { key = r.key; raw_key = r.raw_key; value = r.value })

unfoldable pub resource_from_proto_dht :
    Space → Option ProtoResource → Result Error (Option Resource)
resource_from_proto_dht sp none = returned none
resource_from_proto_dht sp (some p) =
    if is_valid_id sp p.key
    then returned (some (record { key = p.key; raw_key = p.raw_key; value = p.value }))
    else refused invalid_id

-- A node that is sent as a message of the DHT service and read back in a space is the node itself
-- when its identifier is valid there, and an error otherwise; a nil node stays nil.
pub node_from_proto_dht-node_to_proto_dht :
    (sp : Space) (n : Option Node)
    → node_from_proto_dht sp (node_to_proto_dht n) ≡ elim n [
      | none ↦ returned none
      | some m ↦ if is_valid_id sp m.id then returned (some m) else refused invalid_id
    ]
unfolding node_from_proto_dht node_to_proto_dht
node_from_proto_dht-node_to_proto_dht sp none = refl
node_from_proto_dht-node_to_proto_dht sp (some m) = refl

-- `client.v1.NodeInfo` and `client.v1.Resource`.
pub record NodeInfo : Type 0 where
  pub id : Bytes
  pub addr : Bytes

pub record ClientResource : Type 0 where
  pub key : Bytes
  pub value : Bytes

unfoldable pub node_to_proto_client : Option Node → Option NodeInfo
node_to_proto_client none = none
node_to_proto_client (some n) = some (record { id = to_hex_string true n.id; addr = n.addr })

-- FromHexString refuses what IsValidID would refuse; the code asks both.
unfoldable pub node_from_proto_client : Space → Option NodeInfo → Result Error (Option Node)
node_from_proto_client sp none = returned none
node_from_proto_client sp (some p) = elim (from_hex_string sp p.id) [
  | refused e ↦ refused e
  | returned id ↦
      if is_valid_id sp id
      then returned (some (record { id = id; addr = p.addr }))
      else refused invalid_id
]

unfoldable pub resource_to_proto_client : Option Resource → Option ClientResource
resource_to_proto_client none = none
resource_to_proto_client (some r) = some (record { key = r.raw_key; value = r.value })

unfoldable pub resource_from_proto_client :
    (Bytes → Bytes) → Space → Option ClientResource → Outcome (Option Resource)
resource_from_proto_client sha1 sp none = ok none
resource_from_proto_client sha1 sp (some p) = do
  key ← new_id_from_string sha1 sp p.key
  ok (some (record { key = key; raw_key = p.key; value = p.value }))

-- A node that is sent to a client and read back is the node itself, when its identifier is one of
-- the space.
pub node_from_proto_client-node_to_proto_client :
    {sp : Space} (n : Node)
    → IsSpace sp
    → IsId sp n.id
    → node_from_proto_client sp (node_to_proto_client (some n)) ≡ returned (some n)
unfolding node_from_proto_client node_to_proto_client
node_from_proto_client-node_to_proto_client {sp} n s i =
    rw
      (
        node_from_proto_client,
        node_to_proto_client,
        from_hex_string-to_hex_string s true n.id i,
        (is_valid_id_iff s n.id i.bytes).1 i,
      )
      refl
