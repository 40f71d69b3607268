-- ===== src/Storage.antt =====
-- internal/node/storage/memory.go: the resources of a node, by the hexadecimal text of their key. A
-- method holds the lock while it reads or changes the map, and is one step. Go visits a map in no
-- fixed order; a list that is made from it has the order of the association list here.
pub mod Laws
use koorde_dht_web_cache.Prelude.{
  Bool, true, false, Option, none, some, List, [], ◌∷◌, Bytes, if◌then◌else◌,
}
use koorde_dht_web_cache.Prelude.Maps.{lookup, insert, remove}
use koorde_dht_web_cache.Domain.Hex.{Resource, to_hex_string}
use koorde_dht_web_cache.Domain.Ring.{between}

abbrev pub Storage : Type 0
Storage = List (Bytes × Resource)

pub data StorageError : Type 0 where
  resource_not_found : StorageError

unfoldable pub new_memory_storage : Storage
new_memory_storage = []

unfoldable pub put : Resource → Storage → Storage
put resource data' = insert (to_hex_string false resource.key) resource data'

-- The zero value of the type, which a map returns for a missing key.
abbrev pub zero_resource : Resource
zero_resource = record { key = []; raw_key = []; value = [] }

-- Get: the resource, and the error, which is nil always.
unfoldable pub get : Bytes → Storage → Resource × Option StorageError
get id data' = elim (lookup (to_hex_string false id) data') [
  | none ↦ (zero_resource, none)
  | some res ↦ (res, none)
]

unfoldable pub delete : Bytes → Storage → Storage × Option StorageError
delete id data' = elim (lookup (to_hex_string false id) data') [
  | none ↦ (data', some resource_not_found)
  | some res ↦ (remove (to_hex_string false id) data', none)
]

unfoldable pub between_keys : Bytes → Bytes → Storage → List Resource
between_keys from to [] = []
between_keys from to ((key, res) ∷ data') =
    if between res.key from to then res ∷ between_keys from to data' else between_keys from to data'

unfoldable pub all : Storage → List Resource
all [] = []
all ((key, res) ∷ data') = res ∷ all data'
