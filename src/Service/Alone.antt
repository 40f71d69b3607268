-- ===== src/Service/Alone.antt =====
-- A node that is its own successor serves every key from its own storage.
use koorde_dht_web_cache.Prelude.{
  ◌≡◌, refl, ap, ◌∙◌, inl, arith, Bool, true, false, Option, none, some, Bytes, bytes_eq,
  bytes_eq_iff, if◌then◌else◌, Result, returned,
}
use koorde_dht_web_cache.Domain.Valid.{IsId}
use koorde_dht_web_cache.Domain.Hex.{Resource}
use koorde_dht_web_cache.Domain.Ring.{equal, between, between_iff}
use koorde_dht_web_cache.Routing.{RoutingTable, first_successor}
use koorde_dht_web_cache.Storage as MemoryStorage
use koorde_dht_web_cache.Storage.{zero_resource, StorageError}
use koorde_dht_web_cache.Storage.Laws.{get-put, get-delete}
use koorde_dht_web_cache.Membership.{store_local}
use koorde_dht_web_cache.Rpc.{Stub}
use koorde_dht_web_cache.Lookup.FindSuccessor.{find_successor_init}
use koorde_dht_web_cache.Actions.{
  finishes, ◌>>=◌, Network, KoordeNode, find_successor, after_lookup,
}
use koorde_dht_web_cache.Service.{
  at_successor, put, put_here, get, get_here, delete, delete_here, retrieve_local, remove_local,
  ServiceError,
}

-- The only node of a ring, as CreateNewDHT makes it.
pub record IsAlone (rt : RoutingTable) : Type 0 where
  pub self : IsId rt.space rt.self.id
  pub first : first_successor rt ≡ some rt.self
  pub predecessor : rt.predecessor ≡ some rt.self

module _ (n : KoordeNode) (a : IsAlone n.rt) {key : Bytes} (ik : IsId n.rt.space key) where
  own_key : between key n.rt.self.id n.rt.self.id ≡ true
  own_key = (between_iff ik a.self a.self).1 (inl refl)

  find_successor_alone :
      find_successor false key n
      ≡ finishes (record { node = n; ended = false; result = returned (some n.rt.self) })
  unfolding find_successor find_successor_init
  find_successor_alone = rw (a.first, find_successor_init, own_key) (unfold after_lookup in refl)

  at_successor_alone :
      {A : Type 0} (net : Network) (here : Bool → KoordeNode → KoordeNode × Result ServiceError A)
      (there : Bool → Stub → Result ServiceError A)
      → at_successor net false key here there n ≡ finishes (here false n)
  unfolding at_successor
  at_successor_alone net here there = rw (find_successor_alone, same) refl
    where
      same : equal n.rt.self.id n.rt.self.id ≡ true
      same = unfold equal in (bytes_eq_iff n.rt.self.id n.rt.self.id).1 refl

-- The node after a resource is stored at it.
abbrev pub with_stored : Resource → KoordeNode → KoordeNode
with_stored res n = record n { storage = MemoryStorage.put res n.storage }

store_local_alone :
    (n : KoordeNode) (res : Resource)
    → IsAlone n.rt
    → IsId n.rt.space res.key
    → store_local res n ≡ (with_stored res n, true)
unfolding store_local
store_local_alone n res a ik = ground (arith, a.predecessor, own_key n a ik)

pub put_alone :
    (net : Network) (n : KoordeNode) (res : Resource)
    → IsAlone n.rt
    → IsId n.rt.space res.key
    → put net false res n ≡ finishes (with_stored res n, returned tt)
unfolding put put_here
put_alone net n res a ik =
    at_successor_alone n a ik net _ _ ∙ rw (store_local_alone n res a ik) refl

get_error : (id : Bytes) (s : MemoryStorage.Storage) → (MemoryStorage.get id s).1 ≡ none
unfolding MemoryStorage.get
get_error id s = ground arith

get_here_value :
    (id : Bytes) (n : KoordeNode)
    → get_here id false n ≡ (n, returned (some (MemoryStorage.get id n.storage).0))
unfolding get_here retrieve_local
get_here_value id n = rw (get_error id n.storage) refl

pub get_alone :
    (net : Network) (n : KoordeNode) (id : Bytes)
    → IsAlone n.rt
    → IsId n.rt.space id
    → get net false id n ≡ finishes (n, returned (some (MemoryStorage.get id n.storage).0))
unfolding get
get_alone net n id a ik = at_successor_alone n a ik net _ _ ∙ ap finishes (get_here_value id n)

-- The node after a key is deleted at it.
abbrev pub without_key : Bytes → KoordeNode → KoordeNode
without_key id n = record n { storage = (MemoryStorage.delete id n.storage).0 }

delete_alone :
    (net : Network) (n : KoordeNode) (id : Bytes)
    → IsAlone n.rt
    → IsId n.rt.space id
    → (r : Result ServiceError (Unit {0})) × (delete net false id n
        ≡ finishes (without_key id n, r))
unfolding delete delete_here remove_local
delete_alone net n id a ik = (_, at_successor_alone n a ik net _ _)

first_of :
    (b : Bool) (x y : Resource × Option StorageError)
    → (if b then x else y).0 ≡ (if b then x.0 else y.0)
first_of true x y = refl
first_of false x y = refl

-- At the only node of a ring, whatever the network, a Put and then a Get of an identifier of the space
-- return the resource when it has that key, and else what the storage held for it.
get-put_alone :
    (net : Network) (n : KoordeNode) (res : Resource) (id : Bytes)
    → IsAlone n.rt
    → IsId n.rt.space res.key
    → IsId n.rt.space id
    → (put net false res n >>= λ stored. get net false id stored.0)
      ≡ finishes (
        with_stored res n,
        returned (some (if bytes_eq res.key id then res else (MemoryStorage.get id n.storage).0)),
      )
get-put_alone net n res id a ir ii =
    rw (put_alone net n res a ir, get_alone net (with_stored res n) id a ii)
      (ap (λ (r : Resource). finishes (with_stored res n, returned (some r)))
        (ap (λ (g : Resource × Option StorageError). g.0)
            (get-put res id n.storage ir.bytes ii.bytes)
          ∙ first_of (bytes_eq res.key id) (res, none) (MemoryStorage.get id n.storage)))

-- At the only node of a ring, whatever the network, a Get after a Put and a Delete of one key returns
-- an empty resource and no error.
get-delete_alone :
    (net : Network) (n : KoordeNode) (res : Resource)
    → IsAlone n.rt
    → IsId n.rt.space res.key
    → (put net false res n >>= λ stored.
        delete net false res.key stored.0 >>= λ deleted. get net false res.key deleted.0)
      ≡ finishes (without_key res.key (with_stored res n), returned (some zero_resource))
get-delete_alone net n res a ir =
    let emptied = without_key res.key (with_stored res n) in
    let (r, deletes) = delete_alone net (with_stored res n) res.key a ir in
    rw (put_alone net n res a ir, deletes, get_alone net emptied res.key a ir)
      (ap (λ (r : Resource). finishes (emptied, returned (some r)))
        (ap (λ (g : Resource × Option StorageError). g.0)
            (get-delete res.key res.key (MemoryStorage.put res n.storage) ir.bytes ir.bytes)
          ∙ first_of (bytes_eq res.key res.key) (zero_resource, none) _
          ∙ rw ((bytes_eq_iff res.key res.key).1 refl) refl))
