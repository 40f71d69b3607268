-- ===== src/Server/Clients/Laws.antt =====
-- What clients get back.
use koorde_dht_web_cache.Prelude.{
  ◌≤◌, ◌≡◌, refl, ap, ◌∙◌, arith, Bool, false, Option, none, some, if◌then◌else◌, Bytes, IsBytes,
  bytes_eq, length, ◌==◌, ok, returned,
}
use koorde_dht_web_cache.Domain.Valid.{IsSpace, IsId}
use koorde_dht_web_cache.Domain.Hex.{Resource}
use koorde_dht_web_cache.Domain.Proto.{resource_from_proto_client}
use koorde_dht_web_cache.Domain.Text.{new_id_from_string}
use koorde_dht_web_cache.Domain.Text.Laws.{new_id_from_string_lem}
use koorde_dht_web_cache.Storage as MemoryStorage
use koorde_dht_web_cache.Storage.{StorageError}
use koorde_dht_web_cache.Storage.Laws as StorageLaws
use koorde_dht_web_cache.Service.Alone.{IsAlone, with_stored, put_alone, get_alone}
use koorde_dht_web_cache.Actions.{finishes, ◌>>=◌, Network, KoordeNode}
use koorde_dht_web_cache.Server.Clients.{put, put_resource, get}

-- SHA-1 gives 20 bytes, and identifiers have no more.
pub record IsHash (sha1 : Bytes → Bytes) : Type 0 where
  pub bytes : (text : Bytes) → IsBytes (sha1 text)
  pub size : (text : Bytes) → length (sha1 text) ≡ 20

value_of :
    (b : Bool) (res : Resource) (got : Resource × Option StorageError)
    → (if b then (res, none) else got).0.value ≡ (if b then res.value else got.0.value)
value_of b res got = ground arith

module _ {sha1 : Bytes → Bytes} (hash : IsHash sha1) (net : Network) (n : KoordeNode)
    (a : IsAlone n.rt) (s : IsSpace n.rt.space) (short : n.rt.space.byte_len ≤ 20) where
  hashes :
      (text : Bytes)
      → (id : Bytes) × (new_id_from_string sha1 n.rt.space text ≡ ok id) × IsId n.rt.space id
  hashes text = (new_id_from_string_lem s sha1 text (hash.bytes text) (hash.size text)).1 short

  put_lem :
      (key value id : Bytes)
      → (length key == 0) ≡ false
      → (length value == 0) ≡ false
      → new_id_from_string sha1 n.rt.space key ≡ ok id
      → IsId n.rt.space id
      → put sha1 net false (some (some (record { key = key; value = value }))) n
        ≡ finishes (with_stored (record { key = id; raw_key = key; value = value }) n, returned tt)
  unfolding put put_resource resource_from_proto_client
  put_lem key value id named valued hashed i =
      rw
        (
          named,
          valued,
          hashed,
          put_alone net n (record { key = id; raw_key = key; value = value }) a i,
        )
        refl

  get_lem :
      (key id : Bytes)
      → (length key == 0) ≡ false
      → new_id_from_string sha1 n.rt.space key ≡ ok id
      → IsId n.rt.space id
      → get sha1 net false (some key) n
        ≡ finishes (n, returned (MemoryStorage.get id n.storage).0.value)
  unfolding get
  get_lem key id named hashed i = rw (named, hashed, get_alone net n id a i) refl

module _ {sha1 : Bytes → Bytes} (hash : IsHash sha1) (net : Network) (n : KoordeNode)
    (a : IsAlone n.rt) (s : IsSpace n.rt.space) (short : n.rt.space.byte_len ≤ 20) where
  -- At the only node of a ring, with SHA-1 digests of 20 bytes and identifiers of no more bytes, a client
  -- that puts a value under a key and then gets a key, neither of them empty, receives the value when
  -- both keys have one identifier, and else what the storage held for the second one.
  pub get-put :
      (key value other : Bytes)
      → (length key == 0) ≡ false
      → (length value == 0) ≡ false
      → (length other == 0) ≡ false
      → (id : Bytes) × (id' : Bytes) × (new_id_from_string sha1 n.rt.space key ≡ ok id)
        × (new_id_from_string sha1 n.rt.space other ≡ ok id')
        × ((put sha1 net false (some (some (record { key = key; value = value }))) n >>= λ stored.
              get sha1 net false (some other) stored.0)
            ≡ finishes (
              with_stored (record { key = id; raw_key = key; value = value }) n,
              returned
                  (if bytes_eq id id' then value else (MemoryStorage.get id' n.storage).0.value),
            ))
  get-put key value other named valued other_named =
      let (id, hashed, i) = hashes hash net n a s short key in
      let (id', other_hashed, j) = hashes hash net n a s short other in
      let res : Resource = record { key = id; raw_key = key; value = value } in
      (
        id,
        id',
        hashed,
        other_hashed,
        rw (put_lem hash net n a s short key value id named valued hashed i) (
            get_lem hash net (with_stored res n) a s short other id' other_named other_hashed j
            ∙ ap (λ (v : Bytes). finishes (with_stored res n, returned v))
                (ap (λ (g : Resource × Option StorageError). g.0.value)
                    (StorageLaws.get-put res id' n.storage i.bytes j.bytes)
                  ∙ value_of (bytes_eq id id') res (MemoryStorage.get id' n.storage))),
      )
