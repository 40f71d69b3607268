-- ===== src/Cache.antt =====
-- internal/node/cache/cache.go: the web cache of a node, least recently used out first, with an
-- expiry time for each entry. A method that holds the lock is one atomic step on the state. What
-- `time.Now()` returns is an argument, in the order of the calls.
-- An element of the recency list is named by the URL that it holds: the code makes one element for
-- each entry, when the entry is made, and drops both together. The list is kept front first.
-- `currentBytes` is at least the size of each entry (Cache/Invariant.antt), so `-` does not stop.
pub mod Recency
pub mod Sizes
pub mod Invariant
pub mod Eviction
pub mod Laws
pub mod RoundTrip
pub mod Steps
pub mod Expiry
use koorde_dht_web_cache.Prelude.{
  ℕ, zero, suc, ◌+◌, ◌-◌, ◌*◌, Bool, true, false, ◌&&◌, Option, none, some, List, [], ◌∷◌, ltb,
  if◌then◌else◌, length, Bytes, bytes_eq,
}
use koorde_dht_web_cache.Prelude.Maps.{lookup, insert, remove}

pub record Entry : Type 0 where
  pub url : Bytes
  pub content : Bytes
  pub content_type : Bytes
  pub status_code : ℕ
  pub expiration : ℕ
  pub size : ℕ
  pub created_at : ℕ
  pub access_count : ℕ

pub record WebCache : Type 0 where
  pub capacity_bytes : ℕ
  pub entries : List (Bytes × Entry)
  pub lru : List Bytes
  pub current_bytes : ℕ
  pub hits : ℕ
  pub misses : ℕ
  pub evictions : ℕ
  pub stores : ℕ

-- `list.Remove` and `list.Back` of container/list.
unfoldable pub delete : Bytes → List Bytes → List Bytes
delete u [] = []
delete u (v ∷ l) = if bytes_eq v u then delete u l else v ∷ delete u l

unfoldable pub back : List Bytes → Option Bytes
back [] = none
back (u ∷ []) = some u
back (u ∷ v ∷ l) = back (v ∷ l)

unfoldable pub new_web_cache : ℕ → WebCache
new_web_cache capacity_mb = record {
  capacity_bytes = capacity_mb * 1024 * 1024;
  entries = [];
  lru = [];
  current_bytes = 0;
  hits = 0;
  misses = 0;
  evictions = 0;
  stores = 0;
}

unfoldable pub evict_entry : Bytes → WebCache → WebCache
evict_entry url wc = elim (lookup url wc.entries) [
  | none ↦ wc
  | some entry ↦ record wc {
    lru = delete url wc.lru;
    entries = remove url wc.entries;
    current_bytes = wc.current_bytes - entry.size;
    evictions = wc.evictions + 1;
  }
]

-- The entry that a hit returns is the stored one, with its access counted.
unfoldable pub get : ℕ → Bytes → WebCache → WebCache × Option Entry
get now url wc = elim (lookup url wc.entries) [
  | none ↦ (record wc { misses = wc.misses + 1 }, none)
  | some entry ↦
      if ltb entry.expiration now
      then (let gone = evict_entry url wc in record gone { misses = gone.misses + 1 }, none)
      else (
        record wc {
          lru = url ∷ delete url wc.lru;
          entries = insert url (record entry { access_count = entry.access_count + 1 }) wc.entries;
          hits = wc.hits + 1;
        },
        some (record entry { access_count = entry.access_count + 1 }),
      )
]

-- `for wc.currentBytes+size > wc.capacityBytes && wc.lru.Len() > 0`, with fuel; `none` means that
-- the fuel ran out.
unfoldable pub make_room : ℕ → ℕ → WebCache → Option WebCache
make_room zero size wc = none
make_room (suc fuel) size wc =
    let next : Option WebCache = elim (back wc.lru) [
      | none ↦ make_room fuel size wc
      | some old_url ↦ make_room fuel size (evict_entry old_url wc)
    ] in
    if ltb wc.capacity_bytes (wc.current_bytes + size) && ltb 0 (length wc.lru)
    then next
    else some wc

-- What Put returns: nil, or the error for a content that is larger than the cache.
pub data PutResult : Type 0 where
  stored : WebCache → PutResult
  too_large : WebCache → PutResult
  out_of_fuel : PutResult

-- `now` is the reading that the expiry counts from, `created` the next one.
unfoldable pub new_entry : ℕ → ℕ → Bytes → Bytes → Bytes → ℕ → ℕ → Entry
new_entry now created url content content_type ttl status_code = record {
  url = url;
  content = content;
  content_type = content_type;
  status_code = status_code;
  expiration = now + ttl;
  size = length content;
  created_at = created;
  access_count = 1;
}

unfoldable pub updated_entry : ℕ → Bytes → Bytes → ℕ → ℕ → Entry → Entry
updated_entry now content content_type ttl status_code existing = record existing {
  content = content;
  content_type = content_type;
  status_code = status_code;
  expiration = now + ttl;
  size = length content;
  access_count = existing.access_count + 1;
}

-- The end of Put, for a URL that is not in the cache.
unfoldable pub store_new : Entry → Option WebCache → PutResult
store_new entry none = out_of_fuel
store_new entry (some wc) = stored (record wc {
  lru = entry.url ∷ wc.lru;
  entries = insert entry.url entry wc.entries;
  current_bytes = wc.current_bytes + entry.size;
  stores = wc.stores + 1;
})

unfoldable pub put : ℕ → ℕ → Bytes → Bytes → Bytes → ℕ → ℕ → WebCache → PutResult
put now created url content content_type ttl status_code wc = elim (lookup url wc.entries) [
  | some existing ↦ stored (record wc {
    current_bytes = wc.current_bytes - existing.size + length content;
    entries =
        insert url (updated_entry now content content_type ttl status_code existing) wc.entries;
    lru = url ∷ delete url wc.lru;
  })
  | none ↦
      if ltb wc.capacity_bytes (length content)
      then too_large wc
      else store_new (new_entry now created url content content_type ttl status_code)
          (make_room (suc (length wc.lru)) (length content) wc)
]

-- Delete, for cache invalidation.
unfoldable pub delete_url : Bytes → WebCache → WebCache × Bool
delete_url url wc = elim (lookup url wc.entries) [
  | none ↦ (wc, false)
  | some _ ↦ (evict_entry url wc, true)
]

-- The URLs of the expired entries. Go visits a map in no fixed order; this is the order of the list.
unfoldable pub expired_urls : ℕ → List (Bytes × Entry) → List Bytes
expired_urls now [] = []
expired_urls now ((url, entry) ∷ m) =
    if ltb entry.expiration now then url ∷ expired_urls now m else expired_urls now m

unfoldable pub evict_all : List Bytes → WebCache → WebCache
evict_all [] wc = wc
evict_all (url ∷ urls) wc = evict_all urls (evict_entry url wc)

unfoldable pub clean_expired : ℕ → WebCache → WebCache × ℕ
clean_expired now wc =
    let expired = expired_urls now wc.entries in (evict_all expired wc, length expired)

unfoldable pub clear : WebCache → WebCache
clear wc = record wc { entries = []; lru = []; current_bytes = 0 }
