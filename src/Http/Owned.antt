-- ===== src/Http/Owned.antt =====
-- A request for a page that this node is responsible for.
use koorde_dht_web_cache.Prelude.{
  ◌≤◌, ◌≡◌, arith, Bool, true, false, Option, some, ◌==◌, length, Bytes, bytes_eq, codes, ok,
}
use koorde_dht_web_cache.Prelude.Maps.{lookup}
use koorde_dht_web_cache.Domain.Hex.{Node}
use koorde_dht_web_cache.Domain.Text.{new_id_from_string}
use koorde_dht_web_cache.Actions.{finishes}
use koorde_dht_web_cache.Cache as Cache
use koorde_dht_web_cache.Cache.{Entry}
use koorde_dht_web_cache.Http.{DhtNode, CacheRequest, Web, Page}
use koorde_dht_web_cache.Http.Proxy.{is_written, Fetched}
use koorde_dht_web_cache.Http.Handle.{hit_page, responsible_node, owns_key}

-- The page shows what was fetched: the content, its type and the status, and where it was found.
pub record Shows (fetched : Fetched) (found_at : Bytes) (p : Page) : Type 0 where
  pub content : p.content ≡ fetched.content
  pub content_type : lookup (codes "Content-Type") p.headers ≡ some fetched.content_type
  pub status : p.status_code ≡ fetched.status_code
  pub found : lookup (codes "X-Cache") p.headers ≡ some found_at

pub hit_page-is_written :
    (web : Web) (self : Node) (entry : Entry)
    → entry.status_code ≤ 999
    → is_written (hit_page web self entry).status_code ≡ true
unfolding hit_page
hit_page-is_written web self entry h = ground arith

-- How a request comes to be this node's: the hash of its URL, the node after the lookup, and that the
-- key is in its range.
pub record Routed {N : Type 0} (dht : DhtNode N) (web : Web) (req : CacheRequest) (n : N)
    (mine : Bool) : Type 0 where
  pub named : (length req.url == 0) ≡ false
  pub hash : Bytes
  pub hashed : new_id_from_string web.sha1 (dht.space n) req.url ≡ ok hash
  pub self : Node
  pub known : dht.self n ≡ some self
  pub after : N
  pub responsible : Option Node
  pub asked :
      responsible_node dht web (bytes_eq req.is_responsible (codes "true")) self hash n
      ≡ finishes (after, responsible)
  pub owns : owns_key dht self hash after responsible ≡ mine
