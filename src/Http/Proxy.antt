-- ===== src/Http/Proxy.antt =====
-- internal/node/server/http.go: pickRandomNode, proxyToNode and fetchFromOrigin.
use koorde_dht_web_cache.Prelude.{
  ℕ, Bool, ◌&&◌, not, none, some, List, [], ◌∷◌, ◌++◌, ltb, leb, ◌==◌, if◌then◌else◌, length,
  get_elem?, Bytes, bytes_eq, codes, ◌+ℤ◌, Result, returned, refused,
}
use koorde_dht_web_cache.Prelude.Maps.{insert}
use koorde_dht_web_cache.Domain.Hex.{Node}
use koorde_dht_web_cache.Routing.{RoutingEntries}
use koorde_dht_web_cache.Actions.{Run, finishes, panics, exhausted, ◌>>=◌}
use koorde_dht_web_cache.Cache as Cache
use koorde_dht_web_cache.Cache.{WebCache, PutResult, stored, too_large, out_of_fuel}
use koorde_dht_web_cache.Http.{
  DhtNode, HttpResponse, ProxyRequest, Web, HttpServer, FetchError, request_failed, read_failed,
  bad_status, invalid_address, invalid_port, creation_failed, proxy_failed, unread_response, Page,
  page, failed, Handled, near_cache_ttl,
}

-- The set `allNodes`, as a map to nothing.
unfoldable pub add_addresses : RoutingEntries → List (Bytes × Unit {0}) → List (Bytes × Unit {0})
add_addresses [] addrs = addrs
add_addresses (none ∷ entries) addrs = add_addresses entries addrs
add_addresses (some n ∷ entries) addrs = add_addresses entries (insert n.addr tt addrs)

unfoldable pub other_addresses : Bytes → List (Bytes × Unit {0}) → List Bytes
other_addresses self [] = []
other_addresses self ((addr, _) ∷ addrs) =
    if bytes_eq addr self then other_addresses self addrs else addr ∷ other_addresses self addrs

module _ {N : Type 0} (dht : DhtNode N) where
  unfoldable pub finger_entries : N → RoutingEntries
  finger_entries n = elim dht.finger_list [ none ↦ [] | some fingers ↦ fingers n ]

  unfoldable pub all_addresses : N → List (Bytes × Unit {0})
  all_addresses n =
      let successors = add_addresses (dht.successor_list n) [] in
      let neighbours = add_addresses (dht.de_bruijn_list n) successors in
      let fingers =
        if length (dht.de_bruijn_list n) == 0
        then add_addresses (finger_entries n) neighbours
        else neighbours in
      add_addresses (dht.predecessor n ∷ []) fingers

  -- The address that is picked; an index out of range panics.
  unfoldable pub pick_random_node : Web → Node → N → Run Bytes
  pick_random_node web self n =
      let nodes = other_addresses self.addr (all_addresses n) in
      if length nodes == 0
      then finishes self.addr
      else elim (get_elem? nodes (web.intn (length nodes))) [
        | none ↦ panics
        | some addr ↦ finishes addr
      ]

-- The cache after Put, whose error is only logged.
unfoldable pub cached : PutResult → Run WebCache
cached (stored wc) = finishes wc
cached (too_large wc) = finishes wc
cached out_of_fuel = exhausted

-- `200 <= status && status < 300`
abbrev pub is_success : ℕ → Bool
is_success status = leb 200 status && ltb status 300

-- WriteHeader panics for a status that has not three digits or starts with 0.
abbrev pub is_written : ℕ → Bool
is_written status = leb 100 status && leb status 999

abbrev pub type_or_default : Bytes → Bytes
type_or_default content_type =
    if length content_type == 0 then codes "application/octet-stream" else content_type

-- The reply for a response of another node.
unfoldable pub proxied_page : Web → Node → Bytes → Bytes → HttpResponse → Bytes → Page
proxied_page web self node_addr cache_status resp content = record {
  status_code = resp.status_code;
  headers =
      (codes "Content-Type", type_or_default resp.content_type)
      ∷ (codes "X-Cache", cache_status)
      ∷ (codes "X-Responsible-Node", node_addr)
      ∷ (codes "X-Entry-Node", self.addr)
      ∷ (codes "X-Latency-Ms", web.latency)
      ∷ (if length resp.x_cache == 0 then [] else (codes "X-Cache-Origin", resp.x_cache) ∷ []);
  content = content;
}

-- The headers say that the target is responsible.
unfoldable pub proxy_request : Web → Node → Bytes → ProxyRequest
proxy_request web self proxy_url = record {
  proxy_url = proxy_url;
  is_responsible = codes "true";
  forwarded_from = self.addr;
  original_time = web.start_time;
}

module _ {N F : Type 0} (web : Web) (self : Node) (url : Bytes) where
  unfoldable pub keep_near : HttpResponse → Bytes → HttpServer N F → Run (HttpServer N F)
  keep_near resp content s = if not (is_success resp.status_code) then finishes s else do
    wc ← cached (
        Cache.put web.put_time web.created_time url content (type_or_default resp.content_type)
          near_cache_ttl resp.status_code s.cache)
    finishes (record s { cache = wc })

  -- proxyToNode after the URL of the node is known.
  unfoldable pub send_proxy : Bytes → Bytes → Bytes → HttpServer N F → Handled N F
  send_proxy node_addr cache_status proxy_url s =
      if web.new_request_fails proxy_url
      then finishes (s, failed creation_failed)
      else elim (web.do_request (proxy_request web self proxy_url)) [
        | none ↦ finishes (s, failed proxy_failed)
        | some resp ↦ elim resp.body [
          | none ↦ finishes (s, failed unread_response)
          | some content ↦ do
            kept ← keep_near resp content s
            if is_written resp.status_code
                then finishes
                    (kept, page (proxied_page web self node_addr cache_status resp content))
                else panics
        ]
      ]

  unfoldable pub proxy_to_node : Bytes → Bytes → HttpServer N F → Handled N F
  proxy_to_node node_addr cache_status s = elim (web.split_host_port node_addr) [
    | none ↦ finishes (s, failed invalid_address)
    | some parts ↦ elim (web.scan_int parts.1) [
      | none ↦ finishes (s, failed invalid_port)
      | some grpc_port ↦
          send_proxy node_addr cache_status
            (codes "http://"
              ++ (parts.0
                  ++ (codes ":"
                      ++ (web.format_int (grpc_port +ℤ s.port_offset)
                          ++ (codes "/cache?url=" ++ url)))))
            s
    ]
  ]

-- What is fetched: the content, its type and the status.
pub record Fetched : Type 0 where
  pub content : Bytes
  pub content_type : Bytes
  pub status_code : ℕ

unfoldable pub fetch_from_origin : Web → Bytes → Result FetchError Fetched
fetch_from_origin web url = elim (web.get_url url) [
  | none ↦ refused request_failed
  | some resp ↦
      if not (is_success resp.status_code)
      then refused (bad_status resp.status_code)
      else elim resp.body [
        | none ↦ refused read_failed
        | some content ↦ returned (record {
          content = content;
          content_type = type_or_default resp.content_type;
          status_code = resp.status_code;
        })
      ]
]
