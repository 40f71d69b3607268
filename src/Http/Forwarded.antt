-- ===== src/Http/Forwarded.antt =====
-- A request for a page that this node is not responsible for.
use koorde_dht_web_cache.Prelude.{
  ◌≡◌, refl, false, some, Bytes, codes, ◌++◌, ℤ, ◌+ℤ◌, if◌then◌else◌,
}
use koorde_dht_web_cache.Domain.Hex.{Node}
use koorde_dht_web_cache.Domain.Ring.{equal}
use koorde_dht_web_cache.Actions.{finishes, panics, stuck, exhausted}
use koorde_dht_web_cache.Hotspot.{Arithmetic}
use koorde_dht_web_cache.Http.{
  DhtNode, HttpResponse, CacheRequest, Web, HttpServer, Page, page, failed, Handled,
}
use koorde_dht_web_cache.Http.Proxy.{proxied_page, proxy_request, is_success, is_written}
use koorde_dht_web_cache.Http.Handle.{forward_request, serve_key, serve_hash, handle_cache_request}
use koorde_dht_web_cache.Http.Owned.{Routed}

-- The page is the answer of another node, which is known to this one, to the request that this node
-- sent to the HTTP server there, at the host and the port of its address moved by the offset; the
-- request asks for the same page and says that the node is responsible. It is not counted as one for
-- a page of this node, and an answer that is no success is not kept.
pub record Elsewhere {N F : Type 0} (K : Node → Type 0) (web : Web) (self : Node) (url : Bytes)
    (s t : HttpServer N F) (p : Page) : Type 0 where
  pub target : Node
  pub known : K target
  pub other : equal target.id self.id ≡ false
  pub host : Bytes
  pub port : Bytes
  pub address : web.split_host_port target.addr ≡ some (host, port)
  pub grpc_port : ℤ
  pub number : web.scan_int port ≡ some grpc_port
  pub resp : HttpResponse
  pub answers :
      web.do_request (record {
        proxy_url =
            codes "http://"
            ++ (host
                ++ (codes ":"
                    ++ (web.format_int (grpc_port +ℤ s.port_offset)
                        ++ (codes "/cache?url=" ++ url))));
        is_responsible = codes "true";
        forwarded_from = self.addr;
        original_time = web.start_time;
      })
      ≡ some resp
  pub body : resp.body ≡ some p.content
  pub status : p.status_code ≡ resp.status_code
  pub hotspots : t.hotspots ≡ s.hotspots
  pub unkept : is_success resp.status_code ≡ false → t.cache ≡ s.cache

-- What holds of the end of a call; a failure leaves the cache and the counts as they were.
abbrev pub Finished :
    {N F : Type 0} → (Node → Type 0) → Web → Node → Bytes → HttpServer N F → Handled N F → Type 0
Finished K web self url s (finishes (t, page p)) = Elsewhere K web self url s t p
Finished K web self url s (finishes (t, failed e)) = (t.cache ≡ s.cache) × (t.hotspots ≡ s.hotspots)
Finished K web self url s panics = Unit {0}
Finished K web self url s stuck = Unit {0}
Finished K web self url s exhausted = Unit {0}

module _ {N F : Type 0} (K : Node → Type 0) (web : Web) (self : Node) (url : Bytes)
    (s : HttpServer N F) where
  module _ (target : Node) (known : K target) (other : equal target.id self.id ≡ false)
      (cache_status : Bytes) where
    module _ (host port : Bytes) (grpc_port : ℤ)
        (address : web.split_host_port target.addr ≡ some (host, port))
        (number : web.scan_int port ≡ some grpc_port) where
      abbrev proxy_url : Bytes
      proxy_url =
          codes "http://"
          ++ (host
              ++ (codes ":"
                  ++ (web.format_int (grpc_port +ℤ s.port_offset) ++ (codes "/cache?url=" ++ url))))

      module _ (resp : HttpResponse) (content : Bytes)
          (answers : web.do_request (proxy_request web self proxy_url) ≡ some resp)
          (body : resp.body ≡ some content) where
        abbrev reply_with : HttpServer N F → Handled N F
        reply_with kept =
            if is_written resp.status_code
            then finishes (kept, page (proxied_page web self target.addr cache_status resp content))
            else panics

module _ {N F : Type 0} (dht : DhtNode N) (float : Arithmetic F) where
  pub handle_unowned :
      (web : Web) (req : CacheRequest) (s : HttpServer N F)
      → (o : Routed dht web req s.node false)
      → handle_cache_request dht float web req s
        ≡ forward_request dht float web o.self req.url o.hash o.responsible
            (record s { node = o.after })
  unfolding handle_cache_request serve_hash serve_key
  handle_unowned web req s o = rw (o.named, o.hashed, serve_hash, o.known, o.asked, o.owns) refl
