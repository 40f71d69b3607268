-- ===== src/Http.antt =====
-- internal/node/server/http.go: the HTTP server of the web cache. This file has what a node is to it, its
-- state, requests and replies; the children follow the request. A request runs without others between
-- its steps. What the server uses of the net, net/http, strconv and time packages is an argument.
pub mod Proxy
pub mod Handle
pub mod Status
pub mod Metrics
pub mod Nodes
pub mod Owned
pub mod Candidates
pub mod Forwarded
pub mod Loops
pub mod Answers
use koorde_dht_web_cache.Prelude.{ℕ, Bool, Option, none, some, List, Bytes, codes, ℤ, pos, ◌-ℤ◌}
use koorde_dht_web_cache.Domain.Space.{Space}
use koorde_dht_web_cache.Domain.Hex.{Node}
use koorde_dht_web_cache.Routing.{RoutingEntries}
use koorde_dht_web_cache.Actions.{Run}
use koorde_dht_web_cache.Cache.{WebCache}
use koorde_dht_web_cache.Hotspot.{HotspotDetector}

-- What the server calls of a node (internal/node/dht/interface.go). LookUp says with none that it
-- failed or found nothing, which the server does not tell apart. A Chord node has FingerList too.
pub record DhtNode (N : Type 0) : Type 0 where
  pub space : N → Space
  pub self : N → Option Node
  pub predecessor : N → Option Node
  pub successor_list : N → RoutingEntries
  pub de_bruijn_list : N → RoutingEntries
  pub finger_list : Option (N → RoutingEntries)
  pub protocol : Bytes
  pub look_up : Bool → Bytes → N → Run (N × Option Node)

-- A response of another server; the body is none when reading it fails.
pub record HttpResponse : Type 0 where
  pub status_code : ℕ
  pub content_type : Bytes
  pub x_cache : Bytes
  pub body : Option Bytes

-- A request for a page. An empty text stands for a header or a parameter that is missing.
pub record CacheRequest : Type 0 where
  pub url : Bytes
  pub is_responsible : Bytes
  pub forwarded_from : Bytes

-- A request that is handed on: the URL that it is sent to, and its headers.
pub record ProxyRequest : Type 0 where
  pub proxy_url : Bytes
  pub is_responsible : Bytes
  pub forwarded_from : Bytes
  pub original_time : Bytes

-- The world around one request: SHA-1; net.SplitHostPort, fmt.Sscanf and strconv.Atoi of a port, and
-- `%d`; http.NewRequestWithContext; the answers of a node and of an origin, none when there is none;
-- rand.Intn; whether the contexts of the two lookups have ended; and the clock, in nanoseconds and for
-- the detector in seconds, with the time of the request and its latency as texts.
pub record Web : Type 0 where
  pub sha1 : Bytes → Bytes
  pub split_host_port : Bytes → Option (Bytes × Bytes)
  pub scan_int : Bytes → Option ℤ
  pub atoi : Bytes → Option ℤ
  pub format_int : ℤ → Bytes
  pub new_request_fails : Bytes → Bool
  pub do_request : ProxyRequest → Option HttpResponse
  pub get_url : Bytes → Option HttpResponse
  pub intn : ℕ → ℕ
  pub lookup_ended : Bool
  pub retry_ended : Bool
  pub get_time : ℕ
  pub put_time : ℕ
  pub created_time : ℕ
  pub access_time : ℕ
  pub start_time : Bytes
  pub latency : Bytes

pub record HttpServer (N F : Type 0) : Type 0 where
  pub node : N
  pub cache : WebCache
  pub hotspots : HotspotDetector F
  pub port_offset : ℤ

pub data FetchError : Type 0 where
  request_failed read_failed : FetchError
  bad_status : ℕ → FetchError

-- What http.Error reports.
pub data Failure : Type 0 where
  missing_url not_initialized routing_failed invalid_address invalid_port : Failure
  creation_failed proxy_failed unread_response : Failure
  origin_failed : FetchError → Failure

abbrev pub failure_status : Failure → ℕ
failure_status missing_url = 400
failure_status not_initialized = 500
failure_status routing_failed = 503
failure_status invalid_address = 500
failure_status invalid_port = 500
failure_status creation_failed = 500
failure_status proxy_failed = 502
failure_status unread_response = 500
failure_status (origin_failed e) = 502

pub record Page : Type 0 where
  pub status_code : ℕ
  pub headers : List (Bytes × Bytes)
  pub content : Bytes

pub data Reply : Type 0 where
  page : Page → Reply
  failed : Failure → Reply

abbrev pub Handled : Type 0 → Type 0 → Type 0
Handled N F = Run (HttpServer N F × Reply)

-- An hour and five minutes.
abbrev pub origin_cache_ttl : ℕ
origin_cache_ttl = 3600000000000

abbrev pub near_cache_ttl : ℕ
near_cache_ttl = 300000000000

-- The distance from the port of a node's gRPC server to that of its HTTP server.
unfoldable pub port_offset_of : Web → ℤ → Option Node → ℤ
port_offset_of web port none = pos 4080
port_offset_of web port (some self) = elim (web.split_host_port self.addr) [
  | none ↦ pos 4080
  | some parts ↦ elim (web.atoi parts.1) [ none ↦ pos 4080 | some grpc_port ↦ port -ℤ grpc_port ]
]

unfoldable pub new_http_cache_server :
    {N F : Type 0} → DhtNode N → Web → N → WebCache → HotspotDetector F → ℤ → HttpServer N F
new_http_cache_server dht web node cache hotspots port = record {
  node = node;
  cache = cache;
  hotspots = hotspots;
  port_offset = port_offset_of web port (dht.self node);
}
