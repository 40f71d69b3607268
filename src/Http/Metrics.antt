-- ===== src/Http/Metrics.antt =====
-- internal/node/server/http.go: handleMetrics.
use koorde_dht_web_cache.Prelude.{ℕ, Bool, true, false, none, some, List, length, Bytes}
use koorde_dht_web_cache.Domain.Hex.{to_hex_string}
use koorde_dht_web_cache.Actions.{Run, finishes, panics}
use koorde_dht_web_cache.Hotspot.{Arithmetic, get_hot_urls}
use koorde_dht_web_cache.Metrics.{Quotients, RoutingMetrics, CacheMetrics, get_metrics}
use koorde_dht_web_cache.Http.{DhtNode, HttpServer}
use koorde_dht_web_cache.Http.Status.{NodeText}

pub record MetricsReply (F : Type 0) : Type 0 where
  pub node : NodeText
  pub cache : CacheMetrics F
  pub hotspot_count : ℕ
  pub hotspot_urls : List Bytes
  pub successor_count : ℕ
  pub de_bruijn_count : ℕ
  pub has_predecessor : Bool
  pub stats : RoutingMetrics F

-- RoutingMetrics of the node and the time in seconds are arguments; a node without self panics.
unfoldable pub handle_metrics :
    {N F : Type 0}
    → DhtNode N
    → Arithmetic F
    → Quotients F
    → RoutingMetrics F
    → ℕ
    → HttpServer N F
    → Run (MetricsReply F)
handle_metrics dht float quotients stats now s = elim (dht.self s.node) [
  | none ↦ panics
  | some self ↦
      let hot_urls = get_hot_urls float now s.hotspots in
      finishes (record {
        node = record { id = to_hex_string true self.id; addr = self.addr };
        cache = get_metrics quotients s.cache;
        hotspot_count = length hot_urls;
        hotspot_urls = hot_urls;
        successor_count = length (dht.successor_list s.node);
        de_bruijn_count = length (dht.de_bruijn_list s.node);
        has_predecessor = elim (dht.predecessor s.node) [ none ↦ false | some pred ↦ true ];
        stats = stats;
      })
]
