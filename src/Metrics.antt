-- ===== src/Metrics.antt =====
-- internal/node/logicnode/metrics.go and internal/node/dht/metrics.go: the counters of the lookups of a
-- node; GetMetrics and Size of internal/node/cache/cache.go. A method is one step. The floating point
-- numbers are an argument; the sums of nanoseconds are integers of any size.
pub mod Counts
use koorde_dht_web_cache.Prelude.{
  ℕ, ◌+◌, ◌%◌, ◌^◌, ltb, ◌==◌, if◌then◌else◌, length, Bytes, codes, ℤ, pos, ◌+ℤ◌,
}
use koorde_dht_web_cache.Cache.{WebCache}

-- What the code uses of float64: 0, the conversions, division, and 1e6.
pub record Quotients (F : Type 0) : Type 0 where
  pub zero_value : F
  pub from_int : ℤ → F
  pub divide : F → F → F
  pub million : F

pub record RoutingStats : Type 0 where
  pub de_bruijn_success_count : ℕ
  pub de_bruijn_failure_count : ℕ
  pub successor_fallback_count : ℕ
  pub de_bruijn_success_latency : ℤ
  pub de_bruijn_failure_latency : ℤ
  pub successor_fallback_latency : ℤ

unfoldable pub new_routing_stats : RoutingStats
new_routing_stats = record {
  de_bruijn_success_count = 0;
  de_bruijn_failure_count = 0;
  successor_fallback_count = 0;
  de_bruijn_success_latency = pos 0;
  de_bruijn_failure_latency = pos 0;
  successor_fallback_latency = pos 0;
}

-- Add(1) of an atomic uint64.
unfoldable pub increment : ℕ → ℕ
increment n = (n + 1) % 2 ^ 64

unfoldable pub observe_de_bruijn_success : ℤ → RoutingStats → RoutingStats
observe_de_bruijn_success d s = record s {
  de_bruijn_success_count = increment s.de_bruijn_success_count;
  de_bruijn_success_latency = s.de_bruijn_success_latency +ℤ d;
}

unfoldable pub observe_de_bruijn_failure : ℤ → RoutingStats → RoutingStats
observe_de_bruijn_failure d s = record s {
  de_bruijn_failure_count = increment s.de_bruijn_failure_count;
  de_bruijn_failure_latency = s.de_bruijn_failure_latency +ℤ d;
}

unfoldable pub observe_successor_fallback : ℤ → RoutingStats → RoutingStats
observe_successor_fallback d s = record s {
  successor_fallback_count = increment s.successor_fallback_count;
  successor_fallback_latency = s.successor_fallback_latency +ℤ d;
}

pub record RoutingMetrics (F : Type 0) : Type 0 where
  pub protocol : Bytes
  pub de_bruijn_success_count : ℕ
  pub de_bruijn_failure_count : ℕ
  pub successor_fallback_count : ℕ
  pub avg_de_bruijn_success_latency_ms : F
  pub avg_de_bruijn_failure_latency_ms : F
  pub avg_successor_fallback_latency : F

pub record CacheMetrics (F : Type 0) : Type 0 where
  pub hits : ℕ
  pub misses : ℕ
  pub evictions : ℕ
  pub stores : ℕ
  pub hit_rate : F
  pub entry_count : ℕ
  pub size_bytes : ℕ
  pub capacity_bytes : ℕ
  pub utilization : F

unfoldable pub size : WebCache → ℕ
size wc = length wc.entries

module _ {F : Type 0} (float : Quotients F) where
  unfoldable pub avg_millis : ℤ → ℕ → F
  avg_millis total_nano count =
      if count == 0
      then float.zero_value
      else float.divide (float.divide (float.from_int total_nano) (float.from_int (pos count)))
          float.million

  unfoldable pub snapshot : RoutingStats → RoutingMetrics F
  snapshot s = record {
    protocol = codes "koorde";
    de_bruijn_success_count = s.de_bruijn_success_count;
    de_bruijn_failure_count = s.de_bruijn_failure_count;
    successor_fallback_count = s.successor_fallback_count;
    avg_de_bruijn_success_latency_ms =
        avg_millis s.de_bruijn_success_latency s.de_bruijn_success_count;
    avg_de_bruijn_failure_latency_ms =
        avg_millis s.de_bruijn_failure_latency s.de_bruijn_failure_count;
    avg_successor_fallback_latency =
        avg_millis s.successor_fallback_latency s.successor_fallback_count;
  }

  unfoldable pub get_metrics : WebCache → CacheMetrics F
  get_metrics wc =
      let total = wc.hits + wc.misses in
      record {
        hits = wc.hits;
        misses = wc.misses;
        evictions = wc.evictions;
        stores = wc.stores;
        hit_rate =
            if ltb 0 total
            then float.divide (float.from_int (pos wc.hits)) (float.from_int (pos total))
            else float.zero_value;
        entry_count = length wc.entries;
        size_bytes = wc.current_bytes;
        capacity_bytes = wc.capacity_bytes;
        utilization =
            float.divide (float.from_int (pos wc.current_bytes))
              (float.from_int (pos wc.capacity_bytes));
      }
