-- ===== src/Metrics/Counts.antt =====
-- What the counters say of the calls that were made.
use koorde_dht_web_cache.Prelude.{
  ℕ, ◌+◌, ◌%◌, ◌^◌, ◌≡◌, ap, ◌∙◌, arith, Option, none, some, List, [], ◌∷◌, Bytes, ℤ,
}
use native.Mathlib.Nat.{mod-add-mod}
use koorde_dht_web_cache.Cache as Cache
use koorde_dht_web_cache.Cache.{WebCache, Entry}
use koorde_dht_web_cache.Metrics.{
  RoutingStats, increment, observe_de_bruijn_success, observe_de_bruijn_failure,
  observe_successor_fallback,
}

-- What a lookup reports: a hop that answered, one that did not, or a hop to the successor, with the time
-- that it took.
pub data Hop : Type 0 where
  success failure fallback : ℤ → Hop

abbrev pub observe : Hop → RoutingStats → RoutingStats
observe (success d) s = observe_de_bruijn_success d s
observe (failure d) s = observe_de_bruijn_failure d s
observe (fallback d) s = observe_successor_fallback d s

abbrev pub observe_all : List Hop → RoutingStats → RoutingStats
observe_all [] s = s
observe_all (hop ∷ hops) s = observe_all hops (observe hop s)

abbrev is_success : Hop → ℕ
is_success (success d) = 1
is_success hop = 0

abbrev pub successes : List Hop → ℕ
successes [] = 0
successes (hop ∷ hops) = is_success hop + successes hops

increment_lem : (n m : ℕ) → (increment n + m) % 2 ^ 64 ≡ (n + (1 + m)) % 2 ^ 64
unfolding increment
increment_lem n m = mod-add-mod (n + 1) (2 ^ 64) m ∙ ap (λ x. x % 2 ^ 64) (omega arith)

no_more :
    (s : RoutingStats) (hops : List Hop)
    → (s.de_bruijn_success_count + successes hops) % 2 ^ 64
      ≡ (s.de_bruijn_success_count + (0 + successes hops)) % 2 ^ 64
no_more s hops = ap (λ x. x % 2 ^ 64) (omega arith)

-- The counter of the hops that answered is the number of them, modulo 2 ^ 64.
observe_all-successes :
    (hops : List Hop) (s : RoutingStats)
    → (observe_all hops s).de_bruijn_success_count % 2 ^ 64
      ≡ (s.de_bruijn_success_count + successes hops) % 2 ^ 64
unfolding observe_de_bruijn_success observe_de_bruijn_failure observe_successor_fallback
observe_all-successes [] s = omega arith
observe_all-successes (success d ∷ hops) s =
    observe_all-successes hops (observe_de_bruijn_success d s)
    ∙ increment_lem s.de_bruijn_success_count (successes hops)
observe_all-successes (failure d ∷ hops) s =
    observe_all-successes hops (observe_de_bruijn_failure d s) ∙ no_more s hops
observe_all-successes (fallback d ∷ hops) s =
    observe_all-successes hops (observe_successor_fallback d s) ∙ no_more s hops

-- Whether an entry was found, as a number.
abbrev pub count_found : Option Entry → ℕ
count_found none = 0
count_found (some e) = 1

evicted_counts :
    (url : Bytes) (wc : WebCache)
    → ((Cache.evict_entry url wc).hits ≡ wc.hits) × ((Cache.evict_entry url wc).misses ≡ wc.misses)
unfolding Cache.evict_entry
evicted_counts url wc = ground arith

-- A Get counts as one hit when it finds an entry, and as one miss when it does not.
get-count_found :
    (now : ℕ) (url : Bytes) (wc : WebCache)
    → ((Cache.get now url wc).0.hits ≡ wc.hits + count_found (Cache.get now url wc).1)
      × ((Cache.get now url wc).0.hits + (Cache.get now url wc).0.misses ≡ wc.hits + wc.misses + 1)
unfolding Cache.get
get-count_found now url wc = ground (arith, evicted_counts url wc)
