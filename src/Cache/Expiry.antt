-- ===== src/Cache/Expiry.antt =====
-- CleanExpired takes out exactly the entries whose time is over.
use koorde_dht_web_cache.Prelude.{
  ℕ, ◌+◌, ◌≡◌, refl, ap, ◌∙◌, arith, false, Option, none, some, List, [], ◌∷◌, ltb, if◌then◌else◌,
  length, Bytes, bytes_eq, bytes_eq_iff, inl, inr, Option-cases,
}
use koorde_dht_web_cache.Prelude.Maps.{lookup, Distinct, lookup-remove}
use koorde_dht_web_cache.Cache.{
  Entry, WebCache, evict_entry, expired_urls, evict_all, clean_expired,
}
use koorde_dht_web_cache.Cache.Recency.{holds}
use koorde_dht_web_cache.Cache.Invariant.{IsValid}

evict_entry-lookup :
    (url u : Bytes) (wc : WebCache)
    → lookup u (evict_entry url wc).entries ≡ (if bytes_eq url u then none else lookup u wc.entries)
unfolding evict_entry
evict_entry-lookup url u wc = elim (Option-cases (lookup url wc.entries)) [
  | inl missing ↦
      rw (missing, evict_entry)
        (ground (
          arith,
          missing,
          bytes_eq_iff url u,
          λ (e : url ≡ u). ap (λ (w : Bytes). lookup w wc.entries) e,
        ))
  | inr (entry, found) ↦ rw (found, evict_entry) (lookup-remove url u wc.entries)
]

evict_all-lookup :
    (urls : List Bytes) (u : Bytes) (wc : WebCache)
    → lookup u (evict_all urls wc).entries ≡ (if holds u urls then none else lookup u wc.entries)
unfolding evict_all holds
evict_all-lookup [] u wc = refl
evict_all-lookup (url ∷ urls) u wc =
    ground (arith, evict_all-lookup urls u (evict_entry url wc), evict_entry-lookup url u wc)

-- An entry that stands at time `now`.
abbrev pub unexpired : ℕ → Option Entry → Option Entry
unexpired now none = none
unexpired now (some e) = if ltb e.expiration now then none else some e

expired_urls-absent :
    (now : ℕ) (u : Bytes) (m : List (Bytes × Entry))
    → lookup u m ≡ none
    → holds u (expired_urls now m) ≡ false
unfolding expired_urls holds lookup
expired_urls-absent now u [] h = refl
expired_urls-absent now u ((v, e) ∷ m) h =
    ground (arith, bytes_eq_iff v u, bytes_eq_iff u v, expired_urls-absent now u m)

expired_urls-holds :
    (now : ℕ) (u : Bytes) (m : List (Bytes × Entry))
    → Distinct m
    → (if holds u (expired_urls now m) then none else lookup u m) ≡ unexpired now (lookup u m)
unfolding expired_urls holds lookup
expired_urls-holds now u [] d = refl
expired_urls-holds now u ((v, e) ∷ m) d = ground (
  arith,
  bytes_eq_iff v u,
  expired_urls-holds now u m,
  expired_urls-absent now v m,
  bytes_eq_iff u v,
)

-- The number of expired entries.
abbrev pub count_expired : ℕ → List (Bytes × Entry) → ℕ
count_expired now [] = 0
count_expired now ((_, e) ∷ m) = (if ltb e.expiration now then 1 else 0) + count_expired now m

expired_urls-length :
    (now : ℕ) (m : List (Bytes × Entry)) → length (expired_urls now m) ≡ count_expired now m
unfolding expired_urls
expired_urls-length now [] = refl
expired_urls-length now ((v, e) ∷ m) = ground (arith, expired_urls-length now m)

-- CleanExpired of a valid cache keeps the entry of each URL whose time is not over, takes out every
-- other one, and returns the number of those it took out.
pub clean_expired_lem :
    (now : ℕ) {wc : WebCache}
    → IsValid wc
    → ((u : Bytes)
        → lookup u (clean_expired now wc).0.entries ≡ unexpired now (lookup u wc.entries))
      × ((clean_expired now wc).1 ≡ count_expired now wc.entries)
unfolding clean_expired
clean_expired_lem now {wc} v = (
  λ u.
      evict_all-lookup (expired_urls now wc.entries) u wc
      ∙ expired_urls-holds now u wc.entries v.distinct,
  expired_urls-length now wc.entries,
)
