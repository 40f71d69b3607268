-- ===== src/Cache/Invariant.antt =====
-- The invariant of the web cache, and that every method keeps it.
use koorde_dht_web_cache.Prelude.{
  ℕ, ◌+◌, ◌≡◌, refl, arith, Bool, true, false, Option, none, some, List, [], ◌∷◌, ltb, length,
  Bytes, bytes_eq_iff, inl, inr, Bool-cases, Option-cases,
}
use koorde_dht_web_cache.Prelude.Maps.{
  lookup, insert, Distinct, lookup-insert, lookup-remove, insert-Distinct, remove-Distinct,
}
use koorde_dht_web_cache.Cache.{
  Entry, WebCache, delete, new_web_cache, evict_entry, get, delete_url, evict_all, clean_expired,
  clear,
}
use koorde_dht_web_cache.Cache.Recency.{holds, NoRepeat, holds-delete, delete-NoRepeat}
use koorde_dht_web_cache.Cache.Sizes.{total_size, total_size-insert_old, total_size-remove}

abbrev pub is_some {ℓ} : {A : Type ℓ} → Option A → Bool
is_some none = false
is_some (some a) = true

-- The map and the list hold the same URLs, each once; `currentBytes` is what the entries add up to;
-- and an entry stands under its own URL with the size of its content.
pub record IsValid (wc : WebCache) : Type 0 where
  pub distinct : Distinct wc.entries
  pub no_repeat : NoRepeat wc.lru
  pub agree : (u : Bytes) → holds u wc.lru ≡ is_some (lookup u wc.entries)
  pub sized : wc.current_bytes ≡ total_size wc.entries
  pub labelled :
      (u : Bytes) (e : Entry)
      → lookup u wc.entries ≡ some e
      → (e.url ≡ u) × (e.size ≡ length e.content)

pub new_web_cache-IsValid : (mb : ℕ) → IsValid (new_web_cache mb)
unfolding new_web_cache holds lookup total_size
new_web_cache-IsValid mb = record {
  distinct = tt;
  no_repeat = tt;
  agree = λ u. refl;
  sized = refl;
  labelled = λ u e h. cc;
}

-- Evicting a URL takes it out of the map and of the list, and nothing else.
pub evict_entry-IsValid : (url : Bytes) {wc : WebCache} → IsValid wc → IsValid (evict_entry url wc)
unfolding evict_entry
evict_entry-IsValid url {wc} v = elim (Option-cases (lookup url wc.entries)) [
  | inl missing ↦ rw (missing, evict_entry) v
  | inr (entry, found) ↦
      rw (found, evict_entry)
        (record {
          distinct = remove-Distinct url wc.entries v.distinct;
          no_repeat = delete-NoRepeat url wc.lru v.no_repeat;
          agree = λ u.
              ground (arith, holds-delete url u wc.lru, lookup-remove url u wc.entries, v.agree u);
          sized = omega (arith, total_size-remove url entry wc.entries v.distinct found, v.sized);
          labelled = λ u e h. ground (arith, lookup-remove url u wc.entries, v.labelled u e);
        })
]

-- A map entry replaced by another of the same URL, which moves to the front.
pub touched-IsValid :
    (url : Bytes) (old e : Entry) {wc : WebCache} (bytes : ℕ)
    → IsValid wc
    → lookup url wc.entries ≡ some old
    → bytes + old.size ≡ wc.current_bytes + e.size
    → (e.url ≡ url) × (e.size ≡ length e.content)
    → IsValid (record wc {
      current_bytes = bytes;
      lru = url ∷ delete url wc.lru;
      entries = insert url e wc.entries;
    })
unfolding holds
touched-IsValid url old e {wc} bytes v found balance fits = record {
  distinct = insert-Distinct url e wc.entries v.distinct;
  no_repeat = (
    ground (arith, holds-delete url url wc.lru, bytes_eq_iff url url),
    delete-NoRepeat url wc.lru v.no_repeat,
  );
  agree =
      λ u. ground (arith, holds-delete url u wc.lru, lookup-insert url u e wc.entries, v.agree u);
  sized = omega (arith, total_size-insert_old url e old wc.entries found, v.sized);
  labelled =
      λ u f h. ground (arith, bytes_eq_iff url u, lookup-insert url u e wc.entries, v.labelled u f);
}

-- The counters do not matter to the invariant.
pub recount :
    (hits misses evictions stores : ℕ) {wc : WebCache}
    → IsValid wc
    → IsValid (record wc { hits = hits; misses = misses; evictions = evictions; stores = stores })
recount hits misses evictions stores v = record {
  distinct = v.distinct;
  no_repeat = v.no_repeat;
  agree = v.agree;
  sized = v.sized;
  labelled = v.labelled;
}

pub get-IsValid : (now : ℕ) (url : Bytes) {wc : WebCache} → IsValid wc → IsValid (get now url wc).0
unfolding get
get-IsValid now url {wc} v = elim (Option-cases (lookup url wc.entries)) [
  | inl missing ↦ rw (missing, get) (recount wc.hits (wc.misses + 1) wc.evictions wc.stores v)
  | inr (entry, found) ↦
      rw (found, get)
        (elim (Bool-cases (ltb entry.expiration now)) [
          | inl expired ↦
              let gone = evict_entry url wc in
              rw expired (
                recount gone.hits (gone.misses + 1) gone.evictions gone.stores
                  (evict_entry-IsValid url v))
          | inr fresh ↦ rw fresh (
              recount (wc.hits + 1) wc.misses wc.evictions wc.stores (
                touched-IsValid url entry (record entry { access_count = entry.access_count + 1 })
                  wc.current_bytes v found (omega arith) (v.labelled url entry found)))
        ])
]

pub delete_url-IsValid : (url : Bytes) {wc : WebCache} → IsValid wc → IsValid (delete_url url wc).0
unfolding delete_url
delete_url-IsValid url {wc} v = elim (Option-cases (lookup url wc.entries)) [
  | inl missing ↦ rw (missing, delete_url) v
  | inr (entry, found) ↦ rw (found, delete_url) (evict_entry-IsValid url v)
]

pub evict_all-IsValid :
    (urls : List Bytes) {wc : WebCache} → IsValid wc → IsValid (evict_all urls wc)
unfolding evict_all
evict_all-IsValid [] v = v
evict_all-IsValid (url ∷ urls) v = evict_all-IsValid urls (evict_entry-IsValid url v)

pub clean_expired-IsValid :
    (now : ℕ) {wc : WebCache} → IsValid wc → IsValid (clean_expired now wc).0
unfolding clean_expired
clean_expired-IsValid now v = evict_all-IsValid _ v

pub clear-IsValid : {wc : WebCache} → IsValid wc → IsValid (clear wc)
unfolding clear holds lookup total_size
clear-IsValid v = record {
  distinct = tt;
  no_repeat = tt;
  agree = λ u. refl;
  sized = refl;
  labelled = λ u e h. cc;
}
