-- ===== src/Cache/Laws.antt =====
-- What Put promises: the result of each branch, and the URLs that make room.
use koorde_dht_web_cache.Prelude.{
  ℕ, suc, ◌+◌, ◌-◌, ◌≤◌, ◌<◌, ◌≡◌, refl, sym, ap, ◌∙◌, arith, true, false, Option, none, some, List,
  [], ◌∷◌, ◌++◌, ltb, if◌then◌else◌, length, Bytes, bytes_eq, bytes_eq_iff, inl, inr,
}
use koorde_dht_web_cache.Prelude.Maps.{lookup, insert, lookup-insert, insert-Distinct}
use koorde_dht_web_cache.Cache.{
  Entry, WebCache, delete, stored, new_entry, updated_entry, store_new, put,
}
use koorde_dht_web_cache.Cache.Recency.{holds}
use koorde_dht_web_cache.Cache.Sizes.{total_size, total_size-insert_new, total_size-remove}
use koorde_dht_web_cache.Cache.Invariant.{is_some, IsValid, touched-IsValid}
use koorde_dht_web_cache.Cache.Eviction.{Room, make_room-Room, entry_of, holds-append_middle}

-- The first of the evicted URLs has an entry that does not fit with the bytes that stay.
abbrev pub NoRoomFor : List Bytes → List (Bytes × Entry) → ℕ → ℕ → Type 0
NoRoomFor [] entries capacity bytes = Unit {0}
NoRoomFor (g ∷ rest) entries capacity bytes =
    (e : Entry) × (lookup g entries ≡ some e) × (capacity < bytes + e.size)

-- The state after storing a new URL: some of the most recently used URLs are kept, the others went.
pub record Stored (url : Bytes) (entry : Entry) (wc out : WebCache) : Type 0 where
  pub kept : List Bytes
  pub gone : List Bytes
  pub valid : IsValid out
  pub within : out.current_bytes ≤ out.capacity_bytes
  pub capacity : out.capacity_bytes ≡ wc.capacity_bytes
  pub before : wc.lru ≡ kept ++ gone
  pub after : out.lru ≡ url ∷ kept
  pub entries :
      (u : Bytes)
      → lookup u out.entries ≡ (
          if bytes_eq url u
          then some entry
          else (if holds u kept then lookup u wc.entries else none))
  pub needed : NoRoomFor gone wc.entries wc.capacity_bytes out.current_bytes
  pub evicted : out.evictions ≡ wc.evictions + length gone

no_entries :
    (m : List (Bytes × Entry)) → ((u : Bytes) → is_some (lookup u m) ≡ false) → total_size m ≡ 0
unfolding total_size lookup
no_entries [] h = refl
no_entries ((u, e) ∷ m) h = absurd (ground (arith, h u, bytes_eq_iff u u))

-- A cache whose list is empty holds no bytes.
nothing_left : {wc : WebCache} → IsValid wc → wc.lru ≡ [] → wc.current_bytes ≡ 0
unfolding holds
nothing_left {wc} v e = v.sized ∙ no_entries wc.entries (λ u. sym (v.agree u) ∙ ap (holds u) e)

-- The new entry at the front of a cache that does not hold its URL.
added-IsValid :
    (entry : Entry) (stores : ℕ) {wc : WebCache}
    → IsValid wc
    → lookup entry.url wc.entries ≡ none
    → entry.size ≡ length entry.content
    → IsValid (record wc {
      lru = entry.url ∷ wc.lru;
      entries = insert entry.url entry wc.entries;
      current_bytes = wc.current_bytes + entry.size;
      stores = stores;
    })
unfolding holds
added-IsValid entry stores {wc} v missing size = record {
  distinct = insert-Distinct entry.url entry wc.entries v.distinct;
  no_repeat = (ground (arith, v.agree entry.url, missing), v.no_repeat);
  agree = λ u. ground (arith, v.agree u, lookup-insert entry.url u entry wc.entries);
  sized = omega (arith, v.sized, total_size-insert_new entry.url entry wc.entries missing);
  labelled = λ u e h.
      ground (
        arith,
        bytes_eq_iff entry.url u,
        lookup-insert entry.url u entry wc.entries,
        v.labelled u e,
      );
}

store_new-Stored :
    (entry : Entry) (wc : WebCache)
    → IsValid wc
    → lookup entry.url wc.entries ≡ none
    → entry.size ≡ length entry.content
    → entry.size ≤ wc.capacity_bytes
    → (result : Option WebCache) → Room entry.size wc result
    → (out : WebCache) × (store_new entry result ≡ stored out) × Stored entry.url entry wc out
unfolding store_new
store_new-Stored entry wc v missing size small result r =
    let out_missing : lookup entry.url r.out.entries ≡ none =
      ground (arith, r.kept entry.url, missing) in
    (
      record r.out {
        lru = entry.url ∷ r.out.lru;
        entries = insert entry.url entry r.out.entries;
        current_bytes = r.out.current_bytes + entry.size;
        stores = r.out.stores + 1;
      },
      rw r.returns refl,
      record {
        kept = r.out.lru;
        gone = r.gone;
        valid = added-IsValid entry (r.out.stores + 1) r.valid out_missing size;
        within = elim r.fits [
          | inl fits ↦ fits
          | inr empty ↦ omega (arith, nothing_left r.valid empty, r.capacity)
        ];
        capacity = r.capacity;
        before = r.split;
        after = refl;
        entries = λ u. ground (arith, lookup-insert entry.url u entry r.out.entries, r.kept u);
        needed = no_room r.gone refl;
        evicted = r.counted;
      },
    )
  where
    no_room :
        (gone : List Bytes)
        → r.gone ≡ gone
        → NoRoomFor gone wc.entries wc.capacity_bytes (r.out.current_bytes + entry.size)
    no_room [] e = tt
    no_room (g ∷ rest) e =
        let held : holds g wc.lru ≡ true =
          ap (holds g) (r.split ∙ ap (λ (l : List Bytes). r.out.lru ++ l) e)
          ∙ holds-append_middle g r.out.lru rest in
        let (old, found) = entry_of v g held in
        (old, found, omega (arith, r.needed g rest old e found))

-- Storing a URL that is not in a valid cache, with a content no larger than the capacity: Put returns
-- with no error, the cache stays valid and is within the capacity, and holds the new entry and those
-- of the most recently used URLs. It evicts the least recently used ones, and the most recent of
-- these would not have fitted with what stays.
pub put_new :
    (now created : ℕ) (url content content_type : Bytes) (ttl status_code : ℕ) {wc : WebCache}
    → IsValid wc
    → lookup url wc.entries ≡ none
    → length content ≤ wc.capacity_bytes
    → (out : WebCache) × (put now created url content content_type ttl status_code wc ≡ stored out)
      × Stored url (new_entry now created url content content_type ttl status_code) wc out
unfolding put
put_new now created url content content_type ttl status_code {wc} v missing small =
    let entry = new_entry now created url content content_type ttl status_code in
    let fits : ltb wc.capacity_bytes (length content) ≡ false = ground arith in
    rw (missing, put, fits)
      (unfold new_entry in
        store_new-Stored entry wc v missing refl small _
          (make_room-Room (suc (length wc.lru)) (length content) wc v (omega arith)))

-- Storing a URL that is in a valid cache: Put returns with no error, keeps the cache valid, changes
-- the byte count by the difference of the contents, replaces the entry, moves the URL to the front, and
-- evicts nothing, whatever the capacity.
pub put_old :
    (now created : ℕ) (url content content_type : Bytes) (ttl status_code : ℕ) (old : Entry)
    {wc : WebCache}
    → IsValid wc
    → lookup url wc.entries ≡ some old
    → (out : WebCache) × (put now created url content content_type ttl status_code wc ≡ stored out)
      × IsValid out
      × (out.current_bytes + length old.content ≡ wc.current_bytes + length content)
      × (out.lru ≡ url ∷ delete url wc.lru)
      × ((u : Bytes)
          → lookup u out.entries ≡ (
              if bytes_eq url u
              then some (updated_entry now content content_type ttl status_code old)
              else lookup u wc.entries))
unfolding put
put_old now created url content content_type ttl status_code old {wc} v found =
    let entry = updated_entry now content content_type ttl status_code old in
    let size = (v.labelled url old found).1 in
    let balance : wc.current_bytes - old.size + length content + old.size
        ≡ wc.current_bytes + length content =
      omega (arith, total_size-remove url old wc.entries v.distinct found, v.sized) in
    (
      record wc {
        current_bytes = wc.current_bytes - old.size + length content;
        entries = insert url entry wc.entries;
        lru = url ∷ delete url wc.lru;
      },
      rw (found, put),
      unfold updated_entry in
          touched-IsValid url old entry _ v found balance ((v.labelled url old found).0, refl),
      omega (arith, balance, size),
      refl,
      λ u. lookup-insert url u entry wc.entries,
    )

-- When the URL is in a valid cache and the new content, in place of the old one, would take the byte
-- count above the capacity, Put returns with no error and leaves the count above the capacity.
put_over_capacity :
    (now created : ℕ) (url content content_type : Bytes) (ttl status_code : ℕ) (old : Entry)
    {wc : WebCache}
    → IsValid wc
    → lookup url wc.entries ≡ some old
    → wc.capacity_bytes + length old.content < wc.current_bytes + length content
    → (out : WebCache) × (put now created url content content_type ttl status_code wc ≡ stored out)
      × (wc.capacity_bytes < out.current_bytes)
put_over_capacity now created url content content_type ttl status_code old {wc} v found big =
    let (out, returns, _, balance, _, _) =
      put_old now created url content content_type ttl status_code old v found in
    (out, returns, omega (arith, balance))
