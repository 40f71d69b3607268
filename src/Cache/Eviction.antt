-- ===== src/Cache/Eviction.antt =====
-- The eviction loop of Put: it ends, it takes URLs from the back of the recency list only, and it
-- takes no more of them than it must.
use koorde_dht_web_cache.Prelude.{
  ℕ, zero, suc, ◌+◌, ◌-◌, ◌≤◌, ◌<◌, ◌≡◌, refl, sym, ap, ◌∙◌, arith, true, false, ◌&&◌, ◌⊎◌, Option,
  none, some, List, [], ◌∷◌, ◌++◌, ltb, if◌then◌else◌, length, length-append, Bytes, bytes_eq,
  bytes_eq_iff, inl, inr, Bool-cases, Option-cases,
}
use koorde_dht_web_cache.Prelude.Maps.{lookup, remove, lookup-remove}
use koorde_dht_web_cache.Cache.{Entry, WebCache, delete, back, evict_entry, make_room}
use koorde_dht_web_cache.Cache.Recency.{holds, NoRepeat, Last, Last-of, holds-delete}
use koorde_dht_web_cache.Cache.Sizes.{total_size-remove}
use koorde_dht_web_cache.Cache.Invariant.{is_some, IsValid, evict_entry-IsValid}
use mathlib.Core.List.{append_assoc, append-nil}
use mathlib.Core.Path.{subst}

pub record Room (size : ℕ) (wc : WebCache) (result : Option WebCache) : Type 0 where
  pub out : WebCache
  pub gone : List Bytes
  pub returns : result ≡ some out
  pub valid : IsValid out
  pub capacity : out.capacity_bytes ≡ wc.capacity_bytes
  pub split : wc.lru ≡ out.lru ++ gone
  pub kept :
      (u : Bytes) → lookup u out.entries ≡ (if holds u out.lru then lookup u wc.entries else none)
  pub fits : (out.current_bytes + size ≤ out.capacity_bytes) ⊎ (out.lru ≡ [])
  pub untouched : gone ≡ [] → out ≡ wc
  pub needed :
      (g : Bytes) (rest : List Bytes) (e : Entry)
      → gone ≡ g ∷ rest
      → lookup g wc.entries ≡ some e
      → wc.capacity_bytes < out.current_bytes + e.size + size
  pub counted : out.evictions ≡ wc.evictions + length gone

pub holds-append_left : (u : Bytes) (l m : List Bytes) → holds u l ≡ true → holds u (l ++ m) ≡ true
unfolding holds
holds-append_left u [] m h = cc
holds-append_left u (v ∷ l) m h = ground (arith, holds-append_left u l m)

pub holds-append_middle : (u : Bytes) (l m : List Bytes) → holds u (l ++ u ∷ m) ≡ true
unfolding holds
holds-append_middle u [] m = ground (arith, bytes_eq_iff u u)
holds-append_middle u (v ∷ l) m = ground (arith, holds-append_middle u l m)

-- What is in the list is in the map.
pub entry_of :
    {wc : WebCache}
    → IsValid wc
    → (u : Bytes) → holds u wc.lru ≡ true
    → (e : Entry) × (lookup u wc.entries ≡ some e)
entry_of {wc} v u h = elim (Option-cases (lookup u wc.entries)) [
  | inl missing ↦ absurd (ground (arith, v.agree u, ap (is_some {A = Entry}) missing))
  | inr found ↦ found
]

empty_of {ℓ} : {A : Type ℓ} (l : List A) → ltb 0 (length l) ≡ false → l ≡ []
empty_of [] h = refl
empty_of (x ∷ l) h = absurd (ground arith)

List-cases {ℓ} : {A : Type ℓ} (l : List A) → (l ≡ []) ⊎ ((x : A) × (r : List A) × (l ≡ x ∷ r))
List-cases [] = inl refl
List-cases (x ∷ r) = inr (x, r, refl)

make_room-stop :
    (fuel size : ℕ) (wc : WebCache)
    → (ltb wc.capacity_bytes (wc.current_bytes + size) && ltb 0 (length wc.lru)) ≡ false
    → make_room (suc fuel) size wc ≡ some wc
unfolding make_room
make_room-stop fuel size wc stop = rw stop

make_room-more :
    (fuel size : ℕ) (wc : WebCache) (u : Bytes) (e : Entry)
    → (ltb wc.capacity_bytes (wc.current_bytes + size) && ltb 0 (length wc.lru)) ≡ true
    → back wc.lru ≡ some u
    → lookup u wc.entries ≡ some e
    → make_room (suc fuel) size wc
      ≡ make_room fuel size (record wc {
        lru = delete u wc.lru;
        entries = remove u wc.entries;
        current_bytes = wc.current_bytes - e.size;
        evictions = wc.evictions + 1;
      })
unfolding make_room evict_entry
make_room-more fuel size wc u e more at_back found =
    rw (more, at_back, make_room, found, evict_entry)

-- The loop stops: the list is empty, or the new content fits.
Room-here :
    (size : ℕ) (wc : WebCache)
    → IsValid wc
    → (ltb wc.capacity_bytes (wc.current_bytes + size) && ltb 0 (length wc.lru)) ≡ false
    → Room size wc (some wc)
Room-here size wc v stop = record {
  out = wc;
  gone = [];
  returns = refl;
  valid = v;
  capacity = refl;
  split = sym (append-nil wc.lru);
  kept = λ u. ground (arith, v.agree u);
  fits = elim (Bool-cases (ltb 0 (length wc.lru))) [
    | inl some_left ↦ inl (ground arith)
    | inr empty ↦ inr (empty_of wc.lru empty)
  ];
  untouched = λ _. refl;
  needed = λ g rest e h. cc;
  counted = omega arith;
}

-- One round: the last URL goes, and the rest of the loop runs on what is left.
module _ (size : ℕ) (wc : WebCache) (v : IsValid wc) (last : Last wc.lru) (e : Entry)
    (found : lookup last.url wc.entries ≡ some e)
    (over : wc.capacity_bytes < wc.current_bytes + size) where
  abbrev next : WebCache
  next = record wc {
    lru = delete last.url wc.lru;
    entries = remove last.url wc.entries;
    current_bytes = wc.current_bytes - e.size;
    evictions = wc.evictions + 1;
  }

  other_url : (u : Bytes) → holds u (delete last.url wc.lru) ≡ true → bytes_eq last.url u ≡ false
  other_url u h = ground (arith, holds-delete last.url u wc.lru)

  still_held :
      {result : Option WebCache}
      → (r : Room size next result) → (u : Bytes) → holds u r.out.lru ≡ true
      → bytes_eq last.url u ≡ false
  still_held r u h = other_url u (rw r.split (holds-append_left u r.out.lru r.gone h))

  -- The first URL that goes is this one if no later round takes any.
  needed_after :
      {result : Option WebCache}
      → (r : Room size next result) → (g : Bytes) (rest : List Bytes) (f : Entry)
      → r.gone ++ last.url ∷ [] ≡ g ∷ rest
      → lookup g wc.entries ≡ some f
      → wc.capacity_bytes < r.out.current_bytes + f.size + size
  needed_after r g rest f h at_g = elim (List-cases r.gone) [
    | inl none_later ↦
        let same : last.url ∷ [] ≡ g ∷ rest = rw none_later at h in
        let url_eq : last.url ≡ g = cc in
        let entry_eq : e ≡ f =
          ground (arith, found, at_g, ap (λ (u : Bytes). lookup u wc.entries) url_eq) in
        omega (
          arith,
          ap (λ (c : WebCache). c.current_bytes) (r.untouched none_later),
          ap (λ (x : Entry). x.size) entry_eq,
          total_size-remove last.url e wc.entries v.distinct found,
          v.sized,
        )
    | inr (x, xs, later) ↦
        let same : x ∷ (xs ++ last.url ∷ []) ≡ g ∷ rest = rw later at h in
        let head_eq : x ≡ g = cc in
        let gone_eq : r.gone ≡ g ∷ xs = later ∙ ap (λ (u : Bytes). u ∷ xs) head_eq in
        let held : holds g (delete last.url wc.lru) ≡ true =
          rw (r.split, gone_eq) (holds-append_middle g r.out.lru xs) in
        r.needed g xs f gone_eq
          (ground (arith, lookup-remove last.url g wc.entries, other_url g held))
  ]

  Room-after : (result : Option WebCache) → Room size next result → Room size wc result
  Room-after result r = record {
    out = r.out;
    gone = r.gone ++ last.url ∷ [];
    returns = r.returns;
    valid = r.valid;
    capacity = r.capacity;
    split =
        last.split
        ∙ ap (λ (l : List Bytes). l ++ last.url ∷ []) (sym last.deleted ∙ r.split)
        ∙ append_assoc r.out.lru r.gone (last.url ∷ []);
    kept = λ u. ground (arith, r.kept u, lookup-remove last.url u wc.entries, still_held r u);
    fits = r.fits;
    untouched = λ h. absurd (omega (arith, ap length h, length-append r.gone (last.url ∷ [])));
    needed = needed_after r;
    counted = omega (arith, r.counted, length-append r.gone (last.url ∷ []));
  }

evicted :
    (url : Bytes) {e : Entry} (wc : WebCache)
    → lookup url wc.entries ≡ some e
    → IsValid (evict_entry url wc)
    → IsValid (record wc {
      lru = delete url wc.lru;
      entries = remove url wc.entries;
      current_bytes = wc.current_bytes - e.size;
      evictions = wc.evictions + 1;
    })
unfolding evict_entry
evicted url wc found v = rw (found, evict_entry) at v

some-Last : (l : List Bytes) → NoRepeat l → ltb 0 (length l) ≡ true → Last l
some-Last [] n h = absurd (ground arith)
some-Last (u ∷ l) n h = Last-of u l n

-- With more fuel than there are URLs, the loop ends in a valid cache in which the content fits or
-- nothing is left.
pub make_room-Room :
    (fuel size : ℕ) (wc : WebCache)
    → IsValid wc
    → length wc.lru < fuel
    → Room size wc (make_room fuel size wc)
make_room-Room zero size wc v h = absurd (omega arith)
make_room-Room (suc fuel) size wc v h =
    elim (Bool-cases (ltb wc.capacity_bytes (wc.current_bytes + size) && ltb 0 (length wc.lru))) [
      | inr stop ↦
          subst (Room size wc) (sym (make_room-stop fuel size wc stop)) (Room-here size wc v stop)
      | inl more ↦
          let last = some-Last wc.lru v.no_repeat (ground arith) in
          let (e, found) = entry_of v last.url last.held in
          let after = evict_entry-IsValid last.url v in
          let shorter : length (delete last.url wc.lru) < fuel =
            rw last.deleted
              (omega (arith, ap length last.split, length-append last.before (last.url ∷ []))) in
          subst (Room size wc)
            (sym (make_room-more fuel size wc last.url e more last.is_back found))
            (Room-after size wc v last e found (ground arith) _ (
              make_room-Room fuel size (next size wc v last e found (ground arith))
                (evicted last.url wc found after) shorter))
    ]
