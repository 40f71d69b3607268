-- ===== src/Cache/RoundTrip.antt =====
-- Put followed by Get: what was put is found until its time is over.
use koorde_dht_web_cache.Prelude.{
  ℕ, ◌+◌, ◌≤◌, ◌<◌, ◌≡◌, refl, sym, ap, ◌∙◌, arith, false, Option, none, some, ltb, lt→ltb,
  if◌then◌else◌, length, Bytes, bytes_eq, bytes_eq_iff, inl, inr, Option-cases,
}
use koorde_dht_web_cache.Prelude.Maps.{lookup, lookup-remove}
use native.Mathlib.Decide.{dec_lt}
use koorde_dht_web_cache.Cache.{
  Entry, WebCache, evict_entry, get, stored, too_large, new_entry, updated_entry, put,
}
use koorde_dht_web_cache.Cache.Invariant.{IsValid}
use koorde_dht_web_cache.Cache.Laws.{put_new, put_old}

-- A stored entry with the content, type and status of a Put, that expires at the given time.
record Holds (url content content_type : Bytes) (status_code expiration : ℕ) (out : WebCache)
    : Type 0 where
  entry : Entry
  found : lookup url out.entries ≡ some entry
  content_eq : entry.content ≡ content
  content_type_eq : entry.content_type ≡ content_type
  status_eq : entry.status_code ≡ status_code
  expiration_eq : entry.expiration ≡ expiration

pub too_large_put :
    (now created : ℕ) (url content content_type : Bytes) (ttl status_code : ℕ) {wc : WebCache}
    → lookup url wc.entries ≡ none
    → wc.capacity_bytes < length content
    → put now created url content content_type ttl status_code wc ≡ too_large wc
unfolding put
too_large_put now created url content content_type ttl status_code {wc} missing big =
    rw (missing, put, lt→ltb wc.capacity_bytes (length content) big)

put-Holds :
    (now created : ℕ) (url content content_type : Bytes) (ttl status_code : ℕ) {wc out : WebCache}
    → IsValid wc
    → put now created url content content_type ttl status_code wc ≡ stored out
    → Holds url content content_type status_code (now + ttl) out
put-Holds now created url content content_type ttl status_code {wc} {out} v h =
    elim (Option-cases (lookup url wc.entries)) [
      | inr (old, found) ↦
          let (out', returns, _, _, _, entries) =
            put_old now created url content content_type ttl status_code old v found in
          let same : out' ≡ out = cc (sym returns ∙ h) in
          unfold updated_entry in
          record {
            entry = updated_entry now content content_type ttl status_code old;
            found =
                ap (λ (c : WebCache). lookup url c.entries) (sym same) ∙ entries url ∙ at_self _ _;
            content_eq = refl;
            content_type_eq = refl;
            status_eq = refl;
            expiration_eq = refl;
          }
      | inl missing ↦ elim (dec_lt wc.capacity_bytes (length content)) [
        | yes big ↦ absurd (
            cc (
              sym (too_large_put now created url content content_type ttl status_code missing big)
              ∙ h))
        | no small ↦
            let (out', returns, r) =
              put_new now created url content content_type ttl status_code v missing
                (omega arith) in
            let same : out' ≡ out = cc (sym returns ∙ h) in
            unfold new_entry in
            record {
              entry = new_entry now created url content content_type ttl status_code;
              found =
                  ap (λ (c : WebCache). lookup url c.entries) (sym same)
                  ∙ r.entries url
                  ∙ at_self _ _;
              content_eq = refl;
              content_type_eq = refl;
              status_eq = refl;
              expiration_eq = refl;
            }
      ]
    ]
  where
    at_self : (x y : Option Entry) → (if bytes_eq url url then x else y) ≡ x
    at_self x y = rw ((bytes_eq_iff url url).1 refl)

get_fresh :
    (now : ℕ) (url : Bytes) (wc : WebCache) (e : Entry)
    → lookup url wc.entries ≡ some e
    → now ≤ e.expiration
    → (get now url wc).1 ≡ some (record e { access_count = e.access_count + 1 })
unfolding get
get_fresh now url wc e found fresh =
    let test : ltb e.expiration now ≡ false = ground arith in rw (found, get, test)

get_expired :
    (now : ℕ) (url : Bytes) (wc : WebCache) (e : Entry)
    → lookup url wc.entries ≡ some e
    → e.expiration < now
    → ((get now url wc).1 ≡ none) × (lookup url (get now url wc).0.entries ≡ none)
unfolding get evict_entry
get_expired now url wc e found late =
    rw (found, get, lt→ltb e.expiration now late)
      (
        refl,
        rw (found, evict_entry)
            (ground (arith, lookup-remove url url wc.entries, bytes_eq_iff url url)),
      )

-- A Get of the URL after a Put that succeeded, not later than the end of the time to live, is a hit
-- with the content, the type and the status that were put.
pub get-put_fresh :
    (now created later : ℕ) (url content content_type : Bytes) (ttl status_code : ℕ)
    {wc out : WebCache}
    → IsValid wc
    → put now created url content content_type ttl status_code wc ≡ stored out
    → later ≤ now + ttl
    → (e : Entry) × ((get later url out).1 ≡ some e)
      × (e.content ≡ content)
      × (e.content_type ≡ content_type)
      × (e.status_code ≡ status_code)
get-put_fresh now created later url content content_type ttl status_code {wc} {out} v h fresh =
    let r = put-Holds now created url content content_type ttl status_code v h in
    (
      record r.entry { access_count = r.entry.access_count + 1 },
      get_fresh later url out r.entry r.found (rw r.expiration_eq fresh),
      r.content_eq,
      r.content_type_eq,
      r.status_eq,
    )

-- A Get of the URL after a Put that succeeded, later than the end of the time to live, is a miss, and
-- takes the entry out.
get-put_expired :
    (now created later : ℕ) (url content content_type : Bytes) (ttl status_code : ℕ)
    {wc out : WebCache}
    → IsValid wc
    → put now created url content content_type ttl status_code wc ≡ stored out
    → now + ttl < later
    → ((get later url out).1 ≡ none) × (lookup url (get later url out).0.entries ≡ none)
get-put_expired now created later url content content_type ttl status_code {wc} {out} v h late =
    let r = put-Holds now created url content content_type ttl status_code v h in
    get_expired later url out r.entry r.found (rw r.expiration_eq late)
