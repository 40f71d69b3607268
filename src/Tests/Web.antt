-- ===== src/Tests/Web.antt =====
-- A web cache of 1 MiB, with one entry put into it (internal/node/cache).
use koorde_dht_web_cache.Prelude.{
  ◌+◌, ◌*◌, ◌≡◌, refl, arith, none, some, [], ◌∷◌, Bytes, bytes_eq, if◌then◌else◌,
}
use koorde_dht_web_cache.Prelude.Maps.{lookup, insert}
use koorde_dht_web_cache.Cache.{
  Entry, WebCache, new_web_cache, delete, get, stored, put, new_entry, updated_entry, store_new,
  make_room, clean_expired,
}
use koorde_dht_web_cache.Cache.Invariant.{IsValid}
use koorde_dht_web_cache.Cache.Laws.{Stored, put_new, put_old}
use koorde_dht_web_cache.Cache.RoundTrip.{get-put_fresh}
use koorde_dht_web_cache.Cache.Expiry.{unexpired, clean_expired_lem}
use koorde_dht_web_cache.Cache.Steps.{Reachable, put-IsValid, Reachable-IsValid}

abbrev pub empty_cache : WebCache
empty_cache = record {
  capacity_bytes = 1024 * 1024;
  entries = [];
  lru = [];
  current_bytes = 0;
  hits = 0;
  misses = 0;
  evictions = 0;
  stores = 0;
}

empty_cache-Reachable : Reachable empty_cache
unfolding new_web_cache
empty_cache-Reachable = Reachable.made 1

abbrev page : Bytes
page = 47 ∷ []

abbrev body : Bytes
body = 104 ∷ 105 ∷ []

abbrev kind : Bytes
kind = 116 ∷ []

abbrev page_entry : Entry
page_entry = record {
  url = page;
  content = body;
  content_type = kind;
  status_code = 200;
  expiration = 160;
  size = 2;
  created_at = 101;
  access_count = 1;
}

abbrev one_page : WebCache
one_page = record {
  capacity_bytes = 1024 * 1024;
  entries = (page, page_entry) ∷ [];
  lru = page ∷ [];
  current_bytes = 2;
  hits = 0;
  misses = 0;
  evictions = 0;
  stores = 1;
}

put-page : put 100 101 page body kind 60 200 empty_cache ≡ stored one_page
unfolding put lookup store_new make_room new_entry insert
put-page = refl

pub empty_cache-IsValid : IsValid empty_cache
empty_cache-IsValid = Reachable-IsValid empty_cache-Reachable

one_page-IsValid : IsValid one_page
one_page-IsValid = put-IsValid 100 101 page body kind 60 200 empty_cache-IsValid put-page

page_found : lookup page one_page.entries ≡ some page_entry
unfolding lookup bytes_eq
page_found = refl

Reachable-IsValid_example : IsValid one_page
Reachable-IsValid_example =
    Reachable-IsValid
      (Reachable.put_in 100 101 page body kind 60 200 empty_cache-Reachable put-page)

no_page : lookup page empty_cache.entries ≡ none
unfolding lookup
no_page = refl

put_new_example :
    (out : WebCache) × (put 100 101 page body kind 60 200 empty_cache ≡ stored out)
    × Stored page (new_entry 100 101 page body kind 60 200) empty_cache out
put_new_example = put_new 100 101 page body kind 60 200 empty_cache-IsValid no_page (omega arith)

put_old_example :
    (out : WebCache) × (put 120 121 page [] kind 60 404 one_page ≡ stored out)
    × IsValid out
    × (out.current_bytes + 2 ≡ 2 + 0)
    × (out.lru ≡ page ∷ delete page (page ∷ []))
    × ((u : Bytes)
        → lookup u out.entries ≡ (
            if bytes_eq page u
            then some (updated_entry 120 [] kind 60 404 page_entry)
            else lookup u one_page.entries))
put_old_example = put_old 120 121 page [] kind 60 404 page_entry one_page-IsValid page_found

-- The same page in a cache of 4 bytes.
abbrev tiny : WebCache
tiny = record one_page { capacity_bytes = 4 }

tiny-IsValid : IsValid tiny
tiny-IsValid =
    let v = one_page-IsValid in
    record {
      distinct = v.distinct;
      no_repeat = v.no_repeat;
      agree = v.agree;
      sized = v.sized;
      labelled = v.labelled;
    }

abbrev large : Bytes
large = 1 ∷ 2 ∷ 3 ∷ 4 ∷ 5 ∷ []

get-put_fresh_example :
    (e : Entry) × ((get 150 page one_page).1 ≡ some e)
    × (e.content ≡ body)
    × (e.content_type ≡ kind)
    × (e.status_code ≡ 200)
get-put_fresh_example =
    get-put_fresh 100 101 150 page body kind 60 200 empty_cache-IsValid put-page (omega arith)

clean_expired_lem_example :
    ((u : Bytes)
      → lookup u (clean_expired 161 one_page).0.entries ≡ unexpired 161 (lookup u one_page.entries))
    × ((clean_expired 161 one_page).1 ≡ 1)
clean_expired_lem_example = clean_expired_lem 161 one_page-IsValid
