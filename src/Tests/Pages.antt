-- ===== src/Tests/Pages.antt =====
-- Requests of clients and for pages (internal/node/server, internal/node/cache/hotspot.go).
use koorde_dht_web_cache.Prelude.{
  ℕ, ◌+◌, ◌*◌, ◌^◌, ◌≡◌, refl, arith, true, false, none, some, [], ◌∷◌, replicate, leb, Bytes,
  bytes_compare, bytes_eq, if◌then◌else◌, pos, negsuc, codes, ok, returned,
}
use koorde_dht_web_cache.Prelude.Maps.{lookup}
use koorde_dht_web_cache.Domain.Space.{mask_unused, extra_bits}
use koorde_dht_web_cache.Domain.Ring.{between, equal, cmp}
use koorde_dht_web_cache.Domain.Hex.{to_hex_string}
use koorde_dht_web_cache.Domain.Text.{new_id_from_string, from_hex_string}
use koorde_dht_web_cache.Domain.Text.Laws.{from_hex_string-to_hex_string}
use koorde_dht_web_cache.Routing.{de_bruijn_list, known_nodes}
use koorde_dht_web_cache.Storage as MemoryStorage
use koorde_dht_web_cache.Actions.{KoordeNode, finishes, ◌>>=◌}
use koorde_dht_web_cache.Cache as Cache
use koorde_dht_web_cache.Cache.{Entry}
use koorde_dht_web_cache.Service.Alone.{with_stored}
use koorde_dht_web_cache.Server.Clients.{put, get}
use koorde_dht_web_cache.Server.Clients.Laws.{IsHash, get-put}
use koorde_dht_web_cache.Hotspot.{Arithmetic}
use koorde_dht_web_cache.Http.{HttpResponse, CacheRequest, Web, HttpServer}
use koorde_dht_web_cache.Http.Proxy.{Fetched, proxy_to_node}
use koorde_dht_web_cache.Http.Handle.{responsible_node, owns_key, handle_cache_request}
use koorde_dht_web_cache.Http.Nodes.{koorde_dht}
use koorde_dht_web_cache.Http.Owned.{Routed}
use koorde_dht_web_cache.Http.Loops.{handle_cache_request-proxy_to_node}
use koorde_dht_web_cache.Tests.Stubs.{
  table-IsRouting, pool_of-IsOpen, ring, ring-IsSpace, id_519, id_519-IsId, here, there, net, deaf,
  node_with, alone, alone-IsAlone,
}
use koorde_dht_web_cache.Cache.Invariant.{IsValid}
use koorde_dht_web_cache.Actions.Laws.{Finishes, Kept}
use koorde_dht_web_cache.Http.Answers.{HasStatuses}
use koorde_dht_web_cache.Http.Answers.Koorde.{handle_cache_request-koorde_dht}
use koorde_dht_web_cache.Tests.Web.{empty_cache, empty_cache-IsValid}

from_hex_string-to_hex_string_example :
    from_hex_string ring (to_hex_string true id_519) ≡ returned id_519
from_hex_string-to_hex_string_example =
    from_hex_string-to_hex_string ring-IsSpace true id_519 id_519-IsId

-- A hash that gives every text the identifier 400.
abbrev pub digest : Bytes → Bytes
digest text = 1 ∷ 144 ∷ replicate 18 0

abbrev id_400 : Bytes
id_400 = 1 ∷ 144 ∷ []

pub digest-IsHash : IsHash digest
digest-IsHash = record { bytes = λ text. ground arith; size = λ text. refl }

get-put_example :
    (id : Bytes) × (id' : Bytes) × (new_id_from_string digest ring (codes "a") ≡ ok id)
    × (new_id_from_string digest ring (codes "b") ≡ ok id')
    × ((put digest net false (some (some (record { key = codes "a"; value = codes "v" }))) alone
          >>= λ stored. get digest net false (some (codes "b")) stored.0)
        ≡ finishes (
          with_stored (record { key = id; raw_key = codes "a"; value = codes "v" }) alone,
          returned (
              if bytes_eq id id' then codes "v" else (MemoryStorage.get id' alone.storage).0.value),
        ))
get-put_example =
    get-put digest-IsHash net alone alone-IsAlone ring-IsSpace (omega arith) (codes "a") (codes "v")
      (codes "b") refl refl refl

-- Whole numbers in place of floating point ones.
abbrev whole : Arithmetic ℕ
whole = record {
  zero_value = 0;
  one = 1;
  plus = λ x y. x + y;
  times = λ x y. x * y;
  pow = λ x n. x ^ n;
  from_int = λ i. elim i [ pos n ↦ n | negsuc n ↦ 0 ];
  at_least = λ x y. leb y x;
}

-- A world in which every origin and node answers with one page, and every host is "h".
abbrev answer : HttpResponse
answer = record {
  status_code = 200;
  content_type = codes "t";
  x_cache = [];
  body = some (codes "page");
}

abbrev web : Web
web = record {
  sha1 = digest;
  split_host_port = λ addr. some (codes "h", codes "1");
  scan_int = λ port. some (pos 1);
  atoi = λ port. some (pos 1);
  format_int = λ i. codes "1";
  new_request_fails = λ proxy_url. false;
  do_request = λ request. some answer;
  get_url = λ url. some answer;
  intn = λ n. 0;
  lookup_ended = false;
  retry_ended = false;
  get_time = 100;
  put_time = 110;
  created_time = 111;
  access_time = 100;
  start_time = [];
  latency = codes "1";
}

-- A minute later, when the origin does not answer.
abbrev later : Web
later = record web { get_url = λ url. none; get_time = 60000000110 }

abbrev request : CacheRequest
request = record { url = codes "u"; is_responsible = codes "true"; forwarded_from = [] }

abbrev server_at : KoordeNode → HttpServer KoordeNode ℕ
server_at n = record {
  node = n;
  cache = empty_cache;
  hotspots = record { threshold = 2; decay_rate = 1; entries = [] };
  port_offset = pos 4080;
}

hashed_400 : (text : Bytes) → new_id_from_string digest ring text ≡ ok id_400
unfolding new_id_from_string mask_unused extra_bits
hashed_400 text = refl

is_told : bytes_eq request.is_responsible (codes "true") ≡ true
unfolding bytes_eq
is_told = refl

told :
    (w : Web) (n : KoordeNode)
    → responsible_node koorde_dht w (bytes_eq request.is_responsible (codes "true")) here id_400 n
      ≡ finishes (n, some here)
unfolding responsible_node
told w n = rw is_told refl

alone_owns : owns_key koorde_dht here id_400 alone (some here) ≡ true
unfolding owns_key between cmp bytes_compare
alone_owns = refl

outside : between id_400 there.id here.id ≡ false
unfolding between cmp bytes_compare
outside = refl

there_owns : owns_key koorde_dht here id_400 (node_with deaf) (some here) ≡ false
unfolding owns_key
there_owns = outside

abbrev alone-Routed : Routed koorde_dht web request alone true
alone-Routed = record {
  named = refl;
  hash = id_400;
  hashed = hashed_400 (codes "u");
  self = here;
  known = refl;
  after = alone;
  responsible = some here;
  asked = told web alone;
  owns = alone_owns;
}

abbrev later-Routed : Routed koorde_dht later request alone true
later-Routed = record {
  named = refl;
  hash = id_400;
  hashed = hashed_400 (codes "u");
  self = here;
  known = refl;
  after = alone;
  responsible = some here;
  asked = told later alone;
  owns = alone_owns;
}

abbrev there-Routed : Routed koorde_dht web request (node_with deaf) false
there-Routed = record {
  named = refl;
  hash = id_400;
  hashed = hashed_400 (codes "u");
  self = here;
  known = refl;
  after = node_with deaf;
  responsible = some here;
  asked = told web (node_with deaf);
  owns = there_owns;
}

abbrev fetched : Fetched
fetched = record { content = codes "page"; content_type = codes "t"; status_code = 200 }

neighbours : koorde_dht.de_bruijn_list (node_with deaf) ≡ some there ∷ some here ∷ []
unfolding de_bruijn_list known_nodes
neighbours = refl

other_neighbour : equal there.id here.id ≡ false
unfolding equal bytes_eq
other_neighbour = refl

handle_cache_request-proxy_to_node_example :
    handle_cache_request koorde_dht whole web request (server_at (node_with deaf))
    ≡ proxy_to_node web here (codes "u") there.addr (codes "MISS-DHT") (server_at (node_with deaf))
handle_cache_request-proxy_to_node_example =
    handle_cache_request-proxy_to_node koorde_dht whole web request (server_at (node_with deaf)) []
      (some here ∷ []) there refl (hashed_400 (codes "u")) refl refl refl outside neighbours tt
      other_neighbour

no_entries : HasStatuses empty_cache
unfolding lookup
no_entries url entry found = absurd (cc found)

handle_cache_request-koorde_dht_example :
    Finishes
      (handle_cache_request koorde_dht whole web request (server_at (node_with deaf)))
      (λ r. Kept (node_with deaf) r.0.node × IsValid r.0.cache)
handle_cache_request-koorde_dht_example =
    handle_cache_request-koorde_dht whole web digest-IsHash (λ k h. h)
      (λ asked resp answers. ground arith) request (server_at (node_with deaf)) table-IsRouting
      (pool_of-IsOpen deaf) (omega arith) empty_cache-IsValid no_entries
