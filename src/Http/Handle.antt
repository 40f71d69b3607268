-- ===== src/Http/Handle.antt =====
-- internal/node/server/http.go: handleCacheRequest, step by step.
use koorde_dht_web_cache.Prelude.{
  Bool, true, false, Option, none, some, [], ◌∷◌, not, ◌&&◌, ltb, leb, ◌==◌, if◌then◌else◌, length,
  Bytes, bytes_eq, codes, Outcome, ok, err, panic, returned, refused,
}
use koorde_dht_web_cache.Domain.Hex.{Node, to_hex_string}
use koorde_dht_web_cache.Domain.Ring.{equal, between}
use koorde_dht_web_cache.Domain.Text.{new_id_from_string}
use koorde_dht_web_cache.Routing.{RoutingEntries}
use koorde_dht_web_cache.Actions.{Run, finishes, panics, ◌>>=◌}
use koorde_dht_web_cache.Cache as Cache
use koorde_dht_web_cache.Cache.{Entry}
use koorde_dht_web_cache.Hotspot.{Arithmetic, record_access}
use koorde_dht_web_cache.Http.{
  DhtNode, CacheRequest, Web, HttpServer, missing_url, not_initialized, routing_failed,
  origin_failed, Page, page, failed, Handled, origin_cache_ttl,
}
use koorde_dht_web_cache.Http.Proxy.{
  is_written, pick_random_node, cached, proxy_to_node, Fetched, fetch_from_origin,
}

-- The reply for an entry of the cache, whose status may be missing.
unfoldable pub hit_page : Web → Node → Entry → Page
hit_page web self entry = record {
  status_code = if ltb entry.status_code 100 then 200 else entry.status_code;
  headers =
      (codes "Content-Type", entry.content_type)
      ∷ (codes "X-Cache", codes "HIT-LOCAL")
      ∷ (codes "X-Node-ID", to_hex_string true self.id)
      ∷ (codes "X-Latency-Ms", web.latency)
      ∷ [];
  content = entry.content;
}

unfoldable pub origin_page : Web → Node → Fetched → Page
origin_page web self fetched = record {
  status_code = fetched.status_code;
  headers =
      (codes "Content-Type", fetched.content_type)
      ∷ (codes "X-Cache", codes "MISS-ORIGIN")
      ∷ (codes "X-Node-ID", to_hex_string true self.id)
      ∷ (codes "X-Latency-Ms", web.latency)
      ∷ [];
  content = fetched.content;
}

-- Whether a target is a node other than the one with this identifier.
abbrev pub is_other : Bytes → Option Node → Bool
is_other self none = false
is_other self (some target) = not (equal target.id self)

-- The first entry that is such a node, else the target so far.
unfoldable pub first_other : Bytes → RoutingEntries → Option Node → Option Node
first_other self [] target = target
first_other self (entry ∷ entries) target =
    if is_other self entry then entry else first_other self entries target

module _ {N : Type 0} (dht : DhtNode N) where
  -- STEP 2: the node that is responsible, none when it is not known.
  unfoldable pub responsible_node : Web → Bool → Node → Bytes → N → Run (N × Option Node)
  responsible_node web told self hash n =
      if told then finishes (n, some self) else dht.look_up web.lookup_ended hash n

  -- STEP 3: whether the key is in (predecessor, self].
  unfoldable pub owns_key : Node → Bytes → N → Option Node → Bool
  owns_key self hash n responsible = elim (dht.predecessor n) [
    | some pred ↦ between hash pred.id self.id
    | none ↦ elim responsible [
      | some r ↦ if equal r.id self.id then true else leb (length (dht.successor_list n)) 1
      | none ↦ leb (length (dht.successor_list n)) 1
    ]
  ]

  -- The second lookup of a Koorde node, with a longer timeout.
  unfoldable pub retry_lookup : Web → Node → Bytes → N → Option Node → Run (N × Option Node)
  retry_lookup web self hash n target = do
    found ← dht.look_up web.retry_ended hash n
    finishes (found.0, if is_other self.id found.1 then found.1 else target)

  unfoldable pub koorde_fallback : Web → Node → Bytes → N → Option Node → Run (N × Option Node)
  koorde_fallback web self hash n target =
      let neighbour = first_other self.id (dht.de_bruijn_list n) target in
      if is_other self.id neighbour
      then finishes (n, neighbour)
      else retry_lookup web self hash n neighbour

  unfoldable pub chord_fallback : Node → RoutingEntries → N → Option Node → Option Node
  chord_fallback self fingers n target =
      let finger = first_other self.id fingers target in
      if is_other self.id finger then finger else first_other self.id (dht.successor_list n) finger

  -- STEP 4: where a request goes that this node does not own.
  unfoldable pub forward_target : Web → Node → Bytes → N → Option Node → Run (N × Option Node)
  forward_target web self hash n target =
      if is_other self.id target
      then finishes (n, target)
      else (if ltb 0 (length (dht.de_bruijn_list n))
          then koorde_fallback web self hash n target
          else elim dht.finger_list [
            | some fingers ↦ finishes (n, chord_fallback self (fingers n) n target)
            | none ↦ finishes (n, first_other self.id (dht.successor_list n) target)
          ])

  module _ {F : Type 0} (float : Arithmetic F) (web : Web) (self : Node) (url : Bytes) where
    -- The target is a node other than this one, or there is none.
    unfoldable pub send_on : Option Node → HttpServer N F → Handled N F
    send_on none s = finishes (s, failed routing_failed)
    send_on (some target) s =
        if equal target.id self.id
        then finishes (s, failed routing_failed)
        else proxy_to_node web self url target.addr (codes "MISS-DHT") s

    unfoldable pub forward_request : Bytes → Option Node → HttpServer N F → Handled N F
    forward_request hash responsible s = do
      found ← forward_target web self hash s.node responsible
      send_on found.1 (record s { node = found.0 })

    -- STEPS 7 and 8: the content comes from the origin; an error of Put is only logged.
    unfoldable pub serve_from_origin : HttpServer N F → Handled N F
    serve_from_origin s = elim (fetch_from_origin web url) [
      | refused e ↦ finishes (s, failed (origin_failed e))
      | returned fetched ↦ do
        wc ← cached (
            Cache.put web.put_time web.created_time url fetched.content fetched.content_type
              origin_cache_ttl fetched.status_code s.cache)
        finishes (record s { cache = wc }, page (origin_page web self fetched))
    ]

    -- A hot URL goes to some other node, if one is known.
    unfoldable pub serve_hot : HttpServer N F → Handled N F
    serve_hot s = do
      addr ← pick_random_node dht web self s.node
      if not (length addr == 0) && not (bytes_eq addr self.addr)
          then proxy_to_node web self url addr (codes "MISS-HOT") s
          else serve_from_origin s

    -- STEP 6.
    unfoldable pub serve_missed : HttpServer N F → Handled N F
    serve_missed s =
        let accessed = record_access float web.access_time url s.hotspots in
        let counted = record s { hotspots = accessed.0 } in
        if accessed.1 then serve_hot counted else serve_from_origin counted

    -- STEP 5: this node is responsible.
    unfoldable pub serve_owned : HttpServer N F → Handled N F
    serve_owned s =
        let got = Cache.get web.get_time url s.cache in
        let looked = record s { cache = got.0 } in
        elim got.1 [
          | some entry ↦
              if is_written (hit_page web self entry).status_code
              then finishes (looked, page (hit_page web self entry))
              else panics
          | none ↦ serve_missed looked
        ]

    unfoldable pub serve_key : Bool → Bytes → HttpServer N F → Handled N F
    serve_key told hash s = do
      found ← responsible_node web told self hash s.node
      let asked = record s { node = found.0 }
      if owns_key self hash found.0 found.1
          then serve_owned asked
          else forward_request hash found.1 asked

  module _ {F : Type 0} (float : Arithmetic F) (web : Web) where
    unfoldable pub serve_hash : CacheRequest → Outcome Bytes → HttpServer N F → Handled N F
    serve_hash req (ok hash) s = elim (dht.self s.node) [
      | none ↦ finishes (s, failed not_initialized)
      | some self ↦
          serve_key float web self req.url (bytes_eq req.is_responsible (codes "true")) hash s
    ]
    serve_hash req (err e) s = panics
    serve_hash req panic s = panics

    unfoldable pub handle_cache_request : CacheRequest → HttpServer N F → Handled N F
    handle_cache_request req s =
        if length req.url == 0
        then finishes (s, failed missing_url)
        else serve_hash req (new_id_from_string web.sha1 (dht.space s.node) req.url) s
