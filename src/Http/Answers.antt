-- ===== src/Http/Answers.antt =====
-- What a request for a page ends with.
pub mod Koorde
use koorde_dht_web_cache.Prelude.{
  ◌+◌, ℕ, zero, suc, List, [], ◌∷◌, ◌≡◌, ◌≤◌, ◌<◌, refl, sym, ap, ◌∙◌, arith, Bool, true, false,
  Option, none, some, ◌==◌, ltb, if◌then◌else◌, length, get_elem?, Bytes, bytes_eq, codes, ok,
  Bool-cases, Option-cases, inl, inr,
}
use koorde_dht_web_cache.Prelude.Maps.{lookup}
use native.Mathlib.Decide.{dec_lt}
use koorde_dht_web_cache.Domain.Hex.{Node}
use koorde_dht_web_cache.Domain.Valid.{IsId}
use koorde_dht_web_cache.Domain.Ring.{equal}
use koorde_dht_web_cache.Domain.Text.{new_id_from_string}
use koorde_dht_web_cache.Actions.{Run, finishes, ◌>>=◌}
use koorde_dht_web_cache.Actions.Laws.{
  Finishes, then-Finishes, if-Finishes, choose-Finishes, option-Finishes, result-Finishes,
}
use koorde_dht_web_cache.Cache as Cache
use koorde_dht_web_cache.Cache.{WebCache, Entry}
use koorde_dht_web_cache.Cache.Invariant.{IsValid, get-IsValid}
use koorde_dht_web_cache.Cache.Laws.{put_new, put_old}
use koorde_dht_web_cache.Cache.RoundTrip.{too_large_put}
use koorde_dht_web_cache.Hotspot.{Arithmetic, record_access}
use koorde_dht_web_cache.Http.{
  DhtNode, HttpResponse, CacheRequest, ProxyRequest, Web, HttpServer, Reply, Handled, page,
  origin_cache_ttl, near_cache_ttl,
}
use koorde_dht_web_cache.Http.Proxy.{
  cached, keep_near, is_written, proxy_request, send_proxy, proxy_to_node, pick_random_node,
  all_addresses, other_addresses, is_success, type_or_default, fetch_from_origin,
}
use koorde_dht_web_cache.Http.Owned.{hit_page-is_written}
use koorde_dht_web_cache.Http.Handle.{
  hit_page, is_other, first_other, responsible_node, owns_key, retry_lookup, koorde_fallback,
  forward_target, send_on, forward_request, serve_from_origin, serve_hot, serve_missed, serve_owned,
  serve_key, serve_hash, handle_cache_request,
}

-- Put into a valid cache ends, and leaves a valid one.
put-Finishes :
    (now created : ℕ) (url content content_type : Bytes) (ttl status_code : ℕ) {wc : WebCache}
    → IsValid wc
    → Finishes (cached (Cache.put now created url content content_type ttl status_code wc)) IsValid
unfolding cached
put-Finishes now created url content content_type ttl status_code {wc} v =
    elim (Option-cases (lookup url wc.entries)) [
      | inr (old, found) ↦
          let (out, returns, valid, _, _, _) =
            put_old now created url content content_type ttl status_code old v found in
          (out, ap cached returns, valid)
      | inl missing ↦ elim (dec_lt wc.capacity_bytes (length content)) [
        | yes big ↦ (
          wc,
          ap cached
              (too_large_put now created url content content_type ttl status_code missing big),
          v,
        )
        | no small ↦
            let (out, returns, r) =
              put_new now created url content content_type ttl status_code v missing
                (omega arith) in
            (out, ap cached returns, r.valid)
      ]
    ]

get_elem?_in :
    (l : List Bytes) (i : ℕ) → i < length l → (addr : Bytes) × (get_elem? l i ≡ some addr)
get_elem?_in [] i h = absurd (omega arith)
get_elem?_in (x ∷ l) zero h = (x, refl)
get_elem?_in (x ∷ l) (suc i) h = get_elem?_in l i (omega arith)

-- As option-Finishes, where the value is known to be the one of the option.
answer-Finishes :
    {A V : Type 0} (Q : A → Type 0) (x : Option V) {y : Run A} {f : V → Run A}
    → Finishes y Q
    → ((v : V) → x ≡ some v → Finishes (f v) Q)
    → Finishes (elim x as (λ z. Run A) [ none ↦ y | some v ↦ f v ]) Q
answer-Finishes Q none hy hf = hy
answer-Finishes Q (some v) hy hf = hf v refl

-- Other nodes answer with a status that WriteHeader accepts.
abbrev pub IsAnswered : Web → Type 0
IsAnswered web =
    (request : ProxyRequest) (resp : HttpResponse)
    → web.do_request request ≡ some resp
    → (100 ≤ resp.status_code) × (resp.status_code ≤ 999)

-- No entry of the cache has a status that WriteHeader refuses for being above 999.
abbrev pub HasStatuses : WebCache → Type 0
HasStatuses wc =
    (url : Bytes) (entry : Entry) → lookup url wc.entries ≡ some entry → entry.status_code ≤ 999

get-HasStatuses :
    (now : ℕ) (url : Bytes) (wc : WebCache)
    → HasStatuses wc
    → (entry : Entry) → (Cache.get now url wc).1 ≡ some entry
    → entry.status_code ≤ 999
unfolding Cache.get
get-HasStatuses now url wc h entry hit = elim (Option-cases (lookup url wc.entries)) [
  | inl missing ↦ absurd (ground (arith, hit, missing))
  | inr (stored, found) ↦ elim (Bool-cases (ltb stored.expiration now)) [
    | inl late ↦ absurd (ground (arith, hit, found, late))
    | inr fresh ↦
        let same : some (record stored { access_count = stored.access_count + 1 }) ≡ some entry =
          rw (Cache.get, found, fresh) at hit in
        let status : stored.status_code ≡ entry.status_code = ground (arith, same) in
        omega (arith, h url stored found, status)
  ]
]

module _ {N F : Type 0} (P : N → Type 0) where
  -- A server whose node has the property, with a valid cache.
  pub record Serving (s : HttpServer N F) : Type 0 where
    pub node : P s.node
    pub cache : IsValid s.cache

  abbrev Served : HttpServer N F × Reply → Type 0
  Served r = Serving r.0

  module _ (web : Web) (self : Node) (url : Bytes) (s : HttpServer N F) (ready : Serving s)
      (written : IsAnswered web) where
    with_cache : (wc : WebCache) → IsValid wc → Serving (record s { cache = wc })
    with_cache wc v = record { node = ready.node; cache = v }

    keep_near-Finishes :
        (resp : HttpResponse) (content : Bytes)
        → Finishes (keep_near web self url resp content s) Serving
    unfolding keep_near
    keep_near-Finishes resp content =
        if-Finishes Serving _ (s, refl, ready)
          (then-Finishes Serving
            (put-Finishes web.put_time web.created_time url content
              (type_or_default resp.content_type) near_cache_ttl resp.status_code ready.cache)
            (λ wc v. (record s { cache = wc }, refl, with_cache wc v)))

    send_proxy-Finishes :
        (addr cache_status proxy_url : Bytes)
        → Finishes (send_proxy web self url addr cache_status proxy_url s) Served
    unfolding send_proxy
    send_proxy-Finishes addr cache_status proxy_url =
        if-Finishes Served _ (_, refl, ready)
          (answer-Finishes Served _ (_, refl, ready)
            (λ resp answers.
              let (low, high) = written (proxy_request web self proxy_url) resp answers in
              let three : is_written resp.status_code ≡ true = ground arith in
              option-Finishes Served resp.body (_, refl, ready)
                (λ content. then-Finishes Served (keep_near-Finishes resp content) (λ kept k.
                  choose-Finishes Served (is_written resp.status_code) (λ e. (_, refl, k))
                    (λ e. absurd (cc (three, e)))))))

    proxy_to_node-Finishes :
        (addr cache_status : Bytes)
        → Finishes (proxy_to_node web self url addr cache_status s) Served
    unfolding proxy_to_node
    proxy_to_node-Finishes addr cache_status =
        option-Finishes Served (web.split_host_port addr) (_, refl, ready)
          (λ parts.
            option-Finishes Served (web.scan_int parts.1) (_, refl, ready)
              (λ port. send_proxy-Finishes addr cache_status _))

    module _ (dht : DhtNode N) (float : Arithmetic F) where
      send_on-Finishes :
          (target : Option Node) → Finishes (send_on dht float web self url target s) Served
      unfolding send_on
      send_on-Finishes none = (_, refl, ready)
      send_on-Finishes (some target) =
          if-Finishes Served (equal target.id self.id) (_, refl, ready)
            (proxy_to_node-Finishes target.addr _)

      serve_from_origin-Finishes : Finishes (serve_from_origin dht float web self url s) Served
      unfolding serve_from_origin
      serve_from_origin-Finishes =
          result-Finishes Served (fetch_from_origin web url)
            (λ fetched.
              then-Finishes Served
                (put-Finishes web.put_time web.created_time url fetched.content fetched.content_type
                  origin_cache_ttl fetched.status_code ready.cache)
                (λ wc v. (_, refl, with_cache wc v)))
            (λ e. (_, refl, ready))

      pick_random_node-Finishes :
          ((k : ℕ) → 0 < k → web.intn k < k)
          → Finishes (pick_random_node dht web self s.node) (λ addr. Unit {0})
      unfolding pick_random_node
      pick_random_node-Finishes below =
          let nodes = other_addresses self.addr (all_addresses dht s.node) in
          choose-Finishes (λ addr. Unit {0}) (length nodes == 0) (λ e. (_, refl, tt))
            (λ several.
              let (addr, at) =
                get_elem?_in nodes (web.intn (length nodes))
                  (below (length nodes) (ground arith)) in
              rw at (addr, refl, tt))

      serve_hot-Finishes :
          ((k : ℕ) → 0 < k → web.intn k < k) → Finishes (serve_hot dht float web self url s) Served
      unfolding serve_hot
      serve_hot-Finishes below = then-Finishes Served (pick_random_node-Finishes below) (λ addr h.
          if-Finishes Served _ (proxy_to_node-Finishes addr _) serve_from_origin-Finishes)

  module _ (dht : DhtNode N) (float : Arithmetic F) (web : Web)
      (below : (k : ℕ) → 0 < k → web.intn k < k) (written : IsAnswered web) where
    module _ (self : Node) (url : Bytes) where
      serve_missed-Finishes :
          (s : HttpServer N F) → Serving s → Finishes (serve_missed dht float web self url s) Served
      unfolding serve_missed
      serve_missed-Finishes s ready =
          let counted = record s {
            hotspots = (record_access float web.access_time url s.hotspots).0;
          } in
          let still : Serving counted = record { node = ready.node; cache = ready.cache } in
          if-Finishes Served (record_access float web.access_time url s.hotspots).1
            (serve_hot-Finishes web self url counted still written dht float below)
            (serve_from_origin-Finishes web self url counted still written dht float)

      serve_owned-Finishes :
          (s : HttpServer N F)
          → HasStatuses s.cache
          → Serving s
          → Finishes (serve_owned dht float web self url s) Served
      unfolding serve_owned
      serve_owned-Finishes s statuses ready =
          let looked = record s { cache = (Cache.get web.get_time url s.cache).0 } in
          let still : Serving looked = record {
            node = ready.node;
            cache = get-IsValid web.get_time url ready.cache;
          } in
          answer-Finishes Served (Cache.get web.get_time url s.cache).1
            (serve_missed-Finishes looked still)
            (λ entry hit.
              let low = get-HasStatuses web.get_time url s.cache statuses entry hit in
              choose-Finishes Served (is_written (hit_page web self entry).status_code)
                (λ e. (_, refl, still))
                (λ e. absurd (cc (hit_page-is_written web self entry low, e))))

    module _ (hash : Bytes)
        (looks_up : (ended : Bool) (n : N)
          → P n
          → Finishes (dht.look_up ended hash n) (λ found. P found.0)) where
      forward_target-Finishes :
          (self : Node) (n : N) (target : Option Node)
          → P n
          → Finishes (forward_target dht web self hash n target) (λ found. P found.0)
      unfolding forward_target koorde_fallback retry_lookup
      forward_target-Finishes self n target p =
          let neighbour = first_other self.id (dht.de_bruijn_list n) target in
          if-Finishes (λ found. P found.0) (is_other self.id target) (_, refl, p)
            (if-Finishes (λ found. P found.0) (ltb 0 (length (dht.de_bruijn_list n)))
              (if-Finishes (λ found. P found.0) (is_other self.id neighbour) (_, refl, p)
                (then-Finishes (λ found. P found.0) (looks_up web.retry_ended n p)
                  (λ found q. (_, refl, q))))
              (option-Finishes (λ found. P found.0) dht.finger_list (_, refl, p)
                (λ fingers. (_, refl, p))))

      serve_key-Finishes :
          (self : Node) (url : Bytes) (told : Bool) (s : HttpServer N F)
          → HasStatuses s.cache
          → Serving s
          → Finishes (serve_key dht float web self url told hash s) Served
      unfolding serve_key responsible_node forward_request
      serve_key-Finishes self url told s statuses ready =
          then-Finishes Served
            (if-Finishes (λ found. P found.0) told (_, refl, ready.node)
              (looks_up web.lookup_ended s.node ready.node))
            (λ found p.
              let asked = record s { node = found.0 } in
              let still : Serving asked = record { node = p; cache = ready.cache } in
              if-Finishes Served (owns_key dht self hash found.0 found.1)
                (serve_owned-Finishes self url asked statuses still)
                (then-Finishes Served (forward_target-Finishes self found.0 found.1 p) (λ chosen q.
                  send_on-Finishes web self url (record asked { node = chosen.0 })
                    (record { node = q; cache = ready.cache }) written dht float chosen.1)))

      -- A request for a page whose hash is this identifier ends with a reply.
      pub handle_cache_request-Finishes :
          (req : CacheRequest) (s : HttpServer N F)
          → new_id_from_string web.sha1 (dht.space s.node) req.url ≡ ok hash
          → HasStatuses s.cache
          → Serving s
          → Finishes (handle_cache_request dht float web req s) Served
      unfolding handle_cache_request serve_hash
      handle_cache_request-Finishes req s hashed statuses ready =
          if-Finishes Served (length req.url == 0) (_, refl, ready)
            (rw (hashed, serve_hash)
              (option-Finishes Served (dht.self s.node) (_, refl, ready)
                (λ self. serve_key-Finishes self req.url _ s statuses ready)))
