-- ===== src/Http/Loops.antt =====
-- Where a node sends a request that it was told it is responsible for, and is not.
use koorde_dht_web_cache.Prelude.{
  length-append, ◌≡◌, refl, ◌∙◌, arith, true, false, Option, none, some, [], ◌∷◌, ◌++◌, ◌==◌, ltb,
  length, Bytes, bytes_eq, bytes_eq_iff, codes, ok,
}
use koorde_dht_web_cache.Domain.Hex.{Node}
use koorde_dht_web_cache.Domain.Ring.{equal, between}
use koorde_dht_web_cache.Domain.Text.{new_id_from_string}
use koorde_dht_web_cache.Routing.{RoutingEntries}
use koorde_dht_web_cache.Actions.{finishes}
use koorde_dht_web_cache.Hotspot.{Arithmetic}
use koorde_dht_web_cache.Http.{DhtNode, CacheRequest, Web, HttpServer}
use koorde_dht_web_cache.Http.Proxy.{proxy_to_node}
use koorde_dht_web_cache.Http.Handle.{
  first_other, responsible_node, owns_key, koorde_fallback, forward_target, send_on,
  forward_request, handle_cache_request,
}
use koorde_dht_web_cache.Http.Owned.{Routed}
use koorde_dht_web_cache.Http.Forwarded.{handle_unowned}

-- Every entry is nil or the node with this identifier.
abbrev pub AreSkipped : Bytes → RoutingEntries → Type 0
AreSkipped self [] = Unit {0}
AreSkipped self (none ∷ entries) = AreSkipped self entries
AreSkipped self (some n ∷ entries) = (n.id ≡ self) × AreSkipped self entries

first_other-AreSkipped :
    (self : Bytes) (before after : RoutingEntries) (start : Option Node) (target : Node)
    → AreSkipped self before
    → equal target.id self ≡ false
    → first_other self (before ++ (some target ∷ after)) start ≡ some target
unfolding first_other equal
first_other-AreSkipped self [] after start target skipped other = rw other refl
first_other-AreSkipped self (none ∷ before) after start target skipped other =
    first_other-AreSkipped self before after start target skipped other
first_other-AreSkipped self (some n ∷ before) after start target (same, skipped) other =
    let itself : equal n.id self ≡ true = rw (same, equal) ((bytes_eq_iff self self).1 refl) in
    rw itself (first_other-AreSkipped self before after start target skipped other)

module _ {N F : Type 0} (dht : DhtNode N) (float : Arithmetic F) where
  own_answer :
      (web : Web) (req : CacheRequest) (n : N) (self : Node) (hash : Bytes)
      → req.is_responsible ≡ codes "true"
      → responsible_node dht web (bytes_eq req.is_responsible (codes "true")) self hash n
        ≡ finishes (n, some self)
  unfolding responsible_node
  own_answer web req n self hash told =
      rw (told, responsible_node, (bytes_eq_iff (codes "true") (codes "true")).1 refl) refl

  outside_range :
      (self : Node) (hash : Bytes) (pred : Node) (n : N)
      → dht.predecessor n ≡ some pred
      → between hash pred.id self.id ≡ false
      → owns_key dht self hash n (some self) ≡ false
  unfolding owns_key
  outside_range self hash pred n before outside = rw (before, owns_key, outside) refl

  module _ (self : Node) (before after : RoutingEntries) (target : Node)
      (skipped : AreSkipped self.id before) (other : equal target.id self.id ≡ false) where
    to_neighbour :
        (web : Web) (hash : Bytes) (n : N)
        → dht.de_bruijn_list n ≡ before ++ (some target ∷ after)
        → forward_target dht web self hash n (some self) ≡ finishes (n, some target)
    unfolding forward_target koorde_fallback equal
    to_neighbour web hash n list =
        let found = first_other-AreSkipped self.id before after (some self) target skipped other in
        let itself = (bytes_eq_iff self.id self.id).1 refl in
        let several : ltb 0 (length (before ++ (some target ∷ after))) ≡ true =
          ground (arith, length-append before (some target ∷ after)) in
        rw (forward_target, itself, list, several, koorde_fallback, found, other) refl

    sent_on :
        (web : Web) (hash url : Bytes) (s : HttpServer N F)
        → dht.de_bruijn_list s.node ≡ before ++ (some target ∷ after)
        → forward_request dht float web self url hash (some self) s
          ≡ proxy_to_node web self url target.addr (codes "MISS-DHT") s
    unfolding forward_request send_on
    sent_on web hash url s list =
        rw (forward_request, to_neighbour web hash s.node list, other) refl

  -- A request that another node has sent with X-Is-Responsible, to a node that is not responsible for
  -- its page, goes to its first de Bruijn neighbour that is another node, whatever the page: those
  -- before it in the list are nil or have the identifier of the node itself.
  pub handle_cache_request-proxy_to_node :
      (web : Web) (req : CacheRequest) (s : HttpServer N F) {hash : Bytes} {self pred : Node}
      → (before after : RoutingEntries) (target : Node) → (length req.url == 0) ≡ false
      → new_id_from_string web.sha1 (dht.space s.node) req.url ≡ ok hash
      → dht.self s.node ≡ some self
      → req.is_responsible ≡ codes "true"
      → dht.predecessor s.node ≡ some pred
      → between hash pred.id self.id ≡ false
      → dht.de_bruijn_list s.node ≡ before ++ (some target ∷ after)
      → AreSkipped self.id before
      → equal target.id self.id ≡ false
      → handle_cache_request dht float web req s
        ≡ proxy_to_node web self req.url target.addr (codes "MISS-DHT") s
  handle_cache_request-proxy_to_node web req s {hash} {self} {pred} before after target named hashed
        known told preceded outside list skipped other =
      let o : Routed dht web req s.node false = record {
        named = named;
        hash = hash;
        hashed = hashed;
        self = self;
        known = known;
        after = s.node;
        responsible = some self;
        asked = own_answer web req s.node self hash told;
        owns = outside_range self hash pred s.node preceded outside;
      } in
      handle_unowned dht float web req s o
      ∙ sent_on self before after target skipped other web hash req.url s list
