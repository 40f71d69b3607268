-- ===== src/Http/Candidates.antt =====
-- internal/node/server/http.go: the nodes that handleCacheRequest hands a request on to.
use koorde_dht_web_cache.Prelude.{
  ◌≡◌, refl, ap, ◌⊎◌, inl, inr, Bool, true, false, if◌then◌else◌, Option, none, some, [], ◌∷◌,
  Bytes, ltb, length,
}
use koorde_dht_web_cache.Domain.Hex.{Node}
use koorde_dht_web_cache.Routing.{RoutingEntries}
use koorde_dht_web_cache.Actions.{Run, finishes, panics, stuck, exhausted, ◌>>=◌}
use koorde_dht_web_cache.Http.{DhtNode, Web}
use koorde_dht_web_cache.Http.Proxy.{finger_entries}
use koorde_dht_web_cache.Http.Handle.{
  is_other, first_other, retry_lookup, koorde_fallback, chord_fallback, forward_target,
}

-- A node is one of the entries.
abbrev pub IsEntry : Node → RoutingEntries → Type 0
IsEntry target [] = ⊥
IsEntry target (entry ∷ entries) = (entry ≡ some target) ⊎ IsEntry target entries

-- How a node is known when a request is handed on: the lookup, or the second one, found it, or it is a
-- de Bruijn neighbour, a finger or a successor.
pub data IsKnown {N : Type 0} (dht : DhtNode N) (web : Web) (hash : Bytes) (n : N)
    (responsible : Option Node) (target : Node) : Type 0 where
  looked_up : responsible ≡ some target → IsKnown dht web hash n responsible target
  looked_up_again :
      {m : N}
      → dht.look_up web.retry_ended hash n ≡ finishes (m, some target)
      → IsKnown dht web hash n responsible target
  neighbour : IsEntry target (dht.de_bruijn_list n) → IsKnown dht web hash n responsible target
  finger : IsEntry target (finger_entries dht n) → IsKnown dht web hash n responsible target
  successor : IsEntry target (dht.successor_list n) → IsKnown dht web hash n responsible target

-- A node that is found has the property, if one is.
unfoldable pub Chosen : (Node → Type 0) → Option Node → Type 0
Chosen K none = Unit {0}
Chosen K (some target) = K target

unfoldable pub Chooses : {N : Type 0} → (Node → Type 0) → Run (N × Option Node) → Type 0
Chooses K (finishes (n, target)) = Chosen K target
Chooses K panics = Unit {0}
Chooses K stuck = Unit {0}
Chooses K exhausted = Unit {0}

Chosen-if :
    (K : Node → Type 0) (b : Bool) (x y : Option Node)
    → Chosen K x
    → Chosen K y
    → Chosen K (if b then x else y)
Chosen-if K true x y hx hy = hx
Chosen-if K false x y hx hy = hy

Chooses-if :
    {N : Type 0} (K : Node → Type 0) (b : Bool) (x y : Run (N × Option Node))
    → Chooses K x
    → Chooses K y
    → Chooses K (if b then x else y)
Chooses-if K true x y hx hy = hx
Chooses-if K false x y hx hy = hy

ends-Chooses :
    {N : Type 0} (K : Node → Type 0) (n : N) (target : Option Node)
    → Chosen K target
    → Chooses K (finishes (n, target))
unfolding Chooses
ends-Chooses K n target h = h

entry-Chosen :
    (K : Node → Type 0) (entry : Option Node)
    → ((target : Node) → entry ≡ some target → K target)
    → Chosen K entry
unfolding Chosen
entry-Chosen K none h = tt
entry-Chosen K (some target) h = h target refl

first_other-Chosen :
    (K : Node → Type 0) (self : Bytes) (entries : RoutingEntries) (start : Option Node)
    → ((target : Node) → IsEntry target entries → K target)
    → Chosen K start
    → Chosen K (first_other self entries start)
unfolding first_other
first_other-Chosen K self [] start h hs = hs
first_other-Chosen K self (entry ∷ entries) start h hs =
    Chosen-if K (is_other self entry) entry (first_other self entries start)
      (entry-Chosen K entry (λ target e. h target (inl e)))
      (first_other-Chosen K self entries start (λ target e. h target (inr e)) hs)

module _ {N : Type 0} (dht : DhtNode N) (web : Web) (self : Node) (hash : Bytes) (n : N)
    (responsible : Option Node) where
  abbrev Known : Node → Type 0
  Known = IsKnown dht web hash n responsible

  retried :
      (target : Option Node) (run : Run (N × Option Node))
      → Chosen Known target
      → ((m : N) (found : Node) → run ≡ finishes (m, some found) → Known found)
      → Chooses Known (
          run
          >>= (λ found. finishes (found.0, if is_other self.id found.1 then found.1 else target)))
  unfolding Chooses
  retried target (finishes (m, found)) ht h =
      Chosen-if Known (is_other self.id found) found target
        (entry-Chosen Known found (λ node e. h m node (ap (λ f. finishes (m, f)) e))) ht
  retried target panics ht h = tt
  retried target stuck ht h = tt
  retried target exhausted ht h = tt

  fingers-Chosen :
      (lists : Option (N → RoutingEntries))
      → dht.finger_list ≡ lists
      → Chosen Known responsible
      → Chooses Known (elim lists as (λ x. Run (N × Option Node)) [
        | some fingers ↦ finishes (n, chord_fallback dht self (fingers n) n responsible)
        | none ↦ finishes (n, first_other self.id (dht.successor_list n) responsible)
      ])
  unfolding chord_fallback finger_entries Chooses
  fingers-Chosen none e h =
      first_other-Chosen Known self.id (dht.successor_list n) responsible (λ t i. successor i) h
  fingers-Chosen (some fingers) e h =
      let by_finger =
        first_other-Chosen Known self.id (fingers n) responsible
          (λ t i. finger (rw (finger_entries, e) i)) h in
      Chosen-if Known _ _ _ by_finger
        (first_other-Chosen Known self.id (dht.successor_list n) _ (λ t i. successor i) by_finger)

  -- A request is handed on to a node that is known.
  pub forward_target-Chooses : Chooses Known (forward_target dht web self hash n responsible)
  unfolding forward_target koorde_fallback retry_lookup
  forward_target-Chooses =
      let given = entry-Chosen Known responsible (λ t e. looked_up e) in
      let near =
        first_other-Chosen Known self.id (dht.de_bruijn_list n) responsible (λ t i. neighbour i)
          given in
      Chooses-if Known (is_other self.id responsible) _ _ (ends-Chooses Known n responsible given) (
        Chooses-if Known (ltb 0 (length (dht.de_bruijn_list n))) _ _
          (Chooses-if Known
            (is_other self.id (first_other self.id (dht.de_bruijn_list n) responsible)) _ _
            (ends-Chooses Known n _ near)
            (retried _ (dht.look_up web.retry_ended hash n) near (λ m found e. looked_up_again e)))
          (fingers-Chosen dht.finger_list refl given))
