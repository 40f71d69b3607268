-- ===== src/Query/Stores.antt =====
-- GetStore, from the storage of a node to what a client gets.
use koorde_dht_web_cache.Prelude.{
  ℕ, zero, suc, ◌≡◌, ◌≤◌, arith, length, take, ◌↔◌, refl, ap, true, false, Option, some, List, [],
  ◌∷◌, ◌++◌, map, Result, returned, refused,
}
use koorde_dht_web_cache.Domain.Hex.{Resource, to_hex_string}
use koorde_dht_web_cache.Domain.Proto.{ClientResource}
use koorde_dht_web_cache.Storage as MemoryStorage
use koorde_dht_web_cache.Actions.{KoordeNode}
use koorde_dht_web_cache.Server.{Status, request_ended, internal}
use koorde_dht_web_cache.Server.Clients as Clients
use koorde_dht_web_cache.Server.Clients.{
  StoreItem, Sending, ended_before, send_fails, sent, stream_items,
}
use koorde_dht_web_cache.Query.{received, get_store}

-- The resource as a client sees it.
abbrev pub for_client : Resource → ClientResource
for_client r = record { key = r.raw_key; value = r.value }

-- The messages as the client receives them.
abbrev pub as_messages : List StoreItem → List (Option ClientResource)
as_messages items = map (λ i. some i.item) items

-- Some of the resources arrive, the others do not, where the first k of the messages are delivered;
-- all arrive when the server sent all of them, which is when it returns no error, and k is enough.
abbrev pub Arrives : ℕ → List ClientResource → List StoreItem × Result Status (Unit {0}) → Type 0
Arrives k all reply =
    (arrived missing : List ClientResource) × (all ≡ arrived ++ missing)
    × (received (take k (as_messages reply.0)) ≡ arrived)
    × (((reply.1 ≡ returned tt) × (length all ≤ k)) ↔ (missing ≡ []))

-- The resource is sent, and delivered, before the rest of them.
sent_first :
    (k : ℕ) (r : Resource) (rs : List ClientResource)
    (later : List StoreItem × Result Status (Unit {0}))
    → (message : StoreItem) → message.item ≡ for_client r
    → Arrives k rs later
    → Arrives (suc k) (for_client r ∷ rs) (message ∷ later.0, later.1)
unfolding received
sent_first k r rs later message e (arrived, missing, split, gets, complete) = (
  for_client r ∷ arrived,
  missing,
  ap (λ l. for_client r ∷ l) split,
  rw (e, gets) refl,
  (
    λ h. complete.0 (h.0, omega (arith, h.1)),
    λ h. let (ok, fits) = complete.1 h in (ok, omega (arith, fits)),
  ),
)

-- Nothing arrives of some resources, of which one is not sent or not delivered.
nothing :
    (k : ℕ) (r : Resource) (rs : List ClientResource)
    (reply : List StoreItem × Result Status (Unit {0}))
    → received (take k (as_messages reply.0)) ≡ []
    → ((reply.1 ≡ returned tt) → length (for_client r ∷ rs) ≤ k → ⊥)
    → Arrives k (for_client r ∷ rs) reply
nothing k r rs reply gets lost =
    ([], for_client r ∷ rs, refl, gets, (λ h. absurd (lost h.0 h.1), λ h. absurd (cc h)))

item-Arrives :
    (sending : ℕ → Sending) (i k : ℕ) (r : Resource) (rs : List Resource) (s : Sending)
    → sending i ≡ s
    → Arrives k (map for_client rs) (stream_items sending (suc i) rs)
    → Arrives (suc k) (map for_client (r ∷ rs)) (stream_items sending i (r ∷ rs))
unfolding stream_items received
item-Arrives sending i k r rs ended_before e h =
    rw (e, stream_items)
      (nothing (suc k) r (map for_client rs) ([], refused request_ended) refl
        (λ x fits. absurd (cc x)))
item-Arrives sending i k r rs send_fails e h =
    rw (e, stream_items)
      (nothing (suc k) r (map for_client rs) ([], refused internal) refl (λ x fits. absurd (cc x)))
item-Arrives sending i k r rs sent e h =
    rw (e, stream_items)
      (sent_first k r _ _ (record { id = to_hex_string true r.key; item = for_client r }) refl h)

stream_items-Arrives :
    (sending : ℕ → Sending) (i k : ℕ) (rs : List Resource)
    → Arrives k (map for_client rs) (stream_items sending i rs)
unfolding stream_items received
stream_items-Arrives sending i zero [] = ([], [], refl, refl, (λ h. refl, λ h. (refl, omega arith)))
stream_items-Arrives sending i (suc k) [] =
    ([], [], refl, refl, (λ h. refl, λ h. (refl, omega arith)))
stream_items-Arrives sending i zero (r ∷ rs) =
    nothing zero r (map for_client rs) (stream_items sending i (r ∷ rs)) refl
      (λ x fits. absurd (omega (arith, fits)))
stream_items-Arrives sending i (suc k) (r ∷ rs) =
    item-Arrives sending i k r rs (sending i) refl (stream_items-Arrives sending (suc i) k rs)

-- Over a stream that is opened, in a context that has not ended when it is asked, and that delivers the
-- first k of the messages that the node sends and then ends in whatever way, the client gets the
-- first ones of the resources of the node, and no error; it gets all of them exactly when the node
-- ends the stream with no error and k is not less than their number.
pub get_store-Arrives :
    (sending : ℕ → Sending) (k : ℕ) (n : KoordeNode)
    → let all = map for_client (MemoryStorage.all n.storage) in
      let reply = Clients.get_store false sending n in
      (arrived missing : List ClientResource) × (all ≡ arrived ++ missing)
      × (get_store (returned (take k (as_messages reply.0))) ≡ returned arrived)
      × (((reply.1 ≡ returned tt) × (length all ≤ k)) ↔ (missing ≡ []))
unfolding get_store Clients.get_store
get_store-Arrives sending k n =
    let (arrived, missing, split, gets, complete) =
      stream_items-Arrives sending 0 k (MemoryStorage.all n.storage) in
    (arrived, missing, split, ap (λ l. returned l) gets, complete)
