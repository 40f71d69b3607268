-- ===== src/Http/Answers/Koorde.antt =====
-- What a request for a page ends with at a Koorde node.
use koorde_dht_web_cache.Prelude.{ℕ, ◌≤◌, ◌<◌, refl, sym}
use mathlib.Core.Path.{subst}
use koorde_dht_web_cache.Domain.Valid.{IsId}
use koorde_dht_web_cache.Domain.Text.Laws.{new_id_from_string_lem}
use koorde_dht_web_cache.Membership.Laws.{IsOpen}
use koorde_dht_web_cache.Actions.{KoordeNode}
use koorde_dht_web_cache.Actions.Laws.{IsRouting, Kept, Kept-trans, Finishes, then-Finishes}
use koorde_dht_web_cache.Cache.Invariant.{IsValid}
use koorde_dht_web_cache.Hotspot.{Arithmetic}
use koorde_dht_web_cache.Server.Clients.Answers.{look_up_at-Finishes}
use koorde_dht_web_cache.Server.Clients.Laws.{IsHash}
use koorde_dht_web_cache.Http.{CacheRequest, Web, HttpServer}
use koorde_dht_web_cache.Http.Handle.{handle_cache_request}
use koorde_dht_web_cache.Http.Nodes.{koorde_dht}
use koorde_dht_web_cache.Http.Answers.{IsAnswered, HasStatuses, handle_cache_request-Finishes}

-- With SHA-1 digests of 20 bytes, identifiers of no more bytes, and a rand.Intn that stays below its
-- bound, a Koorde node that lookups can start from, with an open pool whose mutex is free and a valid
-- cache whose entries have statuses up to 999, answers every request for a page with a page or an
-- error, whatever the origins and the other nodes do, as long as a status that another node answers a
-- proxied request with is from 100 to 999. The routing table and the storage stay, the pool stays open with its mutex free, and
-- the cache stays valid.
pub handle_cache_request-koorde_dht :
    {F : Type 0} (float : Arithmetic F) (web : Web)
    → IsHash web.sha1
    → ((k : ℕ) → 0 < k → web.intn k < k)
    → IsAnswered web
    → (req : CacheRequest) (s : HttpServer KoordeNode F) → IsRouting s.node.rt
    → IsOpen s.node.pool
    → s.node.rt.space.byte_len ≤ 20
    → IsValid s.cache
    → HasStatuses s.cache
    → Finishes
        (handle_cache_request koorde_dht float web req s)
        (λ r. Kept s.node r.0.node × IsValid r.0.cache)
handle_cache_request-koorde_dht float web hash below written req s ready o short v statuses =
    let (id, hashed, i) =
      (new_id_from_string_lem ready.space web.sha1 req.url (hash.bytes req.url)
          (hash.size req.url)).1
        short in
    let (r, answers, serving) =
      handle_cache_request-Finishes (Kept s.node) koorde_dht float web below written id
        (λ ended m kept.
          then-Finishes (λ found. Kept s.node found.0)
            (look_up_at-Finishes m id ended (subst IsRouting (sym kept.rt) ready) kept.pool
              (subst (λ rt. IsId rt.space id) (sym kept.rt) i))
            (λ found k. (_, refl, Kept-trans kept k)))
        req s hashed statuses
        (record { node = record { rt = refl; storage = refl; pool = o }; cache = v }) in
    (r, answers, (serving.node, serving.cache))
