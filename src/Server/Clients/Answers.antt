-- ===== src/Server/Clients/Answers.antt =====
-- Every call of a client is answered.
use koorde_dht_web_cache.Prelude.{
  ◌≡◌, ◌≤◌, refl, sym, arith, Bool, true, false, Option, none, some, List, [], ◌∷◌, ◌==◌, length,
  Bytes, ok, returned, refused, Result-cases, inl, inr,
}
use mathlib.Core.Path.{subst}
use koorde_dht_web_cache.Domain.Valid.{IsId}
use koorde_dht_web_cache.Domain.Proto.{ClientResource, resource_from_proto_client}
use koorde_dht_web_cache.Domain.Text.{new_id_from_string, from_hex_string}
use koorde_dht_web_cache.Domain.Text.Laws.{new_id_from_string_lem, from_hex_string-IsId}
use koorde_dht_web_cache.Membership.Laws.{IsOpen}
use koorde_dht_web_cache.Lookup.FindSuccessor.{Lookup}
use koorde_dht_web_cache.Lookup.Ends.{Decides, look_up-Decides}
use koorde_dht_web_cache.Lookup.Ends.Hops.{Answers}
use koorde_dht_web_cache.Actions.{Run, finishes, ◌>>=◌, Network, KoordeNode, lookup_fuel}
use koorde_dht_web_cache.Actions.Laws.{
  Finishes, Kept, IsRouting, then-Finishes, if-Finishes, after_lookup-Finishes,
}
use koorde_dht_web_cache.Service.Ends.{
  Steady, Kept-Steady, Steady-trans, put-Finishes, get-Finishes, delete-Finishes,
}
use koorde_dht_web_cache.Server.Clients.{
  Served, put_resource, put, get, delete, look_up_at, lookup_node,
}
use koorde_dht_web_cache.Server.Clients.Laws.{IsHash}

Decides-Answers : (l : Lookup) → Decides l → Answers l
Decides-Answers l (st, o, inl (n, e)) = (st, returned (some n), e, o)
Decides-Answers l (st, o, inr (x, e)) = (st, refused x, e, o)

pub look_up_at-Finishes :
    (n : KoordeNode) (id : Bytes) (ended : Bool)
    → IsRouting n.rt
    → IsOpen n.pool
    → IsId n.rt.space id
    → Finishes (look_up_at ended id n) (λ found. Kept n found.node)
unfolding look_up_at
look_up_at-Finishes n id ended ready o i = after_lookup-Finishes n _ (
    Decides-Answers _ (
      look_up-Decides n.rt ready.space ready.short ready.fits ready.hops ready.self ready.succ_id
        (lookup_fuel n.rt.space) id ready.first i (omega arith) _ o))

module _ {sha1 : Bytes → Bytes} (hash : IsHash sha1) (net : Network) (n : KoordeNode)
    (ready : IsRouting n.rt) (o : IsOpen n.pool) (short : n.rt.space.byte_len ≤ 20) where
  abbrev Answered : {A : Type 0} → Served A → Type 0
  Answered run = Finishes run (λ r. Steady n r.0)

  at_once : Steady n n
  at_once = record { rt = refl; pool = o }

  hashes :
      (text : Bytes)
      → (id : Bytes) × (new_id_from_string sha1 n.rt.space text ≡ ok id) × IsId n.rt.space id
  hashes text =
      (new_id_from_string_lem ready.space sha1 text (hash.bytes text) (hash.size text)).1 short

  put_resource-Answered : (res : Option ClientResource) → Answered (put_resource sha1 net res n)
  unfolding put_resource resource_from_proto_client
  put_resource-Answered none = (_, refl, at_once)
  put_resource-Answered (some req) =
      let (id, e, i) = hashes req.key in
      if-Finishes _ (length req.key == 0) (_, refl, at_once)
        (if-Finishes _ (length req.value == 0) (_, refl, at_once)
          (rw e (
            then-Finishes _
              (put-Finishes net false n ready o
                (record { key = id; raw_key = req.key; value = req.value }) i)
              (λ reply s. (_, refl, s)))))

  put-Answered :
      (ended : Bool) (req : Option (Option ClientResource)) → Answered (put sha1 net ended req n)
  unfolding put
  put-Answered true req = (_, refl, at_once)
  put-Answered false none = (_, refl, at_once)
  put-Answered false (some res) = put_resource-Answered res

  get-Answered : (ended : Bool) (key : Option Bytes) → Answered (get sha1 net ended key n)
  unfolding get
  get-Answered true key = (_, refl, at_once)
  get-Answered false none = (_, refl, at_once)
  get-Answered false (some key) =
      let (id, e, i) = hashes key in
      if-Finishes _ (length key == 0) (_, refl, at_once)
        (rw e (then-Finishes _ (get-Finishes net false n ready o id i) (λ reply s. (_, refl, s))))

  delete-Answered : (ended : Bool) (key : Option Bytes) → Answered (delete sha1 net ended key n)
  unfolding delete
  delete-Answered true key = (_, refl, at_once)
  delete-Answered false none = (_, refl, at_once)
  delete-Answered false (some key) =
      let (id, e, i) = hashes key in
      if-Finishes _ (length key == 0) (_, refl, at_once)
        (rw e
          (then-Finishes _ (delete-Finishes net false n ready o id i) (λ reply s. (_, refl, s))))

  lookup_node-Answered : (ended : Bool) (id : Option Bytes) → Answered (lookup_node ended id n)
  unfolding lookup_node
  lookup_node-Answered true id = (_, refl, at_once)
  lookup_node-Answered false none = (_, refl, at_once)
  lookup_node-Answered false (some text) =
      if-Finishes _ (length text == 0) (_, refl, at_once)
        (elim (Result-cases (from_hex_string n.rt.space text)) [
          | inr (e, bad) ↦ rw bad (_, refl, at_once)
          | inl (id, reads) ↦ rw reads (
              then-Finishes _
                (look_up_at-Finishes n id false ready o
                  (from_hex_string-IsId ready.space text reads))
                (λ found kept. (_, refl, Kept-Steady kept)))
        ])

-- A call of a client, with whether its context has ended.
pub data ClientCall : Type 0 where
  put_call : Bool → Option (Option ClientResource) → ClientCall
  get_call delete_call lookup_call : Bool → Option Bytes → ClientCall

-- The node after the calls, one after the other.
unfoldable pub serve_calls :
    (Bytes → Bytes) → Network → List ClientCall → KoordeNode → Run KoordeNode
serve_calls sha1 net [] n = finishes n
serve_calls sha1 net (put_call ended req ∷ calls) n = do
  reply ← put sha1 net ended req n
  serve_calls sha1 net calls reply.0
serve_calls sha1 net (get_call ended key ∷ calls) n = do
  reply ← get sha1 net ended key n
  serve_calls sha1 net calls reply.0
serve_calls sha1 net (delete_call ended key ∷ calls) n = do
  reply ← delete sha1 net ended key n
  serve_calls sha1 net calls reply.0
serve_calls sha1 net (lookup_call ended id ∷ calls) n = do
  reply ← lookup_node ended id n
  serve_calls sha1 net calls reply.0

module _ {sha1 : Bytes → Bytes} (hash : IsHash sha1) (net : Network) where
  go_on :
      {A : Type 0} (calls : List ClientCall) (n : KoordeNode) {run : Served A}
      → ((m : KoordeNode)
          → IsRouting m.rt
          → IsOpen m.pool
          → m.rt.space.byte_len ≤ 20
          → Finishes (serve_calls sha1 net calls m) (Steady m))
      → IsRouting n.rt
      → n.rt.space.byte_len ≤ 20
      → Finishes run (λ r. Steady n r.0)
      → Finishes (run >>= λ reply. serve_calls sha1 net calls reply.0) (Steady n)
  go_on calls n later ready short h = then-Finishes _ h (λ reply s.
      let (m, e, t) =
        later reply.0 (subst IsRouting (sym s.rt) ready) s.pool
          (subst (λ rt. rt.space.byte_len ≤ 20) (sym s.rt) short) in
      (m, e, Steady-trans s t))

  -- With SHA-1 digests of 20 bytes and identifiers of no more bytes, a Koorde node that lookups can
  -- start from, with an open pool whose mutex is free, answers any sequence of Put, Get, Delete and
  -- Lookup calls of clients, whatever the requests hold and the other nodes do: each call returns a
  -- reply or an error. The routing table stays, and the pool stays open with its mutex free.
  pub serve_calls-Finishes :
      (calls : List ClientCall) (n : KoordeNode)
      → IsRouting n.rt
      → IsOpen n.pool
      → n.rt.space.byte_len ≤ 20
      → Finishes (serve_calls sha1 net calls n) (Steady n)
  unfolding serve_calls
  serve_calls-Finishes [] n ready o short = (n, refl, record { rt = refl; pool = o })
  serve_calls-Finishes (put_call ended req ∷ calls) n ready o short =
      go_on calls n (serve_calls-Finishes calls) ready short
        (put-Answered hash net n ready o short ended req)
  serve_calls-Finishes (get_call ended key ∷ calls) n ready o short =
      go_on calls n (serve_calls-Finishes calls) ready short
        (get-Answered hash net n ready o short ended key)
  serve_calls-Finishes (delete_call ended key ∷ calls) n ready o short =
      go_on calls n (serve_calls-Finishes calls) ready short
        (delete-Answered hash net n ready o short ended key)
  serve_calls-Finishes (lookup_call ended id ∷ calls) n ready o short =
      go_on calls n (serve_calls-Finishes calls) ready short
        (lookup_node-Answered hash net n ready o short ended id)
