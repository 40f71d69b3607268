-- ===== src/Service/Laws.antt =====
-- What the calls of a Koorde node return.
use koorde_dht_web_cache.Prelude.{
  ◌≡◌, refl, ap, ◌∙◌, ◌⊎◌, inl, inr, arith, Bool, false, not, ◌&&◌, ◌||◌, Option, none, some, List,
  [], ◌∷◌, if◌then◌else◌, Bytes, IsBytes, bytes_eq, bytes_eq_iff, Option-cases, Bool-cases, length,
  ◌==◌,
}
use koorde_dht_web_cache.Prelude.Maps.{lookup, remove, lookup-insert, lookup-remove}
use koorde_dht_web_cache.Domain.Space.{is_valid_id}
use koorde_dht_web_cache.Domain.Valid.{IsId, is_valid_id_iff}
use koorde_dht_web_cache.Domain.Hex.{Node, Resource, to_hex_string}
use koorde_dht_web_cache.Storage as MemoryStorage
use koorde_dht_web_cache.Storage.{Storage, zero_resource}
use koorde_dht_web_cache.Membership.Laws.{IsOpen}
use koorde_dht_web_cache.Lookup.Ends.Hops.{when_open-IsOpen}
use koorde_dht_web_cache.Rpc.{Stub, ClientError, store_remote}
use koorde_dht_web_cache.Actions.{Run, finishes, KoordeNode, Found, pooled, after_reply}
use koorde_dht_web_cache.Pool.{ClientPool, get_from_pool}
use koorde_dht_web_cache.Actions.Laws.{
  Finishes, Kept, IsRouting, then-Finishes, if-Finishes, choose-Finishes, find_successor-Finishes,
  step-Finishes,
}
use koorde_dht_web_cache.Service.{
  Request, RequestMode, initial_mode, step_mode, unset_mode, respond, dispatch,
  handle_find_successor, all_keys, without_keys, delete_sent, transfer_resources_async,
}

respond-Finishes :
    (n : KoordeNode) (run : Run Found)
    → Finishes run (λ found. Kept n found.node)
    → Finishes (respond run) (λ reply. Kept n reply.0)
unfolding respond
respond-Finishes n run h = then-Finishes _ h (λ found kept. (_, refl, kept))

-- The identifiers of a request are byte strings.
abbrev pub IsMode : RequestMode → Type 0
IsMode initial_mode = Unit {0}
IsMode unset_mode = Unit {0}
IsMode (step_mode current_i kshift) = IsBytes current_i × IsBytes kshift

abbrev pub IsRequest : Option Request → Type 0
IsRequest none = Unit {0}
IsRequest (some req) = IsBytes req.target_id × IsMode req.mode

-- The texts of the keys of a list.
unfoldable pub has_key : Bytes → List Resource → Bool
has_key k [] = false
has_key k (r ∷ resources) = bytes_eq (to_hex_string false r.key) k || has_key k resources

lookup-all_keys :
    (k : Bytes) (rs : List Resource)
    → lookup k (all_keys rs) ≡ (if has_key k rs then some tt else none)
unfolding all_keys has_key lookup
lookup-all_keys k [] = refl
lookup-all_keys k (r ∷ rs) =
    ground
      (arith, lookup-insert (to_hex_string false r.key) k tt (all_keys rs), lookup-all_keys k rs)

lookup-without_keys :
    (k : Bytes) (failed : List Resource) (m : List (Bytes × Unit {0}))
    → lookup k (without_keys failed m) ≡ (if has_key k failed then none else lookup k m)
unfolding without_keys has_key
lookup-without_keys k [] m = refl
lookup-without_keys k (r ∷ failed) m = ground (
  arith,
  lookup-without_keys k failed (remove (to_hex_string false r.key) m),
  lookup-remove (to_hex_string false r.key) k m,
)

lookup-delete :
    (k id : Bytes) (s : Storage)
    → lookup k (MemoryStorage.delete id s).0
      ≡ (if bytes_eq (to_hex_string false id) k then none else lookup k s)
unfolding MemoryStorage.delete
lookup-delete k id s =
    ground
      (arith, bytes_eq_iff (to_hex_string false id) k, lookup-remove (to_hex_string false id) k s)

lookup-delete_sent :
    (k : Bytes) (success : List (Bytes × Unit {0})) (rs : List Resource) (s : Storage)
    → lookup k (delete_sent success rs s) ≡ (
        if has_key k rs
        then elim (lookup k success) [ none ↦ lookup k s | some u ↦ none ]
        else lookup k s)
unfolding delete_sent has_key
lookup-delete_sent k success [] s = refl
lookup-delete_sent k success (r ∷ rs) s = ground (
  arith,
  bytes_eq_iff (to_hex_string false r.key) k,
  lookup-delete_sent k success rs s,
  lookup-delete_sent k success rs (MemoryStorage.delete r.key s).0,
  lookup-delete k r.key s,
)

-- What is left of a storage after a transfer that was acknowledged.
abbrev pub Sent : Stub → List Resource → Storage → Storage → Type 0
Sent client resources before after =
    ((store_remote false client resources).1 ≡ none)
    × ((k : Bytes)
        → lookup k after ≡ (
            if has_key k resources && not (has_key k (store_remote false client resources).0)
            then none
            else lookup k before))

taken :
    (sent failed : Bool) (r : Option Resource) (x : Option (Unit {0}))
    → x ≡ (if failed then none else (if sent then some tt else none))
    → (if sent then elim x as (λ z. Option Resource) [ none ↦ r | some u ↦ none ] else r)
      ≡ (if sent && not failed then none else r)
taken sent failed r x e = ground (arith, e)

-- The connection that an open pool has for an address of another node.
abbrev pub connection : Bytes → ClientPool Stub → Option Stub
connection addr p =
    if bytes_eq addr [] || bytes_eq addr p.self_addr
    then none
    else elim (lookup addr p.clients) [ none ↦ none | some rc ↦ some rc.conn ]

pooled-connection :
    (addr : Bytes) (n : KoordeNode)
    → IsOpen n.pool
    → pooled addr n ≡ finishes (n, connection addr n.pool)
unfolding pooled get_from_pool after_reply
pooled-connection addr n o = elim (Bool-cases (bytes_eq addr [])) [
  | inl empty ↦ rw empty refl
  | inr named ↦ elim (Bool-cases (bytes_eq addr n.pool.self_addr)) [
    | inl own ↦ rw (named, own) refl
    | inr peer ↦ elim (Option-cases (lookup addr n.pool.clients)) [
      | inl missing ↦ rw (named, peer, when_open-IsOpen _ o, missing) refl
      | inr (rc, found) ↦ rw (named, peer, when_open-IsOpen _ o, found) refl
    ]
  ]
]

-- How a transfer over a connection, or none, leaves the storage.
abbrev pub Transferred : Option Stub → List Resource → Storage → Storage → Type 0
Transferred none resources before after = after ≡ before
Transferred (some client) resources before after =
    (((e : ClientError) × ((store_remote false client resources).1 ≡ some e)) × (after ≡ before))
    ⊎ Sent client resources before after

-- A transfer of resources to another node finishes at an open pool whose mutex is free. If the pool has
-- no connection for the address of that node, or StoreRemote of the resources over the one that it has
-- returns an error, the storage stays as it was. If it returns no error, exactly the resources with
-- the text of a key that is among those sent and not among those that StoreRemote returned as failed
-- are gone.
pub transfer_resources_async-Finishes :
    (p : Node) (resources : List Resource) (n : KoordeNode)
    → IsOpen n.pool
    → Finishes
        (transfer_resources_async p resources n)
        (λ m. Transferred (connection p.addr n.pool) resources n.storage m.storage)
unfolding transfer_resources_async
transfer_resources_async-Finishes p resources n o =
    rw (transfer_resources_async, pooled-connection p.addr n o) (over (connection p.addr n.pool))
  where
    in_success :
        (client : Stub) (k : Bytes)
        → lookup k (without_keys (store_remote false client resources).0 (all_keys resources)) ≡ (
            if has_key k (store_remote false client resources).0
            then none
            else (if has_key k resources then some tt else none))
    in_success client k =
        lookup-without_keys k (store_remote false client resources).0 (all_keys resources)
        ∙ ap (λ x. if has_key k (store_remote false client resources).0 then none else x)
            (lookup-all_keys k resources)

    over :
        (connected : Option Stub)
        → Finishes
            (elim connected as (λ x. Run KoordeNode) [
              | none ↦ finishes n
              | some client ↦
                  let sent = store_remote false client resources in
                  elim sent.1 as (λ x. Run KoordeNode) [
                    | some e ↦ finishes n
                    | none ↦ finishes (record n {
                      storage =
                          delete_sent
                            (without_keys sent.0 (all_keys resources))
                            resources
                            n.storage;
                    })
                  ]
            ])
            (λ m. Transferred connected resources n.storage m.storage)
    over none = (n, refl, refl)
    over (some client) = elim (Option-cases (store_remote false client resources).1) [
      | inr (e, failed) ↦ rw failed (n, refl, inl ((e, refl), refl))
      | inl acked ↦ rw acked (
        _,
        refl,
        inr (
          refl,
          λ k.
              lookup-delete_sent k _ resources n.storage
              ∙ taken (has_key k resources) (has_key k (store_remote false client resources).0) _ _
                  (in_success client k),
        ),
      )
    ]

same_node : {n : KoordeNode} → IsOpen n.pool → Kept n n
same_node o = record { rt = refl; storage = refl; pool = o }

dispatch-Finishes :
    (ended : Bool) (target : Bytes) (mode : RequestMode) (n : KoordeNode)
    → IsRouting n.rt
    → IsOpen n.pool
    → IsId n.rt.space target
    → IsMode mode
    → Finishes (dispatch ended target mode n) (λ reply. Kept n reply.0)
unfolding dispatch
dispatch-Finishes ended target initial_mode n ready o it h =
    respond-Finishes n _ (find_successor-Finishes n ready o ended target it)
dispatch-Finishes ended target unset_mode n ready o it h = (_, refl, same_node o)
dispatch-Finishes ended target (step_mode i k) n ready o it h =
    choose-Finishes _ (is_valid_id n.rt.space i)
      (λ vi.
        choose-Finishes _ (is_valid_id n.rt.space k)
          (λ vk. respond-Finishes n _ (
            step-Finishes n ready o ended target i k ((is_valid_id_iff ready.space i h.0).0 vi)
              ((is_valid_id_iff ready.space k h.1).0 vk)))
          (λ e. (_, refl, same_node o)))
      (λ e. (_, refl, same_node o))

-- A FindSuccessor request of any kind, with byte strings as identifiers, at a node that lookups can
-- start from and an open pool whose mutex is free, ends with a response or an error: it neither panics
-- nor waits for ever nor runs out of fuel, and leaves the routing table, the storage and the pool open.
pub handle_find_successor-Finishes :
    (ended : Bool) (req : Option Request) (n : KoordeNode)
    → IsRouting n.rt
    → IsOpen n.pool
    → IsRequest req
    → Finishes (handle_find_successor ended req n) (λ reply. Kept n reply.0)
unfolding handle_find_successor
handle_find_successor-Finishes ended none n ready o h = (_, refl, same_node o)
handle_find_successor-Finishes ended (some req) n ready o h =
    if-Finishes _ (length req.target_id == 0) (_, refl, same_node o)
      (choose-Finishes _ (is_valid_id n.rt.space req.target_id)
        (λ valid.
          dispatch-Finishes ended req.target_id req.mode n ready o
            ((is_valid_id_iff ready.space req.target_id h.0).0 valid) h.1)
        (λ e. (_, refl, same_node o)))
