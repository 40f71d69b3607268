-- ===== src/Service/Ends.antt =====
-- Put, Get and Delete of a node end.
use koorde_dht_web_cache.Prelude.{◌≡◌, refl, sym, ◌∙◌, arith, Bool, true, false, Bytes, Result}
use koorde_dht_web_cache.Domain.Valid.{IsId}
use koorde_dht_web_cache.Domain.Hex.{Resource}
use koorde_dht_web_cache.Domain.Ring.{equal}
use mathlib.Core.Path.{subst}
use koorde_dht_web_cache.Membership.{store_local}
use koorde_dht_web_cache.Membership.Laws.{IsOpen}
use koorde_dht_web_cache.Rpc.{Stub}
use koorde_dht_web_cache.Actions.{Network, KoordeNode}
use koorde_dht_web_cache.Actions.Laws.{
  Finishes, Kept, IsRouting, then-Finishes, if-Finishes, option-Finishes, result-Finishes,
  find_successor-Finishes, pooled_or_dialed-Finishes, Kept-trans,
}
use koorde_dht_web_cache.Service.{
  ServiceError, at_successor, put_here, put, get_here, get, delete_here, delete, remove_local,
}

-- The same routing table, and a pool that is open with its mutex free.
pub record Steady (n m : KoordeNode) : Type 0 where
  pub rt : m.rt ≡ n.rt
  pub pool : IsOpen m.pool

pub Kept-Steady : {n m : KoordeNode} → Kept n m → Steady n m
Kept-Steady k = record { rt = k.rt; pool = k.pool }

pub Steady-trans : {a b c : KoordeNode} → Steady a b → Steady b c → Steady a c
Steady-trans h k = record { rt = k.rt ∙ h.rt; pool = k.pool }

same_table :
    (n : KoordeNode) (res : Resource)
    → ((store_local res n).0.rt ≡ n.rt) × ((store_local res n).0.pool ≡ n.pool)
unfolding store_local
same_table n res = ground arith

stored_here :
    {n : KoordeNode} (res : Resource) (e : Bool) (m : KoordeNode)
    → Kept n m
    → Steady n (put_here res e m).0
unfolding put_here
stored_here res true m kept = Kept-Steady kept
stored_here res false m kept =
    let (rt, pool) = same_table m res in
    record { rt = rt ∙ kept.rt; pool = subst IsOpen (sym pool) kept.pool }

module _ (net : Network) (ended : Bool) (n : KoordeNode) (ready : IsRouting n.rt)
    (o : IsOpen n.pool) where
  at_successor-Finishes :
      {A : Type 0} (key : Bytes) (here : Bool → KoordeNode → KoordeNode × Result ServiceError A)
      (there : Bool → Stub → Result ServiceError A)
      → IsId n.rt.space key
      → ((e : Bool) (m : KoordeNode) → Kept n m → Steady n (here e m).0)
      → Finishes (at_successor net ended key here there n) (λ r. Steady n r.0)
  unfolding at_successor
  at_successor-Finishes key here there i local =
      if-Finishes _ ended (_, refl, record { rt = refl; pool = o })
        (then-Finishes _ (find_successor-Finishes n ready o ended key i) (λ found kept.
          result-Finishes _ found.result
            (λ node.
              option-Finishes _ node (_, refl, Kept-Steady kept)
                (λ succ.
                  if-Finishes _ (equal succ.id n.rt.self.id)
                    (_, refl, local found.ended found.node kept)
                    (then-Finishes _ (pooled_or_dialed-Finishes found.node kept.pool net succ.addr)
                      (λ got k. (_, refl, Kept-Steady (Kept-trans kept k))))))
            (λ e. (_, refl, Kept-Steady kept))))

  pub put-Finishes :
      (res : Resource)
      → IsId n.rt.space res.key
      → Finishes (put net ended res n) (λ r. Steady n r.0)
  unfolding put
  put-Finishes res i = at_successor-Finishes res.key _ _ i (stored_here res)

  pub get-Finishes :
      (id : Bytes) → IsId n.rt.space id → Finishes (get net ended id n) (λ r. Steady n r.0)
  unfolding get get_here
  get-Finishes id i = at_successor-Finishes id _ _ i (λ e m kept. Kept-Steady kept)

  pub delete-Finishes :
      (id : Bytes) → IsId n.rt.space id → Finishes (delete net ended id n) (λ r. Steady n r.0)
  unfolding delete delete_here remove_local
  delete-Finishes id i =
      at_successor-Finishes id _ _ i (λ e m kept. record { rt = kept.rt; pool = kept.pool })
