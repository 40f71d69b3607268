-- ===== src/Membership/Storing.antt =====
-- What a node stores after its predecessor changed.
use koorde_dht_web_cache.Prelude.{◌≡◌, sym, ap, ◌∙◌, Bool, true, false, Option, none, some, List}
use mathlib.Core.Path.{subst}
use koorde_dht_web_cache.Domain.Space.{Space}
use koorde_dht_web_cache.Domain.Valid.{IsId}
use koorde_dht_web_cache.Domain.Hex.{Node, Resource}
use koorde_dht_web_cache.Domain.Ring.{equal, between}
use koorde_dht_web_cache.Storage.Laws.{Among}
use koorde_dht_web_cache.Routing.{RoutingTable, set_predecessor}
use koorde_dht_web_cache.Membership.{LogicNode, is_candidate, notify, store_local, handle_leave}
use koorde_dht_web_cache.Membership.Laws.{IsOpen, release_old_lem, notify_lem}

module _ {C : Type 0} where
  refuses :
      (r : Resource) (n : LogicNode C) (pred : Node)
      → n.rt.predecessor ≡ some pred
      → between r.key pred.id n.rt.self.id ≡ false
      → store_local r n ≡ (n, false)
  unfolding store_local
  refuses r n pred e outside =
      rw (e, store_local, outside)
        (ap (λ (q : Option Node). (record n { rt = record n.rt { predecessor = q } }, false)) e)

  accepts : (r : Resource) (n : LogicNode C) → n.rt.predecessor ≡ none → (store_local r n).1 ≡ true
  unfolding store_local
  accepts r n e = rw (e, store_local)

  -- After a Notify from another node that is a candidate, at a node whose pool is open with its mutex
  -- free, StoreLocal refuses the resources that started to go to the new predecessor.
  pub store_local-notify :
      (dialed : Option C) (close_fails : C → Bool) (p : Node) (n : LogicNode C) {sp : Space}
      → IsOpen n.pool
      → IsId sp n.rt.self.id
      → IsId sp p.id
      → equal p.id n.rt.self.id ≡ false
      → is_candidate p n ≡ true
      → (next : LogicNode C) (moved : List Resource)
      → notify dialed close_fails (some p) n ≡ some (next, moved)
      → (r : Resource) → IsId sp r.key
      → Among r moved
      → store_local r next ≡ (next, false)
  unfolding set_predecessor
  store_local-notify dialed close_fails p n o hs hp other candidate next moved returns r hr among =
      let (next', moved', returns', same_rt, _, goes) =
        notify_lem dialed close_fails p n o hs hp other candidate r hr in
      let same_next : next' ≡ next = cc (sym returns' ∙ returns) in
      let same_moved : moved' ≡ moved = cc (sym returns' ∙ returns) in
      let rt : next.rt ≡ set_predecessor (some p) n.rt =
        ap (λ (m : LogicNode C). m.rt) (sym same_next) ∙ same_rt in
      let outside = (goes.0 (subst (Among r) (sym same_moved) among)).1 in
      refuses r next p (ap (λ (t : RoutingTable). t.predecessor) rt)
        (ap (λ (t : RoutingTable). between r.key p.id t.self.id) rt ∙ outside)

  -- When the predecessor leaves a node whose pool is open with its mutex free, HandleLeave returns,
  -- the storage stays, and StoreLocal then accepts every resource.
  store_local-handle_leave :
      (close_fails : C → Bool) (leave pred : Node) (n : LogicNode C)
      → IsOpen n.pool
      → n.rt.predecessor ≡ some pred
      → equal leave.id pred.id ≡ true
      → (next : LogicNode C) × (handle_leave close_fails (some leave) n ≡ some next)
        × (next.storage ≡ n.storage)
        × ((r : Resource) → (store_local r next).1 ≡ true)
  unfolding handle_leave set_predecessor
  store_local-handle_leave close_fails leave pred n o found same =
      let n' = record n { rt = set_predecessor none n.rt } in
      let (next, returns, same_rt, same_storage) = release_old_lem close_fails (some leave) n' o in
      (
        next,
        rw (found, handle_leave, same) returns,
        same_storage,
        λ r. accepts r next (ap (λ (t : RoutingTable). t.predecessor) same_rt),
      )
