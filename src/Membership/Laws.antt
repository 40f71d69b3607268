-- ===== src/Membership/Laws.antt =====
-- What Notify does to a node whose pool is open.
use koorde_dht_web_cache.Prelude.{
  ◌≡◌, ◌↔◌, ◌≢◌, refl, sym, ap, ◌∙◌, arith, Bool, true, false, not, Option, none, some, List, [],
  Bytes, bytes_eq, bytes_eq_iff, ltb, ◌-◌, Bool-cases, Option-cases, inl, inr,
}
use koorde_dht_web_cache.Prelude.Maps.{lookup}
use koorde_dht_web_cache.Domain.Space.{Space}
use koorde_dht_web_cache.Domain.Valid.{IsId}
use koorde_dht_web_cache.Domain.Hex.{Node, Resource}
use koorde_dht_web_cache.Domain.Ring.{equal, between, between_partition}
use koorde_dht_web_cache.Storage.{Storage, between_keys, all}
use koorde_dht_web_cache.Storage.Laws.{Among, between_keys_iff}
use koorde_dht_web_cache.Routing.{RoutingTable, set_predecessor}
use koorde_dht_web_cache.Pool.{ClientPool, when_open, add_ref, release}
use koorde_dht_web_cache.Membership.{LogicNode, unless_waiting, is_candidate, release_old, notify}

-- The pool is open and its mutex is free.
pub record IsOpen {C : Type 0} (p : ClientPool C) : Type 0 where
  pub is_open : p.closed ≡ false
  pub is_free : p.locked ≡ false

-- The resources that Between(self, p) lists are those that a node between p and self does not own.
not_owned :
    {sp : Space} {self p : Bytes}
    → IsId sp self
    → IsId sp p
    → self ≢ p
    → (storage : Storage) (r : Resource) → IsId sp r.key
    → Among r (between_keys self p storage)
      ↔ (Among r (all storage) × (between r.key p self ≡ false))
not_owned {sp} {self} {p} hs hp ne storage r hr =
    let listed = between_keys_iff self p r storage in
    let halves = between_partition hr hp hs (λ e. ne (sym e)) in
    (
      λ a. ((listed.0 a).0, ground (arith, (listed.0 a).1, halves)),
      λ a. listed.1 (a.0, halves ∙ ap not a.1),
    )

module _ {C : Type 0} where
  add_ref-IsOpen :
      (dialed : Option C) (addr : Bytes) {p : ClientPool C} {X : Type 0} (next : Option X)
      → IsOpen p
      → IsOpen (add_ref dialed addr p).0 × (unless_waiting (add_ref dialed addr p).1 next ≡ next)
  unfolding add_ref when_open unless_waiting
  add_ref-IsOpen dialed addr {p} next o = elim (Bool-cases (bytes_eq addr [])) [
    | inl empty ↦ rw empty (o, refl)
    | inr named ↦ elim (Bool-cases (bytes_eq addr p.self_addr)) [
      | inl own ↦ rw (named, own) (o, refl)
      | inr peer ↦
          rw (named, peer, o.is_free, o.is_open)
            (elim (Option-cases (lookup addr p.clients)) [
              | inr (rc, found) ↦
                  rw (found, add_ref) (record { is_open = o.is_open; is_free = o.is_free }, refl)
              | inl missing ↦ elim (Option-cases dialed) [
                | inl nothing ↦ rw (missing, nothing, add_ref) (o, refl)
                | inr (conn, dials) ↦
                    rw (missing, dials, add_ref)
                      (record { is_open = o.is_open; is_free = o.is_free }, refl)
              ]
            ])
    ]
  ]

  release-IsOpen :
      (close_fails : C → Bool) (addr : Bytes) {p : ClientPool C} {X : Type 0} (next : Option X)
      → IsOpen p
      → unless_waiting (release close_fails addr p).1 next ≡ next
  unfolding release when_open unless_waiting
  release-IsOpen close_fails addr {p} next o = elim (Bool-cases (bytes_eq addr [])) [
    | inl empty ↦ rw empty refl
    | inr named ↦
        rw (named, o.is_free, o.is_open)
          (elim (Option-cases (lookup addr p.clients)) [
            | inl missing ↦ rw (missing, release) refl
            | inr (rc, found) ↦ elim (Bool-cases (ltb 0 (rc.refs - 1))) [
              | inl stays ↦ rw (found, release, stays) refl
              | inr last ↦ elim (Bool-cases (close_fails rc.conn)) [
                | inl fails ↦ rw (found, release, last, fails) refl
                | inr closes ↦ rw (found, release, last, closes) refl
              ]
            ]
          ])
  ]

  -- Releasing the old predecessor changes the pool only, and does not wait.
  pub release_old_lem :
      (close_fails : C → Bool) (pred : Option Node) (n : LogicNode C)
      → IsOpen n.pool
      → (next : LogicNode C) × (release_old close_fails pred n ≡ some next)
        × (next.rt ≡ n.rt)
        × (next.storage ≡ n.storage)
  unfolding release_old
  release_old_lem close_fails none n o = (n, refl, refl, refl)
  release_old_lem close_fails (some pred) n o =
      let next = record n { pool = (release close_fails pred.addr n.pool).0 } in
      (next, release-IsOpen close_fails pred.addr (some next) o, refl, refl)

  -- A Notify from another node p that is a candidate, at a node whose pool is open with its mutex
  -- free, returns: p becomes the predecessor, the storage stays, and what starts to go to p are the
  -- stored resources with identifiers as keys that do not lie in (p, self], and no others.
  pub notify_lem :
      (dialed : Option C) (close_fails : C → Bool) (p : Node) (n : LogicNode C) {sp : Space}
      → IsOpen n.pool
      → IsId sp n.rt.self.id
      → IsId sp p.id
      → equal p.id n.rt.self.id ≡ false
      → is_candidate p n ≡ true
      → (r : Resource) → IsId sp r.key
      → (next : LogicNode C) × (moved : List Resource) × (notify dialed close_fails (some p) n
          ≡ some (next, moved))
        × (next.rt ≡ set_predecessor (some p) n.rt)
        × (next.storage ≡ n.storage)
        × (Among r moved ↔ (Among r (all n.storage) × (between r.key p.id n.rt.self.id ≡ false)))
  unfolding notify set_predecessor equal
  notify_lem dialed close_fails p n {sp} o hs hp other candidate r hr =
      let added = add_ref dialed p.addr n.pool in
      let n' = record n { pool = added.0; rt = set_predecessor (some p) n.rt } in
      let o' = (add_ref-IsOpen dialed p.addr (some n) o).0 in
      let (next, released, same_rt, same_storage) =
        release_old_lem close_fails n.rt.predecessor n' o' in
      let moved = between_keys n.rt.self.id p.id n.storage in
      (
        next,
        moved,
        rw (other, candidate, released)
            ((add_ref-IsOpen dialed p.addr (some (next, sent next)) o).1
              ∙ ap (λ (m : List Resource). some (next, m)) (same_sent next same_rt same_storage)),
        same_rt,
        same_storage,
        not_owned hs hp (λ e. absurd (cc (sym other ∙ same_id e))) n.storage r hr,
      )
    where
      sent : LogicNode C → List Resource
      sent next = between_keys next.rt.self.id p.id next.storage

      same_sent :
          (next : LogicNode C)
          → next.rt ≡ set_predecessor (some p) n.rt
          → next.storage ≡ n.storage
          → sent next ≡ between_keys n.rt.self.id p.id n.storage
      same_sent next e f =
          ap (λ (t : RoutingTable). between_keys t.self.id p.id next.storage) e
          ∙ ap (λ (st : Storage). between_keys n.rt.self.id p.id st) f

      same_id : n.rt.self.id ≡ p.id → equal p.id n.rt.self.id ≡ true
      same_id e = (bytes_eq_iff p.id n.rt.self.id).1 (sym e)
