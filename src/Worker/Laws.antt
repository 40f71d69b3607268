-- ===== src/Worker/Laws.antt =====
-- The stabilizers of a node finish, and never leave it without a successor.
use koorde_dht_web_cache.Prelude.{
  ℕ, zero, suc, ◌-◌, ◌≤◌, ◌≡◌, refl, ◌⊎◌, sym, ap, arith, false, Option, none, some, List, [], ◌∷◌,
  Option-cases, Bool-cases, inl, inr, length, length-replicate, pos, Bytes,
}
use koorde_dht_web_cache.Prelude.Maps.{lookup}
use koorde_dht_web_cache.Domain.Hex.{Node}
use koorde_dht_web_cache.Domain.Ring.{equal}
use koorde_dht_web_cache.Routing.{
  RoutingEntries, RoutingTable, first_successor, get_successor, set_successor, successor_list,
  de_bruijn_list, promote_candidate,
}
use koorde_dht_web_cache.Routing.Laws.{IsSized}
use koorde_dht_web_cache.Routing.Standing.{
  IsStanding, some_in_range, set_successor-IsStanding, set_successor_list-IsStanding,
  promote_candidate-IsStanding, init_single_node-IsStanding, set_predecessor-IsStanding,
}
use mathlib.Core.Path.{subst}
use koorde_dht_web_cache.Membership.Laws.{IsOpen}
use koorde_dht_web_cache.Rpc as Client
use koorde_dht_web_cache.Actions.{Network, KoordeNode}
use koorde_dht_web_cache.Actions.Laws.{
  Finishes, result-Finishes, Kept, then-Finishes, if-Finishes, option-Finishes, pooled-Finishes,
  keep_address-Finishes, drop_address-Finishes,
}
use koorde_dht_web_cache.Worker.{
  with_table, find_candidate, drop_all, drop_predecessor, revert_to_single, notify_successor,
  replace_successor, switch_to, adopt_predecessor, continue_with, stabilize_successor, fill_list,
  address_set, keep_new, drop_gone, exchange, fix_successor_list, check_predecessor,
  stabilizer_tick, stabilizer_loop,
}

-- The node has a first successor, and its pool is open with its mutex free.
pub record IsActive (n : KoordeNode) : Type 0 where
  pub table : IsStanding n.rt
  pub pool : IsOpen n.pool

Kept-IsActive : {n m : KoordeNode} → IsActive n → Kept n m → IsActive m
Kept-IsActive a k = record { table = subst IsStanding (sym k.rt) a.table; pool = k.pool }

set_table :
    (m : KoordeNode) (rt : RoutingTable)
    → IsOpen m.pool
    → IsStanding rt
    → IsActive (with_table rt m)
unfolding with_table
set_table m rt o st = record { table = st; pool = o }

drop_all-Finishes :
    (net : Network) (nodes : List Node) (n : KoordeNode)
    → IsOpen n.pool
    → Finishes (drop_all net nodes n) (λ m. IsOpen m.pool)
unfolding drop_all
drop_all-Finishes net [] n o = (n, refl, o)
drop_all-Finishes net (nd ∷ nodes) n o =
    then-Finishes _ (drop_address-Finishes n o net nd.addr)
      (λ m kept. drop_all-Finishes net nodes m kept.pool)

drop_predecessor-Finishes :
    (net : Network) (pred : Option Node) (n : KoordeNode)
    → IsOpen n.pool
    → Finishes (drop_predecessor net pred n) (λ m. IsOpen m.pool)
unfolding drop_predecessor
drop_predecessor-Finishes net none n o = (n, refl, o)
drop_predecessor-Finishes net (some pred) n o =
    let (m, e, kept) = drop_address-Finishes n o net pred.addr in (m, e, kept.pool)

revert_to_single-IsActive :
    (net : Network) (n : KoordeNode) → IsActive n → Finishes (revert_to_single net n) IsActive
unfolding revert_to_single
revert_to_single-IsActive net n a =
    let some_size =
      some_in_range n.rt 0 {n = a.table.succ} (unfold first_successor in a.table.first) in
    then-Finishes _ (drop_predecessor-Finishes net n.rt.predecessor n a.pool) (λ x ox.
      then-Finishes _ (drop_all-Finishes net (successor_list n.rt) x ox) (λ y oy.
        then-Finishes _ (drop_all-Finishes net (de_bruijn_list n.rt) y oy) (λ z oz.
          (_, refl, set_table z _ oz (init_single_node-IsStanding a.table.sized some_size)))))

notify_successor-IsActive :
    (succ : Node) (n : KoordeNode) → IsActive n → Finishes (notify_successor succ n) IsActive
unfolding notify_successor
notify_successor-IsActive succ n a =
    if-Finishes _ (equal succ.id n.rt.self.id) (n, refl, a)
      (then-Finishes _ (pooled-Finishes n a.pool succ.addr) (λ got kept.
        option-Finishes _ got.1 (got.0, refl, Kept-IsActive a kept)
          (λ client.
            result-Finishes _ (Client.notify false client (some n.rt.self))
              (λ u. (got.0, refl, Kept-IsActive a kept))
              (λ e. (got.0, refl, Kept-IsActive a kept)))))

-- A candidate that is found is a successor with an index of at least i.
find_candidate_lem :
    (i left : ℕ) (rt : RoutingTable)
    → (find_candidate i left rt ≡ none)
      ⊎ ((j : ℕ) × (c : Node) × (find_candidate i left rt ≡ some (j, c))
          × (i ≤ j)
          × (get_successor (pos j) rt ≡ some c))
unfolding find_candidate
find_candidate_lem i zero rt = inl refl
find_candidate_lem i (suc left) rt = elim (Option-cases (get_successor (pos i) rt)) [
  | inl missing ↦ elim (find_candidate_lem (suc i) left rt) [
    | inl e ↦ inl (rw (missing, find_candidate) e)
    | inr (j, c, e, le, here) ↦ inr (j, c, rw (missing, find_candidate) e, omega arith, here)
  ]
  | inr (c, found) ↦ inr (i, c, rw (found, find_candidate) refl, omega arith, found)
]

promoted-IsStanding :
    (j : ℕ) (c : Node) {rt : RoutingTable}
    → IsSized rt
    → 1 ≤ j
    → get_successor (pos j) rt ≡ some c
    → IsStanding (promote_candidate (pos j) rt)
promoted-IsStanding zero c s h e = absurd (omega arith)
promoted-IsStanding (suc j) c s h e = promote_candidate-IsStanding j c s e

replace_successor-IsActive :
    (net : Network) (succ : Node) (n : KoordeNode)
    → IsActive n
    → Finishes (replace_successor net succ n) IsActive
unfolding replace_successor
replace_successor-IsActive net succ n a =
    elim (find_candidate_lem 1 (n.rt.space.succ_list_size - 1) n.rt) [
      | inl missing ↦ rw (missing, replace_successor) (revert_to_single-IsActive net n a)
      | inr (j, c, found, le, here) ↦
          let next : IsActive (with_table (promote_candidate (pos j) n.rt) n) =
            set_table n _ a.pool (promoted-IsStanding j c a.table.sized le here) in
          rw (found, replace_successor)
            (then-Finishes _
              (drop_address-Finishes (with_table (promote_candidate (pos j) n.rt) n) next.pool net
                succ.addr)
              (λ m kept. notify_successor-IsActive c m (Kept-IsActive next kept)))
    ]

switch_to-IsActive :
    (net : Network) (succ pred : Node) (n : KoordeNode)
    → IsActive n
    → Finishes (switch_to net succ pred n) IsActive
unfolding switch_to
switch_to-IsActive net succ pred n a =
    then-Finishes _ (keep_address-Finishes n a.pool net pred.addr) (λ added kept.
      let next = set_table added _ kept.pool (set_successor-IsStanding pred a.table) in
      then-Finishes _
        (drop_address-Finishes (with_table (set_successor (pos 0) (some pred) n.rt) added) next.pool
          net succ.addr)
        (λ m kept'. notify_successor-IsActive pred m (Kept-IsActive next kept')))

continue_with-IsActive :
    (net : Network) (succ : Node) (pred : Option Node) (n : KoordeNode)
    → IsActive n
    → Finishes (continue_with net succ pred n) IsActive
unfolding continue_with adopt_predecessor
continue_with-IsActive net succ none n a = replace_successor-IsActive net succ n a
continue_with-IsActive net succ (some pred) n a =
    if-Finishes _ _ (switch_to-IsActive net succ pred n a) (notify_successor-IsActive succ n a)

stabilize_successor-IsActive :
    (net : Network) (n : KoordeNode) → IsActive n → Finishes (stabilize_successor net n) IsActive
unfolding stabilize_successor
stabilize_successor-IsActive net n a =
    option-Finishes _ (first_successor n.rt) (n, refl, a)
      (λ succ.
        if-Finishes _ (equal succ.id n.rt.self.id)
          (continue_with-IsActive net succ n.rt.predecessor n a)
          (then-Finishes _ (pooled-Finishes n a.pool succ.addr) (λ got kept.
            option-Finishes _ got.1 (got.0, refl, Kept-IsActive a kept)
              (λ client. continue_with-IsActive net succ _ got.0 (Kept-IsActive a kept)))))

keep_new-Finishes :
    (net : Network) (new old : List (Bytes × Node)) (n : KoordeNode)
    → IsOpen n.pool
    → Finishes (keep_new net new old n) (λ m. IsOpen m.pool)
unfolding keep_new
keep_new-Finishes net [] old n o = (n, refl, o)
keep_new-Finishes net ((addr, nd) ∷ new) old n o =
    option-Finishes _ (lookup addr old)
      (then-Finishes _ (keep_address-Finishes n o net addr)
        (λ m kept. keep_new-Finishes net new old m kept.pool))
      (λ x. keep_new-Finishes net new old n o)

drop_gone-IsActive :
    (net : Network) (old new : List (Bytes × Node)) (n : KoordeNode)
    → IsActive n
    → Finishes (drop_gone net old new n) IsActive
unfolding drop_gone
drop_gone-IsActive net [] new n a = (n, refl, a)
drop_gone-IsActive net ((addr, nd) ∷ old) new n a =
    option-Finishes _ (lookup addr new)
      (then-Finishes _ (drop_address-Finishes n a.pool net addr)
        (λ m kept. drop_gone-IsActive net old new m (Kept-IsActive a kept)))
      (λ x. drop_gone-IsActive net old new n a)

pub exchange-IsActive :
    (net : Network) (old new : List Node) (rt : RoutingTable) (n : KoordeNode)
    → IsOpen n.pool
    → IsStanding rt
    → Finishes (exchange net old new rt n) IsActive
unfolding exchange
exchange-IsActive net old new rt n o st =
    then-Finishes _ (keep_new-Finishes net (address_set new) (address_set old) n o) (λ m om.
      drop_gone-IsActive net (address_set old) (address_set new) (with_table rt m)
        (set_table m rt om st))

length-fill_list :
    (left : ℕ) (self : Node) (remote : RoutingEntries) → length (fill_list left self remote) ≡ left
unfolding fill_list
length-fill_list zero self remote = refl
length-fill_list (suc left) self [] = length-replicate (suc left) none
length-fill_list (suc left) self (none ∷ remote) = ap suc (length-fill_list left self remote)
length-fill_list (suc left) self (some nd ∷ remote) = elim (Bool-cases (equal nd.id self.id)) [
  | inl same ↦ rw same (length-replicate (suc left) none)
  | inr other ↦ rw other (ap suc (length-fill_list left self remote))
]

fix_successor_list-IsActive :
    (net : Network) (n : KoordeNode) → IsActive n → Finishes (fix_successor_list net n) IsActive
unfolding fix_successor_list
fix_successor_list-IsActive net n a =
    let some_size =
      some_in_range n.rt 0 {n = a.table.succ} (unfold first_successor in a.table.first) in
    option-Finishes _ (first_successor n.rt) (n, refl, a)
      (λ succ.
        if-Finishes _ (equal succ.id n.rt.self.id) (n, refl, a)
          (then-Finishes _ (pooled-Finishes n a.pool succ.addr) (λ got kept.
            option-Finishes _ got.1 (got.0, refl, Kept-IsActive a kept)
              (λ client.
                result-Finishes _ (Client.get_successor_list false client n.rt.space)
                  (λ remote. exchange-IsActive net _ _ _ got.0 kept.pool (
                    set_successor_list-IsStanding succ _ a.table.sized (
                      omega (
                        arith,
                        some_size,
                        length-fill_list (n.rt.space.succ_list_size - 1) n.rt.self remote,
                      ))))
                  (λ e. (got.0, refl, Kept-IsActive a kept))))))

check_predecessor-IsActive :
    (net : Network) (n : KoordeNode) → IsActive n → Finishes (check_predecessor net n) IsActive
unfolding check_predecessor
check_predecessor-IsActive net n a =
    let cleared = set_predecessor-IsStanding none a.table in
    option-Finishes _ n.rt.predecessor (n, refl, a)
      (λ pred.
        if-Finishes _ (equal pred.id n.rt.self.id) (n, refl, a)
          (then-Finishes _ (pooled-Finishes n a.pool pred.addr) (λ got kept.
            option-Finishes _ got.1 (_, refl, set_table got.0 _ kept.pool cleared)
              (λ client.
                result-Finishes _ (Client.ping false client)
                  (λ u. (got.0, refl, Kept-IsActive a kept))
                  (λ e.
                    then-Finishes _ (drop_address-Finishes got.0 kept.pool net pred.addr)
                      (λ m kept'. (_, refl, set_table m _ kept'.pool cleared)))))))

-- At a node with a first successor and an open pool whose mutex is free, any number of ticks of the
-- successor and predecessor maintenance finishes, whatever the network does at each tick, and leaves a
-- table of the right sizes with a first successor, and the pool open with its mutex free.
pub stabilizer_loop-IsActive :
    (nets : List Network) (n : KoordeNode) → IsActive n → Finishes (stabilizer_loop nets n) IsActive
unfolding stabilizer_loop stabilizer_tick
stabilizer_loop-IsActive [] n a = (n, refl, a)
stabilizer_loop-IsActive (net ∷ later) n a =
    then-Finishes _
      (then-Finishes _ (stabilize_successor-IsActive net n a) (λ x ax.
        then-Finishes _ (fix_successor_list-IsActive net x ax)
          (λ y ay. check_predecessor-IsActive net y ay)))
      (λ m am. stabilizer_loop-IsActive later m am)
