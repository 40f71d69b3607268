-- ===== src/Actions/Laws.antt =====
-- At a node that is ready, its lookups and the calls of its pool finish.
use koorde_dht_web_cache.Prelude.{
  ◌≤◌, ◌≡◌, refl, sym, ap, ◌∙◌, inl, inr, arith, Bool, true, false, Option, none, some, Bytes,
  if◌then◌else◌, Result, returned, refused,
}
use mathlib.Core.Path.{subst}
use koorde_dht_web_cache.Domain.Valid.{IsSpace, IsId}
use koorde_dht_web_cache.Domain.Value.{to_big_int}
use koorde_dht_web_cache.Domain.Hex.{Node}
use koorde_dht_web_cache.Routing.{RoutingTable, first_successor, de_bruijn_list}
use koorde_dht_web_cache.Pool.{ClientPool, Reply, dial_ephemeral}
use koorde_dht_web_cache.Membership.Laws.{IsOpen}
use koorde_dht_web_cache.Rpc.{Stub}
use koorde_dht_web_cache.Lookup.FindSuccessor.{Lookup, find_successor_step}
use koorde_dht_web_cache.Lookup.NextHop.Found.{AllIds}
use koorde_dht_web_cache.Lookup.Ends.{find_successor_init-Answers, find_successor_step-Answers}
use koorde_dht_web_cache.Lookup.Ends.Fuel.{Clears-all}
use koorde_dht_web_cache.Lookup.Ends.Hops.{Answers}
use koorde_dht_web_cache.Actions.Replies.{
  Replies, get_from_pool-Replies, add_ref-Replies, release-Replies, dial_ephemeral-Replies,
}
use koorde_dht_web_cache.Actions.{
  Run, finishes, ◌>>=◌, Network, KoordeNode, after_reply, pooled, pooled_or_dialed, keep_address,
  drop_address, lookup_fuel, after_lookup, find_successor,
}

-- A routing table that lookups can start from.
pub record IsRouting (rt : RoutingTable) : Type 0 where
  pub space : IsSpace rt.space
  pub short : space.digit_bits ≤ 8
  pub fits : space.digit_bits ≤ rt.space.bits
  pub self : IsId rt.space rt.self.id
  pub succ : Node
  pub first : first_successor rt ≡ some succ
  pub succ_id : IsId rt.space succ.id
  pub hops : AllIds rt.space (de_bruijn_list rt)

-- The run finishes with a value that has the property.
abbrev pub Finishes : {A : Type 0} → Run A → (A → Type 0) → Type 0
Finishes {A} run P = (a : A) × (run ≡ finishes a) × P a

-- The same routing table and storage, and a pool that is open with its mutex free.
pub record Kept (n m : KoordeNode) : Type 0 where
  pub rt : m.rt ≡ n.rt
  pub storage : m.storage ≡ n.storage
  pub pool : IsOpen m.pool

pub after_lookup-Finishes :
    (n : KoordeNode) (l : Lookup)
    → Answers l
    → Finishes (after_lookup n l) (λ found. Kept n found.node)
unfolding after_lookup
after_lookup-Finishes n l (st, r, e, o) = (
  record { node = record n { pool = st.pool }; ended = st.ended; result = r },
  ap (after_lookup n) e,
  record { rt = refl; storage = refl; pool = o },
)

-- Two runs, one after the other.
pub then-Finishes :
    {A B : Type 0} {P : A → Type 0} (Q : B → Type 0) {run : Run A} {next : A → Run B}
    → Finishes run P
    → ((a : A) → P a → Finishes (next a) Q)
    → Finishes (run >>= next) Q
then-Finishes Q {next = next} (a, e, pa) h = subst (λ r. Finishes (r >>= next) Q) (sym e) (h a pa)

pub if-Finishes :
    {A : Type 0} (Q : A → Type 0) (b : Bool) {x y : Run A}
    → Finishes x Q
    → Finishes y Q
    → Finishes (if b then x else y) Q
if-Finishes Q true hx hy = hx
if-Finishes Q false hx hy = hy

pub choose-Finishes :
    {A : Type 0} (Q : A → Type 0) (b : Bool) {x y : Run A}
    → (b ≡ true → Finishes x Q)
    → (b ≡ false → Finishes y Q)
    → Finishes (if b then x else y) Q
choose-Finishes Q true hx hy = hx refl
choose-Finishes Q false hx hy = hy refl

pub option-Finishes :
    {A V : Type 0} (Q : A → Type 0) (x : Option V) {y : Run A} {f : V → Run A}
    → Finishes y Q
    → ((v : V) → Finishes (f v) Q)
    → Finishes (elim x as (λ z. Run A) [ none ↦ y | some v ↦ f v ]) Q
option-Finishes Q none hy hf = hy
option-Finishes Q (some v) hy hf = hf v

pub result-Finishes :
    {A V E : Type 0} (Q : A → Type 0) (x : Result E V) {f : V → Run A} {g : E → Run A}
    → ((v : V) → Finishes (f v) Q)
    → ((e : E) → Finishes (g e) Q)
    → Finishes (elim x as (λ z. Run A) [ returned v ↦ f v | refused e ↦ g e ]) Q
result-Finishes Q (returned v) hf hg = hf v
result-Finishes Q (refused e) hf hg = hg e

pub Kept-trans : {a b c : KoordeNode} → Kept a b → Kept b c → Kept a c
Kept-trans h k = record { rt = k.rt ∙ h.rt; storage = k.storage ∙ h.storage; pool = k.pool }

after_reply-Finishes :
    {A : Type 0} (n : KoordeNode) (r : ClientPool Stub × Reply A)
    → Replies r
    → Finishes (after_reply n r) (λ got. Kept n got.0)
unfolding after_reply
after_reply-Finishes n r (p, o, inl (a, e)) = (
  (record n { pool = p }, some a),
  ap (after_reply n) e,
  record { rt = refl; storage = refl; pool = o },
)
after_reply-Finishes n r (p, o, inr (x, e)) = (
  (record n { pool = p }, none),
  ap (after_reply n) e,
  record { rt = refl; storage = refl; pool = o },
)

module _ (n : KoordeNode) (o : IsOpen n.pool) where
  pub pooled-Finishes : (addr : Bytes) → Finishes (pooled addr n) (λ got. Kept n got.0)
  unfolding pooled
  pooled-Finishes addr = after_reply-Finishes n _ (get_from_pool-Replies o addr)

  pub keep_address-Finishes :
      (net : Network) (addr : Bytes) → Finishes (keep_address net addr n) (λ m. Kept n m)
  unfolding keep_address
  keep_address-Finishes net addr =
      then-Finishes _ (after_reply-Finishes n _ (add_ref-Replies o (net.dial addr) addr))
        (λ got kept. (got.0, refl, kept))

  pub drop_address-Finishes :
      (net : Network) (addr : Bytes) → Finishes (drop_address net addr n) (λ m. Kept n m)
  unfolding drop_address
  drop_address-Finishes net addr =
      then-Finishes _ (after_reply-Finishes n _ (release-Replies o net.close_fails addr))
        (λ got kept. (got.0, refl, kept))

  pub pooled_or_dialed-Finishes :
      (net : Network) (addr : Bytes) → Finishes (pooled_or_dialed net addr n) (λ got. Kept n got.0)
  unfolding pooled_or_dialed
  pooled_or_dialed-Finishes net addr = then-Finishes _ (pooled-Finishes addr) (λ got kept.
      option-Finishes _ got.1 (dial got.0 kept) (λ client. ((got.0, some client), refl, kept)))
    where
      dial :
          (m : KoordeNode)
          → Kept n m
          → Finishes
              (after_reply m (dial_ephemeral (net.dial addr) addr m.pool))
              (λ got. Kept n got.0)
      dial m kept =
          let (got, e, k) =
            after_reply-Finishes m _ (dial_ephemeral-Replies kept.pool (net.dial addr) addr) in
          (got, e, Kept-trans kept k)

module _ (n : KoordeNode) (ready : IsRouting n.rt) (o : IsOpen n.pool) where
  pub find_successor-Finishes :
      (ended : Bool) (target : Bytes)
      → IsId n.rt.space target
      → Finishes (find_successor ended target n) (λ found. Kept n found.node)
  unfolding find_successor
  find_successor-Finishes ended target it = after_lookup-Finishes n _ (
      find_successor_init-Answers n.rt ready.space ready.short ready.fits ready.hops ready.self
        ready.succ_id (lookup_fuel n.rt.space) target ready.first it (omega arith) _ o)

  pub step-Finishes :
      (ended : Bool) (target i k : Bytes)
      → IsId n.rt.space i
      → IsId n.rt.space k
      → Finishes
          (after_lookup n (
            find_successor_step
              (lookup_fuel n.rt.space)
              n.rt
              target
              i
              k
              (record { pool = n.pool; ended = ended })))
          (λ found. Kept n found.node)
  step-Finishes ended target i k ii ik = after_lookup-Finishes n _ (
      find_successor_step-Answers n.rt ready.space ready.short ready.fits ready.hops
        (lookup_fuel n.rt.space) target i k ii ik
        (inl (n.rt.space.bits, Clears-all n.rt.space.bits (to_big_int k), omega arith)) _ o)
