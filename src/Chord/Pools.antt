-- ===== src/Chord/Pools.antt =====
-- No operation of a Chord node changes a pool that is open with its mutex free (internal/node/chord).
use koorde_dht_web_cache.Prelude.{
  ℕ, ◌≡◌, ap, ◌∙◌, inl, inr, arith, Bool, true, false, ◌||◌, Option, none, some, List, [], ◌∷◌,
  if◌then◌else◌, Bytes, bytes_eq, Outcome, ok, err, panic, Result, returned, refused, ltb,
}
use koorde_dht_web_cache.Domain.Hex.{Node, Resource}
use koorde_dht_web_cache.Domain.Ring.{equal, between}
use koorde_dht_web_cache.Pool.{ClientPool, Reply, get_from_pool, dial_ephemeral}
use koorde_dht_web_cache.Membership.Laws.{IsOpen}
use koorde_dht_web_cache.Lookup.Ends.Hops.{get_from_pool-IsOpen}
use koorde_dht_web_cache.Rpc as Client
use koorde_dht_web_cache.Rpc.{Stub}
use koorde_dht_web_cache.Actions.{Run, finishes, panics, stuck, exhausted, ◌>>=◌, Network}
use koorde_dht_web_cache.Chord.Fingers.{first_successor}
use koorde_dht_web_cache.Chord.{
  ChordNode, ChordError, after_reply, pooled, dialed, look_up, at_successor, put, get, delete,
  store_local, ask_peers, join, next_node,
}
use koorde_dht_web_cache.Chord.Stabilization.{
  stabilize, take_list, refresh_successors, fix_finger, finger_target, check_predecessor,
}

-- What a run that finishes leaves has the property.
abbrev pub Leaves : {A : Type 0} → Run A → (A → Type 0) → Type 0
Leaves (finishes a) P = P a
Leaves panics P = Unit {0}
Leaves stuck P = Unit {0}
Leaves exhausted P = Unit {0}

pub then-Leaves :
    {A B : Type 0} {P : A → Type 0} (Q : B → Type 0) (run : Run A) (next : A → Run B)
    → Leaves run P
    → ((a : A) → P a → Leaves (next a) Q)
    → Leaves (run >>= next) Q
then-Leaves Q (finishes a) next h k = k a h
then-Leaves Q panics next h k = tt
then-Leaves Q stuck next h k = tt
then-Leaves Q exhausted next h k = tt

pub if-Leaves :
    {A : Type 0} (Q : A → Type 0) (b : Bool) (x y : Run A)
    → Leaves x Q
    → Leaves y Q
    → Leaves (if b then x else y) Q
if-Leaves Q true x y hx hy = hx
if-Leaves Q false x y hx hy = hy

pub option-Leaves :
    {A V : Type 0} (Q : A → Type 0) (x : Option V) (y : Run A) (f : V → Run A)
    → Leaves y Q
    → ((v : V) → Leaves (f v) Q)
    → Leaves (elim x as (λ z. Run A) [ none ↦ y | some v ↦ f v ]) Q
option-Leaves Q none y f hy hf = hy
option-Leaves Q (some v) y f hy hf = hf v

pub result-Leaves :
    {A E V : Type 0} (Q : A → Type 0) (x : Result E V) (f : V → Run A) (g : E → Run A)
    → ((v : V) → Leaves (f v) Q)
    → ((e : E) → Leaves (g e) Q)
    → Leaves (elim x as (λ z. Run A) [ returned v ↦ f v | refused e ↦ g e ]) Q
result-Leaves Q (returned v) f g hf hg = hf v
result-Leaves Q (refused e) f g hf hg = hg e

pub outcome-Leaves :
    {A : Type 0} (Q : A → Type 0) (x : Outcome Bytes) (f : Bytes → Run A)
    → ((v : Bytes) → Leaves (f v) Q)
    → Leaves (elim x as (λ z. Run A) [ panic ↦ panics | err e ↦ panics | ok v ↦ f v ]) Q
outcome-Leaves Q panic f hf = tt
outcome-Leaves Q (err e) f hf = tt
outcome-Leaves Q (ok v) f hf = hf v

module _ {p : ClientPool Stub} (o : IsOpen p) where
  -- The node has the pool p.
  abbrev pub Has : ChordNode → Type 0
  Has n = n.pool ≡ p

  pub after_reply-Leaves :
      {A : Type 0} (n : ChordNode) (r : ClientPool Stub × Reply A)
      → r.0 ≡ p
      → Leaves (after_reply n r) (λ got. Has got.0)
  unfolding after_reply
  after_reply-Leaves n (pool, Reply.waits) e = tt
  after_reply-Leaves n (pool, Reply.failed x) e = e
  after_reply-Leaves n (pool, Reply.done a) e = e

  pub pooled-Leaves :
      (addr : Bytes) (n : ChordNode) → Has n → Leaves (pooled addr n) (λ got. Has got.0)
  unfolding pooled
  pooled-Leaves addr n h = after_reply-Leaves n _ (
      ap (λ q. (get_from_pool addr q).0) h ∙ elim (get_from_pool-IsOpen addr o) [
        | inl (e, got) ↦ ap (λ (r : ClientPool Stub × Reply Stub). r.0) got
        | inr (conn, got) ↦ ap (λ (r : ClientPool Stub × Reply Stub). r.0) got
      ])

  pub dial_ephemeral_same : (conn : Option Stub) (addr : Bytes) → (dial_ephemeral conn addr p).0 ≡ p
  unfolding dial_ephemeral
  dial_ephemeral_same none addr = ground (arith, o.is_free, o.is_open)
  dial_ephemeral_same (some conn) addr = ground (arith, o.is_free, o.is_open)

  pub dialed-Leaves :
      (net : Network) (addr : Bytes) (n : ChordNode)
      → Has n
      → Leaves (dialed net addr n) (λ got. Has got.0)
  unfolding dialed
  dialed-Leaves net addr n h = after_reply-Leaves n _ (
      ap (λ q. (dial_ephemeral (net.dial addr) addr q).0) h
      ∙ dial_ephemeral_same (net.dial addr) addr)

  pub look_up-Leaves :
      (ended : Bool) (id : Bytes) (n : ChordNode)
      → Has n
      → Leaves (look_up ended id n) (λ got. Has got.0)
  unfolding look_up
  look_up-Leaves ended id n h = option-Leaves _ (first_successor n.rt) _ _ h (λ succ.
      if-Leaves _ (between id n.rt.self.id succ.id || equal id succ.id) _ _ h (
        then-Leaves _ (pooled (next_node n.rt succ id).addr n) _
          (pooled-Leaves (next_node n.rt succ id).addr n h) (λ got hg. hg)))

  pub at_successor-Leaves :
      {A : Type 0} (ended : Bool) (key : Bytes) (here : ChordNode → ChordNode × Result ChordError A)
      (there : Stub → Result ChordError A) (n : ChordNode)
      → ((m : ChordNode) → Has m → Has (here m).0)
      → Has n
      → Leaves (at_successor ended key here there n) (λ got. Has got.0)
  unfolding at_successor
  at_successor-Leaves ended key here there n kept h = if-Leaves _ ended _ _ h (
      then-Leaves _ (look_up ended key n) _ (look_up-Leaves ended key n h) (λ found hf.
        result-Leaves _ found.1 _ _
          (λ node. option-Leaves _ node _ _ tt (λ succ.
            if-Leaves _ (equal succ.id n.rt.self.id) _ _ (kept found.0 hf) (
              then-Leaves _ (pooled succ.addr found.0) _ (pooled-Leaves succ.addr found.0 hf)
                (λ got hg. hg))))
          (λ e. hf)))

  pub ask_peers-Leaves :
      (net : Network) (peers : List Bytes) (n : ChordNode)
      → Has n
      → Leaves (ask_peers net peers n) (λ got. Has got.0)
  unfolding ask_peers
  ask_peers-Leaves net [] n h = h
  ask_peers-Leaves net (addr ∷ peers) n h =
      if-Leaves _ (bytes_eq addr n.rt.self.addr) _ _ (ask_peers-Leaves net peers n h) (
        then-Leaves _ (dialed net addr n) _ (dialed-Leaves net addr n h) (λ got hg.
          option-Leaves _ got.1 _ _ (ask_peers-Leaves net peers got.0 hg) (λ client.
            result-Leaves _ (Client.find_successor_start false client n.rt.space n.rt.self.id) _ _
              (λ node.
                option-Leaves _ node _ _ (ask_peers-Leaves net peers got.0 hg)
                  (λ succ. if-Leaves _ (equal succ.id n.rt.self.id) _ _ hg hg))
              (λ e. ask_peers-Leaves net peers got.0 hg))))

  pub take_list-Has :
      (succ : Node) (client : Stub) (m : ChordNode) → Has m → Has (take_list succ client m)
  unfolding take_list
  take_list-Has succ client m hm = ground (arith, hm)

  pub refresh_successors-Leaves :
      (succ : Node) (n : ChordNode) → Has n → Leaves (refresh_successors succ n) Has
  unfolding refresh_successors
  refresh_successors-Leaves succ n h =
      then-Leaves _ (pooled succ.addr n) _ (pooled-Leaves succ.addr n h) (λ got hg.
        option-Leaves _ got.1 _ _ hg (λ client.
          result-Leaves _ (Client.notify false client (some n.rt.self)) _ _
            (λ u. take_list-Has succ client got.0 hg) (λ e. take_list-Has succ client got.0 hg)))

  pub stabilize-Leaves : (n : ChordNode) → Has n → Leaves (stabilize n) Has
  unfolding stabilize
  stabilize-Leaves n h = option-Leaves _ (first_successor n.rt) _ _ h (λ succ.
      then-Leaves _ (pooled succ.addr n) _ (pooled-Leaves succ.addr n h) (λ got hg.
        option-Leaves _ got.1 _ _ hg (λ client.
          result-Leaves _ (Client.get_predecessor false client n.rt.space) _ _
            (λ x. refresh_successors-Leaves _ _ hg) (λ e. hg))))

  pub fix_finger-Leaves : (i : ℕ) (n : ChordNode) → Has n → Leaves (fix_finger i n) Has
  unfolding fix_finger
  fix_finger-Leaves i n h =
      if-Leaves _ (ltb i n.rt.space.bits) _ _
        (outcome-Leaves _ (finger_target n.rt.space n.rt.self.id i) _ (λ target.
          then-Leaves _ (look_up false target n) _ (look_up-Leaves false target n h)
            (λ found hf. ground (arith, hf))))
        h

  pub check_predecessor-Leaves : (n : ChordNode) → Has n → Leaves (check_predecessor n) Has
  unfolding check_predecessor
  check_predecessor-Leaves n h = option-Leaves _ n.rt.predecessor _ _ h (λ pred.
      then-Leaves _ (pooled pred.addr n) _ (pooled-Leaves pred.addr n h) (λ got hg.
        option-Leaves _ got.1 _ _ hg
          (λ client. result-Leaves _ (Client.ping false client) _ _ (λ u. hg) (λ e. hg))))

  pub join-Leaves :
      (net : Network) (peers : List Bytes) (n : ChordNode)
      → Has n
      → Leaves (join net peers n) (λ got. Has got.0)
  unfolding join
  join-Leaves net [] n h = h
  join-Leaves net (addr ∷ peers) n h =
      then-Leaves _ (ask_peers net (addr ∷ peers) n) _ (ask_peers-Leaves net (addr ∷ peers) n h)
        (λ asked ha. ground (arith, ha))

  pub put-Leaves :
      (ended : Bool) (res : Resource) (n : ChordNode)
      → Has n
      → Leaves (put ended res n) (λ got. Has got.0)
  unfolding put
  put-Leaves ended res n h =
      at_successor-Leaves ended res.key _ _ n (λ m hm. unfold store_local in hm) h

  pub get-Leaves :
      (ended : Bool) (id : Bytes) (n : ChordNode)
      → Has n
      → Leaves (get ended id n) (λ got. Has got.0)
  unfolding get
  get-Leaves ended id n h = at_successor-Leaves ended id _ _ n (λ m hm. hm) h

  pub delete-Leaves :
      (ended : Bool) (id : Bytes) (n : ChordNode)
      → Has n
      → Leaves (delete ended id n) (λ got. Has got.0)
  unfolding delete
  delete-Leaves ended id n h = at_successor-Leaves ended id _ _ n (λ m hm. hm) h
