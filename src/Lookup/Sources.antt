-- ===== src/Lookup/Sources.antt =====
-- Where the node comes from that FindSuccessorStep returns (internal/node/logicnode/operation.go).
use koorde_dht_web_cache.Prelude.{
  ℕ, ◌+◌, ◌-◌, ◌*◌, ◌/◌, ◌%◌, ◌^◌, ◌≡◌, ◌≤◌, Bool, true, false, none, some, get_elem?, Bytes,
  returned, refused,
}
use koorde_dht_web_cache.Domain.Value.{to_big_int}
use koorde_dht_web_cache.Domain.Valid.{IsSpace}
use koorde_dht_web_cache.Domain.Hex.{Node}
use koorde_dht_web_cache.Domain.Ring.{equal, between}
use koorde_dht_web_cache.Routing.{RoutingTable, de_bruijn_list}
use koorde_dht_web_cache.Pool.{ClientPool, done, get_from_pool}
use koorde_dht_web_cache.Rpc.{Stub, remote_step}
use koorde_dht_web_cache.Lookup.Laws.{Stands}
use koorde_dht_web_cache.Membership.Laws.{IsOpen}
use koorde_dht_web_cache.Lookup.FindSuccessor.{Lookup, answer, panicked, blocked, out_of_fuel}

-- A lookup that answers leaves this pool, and the node that it returns, if any, has the property.
unfoldable pub Returns : ClientPool Stub → (Node → Type 0) → Lookup → Type 0
Returns p K (answer st (returned (some n))) = (st.pool ≡ p) × K n
Returns p K (answer st (returned none)) = st.pool ≡ p
Returns p K (answer st (refused e)) = st.pool ≡ p
Returns p K panicked = Unit {0}
Returns p K blocked = Unit {0}
Returns p K out_of_fuel = Unit {0}

-- A node that has a connection in the pool was asked over it for the successor of the target, with an
-- imaginary node and a shifted target, and its answer was the node.
pub record IsAnswer (rt : RoutingTable) (p : ClientPool Stub) (target : Bytes) (d : Node)
    (current_i kshift : Bytes) (n : Node) : Type 0 where
  pub client : Stub
  pub connected : get_from_pool d.addr p ≡ (p, done client)
  pub ended : Bool
  pub answers : remote_step ended client rt.space target current_i kshift ≡ returned (some n)

module _ (rt : RoutingTable) (s : IsSpace rt.space) (p : ClientPool Stub) (succ : Node)
    (target : Bytes) where
  -- The identifiers stand for the next imaginary node, the current one times the degree plus the top
  -- digit of the shifted target, and for what is left of it.
  abbrev pub IsNext : Bytes → Bytes → Bytes × Bytes → Type 0
  IsNext current_i kshift next =
      Stands rt.space
        ((to_big_int current_i * 2 ^ s.digit_bits
            + to_big_int kshift / 2 ^ (rt.space.bits - s.digit_bits))
          % 2 ^ rt.space.bits)
        (to_big_int kshift * 2 ^ s.digit_bits % 2 ^ rt.space.bits) next

  -- How a node is found from an imaginary node and a shifted target.
  pub data IsFound : Bytes → Bytes → Node → Type 0 where
    own_successor :
        {current_i kshift : Bytes}
        → between target rt.self.id succ.id ≡ true
        → IsFound current_i kshift succ
    passed_on :
        {current_i kshift : Bytes} {n : Node}
        → between target rt.self.id succ.id ≡ false
        → between current_i rt.self.id succ.id ≡ false
        → IsAnswer rt p target succ current_i kshift n
        → IsFound current_i kshift n
    hop_to_successor :
        {current_i kshift : Bytes} {n : Node} (next : Bytes × Bytes)
        → between target rt.self.id succ.id ≡ false
        → between current_i rt.self.id succ.id ≡ true
        → IsNext current_i kshift next
        → IsAnswer rt p target succ next.0 next.1 n
        → IsFound current_i kshift n
    hop :
        {current_i kshift : Bytes} {n d : Node} (next : Bytes × Bytes) (index : ℕ)
        → between target rt.self.id succ.id ≡ false
        → between current_i rt.self.id succ.id ≡ true
        → IsNext current_i kshift next
        → equal next.0 current_i ≡ false
        → get_elem? (de_bruijn_list rt) index ≡ some d
        → equal d.id rt.self.id ≡ false
        → IsAnswer rt p target d next.0 next.1 n
        → IsFound current_i kshift n
    hop_to_self :
        {current_i kshift : Bytes} {n : Node} (next : Bytes × Bytes)
        → between target rt.self.id succ.id ≡ false
        → between current_i rt.self.id succ.id ≡ true
        → IsNext current_i kshift next
        → equal next.0 current_i ≡ false
        → IsFound next.0 next.1 n
        → IsFound current_i kshift n

module _ (rt : RoutingTable) (s : IsSpace rt.space) (short : s.digit_bits ≤ 8)
    (fits : s.digit_bits ≤ rt.space.bits) (p : ClientPool Stub) (o : IsOpen p) (succ : Node)
    (target : Bytes) where
  abbrev Found : Bytes → Bytes → Node → Type 0
  Found = IsFound rt s p succ target
