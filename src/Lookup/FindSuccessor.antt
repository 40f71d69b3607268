-- ===== src/Lookup/FindSuccessor.antt =====
-- internal/node/logicnode/operation.go: FindSuccessorInit, FindSuccessorStep, HandleFindSuccessor and
-- LookUp. A lookup reads the routing table, which does not change while it runs; what changes is the
-- pool, and whether the caller's context has ended. The connections are stubs (Rpc.antt). The log and
-- the statistics are not modelled.
-- A node may be its own next hop; FindSuccessorStep then calls itself. The calls are counted by fuel,
-- and Lookup/Ends.antt says how much is enough.
use koorde_dht_web_cache.Prelude.{
  ℕ, zero, suc, ◌==◌, Bool, true, false, ◌||◌, Option, none, some, List, if◌then◌else◌, length,
  get_elem?, Bytes, ℤ, pos, negsuc, ok, err, panic, Result, returned, refused,
}
use koorde_dht_web_cache.Domain.Hex.{Node}
use koorde_dht_web_cache.Domain.Ring.{equal, between}
use koorde_dht_web_cache.Domain.Imaginary.{best_imaginary}
use koorde_dht_web_cache.Routing.{RoutingTable, first_successor, de_bruijn_list, some_entries}
use koorde_dht_web_cache.Pool.{ClientPool, Reply, done, failed, waits, get_from_pool}
use koorde_dht_web_cache.Rpc.{
  Stub, ClientError, rpc_failed, FindSuccessorRequest, step, remote_step,
}
use koorde_dht_web_cache.Lookup.{imaginary_step}
use koorde_dht_web_cache.Lookup.NextHop.{find_next_hop}

-- `ctx.Err()` is context_ended; a call that begins in an ended context gets request_ended.
pub data LookupError : Type 0 where
  context_ended request_ended not_initialized no_imaginary infinite_loop : LookupError
  no_connection no_successor : LookupError
  remote : ClientError → LookupError

pub record LookupState : Type 0 where
  pub pool : ClientPool Stub
  pub ended : Bool

-- A lookup answers, panics, waits for the pool for ever, or has used up its fuel.
pub data Lookup : Type 0 where
  answer : LookupState → Result LookupError (Option Node) → Lookup
  panicked blocked out_of_fuel : Lookup

unfoldable pub remote_answer : Result ClientError (Option Node) → Result LookupError (Option Node)
remote_answer (returned node) = returned node
remote_answer (refused e) = refused (remote e)

-- client.FindSuccessorStep on a connection, and the context after it.
unfoldable pub call_step : RoutingTable → Stub → Bytes → Bytes → Bytes → LookupState → Lookup
call_step rt client target current_i kshift st =
    let request : FindSuccessorRequest = record {
      target_id = target;
      mode = step current_i kshift;
    } in
    answer (record st { ended = st.ended || client.ends_context request })
      (remote_answer (remote_step st.ended client rt.space target current_i kshift))

-- `errors.Is(err, context.DeadlineExceeded) || errors.Is(err, context.Canceled)`.
abbrev pub is_interrupted : Result LookupError (Option Node) → Bool
is_interrupted (refused context_ended) = true
is_interrupted (refused (remote (rpc_failed e))) = e.is_deadline || e.is_canceled
is_interrupted _ = false

-- The answer of a hop: a node is returned, an end of the context too, else the loop goes on.
unfoldable pub settle : Lookup → (LookupState → Lookup) → Lookup
settle (answer st (returned (some n))) next = answer st (returned (some n))
settle (answer st (returned none)) next =
    if st.ended then answer st (refused context_ended) else next st
settle (answer st (refused e)) next =
    if is_interrupted (refused e) || st.ended
    then answer st (if st.ended then refused context_ended else returned none)
    else next st
settle panicked next = panicked
settle blocked next = blocked
settle out_of_fuel next = out_of_fuel

-- GetFromPool: what is done without a connection, and with one.
unfoldable pub with_connection :
    ClientPool Stub × Reply Stub
    → (ClientPool Stub → Lookup)
    → (ClientPool Stub → Stub → Lookup)
    → Lookup
with_connection (pool, waits) missing use_it = blocked
with_connection (pool, failed e) missing use_it = missing pool
with_connection (pool, done client) missing use_it = use_it pool client

-- The loop over the de Bruijn nodes, from index i - 1 down. `own` is the node's call of itself.
unfoldable pub try_hops :
    RoutingTable
    → (LookupState → Lookup)
    → Bytes
    → Bytes
    → Bytes
    → List Node
    → (LookupState → Lookup)
    → ℕ
    → LookupState
    → Lookup
try_hops rt own target next_i next_kshift hops after zero st = after st
try_hops rt own target next_i next_kshift hops after (suc i) st =
    let rest = try_hops rt own target next_i next_kshift hops after i in
    elim (get_elem? hops i) [
      | none ↦ panicked
      | some d ↦
          if equal d.id rt.self.id
          then settle (own st) rest
          else with_connection (get_from_pool d.addr st.pool)
              (λ pool. rest (record st { pool = pool }))
              (λ pool client.
                settle (call_step rt client target next_i next_kshift (record st { pool = pool }))
                  rest)
    ]

-- `startIdx + 1`.
abbrev pub hops_to_try : ℤ → List Node → ℕ
hops_to_try (pos i) hops = suc i
hops_to_try (negsuc i) hops = length hops

-- A step that the successor is to go on with.
unfoldable pub forward : RoutingTable → Node → Bytes → Bytes → Bytes → LookupState → Lookup
forward rt succ target current_i kshift st =
    with_connection (get_from_pool succ.addr st.pool)
      (λ pool. answer (record st { pool = pool }) (refused no_connection))
      (λ pool client. call_step rt client target current_i kshift (record st { pool = pool }))

-- A step from the imaginary node of this node to the next one.
unfoldable pub de_bruijn_hop :
    RoutingTable
    → (Bytes → Bytes → LookupState → Lookup)
    → Node
    → Bytes
    → Bytes
    → Bytes
    → LookupState
    → Lookup
de_bruijn_hop rt own succ target current_i kshift st =
    elim (imaginary_step rt.space current_i kshift) [
      | panic ↦ panicked
      | err e ↦ answer st (refused no_imaginary)
      | ok next ↦
          let hops = de_bruijn_list rt in
          let after = forward rt succ target next.0 next.1 in
          if length hops == 0
          then after st
          else (if equal next.0 current_i
              then answer st (refused infinite_loop)
              else try_hops rt (own next.0 next.1) target next.0 next.1 hops after
                  (hops_to_try (find_next_hop (some_entries hops) next.0) hops) st)
    ]

unfoldable pub find_successor_step : ℕ → RoutingTable → Bytes → Bytes → Bytes → LookupState → Lookup
find_successor_step zero rt target current_i kshift st = out_of_fuel
find_successor_step (suc fuel) rt target current_i kshift st =
    if st.ended then answer st (refused request_ended) else elim (first_successor rt) [
      | none ↦ answer st (refused not_initialized)
      | some succ ↦
          if between target rt.self.id succ.id
          then answer st (returned (some succ))
          else (if between current_i rt.self.id succ.id
              then de_bruijn_hop rt (find_successor_step fuel rt target) succ target current_i
                  kshift st
              else forward rt succ target current_i kshift st)
    ]

unfoldable pub find_successor_init : ℕ → RoutingTable → Bytes → LookupState → Lookup
find_successor_init fuel rt target st =
    if st.ended then answer st (refused request_ended) else elim (first_successor rt) [
      | none ↦ answer st (refused not_initialized)
      | some succ ↦
          if between target rt.self.id succ.id
          then answer st (returned (some succ))
          else elim (best_imaginary rt.space rt.self.id succ.id target) [
            | panic ↦ panicked
            | err e ↦ answer st (refused no_imaginary)
            | ok start ↦ find_successor_step fuel rt target start.0 start.1 st
          ]
    ]

-- LookUp: no node is an error too.
unfoldable pub found_node : Lookup → Lookup
found_node (answer st (returned none)) = answer st (refused no_successor)
found_node (answer st r) = answer st r
found_node panicked = panicked
found_node blocked = blocked
found_node out_of_fuel = out_of_fuel

unfoldable pub look_up : ℕ → RoutingTable → Bytes → LookupState → Lookup
look_up fuel rt id st =
    if st.ended
    then answer st (refused request_ended)
    else found_node (find_successor_init fuel rt id st)
