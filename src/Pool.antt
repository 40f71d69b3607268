-- ===== src/Pool.antt =====
-- internal/node/client/clientpool.go: the pool of connections, counted by reference. What
-- `grpc.NewClient` returns, and whether `Close` of a connection fails, are arguments; a connection is
-- a value of any type C. A count is at least 1 in every pool that is reached (Pool/Counts.antt), so
-- `-` does not stop.
-- The mutex is part of the state: `locked` says that a call returned without unlocking it, and from
-- then on a call that locks it waits for ever.
pub mod Counts
pub mod Closed
use koorde_dht_web_cache.Prelude.{
  ℕ, ◌+◌, ◌-◌, Bool, true, false, ◌||◌, Option, none, some, List, [], ◌∷◌, ltb, ◌==◌, if◌then◌else◌,
  Bytes, bytes_eq,
}
use koorde_dht_web_cache.Prelude.Maps.{lookup, insert, remove}

pub data PoolError : Type 0 where
  empty_address self_address pool_closed no_conn_in_pool dial_error close_failed : PoolError

-- A call that returns a value or an error, or that waits for the mutex.
pub data Reply {ℓ} (A : Type ℓ) : Type ℓ where
  done : A → Reply A
  failed : PoolError → Reply A
  waits : Reply A

pub record RefConn (C : Type 0) : Type 0 where
  pub conn : C
  pub refs : ℕ

pub record ClientPool (C : Type 0) : Type 0 where
  pub self_addr : Bytes
  pub clients : List (Bytes × RefConn C)
  pub closed : Bool
  pub locked : Bool

unfoldable pub new_pool : {C : Type 0} → Bytes → ClientPool C
new_pool self_addr = record { self_addr = self_addr; clients = []; closed = false; locked = false }

-- `p.mu.Lock()`, and the return without unlocking that follows it in a closed pool.
unfoldable pub when_open :
    {C A : Type 0} → ClientPool C → ClientPool C × Reply A → ClientPool C × Reply A
when_open p body =
    if p.locked
    then (p, waits)
    else (if p.closed then (record p { locked = true }, failed pool_closed) else body)

unfoldable pub add_ref :
    {C : Type 0} → Option C → Bytes → ClientPool C → ClientPool C × Reply (Unit {0})
add_ref dialed addr p =
    if bytes_eq addr []
    then (p, failed empty_address)
    else (if bytes_eq addr p.self_addr
        then (p, failed self_address)
        else when_open p (elim (lookup addr p.clients) [
          | some rc ↦ (
            record p { clients = insert addr (record rc { refs = rc.refs + 1 }) p.clients },
            done tt,
          )
          | none ↦ elim dialed [
            | none ↦ (p, failed dial_error)
            | some conn ↦ (
              record p { clients = insert addr (record { conn = conn; refs = 1 }) p.clients },
              done tt,
            )
          ]
        ]))

-- The client that is returned stands for its connection.
unfoldable pub get_from_pool : {C : Type 0} → Bytes → ClientPool C → ClientPool C × Reply C
get_from_pool addr p =
    if bytes_eq addr []
    then (p, failed empty_address)
    else (if bytes_eq addr p.self_addr
        then (p, failed self_address)
        else when_open p (elim (lookup addr p.clients) [
          | none ↦ (p, failed no_conn_in_pool)
          | some rc ↦ (p, done rc.conn)
        ]))

-- DialEphemeral unlocks before it looks at what it read.
unfoldable pub dial_ephemeral :
    {C : Type 0} → Option C → Bytes → ClientPool C → ClientPool C × Reply C
dial_ephemeral dialed addr p =
    if p.locked
    then (p, waits)
    else (if p.closed
        then (p, failed pool_closed)
        else (if bytes_eq addr []
            then (p, failed empty_address)
            else (if bytes_eq addr p.self_addr
                then (p, failed self_address)
                else elim dialed [ none ↦ (p, failed dial_error) | some conn ↦ (p, done conn) ])))

-- The connection that Release closes, if it is the last reference, is in the reply.
unfoldable pub release :
    {C : Type 0} → (C → Bool) → Bytes → ClientPool C → ClientPool C × Reply (Option C)
release close_fails addr p =
    if bytes_eq addr []
    then (p, failed empty_address)
    else when_open p (elim (lookup addr p.clients) [
      | none ↦ (p, done none)
      | some rc ↦
          if ltb 0 (rc.refs - 1)
          then (
            record p { clients = insert addr (record rc { refs = rc.refs - 1 }) p.clients },
            done none,
          )
          else (
            record p { clients = remove addr p.clients },
            if close_fails rc.conn then failed close_failed else done (some rc.conn),
          )
    ])

unfoldable pub connections : {C : Type 0} → List (Bytes × RefConn C) → List C
connections [] = []
connections ((addr, rc) ∷ m) = rc.conn ∷ connections m

unfoldable pub any_fails : {C : Type 0} → (C → Bool) → List C → Bool
any_fails close_fails [] = false
any_fails close_fails (conn ∷ conns) = close_fails conn || any_fails close_fails conns

-- Close: the connections that it closes are in the reply.
unfoldable pub close : {C : Type 0} → (C → Bool) → ClientPool C → ClientPool C × Reply (List C)
close close_fails p =
    if p.locked
    then (p, waits)
    else (if p.closed
        then (p, done [])
        else (let conns = connections p.clients in
            (
              record p { closed = true; clients = [] },
              if any_fails close_fails conns then failed close_failed else done conns,
            )))
