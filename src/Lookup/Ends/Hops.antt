-- ===== src/Lookup/Ends/Hops.antt =====
-- The parts of a lookup that answer whatever happens, in a pool that is open.
use koorde_dht_web_cache.Prelude.{
  ℕ, zero, suc, ◌≤◌, ◌<◌, ◌≡◌, refl, sym, ◌∙◌, ◌⊎◌, inl, inr, arith, Bool, true, false, ◌||◌,
  Option, none, some, List, [], ◌∷◌, if◌then◌else◌, length, get_elem?, Bytes, Bool-cases,
  Option-cases, Result, returned, refused, bytes_eq, bytes_eq_iff,
}
use mathlib.Core.Path.{subst}
use koorde_dht_web_cache.Domain.Space.{Space}
use koorde_dht_web_cache.Domain.Valid.{IsId}
use koorde_dht_web_cache.Domain.Hex.{Node}
use koorde_dht_web_cache.Domain.Ring.{equal}
use koorde_dht_web_cache.Routing.{RoutingTable, some_entries}
use koorde_dht_web_cache.Routing.Entries.{entry_at_out}
use koorde_dht_web_cache.Pool.{ClientPool, Reply, done, failed, PoolError, get_from_pool, when_open}
use koorde_dht_web_cache.Prelude.Maps.{lookup}
use koorde_dht_web_cache.Membership.Laws.{IsOpen}
use koorde_dht_web_cache.Rpc.{Stub}
use koorde_dht_web_cache.Lookup.NextHop.{find_next_hop}
use koorde_dht_web_cache.Lookup.NextHop.Found.{AllIds, find_next_hop-IsNextHop, length-some_entries}
use koorde_dht_web_cache.Lookup.FindSuccessor.{
  LookupState, LookupError, Lookup, answer, call_step, settle, try_hops, forward, hops_to_try,
  with_connection, is_interrupted,
}

-- The lookup has an answer, and leaves the pool open.
abbrev pub Answers : Lookup → Type 0
Answers l =
    (st : LookupState) × (r : Result LookupError (Option Node)) × (l ≡ answer st r) × IsOpen st.pool

pub when_open-IsOpen :
    {C A : Type 0} {p : ClientPool C} (body : ClientPool C × Reply A)
    → IsOpen p
    → when_open p body ≡ body
unfolding when_open
when_open-IsOpen body o = ground (arith, o.is_open, o.is_free)

pub get_from_pool-IsOpen :
    {C : Type 0} (addr : Bytes) {p : ClientPool C}
    → IsOpen p
    → ((e : PoolError) × (get_from_pool addr p ≡ (p, failed e)))
      ⊎ ((conn : C) × (get_from_pool addr p ≡ (p, done conn)))
unfolding get_from_pool
get_from_pool-IsOpen addr {p} o = elim (Bool-cases (bytes_eq addr [])) [
  | inl empty ↦ inl (PoolError.empty_address, rw empty refl)
  | inr named ↦ elim (Bool-cases (bytes_eq addr p.self_addr)) [
    | inl own ↦ inl (PoolError.self_address, rw (named, own) refl)
    | inr peer ↦ elim (Option-cases (lookup addr p.clients)) [
      | inl missing ↦ inl (
        PoolError.no_conn_in_pool,
        rw (named, peer) (when_open-IsOpen _ o ∙ rw (missing, get_from_pool) refl),
      )
      | inr (rc, found) ↦
          inr (rc.conn, rw (named, peer) (when_open-IsOpen _ o ∙ rw (found, get_from_pool) refl))
    ]
  ]
]

pub with_connection-Answers :
    (addr : Bytes) {p : ClientPool Stub} (missing : ClientPool Stub → Lookup)
    (use_it : ClientPool Stub → Stub → Lookup)
    → IsOpen p
    → Answers (missing p)
    → ((client : Stub) → Answers (use_it p client))
    → Answers (with_connection (get_from_pool addr p) missing use_it)
unfolding with_connection
with_connection-Answers addr missing use_it o h k = elim (get_from_pool-IsOpen addr o) [
  | inl (e, got) ↦ subst (λ g. Answers (with_connection g missing use_it)) (sym got) h
  | inr (conn, got) ↦ subst (λ g. Answers (with_connection g missing use_it)) (sym got) (k conn)
]

pub if-Answers : (b : Bool) {x y : Lookup} → Answers x → Answers y → Answers (if b then x else y)
if-Answers true hx hy = hx
if-Answers false hx hy = hy

pub choose-Answers :
    (b : Bool) {x y : Lookup}
    → (b ≡ true → Answers x)
    → (b ≡ false → Answers y)
    → Answers (if b then x else y)
choose-Answers true hx hy = hx refl
choose-Answers false hx hy = hy refl

pub equal_same : (x : Bytes) → equal x x ≡ true
unfolding equal
equal_same x = (bytes_eq_iff x x).1 refl

pub forward-Answers :
    (rt : RoutingTable) (succ : Node) (target i k : Bytes) (st : LookupState)
    → IsOpen st.pool
    → Answers (forward rt succ target i k st)
unfolding forward call_step
forward-Answers rt succ target i k st o =
    with_connection-Answers succ.addr _ _ o (_, _, refl, o) (λ client. (_, _, refl, o))

pub settle-Answers :
    (l : Lookup) (next : LookupState → Lookup)
    → Answers l
    → ((st : LookupState) → IsOpen st.pool → Answers (next st))
    → Answers (settle l next)
unfolding settle
settle-Answers l next (st, returned (some n), e, o) h =
    subst (λ a. Answers (settle a next)) (sym e) (_, _, refl, o)
settle-Answers l next (st, returned none, e, o) h =
    subst (λ a. Answers (settle a next)) (sym e) (if-Answers st.ended (_, _, refl, o) (h st o))
settle-Answers l next (st, refused x, e, o) h =
    subst (λ a. Answers (settle a next)) (sym e)
      (if-Answers (is_interrupted (refused x) || st.ended) (_, _, refl, o) (h st o))

pub get_elem?-below :
    {A : Type 0} (xs : List A) (i : ℕ) → i < length xs → (a : A) × (get_elem? xs i ≡ some a)
get_elem?-below [] i h = absurd (omega arith)
get_elem?-below (x ∷ xs) zero h = (x, refl)
get_elem?-below (x ∷ xs) (suc i) h = get_elem?-below xs i (omega arith)

pub try_hops-Answers :
    (rt : RoutingTable) (own : LookupState → Lookup) (target i k : Bytes) (hops : List Node)
    (after : LookupState → Lookup)
    → ((st : LookupState) → IsOpen st.pool → Answers (own st))
    → ((st : LookupState) → IsOpen st.pool → Answers (after st))
    → (left : ℕ) → left ≤ length hops
    → (st : LookupState) → IsOpen st.pool
    → Answers (try_hops rt own target i k hops after left st)
unfolding try_hops call_step
try_hops-Answers rt own target i k hops after ho ha zero h st o = ha st o
try_hops-Answers rt own target i k hops after ho ha (suc left) h st o =
    let rest = try_hops-Answers rt own target i k hops after ho ha left (omega arith) in
    let (d, found) = get_elem?-below hops left (omega arith) in
    rw (found, try_hops)
      (if-Answers (equal d.id rt.self.id) (settle-Answers (own st) _ (ho st o) rest) (
        with_connection-Answers d.addr _ _ o (rest st o)
          (λ client. settle-Answers _ _ (_, _, refl, o) rest)))

pub hops_to_try-le :
    (sp : Space) (hops : List Node) (x : Bytes)
    → IsId sp x
    → AllIds sp hops
    → 0 < length hops
    → hops_to_try (find_next_hop (some_entries hops) x) hops ≤ length hops
hops_to_try-le sp hops x ix ids h =
    let (i, e, hop) = find_next_hop-IsNextHop ix hops h ids in
    let lt : i < length hops =
      ground (arith, entry_at_out (some_entries hops) i, hop.here, length-some_entries hops) in
    rw e lt
