-- ===== src/Actions/Replies.antt =====
-- A call of a pool that is open with its mutex free replies, and leaves the pool so
-- (internal/node/client/clientpool.go).
use koorde_dht_web_cache.Prelude.{
  ◌-◌, ◌≡◌, refl, ◌⊎◌, inl, inr, Bool, true, false, Option, none, some, [], ltb, if◌then◌else◌,
  Bytes, bytes_eq,
}
use koorde_dht_web_cache.Prelude.Maps.{lookup, remove}
use koorde_dht_web_cache.Pool.{
  ClientPool, RefConn, Reply, PoolError, done, failed, close_failed, when_open, get_from_pool,
  dial_ephemeral, add_ref, release,
}
use koorde_dht_web_cache.Membership.Laws.{IsOpen}
use koorde_dht_web_cache.Lookup.Ends.Hops.{get_from_pool-IsOpen, when_open-IsOpen}

abbrev pub Replies : {C A : Type 0} → ClientPool C × Reply A → Type 0
Replies {C} {A} r =
    (p : ClientPool C) × IsOpen p
    × (((a : A) × (r ≡ (p, done a))) ⊎ ((e : PoolError) × (r ≡ (p, failed e))))

module _ {C A : Type 0} where
  says_done : {p : ClientPool C} (a : A) → IsOpen p → Replies {A = A} (p, done a)
  says_done a o = (_, o, inl (a, refl))

  says_failed : {p : ClientPool C} (e : PoolError) → IsOpen p → Replies {A = A} (p, failed e)
  says_failed e o = (_, o, inr (e, refl))

  if-Replies :
      (b : Bool) {x y : ClientPool C × Reply A}
      → Replies x
      → Replies y
      → Replies (if b then x else y)
  if-Replies true hx hy = hx
  if-Replies false hx hy = hy

  free-Replies :
      (b : Bool) (x : ClientPool C × Reply A) {y : ClientPool C × Reply A}
      → b ≡ false
      → Replies y
      → Replies (if b then x else y)
  free-Replies true x e h = absurd (cc)
  free-Replies false x e h = h

  option-Replies :
      {V : Type 0} (x : Option V) {y : ClientPool C × Reply A} {f : V → ClientPool C × Reply A}
      → Replies y
      → ((v : V) → Replies (f v))
      → Replies {C = C} {A = A} (elim x [ none ↦ y | some v ↦ f v ])
  option-Replies none hy hf = hy
  option-Replies (some v) hy hf = hf v

  when_open-Replies :
      {p : ClientPool C} (body : ClientPool C × Reply A)
      → IsOpen p
      → Replies body
      → Replies (when_open p body)
  when_open-Replies body o h = rw (when_open-IsOpen body o) h

module _ {C : Type 0} {p : ClientPool C} (o : IsOpen p) where
  pub get_from_pool-Replies : (addr : Bytes) → Replies (get_from_pool addr p)
  get_from_pool-Replies addr = elim (get_from_pool-IsOpen addr o) [
    | inl (e, got) ↦ (p, o, inr (e, got))
    | inr (conn, got) ↦ (p, o, inl (conn, got))
  ]

  pub add_ref-Replies : (dialed : Option C) (addr : Bytes) → Replies (add_ref dialed addr p)
  unfolding add_ref
  add_ref-Replies dialed addr = if-Replies (bytes_eq addr []) (says_failed _ o) (
      if-Replies (bytes_eq addr p.self_addr) (says_failed _ o) (
        when_open-Replies _ o (
          option-Replies (lookup addr p.clients)
            (option-Replies dialed (says_failed _ o)
              (λ conn. says_done tt (record { is_open = o.is_open; is_free = o.is_free })))
            (λ rc. says_done tt (record { is_open = o.is_open; is_free = o.is_free })))))

  pub dial_ephemeral-Replies :
      (dialed : Option C) (addr : Bytes) → Replies (dial_ephemeral dialed addr p)
  unfolding dial_ephemeral
  dial_ephemeral-Replies dialed addr = free-Replies p.locked _ o.is_free (
      if-Replies p.closed (says_failed _ o) (
        if-Replies (bytes_eq addr []) (says_failed _ o) (
          if-Replies (bytes_eq addr p.self_addr) (says_failed _ o)
            (option-Replies dialed (says_failed _ o) (λ conn. says_done conn o)))))

  pub release-Replies :
      (close_fails : C → Bool) (addr : Bytes) → Replies (release close_fails addr p)
  unfolding release
  release-Replies close_fails addr = if-Replies (bytes_eq addr []) (says_failed _ o) (
      when_open-Replies _ o (
        option-Replies (lookup addr p.clients) (says_done none o) (λ rc.
          if-Replies (ltb 0 (rc.refs - 1))
            (says_done none (record { is_open = o.is_open; is_free = o.is_free }))
            (closing rc (close_fails rc.conn)))))
    where
      closing :
          (rc : RefConn C) (b : Bool)
          → Replies {A = Option C} (
            record p { clients = remove addr p.clients },
            if b then failed close_failed else done (some rc.conn),
          )
      closing rc true = says_failed _ (record { is_open = o.is_open; is_free = o.is_free })
      closing rc false = says_done _ (record { is_open = o.is_open; is_free = o.is_free })
