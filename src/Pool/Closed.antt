-- ===== src/Pool/Closed.antt =====
-- A pool after Close: the calls that return without unlocking the mutex, and those that then wait.
use koorde_dht_web_cache.Prelude.{
  ◌≡◌, refl, Bool, false, Option, [], Bytes, bytes_eq, Bool-cases, inl, inr,
}
use koorde_dht_web_cache.Pool.{
  ClientPool, waits, failed, pool_closed, when_open, add_ref, get_from_pool, dial_ephemeral,
  release, close,
}

module _ {C : Type 0} (close_fails : C → Bool) (dialed : Option C) (p : ClientPool C) where
  -- In a pool whose mutex is free, a Release of a named address after Close returns an error with the
  -- mutex held; from then on Release of a named address, AddRef and GetFromPool of a peer,
  -- DialEphemeral and Close wait for the mutex, and change nothing.
  pub release_after_close_locks :
      (addr other : Bytes)
      → p.locked ≡ false
      → bytes_eq addr [] ≡ false
      → bytes_eq other [] ≡ false
      → bytes_eq other p.self_addr ≡ false
      → let q = (release close_fails addr (close close_fails p).0) in
        (q.1 ≡ failed pool_closed)
        × (release close_fails other q.0 ≡ (q.0, waits))
        × (add_ref dialed other q.0 ≡ (q.0, waits))
        × (get_from_pool other q.0 ≡ (q.0, waits))
        × (dial_ephemeral dialed other q.0 ≡ (q.0, waits))
        × (close close_fails q.0 ≡ (q.0, waits))
  unfolding release add_ref get_from_pool dial_ephemeral close when_open
  release_after_close_locks addr other is_free named named' peer = elim (Bool-cases p.closed) [
    | inl was_closed ↦
        rw (is_free, was_closed, named, named', peer) (refl, refl, refl, refl, refl, refl)
    | inr was_open ↦
        rw (is_free, was_open, named, named', peer) (refl, refl, refl, refl, refl, refl)
  ]
