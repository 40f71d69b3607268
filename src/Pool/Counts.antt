-- ===== src/Pool/Counts.antt =====
-- The reference counts of the pool: what AddRef and Release do to them, and any sequence of the two.
use koorde_dht_web_cache.Prelude.{
  ℕ, ◌+◌, ◌-◌, ◌<◌, ◌≡◌, refl, sym, ap, ◌∙◌, arith, Bool, false, Option, none, some, List, [], ◌∷◌,
  ltb, if◌then◌else◌, Bytes, bytes_eq, bytes_eq_iff, inl, inr, Option-cases, Bool-cases,
}
use mathlib.Core.Path.{subst}
use koorde_dht_web_cache.Prelude.Maps.{lookup, insert, remove, lookup-insert, lookup-remove}
use koorde_dht_web_cache.Pool.{RefConn, ClientPool, done, when_open, add_ref, release, new_pool}

abbrev pub refs_of : {C : Type 0} → Option (RefConn C) → ℕ
refs_of none = 0
refs_of (some rc) = rc.refs

-- The number of references to an address.
abbrev pub count : {C : Type 0} → Bytes → ClientPool C → ℕ
count u p = refs_of (lookup u p.clients)

-- A pool that is open, whose mutex is free, and that holds no connection without a reference.
pub record IsCounted {C : Type 0} (p : ClientPool C) : Type 0 where
  pub is_open : p.closed ≡ false
  pub is_free : p.locked ≡ false
  pub positive : (u : Bytes) (rc : RefConn C) → lookup u p.clients ≡ some rc → 0 < rc.refs

pub new_pool-IsCounted : {C : Type 0} (self_addr : Bytes) → IsCounted (new_pool {C = C} self_addr)
unfolding new_pool lookup
new_pool-IsCounted self_addr = record { is_open = refl; is_free = refl; positive = λ u rc h. cc }

-- An address that AddRef and Release accept.
pub record IsPeer {C : Type 0} (addr : Bytes) (p : ClientPool C) : Type 0 where
  pub not_empty : bytes_eq addr [] ≡ false
  pub not_self : bytes_eq addr p.self_addr ≡ false

module _ {C : Type 0} where
  written :
      (addr : Bytes) (rc : RefConn C) {p : ClientPool C}
      → IsCounted p
      → 0 < rc.refs
      → IsCounted (record p { clients = insert addr rc p.clients })
        × ((u : Bytes)
            → count u (record p { clients = insert addr rc p.clients })
              ≡ (if bytes_eq addr u then rc.refs else count u p))
  written addr rc {p} c h = (
    record {
      is_open = c.is_open;
      is_free = c.is_free;
      positive = λ u r found. ground (arith, lookup-insert addr u rc p.clients, c.positive u r);
    },
    λ u. ground (arith, lookup-insert addr u rc p.clients),
  )

  removed :
      (addr : Bytes) {p : ClientPool C}
      → IsCounted p
      → IsCounted (record p { clients = remove addr p.clients })
        × ((u : Bytes)
            → count u (record p { clients = remove addr p.clients })
              ≡ (if bytes_eq addr u then 0 else count u p))
  removed addr {p} c = (
    record {
      is_open = c.is_open;
      is_free = c.is_free;
      positive = λ u r found. ground (arith, lookup-remove addr u p.clients, c.positive u r);
    },
    λ u. ground (arith, lookup-remove addr u p.clients),
  )

  -- AddRef of a peer, when a connection can be made, succeeds and adds one reference to its address,
  -- and none to another.
  pub add_ref_lem :
      (conn : C) (addr : Bytes) {p : ClientPool C}
      → IsCounted p
      → IsPeer addr p
      → ((add_ref (some conn) addr p).1 ≡ done tt)
        × IsCounted (add_ref (some conn) addr p).0
        × ((add_ref (some conn) addr p).0.self_addr ≡ p.self_addr)
        × ((u : Bytes)
            → count u (add_ref (some conn) addr p).0
              ≡ (if bytes_eq addr u then count u p + 1 else count u p))
  unfolding add_ref when_open
  add_ref_lem conn addr {p} c peer =
      rw (peer.not_empty, peer.not_self, c.is_free, c.is_open)
        (elim (Option-cases (lookup addr p.clients)) [
          | inr (rc, found) ↦
              let (counted, value) =
                written addr (record rc { refs = rc.refs + 1 }) c (omega arith) in
              rw (found, add_ref)
                (refl, counted, refl, λ u. value u ∙ ground (arith, bytes_eq_iff addr u, found))
          | inl missing ↦
              let (counted, value) =
                written addr (record { conn = conn; refs = 1 }) c (omega arith) in
              rw (missing, add_ref)
                (refl, counted, refl, λ u. value u ∙ ground (arith, bytes_eq_iff addr u, missing))
        ])

  -- Release of an address takes one reference from it, if there is one, and none from another.
  pub release_lem :
      (close_fails : C → Bool) (addr : Bytes) {p : ClientPool C}
      → IsCounted p
      → bytes_eq addr [] ≡ false
      → IsCounted (release close_fails addr p).0
        × ((release close_fails addr p).0.self_addr ≡ p.self_addr)
        × ((u : Bytes)
            → count u (release close_fails addr p).0
              ≡ (if bytes_eq addr u then count u p - 1 else count u p))
  unfolding release when_open
  release_lem close_fails addr {p} c named =
      rw (named, c.is_free, c.is_open)
        (elim (Option-cases (lookup addr p.clients)) [
          | inl missing ↦
              rw (missing, release) (c, refl, λ u. ground (arith, bytes_eq_iff addr u, missing))
          | inr (rc, found) ↦ elim (Bool-cases (ltb 0 (rc.refs - 1))) [
            | inl stays ↦
                let (counted, value) =
                  written addr (record rc { refs = rc.refs - 1 }) c (ground arith) in
                rw (found, release, stays)
                  (counted, refl, λ u. value u ∙ ground (arith, bytes_eq_iff addr u, found))
            | inr last ↦
                let (counted, value) = removed addr c in
                rw (found, release, last)
                  (counted, refl, λ u. value u ∙ ground (arith, bytes_eq_iff addr u, found))
          ]
        ])

-- Calls of AddRef, for which a connection can be made, and of Release.
pub data PoolCall (C : Type 0) : Type 0 where
  acquire : C → Bytes → PoolCall C
  give_up : Bytes → PoolCall C

module _ {C : Type 0} where
  abbrev pub run : (C → Bool) → List (PoolCall C) → ClientPool C → ClientPool C
  run close_fails [] p = p
  run close_fails (acquire conn addr ∷ calls) p =
      run close_fails calls (add_ref (some conn) addr p).0
  run close_fails (give_up addr ∷ calls) p = run close_fails calls (release close_fails addr p).0

  -- The references that the calls leave to u, when it had n of them.
  abbrev pub balance : Bytes → List (PoolCall C) → ℕ → ℕ
  balance u [] n = n
  balance u (acquire conn addr ∷ calls) n = balance u calls (if bytes_eq addr u then n + 1 else n)
  balance u (give_up addr ∷ calls) n = balance u calls (if bytes_eq addr u then n - 1 else n)

  -- No call is on the empty address or on the node's own.
  abbrev pub ArePeers : Bytes → List (PoolCall C) → Type 0
  ArePeers self [] = Unit {0}
  ArePeers self (acquire conn addr ∷ calls) =
      ((bytes_eq addr [] ≡ false) × (bytes_eq addr self ≡ false)) × ArePeers self calls
  ArePeers self (give_up addr ∷ calls) = (bytes_eq addr [] ≡ false) × ArePeers self calls

  -- After any sequence of calls of AddRef and Release on peers, in an open pool, the pool is open with
  -- its mutex free, every connection in it has a reference, and each address has the references that
  -- the calls on it leave: one more for an AddRef, one less, down to none, for a Release.
  pub count-run :
      (close_fails : C → Bool) (calls : List (PoolCall C)) {p : ClientPool C}
      → IsCounted p
      → ArePeers p.self_addr calls
      → (u : Bytes)
      → IsCounted (run close_fails calls p)
        × (count u (run close_fails calls p) ≡ balance u calls (count u p))
  count-run close_fails [] c h u = (c, refl)
  count-run close_fails (acquire conn addr ∷ calls) {p} c h u =
      let (_, counted, same, value) =
        add_ref_lem conn addr c (record { not_empty = h.0.0; not_self = h.0.1 }) in
      let (counted', value') =
        count-run close_fails calls counted (subst (λ s. ArePeers s calls) (sym same) h.1) u in
      (counted', value' ∙ ap (balance u calls) (value u))
  count-run close_fails (give_up addr ∷ calls) {p} c h u =
      let (counted, same, value) = release_lem close_fails addr c h.0 in
      let (counted', value') =
        count-run close_fails calls counted (subst (λ s. ArePeers s calls) (sym same) h.1) u in
      (counted', value' ∙ ap (balance u calls) (value u))
