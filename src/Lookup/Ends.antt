-- ===== src/Lookup/Ends.antt =====
-- A lookup at a node whose pool is open ends with an answer: the calls of FindSuccessorStep that a
-- node makes of itself are at most twice as many as the bits of the space.
pub mod Fuel
pub mod Hops
use koorde_dht_web_cache.Prelude.{
  ℕ, zero, suc, ◌+◌, ◌-◌, ◌*◌, ◌/◌, ◌%◌, ◌^◌, ◌≤◌, ◌<◌, ◌≡◌, ◌≢◌, refl, sym, ap, ◌∙◌, ◌⊎◌, inl, inr,
  arith, Bool, true, false, ◌||◌, Option, none, some, List, [], ◌∷◌, ◌==◌, if◌then◌else◌, length,
  get_elem?, Bytes, ℤ, pos, negsuc, Bool-cases, Option-cases, Result, returned, refused, ok,
  bytes_eq, bytes_eq_iff,
}
use mathlib.Core.Path.{subst}
use koorde_dht_web_cache.Prelude.Pow.{pow_pos, pow-add, mod_unique}
use koorde_dht_web_cache.Domain.Space.{Space}
use koorde_dht_web_cache.Domain.Value.{to_big_int, to_big_int-injective}
use koorde_dht_web_cache.Domain.Valid.{IsSpace, IsId}
use koorde_dht_web_cache.Domain.Hex.{Node}
use koorde_dht_web_cache.Domain.Ring.{equal, between}
use koorde_dht_web_cache.Domain.Imaginary.Laws.{best_imaginary_lem}
use koorde_dht_web_cache.Routing.{
  RoutingTable, entry_at, first_successor, de_bruijn_list, some_entries,
}
use koorde_dht_web_cache.Routing.Entries.{entry_at_out}
use koorde_dht_web_cache.Pool.{
  ClientPool, Reply, done, failed, waits, PoolError, get_from_pool, when_open,
}
use koorde_dht_web_cache.Prelude.Maps.{lookup}
use koorde_dht_web_cache.Membership.Laws.{IsOpen}
use koorde_dht_web_cache.Rpc.{Stub}
use koorde_dht_web_cache.Lookup.{imaginary_step}
use koorde_dht_web_cache.Lookup.Laws.{imaginary_step_lem, mod_horner}
use koorde_dht_web_cache.Lookup.NextHop.{find_next_hop}
use koorde_dht_web_cache.Lookup.NextHop.Found.{
  AllIds, IsNextHop, find_next_hop-IsNextHop, length-some_entries,
}
use koorde_dht_web_cache.Lookup.FindSuccessor.{
  LookupState, LookupError, Lookup, answer, call_step, settle, try_hops, forward, hops_to_try,
  with_connection, de_bruijn_hop, find_successor_step, find_successor_init, found_node, look_up,
  no_successor, request_ended, found_node, look_up, is_interrupted, context_ended,
}
use koorde_dht_web_cache.Lookup.Ends.Fuel.{Clears, Clears-all, Enough, Enough-same, Enough-next}
use koorde_dht_web_cache.Lookup.Ends.Hops.{
  Answers, if-Answers, choose-Answers, forward-Answers, try_hops-Answers, hops_to_try-le,
  equal_same,
}
use native.Mathlib.Nat.{mod-eq_of_lt, div-eq_of_lt}

-- The lookup answers with a node or an error, and leaves the pool open.
abbrev pub Decides : Lookup → Type 0
Decides l =
    (st : LookupState) × IsOpen st.pool
    × (((n : Node) × (l ≡ answer st (returned (some n))))
        ⊎ ((e : LookupError) × (l ≡ answer st (refused e))))

found_node-Decides : (l : Lookup) → Answers l → Decides (found_node l)
unfolding found_node
found_node-Decides l (st, returned (some n), e, o) = (st, o, inl (n, ap found_node e))
found_node-Decides l (st, returned none, e, o) = (st, o, inr (no_successor, ap found_node e))
found_node-Decides l (st, refused x, e, o) = (st, o, inr (x, ap found_node e))

if-Decides : (b : Bool) {x y : Lookup} → Decides x → Decides y → Decides (if b then x else y)
if-Decides true hx hy = hx
if-Decides false hx hy = hy

module _ (rt : RoutingTable) (s : IsSpace rt.space) (short : s.digit_bits ≤ 8)
    (fits : s.digit_bits ≤ rt.space.bits) (hops : AllIds rt.space (de_bruijn_list rt)) where
  de_bruijn_hop-Answers :
      (own : Bytes → Bytes → LookupState → Lookup) (succ : Node) (target i k : Bytes) (fuel : ℕ)
      → IsId rt.space i
      → IsId rt.space k
      → Enough rt.space.bits (suc fuel) (to_big_int i) (to_big_int k)
      → ((i' k' : Bytes)
          → IsId rt.space i'
          → IsId rt.space k'
          → Enough rt.space.bits fuel (to_big_int i') (to_big_int k')
          → (st : LookupState) → IsOpen st.pool
          → Answers (own i' k' st))
      → (st : LookupState) → IsOpen st.pool
      → Answers (de_bruijn_hop rt own succ target i k st)
  unfolding de_bruijn_hop
  de_bruijn_hop-Answers own succ target i k fuel ii ik enough again st o =
      let (next, steps, at) = imaginary_step_lem s ii ik short fits in
      let moves : next.0 ≢ i → Enough rt.space.bits fuel (to_big_int next.0) (to_big_int next.1) =
        λ ne. Enough-same rt.space.bits fuel at.first_value at.second_value (
          Enough-next rt.space.bits s.digit_bits fuel (to_big_int i) (to_big_int k) s.digit_pos
            ii.fits ik.fits enough
            (λ e. ne (
              to_big_int-injective next.0 i at.first.bytes ii.bytes (at.first.size ∙ sym ii.size)
                (at.first_value ∙ e)))) in
      rw (steps, de_bruijn_hop)
        (choose-Answers (length (de_bruijn_list rt) == 0)
          (λ e. forward-Answers rt succ target next.0 next.1 st o)
          (λ some_hops.
            choose-Answers (equal next.0 i) (λ e. (st, _, refl, o))
              (λ other.
                try_hops-Answers rt (own next.0 next.1) target next.0 next.1 (de_bruijn_list rt) _
                  (again next.0 next.1 at.first at.second
                    (moves (λ e. ground (arith, e, other, equal_same i))))
                  (forward-Answers rt succ target next.0 next.1)
                  (hops_to_try (find_next_hop (some_entries (de_bruijn_list rt)) next.0)
                    (de_bruijn_list rt))
                  (hops_to_try-le rt.space (de_bruijn_list rt) next.0 at.first hops
                    (ground (arith, some_hops)))
                  st o)))

  -- FindSuccessorStep at a node that has an open pool with its mutex free, with digits of up to 8
  -- bits and de Bruijn nodes of the space, answers once it has fuel for the calls of itself, and the
  -- pool stays open.
  pub find_successor_step-Answers :
      (fuel : ℕ) (target i k : Bytes)
      → IsId rt.space i
      → IsId rt.space k
      → Enough rt.space.bits fuel (to_big_int i) (to_big_int k)
      → (st : LookupState) → IsOpen st.pool
      → Answers (find_successor_step fuel rt target i k st)
  unfolding find_successor_step
  find_successor_step-Answers zero target i k ii ik enough st o = absurd (ground (arith, enough))
  find_successor_step-Answers (suc fuel) target i k ii ik enough st o =
      if-Answers st.ended (st, _, refl, o)
        (elim (Option-cases (first_successor rt)) [
          | inl missing ↦ rw (missing, find_successor_step) (st, _, refl, o)
          | inr (succ, found) ↦
              rw (found, find_successor_step)
                (if-Answers (between target rt.self.id succ.id) (st, _, refl, o)
                  (if-Answers (between i rt.self.id succ.id)
                    (de_bruijn_hop-Answers (find_successor_step fuel rt target) succ target i k fuel
                      ii ik enough
                      (λ i' k' ii' ik' enough'.
                        find_successor_step-Answers fuel target i' k' ii' ik' enough')
                      st o)
                    (forward-Answers rt succ target i k st o)))
        ])

  module _ {succ : Node} (is : IsId rt.space rt.self.id) (ic : IsId rt.space succ.id) where
    pub find_successor_init-Answers :
        (fuel : ℕ) (target : Bytes)
        → first_successor rt ≡ some succ
        → IsId rt.space target
        → rt.space.bits + rt.space.bits < fuel
        → (st : LookupState) → IsOpen st.pool
        → Answers (find_successor_init fuel rt target st)
    unfolding find_successor_init
    find_successor_init-Answers fuel target found it enough st o =
        let (start, e, ir, within) = best_imaginary_lem s is ic it in
        if-Answers st.ended (st, _, refl, o)
          (rw (found, find_successor_init)
            (if-Answers (between target rt.self.id succ.id) (st, _, refl, o)
              (rw (e, find_successor_init)
                (find_successor_step-Answers fuel target start target ir it
                  (inl (rt.space.bits, Clears-all rt.space.bits (to_big_int target), enough)) st
                  o))))

    -- LookUp at a node with a first successor, both with identifiers of the space, at an open pool
    -- whose mutex is free, with digits of up to 8 bits and no more than Bits, and de Bruijn nodes of
    -- the space, ends: with fuel for more than twice Bits calls it returns a node or an error, whatever
    -- the connections answer, and the pool stays open with its mutex free.
    pub look_up-Decides :
        (fuel : ℕ) (target : Bytes)
        → first_successor rt ≡ some succ
        → IsId rt.space target
        → rt.space.bits + rt.space.bits < fuel
        → (st : LookupState) → IsOpen st.pool
        → Decides (look_up fuel rt target st)
    unfolding look_up
    look_up-Decides fuel target found it enough st o =
        if-Decides st.ended (st, o, inr (request_ended, refl))
          (found_node-Decides (find_successor_init fuel rt target st)
            (find_successor_init-Answers fuel target found it enough st o))
