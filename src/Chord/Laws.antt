-- ===== src/Chord/Laws.antt =====
-- The fingers of a Chord node: the closest preceding one, and the target that each is looked up by.
use koorde_dht_web_cache.Prelude.{
  ℕ, zero, suc, ◌+◌, ◌-◌, ◌%◌, ◌^◌, ◌≤◌, ◌<◌, ◌≡◌, refl, ◌⊎◌, inl, inr, arith, true, false, Option,
  none, some, [], ◌∷◌, Bytes, ok, Bool-cases, Option-cases, ltb, ltb→lt,
}
use koorde_dht_web_cache.Prelude.Pow.{pow_pos, two-pow-suc, pow_mono, mod_unique}
use koorde_dht_web_cache.Domain.Space.{Space}
use koorde_dht_web_cache.Domain.Value.{to_big_int}
use koorde_dht_web_cache.Domain.Valid.{IsSpace, IsId}
use koorde_dht_web_cache.Domain.BigInt.{from_big_int_lem}
use koorde_dht_web_cache.Domain.Hex.{Node}
use koorde_dht_web_cache.Domain.Ring.{between, distance}
use koorde_dht_web_cache.Routing.{RoutingEntries, entry_at}
use koorde_dht_web_cache.Chord.Fingers.{FingerTable, last_between, closest_preceding_node}
use koorde_dht_web_cache.Chord.Stabilization.{finger_target}
use native.Mathlib.Nat.{mod-lt, mod-eq_of_lt}

ahead_near : (m v d : ℕ) → v + d < m → ((v + d) % m + m - v) % m ≡ d
ahead_near m v d h =
    rw (mod-eq_of_lt h) (mod_unique (v + d + m - v) m 1 d (omega arith) (omega arith))

ahead_wrapped : (m v d : ℕ) → v < m → d < m → m ≤ v + d → ((v + d) % m + m - v) % m ≡ d
ahead_wrapped m v d hv hd h =
    let e : (v + d) % m ≡ v + d - m =
      mod_unique (v + d) m 1 (v + d - m) (omega arith) (omega arith) in
    let f : v + d - m + m - v ≡ d = omega arith in rw (e, f) (mod-eq_of_lt hd)

-- d steps clockwise from v lies d steps from v.
ahead : (m v d : ℕ) → v < m → d < m → ((v + d) % m + m - v) % m ≡ d
ahead m v d hv hd = elim (Bool-cases (ltb (v + d) m)) [
  | inl near ↦ ahead_near m v d (ltb→lt (v + d) m near)
  | inr wrapped ↦ ahead_wrapped m v d hv hd (ground (arith, wrapped))
]

-- Finger i of a node is looked up by an identifier of the space that lies 2 ^ i steps clockwise from
-- the node.
finger_target_lem :
    {sp : Space} {self : Bytes} (i : ℕ)
    → IsSpace sp
    → IsId sp self
    → i < sp.bits
    → (r : Bytes) × (finger_target sp self i ≡ ok r)
      × IsId sp r
      × (distance (2 ^ sp.bits) (to_big_int self) (to_big_int r) ≡ 2 ^ i)
unfolding finger_target
finger_target_lem {sp} {self} i s is h =
    let m = 2 ^ sp.bits in
    let v = to_big_int self in
    let (r, e, ir, value) = from_big_int_lem s ((v + 2 ^ i) % m) (mod-lt _ (pow_pos sp.bits)) in
    (
      r,
      e,
      ir,
      rw value (
          ahead m v (2 ^ i) is.fits
            (omega (arith, pow_mono (suc i) sp.bits h, two-pow-suc i, pow_pos i))),
    )

-- The entries from index j on hold no node between self and the identifier.
abbrev pub NoneFrom : Bytes → Bytes → RoutingEntries → ℕ → Type 0
NoneFrom self id fingers j =
    (k : ℕ) (node : Node) → j ≤ k → entry_at fingers k ≡ some node → between node.id self id ≡ false

NoneFrom-after :
    (self id : Bytes) (finger : Option Node) (fingers : RoutingEntries) (j : ℕ)
    → NoneFrom self id fingers j
    → NoneFrom self id (finger ∷ fingers) (suc j)
unfolding entry_at
NoneFrom-after self id finger fingers j later zero n h found = absurd (omega arith)
NoneFrom-after self id finger fingers j later (suc k) n h found = later k n (omega arith) found

NoneFrom-cons :
    (self id : Bytes) (finger : Option Node) (fingers : RoutingEntries)
    → ((n : Node) → finger ≡ some n → between n.id self id ≡ false)
    → NoneFrom self id fingers 0
    → NoneFrom self id (finger ∷ fingers) 0
unfolding entry_at
NoneFrom-cons self id finger fingers out later zero n h found = out n found
NoneFrom-cons self id finger fingers out later (suc k) n h found = later k n (omega arith) found

-- What a scan from the last entry down finds: the last node between self and the identifier, if any.
abbrev pub LastBetween : Bytes → Bytes → RoutingEntries → Option Node → Type 0
LastBetween self id fingers found =
    ((found ≡ none) × NoneFrom self id fingers 0)
    ⊎ ((j : ℕ) × (node : Node) × (found ≡ some node)
        × (entry_at fingers j ≡ some node)
        × (between node.id self id ≡ true)
        × NoneFrom self id fingers (suc j))

last_between-LastBetween :
    (self id : Bytes) (fingers : RoutingEntries)
    → LastBetween self id fingers (last_between self id fingers)
unfolding last_between
last_between-LastBetween self id [] = inl (refl, λ k node h e. absurd (unfold entry_at in cc))
last_between-LastBetween self id (finger ∷ fingers) =
    elim (last_between-LastBetween self id fingers) [
      | inr (j, node, e, here, within, later) ↦ inr (
        suc j,
        node,
        rw (e, last_between) refl,
        unfold entry_at in here,
        within,
        NoneFrom-after self id finger fingers (suc j) later,
      )
      | inl (e, later) ↦ elim (Option-cases finger) [
        | inl empty ↦ inl (
          rw (e, last_between, empty) refl,
          NoneFrom-cons self id finger fingers (λ n found. ground (arith, empty, found)) later,
        )
        | inr (n, holds) ↦ elim (Bool-cases (between n.id self id)) [
          | inl within ↦ inr (
            0,
            n,
            rw (e, last_between, holds) (rw within refl),
            unfold entry_at in holds,
            within,
            NoneFrom-after self id finger fingers 0 later,
          )
          | inr out ↦ inl (
            rw (e, last_between, holds) (rw out refl),
            NoneFrom-cons self id finger fingers (λ m found. ground (arith, holds, found, out))
                later,
          )
        ]
      ]
    ]

-- ClosestPrecedingNode returns the finger with the highest index whose node lies between self and the
-- identifier, in the sense of Between, or self when no finger does.
closest_preceding_node-LastBetween :
    (id : Bytes) (rt : FingerTable)
    → (found : Option Node) × LastBetween rt.self.id id rt.fingers found
      × (closest_preceding_node id rt ≡ elim found [ some node ↦ node | none ↦ rt.self ])
unfolding closest_preceding_node
closest_preceding_node-LastBetween id rt =
    (_, last_between-LastBetween rt.self.id id rt.fingers, refl)
