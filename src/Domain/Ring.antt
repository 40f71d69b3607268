-- ===== src/Domain/Ring.antt =====
-- internal/domain/identifier.go: Cmp, Equal and Between, against distances on the ring.
use koorde_dht_web_cache.Prelude.{
  ℕ, ◌+◌, ◌-◌, ◌%◌, ◌^◌, ◌≤◌, ◌<◌, ◌≡◌, ◌≢◌, ◌↔◌, ◌⊎◌, ap, arith, Bool, true, false, ◌&&◌, ◌||◌,
  not, compare, Ordering, Bytes, bytes_compare, bytes_eq, sym, ◌∙◌,
}
use koorde_dht_web_cache.Prelude.{bytes_eq_iff}
use koorde_dht_web_cache.Prelude.Pow.{mod_unique}
use native.Mathlib.Nat.{mod-eq_of_lt}
use koorde_dht_web_cache.Domain.Space.{Space}
use koorde_dht_web_cache.Domain.Value.{to_big_int, to_big_int-injective, bytes_compare-to_big_int}
use koorde_dht_web_cache.Domain.Valid.{IsId}

unfoldable pub cmp : Bytes → Bytes → Ordering
cmp x b = bytes_compare x b

unfoldable pub equal : Bytes → Bytes → Bool
equal x b = bytes_eq x b

-- `c < 0` and `c <= 0` for the result of Cmp.
abbrev pub is_lt : Ordering → Bool
is_lt Ordering.lt = true
is_lt _ = false

abbrev pub is_le : Ordering → Bool
is_le Ordering.gt = false
is_le _ = true

-- x ∈ (a, b] on the ring.
unfoldable pub between : Bytes → Bytes → Bytes → Bool
between x a b =
    let acmp = cmp a x in
    let xbcmp = cmp x b in
    elim (cmp a b) [
      | Ordering.eq ↦ true
      | Ordering.lt ↦ is_lt acmp && is_le xbcmp
      | Ordering.gt ↦ is_lt acmp || is_le xbcmp
    ]

-- The steps from a to x, clockwise on a ring of m identifiers.
abbrev pub distance : ℕ → ℕ → ℕ → ℕ
distance m a x = (x + m - a) % m

-- The same test on the numbers.
abbrev pub between_values : ℕ → ℕ → ℕ → Bool
between_values x a b = elim (compare a b) [
  | Ordering.eq ↦ true
  | Ordering.lt ↦ is_lt (compare a x) && is_le (compare x b)
  | Ordering.gt ↦ is_lt (compare a x) || is_le (compare x b)
]

pub distance_forward : (m a x : ℕ) → a ≤ x → x < m → distance m a x ≡ x - a
distance_forward m a x le lt = mod_unique (x + m - a) m 1 (x - a) (omega arith) (omega arith)

pub distance_wrapped : (m a x : ℕ) → x < a → a < m → distance m a x ≡ x + m - a
distance_wrapped m a x lt h = mod-eq_of_lt (omega arith)

between_values_iff :
    (m x a b : ℕ)
    → x < m
    → a < m
    → b < m
    → (between_values x a b ≡ true)
      ↔ ((a ≡ b) ⊎ (0 < distance m a x) × (distance m a x ≤ distance m a b))
between_values_iff m x a b hx ha hb = (λ h. ground (arith, facts, h), λ h. ground (arith, facts, h))
  where
    facts :
        (a ≤ x → distance m a x ≡ x - a)
        × (x < a → distance m a x ≡ x + m - a)
        × (a ≤ b → distance m a b ≡ b - a)
        × (b < a → distance m a b ≡ b + m - a)
    facts = (
      λ h. distance_forward m a x h hx,
      λ h. distance_wrapped m a x h ha,
      λ h. distance_forward m a b h hb,
      λ h. distance_wrapped m a b h ha,
    )

module _ {sp : Space} where
  -- Cmp of two identifiers of a space is the comparison of their numbers.
  pub cmp_value :
      {a b : Bytes} → IsId sp a → IsId sp b → cmp a b ≡ compare (to_big_int a) (to_big_int b)
  unfolding cmp
  cmp_value {a} {b} ia ib = bytes_compare-to_big_int a b ia.bytes ib.bytes (ia.size ∙ sym ib.size)

  -- Two identifiers of a space are Equal exactly when they stand for one number.
  pub equal_iff :
      {a b : Bytes} → IsId sp a → IsId sp b → (equal a b ≡ true) ↔ (to_big_int a ≡ to_big_int b)
  unfolding equal
  equal_iff {a} {b} ia ib = (
    λ h. ap to_big_int ((bytes_eq_iff a b).0 h),
    λ e.
        (bytes_eq_iff a b).1 (to_big_int-injective a b ia.bytes ib.bytes (ia.size ∙ sym ib.size) e),
  )

  pub between-values :
      {x a b : Bytes}
      → IsId sp x
      → IsId sp a
      → IsId sp b
      → between x a b ≡ between_values (to_big_int x) (to_big_int a) (to_big_int b)
  unfolding between
  between-values ix ia ib = ground (arith, cmp_value ia ib, cmp_value ia ix, cmp_value ix ib)

  -- Between holds exactly when a and b are one identifier, or x is met after a, clockwise, and no
  -- later than b.
  pub between_iff :
      {x a b : Bytes}
      → IsId sp x
      → IsId sp a
      → IsId sp b
      → let d = λ (u : Bytes) (v : Bytes). distance (2 ^ sp.bits) (to_big_int u) (to_big_int v) in
        (between x a b ≡ true) ↔ ((to_big_int a ≡ to_big_int b) ⊎ (0 < d a x) × (d a x ≤ d a b))
  between_iff ix ia ib =
      rw (between-values ix ia ib) (between_values_iff (2 ^ sp.bits) _ _ _ ix.fits ia.fits ib.fits)

  -- Two different identifiers cut the ring in two: every identifier lies in exactly one of (a, b]
  -- and (b, a].
  pub between_partition :
      {x a b : Bytes}
      → IsId sp x
      → IsId sp a
      → IsId sp b
      → a ≢ b
      → between x b a ≡ not (between x a b)
  between_partition {x} {a} {b} ix ia ib ne =
      rw (between-values ix ia ib, between-values ix ib ia)
        (halves (to_big_int x) (to_big_int a) (to_big_int b)
          (λ e. ne (to_big_int-injective a b ia.bytes ib.bytes (ia.size ∙ sym ib.size) e)))
    where
      halves : (x a b : ℕ) → a ≢ b → between_values x b a ≡ not (between_values x a b)
      halves x a b ne = ground arith
