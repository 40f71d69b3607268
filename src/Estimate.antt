-- ===== src/Estimate.antt =====
-- internal/node/logicnode/operation.go: EstimateNetworkSize, from the distance to the first successor.
-- `big.Int.Int64` is documented for values that an int64 holds only, so it is an argument here.
use koorde_dht_web_cache.Prelude.{
  ℕ, ◌+◌, ◌-◌, ◌/◌, ◌%◌, ◌^◌, ◌≤◌, ◌<◌, ◌≡◌, refl, sym, ◌∙◌, arith, false, List, [], ◌∷◌, ltb, ◌==◌,
  if◌then◌else◌, ℤ, pos, negsuc, Bool-cases, inl, inr,
}
use native.Mathlib.Nat.{mod-eq_of_lt, mod-lt, le-div_iff_mul-le}
use koorde_dht_web_cache.Prelude.Pow.{mod_unique, pow_pos}
use koorde_dht_web_cache.Domain.Space.{Space}
use koorde_dht_web_cache.Domain.Value.{to_big_int}
use koorde_dht_web_cache.Domain.Valid.{IsId}
use koorde_dht_web_cache.Domain.Hex.{Node}
use koorde_dht_web_cache.Domain.Ring.{equal, equal_iff, distance}
use koorde_dht_web_cache.Domain.Imaginary.{region_size}
use koorde_dht_web_cache.Routing.{RoutingTable, successor_list}

-- `if estimatedN < 1` and `if estimatedN > 1000000`.
unfoldable pub clamp : ℤ → ℕ
clamp (negsuc n) = 1
clamp (pos n) = if ltb n 1 then 1 else (if ltb 1000000 n then 1000000 else n)

-- The distance is computed as in BestImaginary.
unfoldable pub estimate_from : (ℕ → ℤ) → RoutingTable → List Node → ℕ
estimate_from int64 rt [] = 1
estimate_from int64 rt (succ ∷ _) =
    let d = region_size rt.space (to_big_int rt.self.id) (to_big_int succ.id) in
    if equal succ.id rt.self.id
    then 1
    else (if d == 0 then 1 else clamp (int64 (2 ^ rt.space.bits / d)))

unfoldable pub estimate_network_size : (ℕ → ℤ) → RoutingTable → ℕ
estimate_network_size int64 rt = estimate_from int64 rt (successor_list rt)

region_size-distance :
    (sp : Space) (a b : ℕ)
    → a < 2 ^ sp.bits
    → b < 2 ^ sp.bits
    → (a ≡ b → ⊥)
    → (region_size sp a b ≡ distance (2 ^ sp.bits) a b) × (0 < region_size sp a b)
unfolding region_size
region_size-distance sp a b ha hb ne = elim (Bool-cases (ltb a b)) [
  | inl ahead ↦ rw ahead (
    sym (mod_unique (b + 2 ^ sp.bits - a) (2 ^ sp.bits) 1 (b - a) (ground arith) (ground arith)),
    ground arith,
  )
  | inr behind ↦
      let small : b + 2 ^ sp.bits - a < 2 ^ sp.bits = ground arith in
      let kept : (b + 2 ^ sp.bits - a) % 2 ^ sp.bits ≡ b + 2 ^ sp.bits - a = mod-eq_of_lt small in
      rw (behind, kept) (ground arith, ground arith)
]

clamp_bounds : (v : ℤ) → (1 ≤ clamp v) × (clamp v ≤ 1000000)
unfolding clamp
clamp_bounds (negsuc n) = (omega arith, omega arith)
clamp_bounds (pos n) = (ground arith, ground arith)

from_list_bounds :
    (int64 : ℕ → ℤ) (rt : RoutingTable) (l : List Node)
    → (1 ≤ estimate_from int64 rt l) × (estimate_from int64 rt l ≤ 1000000)
unfolding estimate_from
from_list_bounds int64 rt [] = (omega arith, omega arith)
from_list_bounds int64 rt (succ ∷ rest) =
    let d = region_size rt.space (to_big_int rt.self.id) (to_big_int succ.id) in
    elim (Bool-cases (equal succ.id rt.self.id)) [
      | inl alone ↦ rw alone (omega arith, omega arith)
      | inr other ↦ elim (Bool-cases (d == 0)) [
        | inl none ↦ rw (other, none) (omega arith, omega arith)
        | inr some ↦ rw (other, some) (clamp_bounds (int64 (2 ^ rt.space.bits / d)))
      ]
    ]

-- EstimateNetworkSize is between 1 and 1000000, whatever Int64 returns.
pub estimate_bounds :
    (int64 : ℕ → ℤ) (rt : RoutingTable)
    → (1 ≤ estimate_network_size int64 rt) × (estimate_network_size int64 rt ≤ 1000000)
unfolding estimate_network_size
estimate_bounds int64 rt = from_list_bounds int64 rt (successor_list rt)

-- For identifiers of the space, with a first successor other than the node itself, the estimate is
-- the size of the ring divided by the clockwise distance to that successor, or 1000000 if that is
-- less, when Int64 keeps the quotient.
pub estimate_network_size_lem :
    (int64 : ℕ → ℤ) (rt : RoutingTable) (succ : Node) (rest : List Node)
    → successor_list rt ≡ succ ∷ rest
    → IsId rt.space rt.self.id
    → IsId rt.space succ.id
    → equal succ.id rt.self.id ≡ false
    → let d = distance (2 ^ rt.space.bits) (to_big_int rt.self.id) (to_big_int succ.id) in
      int64 (2 ^ rt.space.bits / d) ≡ pos (2 ^ rt.space.bits / d)
      → estimate_network_size int64 rt
        ≡ (if ltb 1000000 (2 ^ rt.space.bits / d) then 1000000 else 2 ^ rt.space.bits / d)
unfolding estimate_network_size estimate_from clamp
estimate_network_size_lem int64 rt succ rest e hs hn other keeps =
    let apart = λ (same : to_big_int rt.self.id ≡ to_big_int succ.id).
      absurd {A = ⊥} (cc (sym other ∙ (equal_iff hn hs).1 (sym same))) in
    let (region, positive) =
      region_size-distance rt.space (to_big_int rt.self.id) (to_big_int succ.id) hs.fits hn.fits
        apart in
    let some : (region_size rt.space (to_big_int rt.self.id) (to_big_int succ.id) == 0) ≡ false =
      ground (arith, positive) in
    let m = 2 ^ rt.space.bits in
    let d = distance m (to_big_int rt.self.id) (to_big_int succ.id) in
    let turn : d < m =
      mod-lt (to_big_int succ.id + m - to_big_int rt.self.id) (pow_pos rt.space.bits) in
    let above : 0 < d = rw (sym region) positive in
    let once : 1 ≤ m / d = (le-div_iff_mul-le {k = d} above).1 (omega (arith, turn)) in
    let whole : ltb (m / d) 1 ≡ false = ground (arith, once) in
    rw (e, other, some, region, keeps, whole) refl
