-- ===== src/Domain/Target.antt =====
-- internal/domain/identifier.go: ComputeFaultTolerantTarget. `big.Int` values that can fall below 0
-- are integers here.
use koorde_dht_web_cache.Prelude.{
  ℕ, zero, suc, ◌+◌, ◌-◌, ◌*◌, ◌/◌, ◌%◌, ◌^◌, ◌≤◌, ◌<◌, ◌≡◌, refl, ap, sym, ◌∙◌, arith, inl, inr,
  leb, ◌==◌, if◌then◌else◌, true, false, Bytes, Outcome, ok, ◌>>=◌, ◌>>◌, ensure, invalid_id, ℤ,
  pos, negsuc, Bool-cases,
}
use koorde_dht_web_cache.Prelude.Pow.{pow_pos}
use koorde_dht_web_cache.Domain.Space.{Space, is_valid_id}
use koorde_dht_web_cache.Domain.Value.{to_big_int}
use koorde_dht_web_cache.Domain.Valid.{IsSpace, IsId, is_valid_id_iff}
use koorde_dht_web_cache.Domain.Arith.{mul_k_mod, mul_k_mod_lem}
use koorde_dht_web_cache.Domain.BigInt.{
  bit_len, bit_len-le, bit_len_pos, bit_len-bounds, from_big_int, from_big_int_lem,
}
use native.Mathlib.Nat.{add-mod_right, mod-lt, mul-le-mul_left, div-le_of_le-mul, mul_comm}

-- `if estimatedN <= 0 { estimatedN = 1 }`
abbrev pub at_least_one : ℤ → ℕ
at_least_one (pos zero) = 1
at_least_one (pos (suc n)) = suc n
at_least_one (negsuc n) = 1

-- a - b, `if x.Sign() < 0 { x.Add(x, max) }` and `x.Mod(x, max)`, whose result is never negative.
abbrev sub_big : ℕ → ℕ → ℤ
sub_big a b = if leb b a then pos (a - b) else negsuc (b - a - 1)

abbrev wrap_negative : ℕ → ℤ → ℤ
wrap_negative max (pos a) = pos a
wrap_negative max (negsuc a) = sub_big max (suc a)

abbrev mod_big : ℕ → ℤ → ℕ
mod_big max (pos a) = a % max
mod_big max (negsuc a) = max - 1 - a % max

-- x = 2^b * log n / n
unfoldable pub target_offset : Space → ℕ → ℕ
target_offset sp n = let log_n = if bit_len n == 0 then 1 else bit_len n in 2 ^ sp.bits * log_n / n

unfoldable pub compute_fault_tolerant_target : Space → Bytes → ℤ → Outcome Bytes
compute_fault_tolerant_target sp self estimated_n = do
  ensure (is_valid_id sp self) invalid_id
  let n = at_least_one estimated_n
  target ← mul_k_mod sp self
  let max_id = 2 ^ sp.bits
  let moved = wrap_negative max_id (sub_big (to_big_int target) (target_offset sp n))
  from_big_int sp (mod_big max_id moved)

at_least_one_pos : (n : ℤ) → 0 < at_least_one n
at_least_one_pos (pos zero) = omega arith
at_least_one_pos (pos (suc n)) = omega arith
at_least_one_pos (negsuc n) = omega arith

-- The offset is at most one turn of the ring, since log n is at most n.
target_offset-le : (sp : Space) (n : ℕ) → 0 < n → target_offset sp n ≤ 2 ^ sp.bits
unfolding target_offset
target_offset-le sp n h =
    let some_bits : (bit_len n == 0) ≡ false = ground (arith, bit_len_pos n h) in
    rw some_bits (
      div-le_of_le-mul n
        (rw (mul_comm n (2 ^ sp.bits)) (mul-le-mul_left (2 ^ sp.bits) (bit_len-le n))))

moved_back :
    (max t o : ℕ)
    → t < max
    → o ≤ max
    → mod_big max (wrap_negative max (sub_big t o)) ≡ (t + max - o) % max
moved_back max t o ht ho = elim (Bool-cases (leb o t)) [
  | inl down ↦
      let e : t + max - o ≡ t - o + max = ground arith in
      rw (down, e) (sym (add-mod_right (t - o) max))
  | inr over ↦
      let fits : leb (suc (o - t - 1)) max ≡ true = ground arith in
      let e : max - suc (o - t - 1) ≡ t + max - o = ground arith in rw (over, fits, e) refl
]

target_offset_lem :
    (sp : Space) (n : ℕ)
    → 0 < n
    → (l : ℕ) × (2 ^ l ≤ n) × (n < 2 ^ suc l) × (target_offset sp n ≡ 2 ^ sp.bits * suc l / n)
unfolding target_offset
target_offset_lem sp n h =
    let (l, e, low, high) = bit_len-bounds n h in
    let positive : (suc l == 0) ≡ false = ground arith in (l, low, high, rw (e, positive) refl)

-- The target is the product of the degree and the identifier moved back, around the ring, by
-- 2^Bits (l + 1) / n, for the estimate n and the exponent l of the highest power of 2 up to n; that is
-- at most one turn of the ring. Estimates below 1 count as 1.
pub compute_fault_tolerant_target_lem :
    {sp : Space}
    → IsSpace sp
    → {self : Bytes} → IsId sp self
    → sp.graph_grade ≤ 2 ^ 56
    → (estimated_n : ℤ)
    → let m = 2 ^ sp.bits in
      let n = at_least_one estimated_n in
      (l : ℕ) × (2 ^ l ≤ n)
      × (n < 2 ^ suc l)
      × (m * suc l / n ≤ m)
      × ((r : Bytes) × (compute_fault_tolerant_target sp self estimated_n ≡ ok r)
          × IsId sp r
          × (to_big_int r ≡ (sp.graph_grade * to_big_int self % m + m - m * suc l / n) % m))
unfolding compute_fault_tolerant_target
compute_fault_tolerant_target_lem {sp} s {self} i h estimated_n =
    let n = at_least_one estimated_n in
    let x = target_offset sp n in
    let (l, low, high, offset) = target_offset_lem sp n (at_least_one_pos estimated_n) in
    let small = target_offset-le sp n (at_least_one_pos estimated_n) in
    let (t, et, it, vt) = mul_k_mod_lem s self i h in
    let moved = moved_back (2 ^ sp.bits) (to_big_int t) x it.fits small in
    let (r, er, ir, vr) =
      from_big_int_lem s ((to_big_int t + 2 ^ sp.bits - x) % 2 ^ sp.bits)
        (mod-lt _ (pow_pos sp.bits)) in
    (
      l,
      low,
      high,
      rw offset at small,
      (
        r,
        rw ((is_valid_id_iff s self i.bytes).1 i, et, moved) er,
        ir,
        vr
            ∙ ap (λ (v : ℕ). (v + 2 ^ sp.bits - x) % 2 ^ sp.bits) vt
            ∙ ap
                (λ (v : ℕ).
                  (sp.graph_grade * to_big_int self % 2 ^ sp.bits + 2 ^ sp.bits - v) % 2 ^ sp.bits)
                offset,
      ),
    )
