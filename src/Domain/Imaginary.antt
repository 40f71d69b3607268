-- ===== src/Domain/Imaginary.antt =====
-- internal/domain/identifier.go: BestImaginary and BestImaginarySimple, which choose the imaginary
-- node that a lookup starts from. The arithmetic of math/big is that of the natural numbers; no
-- difference that the code takes is negative.
pub mod Laws
use Prim.Native.Nat.{bit_xor}
use koorde_dht_web_cache.Prelude.{
  ℕ, ◌+◌, ◌-◌, ◌/◌, ◌^◌, bit_and, bit_or, Bool, ◌&&◌, ◌||◌, ltb, if◌then◌else◌, Bytes, Outcome, ok,
  ◌>>=◌, ◌>>◌, ensure, invalid_id,
}
use koorde_dht_web_cache.Domain.Space.{Space, is_valid_id}
use koorde_dht_web_cache.Domain.Value.{to_big_int}
use koorde_dht_web_cache.Domain.Arith.{from_uint64, add_mod}
use koorde_dht_web_cache.Domain.BigInt.{bit_len, from_big_int}

unfoldable pub best_imaginary_simple : Space → Bytes → Bytes → Bytes → Outcome (Bytes × Bytes)
best_imaginary_simple sp self succ target = do
  base ← add_mod sp self (from_uint64 sp 1)
  ok (base, target)

-- The distance from self to the successor.
unfoldable pub region_size : Space → ℕ → ℕ → ℕ
region_size sp self succ = if ltb self succ then succ - self else 2 ^ sp.bits - self + succ

-- The bits of the region less a margin of 2, between 0 and Bits.
unfoldable pub settable_bits : Space → ℕ → ℕ
settable_bits sp region =
    let margin : ℕ = 2 in
    let n = if ltb (bit_len region) margin then 0 else bit_len region - margin in
    if ltb sp.bits n then sp.bits else n

-- self with its low bits replaced by the top bits of the target.
unfoldable pub imaginary_value : Space → ℕ → ℕ → ℕ → ℕ
imaginary_value sp n self target =
    let top_bits = target / 2 ^ (sp.bits - n) in
    let mask_low = 2 ^ n - 1 in
    let mask_high = bit_xor (2 ^ sp.bits - 1) mask_low in bit_or (bit_and self mask_high) top_bits

unfoldable pub in_interval : ℕ → ℕ → ℕ → Bool
in_interval current self succ =
    if ltb self succ
    then ltb self current && ltb current succ
    else ltb self current || ltb current succ

unfoldable pub best_imaginary : Space → Bytes → Bytes → Bytes → Outcome (Bytes × Bytes)
best_imaginary sp self succ target = do
  ensure (is_valid_id sp self) invalid_id
  ensure (is_valid_id sp succ) invalid_id
  ensure (is_valid_id sp target) invalid_id
  let self_big = to_big_int self
  let succ_big = to_big_int succ
  let n = settable_bits sp (region_size sp self_big succ_big)
  let current = imaginary_value sp n self_big (to_big_int target)
  if in_interval current self_big succ_big
      then (from_big_int sp current >>= λ current_i. ok (current_i, target))
      else best_imaginary_simple sp self succ target
