-- ===== src/Domain/Digits/Extract.antt =====
-- NextDigitBaseK: the loop that reads the leading bits, and TrailingZeros on a power of two.
use koorde_dht_web_cache.Prelude.{
  ℕ, zero, suc, ◌+◌, ◌-◌, ◌*◌, ◌/◌, ◌%◌, ◌^◌, ◌≤◌, ◌<◌, bit_and, bit_or, [], ◌∷◌, Bytes, ok, ◌≡◌,
  refl, ap, sym, ◌∙◌, arith, length, IsBytes, get_elem?, some,
}
use koorde_dht_web_cache.Prelude.Bits.{bit_and_mask, bit_or_shift}
use koorde_dht_web_cache.Prelude.Pow.{
  pow_pos, pow_256, pow-add, pow_split, two-pow-suc, div_of_parts,
}
use koorde_dht_web_cache.Domain.Value.{to_big_int, to_big_int-lt}
use native.Mathlib.Decide.{dec_lt}
use native.Mathlib.Nat.{mul_comm, div-div-eq-div-mul, mul-add-div}
use koorde_dht_web_cache.Domain.Digits.{trailing_zeros_loop, trailing_zeros, digit_loop}

trailing_zeros_loop-pow : (f r : ℕ) → r < f → trailing_zeros_loop f (2 ^ r) ≡ r
unfolding trailing_zeros_loop
trailing_zeros_loop-pow zero r h = absurd (omega arith)
trailing_zeros_loop-pow (suc f) zero h = refl
trailing_zeros_loop-pow (suc f) (suc r) h =
    let half : 2 ^ suc r / 2 ≡ 2 ^ r = omega (arith, two-pow-suc r) in
    let even : 2 ^ suc r % 2 ≡ 0 = omega (arith, two-pow-suc r) in
    rw (even, half) (ap suc (trailing_zeros_loop-pow f r (omega arith)))

-- On a degree 2 ^ r of a uint, TrailingZeros is r.
pub trailing_zeros-pow : (r : ℕ) → r < 64 → trailing_zeros (2 ^ r) ≡ r
unfolding trailing_zeros
trailing_zeros-pow r h = trailing_zeros_loop-pow 64 r h

-- The bit at position p from the left of L bytes is the bit of weight 2 ^ (8 L - 1 - p).
record BitAt (x : Bytes) (p : ℕ) : Type 0 where
  byte : ℕ
  found : get_elem? x (p / 8) ≡ some byte
  value : byte / 2 ^ (7 - p % 8) % 2 ≡ to_big_int x / 2 ^ (8 * length x - 1 - p) % 2

bit_at_head :
    (n p b v : ℕ)
    → p < 8
    → v < 256 ^ n
    → (b * 256 ^ n + v) / 2 ^ (8 * suc n - 1 - p) ≡ b / 2 ^ (7 - p % 8)
bit_at_head n p b v hp hv =
    let e : 8 * suc n - 1 - p ≡ 8 * n + (7 - p % 8) = omega arith in
    let top : (b * 256 ^ n + v) / 256 ^ n ≡ b =
      rw (mul_comm b (256 ^ n)) (div_of_parts (256 ^ n) b v hv) in
    rw (e, pow-add (8 * n) (7 - p % 8), ← pow_256 n)
      (sym (div-div-eq-div-mul _ (256 ^ n) (2 ^ (7 - p % 8)))
        ∙ ap (λ (t : ℕ). t / 2 ^ (7 - p % 8)) top)

bit_at_tail :
    (n p b v : ℕ)
    → 8 ≤ p
    → p < 8 * suc n
    → v < 256 ^ n
    → (b * 256 ^ n + v) / 2 ^ (8 * suc n - 1 - p) % 2 ≡ v / 2 ^ (8 * n - 1 - (p - 8)) % 2
bit_at_tail n p b v hp hn hv =
    let m = 8 * n - 1 - (p - 8) in
    let j = 8 * n - 1 - m in
    let e : 8 * suc n - 1 - p ≡ m = omega arith in
    let weight : 256 ^ n ≡ 2 ^ m * (2 * 2 ^ j) =
      pow_256 n
      ∙ pow_split m (8 * n) (omega arith)
      ∙ ap (λ (t : ℕ). 2 ^ m * t) (ap (λ (t : ℕ). 2 ^ t) (omega arith) ∙ two-pow-suc j) in
    let parts : b * 256 ^ n + v ≡ 2 ^ m * (2 * (b * 2 ^ j)) + v =
      omega (arith, ap (λ (t : ℕ). b * t) weight) in
    let top : (b * 256 ^ n + v) / 2 ^ m ≡ 2 * (b * 2 ^ j) + v / 2 ^ m =
      ap (λ (t : ℕ). t / 2 ^ m) parts ∙ mul-add-div (pow_pos m) (2 * (b * 2 ^ j)) v in
    ap (λ (t : ℕ). (b * 256 ^ n + v) / 2 ^ t % 2) e ∙ omega (arith, top)

bit_at : (x : Bytes) (p : ℕ) → IsBytes x → p < 8 * length x → BitAt x p
unfolding to_big_int
bit_at [] p h lt = absurd (omega arith)
bit_at (b ∷ bs) p h lt = elim (dec_lt p 8) [
  | yes first ↦
      let z : p / 8 ≡ 0 = omega arith in
      record {
        byte = b;
        found = rw z refl;
        value =
            ap (λ (t : ℕ). t % 2)
              (sym (bit_at_head (length bs) p b (to_big_int bs) first (to_big_int-lt bs h.1)));
      }
  | no later ↦
      let r = bit_at bs (p - 8) h.1 (omega arith) in
      let z : p / 8 ≡ suc ((p - 8) / 8) = omega arith in
      let w : p % 8 ≡ (p - 8) % 8 = omega arith in
      record {
        byte = r.byte;
        found = rw z r.found;
        value = rw w (
            r.value
            ∙ sym (
                bit_at_tail (length bs) p b (to_big_int bs) (omega arith) (omega arith)
                  (to_big_int-lt bs h.1)));
      }
]

digit_loop-suc :
    (x : Bytes) (left pos digit byte : ℕ)
    → get_elem? x (pos / 8) ≡ some byte
    → digit_loop x (suc left) pos digit
      ≡ digit_loop x left (pos + 1) (bit_or (digit * 2 ^ 1) (bit_and (byte / 2 ^ (7 - pos % 8)) 1))
unfolding digit_loop
digit_loop-suc x left pos digit byte e = rw (e, digit_loop)

-- Appending the bit of weight 2 ^ m to the number above it.
append_bit : (v m bit : ℕ) → bit ≡ v / 2 ^ m % 2 → bit_or (v / 2 ^ suc m * 2 ^ 1) bit ≡ v / 2 ^ m
append_bit v m bit e =
    let above : v / 2 ^ suc m ≡ v / 2 ^ m / 2 =
      rw (two-pow-suc m, mul_comm 2 (2 ^ m)) (sym (div-div-eq-div-mul v (2 ^ m) 2)) in
    bit_or_shift 1 _ bit (omega arith) ∙ omega arith

-- Reading `left` bits from position pos appends them to the bits before pos.
pub digit_loop_lem :
    (x : Bytes) (left pos : ℕ)
    → IsBytes x
    → pos + left ≤ 8 * length x
    → digit_loop x left pos (to_big_int x / 2 ^ (8 * length x - pos))
      ≡ ok (to_big_int x / 2 ^ (8 * length x - (pos + left)))
digit_loop_lem x zero pos h le =
    let e : pos + zero ≡ pos = omega arith in rw e (unfold digit_loop in refl)
digit_loop_lem x (suc left) pos h le =
    let r = bit_at x pos h (omega arith) in
    let m = 8 * length x - 1 - pos in
    let e : pos + suc left ≡ pos + 1 + left = omega arith in
    let width : 8 * length x - pos ≡ suc m = omega arith in
    let next_width : m ≡ 8 * length x - (pos + 1) = omega arith in
    let next =
      append_bit (to_big_int x) m (bit_and (r.byte / 2 ^ (7 - pos % 8)) 1)
        (bit_and_mask 1 _ ∙ r.value) in
    rw (digit_loop-suc x left pos _ r.byte r.found, width, next, next_width, e)
      (digit_loop_lem x left (pos + 1) h (omega arith))
