-- ===== src/Domain/Imaginary/Laws.antt =====
-- BestImaginary always finds a start, in the interval that this node is responsible for.
use koorde_dht_web_cache.Prelude.{
  ℕ, ◌+◌, ◌-◌, ◌%◌, ◌^◌, ◌<◌, ◌≡◌, ap, ◌∙◌, arith, inl, inr, true, Bool-cases, Bytes, ok,
}
use koorde_dht_web_cache.Prelude.Bits.{bit_and-le, bit_or-lt}
use koorde_dht_web_cache.Prelude.Pow.{pow_mono}
use koorde_dht_web_cache.Domain.Space.{Space}
use koorde_dht_web_cache.Domain.Value.{to_big_int}
use koorde_dht_web_cache.Domain.Valid.{IsSpace, IsId, is_valid_id_iff}
use koorde_dht_web_cache.Domain.Arith.{from_uint64, from_uint64_lem, add_mod_lem}
use koorde_dht_web_cache.Domain.Ring.{between, between-values}
use koorde_dht_web_cache.Domain.BigInt.{from_big_int_lem}
use koorde_dht_web_cache.Domain.Imaginary.{
  best_imaginary_simple, best_imaginary, region_size, settable_bits, imaginary_value, in_interval,
}
use native.Mathlib.Nat.{mod-eq_of_lt, mod_self, div-le_self}

module _ {sp : Space} (s : IsSpace sp) where
  imaginary_value-lt :
      (n self target : ℕ)
      → self < 2 ^ sp.bits
      → target < 2 ^ sp.bits
      → imaginary_value sp n self target < 2 ^ sp.bits
  unfolding imaginary_value
  imaginary_value-lt n self target h k =
      bit_or-lt sp.bits _ _ (omega (arith, bit_and-le self _))
        (omega (arith, div-le_self target (2 ^ (sp.bits - n))))

  module _ {self succ : Bytes} (is : IsId sp self) (ic : IsId sp succ) where
    -- The identifier after self lies in (self, succ].
    next_between :
        {r : Bytes}
        → IsId sp r
        → to_big_int r ≡ (to_big_int self + 1) % 2 ^ sp.bits
        → between r self succ ≡ true
    next_between {r} ir e = rw (between-values ir is ic) (
        ground (
          arith,
          λ (lt : to_big_int self + 1 < 2 ^ sp.bits). mod-eq_of_lt lt,
          λ (top : to_big_int self + 1 ≡ 2 ^ sp.bits). ap (λ (t : ℕ). t % 2 ^ sp.bits) top,
          mod_self (2 ^ sp.bits),
        ))

    -- What in_interval accepts lies in (self, succ].
    chosen_between :
        {r : Bytes}
        → IsId sp r
        → in_interval (to_big_int r) (to_big_int self) (to_big_int succ) ≡ true
        → between r self succ ≡ true
    unfolding in_interval
    chosen_between {r} ir h = rw (between-values ir is ic) (ground arith)

    module _ {target : Bytes} (it : IsId sp target) where
      simple_lem :
          (r : Bytes) × (best_imaginary_simple sp self succ target ≡ ok (r, target))
          × IsId sp r
          × (between r self succ ≡ true)
      unfolding best_imaginary_simple
      simple_lem =
          let (one_id, one) = from_uint64_lem s 1 in
          let (r, e, ir, value) = add_mod_lem s self (from_uint64 sp 1) is one_id in
          let one' : to_big_int (from_uint64 sp 1) ≡ 1 =
            one ∙ mod-eq_of_lt (pow_mono 1 sp.bits s.bits_pos) in
          (r, rw e, ir, next_between ir (value ∙ rw one'))

      -- On identifiers of the space BestImaginary never fails: it returns the target unchanged and a
      -- start that is an identifier of the space in (self, succ].
      pub best_imaginary_lem :
          (r : Bytes) × (best_imaginary sp self succ target ≡ ok (r, target))
          × IsId sp r
          × (between r self succ ≡ true)
      unfolding best_imaginary
      best_imaginary_lem =
          let n = settable_bits sp (region_size sp (to_big_int self) (to_big_int succ)) in
          let v = imaginary_value sp n (to_big_int self) (to_big_int target) in
          rw
            (
              (is_valid_id_iff s self is.bytes).1 is,
              (is_valid_id_iff s succ ic.bytes).1 ic,
              (is_valid_id_iff s target it.bytes).1 it,
            )
            (elim (Bool-cases (in_interval v (to_big_int self) (to_big_int succ))) [
              | inl inside ↦
                  let (r, e, ir, value) =
                    from_big_int_lem s v (
                      imaginary_value-lt n (to_big_int self) (to_big_int target) is.fits it.fits) in
                  (r, rw (inside, e), ir, chosen_between ir (rw value inside))
              | inr outside ↦ rw outside simple_lem
            ])
