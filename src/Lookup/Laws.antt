-- ===== src/Lookup/Laws.antt =====
-- The numbers that the next imaginary node and the shifted target of a lookup stand for.
use koorde_dht_web_cache.Prelude.{
  ℕ, ◌+◌, ◌-◌, ◌*◌, ◌/◌, ◌%◌, ◌^◌, ◌≤◌, ◌≡◌, sym, ap, ◌∙◌, arith, Bytes, ok,
}
use koorde_dht_web_cache.Prelude.Pow.{pow_mono}
use koorde_dht_web_cache.Domain.Space.{Space}
use koorde_dht_web_cache.Domain.Value.{to_big_int}
use koorde_dht_web_cache.Domain.Valid.{IsSpace, IsId}
use koorde_dht_web_cache.Domain.Arith.{from_uint64, from_uint64_lem, mul_k_mod_lem, add_mod_lem}
use koorde_dht_web_cache.Domain.Digits.Laws.{next_digit_base_k_lem}
use koorde_dht_web_cache.Lookup.{imaginary_step}
use native.Mathlib.Nat.{add-mod, div-add-mod, mul-add-mod_self_left}

-- What the state of a lookup stands for: two identifiers with given numbers.
pub record Stands (sp : Space) (i k : ℕ) (state : Bytes × Bytes) : Type 0 where
  pub first : IsId sp state.0
  pub second : IsId sp state.1
  pub first_value : to_big_int state.0 ≡ i
  pub second_value : to_big_int state.1 ≡ k

-- A remainder may be taken before a digit is appended.
pub mod_horner : (x m r d : ℕ) → (x % m * r + d) % m ≡ (x * r + d) % m
mod_horner x m r d =
    let e : m * (x / m * r) + (x % m * r + d) ≡ x * r + d =
      omega (arith, ap (λ (v : ℕ). v * r) (div-add-mod x m)) in
    sym (mul-add-mod_self_left m (x / m * r) (x % m * r + d)) ∙ ap (λ (v : ℕ). v % m) e

module _ {sp : Space} (s : IsSpace sp) where
  pub imaginary_step_lem :
      {i k : Bytes}
      → IsId sp i
      → IsId sp k
      → s.digit_bits ≤ 8
      → s.digit_bits ≤ sp.bits
      → (state : Bytes × Bytes) × (imaginary_step sp i k ≡ ok state)
        × Stands sp
            ((to_big_int i * 2 ^ s.digit_bits + to_big_int k / 2 ^ (sp.bits - s.digit_bits))
              % 2 ^ sp.bits)
            (to_big_int k * 2 ^ s.digit_bits % 2 ^ sp.bits)
            state
  unfolding imaginary_step
  imaginary_step_lem {i} {k} hi hk short fits =
      let (rest, reads, id_rest, v_rest) = next_digit_base_k_lem s hk short fits in
      let digit = to_big_int k / 2 ^ (sp.bits - s.digit_bits) in
      let small : sp.graph_grade ≤ 2 ^ 56 =
        omega (arith, s.grade_pow, pow_mono s.digit_bits 8 short) in
      let (product, multiplies, id_product, v_product) = mul_k_mod_lem s i hi small in
      let (id_digit, v_digit) = from_uint64_lem s digit in
      let (next, adds, id_next, v_next) =
        add_mod_lem s product (from_uint64 sp digit) id_product id_digit in
      (
        (next, rest),
        rw (reads, multiplies, adds),
        record {
          first = id_next;
          second = id_rest;
          first_value =
              v_next
              ∙ rw (v_product, v_digit, ← add-mod)
                  (ap (λ (g : ℕ). (g * to_big_int i + digit) % 2 ^ sp.bits) s.grade_pow
                    ∙ ap (λ (g : ℕ). (g + digit) % 2 ^ sp.bits) (omega arith));
          second_value = v_rest;
        },
      )
