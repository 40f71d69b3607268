-- ===== src/Domain/Build.antt =====
-- NewSpace (internal/domain/identifier.go): which configurations it accepts, and what it builds.
use koorde_dht_web_cache.Prelude.{
  ℕ, zero, suc, ◌-◌, ◌/◌, ◌%◌, ◌^◌, ◌≤◌, ◌<◌, ◌≡◌, ap, arith, bit_and, ℤ, pos, ok,
}
use koorde_dht_web_cache.Prelude.Bits.{bit_and_step, bit_and_self, bit_and_mask}
use koorde_dht_web_cache.Prelude.Pow.{two-pow-suc, pow_mono}
use koorde_dht_web_cache.Domain.Space.{Space, new_space}
use koorde_dht_web_cache.Domain.Valid.{IsSpace}
use native.Mathlib.Nat.{mod_self}
use native.Mathlib.Decide.{ℕ_discrete}

-- `d & (d - 1) == 0` holds of the powers of two only.
power_of_two : (n d : ℕ) → d ≤ n → 0 < d → bit_and d (d - 1) ≡ 0 → (r : ℕ) × (d ≡ 2 ^ r)
power_of_two zero d le pos_d e = absurd (omega arith)
power_of_two (suc n) d le pos_d e = elim (ℕ_discrete (d % 2) 0) [
  | yes even ↦
      let h : (d - 1) / 2 ≡ d / 2 - 1 = omega arith in
      let (r, er) =
        power_of_two n (d / 2) (omega arith) (omega arith)
          (omega (arith, bit_and_step d (d - 1), ap (λ (t : ℕ). bit_and (d / 2) t) h)) in
      (suc r, omega (arith, two-pow-suc r, er))
  | no odd ↦
      let h : (d - 1) / 2 ≡ d / 2 = omega arith in
      (
        0,
        omega (
          arith,
          bit_and_step d (d - 1),
          ap (λ (t : ℕ). bit_and (d / 2) t) h,
          bit_and_self (d / 2),
        ),
      )
]

digit_bits_pos : (d r : ℕ) → 2 ≤ d → d ≡ 2 ^ r → 0 < r
digit_bits_pos d zero h e = absurd (omega arith)
digit_bits_pos d (suc r) h e = omega arith

-- NewSpace returns a space only for the parameters that it should accept, and returns the space
-- with those parameters.
pub new_space_sound :
    (b degree succ_list_size : ℤ) {sp : Space}
    → new_space b degree succ_list_size ≡ ok sp
    → IsSpace sp
      × (b ≡ pos sp.bits)
      × (degree ≡ pos sp.graph_grade)
      × (succ_list_size ≡ pos sp.succ_list_size)
unfolding new_space
new_space_sound (pos b) (pos d) (pos l) {sp} h =
    let (r, e) = power_of_two d d (omega arith) (ground arith) (ground arith) in
    (
      record {
        bits_pos = ground arith;
        whole_bytes = ground arith;
        digit_bits = r;
        digit_pos = digit_bits_pos d r (ground arith) e;
        grade_pow = ground arith;
        succ_pos = ground arith;
      },
      ground arith,
      ground arith,
      ground arith,
    )
new_space_sound b d l h = absurd (ground arith)

-- Every space that IsSpace describes is built by NewSpace from its own parameters.
pub new_space_complete :
    {sp : Space}
    → IsSpace sp
    → new_space (pos sp.bits) (pos sp.graph_grade) (pos sp.succ_list_size) ≡ ok sp
unfolding new_space
new_space_complete {sp} s =
    ground (arith, s.bits_pos, s.whole_bytes, s.succ_pos, s.grade_pow, at_least_two, no_common_bit)
  where
    at_least_two : 2 ≤ sp.graph_grade
    at_least_two = omega (arith, s.grade_pow, pow_mono 1 s.digit_bits s.digit_pos)

    no_common_bit : bit_and sp.graph_grade (sp.graph_grade - 1) ≡ 0
    no_common_bit = omega (
      arith,
      bit_and_mask s.digit_bits (2 ^ s.digit_bits),
      mod_self (2 ^ s.digit_bits),
      ap (λ (t : ℕ). bit_and t (t - 1)) s.grade_pow,
    )
