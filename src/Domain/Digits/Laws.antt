-- ===== src/Domain/Digits/Laws.antt =====
-- NextDigitBaseK splits the leading digit from the rest.
use koorde_dht_web_cache.Prelude.{
  ℕ, zero, suc, ◌+◌, ◌-◌, ◌*◌, ◌/◌, ◌%◌, ◌^◌, ◌≤◌, ◌<◌, [], ◌∷◌, Bytes, ok, panic, ◌≡◌, refl, ap,
  sym, ◌∙◌, arith, length, inl, inr, get_elem?, Option-cases, ◌⊎◌,
}
use koorde_dht_web_cache.Domain.Space.{Space, mask_unused, extra_bits}
use koorde_dht_web_cache.Domain.Value.{to_big_int}
use koorde_dht_web_cache.Domain.Valid.{IsSpace, IsId, is_valid_id_iff}
use koorde_dht_web_cache.Domain.Arith.{masked_total}
use native.Mathlib.Nat.{div-eq_of_lt}
use koorde_dht_web_cache.Domain.Digits.{
  trailing_zeros, shift_left, shift_loop, digit_loop, next_digit_base_k,
}
use koorde_dht_web_cache.Domain.Digits.Extract.{digit_loop_lem, trailing_zeros-pow}
use koorde_dht_web_cache.Domain.Digits.Shift.{shift_loop-Shifted}

shift_left_cons :
    (r : ℕ) (x : Bytes) → r ≤ 8 → 0 < length x → shift_left r x ≡ ok (shift_loop r x).1
unfolding shift_left
shift_left_cons r [] h l = absurd (omega arith)
shift_left_cons r (v ∷ vs) h l = ground arith

shift_left_panics : (r : ℕ) (x : Bytes) → 8 < r → 0 < length x → shift_left r x ≡ panic
unfolding shift_left
shift_left_panics r [] h l = absurd (omega arith)
shift_left_panics r (v ∷ vs) h l = ground arith

digit_loop_cases :
    (x : Bytes) (left pos digit : ℕ)
    → (digit_loop x left pos digit ≡ panic) ⊎ ((d : ℕ) × (digit_loop x left pos digit ≡ ok d))
unfolding digit_loop
digit_loop_cases x zero pos digit = inr (digit, refl)
digit_loop_cases x (suc left) pos digit = elim (Option-cases (get_elem? x (pos / 8))) [
  | inl out ↦ rw (out, digit_loop) (inl refl)
  | inr (byte, found) ↦ rw (found, digit_loop) (digit_loop_cases x left (pos + 1) _)
]

module _ {sp : Space} (s : IsSpace sp) {x : Bytes} (i : IsId sp x) where
  -- The unused high bits of an identifier are zero.
  high_zero : to_big_int x / 2 ^ (8 * length x - extra_bits sp) ≡ 0
  unfolding extra_bits
  high_zero =
      let e : 8 * length x - extra_bits sp ≡ sp.bits = omega (arith, i.size, s.whole_bytes) in
      rw e (div-eq_of_lt i.fits)

  digit_width : s.digit_bits < 64 → trailing_zeros sp.graph_grade ≡ s.digit_bits
  digit_width word = ap trailing_zeros s.grade_pow ∙ trailing_zeros-pow s.digit_bits word

  digit_read :
      s.digit_bits ≤ sp.bits
      → digit_loop x s.digit_bits (extra_bits sp) 0
        ≡ ok (to_big_int x / 2 ^ (sp.bits - s.digit_bits))
  digit_read fits =
      ap (digit_loop x s.digit_bits (extra_bits sp)) (sym high_zero)
      ∙ digit_loop_lem x s.digit_bits (extra_bits sp) i.bytes
          (unfold extra_bits in omega (arith, i.size, s.whole_bytes))
      ∙ ap (λ (k : ℕ). ok (to_big_int x / 2 ^ k))
          (unfold extra_bits in omega (arith, i.size, s.whole_bytes))

  -- With digits of r = log2 k bits, for r up to 8 and up to Bits, NextDigitBaseK returns the top r
  -- bits of the number, and an identifier for the number shifted left by r bits modulo 2 ^ Bits.
  pub next_digit_base_k_lem :
      s.digit_bits ≤ 8
      → s.digit_bits ≤ sp.bits
      → (rest : Bytes) × (next_digit_base_k sp x
          ≡ ok (to_big_int x / 2 ^ (sp.bits - s.digit_bits), rest))
        × IsId sp rest
        × (to_big_int rest ≡ to_big_int x * 2 ^ s.digit_bits % 2 ^ sp.bits)
  unfolding next_digit_base_k
  next_digit_base_k_lem small fits =
      let r = s.digit_bits in
      let shifted = shift_loop-Shifted r x small i.bytes in
      let (id, value) =
        masked_total s (shift_loop r x).1 (shift_loop r x).0 (to_big_int x * 2 ^ r)
          (shifted.size ∙ i.size) shifted.bytes (rw (← i.size) shifted.value) in
      (
        mask_unused sp (shift_loop r x).1,
        rw (
          (is_valid_id_iff s x i.bytes).1 i,
          digit_width (omega arith),
          digit_read fits,
          shift_left_cons r x small (omega (arith, i.size, s.whole_bytes, s.bits_pos)),
        ),
        id,
        value,
      )

  -- With digits of more than 8 bits, and fewer than 64, NextDigitBaseK panics on every identifier.
  pub next_digit_base_k_panics :
      8 < s.digit_bits → s.digit_bits < 64 → next_digit_base_k sp x ≡ panic
  unfolding next_digit_base_k
  next_digit_base_k_panics big word =
      rw
        (
          (is_valid_id_iff s x i.bytes).1 i,
          digit_width word,
          shift_left_panics s.digit_bits x big (omega (arith, i.size, s.whole_bytes, s.bits_pos)),
        )
        (elim (digit_loop_cases x s.digit_bits (extra_bits sp) 0) [
          | inl stops ↦ rw stops
          | inr (digit, reads) ↦ rw reads
        ])
