-- ===== src/Domain/Digits/Shift.antt =====
-- NextDigitBaseK: the loop that shifts the identifier left by a digit.
use koorde_dht_web_cache.Prelude.{
  ℕ, ◌+◌, ◌-◌, ◌*◌, ◌/◌, ◌%◌, ◌^◌, ◌≤◌, ◌<◌, bit_or, [], ◌∷◌, Bytes, ◌≡◌, refl, ap, sym, ◌∙◌, arith,
  length, IsBytes,
}
use koorde_dht_web_cache.Prelude.Bits.{bit_or_shift}
use koorde_dht_web_cache.Prelude.Pow.{pow_pos, pow-add, mod_unique}
use koorde_dht_web_cache.Domain.Value.{to_big_int, pow_256-suc, digit-lt}
use native.Mathlib.Nat.{mod-lt, div-add-mod, div-lt_iff_lt-mul}
use koorde_dht_web_cache.Domain.Digits.{shift_loop}

-- The high and the low bits of a byte, at their weights after the shift.
byte_parts :
    (r val : ℕ)
    → 2 ^ (8 - r) * 2 ^ r ≡ 256
    → val * 2 ^ r ≡ 256 * (val / 2 ^ (8 - r)) + val % 2 ^ (8 - r) * 2 ^ r
byte_parts r val full = omega (
  arith,
  ap (λ (t : ℕ). t * 2 ^ r) (div-add-mod val (2 ^ (8 - r))),
  ap (λ (t : ℕ). val / 2 ^ (8 - r) * t) full,
)

byte_split : (r : ℕ) → r ≤ 8 → 2 ^ (8 - r) * 2 ^ r ≡ 256
byte_split r h =
    let eight : 8 - r + r ≡ 8 = omega arith in sym (pow-add (8 - r) r) ∙ ap (λ (k : ℕ). 2 ^ k) eight

low_bits-lt : (r val c : ℕ) → r ≤ 8 → c < 2 ^ r → val % 2 ^ (8 - r) * 2 ^ r + c < 256
low_bits-lt r val c h lt = omega (
  arith,
  digit-lt (2 ^ r) (val % 2 ^ (8 - r)) (2 ^ (8 - r)) c 0 lt (mod-lt val (pow_pos (8 - r))),
  byte_split r h,
)

-- A byte shifted left by r bits keeps its low 8 - r bits.
shifted_byte : (r val : ℕ) → r ≤ 8 → val * 2 ^ r % 256 ≡ val % 2 ^ (8 - r) * 2 ^ r
shifted_byte r val h =
    mod_unique (val * 2 ^ r) 256 (val / 2 ^ (8 - r)) (val % 2 ^ (8 - r) * 2 ^ r)
      (byte_parts r val (byte_split r h)) (omega (arith, low_bits-lt r val 0 h (pow_pos r)))

-- The bytes and the carry of the shift loop together are the number times 2 ^ r.
pub record Shifted (r : ℕ) (x : Bytes) (out : ℕ × Bytes) : Type 0 where
  pub size : length out.1 ≡ length x
  pub bytes : IsBytes out.1
  pub carry_lt : out.0 < 2 ^ r
  pub value : out.0 * 256 ^ length x + to_big_int out.1 ≡ to_big_int x * 2 ^ r

pub shift_loop-Shifted : (r : ℕ) (x : Bytes) → r ≤ 8 → IsBytes x → Shifted r x (shift_loop r x)
unfolding shift_loop to_big_int
shift_loop-Shifted r [] h b = record {
  size = refl;
  bytes = tt;
  carry_lt = pow_pos r;
  value = omega arith;
}
shift_loop-Shifted r (val ∷ vs) h b =
    let rest = shift_loop-Shifted r vs h b.1 in
    let c = (shift_loop r vs).0 in
    let byte : bit_or (val * 2 ^ r % 256) c ≡ val % 2 ^ (8 - r) * 2 ^ r + c =
      ap (λ (t : ℕ). bit_or t c) (shifted_byte r val h) ∙ bit_or_shift r _ c rest.carry_lt in
    record {
      size = omega (arith, rest.size);
      bytes = (rw byte (low_bits-lt r val c h rest.carry_lt), rest.bytes);
      carry_lt = (div-lt_iff_lt-mul (pow_pos (8 - r))).1 (omega (arith, byte_split r h, b.0));
      value =
          rw (byte, rest.size)
            (omega (
              arith,
              ap (λ (t : ℕ). val / 2 ^ (8 - r) * t) (pow_256-suc (length vs)),
              ap (λ (t : ℕ). t * 256 ^ length vs) (byte_parts r val (byte_split r h)),
              rest.value,
            ));
    }
