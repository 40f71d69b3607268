-- ===== src/Domain/Digits.antt =====
-- internal/domain/identifier.go: NextDigitBaseK.
mod Extract
mod Shift
pub mod Laws
use koorde_dht_web_cache.Prelude.{
  ℕ, zero, suc, ◌+◌, ◌-◌, ◌*◌, ◌/◌, ◌%◌, ◌^◌, ◌≤◌, ◌<◌, bit_and, bit_or, [], ◌∷◌, ltb, ◌==◌,
  if◌then◌else◌, Bytes, Outcome, ok, panic, ◌>>=◌, ◌>>◌, ensure, invalid_id, ◌≡◌, refl, ap, sym,
  ◌∙◌, arith, length, IsBytes, inl, inr, true, Bool-cases, get_elem?, none, some,
}
use koorde_dht_web_cache.Domain.Space.{Space, is_valid_id, mask_unused, extra_bits}

-- `bits.TrailingZeros`, with enough rounds for a number below 2 ^ rounds; 64 of them for a uint.
unfoldable pub trailing_zeros_loop : ℕ → ℕ → ℕ
trailing_zeros_loop zero n = 0
trailing_zeros_loop (suc f) n =
    let rest = trailing_zeros_loop f (n / 2) in if n % 2 == 1 then 0 else suc rest

unfoldable pub trailing_zeros : ℕ → ℕ
trailing_zeros n = trailing_zeros_loop 64 n

-- `for i := 0; i < r; i++`, at the bit position pos = bitPos + i, with the rounds left. A read past
-- the last byte panics.
unfoldable pub digit_loop : Bytes → ℕ → ℕ → ℕ → Outcome ℕ
digit_loop x zero pos digit = ok digit
digit_loop x (suc left) pos digit = elim (get_elem? x (pos / 8)) [
  | none ↦ panic
  | some byte ↦
      let bit = bit_and (byte / 2 ^ (7 - pos % 8)) 1 in
      digit_loop x left (pos + 1) (bit_or (digit * 2 ^ 1) bit)
]

-- The shift loop, from the last byte: the carry out of the first byte, and the bytes.
unfoldable pub shift_loop : ℕ → Bytes → ℕ × Bytes
shift_loop r [] = (0, [])
shift_loop r (val ∷ vs) =
    let (carry, rest) = shift_loop r vs in
    (val / 2 ^ (8 - r), bit_or (val * 2 ^ r % 256) carry ∷ rest)

-- A shift by a negative count, `val >> (8 - r)` for r above 8, panics.
unfoldable pub shift_left : ℕ → Bytes → Outcome Bytes
shift_left r [] = ok []
shift_left r (v ∷ vs) = if ltb 8 r then panic else ok (shift_loop r (v ∷ vs)).1

unfoldable pub next_digit_base_k : Space → Bytes → Outcome (ℕ × Bytes)
next_digit_base_k sp x = do
  ensure (is_valid_id sp x) invalid_id
  let r = trailing_zeros sp.graph_grade
  digit ← digit_loop x r (extra_bits sp) 0
  rest ← shift_left r x
  ok (digit, mask_unused sp rest)
