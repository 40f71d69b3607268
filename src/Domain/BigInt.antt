-- ===== src/Domain/BigInt.antt =====
-- What internal/domain/identifier.go uses of math/big and math/bits: `Bytes` and `BitLen`, and the
-- block that copies the bytes of a number, right-aligned, into a fresh identifier and masks it.
use koorde_dht_web_cache.Prelude.{
  refl, false, ℕ, zero, suc, ◌+◌, ◌-◌, ◌*◌, ◌/◌, ◌%◌, ◌^◌, ◌≤◌, ◌<◌, ◌≡◌, ap, ◌∙◌, arith, inl, inr,
  [], ◌∷◌, ◌++◌, ◌==◌, leb, le→leb, if◌then◌else◌, Bool-cases, length, replicate, length-append,
  length-replicate, Bytes, IsBytes, Outcome, ok, panic,
}
use koorde_dht_web_cache.Prelude.Pow.{pow_256, pow_mono}
use koorde_dht_web_cache.Domain.Space.{Space, mask_unused}
use koorde_dht_web_cache.Domain.Value.{
  to_big_int, to_big_int-zeros, pow_256-suc, IsBytes-append, IsBytes-zeros,
}
use koorde_dht_web_cache.Domain.Valid.{IsSpace, IsId, to_big_int-mask_unused, mask_unused-IsId}
use native.Mathlib.Nat.{mod-eq_of_lt, div-add-mod}

-- The bytes of v before `done`, with fuel: v has at most v bytes.
unfoldable pub bytes_loop : ℕ → ℕ → Bytes → Bytes
bytes_loop zero v done = done
bytes_loop (suc f) v done =
    let rest = bytes_loop f (v / 256) (v % 256 ∷ done) in if v == 0 then done else rest

-- `v.Bytes()`: big-endian, with no leading zero.
unfoldable pub big_bytes : ℕ → Bytes
big_bytes v = bytes_loop v v []

-- `n.BitLen()` and `bits.Len(n)`, with fuel: n has at most n bits.
unfoldable pub bit_len_loop : ℕ → ℕ → ℕ
bit_len_loop zero n = 0
bit_len_loop (suc f) n = let rest = bit_len_loop f (n / 2) in if n == 0 then 0 else suc rest

unfoldable pub bit_len : ℕ → ℕ
bit_len n = bit_len_loop n n

-- `copy(id[sp.ByteLen-len(b):], b)` into a zeroed buffer, then the mask. A slice that starts below
-- 0 panics.
unfoldable pub from_big_int : Space → ℕ → Outcome Bytes
from_big_int sp v =
    let bt = big_bytes v in
    if leb (length bt) sp.byte_len
    then ok (mask_unused sp (replicate (sp.byte_len - length bt) 0 ++ bt))
    else panic

bytes_loop-value :
    (f v : ℕ) (done : Bytes)
    → v ≤ f
    → to_big_int (bytes_loop f v done) ≡ v * 256 ^ length done + to_big_int done
unfolding bytes_loop to_big_int
bytes_loop-value zero v done h = let e : v ≡ 0 = omega arith in rw e (omega arith)
bytes_loop-value (suc f) v done h = elim (Bool-cases (v == 0)) [
  | inl stop ↦ let e : v ≡ 0 = ground arith in rw (stop, e) (omega arith)
  | inr more ↦ rw more (
      omega (
        arith,
        bytes_loop-value f (v / 256) (v % 256 ∷ done) (ground arith),
        ap (λ (t : ℕ). v / 256 * t) (pow_256-suc (length done)),
        ap (λ (t : ℕ). t * 256 ^ length done) (div-add-mod v 256),
      ))
]

bytes_loop-IsBytes : (f v : ℕ) (done : Bytes) → IsBytes done → IsBytes (bytes_loop f v done)
unfolding bytes_loop
bytes_loop-IsBytes zero v done h = h
bytes_loop-IsBytes (suc f) v done h = elim (Bool-cases (v == 0)) [
  | inl stop ↦ rw stop h
  | inr more ↦ rw more (bytes_loop-IsBytes f (v / 256) (v % 256 ∷ done) (omega arith, h))
]

bytes_loop-length :
    (n f v : ℕ) (done : Bytes) → v < 256 ^ n → length (bytes_loop f v done) ≤ n + length done
unfolding bytes_loop
bytes_loop-length n zero v done h = omega arith
bytes_loop-length zero (suc f) v done h = let e : v ≡ 0 = omega arith in rw e (omega arith)
bytes_loop-length (suc n) (suc f) v done h = elim (Bool-cases (v == 0)) [
  | inl stop ↦ rw stop (omega arith)
  | inr more ↦ rw more (
      omega
        (arith, bytes_loop-length n f (v / 256) (v % 256 ∷ done) (omega (arith, pow_256-suc n))))
]

bit_len_loop-le : (f n : ℕ) → bit_len_loop f n ≤ n
unfolding bit_len_loop
bit_len_loop-le zero n = omega arith
bit_len_loop-le (suc f) n = ground (arith, bit_len_loop-le f (n / 2))

pub bit_len-le : (n : ℕ) → bit_len n ≤ n
unfolding bit_len
bit_len-le n = bit_len_loop-le n n

-- A positive number has a highest bit.
pub bit_len_pos : (n : ℕ) → 0 < n → 0 < bit_len n
unfolding bit_len bit_len_loop
bit_len_pos zero h = absurd (omega arith)
bit_len_pos (suc n) h = ground arith

bit_len_loop-zero : (f : ℕ) → bit_len_loop f 0 ≡ 0
unfolding bit_len_loop
bit_len_loop-zero zero = refl
bit_len_loop-zero (suc f) = refl

bit_len_loop-bounds :
    (f n : ℕ) → 0 < n → n ≤ f → (l : ℕ) × (bit_len_loop f n ≡ suc l) × (2 ^ l ≤ n) × (n < 2 ^ suc l)
unfolding bit_len_loop
bit_len_loop-bounds zero n h fits = absurd (omega arith)
bit_len_loop-bounds (suc f) n h fits =
    let some_bits : (n == 0) ≡ false = ground arith in
    elim (Bool-cases (n / 2 == 0)) [
      | inl stop ↦
          let none : n / 2 ≡ 0 = ground arith in
          (0, rw (some_bits, none, bit_len_loop-zero f) refl, omega arith, omega (arith, none))
      | inr more ↦
          let (l, e, low, high) = bit_len_loop-bounds f (n / 2) (ground arith) (omega arith) in
          (suc l, rw (some_bits, e) refl, omega (arith, pow-suc l), omega (arith, pow-suc l))
    ]
  where
    pow-suc : (l : ℕ) → (2 ^ suc l ≡ 2 * 2 ^ l) × (2 ^ suc (suc l) ≡ 2 * 2 ^ suc l)
    pow-suc l = (omega arith, omega arith)

-- The bit length of a positive number is one more than the exponent of its highest power of 2.
pub bit_len-bounds : (n : ℕ) → 0 < n → (l : ℕ) × (bit_len n ≡ suc l) × (2 ^ l ≤ n) × (n < 2 ^ suc l)
unfolding bit_len
bit_len-bounds n h = bit_len_loop-bounds n n h (omega arith)

-- A number below 2 ^ Bits is turned into the identifier that stands for it.
pub from_big_int_lem :
    {sp : Space}
    → IsSpace sp
    → (v : ℕ) → v < 2 ^ sp.bits
    → (r : Bytes) × (from_big_int sp v ≡ ok r) × IsId sp r × (to_big_int r ≡ v)
unfolding from_big_int big_bytes to_big_int
from_big_int_lem {sp} s v h =
    let bt = bytes_loop v v [] in
    let buf = replicate (sp.byte_len - length bt) 0 ++ bt in
    let room : v < 256 ^ sp.byte_len =
      rw pow_256
        (omega (arith, pow_mono sp.bits (8 * sp.byte_len) (omega (arith, s.whole_bytes)))) in
    let short : length bt ≤ sp.byte_len =
      omega (arith, bytes_loop-length sp.byte_len v v [] room) in
    let size : length buf ≡ sp.byte_len = omega (
      arith,
      length-append (replicate {A = ℕ} (sp.byte_len - length bt) 0) bt,
      length-replicate {A = ℕ} (sp.byte_len - length bt) 0,
    ) in
    let bytes =
      IsBytes-append (replicate (sp.byte_len - length bt) 0) bt (IsBytes-zeros _)
        (bytes_loop-IsBytes v v [] tt) in
    let value : to_big_int buf ≡ v =
      to_big_int-zeros _ bt ∙ omega (arith, bytes_loop-value v v [] (omega arith)) in
    (
      mask_unused sp buf,
      rw (le→leb _ _ short),
      mask_unused-IsId s buf size bytes,
      to_big_int-mask_unused s buf size bytes ∙ rw value (mod-eq_of_lt h),
    )
