-- ===== src/Domain/Arith.antt =====
-- internal/domain/identifier.go: FromUint64, MulKMod and AddMod. A Go loop from the last byte to
-- the first is a recursion that takes the bytes to the right first and hands on the carry.
use koorde_dht_web_cache.Prelude.{
  ℕ, zero, suc, ◌+◌, ◌-◌, ◌*◌, ◌/◌, ◌%◌, ◌^◌, ◌≤◌, ◌<◌, bit_and, [], ◌∷◌, ◌++◌, ltb, if◌then◌else◌,
  replicate, Bytes, Outcome, ok, ◌>>◌, ensure, invalid_id, ◌≡◌, refl, ap, sym, ◌∙◌, arith, length,
  IsBytes, inl, inr, length-append, length-replicate, Bool-cases,
}
use koorde_dht_web_cache.Prelude.Bits.{bit_and_mask}
use koorde_dht_web_cache.Prelude.Pow.{pow_split, pow_pos, pow_256, mod_unique}
use koorde_dht_web_cache.Domain.Space.{Space, is_valid_id, mask_unused}
use koorde_dht_web_cache.Domain.Value.{
  to_big_int, to_big_int-zeros, IsBytes-append, IsBytes-zeros, pow_256_pos, pow_256-suc,
}
use koorde_dht_web_cache.Domain.Valid.{
  IsSpace, IsId, is_valid_id_iff, to_big_int-mask_unused, mask_unused-IsId,
}
use native.Mathlib.Nat.{
  mod-one, mul-add-mod_self_left, mul-le-mul_right, div-add-mod, mod-eq_of_lt, mod-lt, zero-mod,
}

-- `for i := n-1; i >= 0 && x > 0; i-- { id[i] = byte(x & 0xFF); x >>= 8 }` on a zeroed buffer, of
-- which `done` is the part already written.
fill_bytes : ℕ → ℕ → Bytes → Bytes
fill_bytes zero x done = done
fill_bytes (suc n) x done =
    let rest = fill_bytes n (x / 2 ^ 8) (bit_and x 0xff % 256 ∷ done) in
    if ltb 0 x then rest else replicate (suc n) 0 ++ done

unfoldable pub from_uint64 : Space → ℕ → Bytes
unfolding fill_bytes
from_uint64 sp x = mask_unused sp (fill_bytes sp.byte_len x [])

-- The multiplication loop: the carry out of the first byte, and the bytes. `prod` is a uint64.
mul_loop : ℕ → Bytes → ℕ × Bytes
mul_loop k [] = (0, [])
mul_loop k (a ∷ as') =
    let (carry, res) = mul_loop k as' in
    let prod = (a * k + carry) % 2 ^ 64 in (prod / 2 ^ 8, bit_and prod 0xff % 256 ∷ res)

unfoldable pub mul_k_mod : Space → Bytes → Outcome Bytes
unfolding mul_loop
mul_k_mod sp a = do
  ensure (is_valid_id sp a) invalid_id
  ok (mask_unused sp (mul_loop sp.graph_grade a).1)

-- The addition loop. Both operands have ByteLen bytes when it runs.
add_loop : Bytes → Bytes → ℕ × Bytes
add_loop (a ∷ as') (b ∷ bs) =
    let (carry, res) = add_loop as' bs in
    let sum = a + b + carry in (sum / 2 ^ 8, bit_and sum 0xff % 256 ∷ res)
add_loop as' bs = (0, [])

unfoldable pub add_mod : Space → Bytes → Bytes → Outcome Bytes
unfolding add_loop
add_mod sp a b = do
  ensure (is_valid_id sp a) invalid_id
  ensure (is_valid_id sp b) invalid_id
  ok (mask_unused sp (add_loop a b).1)

low_byte : (x : ℕ) → bit_and x 0xff % 256 ≡ x % 256
low_byte x = omega (arith, bit_and_mask 8 x)

-- The last byte and the bytes before it, modulo 256 ^ (n + 1).
mod-256-suc : (n x : ℕ) → x % 256 ^ suc n ≡ x / 256 % 256 ^ n * 256 + x % 256
mod-256-suc n x = rw (pow_256-suc n) (
    mod_unique x (256 * 256 ^ n) (x / 256 / 256 ^ n) (x / 256 % 256 ^ n * 256 + x % 256)
      (omega (arith, div-add-mod (x / 256) (256 ^ n)))
      (omega (arith, mod-lt (x / 256) (pow_256_pos n))))

-- The buffer after the loop of FromUint64 holds x modulo 256 ^ n.
fill_bytes_lem :
    (n x : ℕ) (done : Bytes)
    → (length (fill_bytes n x done) ≡ n + length done)
      × (to_big_int (fill_bytes n x done) ≡ x % 256 ^ n * 256 ^ length done + to_big_int done)
unfolding fill_bytes to_big_int
fill_bytes_lem zero x done = (omega arith, rw (mod-one x) (omega arith))
fill_bytes_lem (suc n) x done = elim (Bool-cases (ltb 0 x)) [
  | inl more ↦
      let (size, value) = fill_bytes_lem n (x / 2 ^ 8) (bit_and x 0xff % 256 ∷ done) in
      rw more (
        omega (arith, size),
        omega (
          arith,
          value,
          pow_256-suc (length done),
          ap (λ (t : ℕ). x / 256 % 256 ^ n * t) (pow_256-suc (length done)),
          ap (λ (t : ℕ). t * 256 ^ length done) (low_byte x),
          ap (λ (t : ℕ). t * 256 ^ length done) (mod-256-suc n x),
        ),
      )
  | inr stop ↦
      let none_left : x ≡ 0 = ground arith in
      rw (none_left, zero-mod)
        (
          omega (arith, length-append (replicate n 0) done, length-replicate {A = ℕ} n 0),
          omega (arith, to_big_int-zeros n done),
        )
]

fill_bytes-IsBytes : (n x : ℕ) (done : Bytes) → IsBytes done → IsBytes (fill_bytes n x done)
unfolding fill_bytes
fill_bytes-IsBytes zero x done h = h
fill_bytes-IsBytes (suc n) x done h = elim (Bool-cases (ltb 0 x)) [
  | inl more ↦
      rw more (fill_bytes-IsBytes n (x / 2 ^ 8) (bit_and x 0xff % 256 ∷ done) (omega arith, h))
  | inr stop ↦ rw stop (IsBytes-append (replicate (suc n) 0) done (IsBytes-zeros (suc n)) h)
]

-- One step of a loop with a carry: the byte and the carry out of the sum s at the weight p.
pub carry_step :
    (p s rest total : ℕ)
    → s * p + rest ≡ total
    → s / 2 ^ 8 * (256 * p) + (bit_and s 0xff % 256 * p + rest) ≡ total
carry_step p s rest total e =
    let parts : s / 256 * 256 + s % 256 ≡ s = omega arith in
    omega (arith, ap (λ (t : ℕ). t * p) parts, ap (λ (t : ℕ). t * p) (low_byte s))

-- The bytes and the carry together are the product, as long as it fits a uint64.
record Scaled (k : ℕ) (a : Bytes) (out : ℕ × Bytes) : Type 0 where
  size : length out.1 ≡ length a
  bytes : IsBytes out.1
  carry_lt : out.0 < k
  value : out.0 * 256 ^ length a + to_big_int out.1 ≡ k * to_big_int a

mul_loop-Scaled : (k : ℕ) (a : Bytes) → 0 < k → k ≤ 2 ^ 56 → IsBytes a → Scaled k a (mul_loop k a)
unfolding mul_loop to_big_int
mul_loop-Scaled k [] pos_k h b = record {
  size = refl;
  bytes = tt;
  carry_lt = pos_k;
  value = omega arith;
}
mul_loop-Scaled k (a ∷ as') pos_k h b =
    let r = mul_loop-Scaled k as' pos_k h b.1 in
    let room : suc a * k ≤ 256 * k = mul-le-mul_right k b.0 in
    let whole : (a * k + (mul_loop k as').0) % 2 ^ 64 ≡ a * k + (mul_loop k as').0 =
      mod-eq_of_lt (omega (arith, r.carry_lt)) in
    rw whole (record {
      size = omega (arith, r.size);
      bytes = (omega arith, r.bytes);
      carry_lt = omega (arith, r.carry_lt);
      value =
          rw (r.size, pow_256-suc (length as'))
            (carry_step (256 ^ length as') _ (to_big_int (mul_loop k as').1) _
              (omega (arith, r.value)));
    })

record Summed (a b : Bytes) (out : ℕ × Bytes) : Type 0 where
  size : length out.1 ≡ length a
  bytes : IsBytes out.1
  carry_lt : out.0 < 2
  value : out.0 * 256 ^ length a + to_big_int out.1 ≡ to_big_int a + to_big_int b

add_loop-Summed :
    (a b : Bytes) → IsBytes a → IsBytes b → length a ≡ length b → Summed a b (add_loop a b)
unfolding add_loop to_big_int
add_loop-Summed [] [] ha hb e = record {
  size = refl;
  bytes = tt;
  carry_lt = omega arith;
  value = omega arith;
}
add_loop-Summed [] (b ∷ bs) ha hb e = absurd (omega arith)
add_loop-Summed (a ∷ as') [] ha hb e = absurd (omega arith)
add_loop-Summed (a ∷ as') (b ∷ bs) ha hb e =
    let l : length as' ≡ length bs = omega arith in
    let r = add_loop-Summed as' bs ha.1 hb.1 l in
    record {
      size = omega (arith, r.size);
      bytes = (omega arith, r.bytes);
      carry_lt = omega (arith, r.carry_lt);
      value =
          rw (r.size, pow_256-suc (length as'), ← l)
            (carry_step (256 ^ length as') _ (to_big_int (add_loop as' bs).1) _
              (omega (arith, r.value)));
    }

-- A multiple of 256 ^ n is a multiple of 2 ^ bits, for bits up to 8 * n.
mod_carry :
    (n bits carry v total : ℕ)
    → bits ≤ 8 * n
    → carry * 256 ^ n + v ≡ total
    → v % 2 ^ bits ≡ total % 2 ^ bits
mod_carry n bits carry v total h e =
    let parts : total ≡ 2 ^ bits * (carry * 2 ^ (8 * n - bits)) + v =
      omega (arith, e, ap (λ (t : ℕ). carry * t) (pow_256 n ∙ pow_split bits (8 * n) h)) in
    rw parts (sym (mul-add-mod_self_left (2 ^ bits) _ v))

module _ {sp : Space} (s : IsSpace sp) where
  bits-le : sp.bits ≤ 8 * sp.byte_len
  bits-le = omega (arith, s.whole_bytes)

  -- What a loop leaves in the buffer, up to a carry that is dropped, masked.
  pub masked_total :
      (res : Bytes) (carry total : ℕ)
      → length res ≡ sp.byte_len
      → IsBytes res
      → carry * 256 ^ sp.byte_len + to_big_int res ≡ total
      → IsId sp (mask_unused sp res) × (to_big_int (mask_unused sp res) ≡ total % 2 ^ sp.bits)
  masked_total res carry total size bytes e = (
    mask_unused-IsId s res size bytes,
    to_big_int-mask_unused s res size bytes
        ∙ mod_carry sp.byte_len sp.bits carry (to_big_int res) total bits-le e,
  )

  -- FromUint64 keeps the low Bits bits of its argument.
  pub from_uint64_lem :
      (x : ℕ) → IsId sp (from_uint64 sp x) × (to_big_int (from_uint64 sp x) ≡ x % 2 ^ sp.bits)
  unfolding from_uint64 to_big_int
  from_uint64_lem x =
      let (size, value) = fill_bytes_lem sp.byte_len x [] in
      masked_total (fill_bytes sp.byte_len x []) (x / 256 ^ sp.byte_len) x (omega (arith, size))
        (fill_bytes-IsBytes sp.byte_len x [] tt)
        (omega (arith, value, div-add-mod x (256 ^ sp.byte_len)))

  -- MulKMod multiplies by the degree modulo 2 ^ Bits, for degrees up to 2 ^ 56.
  pub mul_k_mod_lem :
      (a : Bytes)
      → IsId sp a
      → sp.graph_grade ≤ 2 ^ 56
      → (r : Bytes) × (mul_k_mod sp a ≡ ok r)
        × IsId sp r
        × (to_big_int r ≡ sp.graph_grade * to_big_int a % 2 ^ sp.bits)
  unfolding mul_k_mod
  mul_k_mod_lem a i h =
      let pos_k : 0 < sp.graph_grade = omega (arith, s.grade_pow, pow_pos s.digit_bits) in
      let r = mul_loop-Scaled sp.graph_grade a pos_k h i.bytes in
      let (id, value) =
        masked_total (mul_loop sp.graph_grade a).1 (mul_loop sp.graph_grade a).0 _ (r.size ∙ i.size)
          r.bytes (rw (← i.size) r.value) in
      (
        mask_unused sp (mul_loop sp.graph_grade a).1,
        rw ((is_valid_id_iff s a i.bytes).1 i),
        id,
        value,
      )

  -- AddMod adds modulo 2 ^ Bits.
  pub add_mod_lem :
      (a b : Bytes)
      → IsId sp a
      → IsId sp b
      → (r : Bytes) × (add_mod sp a b ≡ ok r)
        × IsId sp r
        × (to_big_int r ≡ (to_big_int a + to_big_int b) % 2 ^ sp.bits)
  unfolding add_mod
  add_mod_lem a b i j =
      let r = add_loop-Summed a b i.bytes j.bytes (i.size ∙ sym j.size) in
      let (id, value) =
        masked_total (add_loop a b).1 (add_loop a b).0 _ (r.size ∙ i.size) r.bytes
          (rw (← i.size) r.value) in
      (
        mask_unused sp (add_loop a b).1,
        rw ((is_valid_id_iff s a i.bytes).1 i, (is_valid_id_iff s b j.bytes).1 j),
        id,
        value,
      )
