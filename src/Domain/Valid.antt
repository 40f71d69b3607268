-- ===== src/Domain/Valid.antt =====
-- What NewSpace guarantees of a space, and what IsValidID and the mask of the unused bits mean for
-- the number that an identifier stands for (internal/domain/identifier.go).
use koorde_dht_web_cache.Prelude.{
  ℕ, suc, ◌+◌, ◌-◌, ◌*◌, ◌/◌, ◌%◌, ◌^◌, ◌≤◌, ◌<◌, ◌≡◌, refl, ap, sym, ◌↔◌, inl, inr, true, [], ◌∷◌,
  arith, ltb, ◌==◌, if◌then◌else◌, length, Bytes, IsBytes, bit_and, Bool-cases,
}
use koorde_dht_web_cache.Prelude.Bits.{low_mask, high_mask}
use koorde_dht_web_cache.Prelude.Pow.{pow_pos, pow_256, pow-add, mod_unique}
use koorde_dht_web_cache.Domain.Space.{Space, extra_bits, first_clear, is_valid_id, mask_unused}
use koorde_dht_web_cache.Domain.Value.{to_big_int, to_big_int-lt, digit-lt}
use native.Mathlib.Nat.{mod-lt, mod-le, div-add-mod, mod-eq_of_lt, mul-le-mul_right}

-- A space that NewSpace can build.
pub record IsSpace (sp : Space) : Type 0 where
  pub bits_pos : 0 < sp.bits
  pub whole_bytes : sp.byte_len ≡ (sp.bits + 7) / 8
  pub digit_bits : ℕ
  pub digit_pos : 0 < digit_bits
  pub grade_pow : sp.graph_grade ≡ 2 ^ digit_bits
  pub succ_pos : 0 < sp.succ_list_size

-- An identifier of the space: ByteLen bytes that stand for a number below 2 ^ Bits.
pub record IsId (sp : Space) (id : Bytes) : Type 0 where
  pub size : length id ≡ sp.byte_len
  pub bytes : IsBytes id
  pub fits : to_big_int id < 2 ^ sp.bits

-- The high byte and the rest, for a first byte of which w bits are used.
first_below : (n w b v : ℕ) → v < 256 ^ n → (b < 2 ^ w) ↔ (b * 256 ^ n + v < 2 ^ (w + 8 * n))
first_below n w b v h = rw (pow-add w (8 * n), ← pow_256 n) (below, above)
  where
    below : b < 2 ^ w → b * 256 ^ n + v < 2 ^ w * 256 ^ n
    below lt = omega (arith, digit-lt (256 ^ n) b (2 ^ w) v 0 h lt)

    above : b * 256 ^ n + v < 2 ^ w * 256 ^ n → b < 2 ^ w
    above lt = ground (arith, λ (le : 2 ^ w ≤ b). mul-le-mul_right (256 ^ n) le)

first_mod :
    (n w b v : ℕ) → v < 256 ^ n → (b * 256 ^ n + v) % 2 ^ (w + 8 * n) ≡ b % 2 ^ w * 256 ^ n + v
first_mod n w b v h =
    rw (pow-add w (8 * n), ← pow_256 n)
      (mod_unique (b * 256 ^ n + v) (2 ^ w * 256 ^ n) (b / 2 ^ w) (b % 2 ^ w * 256 ^ n + v)
        (omega (arith, ap (λ (t : ℕ). t * 256 ^ n) (div-add-mod b (2 ^ w))))
        (omega (arith, digit-lt (256 ^ n) (b % 2 ^ w) (2 ^ w) v 0 h (mod-lt b (pow_pos w)))))

module _ {sp : Space} (s : IsSpace sp) where
  extra-lt : extra_bits sp < 8
  unfolding extra_bits
  extra-lt = omega (arith, s.whole_bytes, s.bits_pos)

  -- The split of the bits between the first byte and the n bytes after it.
  bits_split : (n : ℕ) → suc n ≡ sp.byte_len → 2 ^ sp.bits ≡ 2 ^ (8 - extra_bits sp + 8 * n)
  unfolding extra_bits
  bits_split n e = ap (λ (k : ℕ). 2 ^ k) (omega (arith, s.whole_bytes, s.bits_pos))

  -- The test of the first byte, with its guard.
  first_clear_iff :
      (b : ℕ) (bs : Bytes)
      → b < 256
      → ((if ltb 0 (extra_bits sp)
            then first_clear (255 * 2 ^ (8 - extra_bits sp) % 256) (b ∷ bs)
            else true)
          ≡ true)
        ↔ (b < 2 ^ (8 - extra_bits sp))
  first_clear_iff b bs h = elim (Bool-cases (ltb 0 (extra_bits sp))) [
    | inl some_bits ↦ rw some_bits (first_iff _ _ (high_mask (extra_bits sp) b extra-lt h))
    | inr no_bits ↦ let e : extra_bits sp ≡ 0 = ground arith in rw (no_bits, e) (λ t. h, λ t. refl)
  ]
    where
      first_iff : (m w : ℕ) → (bit_and b m ≡ 0) ↔ (b < w) → ((bit_and b m == 0) ≡ true) ↔ (b < w)
      first_iff m w e = (λ t. e.0 (ground arith), λ t. ground (arith, e.1 t))

  -- IsValidID accepts exactly the identifiers of the space.
  pub is_valid_id_iff : (id : Bytes) → IsBytes id → (is_valid_id sp id ≡ true) ↔ IsId sp id
  unfolding is_valid_id to_big_int
  is_valid_id_iff [] h = (
    λ t. absurd (ground (arith, s.whole_bytes, s.bits_pos)),
    λ i. absurd (omega (arith, i.size, s.whole_bytes, s.bits_pos)),
  )
  is_valid_id_iff (b ∷ bs) h = (sound, complete)
    where
      range :
          suc (length bs) ≡ sp.byte_len
          → (b < 2 ^ (8 - extra_bits sp)) ↔ (to_big_int (b ∷ bs) < 2 ^ sp.bits)
      range e =
          rw (bits_split (length bs) e)
            (first_below (length bs) (8 - extra_bits sp) b (to_big_int bs) (to_big_int-lt bs h.1))

      sound : is_valid_id sp (b ∷ bs) ≡ true → IsId sp (b ∷ bs)
      sound t =
          let size : suc (length bs) ≡ sp.byte_len = ground arith in
          record {
            size = size;
            bytes = h;
            fits = (range size).0 ((first_clear_iff b bs h.0).0 (ground arith));
          }

      complete : IsId sp (b ∷ bs) → is_valid_id sp (b ∷ bs) ≡ true
      complete i = ground (arith, (first_clear_iff b bs h.0).1 ((range i.size).1 i.fits), i.size)

  -- What the mask of the unused bits leaves of the first byte.
  mask_unused-cons :
      (b : ℕ) (bs : Bytes) → b < 256 → mask_unused sp (b ∷ bs) ≡ b % 2 ^ (8 - extra_bits sp) ∷ bs
  unfolding mask_unused
  mask_unused-cons b bs h = elim (Bool-cases (ltb 0 (extra_bits sp))) [
    | inl some_bits ↦ rw (some_bits, low_mask (extra_bits sp) b extra-lt h)
    | inr no_bits ↦
        let e : extra_bits sp ≡ 0 = ground arith in
        rw (no_bits, e) (ap (λ (t : ℕ). t ∷ bs) (sym (mod-eq_of_lt h)))
  ]

  -- The mask of the unused bits takes the number modulo 2 ^ Bits.
  pub to_big_int-mask_unused :
      (id : Bytes)
      → length id ≡ sp.byte_len
      → IsBytes id
      → to_big_int (mask_unused sp id) ≡ to_big_int id % 2 ^ sp.bits
  unfolding to_big_int
  to_big_int-mask_unused [] l h = absurd (omega (arith, s.whole_bytes, s.bits_pos))
  to_big_int-mask_unused (b ∷ bs) l h = rw (
    mask_unused-cons b bs h.0,
    bits_split (length bs) l,
    first_mod (length bs) (8 - extra_bits sp) b (to_big_int bs) (to_big_int-lt bs h.1),
  )

  mask_unused-shape :
      (id : Bytes)
      → length id ≡ sp.byte_len
      → IsBytes id
      → (length (mask_unused sp id) ≡ sp.byte_len) × IsBytes (mask_unused sp id)
  mask_unused-shape [] l h = absurd (omega (arith, s.whole_bytes, s.bits_pos))
  mask_unused-shape (b ∷ bs) l h =
      rw (mask_unused-cons b bs h.0) (l, (omega (arith, mod-le b (2 ^ (8 - extra_bits sp))), h.1))

  pub mask_unused-IsId :
      (id : Bytes) → length id ≡ sp.byte_len → IsBytes id → IsId sp (mask_unused sp id)
  mask_unused-IsId id l h = record {
    size = (mask_unused-shape id l h).0;
    bytes = (mask_unused-shape id l h).1;
    fits = rw (to_big_int-mask_unused id l h) (mod-lt _ (pow_pos sp.bits));
  }
