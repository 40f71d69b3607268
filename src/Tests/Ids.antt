-- ===== src/Tests/Ids.antt =====
-- Identifiers of 10 bits, with the degree 4 and successor lists of 3 nodes (internal/domain).
use koorde_dht_web_cache.Prelude.{
  ℕ, suc, ◌^◌, ◌+◌, ◌-◌, ◌*◌, ◌/◌, ◌%◌, ◌≤◌, ◌<◌, ◌≡◌, ◌≢◌, ◌↔◌, ◌⊎◌, refl, arith, true, [], ◌∷◌,
  Bytes, pos, ok, panic,
}
use koorde_dht_web_cache.Domain.Space.{Space, new_space, is_valid_id, extra_bits}
use koorde_dht_web_cache.Domain.Value.{to_big_int}
use koorde_dht_web_cache.Domain.Valid.{IsSpace, IsId, is_valid_id_iff}
use koorde_dht_web_cache.Domain.Build.{new_space_sound}
use koorde_dht_web_cache.Domain.Arith.{mul_k_mod, mul_k_mod_lem}
use koorde_dht_web_cache.Domain.Ring.{between, distance, between_iff}
use koorde_dht_web_cache.Domain.Digits.{next_digit_base_k}
use koorde_dht_web_cache.Domain.Digits.Laws.{next_digit_base_k_lem, next_digit_base_k_panics}
use koorde_dht_web_cache.Domain.Imaginary.{best_imaginary}
use koorde_dht_web_cache.Domain.Imaginary.Laws.{best_imaginary_lem}
use koorde_dht_web_cache.Domain.Target.{
  compute_fault_tolerant_target, compute_fault_tolerant_target_lem,
}

abbrev small_space : Space
small_space = record { bits = 10; byte_len = 2; graph_grade = 4; succ_list_size = 3 }

abbrev small_space-IsSpace : IsSpace small_space
small_space-IsSpace = record {
  bits_pos = omega arith;
  whole_bytes = refl;
  digit_bits = 2;
  digit_pos = omega arith;
  grade_pow = refl;
  succ_pos = omega arith;
}

-- The numbers 5, 700 and 1023.
abbrev id_5 : Bytes
id_5 = 0 ∷ 5 ∷ []

abbrev id_700 : Bytes
id_700 = 2 ∷ 188 ∷ []

abbrev id_1023 : Bytes
id_1023 = 3 ∷ 255 ∷ []

id_5-IsId : IsId small_space id_5
unfolding is_valid_id extra_bits
id_5-IsId = (is_valid_id_iff small_space-IsSpace id_5 (omega arith, (omega arith, tt))).0 refl

id_700-IsId : IsId small_space id_700
unfolding is_valid_id extra_bits
id_700-IsId = (is_valid_id_iff small_space-IsSpace id_700 (omega arith, (omega arith, tt))).0 refl

id_1023-IsId : IsId small_space id_1023
unfolding is_valid_id extra_bits
id_1023-IsId = (is_valid_id_iff small_space-IsSpace id_1023 (omega arith, (omega arith, tt))).0 refl

new_space_sound_example :
    IsSpace small_space × (pos 10 ≡ pos 10) × (pos 4 ≡ pos 4) × (pos 3 ≡ pos 3)
unfolding new_space
new_space_sound_example = new_space_sound (pos 10) (pos 4) (pos 3) {sp = small_space} refl

is_valid_id_iff_example : (is_valid_id small_space id_700 ≡ true) ↔ IsId small_space id_700
is_valid_id_iff_example =
    is_valid_id_iff small_space-IsSpace id_700 (omega arith, (omega arith, tt))

mul_k_mod_lem_example :
    (r : Bytes) × (mul_k_mod small_space id_700 ≡ ok r)
    × IsId small_space r
    × (to_big_int r ≡ 4 * to_big_int id_700 % 1024)
mul_k_mod_lem_example = mul_k_mod_lem small_space-IsSpace id_700 id_700-IsId (omega arith)

-- 5 lies in (1023, 700], past the zero of the ring.
between_iff_example : (between id_5 id_1023 id_700 ≡ true) ↔ (
    (to_big_int id_1023 ≡ to_big_int id_700)
    ⊎ (0 < distance 1024 (to_big_int id_1023) (to_big_int id_5))
      × (distance 1024 (to_big_int id_1023) (to_big_int id_5)
          ≤ distance 1024 (to_big_int id_1023) (to_big_int id_700)))
between_iff_example = between_iff id_5-IsId id_1023-IsId id_700-IsId

different : id_1023 ≢ id_700
different e = absurd (ground arith)

-- The leading base-4 digit of 700 is 2.
next_digit_base_k_lem_example :
    (rest : Bytes) × (next_digit_base_k small_space id_700 ≡ ok (to_big_int id_700 / 256, rest))
    × IsId small_space rest
    × (to_big_int rest ≡ to_big_int id_700 * 4 % 1024)
next_digit_base_k_lem_example =
    next_digit_base_k_lem small_space-IsSpace id_700-IsId (omega arith) (omega arith)

abbrev wide_space : Space
wide_space = record { bits = 10; byte_len = 2; graph_grade = 512; succ_list_size = 3 }

abbrev wide_space-IsSpace : IsSpace wide_space
wide_space-IsSpace = record {
  bits_pos = omega arith;
  whole_bytes = refl;
  digit_bits = 9;
  digit_pos = omega arith;
  grade_pow = refl;
  succ_pos = omega arith;
}

id_700-IsId_wide : IsId wide_space id_700
unfolding is_valid_id extra_bits
id_700-IsId_wide =
    (is_valid_id_iff wide_space-IsSpace id_700 (omega arith, (omega arith, tt))).0 refl

next_digit_base_k_panics_example : next_digit_base_k wide_space id_700 ≡ panic
next_digit_base_k_panics_example =
    next_digit_base_k_panics wide_space-IsSpace id_700-IsId_wide (omega arith) (omega arith)

best_imaginary_lem_example :
    (r : Bytes) × (best_imaginary small_space id_5 id_700 id_1023 ≡ ok (r, id_1023))
    × IsId small_space r
    × (between r id_5 id_700 ≡ true)
best_imaginary_lem_example =
    best_imaginary_lem small_space-IsSpace id_5-IsId id_700-IsId id_1023-IsId

compute_fault_tolerant_target_lem_example :
    (l : ℕ) × (2 ^ l ≤ 5)
    × (5 < 2 ^ suc l)
    × (1024 * suc l / 5 ≤ 1024)
    × ((r : Bytes) × (compute_fault_tolerant_target small_space id_700 (pos 5) ≡ ok r)
        × IsId small_space r
        × (to_big_int r ≡ (4 * to_big_int id_700 % 1024 + 1024 - 1024 * suc l / 5) % 1024))
compute_fault_tolerant_target_lem_example =
    compute_fault_tolerant_target_lem small_space-IsSpace id_700-IsId (omega arith) (pos 5)
