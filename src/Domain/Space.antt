-- ===== src/Domain/Space.antt =====
-- internal/domain/identifier.go: the type Space, its constructor, and the test and the mask of
-- the unused high bits that every operation repeats.
-- Numbers of the configuration are far from the limits of Go's int, so `b + 7` does not wrap.
use koorde_dht_web_cache.Prelude.{
  ℕ, ◌+◌, ◌-◌, ◌*◌, ◌/◌, ◌%◌, ◌^◌, bit_and, Bool, true, false, not, [], ◌∷◌, ltb, ◌==◌,
  if◌then◌else◌, length, replicate, Bytes, ℤ, pos_part, below, Outcome, ok, ◌>>◌, ensure,
  invalid_bits, invalid_degree, invalid_succ_list,
}

pub record Space : Type 0 where
  pub bits : ℕ
  pub byte_len : ℕ
  pub graph_grade : ℕ
  pub succ_list_size : ℕ

-- After the test of the degree, `pos_part` is the degree itself.
unfoldable pub new_space : ℤ → ℤ → ℤ → Outcome Space
new_space b degree succ_list_size = do
  ensure (not (below b 1)) invalid_bits
  ensure (not (below degree 2)) invalid_degree
  ensure (bit_and (pos_part degree) (pos_part degree - 1) == 0) invalid_degree
  ensure (not (below succ_list_size 1)) invalid_succ_list
  ok (record {
    bits = pos_part b;
    byte_len = (pos_part b + 7) / 8;
    graph_grade = pos_part degree;
    succ_list_size = pos_part succ_list_size;
  })

-- `sp.ByteLen*8 - sp.Bits`; the code only asks whether it is above 0, so the difference may stop
-- there.
unfoldable pub extra_bits : Space → ℕ
extra_bits sp = sp.byte_len * 8 - sp.bits

unfoldable pub zero_id : Space → Bytes
zero_id sp = replicate sp.byte_len 0

-- `id[0]&mask == 0`. With unused bits ByteLen is above 0, so the empty case is never asked.
abbrev pub first_clear : ℕ → Bytes → Bool
first_clear mask [] = true
first_clear mask (b ∷ bs) = bit_and b mask == 0

unfoldable pub is_valid_id : Space → Bytes → Bool
is_valid_id sp id =
    if length id == sp.byte_len
    then (if ltb 0 (extra_bits sp)
        then first_clear (255 * 2 ^ (8 - extra_bits sp) % 256) id
        else true)
    else false

-- `id[0] &= mask`.
abbrev pub mask_first : ℕ → Bytes → Bytes
mask_first mask [] = []
mask_first mask (b ∷ bs) = bit_and b mask ∷ bs

-- The block "mask unused high-order bits" that ends every operation.
unfoldable pub mask_unused : Space → Bytes → Bytes
mask_unused sp id =
    if ltb 0 (extra_bits sp) then mask_first (255 / 2 ^ extra_bits sp % 256) id else id
