-- ===== src/Domain/Text.antt =====
-- internal/domain/identifier.go: NewIdFromString, ToBinaryString and FromHexString, with
-- `strings.TrimPrefix` and `hex.DecodeString`. SHA-1 is an argument: from the bytes of a text to the 20
-- bytes of its digest.
pub mod Laws
use koorde_dht_web_cache.Prelude.{
  ℕ, zero, suc, ◌+◌, ◌-◌, ◌*◌, ◌/◌, ◌%◌, ◌^◌, Bool, true, false, ◌&&◌, Option, none, some, [], ◌∷◌,
  ◌++◌, ltb, leb, ◌==◌, if◌then◌else◌, length, take, drop, replicate, Bytes, codes, Outcome, ok,
  panic, Result, returned, refused, Error, empty_input, not_hex, exceeds_space,
}
use koorde_dht_web_cache.Domain.Space.{Space, extra_bits, first_clear, mask_unused}

-- A slice of the digest past its 20 bytes panics.
unfoldable pub new_id_from_string : (Bytes → Bytes) → Space → Bytes → Outcome Bytes
new_id_from_string sha1 sp s =
    if ltb 20 sp.byte_len then panic else ok (mask_unused sp (take sp.byte_len (sha1 s)))

-- `%08b` of a byte, from the weight of a bit down.
unfoldable pub format_bits : ℕ → ℕ → Bytes
format_bits zero b = []
format_bits (suc n) b = (48 + b / 2 ^ n % 2) ∷ format_bits n b

unfoldable pub binary_digits : Bytes → Bytes
binary_digits [] = []
binary_digits (b ∷ bs) = format_bits 8 b ++ binary_digits bs

-- ToBinaryString of an identifier that is not nil.
unfoldable pub to_binary_string : Bool → Bytes → Bytes
to_binary_string with_prefix x =
    if with_prefix then codes "0b" ++ binary_digits x else binary_digits x

-- `strings.TrimPrefix` of a prefix of two characters.
unfoldable pub trim_prefix : ℕ → ℕ → Bytes → Bytes
trim_prefix c d [] = []
trim_prefix c d (x ∷ []) = x ∷ []
trim_prefix c d (x ∷ y ∷ s) = if (x == c) && (y == d) then s else x ∷ y ∷ s

-- The value of a hexadecimal digit of either case.
unfoldable pub from_hex_char : ℕ → Option ℕ
from_hex_char c =
    if leb 48 c && leb c 57
    then some (c - 48)
    else (if leb 97 c && leb c 102
        then some (c - 87)
        else (if leb 65 c && leb c 70 then some (c - 55) else none))

-- `hex.DecodeString`: none for a character that is no digit, and for an odd number of digits.
unfoldable pub decode_string : Bytes → Option Bytes
decode_string [] = some []
decode_string (x ∷ []) = none
decode_string (x ∷ y ∷ s) = elim (from_hex_char x) [
  | none ↦ none
  | some high ↦ elim (from_hex_char y) [
    | none ↦ none
    | some low ↦ elim (decode_string s) [ none ↦ none | some bs ↦ some ((high * 16 + low) ∷ bs) ]
  ]
]

unfoldable pub all_zero : Bytes → Bool
all_zero [] = true
all_zero (b ∷ bs) = (b == 0) && all_zero bs

-- The bytes beyond ByteLen, which are dropped when they are zero.
unfoldable pub drop_padding : Space → Bytes → Result Error Bytes
drop_padding sp bt =
    if ltb sp.byte_len (length bt)
    then (if all_zero (take (length bt - sp.byte_len) bt)
        then returned (drop (length bt - sp.byte_len) bt)
        else refused exceeds_space)
    else returned bt

-- The test of the unused bits of the padded identifier.
unfoldable pub check_top : Space → Bytes → Result Error Bytes
check_top sp id =
    if ltb 0 (extra_bits sp)
    then (if first_clear (255 * 2 ^ (8 - extra_bits sp) % 256) id
        then returned id
        else refused exceeds_space)
    else returned id

-- FromHexString after its prefixes.
unfoldable pub from_digits : Space → Bytes → Result Error Bytes
from_digits sp str = if length str == 0 then refused empty_input else elim (decode_string str) [
  | none ↦ refused not_hex
  | some bt ↦ elim (drop_padding sp bt) [
    | refused e ↦ refused e
    | returned kept ↦ check_top sp (replicate (sp.byte_len - length kept) 0 ++ kept)
  ]
]

unfoldable pub from_hex_string : Space → Bytes → Result Error Bytes
from_hex_string sp s = from_digits sp (trim_prefix 48 88 (trim_prefix 48 120 s))
