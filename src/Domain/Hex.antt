-- ===== src/Domain/Hex.antt =====
-- internal/domain/identifier.go: ToHexString of an identifier that is not nil, with
-- `hex.EncodeToString`; nodes and resources of internal/domain/node.go and resource.go.
use koorde_dht_web_cache.Prelude.{
  ℕ, ◌+◌, ◌/◌, ◌%◌, ◌<◌, ◌≡◌, refl, ap, arith, Bool, true, false, [], ◌∷◌, ltb, if◌then◌else◌,
  Bytes, IsBytes,
}
use koorde_dht_web_cache.Prelude.{bytes_eq, bytes_eq_iff, ◌↔◌}

-- Node, of which Addr is a string.
pub record Node : Type 0 where
  pub id : Bytes
  pub addr : Bytes

pub record Resource : Type 0 where
  pub key : Bytes
  pub raw_key : Bytes
  pub value : Bytes

-- The digits 0 to 9 and a to f, as codes.
abbrev pub hex_digit : ℕ → ℕ
hex_digit d = if ltb d 10 then 48 + d else 87 + d

unfoldable pub encode_to_string : Bytes → Bytes
encode_to_string [] = []
encode_to_string (b ∷ bs) = hex_digit (b / 16) ∷ hex_digit (b % 16) ∷ encode_to_string bs

unfoldable pub to_hex_string : Bool → Bytes → Bytes
to_hex_string prefix x = if prefix then 48 ∷ 120 ∷ encode_to_string x else encode_to_string x

hex_digit-injective : (c d : ℕ) → hex_digit c ≡ hex_digit d → c < 16 → d < 16 → c ≡ d
hex_digit-injective c d e hc hd = ground (arith, e)

digits_of_byte :
    (a b : ℕ)
    → hex_digit (a / 16) ≡ hex_digit (b / 16)
    → hex_digit (a % 16) ≡ hex_digit (b % 16)
    → a < 256
    → b < 256
    → a ≡ b
digits_of_byte a b e f ha hb = omega (
  arith,
  hex_digit-injective (a / 16) (b / 16) e (omega arith) (omega arith),
  hex_digit-injective (a % 16) (b % 16) f (omega arith) (omega arith),
)

encode_to_string-injective :
    (x y : Bytes) → IsBytes x → IsBytes y → encode_to_string x ≡ encode_to_string y → x ≡ y
unfolding encode_to_string
encode_to_string-injective [] [] hx hy e = refl
encode_to_string-injective [] (b ∷ bs) hx hy e = cc
encode_to_string-injective (a ∷ as') [] hx hy e = cc
encode_to_string-injective (a ∷ as') (b ∷ bs) hx hy e =
    ground (arith, digits_of_byte a b, encode_to_string-injective as' bs hx.1 hy.1, e, hx, hy)

-- Two byte strings have one hexadecimal text, with a prefix or without, exactly when they are equal.
pub to_hex_string_iff :
    (prefix : Bool) (x y : Bytes)
    → IsBytes x
    → IsBytes y
    → (to_hex_string prefix x ≡ to_hex_string prefix y) ↔ (x ≡ y)
unfolding to_hex_string
to_hex_string_iff true x y hx hy = (
  λ e. encode_to_string-injective x y hx hy (ground arith),
  ap (λ (t : Bytes). 48 ∷ 120 ∷ encode_to_string t),
)
to_hex_string_iff false x y hx hy = (encode_to_string-injective x y hx hy, ap encode_to_string)

pub to_hex_string-bytes_eq :
    (prefix : Bool) (x y : Bytes)
    → IsBytes x
    → IsBytes y
    → bytes_eq (to_hex_string prefix x) (to_hex_string prefix y) ≡ bytes_eq x y
to_hex_string-bytes_eq prefix x y hx hy = ground (
  arith,
  to_hex_string_iff prefix x y hx hy,
  bytes_eq_iff x y,
  bytes_eq_iff (to_hex_string prefix x) (to_hex_string prefix y),
)
