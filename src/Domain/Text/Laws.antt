-- ===== src/Domain/Text/Laws.antt =====
-- Identifiers as text: what FromHexString accepts, and what it reads back.
use koorde_dht_web_cache.Prelude.{
  ℕ, zero, suc, ◌+◌, ◌-◌, ◌*◌, ◌/◌, ◌%◌, ◌<◌, ◌≤◌, ◌≡◌, ◌⊎◌, ◌≢◌, refl, sym, ap, ◌∙◌, arith, Bool,
  true, false, Option, none, some, [], ◌∷◌, ◌++◌, ◌==◌, if◌then◌else◌, length, take, drop,
  replicate, length-append, length-drop, length-replicate, length-take, Bytes, IsBytes, Result,
  returned, refused, exceeds_space, Error, ok, panic, inl, inr, Option-cases,
}
use mathlib.Core.Path.{subst}
use koorde_dht_web_cache.Domain.Space.{Space, mask_unused, is_valid_id}
use koorde_dht_web_cache.Domain.Valid.{IsSpace, IsId, is_valid_id_iff, mask_unused-IsId}
use koorde_dht_web_cache.Domain.Hex.{hex_digit, encode_to_string, to_hex_string}
use koorde_dht_web_cache.Domain.Text.{
  trim_prefix, from_hex_char, decode_string, drop_padding, check_top, from_digits, from_hex_string,
  new_id_from_string,
}

from_hex_char-hex_digit : (d : ℕ) → d < 16 → from_hex_char (hex_digit d) ≡ some d
unfolding from_hex_char
from_hex_char-hex_digit d h = ground arith

decode_pair :
    (x y high low : ℕ) (s bs : Bytes)
    → from_hex_char x ≡ some high
    → from_hex_char y ≡ some low
    → decode_string s ≡ some bs
    → decode_string (x ∷ y ∷ s) ≡ some ((high * 16 + low) ∷ bs)
unfolding decode_string
decode_pair x y high low s bs ex ey es = ground arith

decode_string-encode_to_string :
    (x : Bytes) → IsBytes x → decode_string (encode_to_string x) ≡ some x
unfolding encode_to_string
decode_string-encode_to_string [] h = unfold decode_string in refl
decode_string-encode_to_string (b ∷ bs) h =
    decode_pair (hex_digit (b / 16)) (hex_digit (b % 16)) (b / 16) (b % 16) (encode_to_string bs) bs
      (from_hex_char-hex_digit (b / 16) (omega (arith, h.0)))
      (from_hex_char-hex_digit (b % 16) (omega arith)) (decode_string-encode_to_string bs h.1)
    ∙ ap (λ (n : ℕ). some (n ∷ bs)) (omega arith)

hex_digit-lt : (d : ℕ) → d < 16 → (hex_digit d < 103) × (hex_digit d ≢ 88)
hex_digit-lt d h = ground arith

-- No pair of hexadecimal digits is a prefix that ends in a letter above f.
trim_prefix-encode_to_string :
    (d : ℕ) (x : Bytes)
    → (d ≡ 88) ⊎ (d ≡ 120)
    → IsBytes x
    → trim_prefix 48 d (encode_to_string x) ≡ encode_to_string x
unfolding trim_prefix encode_to_string
trim_prefix-encode_to_string d [] h hx = refl
trim_prefix-encode_to_string d (b ∷ bs) h hx = ground (arith, hex_digit-lt (b % 16))

length-encode_to_string : (x : Bytes) → length (encode_to_string x) ≡ 2 * length x
unfolding encode_to_string
length-encode_to_string [] = omega arith
length-encode_to_string (b ∷ bs) = omega (arith, length-encode_to_string bs)

trimmed :
    (prefix : Bool) (x : Bytes)
    → IsBytes x
    → trim_prefix 48 88 (trim_prefix 48 120 (to_hex_string prefix x)) ≡ encode_to_string x
unfolding to_hex_string
trimmed true x h = unfold trim_prefix in trim_prefix-encode_to_string 88 x (inl refl) h
trimmed false x h =
    rw (trim_prefix-encode_to_string 120 x (inr refl) h)
      (trim_prefix-encode_to_string 88 x (inl refl) h)

-- The test of the top bits is that of IsValidID.
check_top_lem :
    (sp : Space) (id : Bytes)
    → length id ≡ sp.byte_len
    → check_top sp id ≡ (if is_valid_id sp id then returned id else refused exceeds_space)
unfolding check_top is_valid_id
check_top_lem sp id e = ground arith

from_hex_char-lt : (c d : ℕ) → from_hex_char c ≡ some d → d < 16
unfolding from_hex_char
from_hex_char-lt c d e = ground arith

decode_string-IsBytes : (s bs : Bytes) → decode_string s ≡ some bs → IsBytes bs
unfolding decode_string
decode_string-IsBytes [] bs e = ground arith
decode_string-IsBytes (x ∷ []) bs e = cc
decode_string-IsBytes (x ∷ y ∷ s) bs e = elim (Option-cases (from_hex_char x)) [
  | inl bad ↦ absurd (ground (arith, bad, e))
  | inr (high, ex) ↦ elim (Option-cases (from_hex_char y)) [
    | inl bad ↦ absurd (ground (arith, ex, bad, e))
    | inr (low, ey) ↦ elim (Option-cases (decode_string s)) [
      | inl bad ↦ absurd (ground (arith, ex, ey, bad, e))
      | inr (rest, es) ↦
          let same : bs ≡ (high * 16 + low) ∷ rest =
            cc (sym (decode_pair x y high low s rest ex ey es) ∙ e) in
          rw same (
            omega (arith, from_hex_char-lt x high ex, from_hex_char-lt y low ey),
            decode_string-IsBytes s rest es,
          )
    ]
  ]
]

drop-IsBytes : (n : ℕ) (bs : Bytes) → IsBytes bs → IsBytes (drop n bs)
drop-IsBytes zero bs h = h
drop-IsBytes (suc n) [] h = tt
drop-IsBytes (suc n) (b ∷ bs) h = drop-IsBytes n bs h.1

take-IsBytes : (n : ℕ) (bs : Bytes) → IsBytes bs → IsBytes (take n bs)
take-IsBytes zero bs h = tt
take-IsBytes (suc n) [] h = tt
take-IsBytes (suc n) (b ∷ bs) h = (h.0, take-IsBytes n bs h.1)

drop_padding_kept :
    (sp : Space) (bt kept : Bytes)
    → IsBytes bt
    → drop_padding sp bt ≡ returned kept
    → IsBytes kept × (length kept ≤ sp.byte_len)
unfolding drop_padding
drop_padding_kept sp bt kept h e =
    ground
      (arith, drop-IsBytes (length bt - sp.byte_len) bt h, length-drop (length bt - sp.byte_len) bt)

padded-IsBytes : (n : ℕ) (bs : Bytes) → IsBytes bs → IsBytes (replicate n 0 ++ bs)
padded-IsBytes zero bs h = h
padded-IsBytes (suc n) bs h = (omega arith, padded-IsBytes n bs h)

-- A chain of fallible steps that returns had steps that return.
past_refusal :
    {A : Type 0} (b : Bool) (why : Error) (next : Result Error A) {a : A}
    → (if b then refused why else next) ≡ returned a
    → next ≡ returned a
past_refusal true why next e = cc
past_refusal false why next e = e

past_option :
    {A B : Type 0} (o : Option A) (why : Error) (next : A → Result Error B) {b : B}
    → elim o [ none ↦ refused why | some a ↦ next a ] ≡ returned b
    → (a : A) × (o ≡ some a) × (next a ≡ returned b)
past_option none why next e = cc
past_option (some a) why next e = (a, refl, e)

past_result :
    {A B : Type 0} (r : Result Error A) (next : A → Result Error B) {b : B}
    → elim r [ refused why ↦ refused why | returned a ↦ next a ] ≡ returned b
    → (a : A) × (r ≡ returned a) × (next a ≡ returned b)
past_result (refused why) next e = cc
past_result (returned a) next e = (a, refl, e)

module _ {sp : Space} (s : IsSpace sp) where
  -- FromHexString reads back the text of an identifier of the space, with the prefix or without it.
  pub from_hex_string-to_hex_string :
      (prefix : Bool) (id : Bytes)
      → IsId sp id
      → from_hex_string sp (to_hex_string prefix id) ≡ returned id
  unfolding from_hex_string from_digits
  from_hex_string-to_hex_string prefix id i =
      rw
        (
          trimmed prefix id i.bytes,
          from_digits,
          decode_string-encode_to_string id i.bytes,
          named,
          kept,
          whole,
        )
        (check_top_lem sp id i.size ∙ rw ((is_valid_id_iff s id i.bytes).1 i) refl)
    where
      named : (length (encode_to_string id) == 0) ≡ false
      named = ground (arith, length-encode_to_string id, i.size, s.whole_bytes, s.bits_pos)

      kept : drop_padding sp id ≡ returned id
      kept = unfold drop_padding in ground (arith, i.size)

      whole : sp.byte_len - length id ≡ 0
      whole = omega (arith, i.size)

  from_digits-IsId : (str : Bytes) {id : Bytes} → from_digits sp str ≡ returned id → IsId sp id
  unfolding from_digits
  from_digits-IsId str {id} e =
      let (bt, decoded, dropped) =
        past_option (decode_string str) _ _ (past_refusal (length str == 0) _ _ e) in
      let (kept, drops, checked) = past_result (drop_padding sp bt) _ dropped in
      let (bytes, short) =
        drop_padding_kept sp bt kept (decode_string-IsBytes str bt decoded) drops in
      let padded = replicate (sp.byte_len - length kept) 0 ++ kept in
      let size : length padded ≡ sp.byte_len = omega (
        arith,
        short,
        length-append {0} (replicate (sp.byte_len - length kept) 0) kept,
        length-replicate {0} {A = ℕ} (sp.byte_len - length kept) 0,
      ) in
      let accepted = sym (check_top_lem sp padded size) ∙ checked in
      let same : padded ≡ id = ground (arith, accepted) in
      subst (IsId sp) same (
        (is_valid_id_iff s padded (padded-IsBytes (sp.byte_len - length kept) kept bytes)).0
          (ground (arith, accepted)))

  -- Every text that FromHexString accepts stands for an identifier of the space.
  pub from_hex_string-IsId :
      (text : Bytes) {id : Bytes} → from_hex_string sp text ≡ returned id → IsId sp id
  unfolding from_hex_string
  from_hex_string-IsId text e = from_digits-IsId (trim_prefix 48 88 (trim_prefix 48 120 text)) e

  -- NewIdFromString panics when identifiers have more bytes than a digest. Else, with 20 bytes as the
  -- digest, it returns an identifier of the space.
  pub new_id_from_string_lem :
      (sha1 : Bytes → Bytes) (text : Bytes)
      → IsBytes (sha1 text)
      → length (sha1 text) ≡ 20
      → (20 < sp.byte_len → new_id_from_string sha1 sp text ≡ panic)
        × (sp.byte_len ≤ 20 → (id : Bytes) × (new_id_from_string sha1 sp text ≡ ok id) × IsId sp id)
  unfolding new_id_from_string
  new_id_from_string_lem sha1 text bytes size = (
    λ h. ground arith,
    λ h. (
      mask_unused sp (take sp.byte_len (sha1 text)),
      ground arith,
      mask_unused-IsId s (take sp.byte_len (sha1 text))
          (omega (arith, length-take sp.byte_len (sha1 text)))
          (take-IsBytes sp.byte_len (sha1 text) bytes),
    ),
  )
