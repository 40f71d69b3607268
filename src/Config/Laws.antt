-- ===== src/Config/Laws.antt =====
-- What ValidateConfig decides, and what it lets through to NewSpace of internal/domain/identifier.go.
use koorde_dht_web_cache.Prelude.{
  ℕ, zero, suc, ◌-◌, ◌/◌, ◌%◌, ◌^◌, ◌<◌, ◌≡◌, ◌≢◌, ◌↔◌, refl, sym, ap, ◌∙◌, arith, bit_and, Bool,
  true, false, not, List, [], ◌∷◌, ◌++◌, ◌==◌, if◌then◌else◌, Bytes, ℤ, pos, negsuc, below,
  pos_part, ok,
}
use koorde_dht_web_cache.Prelude.Pow.{pow_mono}
use native.Mathlib.Nat.{mod-eq_of_lt}
use koorde_dht_web_cache.Domain.Space.{Space, new_space}
use koorde_dht_web_cache.Domain.Digits.{trailing_zeros, trailing_zeros_loop}
use koorde_dht_web_cache.Config.{
  Config, Float64, ConfigError, Validation, errors, panics, when, id_bits, to_uint, magnitude,
  dht_errors, validate_config,
}

loop_odd : (f n : ℕ) → (trailing_zeros_loop (suc f) n ≡ 0) ↔ (n % 2 ≡ 1)
unfolding trailing_zeros_loop
loop_odd f n = shift (n % 2) (trailing_zeros_loop f (n / 2))
  where
    shift : (r rest : ℕ) → ((if r == 1 then 0 else suc rest) ≡ 0) ↔ (r ≡ 1)
    shift r rest = ground arith

trailing_zeros_odd : (n : ℕ) → (trailing_zeros n ≡ 0) ↔ (n % 2 ≡ 1)
trailing_zeros_odd n = unfold trailing_zeros in loop_odd 63 n

append_empty : {A : Type 0} (xs ys : List A) → xs ++ ys ≡ [] → (xs ≡ []) × (ys ≡ [])
append_empty [] ys e = (refl, e)
append_empty (x ∷ xs) ys e = absurd (cc)

when-false : (b : Bool) (e : ConfigError) → when b e ≡ [] → b ≡ false
when-false true e h = absurd (cc)
when-false false e h = refl

collected : Validation → List ConfigError
collected (errors es) = es
collected panics = id_bits ∷ []

no_errors :
    (b : Bool) (es : List ConfigError) → (if b then panics else errors es) ≡ errors [] → es ≡ []
no_errors true es h = absurd (cc)
no_errors false es h = cc

uint_small : (d : ℤ) → below d 1 ≡ false → pos_part d < 2 ^ 63 → to_uint d ≡ pos_part d
unfolding to_uint
uint_small (pos n) h small = mod-eq_of_lt (below_next n small)
  where
    below_next : (n : ℕ) → n < 2 ^ 63 → n < 2 ^ 64
    below_next n h = omega (arith, h, pow_mono 63 64 (omega arith))
uint_small (negsuc n) h small = absurd (cc)

not_negative : (x : ℤ) → below x 1 ≡ false → magnitude x ≡ pos_part x
not_negative (pos n) h = refl
not_negative (negsuc n) h = absurd (cc)

even_degree : (d : ℤ) → below d 1 ≡ false → pos_part d % 2 ≢ 1 → below d 2 ≡ false
even_degree (pos zero) h odd = absurd (ground (arith, h))
even_degree (pos (suc zero)) h odd = absurd (odd refl)
even_degree (pos (suc (suc n))) h odd = ground arith
even_degree (negsuc n) h odd = absurd (cc)

module _ {F : Type 0} (float : Float64 F) (split_fails : Bytes → Bool) (c : Config F) where
  -- ValidateConfig panics exactly when the degree is odd, before it returns any error.
  pub validate_config-panics_iff :
      (validate_config float split_fails c ≡ panics) ↔ (to_uint c.dht.de_bruijn.degree % 2 ≡ 1)
  unfolding validate_config
  validate_config-panics_iff = ground (arith, trailing_zeros_odd (to_uint c.dht.de_bruijn.degree))

  module _ (valid : validate_config float split_fails c ≡ errors []) where
    not_odd : to_uint c.dht.de_bruijn.degree % 2 ≢ 1
    not_odd odd = ground (arith, validate_config-panics_iff, odd, valid)

    no_dht_errors : dht_errors c.dht ≡ []
    unfolding validate_config
    no_dht_errors =
        let all = no_errors (trailing_zeros (to_uint c.dht.de_bruijn.degree) == 0) _ valid in
        let a = (append_empty _ _ all).0 in
        let b = (append_empty _ _ a).0 in
        let d = (append_empty _ _ b).0 in let e = (append_empty _ _ d).0 in (append_empty _ _ e).1

    in_range :
        (below c.dht.id_bits 1 ≡ false)
        × (below c.dht.de_bruijn.degree 1 ≡ false)
        × (below c.dht.fault_tolerance.successor_list_size 1 ≡ false)
        × (not (magnitude c.dht.id_bits % trailing_zeros (to_uint c.dht.de_bruijn.degree) == 0)
            ≡ false)
    unfolding dht_errors
    in_range =
        let i = append_empty _ _ no_dht_errors in
        let h = append_empty _ _ i.0 in
        let g = append_empty _ _ h.0 in
        let f = append_empty _ _ g.0 in
        let e = append_empty _ _ f.0 in
        let d = append_empty _ _ e.0 in
        let c' = append_empty _ _ d.0 in
        let b = append_empty _ _ c'.0 in
        (when-false _ _ b.0, when-false _ _ c'.1, when-false _ _ e.1, when-false _ _ i.1)

    -- A configuration in which ValidateConfig finds no error, with a degree that an int holds and that
    -- is a power of two, is one that NewSpace accepts, and the Bits of the space are a multiple of the
    -- number that the code takes for the bits of a digit.
    pub validate_config-new_space :
        pos_part c.dht.de_bruijn.degree < 2 ^ 63
        → (bit_and (pos_part c.dht.de_bruijn.degree) (pos_part c.dht.de_bruijn.degree - 1) == 0)
          ≡ true
        → (sp : Space) × (new_space c.dht.id_bits c.dht.de_bruijn.degree
              c.dht.fault_tolerance.successor_list_size
            ≡ ok sp)
          × (sp.bits % trailing_zeros sp.graph_grade ≡ 0)
    unfolding new_space
    validate_config-new_space small power =
        let (bits_ok, degree_ok, list_ok, multiple) = in_range in
        let uint = uint_small c.dht.de_bruijn.degree degree_ok small in
        let two =
          even_degree c.dht.de_bruijn.degree degree_ok
            (λ odd. not_odd (ap (λ (n : ℕ). n % 2) uint ∙ odd)) in
        let whole : magnitude c.dht.id_bits % trailing_zeros (to_uint c.dht.de_bruijn.degree) ≡ 0 =
          ground (arith, multiple) in
        rw (bits_ok, two, power, list_ok)
          (
            _,
            refl,
            ap (λ (n : ℕ). n % trailing_zeros (pos_part c.dht.de_bruijn.degree))
                  (sym (not_negative c.dht.id_bits bits_ok))
                ∙ ap (λ (d : ℕ). magnitude c.dht.id_bits % trailing_zeros d) (sym uint)
                ∙ whole,
          )
