-- ===== src/Lookup/Ends/Fuel.antt =====
-- How many calls of itself a node still makes in a lookup: the target is shifted out, then the
-- imaginary node.
use koorde_dht_web_cache.Prelude.{
  ℕ, zero, suc, ◌+◌, ◌-◌, ◌*◌, ◌/◌, ◌%◌, ◌^◌, ◌<◌, ◌≡◌, ◌≢◌, sym, ap, ◌∙◌, ◌⊎◌, inl, inr, arith,
}
use koorde_dht_web_cache.Prelude.Pow.{pow_pos, pow-add, mod_unique}
use koorde_dht_web_cache.Lookup.Laws.{mod_horner}
use native.Mathlib.Nat.{mod-eq_of_lt, div-eq_of_lt}

-- A shift by j bits takes every bit out of v.
abbrev pub Clears : ℕ → ℕ → ℕ → Type 0
Clears b v j = v * 2 ^ j % 2 ^ b ≡ 0

pub Clears_multiple : (b v k : ℕ) → v % 2 ^ b ≡ 0 → v * k % 2 ^ b ≡ 0
Clears_multiple b v k e =
    ap (λ (n : ℕ). n % 2 ^ b) (omega arith)
    ∙ sym (mod_horner v (2 ^ b) k 0)
    ∙ ap (λ (n : ℕ). (n * k + 0) % 2 ^ b) e
    ∙ ap (λ (n : ℕ). n % 2 ^ b) (omega arith)
    ∙ mod-eq_of_lt (pow_pos b)

pub Clears-next : (b v j r : ℕ) → 0 < r → Clears b v (suc j) → Clears b (v * 2 ^ r % 2 ^ b) j
Clears-next b v j r h e =
    let powers : 2 ^ r * 2 ^ j ≡ 2 ^ suc j * 2 ^ (r - 1) =
      sym (pow-add r j) ∙ ap (λ (n : ℕ). 2 ^ n) (omega arith) ∙ pow-add (suc j) (r - 1) in
    let whole : v * 2 ^ r * 2 ^ j + 0 ≡ v * 2 ^ suc j * 2 ^ (r - 1) =
      omega (arith, ap (λ (n : ℕ). v * n) powers) in
    ap (λ (n : ℕ). n % 2 ^ b) (omega arith)
    ∙ mod_horner (v * 2 ^ r) (2 ^ b) (2 ^ j) 0
    ∙ ap (λ (n : ℕ). n % 2 ^ b) whole
    ∙ Clears_multiple b (v * 2 ^ suc j) (2 ^ (r - 1)) e

pub Clears-zero : (b v : ℕ) → v < 2 ^ b → Clears b v 0 → v ≡ 0
Clears-zero b v h e = sym (mod-eq_of_lt h) ∙ ap (λ (n : ℕ). n % 2 ^ b) (omega arith) ∙ e

pub Clears-all : (b v : ℕ) → Clears b v b
Clears-all b v = mod_unique (v * 2 ^ b) (2 ^ b) v 0 (omega arith) (pow_pos b)

-- The fuel is more than the calls that are left: while the shifted target is not 0, as many as shift
-- it out and then the Bits that shift out the imaginary node.
abbrev pub Enough : ℕ → ℕ → ℕ → ℕ → Type 0
Enough b fuel i k =
    ((j : ℕ) × Clears b k j × (j + b < fuel)) ⊎ ((k ≡ 0) × ((j : ℕ) × Clears b i j × (j < fuel)))

pub Enough-same :
    (b fuel : ℕ) {i i' k k' : ℕ} → i' ≡ i → k' ≡ k → Enough b fuel i k → Enough b fuel i' k'
Enough-same b fuel e f enough = rw (e, f) enough

pub digit_zero : (b r k : ℕ) → k ≡ 0 → k / 2 ^ (b - r) ≡ 0
digit_zero b r k z = rw z (div-eq_of_lt (pow_pos (b - r)))

pub shifted_out :
    (b r fuel i k : ℕ)
    → 0 < r
    → i < 2 ^ b
    → k ≡ 0
    → (j : ℕ) → Clears b i j
    → j < suc fuel
    → (i * 2 ^ r + k / 2 ^ (b - r)) % 2 ^ b ≢ i
    → Enough b fuel ((i * 2 ^ r + k / 2 ^ (b - r)) % 2 ^ b) (k * 2 ^ r % 2 ^ b)
shifted_out b r fuel i k pr hi z j c lt ne =
    let next : (i * 2 ^ r + k / 2 ^ (b - r)) % 2 ^ b ≡ i * 2 ^ r % 2 ^ b =
      ap (λ (d : ℕ). (i * 2 ^ r + d) % 2 ^ b) (digit_zero b r k z)
      ∙ ap (λ (n : ℕ). n % 2 ^ b) (omega arith) in
    let rest : k * 2 ^ r % 2 ^ b ≡ 0 =
      ap (λ (d : ℕ). d * 2 ^ r % 2 ^ b) z
      ∙ ap (λ (n : ℕ). n % 2 ^ b) (omega arith)
      ∙ mod-eq_of_lt (pow_pos b) in
    inr (rest, calls j c lt next)
  where
    calls :
        (j : ℕ)
        → Clears b i j
        → j < suc fuel
        → (i * 2 ^ r + k / 2 ^ (b - r)) % 2 ^ b ≡ i * 2 ^ r % 2 ^ b
        → (m : ℕ) × Clears b ((i * 2 ^ r + k / 2 ^ (b - r)) % 2 ^ b) m × (m < fuel)
    calls zero c lt next =
        let nil : i ≡ 0 = Clears-zero b i hi c in
        absurd (
          ne (
            next
            ∙ ap (λ (d : ℕ). d * 2 ^ r % 2 ^ b) nil
            ∙ ap (λ (n : ℕ). n % 2 ^ b) (omega arith)
            ∙ mod-eq_of_lt (pow_pos b)
            ∙ sym nil))
    calls (suc m) c lt next = (m, rw next (Clears-next b i m r pr c), omega arith)

-- One hop to another imaginary node uses up one call.
pub Enough-next :
    (b r fuel i k : ℕ)
    → 0 < r
    → i < 2 ^ b
    → k < 2 ^ b
    → Enough b (suc fuel) i k
    → (i * 2 ^ r + k / 2 ^ (b - r)) % 2 ^ b ≢ i
    → Enough b fuel ((i * 2 ^ r + k / 2 ^ (b - r)) % 2 ^ b) (k * 2 ^ r % 2 ^ b)
Enough-next b r fuel i k pr hi hk (inl (suc j, c, lt)) ne =
    inl (j, Clears-next b k j r pr c, omega arith)
Enough-next b r fuel i k pr hi hk (inl (zero, c, lt)) ne =
    shifted_out b r fuel i k pr hi (Clears-zero b k hk c) b (Clears-all b i) (omega arith) ne
Enough-next b r fuel i k pr hi hk (inr (z, (j, c, lt))) ne =
    shifted_out b r fuel i k pr hi z j c lt ne
