-- ===== src/Prelude/Pow.antt =====
-- Powers of two and of 256, quotients and remainders by them.
use Prim.Native.Nat.{ℕ, zero, suc, ◌+◌, ◌-◌, ◌*◌, ◌/◌, ◌%◌, ◌^◌, ◌≤◌, ◌<◌}
use mathlib.Core.Path.{◌≡◌, refl, ap, ◌∙◌}
use native.Mathlib.Nat.{
  pow-suc, one-le-pow, mod-mod_of_dvd, mul_assoc, mod-eq_of_lt, mul-add-mod_self_left, mul-add-div,
  pow-le-pow_right, div-eq_of_lt,
}
use native.Mathlib.Omega.{arith}

pub pow_pos : (k : ℕ) → 0 < 2 ^ k
pow_pos k = one-le-pow k 2 (omega arith)

pub two-pow-suc : (k : ℕ) → 2 ^ suc k ≡ 2 * 2 ^ k
two-pow-suc k = omega (arith, pow-suc 2 k)

pub pow-add : (a b : ℕ) → 2 ^ (a + b) ≡ 2 ^ a * 2 ^ b
pow-add zero b = rw (add_zero b) (omega arith)
  where
    add_zero : (b : ℕ) → zero + b ≡ b
    add_zero b = omega arith
pow-add (suc a) b =
    let e : suc a + b ≡ suc (a + b) = omega arith in
    rw (e, two-pow-suc (a + b), two-pow-suc a, pow-add a b, mul_assoc 2 (2 ^ a) (2 ^ b)) refl

pub pow_split : (a b : ℕ) → a ≤ b → 2 ^ b ≡ 2 ^ a * 2 ^ (b - a)
pow_split a b h =
    let e : b ≡ a + (b - a) = omega arith in ap (λ (n : ℕ). 2 ^ n) e ∙ pow-add a (b - a)

pub pow_mono : (a b : ℕ) → a ≤ b → 2 ^ a ≤ 2 ^ b
pow_mono a b h = pow-le-pow_right {n = 2} (omega arith) h

-- 256 ^ n, as a power of two.
pub pow_256 : (n : ℕ) → 256 ^ n ≡ 2 ^ (8 * n)
pow_256 zero = refl
pow_256 (suc n) =
    let e : 8 * suc n ≡ 8 * n + 8 = omega arith in
    rw (e, pow-add (8 * n) 8, pow-suc 256 n, pow_256 n) refl

-- A remainder by 2 ^ b keeps the low a ≤ b bits.
pub mod-mod-pow : (x a b : ℕ) → a ≤ b → x % 2 ^ b % 2 ^ a ≡ x % 2 ^ a
mod-mod-pow x a b h = mod-mod_of_dvd (2 ^ a) x (∣ (2 ^ (b - a), pow_split a b h) ∣₁)

-- The high part of a two-part number: quotient and remainder.
pub div_of_parts : (m q r : ℕ) → r < m → (m * q + r) / m ≡ q
div_of_parts m q r h = mul-add-div {m = m} (omega arith) q r ∙ rw (div-eq_of_lt h) (omega arith)

pub mod_of_parts : (m q r : ℕ) → r < m → (m * q + r) % m ≡ r
mod_of_parts m q r h = mul-add-mod_self_left m q r ∙ mod-eq_of_lt h

-- The remainder is the only number below m that differs from x by a multiple of m.
pub mod_unique : (x m q r : ℕ) → x ≡ m * q + r → r < m → x % m ≡ r
mod_unique x m q r e h = rw e (mod_of_parts m q r h)
