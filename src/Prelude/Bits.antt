-- ===== src/Prelude/Bits.antt =====
-- `&` and `|` at variables: one equation for the lowest digit, masks and disjoint fields.
use Prim.Native.Nat.{
  ℕ, zero, suc, ◌+◌, ◌-◌, ◌*◌, ◌/◌, ◌%◌, ◌^◌, ◌≤◌, ◌<◌, min, max, bit_and, bit_or, digits, bitwise,
  bit_and-bitwise, bit_or-bitwise,
}
use mathlib.Core.Path.{◌≡◌, refl, sym, ap, ◌∙◌}
use mathlib.Core.Logic.{◌↔◌}
use mathlib.Core.Bool.{Bool, true, false}
use native.Mathlib.Nat.{le_refl, div-add-mod, mod-lt}
use native.Mathlib.Omega.{arith}
use native.Mathlib.Decide.{ℕ_discrete}
use koorde_dht_web_cache.Prelude.Tests.{◌==◌, ==_iff, ltb, leb, if◌then◌else◌}
use koorde_dht_web_cache.Prelude.Pow.{pow_pos, two-pow-suc, mod_unique}

-- The recursion on binary digits that the native operations stand for does not need all its fuel.
module _ (z : ℕ → ℕ) (f : ℕ → ℕ → ℕ) where
  digits_of_zero : (n b : ℕ) → digits z f n zero b ≡ z b
  digits_of_zero zero b = refl
  digits_of_zero (suc n) b = refl

  digits_enough : (a n b m : ℕ) → a ≤ n → a ≤ m → digits z f n a b ≡ digits z f m a b
  digits_enough zero n b m _ _ = digits_of_zero n b ∙ sym (digits_of_zero m b)
  digits_enough (suc a) (suc n) b (suc m) enough enough' =
      let rest = digits_enough (suc a / 2) n (b / 2) m (omega arith) (omega arith) in rw rest
  digits_enough (suc a) n b m enough enough' = absurd (omega arith)

  low_digit :
      (a b : ℕ) → 0 < a → bitwise z f a b ≡ f (a % 2) (b % 2) + 2 * bitwise z f (a / 2) (b / 2)
  low_digit zero b positive = absurd (omega arith)
  low_digit (suc a) b positive =
      let half = suc a / 2 in
      omega (arith, digits_enough half a (b / 2) half (omega arith) (omega arith))

pub bit_and_step : (a b : ℕ) → bit_and a b ≡ min (a % 2) (b % 2) + 2 * bit_and (a / 2) (b / 2)
bit_and_step a b = elim (ℕ_discrete a 0) [
  | yes none ↦ rw none (omega (arith, bit_and-bitwise 0 b, bit_and-bitwise 0 (b / 2)))
  | no some ↦ simp bit_and-bitwise (low_digit (λ _. 0) min a b (omega arith))
]

pub bit_or_step : (a b : ℕ) → bit_or a b ≡ max (a % 2) (b % 2) + 2 * bit_or (a / 2) (b / 2)
bit_or_step a b = elim (ℕ_discrete a 0) [
  | yes none ↦ rw none (omega (arith, bit_or-bitwise 0 b, bit_or-bitwise 0 (b / 2)))
  | no some ↦ simp bit_or-bitwise (low_digit (λ t. t) max a b (omega arith))
]

bit_and-zero_below : (n a : ℕ) → a ≤ n → bit_and a 0 ≡ 0
bit_and-zero_below n zero h = refl
bit_and-zero_below zero (suc a) h = absurd (omega arith)
bit_and-zero_below (suc n) (suc a) h =
    omega (arith, bit_and_step (suc a) 0, bit_and-zero_below n (suc a / 2) (omega arith))

bit_or-zero_below : (n a : ℕ) → a ≤ n → bit_or a 0 ≡ a
bit_or-zero_below n zero h = refl
bit_or-zero_below zero (suc a) h = absurd (omega arith)
bit_or-zero_below (suc n) (suc a) h =
    omega (arith, bit_or_step (suc a) 0, bit_or-zero_below n (suc a / 2) (omega arith))

bit_and-self_below : (n a : ℕ) → a ≤ n → bit_and a a ≡ a
bit_and-self_below n zero h = refl
bit_and-self_below zero (suc a) h = absurd (omega arith)
bit_and-self_below (suc n) (suc a) h =
    omega (arith, bit_and_step (suc a) (suc a), bit_and-self_below n (suc a / 2) (omega arith))

pub bit_and_self : (a : ℕ) → bit_and a a ≡ a
bit_and_self a = bit_and-self_below a a (le_refl a)

mask_double :
    (p a : ℕ) → 0 < p → bit_and (a / 2) (p - 1) ≡ a / 2 % p → bit_and a (2 * p - 1) ≡ a % (2 * p)
mask_double p a pos ih = ground (
  arith,
  bit_and_step a (2 * p - 1),
  ih,
  mod_unique a (2 * p) (a / 2 / p) (a / 2 % p * 2 + a % 2) (omega (arith, div-add-mod (a / 2) p))
      (omega (arith, mod-lt (a / 2) pos)),
)

or_double :
    (p a r : ℕ) → bit_or (a * p) (r / 2) ≡ a * p + r / 2 → bit_or (a * (2 * p)) r ≡ a * (2 * p) + r
or_double p a r ih =
    let e : a * (2 * p) / 2 ≡ a * p = omega arith in
    omega (arith, bit_or_step (a * (2 * p)) r, ap (λ (t : ℕ). bit_or t (r / 2)) e, ih)

-- A mask of k ones is the remainder by 2 ^ k.
pub bit_and_mask : (k a : ℕ) → bit_and a (2 ^ k - 1) ≡ a % 2 ^ k
bit_and_mask zero a = omega (arith, bit_and-zero_below a a (le_refl a))
bit_and_mask (suc k) a = rw two-pow-suc (mask_double (2 ^ k) a (pow_pos k) (bit_and_mask k (a / 2)))

-- `a << k | r` is a sum when r fits k bits.
pub bit_or_shift : (k a r : ℕ) → r < 2 ^ k → bit_or (a * 2 ^ k) r ≡ a * 2 ^ k + r
bit_or_shift zero a r h = ground (arith, bit_or-zero_below (a * 1) (a * 1) (le_refl (a * 1)))
bit_or_shift (suc k) a r h =
    rw two-pow-suc (or_double (2 ^ k) a r (bit_or_shift k a (r / 2) (omega (arith, two-pow-suc k))))

bit_and-le_below : (n a b : ℕ) → a ≤ n → bit_and a b ≤ a
bit_and-le_below n zero b h = omega (arith, bit_and-bitwise 0 b)
bit_and-le_below zero (suc a) b h = absurd (omega arith)
bit_and-le_below (suc n) (suc a) b h =
    omega (arith, bit_and_step (suc a) b, bit_and-le_below n (suc a / 2) (b / 2) (omega arith))

pub bit_and-le : (a b : ℕ) → bit_and a b ≤ a
bit_and-le a b = bit_and-le_below a a b (le_refl a)

-- `|` of two numbers of k bits has k bits.
pub bit_or-lt : (k a b : ℕ) → a < 2 ^ k → b < 2 ^ k → bit_or a b < 2 ^ k
bit_or-lt zero zero zero ha hb = omega arith
bit_or-lt zero (suc a) b ha hb = absurd (omega arith)
bit_or-lt zero a (suc b) ha hb = absurd (omega arith)
bit_or-lt (suc k) a b ha hb = omega (
  arith,
  two-pow-suc k,
  bit_or_step a b,
  bit_or-lt k (a / 2) (b / 2) (omega (arith, two-pow-suc k)) (omega (arith, two-pow-suc k)),
)

-- A test that all the numbers below n pass; for a small n it is evaluated.
passes : (ℕ → Bool) → ℕ → Bool
passes test zero = true
passes test (suc n) = if test n then passes test n else false

passes_at : (test : ℕ → Bool) (x n : ℕ) → x < n → passes test n ≡ true → test x ≡ true
unfolding passes
passes_at test x zero below all = absurd (omega arith)
passes_at test x (suc n) below all = elim (ℕ_discrete x n) [
  | yes e ↦ rw e (ground (arith, all))
  | no other ↦ passes_at test x n (omega arith) (ground (arith, all))
]

abbrev low_mask_test : ℕ → ℕ → Bool
low_mask_test e b = bit_and b (255 / 2 ^ e % 256) == b % 2 ^ (8 - e)

abbrev high_mask_test : ℕ → ℕ → Bool
high_mask_test e b =
    if bit_and b (255 * 2 ^ (8 - e) % 256) == 0 then ltb b (2 ^ (8 - e)) else leb (2 ^ (8 - e)) b

low_mask_table : passes (λ e. passes (low_mask_test e) 256) 8 ≡ true
unfolding passes
low_mask_table = refl

high_mask_table : passes (λ e. passes (high_mask_test e) 256) 8 ≡ true
unfolding passes
high_mask_table = refl

-- `b & byte(0xFF >> e)` keeps the low 8 - e bits of a byte.
pub low_mask : (e b : ℕ) → e < 8 → b < 256 → bit_and b (255 / 2 ^ e % 256) ≡ b % 2 ^ (8 - e)
low_mask e b he hb = (==_iff _ _).0 (passes_at _ b 256 hb (passes_at _ e 8 he low_mask_table))

-- `b & byte(0xFF << (8 - e))` is zero exactly for the bytes below 2 ^ (8 - e).
pub high_mask :
    (e b : ℕ) → e < 8 → b < 256 → (bit_and b (255 * 2 ^ (8 - e) % 256) ≡ 0) ↔ (b < 2 ^ (8 - e))
high_mask e b he hb = (λ h. ground (arith, test), λ h. ground (arith, test))
  where
    test : high_mask_test e b ≡ true
    test = passes_at _ b 256 hb (passes_at _ e 8 he high_mask_table)
