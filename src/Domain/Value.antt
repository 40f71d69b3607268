-- ===== src/Domain/Value.antt =====
-- The number that a big-endian byte string stands for: `ToBigInt` of internal/domain/identifier.go,
-- with `big.Int.SetBytes` and `big.Int.Bytes`, and the laws that the arithmetic rests on.
use koorde_dht_web_cache.Prelude.{
  ℕ, zero, suc, ◌+◌, ◌*◌, ◌^◌, ◌≤◌, ◌<◌, ◌≡◌, refl, ap, ap₂, [], ◌∷◌, ◌++◌, arith, length,
  replicate, length-append, Bytes, IsBytes, bytes_compare, compare, Ordering,
}
use koorde_dht_web_cache.Prelude.Pow.{pow_256, pow-add}
use native.Mathlib.Nat.{pow-suc, mul-le-mul_right, one-le-pow}

-- Bytes that count 256 ^ 0, 256 ^ 1, … from the right.
unfoldable pub to_big_int : Bytes → ℕ
to_big_int [] = 0
to_big_int (b ∷ bs) = b * 256 ^ length bs + to_big_int bs

pub pow_256_pos : (n : ℕ) → 0 < 256 ^ n
pow_256_pos n = one-le-pow n 256 (omega arith)

pub pow_256-suc : (n : ℕ) → 256 ^ suc n ≡ 256 * 256 ^ n
pow_256-suc n = omega (arith, pow-suc 256 n)

pub pow_256-add : (a b : ℕ) → 256 ^ (a + b) ≡ 256 ^ a * 256 ^ b
pow_256-add a b =
    let e : 8 * (a + b) ≡ 8 * a + 8 * b = omega arith in
    rw (pow_256 (a + b), pow_256 a, pow_256 b, e) (pow-add (8 * a) (8 * b))

pub to_big_int-lt : (bs : Bytes) → IsBytes bs → to_big_int bs < 256 ^ length bs
unfolding to_big_int
to_big_int-lt [] h = omega arith
to_big_int-lt (b ∷ bs) h =
    grind (arith, pow_256-suc (length bs), to_big_int-lt bs h.1, pow_256_pos (length bs))

-- Of two numbers with a digit and a rest below p, the digits decide.
pub digit-lt : (p a b x y : ℕ) → x < p → a < b → a * p + x < b * p + y
digit-lt p a b x y hx h = let step : suc a * p ≤ b * p = mul-le-mul_right p h in omega arith

digits_unique : (p a b x y : ℕ) → x < p → y < p → a * p + x ≡ b * p + y → (a ≡ b) × (x ≡ y)
digits_unique p a b x y hx hy e =
    let heads : a ≡ b = ground (arith, digit-lt p a b x y hx, digit-lt p b a y x hy) in
    (heads, omega (arith, ap (λ (t : ℕ). t * p) heads))

compare_digits :
    (p a b x y : ℕ)
    → x < p
    → y < p
    → compare (a * p + x) (b * p + y) ≡ elim (compare a b) [
      | Ordering.lt ↦ Ordering.lt
      | Ordering.eq ↦ compare x y
      | Ordering.gt ↦ Ordering.gt
    ]
compare_digits p a b x y hx hy =
    ground
      (arith, digit-lt p a b x y hx, digit-lt p b a y x hy, λ (e : a ≡ b). ap (λ (t : ℕ). t * p) e)

pub to_big_int-injective :
    (xs ys : Bytes)
    → IsBytes xs
    → IsBytes ys
    → length xs ≡ length ys
    → to_big_int xs ≡ to_big_int ys
    → xs ≡ ys
unfolding to_big_int
to_big_int-injective [] [] hx hy l e = refl
to_big_int-injective [] (y ∷ ys) hx hy l e = absurd (omega arith)
to_big_int-injective (x ∷ xs) [] hx hy l e = absurd (omega arith)
to_big_int-injective (x ∷ xs) (y ∷ ys) hx hy l e =
    let l' : length xs ≡ length ys = omega arith in
    let (heads, tails) =
      digits_unique (256 ^ length xs) x y (to_big_int xs) (to_big_int ys) (to_big_int-lt xs hx.1)
        (rw l' (to_big_int-lt ys hy.1)) (rw (← l') at e) in
    ap₂ ◌∷◌ heads (to_big_int-injective xs ys hx.1 hy.1 (omega arith) tails)

-- On byte strings of one length, the lexicographic order is the order of the numbers.
pub bytes_compare-to_big_int :
    (xs ys : Bytes)
    → IsBytes xs
    → IsBytes ys
    → length xs ≡ length ys
    → bytes_compare xs ys ≡ compare (to_big_int xs) (to_big_int ys)
unfolding to_big_int bytes_compare
bytes_compare-to_big_int [] [] hx hy l = refl
bytes_compare-to_big_int [] (y ∷ ys) hx hy l = absurd (omega arith)
bytes_compare-to_big_int (x ∷ xs) [] hx hy l = absurd (omega arith)
bytes_compare-to_big_int (x ∷ xs) (y ∷ ys) hx hy l =
    let l' : length xs ≡ length ys = omega arith in
    rw
      (
        l',
        compare_digits (256 ^ length ys) x y (to_big_int xs) (to_big_int ys)
            (rw (← l') (to_big_int-lt xs hx.1)) (to_big_int-lt ys hy.1),
      )
      (ground (arith, bytes_compare-to_big_int xs ys hx.1 hy.1 l'))

pub to_big_int-append :
    (xs ys : Bytes) → to_big_int (xs ++ ys) ≡ to_big_int xs * 256 ^ length ys + to_big_int ys
unfolding to_big_int
to_big_int-append [] ys = omega arith
to_big_int-append (x ∷ xs) ys =
    rw (length-append xs ys, to_big_int-append xs ys) (rw pow_256-add (omega arith))

pub to_big_int-zeros : (n : ℕ) (bs : Bytes) → to_big_int (replicate n 0 ++ bs) ≡ to_big_int bs
unfolding to_big_int
to_big_int-zeros zero bs = refl
to_big_int-zeros (suc n) bs = omega (arith, to_big_int-zeros n bs)

pub IsBytes-append : (xs ys : Bytes) → IsBytes xs → IsBytes ys → IsBytes (xs ++ ys)
IsBytes-append [] ys hx hy = hy
IsBytes-append (x ∷ xs) ys hx hy = (hx.0, IsBytes-append xs ys hx.1 hy)

pub IsBytes-zeros : (n : ℕ) → IsBytes (replicate n 0)
IsBytes-zeros zero = tt
IsBytes-zeros (suc n) = (omega arith, IsBytes-zeros n)
