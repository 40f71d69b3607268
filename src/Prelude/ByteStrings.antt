-- ===== src/Prelude/ByteStrings.antt =====
-- Byte strings: Go's `[]byte` and `string`, as lists of byte values, with `bytes.Equal` and
-- `bytes.Compare`.
use Prim.Native.Nat.{ℕ, ◌<◌, compare, Ordering}
use Prim.Native.Char.{code}
use Prim.Native.String.{String}
use mathlib.Core.Path.{◌≡◌, refl}
use mathlib.Core.Logic.{◌↔◌}
use mathlib.Core.Bool.{Bool, true, false, ◌&&◌}
use mathlib.Core.List.{List, [], ◌∷◌}
use native.Mathlib.Omega.{arith}
use koorde_dht_web_cache.Prelude.Tests.{◌==◌}

abbrev pub Bytes : Type 0
Bytes = List ℕ

-- Every element is a byte value.
abbrev pub IsBytes : Bytes → Type 0
IsBytes [] = Unit {0}
IsBytes (b ∷ bs) = (b < 256) × IsBytes bs

-- The bytes of an ASCII text, for tests.
abbrev pub codes : String → Bytes
codes String.[] = []
codes (String.◌∷◌ c s) = code c ∷ codes s

-- `bytes.Equal`, and `==` on strings.
unfoldable pub bytes_eq : Bytes → Bytes → Bool
bytes_eq [] [] = true
bytes_eq [] (b ∷ bs) = false
bytes_eq (a ∷ as') [] = false
bytes_eq (a ∷ as') (b ∷ bs) = (a == b) && bytes_eq as' bs

pub bytes_eq_iff : (a b : Bytes) → (bytes_eq a b ≡ true) ↔ (a ≡ b)
unfolding bytes_eq
bytes_eq_iff [] [] = (λ h. refl, λ h. refl)
bytes_eq_iff [] (b ∷ bs) = (λ h. cc, λ h. cc)
bytes_eq_iff (a ∷ as') [] = (λ h. cc, λ h. cc)
bytes_eq_iff (a ∷ as') (b ∷ bs) =
    (λ h. ground (arith, bytes_eq_iff as' bs), λ h. ground (arith, bytes_eq_iff as' bs))

-- `bytes.Compare`: lexicographic, and a proper prefix is smaller.
unfoldable pub bytes_compare : Bytes → Bytes → Ordering
bytes_compare [] [] = Ordering.eq
bytes_compare [] (b ∷ bs) = Ordering.lt
bytes_compare (a ∷ as') [] = Ordering.gt
bytes_compare (a ∷ as') (b ∷ bs) = elim (compare a b) [
  | Ordering.lt ↦ Ordering.lt
  | Ordering.eq ↦ bytes_compare as' bs
  | Ordering.gt ↦ Ordering.gt
]
