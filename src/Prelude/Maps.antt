-- ===== src/Prelude/Maps.antt =====
-- Go maps keyed by strings, as association lists. `insert` keeps the place of a key that is
-- present, and `remove` takes out every entry with the key.
use mathlib.Core.Path.{◌≡◌, refl}
use mathlib.Core.Option.{Option, none, some}
use mathlib.Core.List.{List, [], ◌∷◌}
use native.Mathlib.Omega.{arith}
use koorde_dht_web_cache.Prelude.Tests.{if◌then◌else◌}
use koorde_dht_web_cache.Prelude.ByteStrings.{Bytes, bytes_eq, bytes_eq_iff}

module _ {ℓ} {V : Type ℓ} where
  unfoldable pub lookup : Bytes → List (Bytes × V) → Option V
  lookup k [] = none
  lookup k ((j, v) ∷ m) = if bytes_eq j k then some v else lookup k m

  unfoldable pub insert : Bytes → V → List (Bytes × V) → List (Bytes × V)
  insert k v [] = (k, v) ∷ []
  insert k v ((j, w) ∷ m) = if bytes_eq j k then (k, v) ∷ m else (j, w) ∷ insert k v m

  unfoldable pub remove : Bytes → List (Bytes × V) → List (Bytes × V)
  remove k [] = []
  remove k ((j, w) ∷ m) = if bytes_eq j k then remove k m else (j, w) ∷ remove k m

  pub lookup-insert :
      (k j : Bytes) (v : V) (m : List (Bytes × V))
      → lookup j (insert k v m) ≡ (if bytes_eq k j then some v else lookup j m)
  unfolding lookup insert
  lookup-insert k j v [] = refl
  lookup-insert k j v ((i, w) ∷ m) =
      ground (arith, bytes_eq_iff k j, bytes_eq_iff i k, bytes_eq_iff i j, lookup-insert k j v m)

  pub lookup-remove :
      (k j : Bytes) (m : List (Bytes × V))
      → lookup j (remove k m) ≡ (if bytes_eq k j then none else lookup j m)
  unfolding lookup remove
  lookup-remove k j [] = ground arith
  lookup-remove k j ((i, w) ∷ m) =
      ground (arith, bytes_eq_iff k j, bytes_eq_iff i k, bytes_eq_iff i j, lookup-remove k j m)

  -- No key has two entries.
  abbrev pub Distinct : List (Bytes × V) → Type ℓ
  Distinct [] = Unit
  Distinct ((k, v) ∷ m) = (lookup k m ≡ none) × Distinct m

  pub insert-Distinct :
      (k : Bytes) (v : V) (m : List (Bytes × V)) → Distinct m → Distinct (insert k v m)
  unfolding insert
  insert-Distinct k v [] d = (unfold lookup in refl, tt)
  insert-Distinct k v ((j, w) ∷ m) d =
      ground
        (arith, bytes_eq_iff j k, bytes_eq_iff k j, lookup-insert k j v m, insert-Distinct k v m)

  pub remove-Distinct : (k : Bytes) (m : List (Bytes × V)) → Distinct m → Distinct (remove k m)
  unfolding remove
  remove-Distinct k [] d = tt
  remove-Distinct k ((j, w) ∷ m) d =
      ground (arith, lookup-remove k j m, bytes_eq_iff k j, bytes_eq_iff j k, remove-Distinct k m)

  -- Removing a key that is not there changes nothing.
  pub remove_absent : (k : Bytes) (m : List (Bytes × V)) → lookup k m ≡ none → remove k m ≡ m
  unfolding lookup remove
  remove_absent k [] h = refl
  remove_absent k ((j, w) ∷ m) h = ground (arith, remove_absent k m)

  -- The entries of a predicate on keys and values, at every place of the map.
  abbrev pub AllEntries {κ} : (Bytes → V → Type κ) → List (Bytes × V) → Type κ
  AllEntries P [] = Unit
  AllEntries P ((k, v) ∷ m) = P k v × AllEntries P m
