-- ===== src/Cache/Sizes.antt =====
-- The bytes that the entries of a map count for.
use koorde_dht_web_cache.Prelude.{
  ℕ, ◌+◌, ◌≡◌, arith, none, some, List, [], ◌∷◌, Bytes, bytes_eq_iff,
}
use koorde_dht_web_cache.Prelude.Maps.{lookup, insert, remove, Distinct, remove_absent}
use koorde_dht_web_cache.Cache.{Entry}

unfoldable pub total_size : List (Bytes × Entry) → ℕ
total_size [] = 0
total_size ((u, e) ∷ m) = e.size + total_size m

pub total_size-insert_new :
    (u : Bytes) (e : Entry) (m : List (Bytes × Entry))
    → lookup u m ≡ none
    → total_size (insert u e m) ≡ total_size m + e.size
unfolding total_size lookup insert
total_size-insert_new u e [] h = omega arith
total_size-insert_new u e ((v, f) ∷ m) h = ground (arith, total_size-insert_new u e m)

pub total_size-insert_old :
    (u : Bytes) (e old : Entry) (m : List (Bytes × Entry))
    → lookup u m ≡ some old
    → total_size (insert u e m) + old.size ≡ total_size m + e.size
unfolding total_size lookup insert
total_size-insert_old u e old [] h = cc
total_size-insert_old u e old ((v, f) ∷ m) h = ground (arith, total_size-insert_old u e old m)

pub total_size-remove :
    (u : Bytes) (old : Entry) (m : List (Bytes × Entry))
    → Distinct m
    → lookup u m ≡ some old
    → total_size (remove u m) + old.size ≡ total_size m
unfolding total_size lookup remove
total_size-remove u old [] d h = cc
total_size-remove u old ((v, f) ∷ m) d h =
    ground (arith, bytes_eq_iff v u, remove_absent u m, total_size-remove u old m)
