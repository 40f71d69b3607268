-- ===== src/Lookup.antt =====
-- internal/node/logicnode/operation.go: the de Bruijn step of a lookup. Each hop that FindSuccessorStep
-- makes through the de Bruijn window sends on the next imaginary node and the shifted target.
pub mod Laws
pub mod NextHop
pub mod FindSuccessor
pub mod Ends
pub mod Sources
use koorde_dht_web_cache.Prelude.{ℕ, zero, suc, Bytes, Outcome, ok, ◌>>=◌}
use koorde_dht_web_cache.Domain.Space.{Space}
use koorde_dht_web_cache.Domain.Arith.{from_uint64, mul_k_mod, add_mod}
use koorde_dht_web_cache.Domain.Digits.{next_digit_base_k}

-- nextI and nextKshift, from currentI and kshift.
unfoldable pub imaginary_step : Space → Bytes → Bytes → Outcome (Bytes × Bytes)
imaginary_step sp current_i kshift = do
  next_digit ← next_digit_base_k sp kshift
  product ← mul_k_mod sp current_i
  next_i ← add_mod sp product (from_uint64 sp next_digit.0)
  ok (next_i, next_digit.1)
