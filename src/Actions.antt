-- ===== src/Actions.antt =====
-- What the operations of a Koorde node do with its pool and its lookups (internal/node/logicnode):
-- GetFromPool, DialEphemeral, AddRef and Release of internal/node/client/clientpool.go, of which an
-- error is passed over or answered by the caller, and FindSuccessorInit of operation.go, with fuel that
-- is always enough (Actions/Laws.antt).
pub mod Replies
pub mod Laws
use koorde_dht_web_cache.Prelude.{
  ℕ, suc, ◌+◌, Bool, true, false, Option, none, some, List, Bytes, Result, returned, refused,
}
use koorde_dht_web_cache.Domain.Space.{Space}
use koorde_dht_web_cache.Domain.Hex.{Node}
use koorde_dht_web_cache.Pool.{
  ClientPool, Reply, done, failed, waits, get_from_pool, dial_ephemeral, add_ref, release,
}
use koorde_dht_web_cache.Rpc.{Stub}
use koorde_dht_web_cache.Membership.{LogicNode}
use koorde_dht_web_cache.Lookup.FindSuccessor.{
  LookupState, LookupError, Lookup, answer, panicked, blocked, out_of_fuel, find_successor_init,
}

-- A call finishes with a value, panics, waits for the pool for ever, or has used up its fuel.
pub data Run {ℓ} (A : Type ℓ) : Type ℓ where
  finishes : A → Run A
  panics stuck exhausted : Run A

infixl 5 ◌>>=◌
abbrev pub ◌>>=◌ {ℓ κ} : {A : Type ℓ} {B : Type κ} → Run A → (A → Run B) → Run B
finishes a >>= f = f a
panics >>= f = panics
stuck >>= f = stuck
exhausted >>= f = exhausted

-- The network: what `grpc.NewClient` returns for an address, and whether `Close` of a connection fails.
pub record Network : Type 0 where
  pub dial : Bytes → Option Stub
  pub close_fails : Stub → Bool

abbrev pub KoordeNode : Type 0
KoordeNode = LogicNode Stub

-- The node with the pool that a call of it leaves, and the value of the call, none for an error.
unfoldable pub after_reply :
    {A : Type 0} → KoordeNode → ClientPool Stub × Reply A → Run (KoordeNode × Option A)
after_reply n (pool, waits) = stuck
after_reply n (pool, failed e) = finishes (record n { pool = pool }, none)
after_reply n (pool, done a) = finishes (record n { pool = pool }, some a)

unfoldable pub pooled : Bytes → KoordeNode → Run (KoordeNode × Option Stub)
pooled addr n = after_reply n (get_from_pool addr n.pool)

-- GetFromPool, and DialEphemeral where it fails.
unfoldable pub pooled_or_dialed : Network → Bytes → KoordeNode → Run (KoordeNode × Option Stub)
pooled_or_dialed net addr n = do
  got ← pooled addr n
  elim got.1 [
    | some client ↦ finishes (got.0, some client)
    | none ↦ after_reply got.0 (dial_ephemeral (net.dial addr) addr got.0.pool)
  ]

unfoldable pub keep_address : Network → Bytes → KoordeNode → Run KoordeNode
keep_address net addr n = do
  added ← after_reply n (add_ref (net.dial addr) addr n.pool)
  finishes added.0

unfoldable pub drop_address : Network → Bytes → KoordeNode → Run KoordeNode
drop_address net addr n = do
  dropped ← after_reply n (release net.close_fails addr n.pool)
  finishes dropped.0

abbrev pub lookup_fuel : Space → ℕ
lookup_fuel sp = suc (sp.bits + sp.bits)

-- What a lookup found, and whether its context has ended.
pub record Found : Type 0 where
  pub node : KoordeNode
  pub ended : Bool
  pub result : Result LookupError (Option Node)

unfoldable pub after_lookup : KoordeNode → Lookup → Run Found
after_lookup n (answer st r) =
    finishes (record { node = record n { pool = st.pool }; ended = st.ended; result = r })
after_lookup n panicked = panics
after_lookup n blocked = stuck
after_lookup n out_of_fuel = exhausted

unfoldable pub find_successor : Bool → Bytes → KoordeNode → Run Found
find_successor ended target n = after_lookup n (
    find_successor_init (lookup_fuel n.rt.space) n.rt target
      (record { pool = n.pool; ended = ended }))
