-- ===== src/Worker/Join.antt =====
-- internal/node/logicnode/node.go: Join and CreateNewDHT.
use koorde_dht_web_cache.Prelude.{
  ℕ, false, Option, none, some, List, [], ◌∷◌, if◌then◌else◌, Bytes, bytes_eq, ℤ, pos, Result,
  returned, refused,
}
use koorde_dht_web_cache.Domain.Hex.{Node}
use koorde_dht_web_cache.Domain.Ring.{equal}
use koorde_dht_web_cache.Routing.{set_successor, set_predecessor, init_single_node}
use koorde_dht_web_cache.Pool.{dial_ephemeral}
use koorde_dht_web_cache.Rpc as Client
use koorde_dht_web_cache.Actions.{
  Run, finishes, ◌>>=◌, Network, KoordeNode, after_reply, keep_address,
}
use koorde_dht_web_cache.Worker.{with_table, fix_successor_list}
use koorde_dht_web_cache.Worker.DeBruijn.{fix_de_bruijn, seed_de_bruijn_window}

pub data JoinError : Type 0 where
  no_peers same_id all_failed no_successor_connection no_predecessor_answer notify_failed :
      JoinError

-- The successor that the first peer to answer names.
unfoldable pub ask_peers :
    Network → List Bytes → KoordeNode → Run (KoordeNode × Result JoinError Node)
ask_peers net [] n = finishes (n, refused all_failed)
ask_peers net (addr ∷ peers) n = if bytes_eq addr n.rt.self.addr then ask_peers net peers n else do
  got ← after_reply n (dial_ephemeral (net.dial addr) addr n.pool)
  elim got.1 [
    | none ↦ ask_peers net peers got.0
    | some client ↦ elim (Client.find_successor_start false client n.rt.space n.rt.self.id) [
      | refused e ↦ ask_peers net peers got.0
      | returned none ↦ ask_peers net peers got.0
      | returned (some succ) ↦
          if equal succ.id n.rt.self.id
          then finishes (got.0, refused same_id)
          else finishes (got.0, returned succ)
    ]
  ]

unfoldable pub set_first_predecessor : Network → Option Node → KoordeNode → Run KoordeNode
set_first_predecessor net none n = finishes n
set_first_predecessor net (some pred) n = do
  m ← keep_address net pred.addr n
  finishes (with_table (set_predecessor (some pred) m.rt) m)

-- The routing table of a node that joins, from its successor and the predecessor of that.
unfoldable pub enter : (ℕ → ℤ) → Network → Option Node → Node → KoordeNode → Run KoordeNode
enter int64 net pred succ n = do
  a ← set_first_predecessor net pred n
  b ← keep_address net succ.addr a
  c ← fix_successor_list net (with_table (set_successor (pos 0) (some succ) b.rt) b)
  d ← fix_de_bruijn int64 net c
  seed_de_bruijn_window net (some succ) d

unfoldable pub meet_successor :
    (ℕ → ℤ) → Network → Node → KoordeNode → Run (KoordeNode × Option JoinError)
meet_successor int64 net succ n = do
  got ← after_reply n (dial_ephemeral (net.dial succ.addr) succ.addr n.pool)
  elim got.1 [
    | none ↦ finishes (got.0, some no_successor_connection)
    | some client ↦ elim (Client.get_predecessor false client n.rt.space) [
      | refused e ↦ finishes (got.0, some no_predecessor_answer)
      | returned pred ↦ elim (Client.notify false client (some n.rt.self)) [
        | refused e ↦ finishes (got.0, some notify_failed)
        | returned u ↦ do m ← enter int64 net pred succ got.0; finishes (m, none)
      ]
    ]
  ]

unfoldable pub join :
    (ℕ → ℤ) → Network → List Bytes → KoordeNode → Run (KoordeNode × Option JoinError)
join int64 net [] n = finishes (n, some no_peers)
join int64 net (addr ∷ peers) n = do
  asked ← ask_peers net (addr ∷ peers) n
  elim asked.1 [
    | refused e ↦ finishes (asked.0, some e)
    | returned succ ↦ meet_successor int64 net succ asked.0
  ]

unfoldable pub create_new_dht : KoordeNode → KoordeNode
create_new_dht n = with_table (init_single_node n.rt) n
