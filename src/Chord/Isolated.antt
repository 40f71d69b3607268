-- ===== src/Chord/Isolated.antt =====
-- No operation of a Chord node takes a reference in the pool (Chord/Pools.antt), so a node whose pool
-- holds no connection never has one.
use koorde_dht_web_cache.Prelude.{ℕ, ◌≡◌, Bool, Option, List, Bytes, Result}
use koorde_dht_web_cache.Domain.Hex.{Node, Resource}
use koorde_dht_web_cache.Actions.{finishes, Network}
use koorde_dht_web_cache.Chord.{
  ChordNode, ChordError, look_up, put, get, delete, store_local, notify, join, create_new_dht,
}
use koorde_dht_web_cache.Chord.Stabilization.{stabilize, fix_finger, check_predecessor}

-- What happens to a node that runs: its own operations and tasks, and the calls of other nodes. The
-- networks, the answers of the connections and the arguments are any.
pub data Step : ChordNode → ChordNode → Type 0 where
  joins :
      (net : Network) (peers : List Bytes) {n m : ChordNode} {r : Result ChordError (Unit {0})}
      → join net peers n ≡ finishes (m, r)
      → Step n m
  creates : {n : ChordNode} → Step n (create_new_dht n)
  puts :
      (ended : Bool) (res : Resource) {n m : ChordNode} {r : Result ChordError (Unit {0})}
      → put ended res n ≡ finishes (m, r)
      → Step n m
  deletes :
      (ended : Bool) (id : Bytes) {n m : ChordNode} {r : Result ChordError (Unit {0})}
      → delete ended id n ≡ finishes (m, r)
      → Step n m
  gets :
      (ended : Bool) (id : Bytes) {n m : ChordNode} {r : Result ChordError (Option Resource)}
      → get ended id n ≡ finishes (m, r)
      → Step n m
  looks_up :
      (ended : Bool) (id : Bytes) {n m : ChordNode} {r : Result ChordError (Option Node)}
      → look_up ended id n ≡ finishes (m, r)
      → Step n m
  notified : (node : Option Node) {n : ChordNode} → Step n (notify node n)
  stores : (res : Resource) {n : ChordNode} → Step n (store_local res n)
  stabilizes : {n m : ChordNode} → stabilize n ≡ finishes m → Step n m
  fixes_finger : (i : ℕ) {n m : ChordNode} → fix_finger i n ≡ finishes m → Step n m
  checks_predecessor : {n m : ChordNode} → check_predecessor n ≡ finishes m → Step n m

pub data Reachable : ChordNode → ChordNode → Type 0 where
  here : {n : ChordNode} → Reachable n n
  then_step : {n m k : ChordNode} → Reachable n m → Step m k → Reachable n k
