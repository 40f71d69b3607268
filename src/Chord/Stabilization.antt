-- ===== src/Chord/Stabilization.antt =====
-- internal/node/chord/stabilization.go: the periodic tasks of a Chord node, each in a context of its
-- own that has not ended when a call begins.
use koorde_dht_web_cache.Prelude.{
  ℕ, suc, ◌+◌, ◌%◌, ◌^◌, false, Option, none, some, [], ◌∷◌, ltb, if◌then◌else◌, length, take,
  Bytes, Outcome, ok, err, panic, returned, refused,
}
use koorde_dht_web_cache.Domain.Space.{Space}
use koorde_dht_web_cache.Domain.Value.{to_big_int}
use koorde_dht_web_cache.Domain.BigInt.{from_big_int}
use koorde_dht_web_cache.Domain.Hex.{Node}
use koorde_dht_web_cache.Domain.Ring.{between}
use koorde_dht_web_cache.Routing.{RoutingEntries}
use koorde_dht_web_cache.Rpc as Client
use koorde_dht_web_cache.Rpc.{Stub}
use koorde_dht_web_cache.Actions.{Run, finishes, panics, ◌>>=◌}
use koorde_dht_web_cache.Chord.Fingers.{
  FingerTable, first_successor, set_successor, set_predecessor, set_finger,
}
use koorde_dht_web_cache.Chord.{ChordNode, pooled, look_up}

-- `for i, node := range newList { n.rt.SetSuccessor(i, node) }`, from index i.
unfoldable pub set_all : ℕ → RoutingEntries → FingerTable → FingerTable
set_all i [] rt = rt
set_all i (node ∷ nodes) rt = set_all (suc i) nodes (set_successor i node rt)

-- Step 5: the successor and its list, cut to the configured size.
unfoldable pub update_list : Node → RoutingEntries → FingerTable → FingerTable
update_list succ list rt =
    let new = some succ ∷ list in
    set_all 0
      (if ltb rt.space.succ_list_size (length new) then take rt.space.succ_list_size new else new)
      rt

-- Step 3: the successor, and the table, after the successor named its predecessor.
unfoldable pub nearer_successor : Option Node → Node → FingerTable → Node × FingerTable
nearer_successor none succ rt = (succ, rt)
nearer_successor (some x) succ rt =
    if between x.id rt.self.id succ.id then (x, set_successor 0 (some x) rt) else (succ, rt)

unfoldable pub take_list : Node → Stub → ChordNode → ChordNode
take_list succ client n = elim (Client.get_successor_list false client n.rt.space) [
  | refused e ↦ n
  | returned list ↦ record n { rt = update_list succ list n.rt }
]

-- Steps 4 and 5; the answer of Notify is only logged.
unfoldable pub refresh_successors : Node → ChordNode → Run ChordNode
refresh_successors succ n = do
  got ← pooled succ.addr n
  elim got.1 [
    | none ↦ finishes got.0
    | some client ↦ elim (Client.notify false client (some n.rt.self)) [
      | refused e ↦ finishes (take_list succ client got.0)
      | returned u ↦ finishes (take_list succ client got.0)
    ]
  ]

unfoldable pub stabilize : ChordNode → Run ChordNode
stabilize n = elim (first_successor n.rt) [
  | none ↦ finishes n
  | some succ ↦ do
    got ← pooled succ.addr n
    elim got.1 [
      | none ↦ finishes got.0
      | some client ↦ elim (Client.get_predecessor false client n.rt.space) [
        | refused e ↦ finishes got.0
        | returned x ↦
            let next = nearer_successor x succ got.0.rt in
            refresh_successors next.0 (record got.0 { rt = next.1 })
      ]
    ]
]

-- The block of fixFinger that makes an identifier of a big number is the one of BestImaginary.
unfoldable pub finger_target : Space → Bytes → ℕ → Outcome Bytes
finger_target sp self i = from_big_int sp ((to_big_int self + 2 ^ i) % 2 ^ sp.bits)

unfoldable pub fix_finger : ℕ → ChordNode → Run ChordNode
fix_finger i n =
    if ltb i n.rt.space.bits
    then elim (finger_target n.rt.space n.rt.self.id i) [
      | panic ↦ panics
      | err e ↦ panics
      | ok target ↦ do
        found ← look_up false target n
        finishes (elim found.1 [
          | refused e ↦ found.0
          | returned succ ↦ record found.0 { rt = set_finger i succ found.0.rt }
        ])
    ]
    else finishes n

unfoldable pub check_predecessor : ChordNode → Run ChordNode
check_predecessor n = elim n.rt.predecessor [
  | none ↦ finishes n
  | some pred ↦ do
    got ← pooled pred.addr n
    elim got.1 [
      | none ↦ finishes (record got.0 { rt = set_predecessor none got.0.rt })
      | some client ↦ elim (Client.ping false client) [
        | returned u ↦ finishes got.0
        | refused e ↦ finishes (record got.0 { rt = set_predecessor none got.0.rt })
      ]
    ]
]
