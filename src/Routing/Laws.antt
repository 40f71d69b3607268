-- ===== src/Routing/Laws.antt =====
-- What the routing table promises.
use koorde_dht_web_cache.Prelude.{
  ℕ, zero, suc, ◌-◌, ◌≤◌, ◌<◌, ◌≡◌, refl, sym, ap, ◌∙◌, arith, Option, none, some, List, [], ◌∷◌,
  ◌++◌, lt→ltb, ◌==◌, if◌then◌else◌, length, drop, replicate, pos, length-replicate, length-append,
  length-drop,
}
use koorde_dht_web_cache.Domain.Space.{Space}
use koorde_dht_web_cache.Domain.Hex.{Node}
use koorde_dht_web_cache.Routing.{
  RoutingEntries, RoutingTable, new_routing_table, entry_at, get_guarded, replace_entries,
  known_nodes, get_successor, set_successor, successor_list, set_successor_list, set_predecessor,
  get_de_bruijn, set_de_bruijn, init_single_node, some_entries, promoted, promote_candidate,
}
use koorde_dht_web_cache.Routing.Entries.{
  length-set_guarded, entry_at_out, replace_entries_lem, replace_whole, first_entry,
}

-- The slices have the lengths that New gave them.
pub record IsSized (rt : RoutingTable) : Type 0 where
  pub successors : length rt.successors ≡ rt.space.succ_list_size
  pub de_bruijn : length rt.de_bruijn ≡ rt.space.graph_grade

pub new_routing_table-IsSized : (self : Node) (sp : Space) → IsSized (new_routing_table self sp)
unfolding new_routing_table
new_routing_table-IsSized self sp = record {
  successors = length-replicate {A = Option Node} sp.succ_list_size none;
  de_bruijn = length-replicate {A = Option Node} sp.graph_grade none;
}

pub get_guarded_value :
    (size j : ℕ) (es : RoutingEntries)
    → length es ≡ size
    → get_guarded size (pos j) es ≡ entry_at es j
unfolding get_guarded
get_guarded_value size j es e = ground (arith, entry_at_out es j, e)

-- In a sized table, after SetSuccessorList of no more nodes than the size of the list, GetSuccessor of index j is the
-- node at j, nil past the end of the nodes, and the table stays sized.
pub get_successor-set_successor_list :
    (nodes : RoutingEntries) {rt : RoutingTable}
    → IsSized rt
    → length nodes ≤ rt.space.succ_list_size
    → (j : ℕ)
    → IsSized (set_successor_list nodes rt)
      × (get_successor (pos j) (set_successor_list nodes rt) ≡ entry_at nodes j)
unfolding get_successor set_successor_list
get_successor-set_successor_list nodes {rt} s h j =
    let both = replace_entries_lem nodes rt.successors j (omega (arith, s.successors)) in
    let here : length rt.successors ≡ rt.space.succ_list_size = s.successors in
    let sized : length (replace_entries rt.space.succ_list_size nodes rt.successors)
        ≡ rt.space.succ_list_size =
      ap (λ (k : ℕ). length (replace_entries k nodes rt.successors)) (sym here) ∙ both.0 ∙ here in
    let value : entry_at (replace_entries rt.space.succ_list_size nodes rt.successors) j
        ≡ entry_at nodes j =
      ap (λ (k : ℕ). entry_at (replace_entries k nodes rt.successors) j) (sym here) ∙ both.1 in
    (
      record { successors = sized; de_bruijn = s.de_bruijn },
      get_guarded_value rt.space.succ_list_size j _ sized ∙ value,
    )

known_nodes-padded :
    (ns : List Node) (k : ℕ) → known_nodes (some_entries ns ++ replicate k none) ≡ ns
unfolding known_nodes some_entries
known_nodes-padded [] zero = refl
known_nodes-padded [] (suc k) = known_nodes-padded [] k
known_nodes-padded (n ∷ ns) k = ap (◌∷◌ n) (known_nodes-padded ns k)

pub known_nodes-le : (es : RoutingEntries) → length (known_nodes es) ≤ length es
unfolding known_nodes
known_nodes-le [] = omega arith
known_nodes-le (none ∷ es) = omega (arith, known_nodes-le es)
known_nodes-le (some n ∷ es) = omega (arith, known_nodes-le es)

length-some_entries : (ns : List Node) → length (some_entries ns) ≡ length ns
unfolding some_entries
length-some_entries [] = refl
length-some_entries (n ∷ ns) = ap suc (length-some_entries ns)

pub length-promoted :
    (size : ℕ) (c : Node) (ns : List Node) → length ns < size → length (promoted size c ns) ≡ size
unfolding promoted
length-promoted size c ns h = omega (
  arith,
  length-append (some_entries ns) (replicate (size - 1 - length ns) none),
  length-some_entries ns,
  length-replicate {A = Option Node} (size - 1 - length ns) none,
)

-- In a sized table, PromoteCandidate of an index in the list, above 0, whose entry holds a node makes that node the first successor,
-- followed by the successors after it in their order; those before it are dropped.
pub successor_list-promote_candidate :
    (i : ℕ) (candidate : Node) {rt : RoutingTable}
    → IsSized rt
    → suc i < rt.space.succ_list_size
    → entry_at rt.successors (suc i) ≡ some candidate
    → IsSized (promote_candidate (pos (suc i)) rt)
      × (successor_list (promote_candidate (pos (suc i)) rt)
          ≡ candidate ∷ known_nodes (drop (suc (suc i)) rt.successors))
unfolding promote_candidate successor_list set_successor_list
successor_list-promote_candidate i candidate {rt} s h found =
    let rest = known_nodes (drop (suc (suc i)) rt.successors) in
    let size = rt.space.succ_list_size in
    let short : length rest < size = omega (
      arith,
      known_nodes-le (drop (suc (suc i)) rt.successors),
      length-drop {A = Option Node} (suc (suc i)) rt.successors,
      s.successors,
    ) in
    let whole : length (promoted size candidate rest) ≡ size =
      length-promoted size candidate rest short in
    let same : replace_entries size (promoted size candidate rest) rt.successors
        ≡ promoted size candidate rest =
      replace_whole size (promoted size candidate rest) rt.successors s.successors whole in
    rw (lt→ltb (suc i) size h, promote_candidate, found, promote_candidate, same)
      (
        record { successors = whole; de_bruijn = s.de_bruijn },
        unfold promoted known_nodes in
            ap (◌∷◌ candidate) (known_nodes-padded rest (size - 1 - length rest)),
      )

-- InitSingleNode of a new table points the successor 0, the predecessor and the de Bruijn entry 0 to
-- self, and leaves every other entry nil.
pub init_single_node_lem :
    (self : Node) (sp : Space)
    → 0 < sp.succ_list_size
    → 0 < sp.graph_grade
    → (j : ℕ)
    → let rt = init_single_node (new_routing_table self sp) in
      (get_successor (pos j) rt ≡ (if 0 == j then some self else none))
      × (rt.predecessor ≡ some self)
      × (get_de_bruijn (pos j) rt ≡ (if 0 == j then some self else none))
unfolding init_single_node get_successor get_de_bruijn set_successor set_predecessor set_de_bruijn
    new_routing_table
init_single_node_lem self sp hs hg j =
    let size = length-replicate {A = Option Node} sp.succ_list_size none in
    let grade = length-replicate {A = Option Node} sp.graph_grade none in
    (
      get_guarded_value sp.succ_list_size j _ (
            length-set_guarded sp.succ_list_size 0 (some self) (replicate sp.succ_list_size none)
            ∙ size)
          ∙ first_entry sp.succ_list_size sp.succ_list_size j (some self) hs refl,
      refl,
      get_guarded_value _ j _ refl ∙ first_entry sp.graph_grade _ j (some self) hg grade,
    )
