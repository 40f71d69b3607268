-- ===== src/Routing.antt =====
-- internal/node/routingtable/routingtable.go: the links of a Koorde node. Each entry has a lock of
-- its own, which Set and Get hold, so a method is a sequence of reads and writes of entries; here it
-- runs without others between them. A nil pointer is `none`.
-- New makes the two slices SuccListSize and GraphGrade long and nothing changes a length
-- (Routing/Entries.antt), so an index that passes the guard is in the slice.
pub mod Entries
pub mod Laws
pub mod Standing
use koorde_dht_web_cache.Prelude.{
  ℕ, zero, suc, ◌+◌, ◌-◌, Option, none, some, List, [], ◌∷◌, ◌++◌, ltb, if◌then◌else◌, length, take,
  drop, replicate, ℤ, pos, negsuc, Bool, false, true,
}
use koorde_dht_web_cache.Domain.Space.{Space}
use koorde_dht_web_cache.Domain.Hex.{Node}

abbrev pub RoutingEntries : Type 0
RoutingEntries = List (Option Node)

pub record RoutingTable : Type 0 where
  pub space : Space
  pub self : Node
  pub successors : RoutingEntries
  pub predecessor : Option Node
  pub de_bruijn : RoutingEntries

unfoldable pub new_routing_table : Node → Space → RoutingTable
new_routing_table self space = record {
  space = space;
  self = self;
  successors = replicate space.succ_list_size none;
  predecessor = none;
  de_bruijn = replicate space.graph_grade none;
}

-- `entries[i].Get()` and `entries[i].Set(n)`.
unfoldable pub entry_at : RoutingEntries → ℕ → Option Node
entry_at [] i = none
entry_at (e ∷ es) zero = e
entry_at (e ∷ es) (suc i) = entry_at es i

unfoldable pub set_entry : RoutingEntries → ℕ → Option Node → RoutingEntries
set_entry [] i n = []
set_entry (e ∷ es) zero n = n ∷ es
set_entry (e ∷ es) (suc i) n = e ∷ set_entry es i n

-- The getter and the setter with their guard `i < 0 || i >= size`.
unfoldable pub get_guarded : ℕ → ℤ → RoutingEntries → Option Node
get_guarded size (negsuc i) es = none
get_guarded size (pos i) es = if ltb i size then entry_at es i else none

unfoldable pub set_guarded : ℕ → ℤ → Option Node → RoutingEntries → RoutingEntries
set_guarded size (negsuc i) n es = es
set_guarded size (pos i) n es = if ltb i size then set_entry es i n else es

-- `for i, node := range nodes { rt.Set…(i, node) }`, from index i.
unfoldable pub fill_entries : ℕ → ℕ → RoutingEntries → RoutingEntries → RoutingEntries
fill_entries size i [] es = es
fill_entries size i (n ∷ ns) es = fill_entries size (suc i) ns (set_guarded size (pos i) n es)

-- `for i := len(nodes); i < expected; i++ { rt.Set…(i, nil) }`, with the rounds left.
unfoldable pub pad_entries : ℕ → ℕ → ℕ → RoutingEntries → RoutingEntries
pad_entries size i zero es = es
pad_entries size i (suc left) es = pad_entries size (suc i) left (set_guarded size (pos i) none es)

-- The body that SetSuccessorList and SetDeBruijnList share.
unfoldable pub replace_entries : ℕ → RoutingEntries → RoutingEntries → RoutingEntries
replace_entries expected nodes es =
    let ns = if ltb expected (length nodes) then take expected nodes else nodes in
    pad_entries expected (length ns) (expected - length ns) (fill_entries expected 0 ns es)

-- The body that SuccessorList and DeBruijnList share.
unfoldable pub known_nodes : RoutingEntries → List Node
known_nodes [] = []
known_nodes (none ∷ es) = known_nodes es
known_nodes (some n ∷ es) = n ∷ known_nodes es

unfoldable pub get_successor : ℤ → RoutingTable → Option Node
get_successor i rt = get_guarded rt.space.succ_list_size i rt.successors

unfoldable pub first_successor : RoutingTable → Option Node
first_successor rt = get_successor (pos 0) rt

unfoldable pub set_successor : ℤ → Option Node → RoutingTable → RoutingTable
set_successor i n rt = record rt {
  successors = set_guarded rt.space.succ_list_size i n rt.successors;
}

unfoldable pub successor_list : RoutingTable → List Node
successor_list rt = known_nodes rt.successors

unfoldable pub set_successor_list : RoutingEntries → RoutingTable → RoutingTable
set_successor_list nodes rt = record rt {
  successors = replace_entries rt.space.succ_list_size nodes rt.successors;
}

unfoldable pub set_predecessor : Option Node → RoutingTable → RoutingTable
set_predecessor n rt = record rt { predecessor = n }

unfoldable pub get_de_bruijn : ℤ → RoutingTable → Option Node
get_de_bruijn digit rt = get_guarded (length rt.de_bruijn) digit rt.de_bruijn

unfoldable pub set_de_bruijn : ℤ → Option Node → RoutingTable → RoutingTable
set_de_bruijn digit n rt = record rt {
  de_bruijn = set_guarded (length rt.de_bruijn) digit n rt.de_bruijn;
}

unfoldable pub de_bruijn_list : RoutingTable → List Node
de_bruijn_list rt = known_nodes rt.de_bruijn

-- SetDeBruijn tests an index against the slice, SetDeBruijnList the length against GraphGrade, and
-- New makes the two equal.
unfoldable pub set_de_bruijn_list : RoutingEntries → RoutingTable → RoutingTable
set_de_bruijn_list nodes rt = record rt {
  de_bruijn = replace_entries rt.space.graph_grade nodes rt.de_bruijn;
}

unfoldable pub init_single_node : RoutingTable → RoutingTable
init_single_node rt =
    set_de_bruijn (pos 0) (some rt.self)
      (set_predecessor (some rt.self) (set_successor (pos 0) (some rt.self) rt))

-- The new list of PromoteCandidate: the candidate, the nodes after it, and nil up to the size.
unfoldable pub some_entries : List Node → RoutingEntries
some_entries [] = []
some_entries (n ∷ ns) = some n ∷ some_entries ns

unfoldable pub promoted : ℕ → Node → List Node → RoutingEntries
promoted expected candidate after =
    some candidate ∷ (some_entries after ++ replicate (expected - 1 - length after) none)

unfoldable pub promote_candidate : ℤ → RoutingTable → RoutingTable
promote_candidate (negsuc i) rt = rt
promote_candidate (pos zero) rt = rt
promote_candidate (pos (suc i)) rt =
    if ltb (suc i) rt.space.succ_list_size
    then elim (entry_at rt.successors (suc i)) [
      | none ↦ rt
      | some candidate ↦
          set_successor_list
            (promoted rt.space.succ_list_size candidate
              (known_nodes (drop (suc (suc i)) rt.successors)))
            rt
    ]
    else rt
