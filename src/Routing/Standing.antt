-- ===== src/Routing/Standing.antt =====
-- A routing table with a first successor, and the methods that keep it so.
use koorde_dht_web_cache.Prelude.{
  ℕ, suc, ◌≤◌, ◌<◌, ◌≡◌, refl, sym, ap, ◌∙◌, arith, Option, some, ◌∷◌, length, drop, length-drop,
  pos, lt→ltb,
}
use koorde_dht_web_cache.Domain.Hex.{Node}
use koorde_dht_web_cache.Routing.{
  RoutingEntries, RoutingTable, entry_at, get_guarded, set_guarded, known_nodes, first_successor,
  get_successor, set_successor, set_successor_list, set_predecessor, set_de_bruijn, promoted,
  promote_candidate, init_single_node,
}
use koorde_dht_web_cache.Routing.Entries.{length-set_guarded, entry_at-set_guarded}
use koorde_dht_web_cache.Routing.Laws.{
  IsSized, get_successor-set_successor_list, get_guarded_value, length-promoted, known_nodes-le,
}

-- The table has its sizes, and a first successor.
pub record IsStanding (rt : RoutingTable) : Type 0 where
  pub sized : IsSized rt
  pub succ : Node
  pub first : first_successor rt ≡ some succ

pub some_in_range :
    (rt : RoutingTable) (i : ℕ) {n : Node}
    → get_successor (pos i) rt ≡ some n
    → i < rt.space.succ_list_size
unfolding get_successor get_guarded
some_in_range rt i e = ground (arith, e)

entry_of_successor :
    (rt : RoutingTable) (i : ℕ) {n : Node}
    → IsSized rt
    → get_successor (pos i) rt ≡ some n
    → entry_at rt.successors i ≡ some n
unfolding get_successor
entry_of_successor rt i s e = sym (get_guarded_value rt.space.succ_list_size i _ s.successors) ∙ e

pub set_successor-first :
    (n : Node) {rt : RoutingTable}
    → IsSized rt
    → 0 < rt.space.succ_list_size
    → IsSized (set_successor (pos 0) (some n) rt)
      × (first_successor (set_successor (pos 0) (some n) rt) ≡ some n)
unfolding set_successor first_successor get_successor
set_successor-first n {rt} s h =
    let size = rt.space.succ_list_size in
    let sized : length (set_guarded size (pos 0) (some n) rt.successors) ≡ size =
      length-set_guarded size 0 (some n) rt.successors ∙ s.successors in
    (
      record { successors = sized; de_bruijn = s.de_bruijn },
      get_guarded_value size 0 _ sized
          ∙ ap (λ (k : ℕ). entry_at (set_guarded k (pos 0) (some n) rt.successors) 0)
              (sym s.successors)
          ∙ entry_at-set_guarded rt.successors 0 0 (some n) (omega (arith, s.successors)),
    )

pub set_successor-IsStanding :
    (n : Node) {rt : RoutingTable} → IsStanding rt → IsStanding (set_successor (pos 0) (some n) rt)
set_successor-IsStanding n {rt} st =
    let (sized, first) =
      set_successor-first n st.sized
        (some_in_range rt 0 {n = st.succ} (unfold first_successor in st.first)) in
    record { sized = sized; succ = n; first = first }

pub set_successor_list-IsStanding :
    (n : Node) (ns : RoutingEntries) {rt : RoutingTable}
    → IsSized rt
    → length (some n ∷ ns) ≤ rt.space.succ_list_size
    → IsStanding (set_successor_list (some n ∷ ns) rt)
set_successor_list-IsStanding n ns s h =
    let (sized, first) = get_successor-set_successor_list (some n ∷ ns) s h 0 in
    record {
      sized = sized;
      succ = n;
      first = unfold first_successor in first ∙ unfold entry_at in refl;
    }

equal_le : {a b : ℕ} → a ≡ b → a ≤ b
equal_le e = omega (arith, e)

pub promote_candidate-IsStanding :
    (i : ℕ) (candidate : Node) {rt : RoutingTable}
    → IsSized rt
    → get_successor (pos (suc i)) rt ≡ some candidate
    → IsStanding (promote_candidate (pos (suc i)) rt)
unfolding promote_candidate
promote_candidate-IsStanding i candidate {rt} s found =
    let within = some_in_range rt (suc i) found in
    let size = rt.space.succ_list_size in
    let rest = known_nodes (drop (suc (suc i)) rt.successors) in
    let short : length rest < size = omega (
      arith,
      known_nodes-le (drop (suc (suc i)) rt.successors),
      length-drop {A = Option Node} (suc (suc i)) rt.successors,
      s.successors,
      within,
    ) in
    let whole : length (promoted size candidate rest) ≡ size =
      length-promoted size candidate rest short in
    rw
      (
        lt→ltb (suc i) size within,
        promote_candidate,
        entry_of_successor rt (suc i) s found,
        promote_candidate,
      )
      (unfold promoted in set_successor_list-IsStanding candidate _ s (equal_le whole))

pub init_single_node-IsStanding :
    {rt : RoutingTable}
    → IsSized rt
    → 0 < rt.space.succ_list_size
    → IsStanding (init_single_node rt)
unfolding init_single_node set_predecessor set_de_bruijn
init_single_node-IsStanding {rt} s h =
    let (sized, first) = set_successor-first rt.self s h in
    record {
      sized = record {
        successors = sized.successors;
        de_bruijn = length-set_guarded _ 0 (some rt.self) _ ∙ sized.de_bruijn;
      };
      succ = rt.self;
      first = unfold first_successor get_successor in first;
    }

pub set_predecessor-IsStanding :
    (n : Option Node) {rt : RoutingTable} → IsStanding rt → IsStanding (set_predecessor n rt)
unfolding set_predecessor
set_predecessor-IsStanding n st = record {
  sized = record { successors = st.sized.successors; de_bruijn = st.sized.de_bruijn };
  succ = st.succ;
  first = unfold first_successor get_successor in st.first;
}
