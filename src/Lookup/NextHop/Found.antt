-- ===== src/Lookup/NextHop/Found.antt =====
-- The next hop of a list without nil entries, as DeBruijnList returns it: there is always one.
use koorde_dht_web_cache.Prelude.{
  ℕ, zero, suc, ◌+◌, ◌%◌, ◌^◌, ◌≤◌, ◌<◌, ◌≡◌, ◌≢◌, refl, sym, ap, ◌∙◌, ◌⊎◌, inl, inr, arith, true,
  false, none, some, List, [], ◌∷◌, if◌then◌else◌, length, Bytes, bytes_eq, bytes_eq_iff, pos,
  Bool-cases,
}
use koorde_dht_web_cache.Prelude.Pow.{mod_unique}
use koorde_dht_web_cache.Domain.Space.{Space}
use koorde_dht_web_cache.Domain.Value.{to_big_int, to_big_int-injective}
use koorde_dht_web_cache.Domain.Valid.{IsId}
use koorde_dht_web_cache.Domain.Hex.{Node}
use koorde_dht_web_cache.Domain.Ring.{
  equal, between, between_iff, distance, distance_forward, distance_wrapped,
}
use koorde_dht_web_cache.Routing.{RoutingEntries, entry_at, some_entries}
use koorde_dht_web_cache.Lookup.NextHop.{
  count_nodes, only_node, exact_match, skip_nil, scan_pairs, find_next_hop,
}
use native.Mathlib.Nat.{mod-eq_of_lt, mod-lt}

abbrev pub AllIds : Space → List Node → Type 0
AllIds sp [] = Unit {0}
AllIds sp (n ∷ ns) = IsId sp n.id × AllIds sp ns

-- Entry i holds a node that is x itself, or after which x is met no later than the next node.
pub record IsNextHop (list : RoutingEntries) (x : Bytes) (i : ℕ) : Type 0 where
  pub node : Node
  pub next : Node
  pub here : entry_at list i ≡ some node
  pub after : entry_at list ((i + 1) % length list) ≡ some next
  pub precedes : (node.id ≡ x) ⊎ (between x node.id next.id ≡ true)

pub length-some_entries : (ns : List Node) → length (some_entries ns) ≡ length ns
unfolding some_entries
length-some_entries [] = refl
length-some_entries (n ∷ ns) = ap suc (length-some_entries ns)

count_nodes-some_entries : (ns : List Node) → count_nodes (some_entries ns) ≡ length ns
unfolding count_nodes some_entries
count_nodes-some_entries [] = refl
count_nodes-some_entries (n ∷ ns) = ap suc (count_nodes-some_entries ns)

-- With a node there, the loop over nil entries ends at once.
skip_nil-found :
    (list : RoutingEntries) (j left : ℕ) (n : Node)
    → entry_at list j ≡ some n
    → 0 < left
    → skip_nil list j left ≡ some n
unfolding skip_nil
skip_nil-found list j zero n e h = absurd (omega arith)
skip_nil-found list j (suc left) n e h = rw (e, skip_nil) refl

entry_at-some_entries :
    (ns : List Node) (k : ℕ) → k < length ns → (n : Node) × (entry_at (some_entries ns) k ≡ some n)
unfolding entry_at some_entries
entry_at-some_entries [] k h = absurd (omega arith)
entry_at-some_entries (n ∷ ns) zero h = (n, refl)
entry_at-some_entries (n ∷ ns) (suc k) h = entry_at-some_entries ns k (omega arith)

-- With more than one node the choice is made by the two passes.
two_passes :
    (list : RoutingEntries) (x : Bytes)
    → 1 < length list
    → 1 < count_nodes list
    → find_next_hop list x
      ≡ elim (exact_match 0 list x) [ some i ↦ pos i | none ↦ scan_pairs list 0 list x ]
unfolding find_next_hop
two_passes list x len count = ground arith

-- The distance to x falls from a node to the next one, when x is neither the node nor in the interval
-- after it.
distance_falls :
    (m x a b : ℕ)
    → x < m
    → a < m
    → b < m
    → a ≢ b
    → a ≢ x
    → (0 < distance m a x → distance m a b < distance m a x)
    → distance m b x < distance m a x
distance_falls m x a b hx ha hb ne nx far = ground (
  arith,
  λ (h : a ≤ x). distance_forward m a x h hx,
  λ (h : x < a). distance_wrapped m a x h ha,
  λ (h : a ≤ b). distance_forward m a b h hb,
  λ (h : b < a). distance_wrapped m a b h ha,
  λ (h : b ≤ x). distance_forward m b x h hx,
  λ (h : x < b). distance_wrapped m b x h hb,
)

module _ {sp : Space} {x : Bytes} (ix : IsId sp x) where
  abbrev far : Node → ℕ
  far n = distance (2 ^ sp.bits) (to_big_int n.id) (to_big_int x)

  far_falls :
      (a b : Node)
      → IsId sp a.id
      → IsId sp b.id
      → a.id ≢ x
      → between x a.id b.id ≡ false
      → far b < far a
  far_falls a b ia ib ne out =
      let iff = between_iff ix ia ib in
      distance_falls (2 ^ sp.bits) (to_big_int x) (to_big_int a.id) (to_big_int b.id) ix.fits
        ia.fits ib.fits (λ e. ground (arith, iff, out, e))
        (λ e. ne (to_big_int-injective a.id x ia.bytes ix.bytes (ia.size ∙ sym ix.size) e))
        (λ h. ground (arith, iff, out, h))

  one_pair :
      (list : RoutingEntries) (i : ℕ) (a next : Node) (rest : RoutingEntries)
      → 0 < length list
      → entry_at list ((i + 1) % length list) ≡ some next
      → scan_pairs list i (some a ∷ rest) x
        ≡ (if between x a.id next.id then pos i else scan_pairs list (suc i) rest x)
  unfolding scan_pairs
  one_pair list i a next rest h e =
      rw (skip_nil-found list ((i + 1) % length list) (length list) next e h, scan_pairs) refl

  -- No node of the list is x itself.
  abbrev NoneIs : List Node → Type 0
  NoneIs [] = Unit {0}
  NoneIs (n ∷ ns) = (n.id ≢ x) × NoneIs ns

  -- The scan of the nodes from index i on finds a next hop, or the first node of the list is nearer
  -- to x than the node at i.
  abbrev Scanned : RoutingEntries → ℕ → Node → Node → RoutingEntries → Type 0
  Scanned list i first a rest =
      ((j : ℕ) × (scan_pairs list i (some a ∷ rest) x ≡ pos j) × IsNextHop list x j)
      ⊎ (far first < far a)

  scan_pair :
      (list : RoutingEntries) (i : ℕ) (first a next : Node) (rest : RoutingEntries)
      → 0 < length list
      → entry_at list i ≡ some a
      → entry_at list ((i + 1) % length list) ≡ some next
      → IsId sp a.id
      → IsId sp next.id
      → a.id ≢ x
      → ((j : ℕ) × (scan_pairs list (suc i) rest x ≡ pos j) × IsNextHop list x j)
        ⊎ ((far first < far next) ⊎ (next ≡ first))
      → Scanned list i first a rest
  scan_pair list i first a next rest h here after ia ib ne later =
      elim (Bool-cases (between x a.id next.id)) [
        | inl within ↦ inl (
          i,
          one_pair list i a next rest h after ∙ rw within refl,
          record { node = a; next = next; here = here; after = after; precedes = inr within },
        )
        | inr out ↦ elim later [
          | inl (j, e, hop) ↦ inl (j, one_pair list i a next rest h after ∙ rw out e, hop)
          | inr nearer ↦ inr (elim nearer [
            | inl lt ↦ omega (arith, lt, far_falls a next ia ib ne out)
            | inr same ↦ rw (← same) (far_falls a next ia ib ne out)
          ])
        ]
      ]

  scan_found :
      (list : RoutingEntries) (i : ℕ) (first a : Node) (rest : List Node)
      → entry_at list 0 ≡ some first
      → length list ≡ i + suc (length rest)
      → ((k : ℕ) → entry_at list (i + k) ≡ entry_at (some_entries (a ∷ rest)) k)
      → IsId sp first.id
      → AllIds sp (a ∷ rest)
      → NoneIs (a ∷ rest)
      → Scanned list i first a (some_entries rest)
  unfolding entry_at some_entries
  scan_found list i first a [] start len tail fid ids none_is =
      let wraps : (i + 1) % length list ≡ 0 =
        mod_unique (i + 1) (length list) 1 0 (omega (arith, len)) (omega (arith, len)) in
      scan_pair list i first a first [] (omega (arith, len))
        (ap (entry_at list) (omega arith) ∙ tail 0) (ap (entry_at list) wraps ∙ start) ids.0 fid
        none_is.0 (inr (inr refl))
  scan_found list i first a (b ∷ rest) start len tail fid ids none_is =
      let within : (i + 1) % length list ≡ i + 1 = mod-eq_of_lt (omega (arith, len)) in
      scan_pair list i first a b (some_entries (b ∷ rest)) (omega (arith, len))
        (ap (entry_at list) (omega arith) ∙ tail 0) (ap (entry_at list) within ∙ tail 1) ids.0
        ids.1.0 none_is.0
        (elim (scan_found list (suc i) first b rest start (omega (arith, len))
          (λ k. ap (entry_at list) (omega arith) ∙ tail (suc k)) fid ids.1 none_is.1) [
            | inl found ↦ inl found
            | inr lt ↦ inr (inl lt)
          ])

  exact_match_found :
      (i : ℕ) (ns : List Node)
      → ((j : ℕ) × (n : Node) × (exact_match i (some_entries ns) x ≡ some (i + j))
          × (entry_at (some_entries ns) j ≡ some n)
          × (j < length ns)
          × (n.id ≡ x))
        ⊎ ((exact_match i (some_entries ns) x ≡ none) × NoneIs ns)
  unfolding exact_match some_entries entry_at equal
  exact_match_found i [] = inr (refl, tt)
  exact_match_found i (n ∷ ns) = elim (Bool-cases (bytes_eq n.id x)) [
    | inl same ↦
        inl (0, n, rw same (ap some (omega arith)), refl, omega arith, (bytes_eq_iff n.id x).0 same)
    | inr other ↦ elim (exact_match_found (suc i) ns) [
      | inl (j, m, e, here, lt, is) ↦
          inl (suc j, m, rw other (e ∙ ap some (omega arith)), here, omega arith, is)
      | inr (e, rest) ↦
          inr (rw other e, ((λ same. ground (arith, bytes_eq_iff n.id x, other, same)), rest))
    ]
  ]

  -- findNextHop of a list of nodes of the space, of at least one, returns the index of a node that is
  -- the identifier itself, or after which, clockwise, the identifier is met no later than the next
  -- node of the list, taken as a circle. It never returns -1.
  pub find_next_hop-IsNextHop :
      (ns : List Node)
      → 0 < length ns
      → AllIds sp ns
      → (i : ℕ) × (find_next_hop (some_entries ns) x ≡ pos i) × IsNextHop (some_entries ns) x i
  unfolding find_next_hop
  find_next_hop-IsNextHop [] h ids = absurd (omega arith)
  find_next_hop-IsNextHop (n ∷ []) h ids = (
    0,
    unfold some_entries count_nodes only_node in refl,
    record {
      node = n;
      next = n;
      here = unfold some_entries entry_at in refl;
      after = unfold some_entries entry_at in refl;
      precedes = inr ((between_iff ix ids.0 ids.0).1 (inl refl));
    },
  )
  find_next_hop-IsNextHop (a ∷ b ∷ ns) h ids =
      let list = some_entries (a ∷ b ∷ ns) in
      let len : length list ≡ suc (suc (length ns)) = length-some_entries (a ∷ b ∷ ns) in
      let count : count_nodes list ≡ suc (suc (length ns)) =
        count_nodes-some_entries (a ∷ b ∷ ns) in
      let passes = two_passes list x (omega (arith, len)) (omega (arith, count)) in
      elim (exact_match_found 0 (a ∷ b ∷ ns)) [
        | inl (j, n, e, here, lt, is) ↦
            let within : (j + 1) % length list < length list =
              mod-lt (j + 1) (omega (arith, len)) in
            let (next, after) =
              entry_at-some_entries (a ∷ b ∷ ns) ((j + 1) % length list)
                (omega (arith, len, within)) in
            (
              j,
              passes ∙ rw e (ap pos (omega arith)),
              record { node = n; next = next; here = here; after = after; precedes = inl is },
            )
        | inr (e, none_is) ↦
            elim (scan_found list 0 a a (b ∷ ns) (unfold some_entries entry_at in refl)
              (omega (arith, len)) (λ k. ap (entry_at list) (omega arith)) ids.0 ids none_is) [
                | inl (j, found, hop) ↦ (j, passes ∙ rw e (unfold some_entries in found), hop)
                | inr lt ↦ absurd (omega (arith, lt))
              ]
      ]
