-- ===== src/Routing/Entries.antt =====
-- The entries of a routing table: reads after writes, and what a list that replaces them leaves.
use koorde_dht_web_cache.Prelude.{
  ℕ, zero, suc, ◌+◌, ◌-◌, ◌≤◌, ◌<◌, ◌≡◌, refl, sym, ap, ◌∙◌, arith, false, ◌&&◌, Option, none, [],
  ◌∷◌, ltb, leb, ◌==◌, if◌then◌else◌, length, replicate, pos, length-replicate,
}
use koorde_dht_web_cache.Domain.Hex.{Node}
use koorde_dht_web_cache.Routing.{
  RoutingEntries, entry_at, set_entry, set_guarded, fill_entries, pad_entries, replace_entries,
}

length-set_entry :
    (i : ℕ) (n : Option Node) (es : RoutingEntries) → length (set_entry es i n) ≡ length es
unfolding set_entry
length-set_entry i n [] = refl
length-set_entry zero n (e ∷ es) = refl
length-set_entry (suc i) n (e ∷ es) = ap suc (length-set_entry i n es)

pub length-set_guarded :
    (size i : ℕ) (n : Option Node) (es : RoutingEntries)
    → length (set_guarded size (pos i) n es) ≡ length es
unfolding set_guarded
length-set_guarded size i n es = ground (arith, length-set_entry i n es)

entry_at-set_entry :
    (es : RoutingEntries) (i j : ℕ) (n : Option Node)
    → i < length es
    → entry_at (set_entry es i n) j ≡ (if i == j then n else entry_at es j)
unfolding entry_at set_entry
entry_at-set_entry [] i j n h = absurd (omega arith)
entry_at-set_entry (e ∷ es) zero zero n h = refl
entry_at-set_entry (e ∷ es) zero (suc j) n h = ground arith
entry_at-set_entry (e ∷ es) (suc i) zero n h = ground arith
entry_at-set_entry (e ∷ es) (suc i) (suc j) n h = ground (arith, entry_at-set_entry es i j n)

pub entry_at-set_guarded :
    (es : RoutingEntries) (i j : ℕ) (n : Option Node)
    → i < length es
    → entry_at (set_guarded (length es) (pos i) n es) j ≡ (if i == j then n else entry_at es j)
unfolding set_guarded
entry_at-set_guarded es i j n h = ground (arith, entry_at-set_entry es i j n h)

pub entry_at_out : (es : RoutingEntries) (j : ℕ) → length es ≤ j → entry_at es j ≡ none
unfolding entry_at
entry_at_out [] j h = refl
entry_at_out (e ∷ es) zero h = absurd (omega arith)
entry_at_out (e ∷ es) (suc j) h = entry_at_out es j (omega arith)

entry_first : (n : Option Node) (ns : RoutingEntries) (k : ℕ) → k ≡ 0 → entry_at (n ∷ ns) k ≡ n
unfolding entry_at
entry_first n ns k e = rw e refl

entry_later :
    (n : Option Node) (ns : RoutingEntries) (k m : ℕ)
    → k ≡ suc m
    → entry_at (n ∷ ns) k ≡ entry_at ns m
unfolding entry_at
entry_later n ns k m e = rw e refl

-- Entry j after the loop that writes ns from index i on.
fill_entries_lem :
    (ns es : RoutingEntries) (i j size : ℕ)
    → size ≡ length es
    → i + length ns ≤ size
    → (length (fill_entries size i ns es) ≡ size)
      × (entry_at (fill_entries size i ns es) j
          ≡ (if leb i j && ltb j (i + length ns) then entry_at ns (j - i) else entry_at es j))
unfolding fill_entries
fill_entries_lem [] es i j size e h = (omega (arith, e), ground arith)
fill_entries_lem (n ∷ ns) es i j size e h =
    let es' = set_guarded size (pos i) n es in
    let kept : length es' ≡ length es = length-set_guarded size i n es in
    let written : entry_at es' j ≡ (if i == j then n else entry_at es j) =
      rw e (entry_at-set_guarded es i j n (omega arith)) in
    let (size', rest) =
      fill_entries_lem ns es' (suc i) j size (omega (arith, kept)) (omega arith) in
    (size', rest ∙ shift written)
  where
    shift :
        {x : Option Node}
        → x ≡ (if i == j then n else entry_at es j)
        → (if leb (suc i) j && ltb j (suc i + length ns) then entry_at ns (j - suc i) else x) ≡ (
            if leb i j && ltb j (i + length (n ∷ ns))
            then entry_at (n ∷ ns) (j - i)
            else entry_at es j)
    shift h = ground (arith, h, entry_first n ns (j - i), entry_later n ns (j - i) (j - suc i))

pad_entries_lem :
    (left : ℕ) (es : RoutingEntries) (i j size : ℕ)
    → size ≡ length es
    → i + left ≡ size
    → (length (pad_entries size i left es) ≡ size)
      × (entry_at (pad_entries size i left es) j ≡ (if leb i j then none else entry_at es j))
unfolding pad_entries
pad_entries_lem zero es i j size e h = (omega (arith, e), ground (arith, entry_at_out es j))
pad_entries_lem (suc left) es i j size e h =
    let es' = set_guarded size (pos i) none es in
    let kept : length es' ≡ length es = length-set_guarded size i none es in
    let written : entry_at es' j ≡ (if i == j then none else entry_at es j) =
      rw e (entry_at-set_guarded es i j none (omega arith)) in
    let (size', rest) =
      pad_entries_lem left es' (suc i) j size (omega (arith, kept)) (omega arith) in
    (size', ground (arith, rest, written))

-- A list that is no longer than the entries replaces them: its own entries, then nil.
pub replace_entries_lem :
    (ns es : RoutingEntries) (j : ℕ)
    → length ns ≤ length es
    → (length (replace_entries (length es) ns es) ≡ length es)
      × (entry_at (replace_entries (length es) ns es) j ≡ entry_at ns j)
unfolding replace_entries
replace_entries_lem ns es j h =
    let not_longer : ltb (length es) (length ns) ≡ false = ground arith in
    let (filled, value) = fill_entries_lem ns es 0 j (length es) refl (omega arith) in
    let (padded, value') =
      pad_entries_lem (length es - length ns) (fill_entries (length es) 0 ns es) (length ns) j
        (length es) (omega (arith, filled)) (omega arith) in
    rw not_longer (padded, ground (arith, value, value', entry_at_out ns j))

-- Two lists of one length with the same entries are equal.
pub entries_equal :
    (es fs : RoutingEntries)
    → length es ≡ length fs
    → ((j : ℕ) → entry_at es j ≡ entry_at fs j)
    → es ≡ fs
unfolding entry_at
entries_equal [] [] l h = refl
entries_equal [] (f ∷ fs) l h = absurd (omega arith)
entries_equal (e ∷ es) [] l h = absurd (omega arith)
entries_equal (e ∷ es) (f ∷ fs) l h =
    let rest = entries_equal es fs (omega arith) (λ j. h (suc j)) in
    let first : e ≡ f = h 0 in rw (first, rest)

-- A list of the length of the entries replaces them whole.
pub replace_whole :
    (size : ℕ) (ns es : RoutingEntries)
    → length es ≡ size
    → length ns ≡ size
    → replace_entries size ns es ≡ ns
replace_whole size ns es e f = rw (sym e) (
    entries_equal (replace_entries (length es) ns es) ns
      (omega (arith, (replace_entries_lem ns es 0 (omega (arith, e))).0))
      (λ j. (replace_entries_lem ns es j (omega (arith, e))).1))

entry_at-replicate : (size j : ℕ) → entry_at (replicate size none) j ≡ none
unfolding entry_at
entry_at-replicate zero j = refl
entry_at-replicate (suc size) zero = refl
entry_at-replicate (suc size) (suc j) = entry_at-replicate size j

-- Entry j after a write at 0 into empty entries.
pub first_entry :
    (size k j : ℕ) (n : Option Node)
    → 0 < size
    → k ≡ size
    → entry_at (set_guarded k (pos 0) n (replicate size none)) j ≡ (if 0 == j then n else none)
first_entry size k j n h e =
    let len : length (replicate {A = Option Node} size none) ≡ size =
      length-replicate {A = Option Node} size none in
    let same : k ≡ length (replicate {A = Option Node} size none) = e ∙ sym len in
    rw (
      same,
      entry_at-set_guarded (replicate size none) 0 j n (omega (arith, len)),
      entry_at-replicate size j,
    )
