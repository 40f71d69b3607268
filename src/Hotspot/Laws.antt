-- ===== src/Hotspot/Laws.antt =====
-- When a URL counts as hot, and what CleanStale forgets.
use koorde_dht_web_cache.Prelude.{
  ℕ, ◌≡◌, refl, sym, ap, ◌∙◌, arith, ◌||◌, Bool, false, none, some, List, [], ◌∷◌, if◌then◌else◌,
  Bytes, bytes_eq, bytes_eq_iff, ℤ, pos, Option-cases, inl, inr,
}
use koorde_dht_web_cache.Prelude.Maps.{
  lookup, insert, remove, lookup-insert, lookup-remove, Distinct,
}
use koorde_dht_web_cache.Hotspot.{
  Arithmetic, HotspotEntry, HotspotDetector, elapsed, decayed_average, first_access, next_access,
  record_access, is_hot_entry, is_hot, is_stale, stale_urls, remove_all, clean_stale,
}

module _ {F : Type 0} (float : Arithmetic F) where
  -- `x * Pow(r, 0)` is x in IEEE 754 arithmetic.
  abbrev pub NoDecay : Type 0
  NoDecay = (x r : F) → float.times x (float.pow r (float.from_int (pos 0))) ≡ x

  record_access_new :
      (now : ℕ) (url : Bytes) (hd : HotspotDetector F)
      → lookup url hd.entries ≡ none
      → record_access float now url hd
        ≡ (record hd { entries = insert url (first_access float now) hd.entries }, false)
  unfolding record_access
  record_access_new now url hd missing = rw (missing, record_access) refl

  module _ (no_decay : NoDecay) (now : ℕ) (url : Bytes) (hd : HotspotDetector F) where
    elapsed_none : elapsed now now ≡ pos 0
    unfolding elapsed
    elapsed_none = ground arith

    at_once :
        (rate average : F) (last : ℕ)
        → last ≡ now
        → float.times average (float.pow rate (float.from_int (elapsed now last))) ≡ average
    at_once rate average last e = rw (e, elapsed_none) (no_decay average rate)

    next_access_time :
        (entry : HotspotEntry F) → (next_access float now hd entry).last_request_time ≡ now
    unfolding next_access
    next_access_time entry = ground arith

    inserted :
        (entry : HotspotEntry F)
        → entry.last_request_time ≡ now
        → is_hot float now url (record hd { entries = insert url entry hd.entries })
          ≡ float.at_least entry.average hd.threshold
    unfolding is_hot is_hot_entry decayed_average
    inserted entry e =
        rw (is_hot, lookup-insert url url entry hd.entries, (bytes_eq_iff url url).1 refl)
          (ap (λ (x : F). float.at_least x hd.threshold)
            (at_once hd.decay_rate entry.average entry.last_request_time e))

    record_access_again :
        (entry : HotspotEntry F)
        → lookup url hd.entries ≡ some entry
        → record_access float now url hd ≡ (
          record hd { entries = insert url (next_access float now hd entry) hd.entries },
          float.at_least (next_access float now hd entry).average hd.threshold,
        )
    unfolding record_access
    record_access_again entry found = rw (found, record_access) refl

    -- Right after RecordAccess of a URL that was asked for before, IsHot says of it what RecordAccess
    -- returned; after the first request of a URL RecordAccess returns false, and IsHot says whether 1 has
    -- reached the threshold.
    is_hot-record_access :
        is_hot float now url (record_access float now url hd).0 ≡ elim (lookup url hd.entries) [
          | none ↦ float.at_least float.one hd.threshold
          | some entry ↦ (record_access float now url hd).1
        ]
    unfolding first_access
    is_hot-record_access = elim (Option-cases (lookup url hd.entries)) [
      | inl missing ↦
          rw (record_access_new now url hd missing, missing)
            (inserted (first_access float now) refl)
      | inr (entry, found) ↦
          rw (record_access_again entry found, found)
            (inserted (next_access float now hd entry) (next_access_time entry)
              ∙ sym (ap (λ (r : HotspotDetector F × Bool). r.1) (record_access_again entry found)))
    ]

abbrev has : Bytes → List Bytes → Bool
has k [] = false
has k (u ∷ us) = bytes_eq u k || has k us

module _ {F : Type 0} where
  lookup-remove_all :
      (us : List Bytes) (k : Bytes) (m : List (Bytes × HotspotEntry F))
      → lookup k (remove_all us m) ≡ (if has k us then none else lookup k m)
  unfolding remove_all
  lookup-remove_all [] k m = refl
  lookup-remove_all (u ∷ us) k m =
      ground (arith, lookup-remove_all us k (remove u m), lookup-remove u k m)

  has-stale_urls :
      (now : ℕ) (max_age : ℤ) (k : Bytes) (m : List (Bytes × HotspotEntry F))
      → Distinct m
      → has k (stale_urls now max_age m)
        ≡ elim (lookup k m) [ none ↦ false | some entry ↦ is_stale now max_age entry ]
  unfolding stale_urls lookup
  has-stale_urls now max_age k [] d = refl
  has-stale_urls now max_age k ((u, entry) ∷ m) d =
      ground (arith, has-stale_urls now max_age k m d.1, bytes_eq_iff u k)

  -- CleanStale keeps the entry of each URL that is not stale, and forgets every other one.
  clean_stale_lem :
      (now : ℕ) (max_age : ℤ) (hd : HotspotDetector F) (url : Bytes)
      → Distinct hd.entries
      → lookup url (clean_stale now max_age hd).0.entries ≡ elim (lookup url hd.entries) [
        | none ↦ none
        | some entry ↦ if is_stale now max_age entry then none else some entry
      ]
  unfolding clean_stale
  clean_stale_lem now max_age hd url d = ground (
    arith,
    lookup-remove_all (stale_urls now max_age hd.entries) url hd.entries,
    has-stale_urls now max_age url hd.entries d,
  )
