-- ===== src/Hotspot.antt =====
-- internal/node/cache/hotspot.go: how often each URL is asked for, with a decay. A method that holds the
-- lock is one step on the detector; `now` is `time.Now().Unix()`. The floating point numbers and their
-- operations are arguments. TotalRequests is far from the limit of an int64.
pub mod Laws
use koorde_dht_web_cache.Prelude.{
  ℕ, zero, suc, ◌+◌, ◌-◌, ◌*◌, ◌%◌, ◌^◌, Bool, true, false, Option, none, some, List, [], ◌∷◌, ltb,
  leb, ◌==◌, if◌then◌else◌, length, Bytes, ℤ, pos, negsuc, sub_ℕ,
}
use koorde_dht_web_cache.Prelude.Maps.{lookup, insert, remove}
use koorde_dht_web_cache.Config.{greater}

-- What the code uses of float64: `float64(i)`, `math.Pow`, and whether x >= y.
pub record Arithmetic (F : Type 0) : Type 0 where
  pub zero_value : F
  pub one : F
  pub plus : F → F → F
  pub times : F → F → F
  pub pow : F → F → F
  pub from_int : ℤ → F
  pub at_least : F → F → Bool

pub record HotspotEntry (F : Type 0) : Type 0 where
  pub average : F
  pub last_request_time : ℕ
  pub total_requests : ℕ

pub record HotspotDetector (F : Type 0) : Type 0 where
  pub threshold : F
  pub decay_rate : F
  pub entries : List (Bytes × HotspotEntry F)

-- `now - last`, in seconds.
unfoldable pub elapsed : ℕ → ℕ → ℤ
elapsed now last = sub_ℕ now last

-- The int64 with the bits of a number.
unfoldable pub to_int64 : ℕ → ℤ
to_int64 n = let v = n % 2 ^ 64 in if ltb v (2 ^ 63) then pos v else negsuc (2 ^ 64 - 1 - v)

-- `time.Duration(age)*time.Second`.
unfoldable pub in_nanoseconds : ℤ → ℤ
in_nanoseconds (pos age) = to_int64 (age * 10 ^ 9)
in_nanoseconds (negsuc age) = to_int64 (2 ^ 64 - suc age * 10 ^ 9 % 2 ^ 64)

module _ {F : Type 0} (float : Arithmetic F) where
  unfoldable pub new_hotspot_detector : F → F → HotspotDetector F
  new_hotspot_detector threshold decay_rate = record {
    threshold = threshold;
    decay_rate = decay_rate;
    entries = [];
  }

  -- The average after the time since the last request.
  unfoldable pub decayed_average : ℕ → HotspotDetector F → HotspotEntry F → F
  decayed_average now hd entry =
      float.times entry.average
        (float.pow hd.decay_rate (float.from_int (elapsed now entry.last_request_time)))

  unfoldable pub first_access : ℕ → HotspotEntry F
  first_access now = record { average = float.one; last_request_time = now; total_requests = 1 }

  unfoldable pub next_access : ℕ → HotspotDetector F → HotspotEntry F → HotspotEntry F
  next_access now hd entry =
      if entry.last_request_time == now
      then record entry {
        average = float.plus entry.average float.one;
        total_requests = entry.total_requests + 1;
      }
      else record entry {
        average = float.plus (decayed_average now hd entry) float.one;
        last_request_time = now;
        total_requests = entry.total_requests + 1;
      }

  unfoldable pub record_access : ℕ → Bytes → HotspotDetector F → HotspotDetector F × Bool
  record_access now url hd = elim (lookup url hd.entries) [
    | none ↦ (record hd { entries = insert url (first_access now) hd.entries }, false)
    | some entry ↦
        let next = next_access now hd entry in
        (
          record hd { entries = insert url next hd.entries },
          float.at_least next.average hd.threshold,
        )
  ]

  unfoldable pub is_hot_entry : ℕ → HotspotDetector F → HotspotEntry F → Bool
  is_hot_entry now hd entry = float.at_least (decayed_average now hd entry) hd.threshold

  unfoldable pub is_hot : ℕ → Bytes → HotspotDetector F → Bool
  is_hot now url hd = elim (lookup url hd.entries) [
    | none ↦ false
    | some entry ↦ is_hot_entry now hd entry
  ]

  -- Go visits a map in no fixed order; this is the order of the list.
  unfoldable pub hot_urls : ℕ → HotspotDetector F → List (Bytes × HotspotEntry F) → List Bytes
  hot_urls now hd [] = []
  hot_urls now hd ((url, entry) ∷ m) =
      if is_hot_entry now hd entry then url ∷ hot_urls now hd m else hot_urls now hd m

  unfoldable pub get_hot_urls : ℕ → HotspotDetector F → List Bytes
  get_hot_urls now hd = hot_urls now hd hd.entries

  unfoldable pub get_stats : ℕ → Bytes → HotspotDetector F → F × ℕ × Bool
  get_stats now url hd = elim (lookup url hd.entries) [
    | none ↦ (float.zero_value, 0, false)
    | some entry ↦ (decayed_average now hd entry, entry.total_requests, is_hot_entry now hd entry)
  ]

module _ {F : Type 0} where
  unfoldable pub clear : HotspotDetector F → HotspotDetector F
  clear hd = record hd { entries = [] }

  unfoldable pub is_stale : ℕ → ℤ → HotspotEntry F → Bool
  is_stale now max_age entry =
      greater (in_nanoseconds (elapsed now entry.last_request_time)) max_age

  unfoldable pub stale_urls : ℕ → ℤ → List (Bytes × HotspotEntry F) → List Bytes
  stale_urls now max_age [] = []
  stale_urls now max_age ((url, entry) ∷ m) =
      if is_stale now max_age entry
      then url ∷ stale_urls now max_age m
      else stale_urls now max_age m

  unfoldable pub remove_all :
      List Bytes → List (Bytes × HotspotEntry F) → List (Bytes × HotspotEntry F)
  remove_all [] m = m
  remove_all (url ∷ urls) m = remove_all urls (remove url m)

  unfoldable pub clean_stale : ℕ → ℤ → HotspotDetector F → HotspotDetector F × ℕ
  clean_stale now max_age hd =
      let stale = stale_urls now max_age hd.entries in
      (record hd { entries = remove_all stale hd.entries }, length stale)
