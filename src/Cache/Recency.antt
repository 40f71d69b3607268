-- ===== src/Cache/Recency.antt =====
-- The recency list of the web cache: no URL twice, removal, and the last element.
use koorde_dht_web_cache.Prelude.{
  ◌≡◌, refl, ap, arith, Bool, true, false, some, List, [], ◌∷◌, ◌++◌, if◌then◌else◌, ◌||◌, Bytes,
  bytes_eq, bytes_eq_iff, inl, inr, Bool-cases,
}
use koorde_dht_web_cache.Cache.{delete, back}

unfoldable pub holds : Bytes → List Bytes → Bool
holds u [] = false
holds u (v ∷ l) = bytes_eq v u || holds u l

abbrev pub NoRepeat : List Bytes → Type 0
NoRepeat [] = Unit {0}
NoRepeat (u ∷ l) = (holds u l ≡ false) × NoRepeat l

pub holds-delete :
    (u v : Bytes) (l : List Bytes)
    → holds v (delete u l) ≡ (if bytes_eq u v then false else holds v l)
unfolding holds delete
holds-delete u v [] = ground arith
holds-delete u v (w ∷ l) =
    ground (arith, bytes_eq_iff w u, bytes_eq_iff w v, bytes_eq_iff u v, holds-delete u v l)

pub delete-NoRepeat : (u : Bytes) (l : List Bytes) → NoRepeat l → NoRepeat (delete u l)
unfolding delete
delete-NoRepeat u [] h = tt
delete-NoRepeat u (v ∷ l) h =
    ground (arith, holds-delete u v l, bytes_eq_iff u v, bytes_eq_iff v u, delete-NoRepeat u l)

pub delete_absent : (u : Bytes) (l : List Bytes) → holds u l ≡ false → delete u l ≡ l
unfolding holds delete
delete_absent u [] h = refl
delete_absent u (v ∷ l) h = ground (arith, delete_absent u l)

-- A list that is not empty is some list and its last element, and removing the last element leaves
-- that list.
pub record Last (l : List Bytes) : Type 0 where
  pub url : Bytes
  pub before : List Bytes
  pub split : l ≡ before ++ url ∷ []
  pub is_back : back l ≡ some url
  pub deleted : delete url l ≡ before
  pub held : holds url l ≡ true

other_held :
    (u w : Bytes) (l : List Bytes) → holds u l ≡ false → holds w l ≡ true → bytes_eq u w ≡ false
other_held u w l out in' = elim (Bool-cases (bytes_eq u w)) [
  | inl same ↦ let e = (bytes_eq_iff u w).0 same in cc
  | inr other ↦ other
]

pub Last-of : (u : Bytes) (l : List Bytes) → NoRepeat (u ∷ l) → Last (u ∷ l)
unfolding back delete holds
Last-of u [] h = record {
  url = u;
  before = [];
  split = refl;
  is_back = refl;
  deleted = ground (arith, bytes_eq_iff u u);
  held = ground (arith, bytes_eq_iff u u);
}
Last-of u (v ∷ l) h =
    let r = Last-of v l h.1 in
    let other = other_held u r.url (v ∷ l) h.0 r.held in
    record {
      url = r.url;
      before = u ∷ r.before;
      split = ap (◌∷◌ u) r.split;
      is_back = r.is_back;
      deleted = rw other (ap (◌∷◌ u) r.deleted);
      held = ground (arith, r.held);
    }
