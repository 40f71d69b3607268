-- ===== src/Storage/Laws.antt =====
-- What the storage of a node promises.
use koorde_dht_web_cache.Prelude.{
  ◌≡◌, refl, sym, ◌↔◌, ◌⊎◌, Bool, true, false, Option, none, some, List, [], ◌∷◌, Bytes, IsBytes,
  bytes_eq, bytes_eq_iff, if◌then◌else◌, Option-cases, Bool-cases, inl, inr, ap,
}
use koorde_dht_web_cache.Prelude.Maps.{lookup, insert, remove, lookup-insert, lookup-remove}
use koorde_dht_web_cache.Domain.Hex.{Resource, to_hex_string, to_hex_string-bytes_eq}
use koorde_dht_web_cache.Domain.Ring.{between}
use koorde_dht_web_cache.Storage.{
  Storage, StorageError, put, get, delete, between_keys, all, zero_resource,
}

abbrev pub stored_or_zero : Option Resource → Resource
stored_or_zero none = zero_resource
stored_or_zero (some res) = res

pub get_value :
    (id : Bytes) (s : Storage)
    → get id s ≡ (stored_or_zero (lookup (to_hex_string false id) s), none)
unfolding get
get_value id s = elim (Option-cases (lookup (to_hex_string false id) s)) [
  | inl missing ↦ rw (missing, get)
  | inr (res, found) ↦ rw (found, get)
]

choose :
    (b : Bool) (x : Option Resource) (id : Bytes) (s : Storage)
    → Path
        (Resource × Option StorageError)
        (stored_or_zero (if b then x else lookup (to_hex_string false id) s), none)
        (if b then (stored_or_zero x, none) else get id s)
choose true x id s = refl
choose false x id s = sym (get_value id s)

-- A Get after a Put returns the resource that was put, for its key, and what it returned before, for
-- every other key.
pub get-put :
    (res : Resource) (id : Bytes) (s : Storage)
    → IsBytes res.key
    → IsBytes id
    → get id (put res s) ≡ (if bytes_eq res.key id then (res, none) else get id s)
unfolding put
get-put res id s hk hi =
    rw
      (
        get_value id (insert (to_hex_string false res.key) res s),
        lookup-insert (to_hex_string false res.key) (to_hex_string false id) res s,
        to_hex_string-bytes_eq false res.key id hk hi,
      )
      (choose (bytes_eq res.key id) (some res) id s)

-- After a Delete, whether it failed or not, a Get of the key returns the zero resource and no error,
-- and a Get of every other key returns what it returned before.
pub get-delete :
    (key id : Bytes) (s : Storage)
    → IsBytes key
    → IsBytes id
    → get id (delete key s).0 ≡ (if bytes_eq key id then (zero_resource, none) else get id s)
unfolding delete
get-delete key id s hk hi = elim (Option-cases (lookup (to_hex_string false key) s)) [
  | inl missing ↦
      rw (missing, delete)
        (elim (Bool-cases (bytes_eq key id)) [
          | inl same ↦
              let e = sym ((bytes_eq_iff key id).0 same) in rw (same, e, get_value key s, missing)
          | inr other ↦ rw other
        ])
  | inr (res, found) ↦
      rw
        (
          found,
          delete,
          get_value id (remove (to_hex_string false key) s),
          lookup-remove (to_hex_string false key) (to_hex_string false id) s,
          to_hex_string-bytes_eq false key id hk hi,
        )
        (choose (bytes_eq key id) none id s)
]

-- A resource is in a list of resources.
abbrev pub Among : Resource → List Resource → Type 0
Among r [] = ⊥
Among r (x ∷ xs) = (r ≡ x) ⊎ Among r xs

-- Between lists the resources of the storage whose key lies in (from, to], and no others.
pub between_keys_iff :
    (from to : Bytes) (r : Resource) (s : Storage)
    → Among r (between_keys from to s) ↔ (Among r (all s) × (between r.key from to ≡ true))
unfolding between_keys all
between_keys_iff from to r [] = (λ a. elim a [ ], λ a. elim a.0 [ ])
between_keys_iff from to r ((k, x) ∷ s) = elim (Bool-cases (between x.key from to)) [
  | inl inside ↦
      let ih = between_keys_iff from to r s in
      rw inside (
        λ a. elim a [
          | inl e ↦ (inl e, rw e inside)
          | inr rest ↦ (inr (ih.0 rest).0, (ih.0 rest).1)
        ],
        λ a. elim a.0 [ inl e ↦ inl e | inr rest ↦ inr (ih.1 (rest, a.1)) ],
      )
  | inr outside ↦
      let ih = between_keys_iff from to r s in
      rw outside (
        λ a. (inr (ih.0 a).0, (ih.0 a).1),
        λ a. elim a.0 [
          | inl e ↦ absurd (cc (ap (λ (t : Resource). between t.key from to) e))
          | inr rest ↦ ih.1 (rest, a.1)
        ],
      )
]
