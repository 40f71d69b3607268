-- ===== src/Cache/Steps.antt =====
-- The states that the methods of the web cache reach, one call after another.
use koorde_dht_web_cache.Prelude.{ℕ, ◌≡◌, sym, ◌∙◌, arith, Option-cases, inl, inr, length, Bytes}
use native.Mathlib.Decide.{dec_lt}
use koorde_dht_web_cache.Prelude.Maps.{lookup}
use koorde_dht_web_cache.Cache.{
  WebCache, new_web_cache, get, stored, put, delete_url, clean_expired, clear,
}
use koorde_dht_web_cache.Cache.Invariant.{
  IsValid, new_web_cache-IsValid, get-IsValid, delete_url-IsValid, clean_expired-IsValid,
  clear-IsValid,
}
use koorde_dht_web_cache.Cache.Laws.{put_new, put_old}
use koorde_dht_web_cache.Cache.RoundTrip.{too_large_put}

-- A cache made for some number of megabytes, after calls of its methods. A Put that is refused
-- changes nothing and is no step.
pub data Reachable : WebCache → Type 0 where
  made : (mb : ℕ) → Reachable (new_web_cache mb)
  got : {wc : WebCache} (now : ℕ) (url : Bytes) → Reachable wc → Reachable (get now url wc).0
  put_in :
      {wc out : WebCache} (now created : ℕ) (url content content_type : Bytes) (ttl status_code : ℕ)
      → Reachable wc
      → put now created url content content_type ttl status_code wc ≡ stored out
      → Reachable out
  deleted : {wc : WebCache} (url : Bytes) → Reachable wc → Reachable (delete_url url wc).0
  cleaned : {wc : WebCache} (now : ℕ) → Reachable wc → Reachable (clean_expired now wc).0
  cleared : {wc : WebCache} → Reachable wc → Reachable (clear wc)

pub put-IsValid :
    (now created : ℕ) (url content content_type : Bytes) (ttl status_code : ℕ) {wc out : WebCache}
    → IsValid wc
    → put now created url content content_type ttl status_code wc ≡ stored out
    → IsValid out
put-IsValid now created url content content_type ttl status_code {wc} {out} v h =
    elim (Option-cases (lookup url wc.entries)) [
      | inr (old, found) ↦
          let (out', returns, valid, _, _, _) =
            put_old now created url content content_type ttl status_code old v found in
          let same : out' ≡ out = cc (sym returns ∙ h) in rw (← same) valid
      | inl missing ↦ elim (dec_lt wc.capacity_bytes (length content)) [
        | yes big ↦ absurd (
            cc (
              sym (too_large_put now created url content content_type ttl status_code missing big)
              ∙ h))
        | no small ↦
            let (out', returns, r) =
              put_new now created url content content_type ttl status_code v missing
                (omega arith) in
            let same : out' ≡ out = cc (sym returns ∙ h) in rw (← same) r.valid
      ]
    ]

-- In every state that the methods reach, the map and the recency list hold the same URLs, each once,
-- the byte count is the sum of the sizes of the entries, and each entry stands under its own URL
-- with the size of its content.
pub Reachable-IsValid : {wc : WebCache} → Reachable wc → IsValid wc
Reachable-IsValid (made mb) = new_web_cache-IsValid mb
Reachable-IsValid (got now url r) = get-IsValid now url (Reachable-IsValid r)
Reachable-IsValid (put_in now created url content content_type ttl status_code r h) =
    put-IsValid now created url content content_type ttl status_code (Reachable-IsValid r) h
Reachable-IsValid (deleted url r) = delete_url-IsValid url (Reachable-IsValid r)
Reachable-IsValid (cleaned now r) = clean_expired-IsValid now (Reachable-IsValid r)
Reachable-IsValid (cleared r) = clear-IsValid (Reachable-IsValid r)
