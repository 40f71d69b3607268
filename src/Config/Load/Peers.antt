-- ===== src/Config/Load/Peers.antt =====
-- BOOTSTRAP_PEERS of the environment.
use koorde_dht_web_cache.Prelude.{
  ◌≡◌, refl, ap, ◌∙◌, arith, false, some, List, [], ◌∷◌, ◌++◌, ◌==◌, length, Bytes, codes,
}
use koorde_dht_web_cache.Config.{Config, Float64, apply_defaults}
use koorde_dht_web_cache.Config.Load.{
  Environment, split_commas, trimmed, parse_list, override, override_bootstrap, override_dht,
  override_all, load_config,
}

-- `strings.Join(peers, ",")`, from the first peer on.
abbrev pub join : Bytes → List Bytes → Bytes
join peer [] = peer
join peer (next ∷ peers) = peer ++ (44 ∷ join next peers)

-- A text without a comma.
abbrev pub NoComma : Bytes → Type 0
NoComma [] = Unit {0}
NoComma (c ∷ s) = ((c == 44) ≡ false) × NoComma s

split_commas-end : (peer : Bytes) → NoComma peer → split_commas peer ≡ (peer, [])
unfolding split_commas
split_commas-end [] h = refl
split_commas-end (c ∷ s) h = rw (h.0, split_commas-end s h.1) refl

split_commas-comma :
    (peer rest : Bytes)
    → NoComma peer
    → split_commas (peer ++ (44 ∷ rest)) ≡ (peer, (split_commas rest).0 ∷ (split_commas rest).1)
unfolding split_commas
split_commas-comma [] rest h = refl
split_commas-comma (c ∷ s) rest h = rw (h.0, split_commas-comma s rest h.1) refl

module _ {F : Type 0} (os : Environment F) where
  -- An address as the list keeps it: not empty, without a comma, and without spaces around it.
  pub record IsPeer (peer : Bytes) : Type 0 where
    pub named : (length peer == 0) ≡ false
    pub no_comma : NoComma peer
    pub tight : os.trim_space peer ≡ peer

  abbrev pub ArePeers : List Bytes → Type 0
  ArePeers [] = Unit {0}
  ArePeers (peer ∷ peers) = IsPeer peer × ArePeers peers

  trimmed-ArePeers : (peers : List Bytes) → ArePeers peers → trimmed os peers ≡ peers
  unfolding trimmed
  trimmed-ArePeers [] h = refl
  trimmed-ArePeers (peer ∷ peers) (i, h) = rw (i.tight, i.named, trimmed-ArePeers peers h) refl

  split_commas-join :
      (peer : Bytes) (peers : List Bytes)
      → ArePeers (peer ∷ peers)
      → split_commas (join peer peers) ≡ (peer, peers)
  split_commas-join peer [] (i, h) = split_commas-end peer i.no_comma
  split_commas-join peer (next ∷ peers) (i, h) =
      split_commas-comma peer (join next peers) i.no_comma
      ∙ ap (λ parts. (peer, parts.0 ∷ parts.1)) (split_commas-join next peers h)

  join-named :
      (peer : Bytes) (peers : List Bytes)
      → (length peer == 0) ≡ false
      → (length (join peer peers) == 0) ≡ false
  join-named [] peers h = absurd (ground (arith, h))
  join-named (c ∷ s) [] h = h
  join-named (c ∷ s) (next ∷ peers) h = ground arith

  -- When BOOTSTRAP_PEERS holds addresses with a comma between each two, none of them empty, with a
  -- comma in it or with spaces around it, and the file can be read, LoadConfig returns a
  -- configuration whose peers are exactly these addresses, in their order.
  pub load_config-join :
      (float : Float64 F) (file : Config F) (peer : Bytes) (peers : List Bytes)
      → ArePeers (peer ∷ peers)
      → os.getenv (codes "BOOTSTRAP_PEERS") ≡ join peer peers
      → (loaded : Config F) × (load_config os float (some file) ≡ some loaded)
        × (loaded.dht.bootstrap.peers ≡ peer ∷ peers)
  unfolding load_config apply_defaults override_all override_dht override_bootstrap override
      parse_list
  load_config-join float file peer peers a set = (
    apply_defaults float (override_all os file),
    refl,
    rw
        (
          set,
          join-named peer peers a.0.named,
          split_commas-join peer peers a,
          trimmed-ArePeers (peer ∷ peers) a,
        )
        refl,
  )
