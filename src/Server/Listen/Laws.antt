-- ===== src/Server/Listen/Laws.antt =====
-- Which address a node tells its peers.
use koorde_dht_web_cache.Prelude.{
  ℕ, ◌/◌, ◌≡◌, ◌≤◌, ◌<◌, ◌↔◌, ◌⊎◌, inl, inr, refl, sym, ap, ◌∙◌, arith, Bool, true, not, ◌&&◌, ◌||◌,
  Option, none, some, List, [], ◌∷◌, ◌++◌, ◌==◌, if◌then◌else◌, length, Bytes, bytes_eq, codes, ℤ,
  returned, Bool-cases, Option-cases, Result-cases,
}
use mathlib.Core.Path.{subst}
use koorde_dht_web_cache.Server.Listen.{
  HostAddr, Interface, Host, to_4, is_loopback_ip, contains, same_network, is_private_ip, ip_of,
  suits, pick_addr, pick_interface, pick_ip, check_host, advertised_host, listen,
}

-- The first element with a property.
abbrev pub find : (Bytes → Bool) → List Bytes → Option Bytes
find p [] = none
find p (x ∷ xs) = if p x then some x else find p xs

-- The IPv4 address that is usable.
abbrev pub usable : Bytes → List Bytes
usable ip =
    if (length ip == 0) || is_loopback_ip ip || (length (to_4 ip) == 0) then [] else to_4 ip ∷ []

abbrev pub usable_addrs : List HostAddr → List Bytes
usable_addrs [] = []
usable_addrs (addr ∷ addrs) = usable (ip_of addr) ++ usable_addrs addrs

abbrev pub usable_ips : List Interface → List Bytes
usable_ips [] = []
usable_ips (iface ∷ ifaces) =
    (if iface.is_up && not iface.is_loopback
      then elim iface.addrs [ none ↦ [] | some addrs ↦ usable_addrs addrs ]
      else [])
    ++ usable_ips ifaces

find-append :
    (p : Bytes → Bool) (xs ys : List Bytes)
    → find p (xs ++ ys) ≡ elim (find p xs) [ some x ↦ some x | none ↦ find p ys ]
find-append p [] ys = refl
find-append p (x ∷ xs) ys = ground (arith, find-append p xs ys)

pick_addr-find :
    (mode : Bytes) (addrs : List HostAddr)
    → pick_addr mode addrs ≡ find (suits mode) (usable_addrs addrs)
unfolding pick_addr
pick_addr-find mode [] = refl
pick_addr-find mode (addr ∷ addrs) = ground (
  arith,
  pick_addr-find mode addrs,
  find-append (suits mode) (usable (ip_of addr)) (usable_addrs addrs),
)

-- The address that is picked is the first that suits the mode, of the IPv4 addresses that are no
-- loopback, of the interfaces that are up and no loopback.
pick_interface-find :
    (mode : Bytes) (ifaces : List Interface)
    → pick_interface mode ifaces ≡ find (suits mode) (usable_ips ifaces)
unfolding pick_interface
pick_interface-find mode [] = refl
pick_interface-find mode (iface ∷ ifaces) = elim (Option-cases iface.addrs) [
  | inl failed ↦ ground (arith, failed, pick_interface-find mode ifaces)
  | inr (addrs, found) ↦ ground (
    arith,
    found,
    pick_interface-find mode ifaces,
    pick_addr-find mode addrs,
    find-append (suits mode) (usable_addrs addrs) (usable_ips ifaces),
  )
]

module _ (a b c d : ℕ) (ha : a < 256) (hb : b < 256) (hc : c < 256) (hd : d < 256) where
  in_10 : contains (10 ∷ 0 ∷ 0 ∷ 0 ∷ []) (255 ∷ 0 ∷ 0 ∷ 0 ∷ []) (a ∷ b ∷ c ∷ d ∷ []) ≡ (a == 10)
  unfolding contains same_network to_4
  in_10 = ground arith

  in_172 :
      contains (172 ∷ 16 ∷ 0 ∷ 0 ∷ []) (255 ∷ 240 ∷ 0 ∷ 0 ∷ []) (a ∷ b ∷ c ∷ d ∷ [])
      ≡ ((a == 172) && (b / 16 == 1))
  unfolding contains same_network to_4
  in_172 = ground arith

  in_192 :
      contains (192 ∷ 168 ∷ 0 ∷ 0 ∷ []) (255 ∷ 255 ∷ 0 ∷ 0 ∷ []) (a ∷ b ∷ c ∷ d ∷ [])
      ≡ ((a == 192) && (b == 168))
  unfolding contains same_network to_4
  in_192 = ground arith

  -- An IPv4 address is private exactly when it is in one of the three blocks.
  is_private_ip_iff :
      (is_private_ip (a ∷ b ∷ c ∷ d ∷ []) ≡ true)
      ↔ ((a ≡ 10) ⊎ ((a ≡ 172) × (16 ≤ b) × (b < 32)) ⊎ ((a ≡ 192) × (b ≡ 168)))
  unfolding is_private_ip
  is_private_ip_iff = ground (arith, in_10, in_172, in_192)

-- The two modes that a configuration may have.
abbrev pub IsMode : Bytes → Type 0
IsMode mode = (mode ≡ codes "private") ⊎ (mode ≡ codes "public")

IsMode-not :
    (mode : Bytes)
    → IsMode mode
    → bytes_eq mode (codes "public") ≡ not (bytes_eq mode (codes "private"))
unfolding bytes_eq
IsMode-not mode (inl e) = rw e refl
IsMode-not mode (inr e) = rw e refl

suits_lem :
    (mode ip : Bytes)
    → IsMode mode
    → suits mode ip ≡ true
    → is_private_ip ip ≡ bytes_eq mode (codes "private")
suits_lem mode ip m h = ground (arith, IsMode-not mode m)

find-suits : (p : Bytes → Bool) (xs : List Bytes) {x : Bytes} → find p xs ≡ some x → p x ≡ true
find-suits p [] h = absurd (cc)
find-suits p (y ∷ xs) {x} h = elim (Bool-cases (p y)) [
  | inl good ↦ let same : some y ≡ some x = rw good at h in ground (arith, good, same)
  | inr bad ↦ find-suits p xs (rw bad at h)
]

-- What a node tells its peers: with no host given, the first address that suits the mode of the usable
-- ones of this machine; else the host that is given.
abbrev pub Advertised : Host → Bytes → Bytes → Bytes → Type 0
Advertised os mode host chosen =
    ((ifaces : List Interface) × (ip : Bytes) × (host ≡ [])
      × (os.interfaces ≡ some ifaces)
      × (find (suits mode) (usable_ips ifaces) ≡ some ip)
      × (chosen ≡ os.ip_string ip)
      × (is_private_ip ip ≡ bytes_eq mode (codes "private")))
    ⊎ ((0 < length host)
        × (chosen ≡ host)
        × ((length (os.parse_ip host) ≡ 0)
            ⊎ (is_private_ip (os.parse_ip host) ≡ bytes_eq mode (codes "private"))))

check_host-Advertised :
    (os : Host) (mode host : Bytes) {chosen : Bytes}
    → IsMode mode
    → 0 < length host
    → check_host os mode host ≡ returned chosen
    → Advertised os mode host chosen
unfolding check_host
check_host-Advertised os mode host {chosen} m named h = inr (ground (arith, IsMode-not mode m))

pick_ip-Advertised :
    (os : Host) (mode : Bytes) {ip : Bytes}
    → IsMode mode
    → pick_ip os mode ≡ returned ip
    → Advertised os mode [] (os.ip_string ip)
unfolding pick_ip
pick_ip-Advertised os mode {ip} m h = elim (Option-cases os.interfaces) [
  | inl failed ↦ absurd (cc (sym (rw failed at h)))
  | inr (ifaces, found) ↦
      let picked : pick_interface mode ifaces ≡ some ip = ground (arith, h, found) in
      let first = sym (pick_interface-find mode ifaces) ∙ picked in
      inl (
        ifaces,
        ip,
        refl,
        found,
        first,
        refl,
        suits_lem mode ip m (find-suits (suits mode) (usable_ips ifaces) first),
      )
]

no_bytes : (text : Bytes) → length text ≡ 0 → text ≡ []
no_bytes [] h = refl
no_bytes (b ∷ text) h = absurd (omega (arith, h))

advertised_host-Advertised :
    (os : Host) (mode host : Bytes) {chosen : Bytes}
    → IsMode mode
    → advertised_host os mode host ≡ returned chosen
    → Advertised os mode host chosen
unfolding advertised_host
advertised_host-Advertised os mode host {chosen} m h = elim (Bool-cases (length host == 0)) [
  | inr named ↦ check_host-Advertised os mode host m (ground arith) (rw named at h)
  | inl unnamed ↦ elim (Result-cases (pick_ip os mode)) [
    | inr (e, fails) ↦ absurd (ground (arith, h, unnamed, fails))
    | inl (ip, picks) ↦
        let same : os.ip_string ip ≡ chosen = ground (arith, h, unnamed, picks) in
        let none_given : [] ≡ host = sym (no_bytes host (ground arith)) in
        subst (λ given. Advertised os mode given chosen) none_given
          (subst (Advertised os mode []) same (pick_ip-Advertised os mode m picks))
  ]
]

-- In one of the two modes, an address that Listen returns is a host with the port of the listener.
-- When no host was given, it is the first IPv4 address that suits the mode, private exactly in the
-- private mode, of those that are no loopback and that an interface that is up and no loopback has.
-- Otherwise it is the host that was given, which is no IP or is private exactly in the private mode.
pub listen-Advertised :
    (os : Host) (mode bind host : Bytes) (port : ℤ) {actual_port : ℤ} {advertised : Bytes}
    → IsMode mode
    → listen os mode bind host port ≡ returned (actual_port, advertised)
    → (chosen : Bytes) × (advertised ≡ chosen ++ (codes ":" ++ os.format_int actual_port))
      × Advertised os mode host chosen
unfolding listen
listen-Advertised os mode bind host port {actual_port} {advertised} m h =
    let bound = os.listen_tcp (bind ++ (codes ":" ++ os.format_int port)) in
    elim (Option-cases bound) [
      | inl fails ↦ absurd (ground (arith, h, fails))
      | inr (p, opened) ↦ elim (Result-cases (advertised_host os mode host)) [
        | inr (e, fails) ↦ absurd (ground (arith, h, opened, fails))
        | inl (chosen, chooses) ↦
            let port_eq : p ≡ actual_port = ground (arith, h, opened, chooses) in
            let text_eq : chosen ++ (codes ":" ++ os.format_int p) ≡ advertised =
              ground (arith, h, opened, chooses) in
            (
              chosen,
              sym text_eq ∙ ap (λ q. chosen ++ (codes ":" ++ os.format_int q)) port_eq,
              advertised_host-Advertised os mode host m chooses,
            )
      ]
    ]
