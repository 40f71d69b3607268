-- ===== src/Server/Listen.antt =====
-- internal/node/server/config.go: pickIP, isPrivateIP and Listen, with what they use of net.IP. An IP is
-- its bytes, and nil has none. The operating system is an argument, and so are ParseIP and String.
pub mod Laws
use koorde_dht_web_cache.Prelude.{
  ℕ, ◌-◌, ◌*◌, ◌/◌, Bool, true, false, not, ◌&&◌, ◌||◌, Option, none, some, List, [], ◌∷◌, ◌++◌,
  ◌==◌, if◌then◌else◌, length, take, drop, replicate, Bytes, bytes_eq, codes, ℤ, Result, returned,
  refused,
}

-- A net.Addr: an IPNet, an IPAddr, or of another type.
pub data HostAddr : Type 0 where
  ip_net ip_addr : Bytes → HostAddr
  other_addr : HostAddr

-- A net.Interface; its addresses are none when Addrs fails.
pub record Interface : Type 0 where
  pub is_up : Bool
  pub is_loopback : Bool
  pub addrs : Option (List HostAddr)

-- The interfaces, none when net.Interfaces fails; the port of the listener on an address, none when
-- net.Listen fails; net.ParseIP, IP.String and `%d`.
pub record Host : Type 0 where
  pub interfaces : Option (List Interface)
  pub listen_tcp : Bytes → Option ℤ
  pub parse_ip : Bytes → Bytes
  pub ip_string : Bytes → Bytes
  pub format_int : ℤ → Bytes

-- IP.To4: the four bytes of an IPv4 address, also in its form of 16 bytes, else nil.
unfoldable pub to_4 : Bytes → Bytes
to_4 ip =
    if length ip == 4
    then ip
    else (if (length ip == 16) && bytes_eq (take 12 ip) (replicate 10 0 ++ (255 ∷ 255 ∷ []))
        then drop 12 ip
        else [])

-- Whether the first byte is this one.
unfoldable pub starts_with : ℕ → Bytes → Bool
starts_with b [] = false
starts_with b (x ∷ xs) = x == b

-- IP.IsLoopback.
unfoldable pub is_loopback_ip : Bytes → Bool
is_loopback_ip ip =
    if length (to_4 ip) == 4
    then starts_with 127 (to_4 ip)
    else bytes_eq ip (replicate 15 0 ++ (1 ∷ []))

-- `b & mask`, for a mask that is a row of ones.
abbrev pub masked : ℕ → ℕ → ℕ
masked mask b = b / (256 - mask) * (256 - mask)

-- `nn[i]&m[i] != ip[i]&m[i]` of no byte; the lengths are the same.
unfoldable pub same_network : Bytes → Bytes → Bytes → Bool
same_network (n ∷ ns) (m ∷ ms) (b ∷ bs) = (masked m n == masked m b) && same_network ns ms bs
same_network ns ms bs = true

-- IPNet.Contains of a network of IPv4.
unfoldable pub contains : Bytes → Bytes → Bytes → Bool
contains network mask ip = (length (to_4 ip) == 4) && same_network network mask (to_4 ip)

-- 10.0.0.0/8, 172.16.0.0/12 and 192.168.0.0/16.
unfoldable pub is_private_ip : Bytes → Bool
is_private_ip ip =
    contains (10 ∷ 0 ∷ 0 ∷ 0 ∷ []) (255 ∷ 0 ∷ 0 ∷ 0 ∷ []) ip
    || contains (172 ∷ 16 ∷ 0 ∷ 0 ∷ []) (255 ∷ 240 ∷ 0 ∷ 0 ∷ []) ip
    || contains (192 ∷ 168 ∷ 0 ∷ 0 ∷ []) (255 ∷ 255 ∷ 0 ∷ 0 ∷ []) ip

abbrev pub ip_of : HostAddr → Bytes
ip_of (ip_net ip) = ip
ip_of (ip_addr ip) = ip
ip_of other_addr = []

-- Whether the mode asks for such an address: "private" for a private one, "public" for another.
abbrev pub suits : Bytes → Bytes → Bool
suits mode ip =
    (bytes_eq mode (codes "private") && is_private_ip ip)
    || (bytes_eq mode (codes "public") && not (is_private_ip ip))

-- The first address of an interface that is returned, in four bytes.
unfoldable pub pick_addr : Bytes → List HostAddr → Option Bytes
pick_addr mode [] = none
pick_addr mode (addr ∷ addrs) =
    let rest = pick_addr mode addrs in
    let ip = to_4 (ip_of addr) in
    if (length (ip_of addr) == 0) || is_loopback_ip (ip_of addr)
    then rest
    else (if length ip == 0 then rest else (if suits mode ip then some ip else rest))

unfoldable pub pick_interface : Bytes → List Interface → Option Bytes
pick_interface mode [] = none
pick_interface mode (iface ∷ ifaces) =
    let rest = pick_interface mode ifaces in
    if not iface.is_up || iface.is_loopback then rest else elim iface.addrs [
      | none ↦ rest
      | some addrs ↦ elim (pick_addr mode addrs) [ some ip ↦ some ip | none ↦ rest ]
    ]

pub data ListenError : Type 0 where
  interfaces_failed no_interface listen_failed not_private not_public : ListenError

unfoldable pub pick_ip : Host → Bytes → Result ListenError Bytes
pick_ip host mode = elim host.interfaces [
  | none ↦ refused interfaces_failed
  | some ifaces ↦ elim (pick_interface mode ifaces) [
    | none ↦ refused no_interface
    | some ip ↦ returned ip
  ]
]

-- The host that is advertised: the one that is given, unless it is an address that the mode forbids.
unfoldable pub check_host : Host → Bytes → Bytes → Result ListenError Bytes
check_host os mode host =
    let ip = os.parse_ip host in
    if length ip == 0
    then returned host
    else (if bytes_eq mode (codes "private") && not (is_private_ip ip)
        then refused not_private
        else (if bytes_eq mode (codes "public") && is_private_ip ip
            then refused not_public
            else returned host))

unfoldable pub advertised_host : Host → Bytes → Bytes → Result ListenError Bytes
advertised_host os mode host =
    if length host == 0
    then elim (pick_ip os mode) [ refused e ↦ refused e | returned ip ↦ returned (os.ip_string ip) ]
    else check_host os mode host

-- The port of the listener, and the address that peers are told.
unfoldable pub listen : Host → Bytes → Bytes → Bytes → ℤ → Result ListenError (ℤ × Bytes)
listen os mode bind host port = elim (os.listen_tcp (bind ++ (codes ":" ++ os.format_int port))) [
  | none ↦ refused listen_failed
  | some actual_port ↦ elim (advertised_host os mode host) [
    | refused e ↦ refused e
    | returned chosen ↦ returned (actual_port, chosen ++ (codes ":" ++ os.format_int actual_port))
  ]
]
