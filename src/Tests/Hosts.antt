-- ===== src/Tests/Hosts.antt =====
-- Listeners, configurations and sequences of calls (internal/node/server, internal/configloader).
use koorde_dht_web_cache.Prelude.{
  take, length, ◌≤◌, map, ◌↔◌, ℕ, ◌≡◌, refl, arith, true, false, none, some, List, [], ◌∷◌, ◌++◌,
  if◌then◌else◌, Bytes, bytes_eq, codes, pos, returned, inl,
}
use koorde_dht_web_cache.Actions.Laws.{Finishes}
use koorde_dht_web_cache.Config.{Config}
use koorde_dht_web_cache.Config.Load.{Environment, load_config}
use koorde_dht_web_cache.Config.Load.Peers.{join, IsPeer, load_config-join}
use koorde_dht_web_cache.Server.Listen.{
  Interface, Host, ip_net, to_4, is_loopback_ip, starts_with, contains, same_network, is_private_ip,
  pick_addr, pick_interface, pick_ip, advertised_host, listen,
}
use koorde_dht_web_cache.Server.Listen.Laws.{Advertised, listen-Advertised}
use koorde_dht_web_cache.Domain.Proto.{ClientResource}
use koorde_dht_web_cache.Storage as MemoryStorage
use koorde_dht_web_cache.Query as Query
use koorde_dht_web_cache.Query.Stores.{for_client, as_messages, get_store-Arrives}
use koorde_dht_web_cache.Server.Clients as Clients
use koorde_dht_web_cache.Server.Clients.{sent}
use koorde_dht_web_cache.Service.Ends.{Steady}
use koorde_dht_web_cache.Server.Clients.Answers.{
  ClientCall, put_call, get_call, lookup_call, serve_calls, serve_calls-Finishes,
}
use koorde_dht_web_cache.Tests.Stubs.{table-IsRouting, pool_of-IsOpen, net, deaf, node_with}
use koorde_dht_web_cache.Tests.Rings.{hundredths, settings}
use koorde_dht_web_cache.Tests.Pages.{digest, digest-IsHash}

-- A host with the loopback interface, a public and a private address.
abbrev interfaces : List Interface
interfaces =
    record { is_up = true; is_loopback = true; addrs = some (ip_net (127 ∷ 0 ∷ 0 ∷ 1 ∷ []) ∷ []) }
    ∷ record {
      is_up = true;
      is_loopback = false;
      addrs = some (ip_net (9 ∷ 9 ∷ 9 ∷ 9 ∷ []) ∷ ip_net (172 ∷ 20 ∷ 0 ∷ 5 ∷ []) ∷ []);
    }
    ∷ []

abbrev host : Host
host = record {
  interfaces = some interfaces;
  listen_tcp = λ addr. some (pos 4000);
  parse_ip = λ text. [];
  ip_string = λ ip. ip;
  format_int = λ i. codes "4000";
}

listens :
    listen host (codes "private") (codes "0.0.0.0") [] (pos 0)
    ≡ returned (pos 4000, (172 ∷ 20 ∷ 0 ∷ 5 ∷ []) ++ (codes ":" ++ codes "4000"))
unfolding listen advertised_host pick_ip pick_interface pick_addr is_private_ip contains
    same_network is_loopback_ip starts_with to_4 bytes_eq
listens = refl

listen-Advertised_example :
    (chosen : Bytes) × ((172 ∷ 20 ∷ 0 ∷ 5 ∷ []) ++ (codes ":" ++ codes "4000")
      ≡ chosen ++ (codes ":" ++ codes "4000"))
    × Advertised host (codes "private") [] chosen
listen-Advertised_example =
    listen-Advertised host (codes "private") (codes "0.0.0.0") [] (pos 0) (inl refl) listens

-- An environment in which only BOOTSTRAP_PEERS is set.
abbrev environment : Environment ℕ
environment = record {
  getenv = λ name. if bytes_eq name (codes "BOOTSTRAP_PEERS") then codes "a:1,b:2" else [];
  atoi = λ text. none;
  parse_int = λ text. none;
  parse_float = λ text. none;
  parse_duration = λ text. none;
  trim_space = λ text. text;
}

address_a : IsPeer environment (codes "a:1")
address_a = record { named = refl; no_comma = (refl, (refl, (refl, tt))); tight = refl }

address_b : IsPeer environment (codes "b:2")
address_b = record { named = refl; no_comma = (refl, (refl, (refl, tt))); tight = refl }

peers_set : environment.getenv (codes "BOOTSTRAP_PEERS") ≡ join (codes "a:1") (codes "b:2" ∷ [])
unfolding bytes_eq
peers_set = refl

load_config-join_example :
    (loaded : Config ℕ) × (load_config environment hundredths (some (settings 4)) ≡ some loaded)
    × (loaded.dht.bootstrap.peers ≡ codes "a:1" ∷ codes "b:2" ∷ [])
load_config-join_example =
    load_config-join environment hundredths (settings 4) (codes "a:1") (codes "b:2" ∷ [])
      (address_a, (address_b, tt)) peers_set

abbrev calls : List ClientCall
calls =
    put_call false (some (some (record { key = codes "k"; value = codes "v" })))
    ∷ get_call false (some (codes "k"))
    ∷ lookup_call false (some (codes "0x2bc"))
    ∷ []

serve_calls-Finishes_example :
    Finishes (serve_calls digest net calls (node_with deaf)) (Steady (node_with deaf))
serve_calls-Finishes_example =
    serve_calls-Finishes digest-IsHash net calls (node_with deaf) table-IsRouting
      (pool_of-IsOpen deaf) (omega arith)

get_store-Arrives_example :
    (arrived missing : List ClientResource) × (map for_client
        (MemoryStorage.all (node_with deaf).storage)
      ≡ arrived ++ missing)
    × (Query.get_store
          (returned (take 1 (as_messages (Clients.get_store false (λ i. sent) (node_with deaf)).0)))
        ≡ returned arrived)
    × ((((Clients.get_store false (λ i. sent) (node_with deaf)).1 ≡ returned tt)
          × (length (map for_client (MemoryStorage.all (node_with deaf).storage)) ≤ 1))
        ↔ (missing ≡ []))
get_store-Arrives_example = get_store-Arrives (λ i. sent) 1 (node_with deaf)
