-- ===== src/Tests/Rings.antt =====
-- Chord nodes and configurations (internal/node/chord, internal/node/config).
use koorde_dht_web_cache.Prelude.{
  ℕ, ◌%◌, ◌≡◌, ◌↔◌, refl, arith, Bool, true, false, none, some, [], ◌∷◌, leb, ◌==◌, Bytes, bytes_eq,
  codes, pos, ok,
}
use koorde_dht_web_cache.Domain.Space.{Space, new_space}
use koorde_dht_web_cache.Domain.Digits.{trailing_zeros, trailing_zeros_loop}
use koorde_dht_web_cache.Chord.Fingers.{FingerTable}
use koorde_dht_web_cache.Chord.{ChordNode}
use koorde_dht_web_cache.Config.{
  Config, Float64, panics, errors, to_uint, validate_config, logger_errors, dht_errors,
  bootstrap_errors, peer_errors, tracing_errors, cache_errors, is_empty,
}
use koorde_dht_web_cache.Config.Laws.{validate_config-panics_iff, validate_config-new_space}
use koorde_dht_web_cache.Tests.Stubs.{ring, here, there}

abbrev fingers : FingerTable
fingers = record {
  self = here;
  space = ring;
  successor_list = some there ∷ none ∷ none ∷ [];
  fingers = some there ∷ some there ∷ some here ∷ [];
  predecessor = none;
}

abbrev chord_node : ChordNode
chord_node = record {
  rt = fingers;
  pool = record { self_addr = 97 ∷ []; clients = []; closed = false; locked = false };
  storage = [];
}

-- A float64 as a number of hundredths.
abbrev pub hundredths : Float64 ℕ
hundredths = record {
  is_zero = λ x. x == 0;
  at_most_zero = λ x. x == 0;
  at_least_one = λ x. leb 100 x;
  thousand = 100000;
  sixty_five_percent = 65;
}

abbrev accepts : Bytes → Bool
accepts addr = false

abbrev pub settings : ℕ → Config ℕ
settings degree = record {
  logger = record {
    active = true;
    level = codes "info";
    encoding = codes "json";
    mode = codes "stdout";
    file = record {
      path = [];
      max_size = pos 0;
      max_backups = pos 0;
      max_age = pos 0;
      compress = false;
    };
  };
  dht = record {
    protocol = codes "koorde";
    id_bits = pos 10;
    mode = codes "public";
    de_bruijn = record { degree = pos degree; fix_interval = pos 5 };
    fault_tolerance = record {
      successor_list_size = pos 8;
      stabilization_interval = pos 5;
      failure_timeout = pos 1;
    };
    storage_fix_interval = pos 5;
    bootstrap = record {
      mode = codes "static";
      peers = codes "a:1" ∷ [];
      route53 = record {
        hosted_zone_id = [];
        domain_suffix = [];
        ttl = pos 0;
        region = [];
        endpoint = [];
      };
    };
  };
  node = record { id = []; bind = []; host = []; port = pos 4000 };
  tracing = record { enabled = false; exporter = []; endpoint = [] };
  cache = record {
    enabled = true;
    http_port = pos 8080;
    capacity_mb = pos 10;
    default_ttl = pos 60;
    hotspot_threshold = 100000;
    hotspot_decay_rate = 65;
  };
}

validate_config-panics_iff_example :
    (validate_config hundredths accepts (settings 3) ≡ panics) ↔ (to_uint (pos 3) % 2 ≡ 1)
validate_config-panics_iff_example = validate_config-panics_iff hundredths accepts (settings 3)

settings_valid : validate_config hundredths accepts (settings 4) ≡ errors []
unfolding validate_config logger_errors dht_errors bootstrap_errors peer_errors tracing_errors
    cache_errors is_empty to_uint bytes_eq trailing_zeros trailing_zeros_loop
settings_valid = refl

validate_config-new_space_example :
    (sp : Space) × (new_space (pos 10) (pos 4) (pos 8) ≡ ok sp)
    × (sp.bits % trailing_zeros sp.graph_grade ≡ 0)
validate_config-new_space_example =
    validate_config-new_space hundredths accepts (settings 4) settings_valid (omega arith) refl
