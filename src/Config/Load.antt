-- ===== src/Config/Load.antt =====
-- internal/configloader/override.go, and LoadConfig of internal/node/config/config.go: the environment
-- variables that replace fields of the file. What the YAML file holds is an argument.
pub mod Peers
use koorde_dht_web_cache.Prelude.{
  ◌==◌, ◌||◌, Bool, true, false, Option, none, some, List, [], ◌∷◌, if◌then◌else◌, length, Bytes,
  bytes_eq, codes, ℤ,
}
use koorde_dht_web_cache.Config.{
  Config, LoggerConfig, FileLoggerConfig, DhtConfig, BootstrapConfig, NodeConfig, TracingConfig,
  CacheConfig, Float64, is_one_of, apply_defaults,
}

-- os.Getenv, and strconv.Atoi, ParseInt, ParseFloat, time.ParseDuration and strings.TrimSpace.
pub record Environment (F : Type 0) : Type 0 where
  pub getenv : Bytes → Bytes
  pub atoi : Bytes → Option ℤ
  pub parse_int : Bytes → Option ℤ
  pub parse_float : Bytes → Option F
  pub parse_duration : Bytes → Option ℤ
  pub trim_space : Bytes → Bytes

-- The value of a variable in place of the field, if there is one.
abbrev pub or_field : {A : Type 0} → Option A → A → A
or_field none field = field
or_field (some v) field = v

-- `strings.Split(val, ",")`: the first part, and the parts after it.
unfoldable pub split_commas : Bytes → Bytes × List Bytes
split_commas [] = ([], [])
split_commas (c ∷ s) =
    let rest = split_commas s in if c == 44 then ([], rest.0 ∷ rest.1) else (c ∷ rest.0, rest.1)

unfoldable pub parse_bool : Bytes → Option Bool
parse_bool val =
    if is_one_of val (codes "1" ∷ codes "true" ∷ codes "TRUE" ∷ codes "True" ∷ [])
    then some true
    else (if is_one_of val (codes "0" ∷ codes "false" ∷ codes "FALSE" ∷ codes "False" ∷ [])
        then some false
        else none)

module _ {F : Type 0} (os : Environment F) where
  -- The override of a field by what a parser makes of a variable that is set.
  unfoldable pub override : {A : Type 0} → (Bytes → Option A) → A → Bytes → A
  override parse field env =
      if length (os.getenv env) == 0 then field else or_field (parse (os.getenv env)) field

  abbrev pub override_string : Bytes → Bytes → Bytes
  override_string = override some

  abbrev pub override_int : ℤ → Bytes → ℤ
  override_int = override os.atoi

  abbrev pub override_int64 : ℤ → Bytes → ℤ
  override_int64 = override os.parse_int

  abbrev pub override_bool : Bool → Bytes → Bool
  override_bool = override parse_bool

  abbrev pub override_float : F → Bytes → F
  override_float = override os.parse_float

  abbrev pub override_duration : ℤ → Bytes → ℤ
  override_duration = override os.parse_duration

  -- The parts that are not empty once they are trimmed.
  unfoldable pub trimmed : List Bytes → List Bytes
  trimmed [] = []
  trimmed (part ∷ parts) =
      if length (os.trim_space part) == 0 then trimmed parts else os.trim_space part ∷ trimmed parts

  unfoldable pub parse_list : Bytes → Option (List Bytes)
  parse_list val = some (trimmed ((split_commas val).0 ∷ (split_commas val).1))

  abbrev pub override_string_slice : List Bytes → Bytes → List Bytes
  override_string_slice = override parse_list

  unfoldable pub override_node : NodeConfig → NodeConfig
  override_node c = record {
    id = override_string c.id (codes "NODE_ID");
    bind = override_string c.bind (codes "NODE_BIND");
    host = override_string c.host (codes "NODE_HOST");
    port = override_int c.port (codes "NODE_PORT");
  }

  unfoldable pub override_bootstrap : BootstrapConfig → BootstrapConfig
  override_bootstrap c = record {
    mode = override_string c.mode (codes "BOOTSTRAP_MODE");
    peers = override_string_slice c.peers (codes "BOOTSTRAP_PEERS");
    route53 = record {
      hosted_zone_id = override_string c.route53.hosted_zone_id (codes "ROUTE53_ZONE_ID");
      domain_suffix = override_string c.route53.domain_suffix (codes "ROUTE53_SUFFIX");
      ttl = override_int64 c.route53.ttl (codes "ROUTE53_TTL");
      region = override_string c.route53.region (codes "ROUTE53_REGION");
      endpoint = override_string c.route53.endpoint (codes "ROUTE53_ENDPOINT");
    };
  }

  unfoldable pub override_dht : DhtConfig → DhtConfig
  override_dht c = record {
    protocol = override_string c.protocol (codes "DHT_PROTOCOL");
    id_bits = override_int c.id_bits (codes "DHT_ID_BITS");
    mode = override_string c.mode (codes "DHT_MODE");
    de_bruijn = record {
      degree = override_int c.de_bruijn.degree (codes "DEBRUIJN_DEGREE");
      fix_interval = override_duration c.de_bruijn.fix_interval (codes "DEBRUIJN_FIX_INTERVAL");
    };
    fault_tolerance = record {
      successor_list_size =
          override_int c.fault_tolerance.successor_list_size (codes "SUCCESSOR_LIST_SIZE");
      stabilization_interval =
          override_duration c.fault_tolerance.stabilization_interval
            (codes "STABILIZATION_INTERVAL");
      failure_timeout =
          override_duration c.fault_tolerance.failure_timeout (codes "FAILURE_TIMEOUT");
    };
    storage_fix_interval = override_duration c.storage_fix_interval (codes "STORAGE_FIX_INTERVAL");
    bootstrap = override_bootstrap c.bootstrap;
  }

  unfoldable pub override_tracing : TracingConfig → TracingConfig
  override_tracing c = record {
    enabled = override_bool c.enabled (codes "TRACING_ENABLED");
    exporter = override_string c.exporter (codes "TRACING_EXPORTER");
    endpoint = override_string c.endpoint (codes "TRACING_ENDPOINT");
  }

  unfoldable pub override_logger : LoggerConfig → LoggerConfig
  override_logger c = record {
    active = override_bool c.active (codes "LOGGER_ENABLED");
    level = override_string c.level (codes "LOGGER_LEVEL");
    encoding = override_string c.encoding (codes "LOGGER_ENCODING");
    mode = override_string c.mode (codes "LOGGER_MODE");
    file = record {
      path = override_string c.file.path (codes "LOGGER_FILE_PATH");
      max_size = override_int c.file.max_size (codes "LOGGER_FILE_MAX_SIZE");
      max_backups = override_int c.file.max_backups (codes "LOGGER_FILE_MAX_BACKUPS");
      max_age = override_int c.file.max_age (codes "LOGGER_FILE_MAX_AGE");
      compress = override_bool c.file.compress (codes "LOGGER_FILE_COMPRESS");
    };
  }

  unfoldable pub override_cache : CacheConfig F → CacheConfig F
  override_cache c = record {
    enabled = override_bool c.enabled (codes "CACHE_ENABLED");
    http_port = override_int c.http_port (codes "CACHE_HTTP_PORT");
    capacity_mb = override_int c.capacity_mb (codes "CACHE_CAPACITY_MB");
    default_ttl = override_int c.default_ttl (codes "CACHE_DEFAULT_TTL");
    hotspot_threshold = override_float c.hotspot_threshold (codes "CACHE_HOTSPOT_THRESHOLD");
    hotspot_decay_rate = override_float c.hotspot_decay_rate (codes "CACHE_HOTSPOT_DECAY");
  }

  unfoldable pub override_all : Config F → Config F
  override_all c = record {
    logger = override_logger c.logger;
    dht = override_dht c.dht;
    node = override_node c.node;
    tracing = override_tracing c.tracing;
    cache = override_cache c.cache;
  }

  -- None is the error of LoadYAML.
  unfoldable pub load_config : Float64 F → Option (Config F) → Option (Config F)
  load_config float none = none
  load_config float (some file) = some (apply_defaults float (override_all file))
