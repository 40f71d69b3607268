-- ===== src/Config.antt =====
-- internal/node/config/config.go: the configuration of a node, its defaults and ValidateConfig, with
-- the structures of internal/configloader/common.go. Durations and Go's int and int64 are integers of
-- any size; a float64 is a value of a type F with the tests that the code makes of it. An error is one
-- of a list; its text is not modelled. Config/Load is LoadConfig.
pub mod Laws
pub mod Load
use koorde_dht_web_cache.Prelude.{
  ℕ, zero, suc, ◌+◌, ◌-◌, ◌%◌, ◌^◌, Bool, true, false, not, ◌&&◌, ◌||◌, List, [], ◌∷◌, ◌++◌, ltb,
  leb, ◌==◌, if◌then◌else◌, Bytes, bytes_eq, codes, ℤ, pos, negsuc, below, length,
}
use koorde_dht_web_cache.Domain.Digits.{trailing_zeros}

pub record TracingConfig : Type 0 where
  pub enabled : Bool
  pub exporter : Bytes
  pub endpoint : Bytes

pub record DeBruijnConfig : Type 0 where
  pub degree : ℤ
  pub fix_interval : ℤ

pub record FaultToleranceConfig : Type 0 where
  pub successor_list_size : ℤ
  pub stabilization_interval : ℤ
  pub failure_timeout : ℤ

pub record Route53Config : Type 0 where
  pub hosted_zone_id : Bytes
  pub domain_suffix : Bytes
  pub ttl : ℤ
  pub region : Bytes
  pub endpoint : Bytes

pub record BootstrapConfig : Type 0 where
  pub mode : Bytes
  pub peers : List Bytes
  pub route53 : Route53Config

pub record DhtConfig : Type 0 where
  pub protocol : Bytes
  pub id_bits : ℤ
  pub mode : Bytes
  pub de_bruijn : DeBruijnConfig
  pub fault_tolerance : FaultToleranceConfig
  pub storage_fix_interval : ℤ
  pub bootstrap : BootstrapConfig

pub record NodeConfig : Type 0 where
  pub id : Bytes
  pub bind : Bytes
  pub host : Bytes
  pub port : ℤ

pub record FileLoggerConfig : Type 0 where
  pub path : Bytes
  pub max_size : ℤ
  pub max_backups : ℤ
  pub max_age : ℤ
  pub compress : Bool

pub record LoggerConfig : Type 0 where
  pub active : Bool
  pub level : Bytes
  pub encoding : Bytes
  pub mode : Bytes
  pub file : FileLoggerConfig

pub record CacheConfig (F : Type 0) : Type 0 where
  pub enabled : Bool
  pub http_port : ℤ
  pub capacity_mb : ℤ
  pub default_ttl : ℤ
  pub hotspot_threshold : F
  pub hotspot_decay_rate : F

pub record Config (F : Type 0) : Type 0 where
  pub logger : LoggerConfig
  pub dht : DhtConfig
  pub node : NodeConfig
  pub tracing : TracingConfig
  pub cache : CacheConfig F

-- What the code asks of a float64, and the two numbers that it writes.
pub record Float64 (F : Type 0) : Type 0 where
  pub is_zero : F → Bool
  pub at_most_zero : F → Bool
  pub at_least_one : F → Bool
  pub thousand : F
  pub sixty_five_percent : F

pub data ConfigError : Type 0 where
  logger_level logger_encoding logger_mode logger_path logger_values : ConfigError
  id_bits dht_mode degree fix_interval successor_list_size : ConfigError
  stabilization_interval failure_timeout degree_too_large bits_not_multiple : ConfigError
  zone_id domain_suffix ttl region peer_address bootstrap_mode : ConfigError
  node_port exporter endpoint : ConfigError
  http_port capacity default_ttl hotspot_threshold hotspot_decay_rate : ConfigError

-- The errors that ValidateConfig collects, or a panic.
pub data Validation : Type 0 where
  errors : List ConfigError → Validation
  panics : Validation

-- `if b { errs = append(errs, e) }`
abbrev pub when : Bool → ConfigError → List ConfigError
when b e = if b then e ∷ [] else []

abbrev pub is_one_of : Bytes → List Bytes → Bool
is_one_of s [] = false
is_one_of s (t ∷ ts) = bytes_eq s t || is_one_of s ts

unfoldable pub is_empty : Bytes → Bool
is_empty s = bytes_eq s []

-- `x > n`
abbrev pub above : ℤ → ℕ → Bool
above (pos x) n = ltb n x
above (negsuc x) n = false

-- `a > b`
abbrev pub greater : ℤ → ℤ → Bool
greater (pos a) (pos b) = ltb b a
greater (pos a) (negsuc b) = true
greater (negsuc a) (pos b) = false
greater (negsuc a) (negsuc b) = ltb a b

-- `uint(x)`, on 64 bits.
unfoldable pub to_uint : ℤ → ℕ
to_uint (pos n) = n % 2 ^ 64
to_uint (negsuc n) = (2 ^ 64 - 1 - n % 2 ^ 64) % 2 ^ 64

-- The number without its sign: Go's remainder is 0 for x exactly when it is for that.
abbrev pub magnitude : ℤ → ℕ
magnitude (pos n) = n
magnitude (negsuc n) = suc n

unfoldable pub logger_errors : LoggerConfig → List ConfigError
logger_errors c =
    when
      (not (is_one_of c.level (codes "debug" ∷ codes "info" ∷ codes "warn" ∷ codes "error" ∷ [])))
      logger_level
    ++ when (not (is_one_of c.encoding (codes "console" ∷ codes "json" ∷ []))) logger_encoding
    ++ (if bytes_eq c.mode (codes "stdout")
        then []
        else (if bytes_eq c.mode (codes "file")
            then when (is_empty c.file.path) logger_path
              ++ when
                  (below c.file.max_size 0 || below c.file.max_backups 0 || below c.file.max_age 0)
                  logger_values
            else logger_mode ∷ []))

-- `cfg.DHT.IDBits%bits.TrailingZeros(...) != 0`, where the divisor is not 0.
unfoldable pub dht_errors : DhtConfig → List ConfigError
dht_errors c =
    when (below c.id_bits 1) id_bits
    ++ when (not (is_one_of c.mode (codes "public" ∷ codes "private" ∷ []))) dht_mode
    ++ when (below c.de_bruijn.degree 1) degree
    ++ when (below c.de_bruijn.fix_interval 1) fix_interval
    ++ when (below c.fault_tolerance.successor_list_size 1) successor_list_size
    ++ when (below c.fault_tolerance.stabilization_interval 1) stabilization_interval
    ++ when (below c.fault_tolerance.failure_timeout 1) failure_timeout
    ++ when (greater c.de_bruijn.degree c.fault_tolerance.successor_list_size) degree_too_large
    ++ when (not (magnitude c.id_bits % trailing_zeros (to_uint c.de_bruijn.degree) == 0))
        bits_not_multiple

-- `split_fails` says of an address whether net.SplitHostPort returns an error.
unfoldable pub peer_errors : (Bytes → Bool) → List Bytes → List ConfigError
peer_errors split_fails [] = []
peer_errors split_fails (p ∷ ps) = when (split_fails p) peer_address ++ peer_errors split_fails ps

unfoldable pub bootstrap_errors : (Bytes → Bool) → BootstrapConfig → List ConfigError
bootstrap_errors split_fails b =
    if bytes_eq b.mode (codes "route53")
    then when (is_empty b.route53.hosted_zone_id) zone_id
      ++ when (is_empty b.route53.domain_suffix) domain_suffix
      ++ when (below b.route53.ttl 1) ttl
      ++ when (is_empty b.route53.region) region
    else (if bytes_eq b.mode (codes "static")
        then peer_errors split_fails b.peers
        else bootstrap_mode ∷ [])

unfoldable pub tracing_errors : TracingConfig → List ConfigError
tracing_errors c =
    if c.enabled
    then when (not (is_one_of c.exporter (codes "stdout" ∷ codes "jaeger" ∷ codes "otlp" ∷ [])))
        exporter
      ++ when (is_empty c.endpoint) endpoint
    else []

module _ {F : Type 0} (float : Float64 F) where
  unfoldable pub cache_errors : CacheConfig F → List ConfigError
  cache_errors c =
      if c.enabled
      then when (below c.http_port 1024 || above c.http_port 65535) http_port
        ++ when (below c.capacity_mb 1) capacity
        ++ when (below c.default_ttl 1) default_ttl
        ++ when (float.at_most_zero c.hotspot_threshold) hotspot_threshold
        ++ when (float.at_most_zero c.hotspot_decay_rate || float.at_least_one c.hotspot_decay_rate)
            hotspot_decay_rate
      else []

  -- A remainder by 0 panics; the checks before it only collect.
  unfoldable pub validate_config : (Bytes → Bool) → Config F → Validation
  validate_config split_fails c =
      if trailing_zeros (to_uint c.dht.de_bruijn.degree) == 0
      then panics
      else errors (
          logger_errors c.logger
          ++ dht_errors c.dht
          ++ bootstrap_errors split_fails c.dht.bootstrap
          ++ when (below c.node.port 0 || above c.node.port 65535) node_port
          ++ tracing_errors c.tracing
          ++ cache_errors c.cache)

  abbrev or_default : ℤ → ℕ → ℤ
  or_default (pos zero) d = pos d
  or_default (pos (suc n)) d = pos (suc n)
  or_default (negsuc n) d = negsuc n

  -- The defaults that LoadConfig puts in place of zero values.
  unfoldable pub apply_defaults : Config F → Config F
  apply_defaults c = record c {
    cache = record c.cache {
      http_port = or_default c.cache.http_port 8080;
      capacity_mb = or_default c.cache.capacity_mb 1024;
      default_ttl = or_default c.cache.default_ttl 3600;
      hotspot_threshold =
          if float.is_zero c.cache.hotspot_threshold
          then float.thousand
          else c.cache.hotspot_threshold;
      hotspot_decay_rate =
          if float.is_zero c.cache.hotspot_decay_rate
          then float.sixty_five_percent
          else c.cache.hotspot_decay_rate;
    };
    node = record c.node { bind = if is_empty c.node.bind then codes "0.0.0.0" else c.node.bind };
    dht = record c.dht {
      protocol = if is_empty c.dht.protocol then codes "koorde" else c.dht.protocol;
    };
  }
