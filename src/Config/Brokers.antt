-- ===== src/Config/Brokers.antt =====
-- internal/config/broker.go: the routing table, assembled from the environment.
--
-- A problem is kept without the values that the source formats into it.
pub mod Streams
pub mod Served
pub mod Complete
use Prim.Native.String.{◌++◌ as cat}
use go_outbox.Base.{
  Bool, true, false, not, ◌&&◌, ◌||◌, Option, none, some, List, [], ◌∷◌, ◌++◌, String, str_eq,
  if◌then◌else◌, any, map, lookup, assign, is_some, length, ◌==◌,
}
use go_outbox.Core.Errors.{Err, leaf, text, wrap, join, Result, ok, err}
use go_outbox.Broker.{Naming}
use go_outbox.Config.{BrokerConfig}
use go_outbox.Config.Settings.{DbConfig, StreamConfig}
use go_outbox.Config.Environment.{
  Source, Library, failed, contains, ◌>>=◌, refuse, value_of, parse_list, or_default,
}
use go_outbox.Config.Drivers.{
  DriverType, driver_rabbitmq, driver_kafka, driver_postgres, DriverConfig, rabbitmq, kafka,
  postgres,
}
use go_outbox.Config.Drivers.Rabbitmq.{build_rabbit_driver}
use go_outbox.Config.Drivers.Kafka.{build_kafka_driver}
use go_outbox.Config.Drivers.Postgres.{build_postgres_driver}

-- The keys that are understood in a driver's namespace.
abbrev common_driver_keys : List String
common_driver_keys = "TYPE" ∷ "PREFIX" ∷ "PREFIX_SEP" ∷ "VERSION_SEP" ∷ []

abbrev rabbit_driver_keys : List String
rabbit_driver_keys =
    "DSN" ∷ "CHANNELS" ∷ "DECLARE" ∷ "MANDATORY" ∷ "PUBLISH_TIMEOUT" ∷ "RECONNECT_DELAY" ∷ []

abbrev postgres_driver_keys : List String
postgres_driver_keys = "DSN" ∷ "SCHEMA" ∷ "TABLE" ∷ "WRITE_TIMEOUT" ∷ "MAX_CONNS" ∷ []

abbrev kafka_driver_keys : List String
kafka_driver_keys =
    "BROKERS" ∷ "SECURITY_PROTOCOL" ∷ "SASL_MECHANISM" ∷ "SASL_USERNAME" ∷ "SASL_PASSWORD"
    ∷ "SSL_CA_PEM_B64" ∷ "SSL_CERT_PEM_B64" ∷ "SSL_KEY_PEM_B64" ∷ "COMPRESSION" ∷ "REQUIRED_ACKS"
    ∷ "MAX_ATTEMPTS" ∷ "WRITE_TIMEOUT" ∷ "ALLOW_AUTO_TOPIC_CREATION" ∷ []

unfoldable pub known_keys : DriverType → List String
known_keys driver_rabbitmq = common_driver_keys ++ rabbit_driver_keys
known_keys driver_kafka = common_driver_keys ++ kafka_driver_keys
known_keys driver_postgres = common_driver_keys ++ postgres_driver_keys

unfoldable pub parse_driver_type : String → Result DriverType
unfolding contains
parse_driver_type s =
    if contains ("rmq" ∷ "rabbit" ∷ "rabbitmq" ∷ "amqp" ∷ []) s
    then ok driver_rabbitmq
    else if str_eq s "kafka"
    then ok driver_kafka
    else if contains ("postgres" ∷ "postgresql" ∷ "pg" ∷ "inbox" ∷ []) s
    then ok driver_postgres
    else failed "unsupported driver type"

-- `errors.Join`, of at least one error
unfoldable pub join_all : Err → List Err → Err
join_all e [] = e
join_all e (f ∷ rest) = join e (join_all f rest)

abbrev default_stream : String
default_stream = "local"

module _ (lib : Library) where
  unfoldable pub env_token : String → String
  env_token name = lib.upper (lib.replace_all (lib.trim name) "-" "_")

  unfoldable pub driver_prefix : String → String
  unfolding env_token
  driver_prefix name = cat "OUTBOX_DRIVER_" (cat (env_token name) "_")

  abbrev is_empty : List String → Bool
  is_empty [] = true
  is_empty (s ∷ rest) = false

  -- The names in `OUTBOX_STREAMS`, or the default.
  unfoldable pub stream_names : Source → List String
  unfolding value_of parse_list
  stream_names src =
      let names = parse_list lib (value_of src "OUTBOX_STREAMS") in
      if is_empty names then default_stream ∷ [] else names

  -- The driver that the environment names for a stream.
  unfoldable pub driver_of : Source → String → String
  unfolding value_of env_token
  driver_of src stream =
      let key = cat "OUTBOX_STREAM_" (cat (env_token stream) "_DRIVER") in
      lib.lower (lib.trim (value_of src key))

  unfoldable pub stream_of : Source → String → StreamConfig
  stream_of src stream = record { name = stream; driver = driver_of src stream }

  abbrev pub with_driver : String → List String → List String
  with_driver d names = if contains names d then names else names ++ d ∷ []

  -- The loop over the streams: the streams, and the names of their drivers.
  unfoldable pub add_streams :
      Source
      → List String
      → List (String × StreamConfig)
      → List String
      → Result (List (String × StreamConfig) × List String)
  unfolding stream_of driver_of
  add_streams src [] streams drivers = ok (streams, drivers)
  add_streams src (name ∷ rest) streams drivers =
      let stream = lib.lower name in
      let driver = driver_of src stream in
      refuse (str_eq driver "") "the driver of a stream is not set" (
        add_streams src rest (assign stream (stream_of src stream) streams)
          (with_driver driver drivers))

  -- `rejectCollidingNames`, from the names seen so far.
  unfoldable pub reject_colliding_names : List (String × String) → List String → Result (Unit {0})
  reject_colliding_names seen [] = ok tt
  reject_colliding_names seen (name ∷ rest) =
      refuse (is_some (lookup (env_token name) seen)) "two drivers read the same settings"
        (reject_colliding_names (assign (env_token name) name seen) rest)

  unfoldable pub belongs_to_other_driver : String → String → List String → Bool
  unfolding driver_prefix
  belongs_to_other_driver key self [] = false
  belongs_to_other_driver key self (other ∷ rest) =
      not (str_eq other self || lib.shorter_or_equal other self)
        && lib.has_prefix key (driver_prefix other)
      || belongs_to_other_driver key self rest

  -- Whether the loop of `rejectUnknownKeys` notes a key.
  unfoldable pub is_unknown : String → String → List String → List String → String → Bool
  unfolding belongs_to_other_driver
  is_unknown ns name all_names known key = elim (lib.cut_prefix key ns) [
    | none ↦ false
    | some suffix ↦
        not
          (str_eq suffix "" || contains known suffix || belongs_to_other_driver key name all_names)
  ]

  unfoldable pub reject_unknown_keys :
      Source → String → String → List String → List String → Result (Unit {0})
  unfolding is_unknown
  reject_unknown_keys src ns name all_names known =
      refuse (any (λ (key, v). is_unknown ns name all_names known key) src.all) "unknown settings"
        (ok tt)

  -- `get` of `loadDriver`
  abbrev pub getter : Source → String → String → String
  getter src name key = lib.trim (value_of src (cat (driver_prefix name) key))

  abbrev pub naming_of : (String → String) → String → String → Naming
  naming_of get prefix_sep version_sep = record {
    prefix = get "PREFIX";
    prefix_sep = or_default (get "PREFIX_SEP") prefix_sep;
    version_sep = or_default (get "VERSION_SEP") version_sep;
  }

  abbrev tagged {ℓ} : {A : Type ℓ} → (A → DriverConfig) → Result A → Result DriverConfig
  tagged c (ok a) = ok (c a)
  tagged c (err e) = err e

  -- The switch at the end of `loadDriver`.
  unfoldable pub build_driver :
      DriverType → String → (String → String) → DbConfig → Result DriverConfig
  unfolding build_rabbit_driver build_kafka_driver build_postgres_driver or_default
  build_driver driver_rabbitmq name get db =
      tagged rabbitmq (build_rabbit_driver lib get name (naming_of get "_" "_"))
  build_driver driver_kafka name get db =
      tagged kafka (build_kafka_driver lib name (naming_of get "." ".") get)
  build_driver driver_postgres name get db =
      tagged postgres (build_postgres_driver lib get db name (naming_of get "." "."))

  unfoldable pub load_driver : Source → String → List String → DbConfig → Result DriverConfig
  unfolding driver_prefix value_of parse_driver_type reject_unknown_keys build_driver known_keys
  load_driver src name all_names db =
      let raw = lib.lower (getter src name "TYPE") in
      refuse (str_eq raw "") "TYPE is not set" (do
        type ← parse_driver_type raw
        checked ← reject_unknown_keys src (driver_prefix name) name all_names (known_keys type)
        build_driver type name (getter src name) db)

  abbrev Loads : Type 0
  Loads = List (String × DriverConfig) × List Err

  -- One turn of the loop over the drivers.
  abbrev pub noted : String → Result DriverConfig → Loads → Loads
  noted name (ok d) (drivers, errs) = (assign name d drivers, errs)
  noted name (err e) (drivers, errs) = (drivers, errs ++ wrap "driver" e ∷ [])

  unfoldable pub load_drivers : Source → List String → DbConfig → List String → Loads → Loads
  unfolding load_driver
  load_drivers src all_names db [] loads = loads
  load_drivers src all_names db (name ∷ rest) loads =
      load_drivers src all_names db rest (noted name (load_driver src name all_names db) loads)

  abbrev pub table_of : List (String × StreamConfig) → Loads → Result BrokerConfig
  table_of streams (drivers, []) = ok (record { streams = streams; drivers = drivers })
  table_of streams (drivers, e ∷ errs) = err (join_all e errs)

  abbrev pub with_streams :
      Source → DbConfig → List (String × StreamConfig) × List String → Result BrokerConfig
  with_streams src db (streams, names) = do
    distinct ← reject_colliding_names [] names
    table_of streams (load_drivers src names db names ([], []))

  -- `loadBrokers`
  unfoldable pub load_brokers : Source → DbConfig → Result BrokerConfig
  unfolding stream_names add_streams reject_colliding_names load_drivers join_all
  load_brokers src db = add_streams src (stream_names src) [] [] >>= with_streams src db

  -- `BrokerConfig.StreamNames`
  unfoldable pub sorted_names : BrokerConfig → List String
  sorted_names c = lib.sort_strings (map (λ (name, s). name) c.streams)

  -- `BrokerConfig.DriverFor`
  unfoldable pub configured_driver : BrokerConfig → String → Option String
  configured_driver c stream = elim (lookup (lib.lower stream) c.streams) [
    | some s ↦ some s.driver
    | none ↦ none
  ]
