-- ===== src/Config/Validation.antt =====
-- internal/config/validate.go: the problems of a configuration, all of them at once.
--
-- Parameters: strings.TrimSpace (`trim`), ToLower (`lower`), HasPrefix and Contains, and the text of
-- an error (`describe`). A problem is kept without the values that the source formats into it.
use Prim.Native.String.{◌++◌ as cat}
use go_outbox.Base.{
  Bool, true, false, not, ◌&&◌, ◌||◌, Option, none, some, List, [], ◌∷◌, ◌++◌, String, str_eq,
  if◌then◌else◌, is_some, any, lookup,
}
use go_outbox.Base.Int.{ℤ, pos, leb_ℤ, ltb_ℤ}
use go_outbox.Core.Errors.{Err, leaf, wrap, text}
use go_outbox.Core.Identifiers.{is_identifier}
use go_outbox.Config.{Config}
use go_outbox.Config.Settings.{
  AppConfig, LogConfig, DbConfig, DispatchConfig, JanitorConfig, HttpConfig, MetricsConfig,
  OtelConfig, DlqConfig, StreamConfig,
}
use go_outbox.Config.Drivers.{DriverConfig}

-- `if … { add("…") }`
abbrev pub add_if : Bool → String → List Err
add_if b problem = if b then leaf (text problem) ∷ [] else []

abbrev no_port : ℤ → Bool
no_port p = ltb_ℤ p (pos 1) || ltb_ℤ (pos 65535) p

-- One million parts are the whole.
abbrev no_fraction : ℤ → Bool
no_fraction f = ltb_ℤ f (pos 0) || ltb_ℤ (pos 1000000) f

unfoldable pub validate_janitor_partitions : JanitorConfig → List Err
validate_janitor_partitions j =
    add_if (ltb_ℤ j.partition_ahead (pos 0)) "OUTBOX_JANITOR_PARTITION_AHEAD must not be negative"

abbrev log_levels : List String
log_levels = "trace" ∷ "debug" ∷ "info" ∷ "warn" ∷ "error" ∷ "fatal" ∷ "panic" ∷ []

-- What a connection that is assembled from its parts needs.
unfoldable validate_parts : DbConfig → List Err
validate_parts d =
    if str_eq d.dsn ""
    then add_if (str_eq d.user "") "either OUTBOX_DB_DSN or OUTBOX_DB_USER must be set"
      ++ add_if (str_eq d.name "") "either OUTBOX_DB_DSN or OUTBOX_DB_NAME must be set"
      ++ add_if (no_port d.port) "OUTBOX_DB_PORT must be between 1 and 65535"
    else []

unfoldable pub validate_db : DbConfig → List Err
unfolding validate_parts is_identifier
validate_db d =
    validate_parts d
    ++ add_if (not (is_identifier d.schema)) "OUTBOX_DB_SCHEMA is not a valid identifier"
    ++ add_if (not (is_identifier d.table)) "OUTBOX_DB_TABLE is not a valid identifier"
    ++ add_if (ltb_ℤ d.max_conns (pos 1)) "OUTBOX_DB_MAX_CONNS must be at least 1"
    ++ add_if (ltb_ℤ d.min_conns (pos 0)) "OUTBOX_DB_MIN_CONNS must not be negative"
    ++ add_if (ltb_ℤ d.max_conns d.min_conns)
        "OUTBOX_DB_MIN_CONNS must not exceed OUTBOX_DB_MAX_CONNS"
    ++ add_if (leb_ℤ d.connect_timeout (pos 0)) "OUTBOX_DB_CONNECT_TIMEOUT must be positive"

module _ (trim lower : String → String) (has_prefix contains : String → String → Bool)
    (describe : Err → String) where
  unfoldable pub validate_otel : OtelConfig → List Err
  validate_otel o =
      add_if (no_fraction o.sampling) "OUTBOX_OTEL_SAMPLING must be between 0 and 1"
      ++ add_if (contains o.endpoint "://")
          "OUTBOX_OTEL_ENDPOINT must be host:port without a scheme"

  unfoldable pub validate_app : AppConfig → List Err
  validate_app a =
      add_if (str_eq (trim a.name) "") "OUTBOX_APP_NAME must not be empty"
      ++ add_if (leb_ℤ a.shutdown_timeout (pos 0)) "OUTBOX_APP_SHUTDOWN_TIMEOUT must be positive"

  unfoldable pub validate_log : LogConfig → List Err
  validate_log l =
      add_if (not (any (str_eq (lower l.level)) log_levels)) "OUTBOX_LOG_LEVEL is not a level"
      ++ add_if
          (not (str_eq (lower l.format) "console")
            && not (str_eq (lower l.format) "text")
            && not (str_eq (lower l.format) "json"))
          "OUTBOX_LOG_FORMAT is not one of console, text, json"

  unfoldable pub validate_limits : DispatchConfig → List Err
  validate_limits d =
      add_if (ltb_ℤ d.batch_size (pos 1)) "OUTBOX_DISPATCH_BATCH_SIZE must be at least 1"
      ++ add_if (ltb_ℤ d.workers (pos 1)) "OUTBOX_DISPATCH_WORKERS must be at least 1"
      ++ add_if (ltb_ℤ d.max_attempts (pos 1)) "OUTBOX_DISPATCH_MAX_ATTEMPTS must be at least 1"
      ++ add_if (ltb_ℤ d.max_defer (pos 0)) "OUTBOX_DISPATCH_MAX_DEFER must not be negative"
      ++ add_if
          (ltb_ℤ (pos 0) d.max_defer
            && ltb_ℤ (pos 0) d.backoff_base
            && ltb_ℤ d.max_defer d.backoff_base)
          "OUTBOX_DISPATCH_MAX_DEFER must not be below OUTBOX_DISPATCH_BACKOFF_BASE"
      ++ add_if (ltb_ℤ d.pause_max (pos 0)) "OUTBOX_DISPATCH_PAUSE_MAX must not be negative"

  unfoldable pub validate_times : DispatchConfig → List Err
  validate_times d =
      add_if (leb_ℤ d.poll_interval (pos 0)) "OUTBOX_DISPATCH_POLL_INTERVAL must be positive"
      ++ add_if (leb_ℤ d.lease_ttl (pos 0)) "OUTBOX_DISPATCH_LEASE_TTL must be positive"
      ++ add_if (leb_ℤ d.publish_timeout (pos 0)) "OUTBOX_DISPATCH_PUBLISH_TIMEOUT must be positive"
      ++ add_if
          (ltb_ℤ (pos 0) d.lease_ttl
            && ltb_ℤ (pos 0) d.publish_timeout
            && leb_ℤ d.lease_ttl d.publish_timeout)
          "OUTBOX_DISPATCH_LEASE_TTL must exceed OUTBOX_DISPATCH_PUBLISH_TIMEOUT"

  unfoldable pub validate_backoff : DispatchConfig → List Err
  unfolding is_identifier
  validate_backoff d =
      add_if (leb_ℤ d.backoff_base (pos 0)) "OUTBOX_DISPATCH_BACKOFF_BASE must be positive"
      ++ add_if (ltb_ℤ (pos 0) d.backoff_max && ltb_ℤ d.backoff_max d.backoff_base)
          "OUTBOX_DISPATCH_BACKOFF_MAX must not be below OUTBOX_DISPATCH_BACKOFF_BASE"
      ++ add_if (no_fraction d.backoff_jitter)
          "OUTBOX_DISPATCH_BACKOFF_JITTER must be between 0 and 1"
      ++ add_if (d.notify_enabled && str_eq (trim d.notify_channel) "")
          "OUTBOX_DISPATCH_NOTIFY_CHANNEL must not be empty when notifications are enabled"
      ++ add_if (d.notify_enabled && not (is_identifier d.notify_channel))
          "OUTBOX_DISPATCH_NOTIFY_CHANNEL is not a valid identifier"

  -- `validateDispatch`, in three runs of checks.
  unfoldable pub validate_dispatch : DispatchConfig → List Err
  unfolding validate_limits validate_times validate_backoff
  validate_dispatch d = validate_limits d ++ validate_times d ++ validate_backoff d

  unfoldable pub validate_janitor : JanitorConfig → List Err
  validate_janitor j =
      if not j.enabled
      then []
      else add_if (leb_ℤ j.reclaim_interval (pos 0))
          "OUTBOX_JANITOR_RECLAIM_INTERVAL must be positive"
        ++ add_if (leb_ℤ j.stats_interval (pos 0)) "OUTBOX_JANITOR_STATS_INTERVAL must be positive"
        ++ (if ltb_ℤ (pos 0) j.retention
            then add_if (leb_ℤ j.retention_interval (pos 0))
                "OUTBOX_JANITOR_RETENTION_INTERVAL must be positive"
              ++ add_if (ltb_ℤ j.retention_batch (pos 1))
                  "OUTBOX_JANITOR_RETENTION_BATCH must be at least 1"
            else [])

  unfoldable pub validate_ports : HttpConfig → MetricsConfig → List Err
  validate_ports h m =
      add_if (h.enabled && no_port h.port) "OUTBOX_HTTP_PORT must be between 1 and 65535"
      ++ (if m.enabled
          then add_if (no_port m.port) "OUTBOX_METRICS_PORT must be between 1 and 65535"
            ++ add_if (not (has_prefix m.path "/")) "OUTBOX_METRICS_PATH must start with /"
          else [])
      ++ add_if (h.enabled && m.enabled && leb_ℤ h.port m.port && leb_ℤ m.port h.port)
          "OUTBOX_HTTP_PORT and OUTBOX_METRICS_PORT must differ"

  -- The loop over the streams.
  unfoldable pub validate_streams :
      List (String × DriverConfig) → List (String × StreamConfig) → List Err
  validate_streams drivers [] = []
  validate_streams drivers ((name, s) ∷ rest) =
      add_if (not (is_some (lookup s.driver drivers)))
        "stream refers to a driver which is not configured"
      ++ validate_streams drivers rest

  unfoldable pub validate_dlq : DlqConfig → List (String × StreamConfig) → List Err
  validate_dlq d streams =
      if not d.enabled
      then []
      else (if str_eq d.stream ""
          then leaf (text "OUTBOX_DLQ_STREAM must be set when the dead-letter queue is enabled")
            ∷ []
          else add_if (not (is_some (lookup (lower d.stream) streams)))
              "OUTBOX_DLQ_STREAM is not among the configured streams")
        ++ add_if (str_eq (trim d.topic) "")
            "OUTBOX_DLQ_TOPIC must not be empty when the dead-letter queue is enabled"

  abbrev pub is_empty {ℓ} : {A : Type ℓ} → List A → Bool
  is_empty [] = true
  is_empty (a ∷ xs) = false

  unfoldable pub validate_brokers : Config → Bool → List Err
  unfolding validate_streams validate_dlq
  validate_brokers c brokers_failed =
      add_if (is_empty c.brokers.streams && not brokers_failed)
        "at least one stream must be configured through OUTBOX_STREAMS"
      ++ validate_streams c.brokers.drivers c.brokers.streams
      ++ validate_dlq c.dlq c.brokers.streams

  abbrev pub carried : Option Err → List Err
  carried none = []
  carried (some e) = wrap "broker configuration" e ∷ []

  -- The problems that `validate` collects, in order.
  unfoldable pub problems : Option Err → Config → List Err
  unfolding validate_app validate_log validate_db validate_dispatch validate_janitor validate_ports
      validate_janitor_partitions validate_otel validate_brokers
  problems prior c =
      carried prior
      ++ validate_app c.app
      ++ validate_log c.log
      ++ validate_db c.db
      ++ validate_dispatch c.dispatch
      ++ validate_janitor c.janitor
      ++ validate_ports c.http c.metrics
      ++ validate_janitor_partitions c.janitor
      ++ validate_otel c.otel
      ++ validate_brokers c (is_some prior)

  -- `joinErrors`
  unfoldable join_errors : String → List Err → String
  join_errors sep [] = ""
  join_errors sep (e ∷ []) = describe e
  join_errors sep (e ∷ f ∷ es) = cat (describe e) (cat sep (join_errors sep (f ∷ es)))

  unfoldable pub reported : List Err → Option Err
  unfolding join_errors
  reported [] = none
  reported (e ∷ es) =
      some (leaf (text (cat "invalid configuration:\n  - " (join_errors "\n  - " (e ∷ es)))))

  -- `validate`
  unfoldable pub validate : Option Err → Config → Option Err
  unfolding problems reported
  validate prior c = reported (problems prior c)

  -- `validateAdmin`
  unfoldable pub validate_admin : Config → Option Err
  unfolding validate_db reported
  validate_admin c = reported (validate_db c.db)
