-- ===== src/Config/Checked.antt =====
-- What a configuration that passes `validate` has.
use go_outbox.Base.{
  ◌≡◌, refl, Bool, true, false, not, ◌&&◌, Option, none, List, [], ◌∷◌, ◌++◌, String, is_some,
  arith, Bool-cases, ◌⊎◌, inl, inr, lookup,
}
use go_outbox.Base.Int.{pos, leb_ℤ, ltb_ℤ, ◌<ℤ◌, ◌≤ℤ◌}
use go_outbox.Core.Errors.{Err, ok}
use go_outbox.Core.Identifiers.{is_identifier}
use go_outbox.Broker.{Publisher, new_router, missing_driver}
use go_outbox.Config.{Config}
use go_outbox.Config.Settings.{DbConfig, DispatchConfig, JanitorConfig, DlqConfig, StreamConfig}
use go_outbox.Config.Drivers.{DriverConfig}
use go_outbox.Config.Validation.{
  add_if, validate_db, validate_limits, validate_times, validate_backoff, validate_dispatch,
  validate_janitor, validate_streams, validate_dlq, validate_brokers, problems, reported, validate,
  carried, validate_app, validate_log, validate_ports, validate_janitor_partitions, validate_otel,
  is_empty,
}
use go_outbox.Config.Requirements.{CheckedDispatch, Checked, routes}

append-nil {ℓ} : {A : Type ℓ} (xs ys : List A) → xs ++ ys ≡ [] → (xs ≡ []) × (ys ≡ [])
append-nil [] ys h = (refl, h)
append-nil (x ∷ xs) ys h = cc

add_if-nil : (b : Bool) (s : String) → add_if b s ≡ [] → b ≡ false
add_if-nil true s h = cc
add_if-nil false s h = refl

module _ (trim lower : String → String) (has_prefix contains : String → String → Bool)
    (describe : Err → String) where
  limits-passed :
      (d : DispatchConfig)
      → validate_limits trim lower has_prefix contains describe d ≡ []
      → (pos 0 <ℤ d.batch_size)
        × (pos 0 <ℤ d.workers)
        × (pos 0 <ℤ d.max_attempts)
        × (pos 0 ≤ℤ d.max_defer)
        × ((pos 0 <ℤ d.backoff_base) → (d.max_defer ≤ℤ pos 0) ⊎ (d.backoff_base ≤ℤ d.max_defer))
        × (pos 0 ≤ℤ d.pause_max)
  unfolding validate_limits
  limits-passed d h =
      (ground arith, ground arith, ground arith, ground arith, λ x. ground arith, ground arith)

  times-passed :
      (d : DispatchConfig)
      → validate_times trim lower has_prefix contains describe d ≡ []
      → (pos 0 <ℤ d.poll_interval)
        × (pos 0 <ℤ d.publish_timeout)
        × (d.publish_timeout <ℤ d.lease_ttl)
  unfolding validate_times
  times-passed d h = (ground arith, ground arith, ground arith)

  backoff-passed :
      (d : DispatchConfig)
      → validate_backoff trim lower has_prefix contains describe d ≡ []
      → (pos 0 <ℤ d.backoff_base)
        × ((d.backoff_max ≤ℤ pos 0) ⊎ (d.backoff_base ≤ℤ d.backoff_max))
        × ((d.notify_enabled ≡ false) ⊎ (is_identifier d.notify_channel ≡ true))
  unfolding validate_backoff
  backoff-passed d h = (ground arith, ground arith, ground arith)

  dispatch-passed :
      (d : DispatchConfig)
      → validate_dispatch trim lower has_prefix contains describe d ≡ []
      → CheckedDispatch d
  dispatch-passed d h =
      let (checks, backoffs) =
        append-nil
          (validate_limits trim lower has_prefix contains describe d
            ++ validate_times trim lower has_prefix contains describe d)
          (validate_backoff trim lower has_prefix contains describe d)
          (unfold validate_dispatch in h) in
      let (limits, times) =
        append-nil (validate_limits trim lower has_prefix contains describe d)
          (validate_times trim lower has_prefix contains describe d) checks in
      let (batch, workers, attempts, deferral, window, pause) = limits-passed d limits in
      let (poll, publish, lease) = times-passed d times in
      let (base, ceiling, channel) = backoff-passed d backoffs in
      record {
        batch = batch;
        workers = workers;
        attempts = attempts;
        deferral = deferral;
        window = window base;
        pause = (poll, pause);
        lease = (publish, lease);
        backoff = (base, ceiling);
        channel = channel;
      }

  db-passed :
      (d : DbConfig)
      → validate_db d ≡ []
      → ((is_identifier d.schema ≡ true) × (is_identifier d.table ≡ true))
        × (d.min_conns ≤ℤ d.max_conns)
  unfolding validate_db
  db-passed d h =
      let (h, f) = append-nil _ (add_if (leb_ℤ d.connect_timeout (pos 0)) _) h in
      let (h, e) = append-nil _ (add_if (ltb_ℤ d.max_conns d.min_conns) _) h in
      let (h, c) = append-nil _ (add_if (ltb_ℤ d.min_conns (pos 0)) _) h in
      let (h, c) = append-nil _ (add_if (ltb_ℤ d.max_conns (pos 1)) _) h in
      let (h, b) = append-nil _ (add_if (not (is_identifier d.table)) _) h in
      let (h, a) = append-nil _ (add_if (not (is_identifier d.schema)) _) h in
      ((ground (arith, a), ground (arith, b)), ground (arith, e))

  janitor-passed :
      (j : JanitorConfig)
      → validate_janitor trim lower has_prefix contains describe j ≡ []
      → (j.enabled ≡ false) ⊎ (j.retention ≤ℤ pos 0) ⊎ (pos 0 <ℤ j.retention_batch)
  unfolding validate_janitor
  janitor-passed j h = ground arith

  dlq-passed :
      (d : DlqConfig) (streams : List (String × StreamConfig))
      → validate_dlq trim lower has_prefix contains describe d streams ≡ []
      → (d.enabled ≡ false) ⊎ (is_some (lookup (lower d.stream) streams) ≡ true)
  unfolding validate_dlq
  dlq-passed d streams h = ground arith

  -- Every stream's driver is configured, so that the router finds it where every driver is built.
  streams-passed :
      (drivers : List (String × DriverConfig)) (pubs : List (String × Publisher))
      (streams : List (String × StreamConfig))
      → ((d : String) → is_some (lookup d drivers) ≡ true → is_some (lookup d pubs) ≡ true)
      → validate_streams trim lower has_prefix contains describe drivers streams ≡ []
      → missing_driver pubs (routes streams) ≡ false
  unfolding validate_streams
  streams-passed drivers pubs [] b h = refl
  streams-passed drivers pubs ((name, s) ∷ rest) b h =
      elim (Bool-cases (is_some (lookup s.driver drivers))) [
        | inl known ↦ rw (b s.driver known) (streams-passed drivers pubs rest b (rw known at h))
        | inr unknown ↦ cc (rw unknown at h)
      ]

  problems-none :
      (prior : Option Err) (c : Config)
      → validate trim lower has_prefix contains describe prior c ≡ none
      → problems trim lower has_prefix contains describe prior c ≡ []
  unfolding reported validate
  problems-none prior c h = by_list (problems trim lower has_prefix contains describe prior c) h
    where
      by_list :
          (es : List Err) → reported trim lower has_prefix contains describe es ≡ none → es ≡ []
      by_list [] h = refl
      by_list (e ∷ es) h = cc

  listed :
      (prior : Option Err) (c : Config)
      → problems trim lower has_prefix contains describe prior c ≡ []
      → carried trim lower has_prefix contains describe prior
          ++ validate_app trim lower has_prefix contains describe c.app
          ++ validate_log trim lower has_prefix contains describe c.log
          ++ validate_db c.db
          ++ validate_dispatch trim lower has_prefix contains describe c.dispatch
          ++ validate_janitor trim lower has_prefix contains describe c.janitor
          ++ validate_ports trim lower has_prefix contains describe c.http c.metrics
          ++ validate_janitor_partitions c.janitor
          ++ validate_otel trim lower has_prefix contains describe c.otel
          ++ validate_brokers trim lower has_prefix contains describe c (is_some prior)
        ≡ []
  listed prior c h = unfold problems in h

  brokers-passed :
      (c : Config) (brokers_failed : Bool)
      → validate_brokers trim lower has_prefix contains describe c brokers_failed ≡ []
      → (validate_dlq trim lower has_prefix contains describe c.dlq c.brokers.streams ≡ [])
        × (validate_streams trim lower has_prefix contains describe c.brokers.drivers
              c.brokers.streams
            ≡ [])
  brokers-passed c brokers_failed h =
      let (rest, dlq) =
        append-nil
          (add_if
              (is_empty trim lower has_prefix contains describe c.brokers.streams
                && not brokers_failed)
              "at least one stream must be configured through OUTBOX_STREAMS"
            ++ validate_streams trim lower has_prefix contains describe c.brokers.drivers
                c.brokers.streams)
          (validate_dlq trim lower has_prefix contains describe c.dlq c.brokers.streams)
          (unfold validate_brokers in h) in
      let (some_stream, streams) =
        append-nil _
          (validate_streams trim lower has_prefix contains describe c.brokers.drivers
            c.brokers.streams)
          rest in
      (dlq, streams)

  -- A configuration that passes `validate` has, for its pipelines, a positive batch size,
  -- number of workers, attempts, polling interval and first backoff, a ceiling on the backoff
  -- and a deferral window that are off or no shorter than it, a deferral window and a longest
  -- pause that are not negative, and a publish timeout shorter than the lease; identifiers for
  -- the schema, for the table and, where notifications are on, for the channel; no more minimal
  -- than maximal connections; chunks of at least one row for a janitor that sweeps; and a
  -- stream for its dead letters where they are on. Once a publisher is built for each
  -- configured driver, the router can be built, since every stream's driver is among them.
  pub validate-Checked :
      (prior : Option Err) (c : Config) (pubs : List (String × Publisher))
      → validate trim lower has_prefix contains describe prior c ≡ none
      → ((d : String)
          → is_some (lookup d c.brokers.drivers) ≡ true
          → is_some (lookup d pubs) ≡ true)
      → Checked lower c
        × (new_router (routes c.brokers.streams) pubs
            ≡ ok (record { streams = routes c.brokers.streams; publishers = pubs }))
  validate-Checked prior c pubs h built =
      let (h, brokers) =
        append-nil _ (validate_brokers trim lower has_prefix contains describe c (is_some prior))
          (listed prior c (problems-none prior c h)) in
      let (h, otel) =
        append-nil _ (validate_otel trim lower has_prefix contains describe c.otel) h in
      let (h, ahead) = append-nil _ (validate_janitor_partitions c.janitor) h in
      let (h, ports) =
        append-nil _ (validate_ports trim lower has_prefix contains describe c.http c.metrics) h in
      let (h, janitor) =
        append-nil _ (validate_janitor trim lower has_prefix contains describe c.janitor) h in
      let (h, dispatch) =
        append-nil _ (validate_dispatch trim lower has_prefix contains describe c.dispatch) h in
      let (h, db) = append-nil _ (validate_db c.db) h in
      let (dlq, streams) = brokers-passed c (is_some prior) brokers in
      let (names, connections) = db-passed c.db db in
      (
        record {
          dispatch = dispatch-passed c.dispatch dispatch;
          names = names;
          connections = connections;
          chunks = janitor-passed c.janitor janitor;
          dead_letters = dlq-passed c.dlq c.brokers.streams dlq;
        },
        unfold new_router in
            rw (streams-passed c.brokers.drivers pubs c.brokers.streams built streams) refl,
      )
