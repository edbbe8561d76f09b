-- ===== src/App/Statistics.antt =====
-- internal/app/api.go: the answer to a request for statistics.
--
-- Parameters: Duration.String (`show`), the text of an error (`describe`), and the version and the
-- times of the process, which are left out of the answer.
use Prim.Native.String.{◌++◌ as cat}
use go_outbox.Base.{
  ℕ, Bool, not, Option, none, some, List, [], ◌∷◌, String, map, lookup, if◌then◌else◌,
}
use go_outbox.Base.Int.{ℤ, pos, ltb_ℤ}
use go_outbox.Core.Errors.{Err, Result, ok, err}
use go_outbox.Config.{Config, BrokerConfig}
use go_outbox.Config.Settings.{DispatchConfig, StreamConfig}
use go_outbox.Config.Environment.{Library}
use go_outbox.Config.Drivers.{
  DriverConfig, DriverType, driver_rabbitmq, driver_kafka, driver_postgres, driver_type,
  driver_naming, endpoint,
}
use go_outbox.Config.Brokers.{sorted_names}
use go_outbox.Store.Table.{Table}
use go_outbox.Store.Operations.{At, Stats, stats}

pub record StreamInfo : Type 0 where
  pub name : String
  pub driver : String

pub record DriverInfo : Type 0 where
  pub name : String
  pub type : String
  pub endpoint : String
  pub prefix : String
  pub prefix_sep : String
  pub version_sep : String

pub record DispatchSettings : Type 0 where
  pub batch_size : ℤ
  pub workers : ℤ
  pub poll_interval : String
  pub lease_ttl : String
  pub max_attempts : ℤ
  pub max_defer : String
  pub notify_mode : String

pub record StatsResponse : Type 0 where
  pub messages : Stats
  pub streams : List StreamInfo
  pub drivers : List DriverInfo
  pub settings : DispatchSettings

abbrev type_name : DriverType → String
type_name driver_rabbitmq = "rabbitmq"
type_name driver_kafka = "kafka"
type_name driver_postgres = "postgres"

-- A map's driver for a stream, the zero value where the stream is not there.
abbrev driver_name_of : Option StreamConfig → String
driver_name_of none = ""
driver_name_of (some s) = s.driver

module _ (lib : Library) where
  -- `streamsOf`
  unfoldable pub streams_of : BrokerConfig → List StreamInfo
  unfolding sorted_names
  streams_of c =
      map (λ n. record { name = n; driver = driver_name_of (lookup n c.streams) })
        (sorted_names lib c)

  abbrev driver_info : String → DriverConfig → DriverInfo
  driver_info name d = record {
    name = name;
    type = type_name (driver_type d);
    endpoint = endpoint lib d;
    prefix = (driver_naming d).prefix;
    prefix_sep = (driver_naming d).prefix_sep;
    version_sep = (driver_naming d).version_sep;
  }

  -- The loop of `driversOf`, over names that are those of the map.
  abbrev driver_infos : BrokerConfig → List String → List DriverInfo
  driver_infos c [] = []
  driver_infos c (n ∷ names) =
      let rest = driver_infos c names in
      elim (lookup n c.drivers) [ none ↦ rest | some d ↦ driver_info n d ∷ rest ]

  -- `driversOf`
  unfoldable pub drivers_of : BrokerConfig → List DriverInfo
  unfolding driver_type driver_naming endpoint
  drivers_of c = driver_infos c (lib.sort_strings (map (λ (name, d). name) c.drivers))

  module _ (show : ℤ → String) (describe : Err → String) where
    -- `settingsOf`
    unfoldable pub settings_of : DispatchConfig → DispatchSettings
    settings_of d = record {
      batch_size = d.batch_size;
      workers = d.workers;
      poll_interval = show d.poll_interval;
      lease_ttl = show d.lease_ttl;
      max_attempts = d.max_attempts;
      max_defer = if ltb_ℤ (pos 0) d.max_defer then show d.max_defer else "unbounded";
      notify_mode =
          if d.notify_enabled
          then "listen/notify with polling as reconciliation"
          else "polling only";
    }

    -- A status with a message, or the statistics.
    pub data Answer : Type 0 where
      refused : ℕ → String → Answer
      statistics : StatsResponse → Answer

    abbrev rendered : Config → Result Stats → Answer
    rendered c (err e) = refused 500 (cat "could not read message counts: " (describe e))
    rendered c (ok s) = statistics (record {
      messages = s;
      streams = streams_of c.brokers;
      drivers = drivers_of c.brokers;
      settings = settings_of c.dispatch;
    })

    -- `handleStats`
    unfoldable pub handle_stats : Bool → Config → At → Table → Answer
    unfolding streams_of drivers_of settings_of stats
    handle_stats has_store c at t =
        if not has_store
        then refused 503 "the store is not available yet"
        else rendered c (stats at t)
