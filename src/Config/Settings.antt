-- ===== src/Config/Settings.antt =====
-- internal/config/config.go: the settings of the components, as they are once they have been read.
--
-- Durations are nanoseconds, and a fraction is in parts per million. The connection's own settings
-- that nothing checks are left out.
use go_outbox.Base.{String, Bool}
use go_outbox.Base.Int.{ℤ}

pub record AppConfig : Type 0 where
  pub name : String
  pub instance : String
  pub shutdown_timeout : ℤ

pub record LogConfig : Type 0 where
  pub level : String
  pub format : String

pub record DbConfig : Type 0 where
  pub dsn : String
  pub host : String
  pub port : ℤ
  pub user : String
  pub password : String
  pub name : String
  pub ssl_mode : String
  pub schema : String
  pub table : String
  pub max_conns : ℤ
  pub min_conns : ℤ
  pub connect_timeout : ℤ

pub record DispatchConfig : Type 0 where
  pub poll_interval : ℤ
  pub batch_size : ℤ
  pub workers : ℤ
  pub lease_ttl : ℤ
  pub max_attempts : ℤ
  pub max_defer : ℤ
  pub backoff_base : ℤ
  pub backoff_max : ℤ
  pub backoff_jitter : ℤ
  pub pause_max : ℤ
  pub publish_timeout : ℤ
  pub write_back_timeout : ℤ
  pub notify_enabled : Bool
  pub notify_channel : String
  pub notify_debounce : ℤ
  pub notify_jitter : ℤ

pub record JanitorConfig : Type 0 where
  pub enabled : Bool
  pub reclaim_interval : ℤ
  pub stats_interval : ℤ
  pub partition_ahead : ℤ
  pub retention : ℤ
  pub retention_interval : ℤ
  pub retention_batch : ℤ

pub record HttpConfig : Type 0 where
  pub enabled : Bool
  pub port : ℤ

pub record MetricsConfig : Type 0 where
  pub enabled : Bool
  pub port : ℤ
  pub path : String

pub record OtelConfig : Type 0 where
  pub endpoint : String
  pub sampling : ℤ

pub record DlqConfig : Type 0 where
  pub enabled : Bool
  pub stream : String
  pub topic : String

pub record StreamConfig : Type 0 where
  pub name : String
  pub driver : String
