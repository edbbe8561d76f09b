-- ===== src/Config.antt =====
-- internal/config: the whole configuration, with the routing table.
--
-- A Go map is an association list.
pub mod Settings
pub mod Environment
pub mod Drivers
pub mod Brokers
pub mod Validation
pub mod Requirements
pub mod Checked
pub mod Unchecked
pub mod Loading
use go_outbox.Base.{String, List}
use go_outbox.Config.Settings.{
  AppConfig, LogConfig, DbConfig, DispatchConfig, JanitorConfig, HttpConfig, MetricsConfig,
  OtelConfig, DlqConfig, StreamConfig,
}
use go_outbox.Config.Drivers.{DriverConfig}

pub record BrokerConfig : Type 0 where
  pub streams : List (String × StreamConfig)
  pub drivers : List (String × DriverConfig)

pub record Config : Type 0 where
  pub app : AppConfig
  pub log : LogConfig
  pub db : DbConfig
  pub dispatch : DispatchConfig
  pub janitor : JanitorConfig
  pub http : HttpConfig
  pub metrics : MetricsConfig
  pub otel : OtelConfig
  pub dlq : DlqConfig
  pub brokers : BrokerConfig
