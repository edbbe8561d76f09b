-- ===== src/Config/Drivers.antt =====
-- internal/config/broker.go, driver_postgres.go: the drivers' settings once they have been read.
pub mod Kafka
pub mod Rabbitmq
pub mod Postgres
use Prim.Native.String.{◌++◌ as cat}
use go_outbox.Base.{ℕ, Bool, List, String}
use go_outbox.Base.Int.{ℤ}
use go_outbox.Broker.{Naming}
use go_outbox.Config.Environment.{Library, joined, redact_dsn}

pub data DriverType : Type 0 where
  driver_rabbitmq driver_kafka driver_postgres : DriverType

pub record RabbitmqDriver : Type 0 where
  pub name : String
  pub naming : Naming
  pub dsn : String
  pub channels : ℤ
  pub declare : Bool
  pub mandatory : Bool
  pub publish_timeout : ℤ
  pub reconnect_delay : ℤ

pub record KafkaDriver : Type 0 where
  pub name : String
  pub naming : Naming
  pub brokers : List String
  pub security_protocol : String
  pub sasl_mechanism : String
  pub sasl_username : String
  pub sasl_password : String
  pub ssl_ca_pem : List ℕ
  pub ssl_cert_pem : List ℕ
  pub ssl_key_pem : List ℕ
  pub compression : String
  pub required_acks : String
  pub max_attempts : ℤ
  pub write_timeout : ℤ
  pub allow_auto_topic_creation : Bool

pub record PostgresDriver : Type 0 where
  pub name : String
  pub naming : Naming
  pub dsn : String
  pub same_database : Bool
  pub schema : String
  pub table : String
  pub write_timeout : ℤ
  pub max_conns : ℤ

-- The implementations of the interface `DriverConfig`.
pub data DriverConfig : Type 0 where
  rabbitmq : RabbitmqDriver → DriverConfig
  kafka : KafkaDriver → DriverConfig
  postgres : PostgresDriver → DriverConfig

unfoldable pub driver_name : DriverConfig → String
driver_name (rabbitmq d) = d.name
driver_name (kafka d) = d.name
driver_name (postgres d) = d.name

unfoldable pub driver_type : DriverConfig → DriverType
driver_type (rabbitmq d) = driver_rabbitmq
driver_type (kafka d) = driver_kafka
driver_type (postgres d) = driver_postgres

unfoldable pub driver_naming : DriverConfig → Naming
driver_naming (rabbitmq d) = d.naming
driver_naming (kafka d) = d.naming
driver_naming (postgres d) = d.naming

unfoldable pub endpoint : Library → DriverConfig → String
endpoint lib (rabbitmq d) = redact_dsn lib d.dsn
endpoint lib (kafka d) = joined "," d.brokers
endpoint lib (postgres d) = cat (redact_dsn lib d.dsn) (cat "#" (cat d.schema (cat "." d.table)))
