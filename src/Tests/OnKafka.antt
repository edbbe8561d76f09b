-- ===== src/Tests/OnKafka.antt =====
-- The theorems on the Kafka driver's set-up and records at concrete inputs.
use go_outbox.Base.{
  ℕ, ◌≡◌, refl, Bool, true, false, Option, none, some, List, [], ◌∷◌, String, str_eq, if◌then◌else◌,
  is_some, lookup, ◌⊎◌, get_elem?,
}
use go_outbox.Base.Int.{ℤ, pos}
use go_outbox.Core.{Message}
use go_outbox.Core.Errors.{Err, Result, ok}
use go_outbox.Broker.{Naming, resolve}
use go_outbox.Broker.Kafka.Records.{Record, records, entries, records-Identified}
use go_outbox.Broker.Kafka.Transport.{Algorithm, Writer, over_tls, require_all, uncompressed, new}
use go_outbox.Broker.Kafka.Configured.{acks_name, compression_name, new-Configured}
use go_outbox.Config.Drivers.{KafkaDriver}
use go_outbox.Config.Drivers.Kafka.{build_kafka_driver}
use go_outbox.Config.Environment.{refuse, ◌>>=◌, contains, or_default}
use go_outbox.Tests.OnConfig.{events}
use go_outbox.Tests.OnLoading.{library}

abbrev naming : Naming
naming = record { prefix = ""; prefix_sep = "."; version_sep = "." }

-- A row whose headers have a message_id of their own.
abbrev relabelled : Message
relabelled = record {
  id = 7;
  stream = "orders";
  topic = "paid";
  payload = 1 ∷ [];
  headers = ("message_id", "forged") ∷ ("trace", "t1") ∷ [];
  target = record { key = ""; exchange = ""; routing_key = ""; version = pos 0 };
  attempts = 0;
  created_at = 3;
}

abbrev same : String → String
same s = s

abbrev number : ℤ → String
number n = "1"

abbrev name_of : ℕ → String
name_of n = "id"

records-Identified_example :
    (r : Record) × (get_elem? (records name_of number same naming (relabelled ∷ [])) 0 ≡ some r)
    × (r.value ≡ 1 ∷ [])
    × (r.time ≡ 3)
    × (r.topic ≡ (resolve number same naming relabelled).topic)
    × (r.key ≡ (resolve number same naming relabelled).key)
    × (entries "message_id" r.headers ≡ 1)
    × (lookup "trace" r.headers ≡ some "t1")
records-Identified_example =
    records-Identified name_of number same naming (relabelled ∷ []) 0 relabelled "trace" refl

abbrev plain : String → String → String
plain user password = user

abbrev scram : Algorithm → String → String → Result String
scram a user password = ok user

abbrev usable : List ℕ → Bool
usable bytes = true

abbrev key_pair : List ℕ → List ℕ → Result String
key_pair cert key = ok "pair"

abbrev dial : String → Option Err
dial addr = none

abbrev secured : String → String
secured key =
    if str_eq key "BROKERS"
    then "broker:9093"
    else if str_eq key "SECURITY_PROTOCOL"
    then "SASL_SSL"
    else if str_eq key "SASL_MECHANISM"
    then "PLAIN"
    else if str_eq key "SASL_USERNAME"
    then "relay"
    else if str_eq key "SASL_PASSWORD"
    then "secret"
    else ""

abbrev secured_events : KafkaDriver
secured_events = record events {
  brokers = "broker:9093" ∷ [];
  security_protocol = "SASL_SSL";
  sasl_mechanism = "PLAIN";
  sasl_username = "relay";
  sasl_password = "secret";
}

abbrev secured_writer : Writer String String
secured_writer = record {
  brokers = "broker:9093" ∷ [];
  transport = record {
    tls = some (record { root_cas = none; certificate = none });
    sasl = some "relay";
  };
  required_acks = require_all;
  compression = uncompressed;
  max_attempts = pos 3;
  write_timeout = pos 15000000000;
  allow_auto_topic_creation = false;
}

new-Configured_example :
    (acks_name secured_writer.required_acks ≡ "all")
    × (compression_name secured_writer.compression ≡ "none")
    × (is_some secured_writer.transport.sasl ≡ library.has_prefix "SASL_SSL" "SASL")
    × ((over_tls library plain scram usable key_pair secured_events ≡ false)
        ⊎ (is_some secured_writer.transport.tls ≡ true))
unfolding build_kafka_driver new refuse ◌>>=◌ contains or_default
new-Configured_example =
    new-Configured library plain scram usable key_pair dial "events" naming secured secured_events
      secured_writer (refl, (refl, (refl, tt))) (refl, (refl, (refl, (refl, (refl, tt))))) refl refl
