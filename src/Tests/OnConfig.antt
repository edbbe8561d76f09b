-- ===== src/Tests/OnConfig.antt =====
-- The theorems on the configuration and the migrations at concrete inputs.
use go_outbox.Base.{
  arith, inl, ℕ, ◌≡◌, refl, Bool, true, false, Option, none, some, List, [], ◌∷◌, ◌++◌, String,
  is_some, All, map, lookup,
}
use go_outbox.Base.Int.{ℤ, pos}
use go_outbox.Core.Errors.{Err, Result, ok}
use go_outbox.Broker.{Publisher, new_router}
use go_outbox.Config.{Config}
use go_outbox.Config.Drivers.{KafkaDriver, kafka}
use go_outbox.Config.Validation.{validate}
use go_outbox.Config.Requirements.{Checked, routes}
use go_outbox.Config.Unchecked.{altered, validate-altered}
use go_outbox.Config.Checked.{validate-Checked}
use go_outbox.Store.Migrations.{
  Options, Record, Migration, Database, File, Answer, load, run, substitute,
}
use go_outbox.Store.Migrations.Records.{Recorded, missing}
use go_outbox.Store.Migrations.Runs.{run_complete}

abbrev hour : ℤ
hour = pos 3600000000000

abbrev second : ℤ
second = pos 1000000000

abbrev pub events : KafkaDriver
events = record {
  name = "events";
  naming = record { prefix = ""; prefix_sep = "."; version_sep = "." };
  brokers = "broker:9092" ∷ [];
  security_protocol = "";
  sasl_mechanism = "";
  sasl_username = "";
  sasl_password = "";
  ssl_ca_pem = [];
  ssl_cert_pem = [];
  ssl_key_pem = [];
  compression = "none";
  required_acks = "all";
  max_attempts = pos 3;
  write_timeout = pos 15000000000;
  allow_auto_topic_creation = false;
}

-- The defaults, with one stream.
abbrev pub settings : Config
settings = record {
  app = record { name = "outbox"; instance = "pod-1"; shutdown_timeout = second };
  log = record { level = "info"; format = "json" };
  db = record {
    dsn = "";
    host = "localhost";
    port = pos 5432;
    user = "outbox";
    password = "secret";
    name = "shop";
    ssl_mode = "disable";
    schema = "outbox";
    table = "messages";
    max_conns = pos 10;
    min_conns = pos 2;
    connect_timeout = second;
  };
  dispatch = record {
    poll_interval = second;
    batch_size = pos 200;
    workers = pos 8;
    lease_ttl = hour;
    max_attempts = pos 5;
    max_defer = pos 0;
    backoff_base = second;
    backoff_max = hour;
    backoff_jitter = pos 200000;
    pause_max = second;
    publish_timeout = second;
    write_back_timeout = second;
    notify_enabled = true;
    notify_channel = "outbox_new";
    notify_debounce = pos 50000000;
    notify_jitter = pos 100000000;
  };
  janitor = record {
    enabled = true;
    reclaim_interval = second;
    stats_interval = second;
    partition_ahead = pos 3;
    retention = hour;
    retention_interval = second;
    retention_batch = pos 5000;
  };
  http = record { enabled = true; port = pos 8085 };
  metrics = record { enabled = true; port = pos 9100; path = "/metrics" };
  otel = record { endpoint = ""; sampling = pos 1000000 };
  dlq = record { enabled = true; stream = "orders"; topic = "outbox.dead-letter" };
  brokers = record {
    streams = ("orders", record { name = "orders"; driver = "events" }) ∷ [];
    drivers = ("events", kafka events) ∷ [];
  };
}

abbrev quiet_settings : Config
quiet_settings = record settings { dispatch = record settings.dispatch { notify_enabled = false } }

abbrev pub publisher : Publisher
publisher = record { publish = λ ms. map (λ m. none) ms; health_check = none; close = none }

abbrev same_text : String → String
same_text s = s

abbrev starts : String → String → Bool
starts s p = true

abbrev holds_text : String → String → Bool
holds_text s p = false

abbrev pub no_description : Err → String
no_description e = ""

pub every_driver :
    (d : String)
    → is_some (lookup d settings.brokers.drivers) ≡ true
    → is_some (lookup d (("events", publisher) ∷ [])) ≡ true
every_driver d h = ground arith

-- No time at all to write back in, and a channel whose name breaks out of its quotes.
validate-altered_example :
    validate same_text same_text starts holds_text no_description none
      (altered quiet_settings (pos 0) "x', '')")
    ≡ validate same_text same_text starts holds_text no_description none quiet_settings
validate-altered_example =
    validate-altered same_text same_text starts holds_text no_description none quiet_settings
      (pos 0) "x', '')" (inl refl)

validate-Checked_example :
    Checked same_text settings
    × (new_router (routes settings.brokers.streams) (("events", publisher) ∷ [])
        ≡ ok (record {
          streams = ("orders", "events") ∷ [];
          publishers = ("events", publisher) ∷ [];
        }))
unfolding validate
validate-Checked_example =
    validate-Checked same_text same_text starts holds_text no_description none settings
      (("events", publisher) ∷ []) refl every_driver

-- One file, which is not recorded yet.
abbrev split_name : String → Option (String × String)
split_name s = some (s, s)

abbrev read_number : String → Result ℕ
read_number s = ok 2

abbrev sum : String → String
sum s = s

abbrev filled : List (String × String) → String → String
filled pairs s = s

abbrev options : Options
options = record { schema = "outbox"; table = "messages"; channel = "outbox_new" }

abbrev files : Result (List File)
files = ok (record { name = "2"; is_dir = false; is_sql = true; body = ok "CREATE" } ∷ [])

abbrev fresh : Database
fresh = record { records = []; executed = [] }

abbrev fine_at : ℕ → ℕ → Answer
fine_at now i = record { begun = none; ran = none; recorded = none; committed = none; now = now }

abbrev shipped : Migration
shipped = record { version = 2; name = "2"; template = "CREATE"; checksum = "CREATE" }

abbrev first_record : Record
first_record = record { version = 2; name = "2"; checksum = "CREATE"; applied_at = 40 }

abbrev migrated : Database
migrated = record { records = first_record ∷ []; executed = "CREATE" ∷ [] }

run_complete_example :
    (migrated.executed
      ≡ fresh.executed
        ++ map
            (λ m. substitute split_name read_number sum filled options m.template)
            (missing fresh.records (shipped ∷ [])))
    × All (Recorded migrated.records) (shipped ∷ [])
    × (run split_name read_number sum filled options (fine_at 90) files none none none migrated
        ≡ (([], none), migrated))
unfolding load run
run_complete_example =
    run_complete split_name read_number sum filled options (fine_at 40) (fine_at 90) files none none
      none fresh migrated (first_record ∷ []) (shipped ∷ []) refl refl
