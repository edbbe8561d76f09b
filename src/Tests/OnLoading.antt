-- ===== src/Tests/OnLoading.antt =====
-- The theorems on the loading of the configuration at concrete inputs.
use Prim.Native.Char.{code as code_point}
use go_outbox.Base.{
  ◌≡◌, refl, true, false, Option, none, some, List, [], ◌∷◌, String, str_eq, if◌then◌else◌, is_some,
  lookup, ◌==◌, assign,
}
use go_outbox.Base.Int.{pos}
use go_outbox.Core.Errors.{ok}
use go_outbox.Broker.{new_router}
use go_outbox.Config.{BrokerConfig}
use go_outbox.Config.Settings.{StreamConfig}
use go_outbox.Config.Environment.{Library, Source, refuse, ◌>>=◌, contains}
use go_outbox.Config.Brokers.{load_brokers, stream_of, stream_names}
use go_outbox.Config.Brokers.Streams.{listed}
use go_outbox.Config.Brokers.Complete.{StreamServed, load_brokers-streams, load_brokers-distinct}
use go_outbox.Config.Requirements.{Checked, routes}
use go_outbox.Config.Loading.{decode, decode-Served}
use go_outbox.Tests.OnConfig.{settings, publisher, no_description, every_driver}

abbrev cut : String → String → Option String
cut s String.[] = some s
cut String.[] (String.◌∷◌ c p) = none
cut (String.◌∷◌ b s) (String.◌∷◌ c p) =
    let rest = cut s p in if code_point b == code_point c then rest else none

abbrev capitals : String → String
capitals s =
    if str_eq s "orders"
    then "ORDERS"
    else if str_eq s "events"
    then "EVENTS"
    else if str_eq s "refunds"
    then "REFUNDS"
    else s

abbrev pub library : Library
library = record {
  trim = λ s. s;
  lower = λ s. if str_eq s "Orders" then "orders" else s;
  upper = capitals;
  replace_all = λ s from to. s;
  split = λ s sep. if str_eq s "orders,refunds" then "orders" ∷ "refunds" ∷ [] else s ∷ [];
  has_prefix = λ s p. is_some (cut s p);
  includes = λ s p. false;
  cut_prefix = cut;
  equal_fold = str_eq;
  shorter_or_equal = λ s t. true;
  sort_strings = λ names. names;
  cut = λ s sep. none;
  itoa = λ n. "0";
  atoi = λ s. ok (pos 0);
  parse_bool = λ s. ok false;
  parse_duration = λ s. ok (pos 0);
  decode_base64 = λ s. ok [];
  is_pem = λ bytes. true;
  join_host_port = λ host port. host;
  encode_query = λ pairs. "";
  print_url = λ url. url.path;
  parse_url = λ s. ok (λ user. s);
}

abbrev variables : List (String × String)
variables =
    ("OUTBOX_STREAMS", "Orders")
    ∷ ("OUTBOX_STREAM_ORDERS_DRIVER", "events")
    ∷ ("OUTBOX_DRIVER_EVENTS_TYPE", "kafka")
    ∷ ("OUTBOX_DRIVER_EVENTS_BROKERS", "broker:9092")
    ∷ []

abbrev environment : Source
environment = record { find = λ key. lookup key variables; all = variables }

abbrev orders : StreamConfig
orders = record { name = "orders"; driver = "events" }

load_brokers-streams_example : lookup "orders" settings.brokers.streams ≡ (
    if listed library "orders" (stream_names library environment)
    then some (stream_of library environment "orders")
    else none)
unfolding load_brokers refuse ◌>>=◌ contains assign
load_brokers-streams_example =
    load_brokers-streams library environment settings.db settings.brokers refl "orders"

-- Two streams that share a driver.
abbrev two_streams : List (String × String)
two_streams =
    ("OUTBOX_STREAMS", "orders,refunds")
    ∷ ("OUTBOX_STREAM_ORDERS_DRIVER", "events")
    ∷ ("OUTBOX_STREAM_REFUNDS_DRIVER", "events")
    ∷ ("OUTBOX_DRIVER_EVENTS_TYPE", "kafka")
    ∷ ("OUTBOX_DRIVER_EVENTS_BROKERS", "broker:9092")
    ∷ []

abbrev shared : Source
shared = record { find = λ key. lookup key two_streams; all = two_streams }

abbrev refunds : StreamConfig
refunds = record { name = "refunds"; driver = "events" }

abbrev shared_table : BrokerConfig
shared_table = record {
  streams = ("orders", orders) ∷ ("refunds", refunds) ∷ [];
  drivers = settings.brokers.drivers;
}

load_brokers-distinct_example : orders.driver ≡ refunds.driver
unfolding load_brokers refuse ◌>>=◌ contains assign
load_brokers-distinct_example =
    load_brokers-distinct library shared settings.db shared_table refl "orders" "refunds" orders
      refunds refl refl refl

decode-Served_example :
    Checked library.lower settings
    × (new_router (routes settings.brokers.streams) (("events", publisher) ∷ [])
        ≡ ok (record {
          streams = routes settings.brokers.streams;
          publishers = ("events", publisher) ∷ [];
        }))
    × StreamServed library environment settings.db settings.brokers "orders" orders
unfolding decode refuse ◌>>=◌ contains assign
decode-Served_example =
    decode-Served library no_description (ok "pod-1") (pos 1) (ok settings) environment settings
      (("events", publisher) ∷ []) "orders" orders refl every_driver refl
