-- ===== src/Config/Loading.antt =====
-- internal/config/load.go: the configuration, read and validated.
--
-- Parameters: what `bind.Decode` gives for the environment (`bound`), os.Hostname (`host`), the
-- process identifier, and the text of an error.
pub mod Files
use Prim.Native.String.{◌++◌ as cat}
use go_outbox.Base.{
  ◌≡◌, refl, ap, sym, subst, Bool, true, false, not, Option, none, some, List, [], ◌∷◌, String,
  str_eq, if◌then◌else◌, is_some, lookup,
}
use go_outbox.Base.Int.{ℤ}
use go_outbox.Core.Errors.{Err, Result, ok, err, wrapped, ok_eq}
use go_outbox.Broker.{Publisher, new_router}
use go_outbox.Config.{Config, BrokerConfig}
use go_outbox.Config.Settings.{AppConfig, StreamConfig}
use go_outbox.Config.Environment.{Source, Library, ◌>>=◌, bind-Passed}
use go_outbox.Config.Brokers.{load_brokers}
use go_outbox.Config.Brokers.Complete.{StreamServed, load_brokers-Served}
use go_outbox.Config.Validation.{validate, validate_admin, problems, carried}
use go_outbox.Config.Requirements.{Checked, routes}
use go_outbox.Config.Checked.{validate-Checked}

-- The routing table and its error, as `loadBrokers` returns them.
abbrev pub table : Result BrokerConfig → BrokerConfig
table (ok c) = c
table (err e) = record { streams = []; drivers = [] }

abbrev pub table_error : Result BrokerConfig → Option Err
table_error (ok c) = none
table_error (err e) = some e

module _ (lib : Library) (describe : Err → String) (host : Result String) (pid : ℤ) where
  abbrev pid_name : String
  pid_name = cat "pid-" (lib.itoa pid)

  unfoldable pub default_instance : String
  default_instance = elim host [
    | ok name ↦ if not (str_eq name "") then name else pid_name
    | err e ↦ pid_name
  ]

  unfoldable pub with_instance : AppConfig → AppConfig
  unfolding default_instance
  with_instance a = record a {
    instance = if str_eq a.instance "" then default_instance else a.instance;
  }

  abbrev pub accepted : Config → Option Err → Result Config
  accepted c none = ok c
  accepted c (some e) = err e

  unfoldable pub check : Bool → Option Err → Config → Result Config
  unfolding validate validate_admin
  check true prior c =
      accepted c (validate_admin lib.trim lib.lower lib.has_prefix lib.includes describe c)
  check false prior c =
      accepted c (validate lib.trim lib.lower lib.has_prefix lib.includes describe prior c)

  abbrev pub completed : Config → Result BrokerConfig → Config
  completed c brokers = record c { app = with_instance c.app; brokers = table brokers }

  -- `decode`
  unfoldable pub decode : Result Config → Source → Bool → Result Config
  unfolding load_brokers check with_instance
  decode bound env admin_only = do
    c ← wrapped "read configuration" bound
    check admin_only (table_error (load_brokers lib env c.db))
        (completed c (load_brokers lib env c.db))

  accepted-eq-ok : (c d : Config) (e : Option Err) → accepted c e ≡ ok d → (e ≡ none) × (c ≡ d)
  accepted-eq-ok c d none h = (refl, ok_eq h)
  accepted-eq-ok c d (some e) h = cc

  -- An error of the routing table is among the problems.
  table-read :
      (r : Result BrokerConfig) (c : Config)
      → validate lib.trim lib.lower lib.has_prefix lib.includes describe (table_error r) c ≡ none
      → r ≡ ok (table r)
  unfolding validate problems
  table-read (ok b) c h = refl
  table-read (err e) c h = cc

  -- A configuration that is loaded to run the dispatcher has what `Checked` lists, the limits
  -- and names that the validation looks at; once a publisher is built for each of its drivers,
  -- the router can be built; and each stream of the routing table has the driver that the
  -- environment names for it, which was read from the environment under that name, by the type
  -- that stands there, with settings that its builder checked; and each setting in its
  -- namespace is one that a driver of its type reads, or stands in the namespace of another
  -- driver of the table, whose name is longer.
  pub decode-Served :
      (bound : Result Config) (env : Source) (c : Config) (pubs : List (String × Publisher))
      (s : String) (t : StreamConfig)
      → decode bound env false ≡ ok c
      → ((d : String)
          → is_some (lookup d c.brokers.drivers) ≡ true
          → is_some (lookup d pubs) ≡ true)
      → lookup s c.brokers.streams ≡ some t
      → Checked lib.lower c
        × (new_router (routes c.brokers.streams) pubs
            ≡ ok (record { streams = routes c.brokers.streams; publishers = pubs }))
        × StreamServed lib env c.db c.brokers s t
  unfolding decode check
  decode-Served bound env c pubs s t h built found =
      let read = bind-Passed _ _ c h in
      let brokers = load_brokers lib env read.value.db in
      let (valid, same) = accepted-eq-ok (completed read.value brokers) c _ read.next in
      let loaded = table-read brokers (completed read.value brokers) valid in
      let valid' =
        subst
          (λ x.
            validate lib.trim lib.lower lib.has_prefix lib.includes describe (table_error brokers) x
            ≡ none)
          same valid in
      let (sound, router) =
        validate-Checked lib.trim lib.lower lib.has_prefix lib.includes describe
          (table_error brokers) c pubs valid' built in
      let loaded' = subst (λ (x : Config). load_brokers lib env x.db ≡ ok x.brokers) same loaded in
      (sound, router, load_brokers-Served lib env c.db c.brokers loaded' s t found)
