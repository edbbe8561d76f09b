-- ===== src/Config/Drivers/Postgres.antt =====
-- internal/config/driver_postgres.go and DBConfig.ConnString of config.go: reading the settings of a
-- driver that delivers into a table.
use Prim.Native.String.{◌++◌ as cat}
use go_outbox.Base.{
  ◌≡◌, refl, sym, Bool, true, false, not, ◌&&◌, ◌||◌, [], ◌∷◌, String, str_eq, if◌then◌else◌, arith,
}
use go_outbox.Base.Int.{ℤ, pos, ltb_ℤ, leb_ℤ, ◌≤ℤ◌, ◌<ℤ◌}
use go_outbox.Core.Errors.{Result, ok, wrapped, ok_eq}
use go_outbox.Core.Identifiers.{is_identifier}
use go_outbox.Broker.{Naming}
use go_outbox.Config.Settings.{DbConfig}
use go_outbox.Config.Environment.{
  Library, failed, ◌>>=◌, refuse, refuse-eq-ok, bind-Passed, int_or_default, duration_or_default,
}
use go_outbox.Config.Drivers.{PostgresDriver}

-- `DBConfig.ConnString`
unfoldable pub conn_string : Library → DbConfig → String
conn_string lib db =
    let query = if str_eq db.ssl_mode "" then [] else ("sslmode", db.ssl_mode) ∷ [] in
    if not (str_eq db.dsn "")
    then db.dsn
    else lib.print_url (record {
      scheme = "postgres";
      user = db.user;
      password = db.password;
      host = lib.join_host_port db.host (lib.itoa db.port);
      path = cat "/" db.name;
      raw_query = lib.encode_query query;
    })

abbrev default_postgres_write_timeout : ℤ
default_postgres_write_timeout = pos 15000000000

abbrev default_postgres_max_conns : ℤ
default_postgres_max_conns = pos 4

abbrev max_postgres_conns : ℤ
max_postgres_conns = pos 64

unfoldable pub positive_timeout : ℤ → Result ℤ
positive_timeout n = if leb_ℤ n (pos 0) then failed "WRITE_TIMEOUT must be positive" else ok n

unfoldable pub within_conns : ℤ → Result ℤ
within_conns n =
    if ltb_ℤ n (pos 1) || ltb_ℤ max_postgres_conns n
    then failed "MAX_CONNS must be between 1 and 64"
    else ok n

within_conns-bounds : (n m : ℤ) → within_conns n ≡ ok m → (pos 1 ≤ℤ m) × (m ≤ℤ pos 64)
unfolding within_conns
within_conns-bounds n m h = ground arith

positive_timeout-lt : (n m : ℤ) → positive_timeout n ≡ ok m → pos 0 <ℤ m
unfolding positive_timeout
positive_timeout-lt n m h = ground arith

-- What a driver that delivers into a table satisfies: its table is named by identifiers, and is not
-- the outbox itself where the database was defaulted.
pub record SoundPostgres (db : DbConfig) (d : PostgresDriver) : Type 0 where
  pub names : (is_identifier d.schema ≡ true) × (is_identifier d.table ≡ true)
  pub apart : (d.same_database && str_eq d.schema db.schema && str_eq d.table db.table) ≡ false
  pub timeout : pos 0 <ℤ d.write_timeout
  pub conns : (pos 1 ≤ℤ d.max_conns) × (d.max_conns ≤ℤ pos 64)

module _ (lib : Library) (get : String → String) (db : DbConfig) where
  abbrev same_database_of : Bool
  same_database_of = str_eq (get "DSN") ""

  abbrev dsn_of : String
  dsn_of = if str_eq (get "DSN") "" then conn_string lib db else get "DSN"

  abbrev timeout_of : Result ℤ
  timeout_of = duration_or_default lib (get "WRITE_TIMEOUT") default_postgres_write_timeout

  abbrev conns_of : Result ℤ
  conns_of = int_or_default lib (get "MAX_CONNS") default_postgres_max_conns

  abbrev to_itself : Bool
  to_itself = same_database_of && str_eq (get "SCHEMA") db.schema && str_eq (get "TABLE") db.table

  abbrev assemble : String → Naming → ℤ → ℤ → PostgresDriver
  assemble name naming write_timeout max_conns = record {
    name = name;
    naming = naming;
    dsn = lib.trim dsn_of;
    same_database = same_database_of;
    schema = get "SCHEMA";
    table = get "TABLE";
    write_timeout = write_timeout;
    max_conns = max_conns;
  }

  -- `buildPostgresDriver`
  unfoldable pub build_postgres_driver : String → Naming → Result PostgresDriver
  unfolding int_or_default duration_or_default positive_timeout within_conns conn_string
  build_postgres_driver name naming =
      refuse (str_eq dsn_of "") "no DSN, and the dispatcher's own database is not configured either"
        (refuse (str_eq (get "SCHEMA") "") "SCHEMA is not set" (
          refuse (str_eq (get "TABLE") "") "TABLE is not set" (
            refuse (not (is_identifier (get "SCHEMA"))) "SCHEMA is not a valid identifier" (
              refuse (not (is_identifier (get "TABLE"))) "TABLE is not a valid identifier" (
                refuse to_itself "the destination is the dispatcher's own outbox table" (do
                  read ← wrapped "WRITE_TIMEOUT" timeout_of
                  timeout ← positive_timeout read
                  number ← wrapped "MAX_CONNS" conns_of
                  conns ← within_conns number
                  ok (assemble name naming timeout conns)))))))

  pub build_postgres_driver-Sound :
      (name : String) (naming : Naming) (d : PostgresDriver)
      → build_postgres_driver name naming ≡ ok d
      → SoundPostgres db d × (d.name ≡ name) × (d.naming ≡ naming)
  unfolding build_postgres_driver
  build_postgres_driver-Sound name naming d h =
      let (given, h) = refuse-eq-ok _ _ _ d h in
      let (schema_set, h) = refuse-eq-ok _ _ _ d h in
      let (table_set, h) = refuse-eq-ok _ _ _ d h in
      let (schema, h) = refuse-eq-ok _ _ _ d h in
      let (table, h) = refuse-eq-ok _ _ _ d h in
      let (apart, h) = refuse-eq-ok _ _ _ d h in
      let read = bind-Passed _ _ d h in
      let timeout = bind-Passed _ _ d read.next in
      let number = bind-Passed _ _ d timeout.next in
      let conns = bind-Passed _ _ d number.next in
      let schema : is_identifier (get "SCHEMA") ≡ true = ground arith in
      let table : is_identifier (get "TABLE") ≡ true = ground arith in
      rw (sym (ok_eq conns.next)) (
        record {
          names = (schema, table);
          apart = apart;
          timeout = positive_timeout-lt read.value timeout.value timeout.first;
          conns = within_conns-bounds number.value conns.value conns.first;
        },
        refl,
        refl,
      )
