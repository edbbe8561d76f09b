-- ===== src/Config/Brokers/Served.antt =====
-- What a routing table that was read gives each of its streams.
use go_outbox.Base.{
  ◌≡◌, refl, ap, sym, ◌∙◌, subst, true, false, some, List, [], ◌∷◌, String, str_eq, str_eq_iff, any,
  lookup, assign, lookup-assign_same, lookup-assign_other, Bool-cases, inl, inr, arith,
}
use go_outbox.Core.Errors.{Result, ok, err, ok_eq}
use go_outbox.Config.{BrokerConfig}
use go_outbox.Config.Settings.{DbConfig, StreamConfig}
use go_outbox.Config.Environment.{Source, Library, contains, refuse-eq-ok, bind-Passed}
use go_outbox.Config.Drivers.{
  DriverType, driver_rabbitmq, driver_kafka, driver_postgres, DriverConfig, rabbitmq, kafka,
  postgres, driver_name, driver_type,
}
use go_outbox.Config.Drivers.Rabbitmq.{SoundRabbitmq, build_rabbit_driver-Sound}
use go_outbox.Config.Drivers.Kafka.Sound.{SoundKafka, build_kafka_driver-Sound}
use go_outbox.Config.Drivers.Postgres.{SoundPostgres, build_postgres_driver-Sound}
use go_outbox.Config.Brokers.{
  Loads, build_driver, driver_prefix, getter, is_unknown, known_keys, load_brokers, load_driver,
  load_drivers, noted, parse_driver_type, reject_colliding_names, reject_unknown_keys, stream_names,
  table_of, tagged,
}
use go_outbox.Config.Brokers.Streams.{Added, add_streams-Added, contains-cons, contains-nil}

module _ (lib : Library) (src : Source) (db : DbConfig) where
  -- What the builders check of a driver.
  abbrev pub SoundDriver : (String → String) → DriverConfig → Type 0
  SoundDriver get (rabbitmq d) = SoundRabbitmq lib get d
  SoundDriver get (kafka d) = SoundKafka lib d
  SoundDriver get (postgres d) = SoundPostgres db d

  -- A driver of the given name, with the other drivers that are declared.
  pub record Served (name : String) (all_names : List String) (d : DriverConfig) : Type 0 where
    pub named : driver_name d ≡ name
    pub typed : parse_driver_type (lib.lower (getter lib src name "TYPE")) ≡ ok (driver_type d)
    pub sound : SoundDriver (getter lib src name) d
    -- No setting in its namespace is one that nobody reads.
    pub closed :
        any
          (λ (key, v).
            is_unknown lib (driver_prefix lib name) name all_names (known_keys (driver_type d)) key)
          src.all
        ≡ false

  tagged-eq-ok {ℓ} :
      {A : Type ℓ} (c : A → DriverConfig) (r : Result A) (d : DriverConfig)
      → tagged lib c r ≡ ok d
      → (a : A) × (r ≡ ok a) × (c a ≡ d)
  tagged-eq-ok c (ok a) d h = (a, refl, ok_eq h)
  tagged-eq-ok c (err e) d h = cc

  build_driver-Sound :
      (type : DriverType) (name : String) (get : String → String) (d : DriverConfig)
      → build_driver lib type name get db ≡ ok d
      → (driver_name d ≡ name) × (driver_type d ≡ type) × SoundDriver get d
  unfolding build_driver driver_name driver_type
  build_driver-Sound driver_rabbitmq name get d h =
      let (c, e, same) = tagged-eq-ok rabbitmq _ d h in
      let (s, n, m) = build_rabbit_driver-Sound lib get name _ c e in rw (sym same) (n, refl, s)
  build_driver-Sound driver_kafka name get d h =
      let (c, e, same) = tagged-eq-ok kafka _ d h in
      let (s, n, m) = build_kafka_driver-Sound lib name _ get c e in rw (sym same) (n, refl, s)
  build_driver-Sound driver_postgres name get d h =
      let (c, e, same) = tagged-eq-ok postgres _ d h in
      let (s, n, m) = build_postgres_driver-Sound lib get db name _ c e in
      rw (sym same) (n, refl, s)

  pub load_driver-Served :
      (name : String) (all_names : List String) (d : DriverConfig)
      → load_driver lib src name all_names db ≡ ok d
      → Served name all_names d
  unfolding load_driver reject_unknown_keys
  load_driver-Served name all_names d h =
      let (given, h) = refuse-eq-ok _ _ _ d h in
      let type = bind-Passed _ _ d h in
      let checked = bind-Passed _ _ d type.next in
      let (named, typed, sound) =
        build_driver-Sound type.value name (getter lib src name) d checked.next in
      let (closed, e) = refuse-eq-ok _ _ _ checked.value checked.first in
      record {
        named = named;
        typed = type.first ∙ ap ok (sym typed);
        sound = sound;
        closed = rw typed closed;
      }

  noted-clean :
      (name : String) (r : Result DriverConfig) (loads : Loads lib)
      → (noted lib name r loads).1 ≡ []
      → (d : DriverConfig) × (loads.1 ≡ [])
        × (r ≡ ok d)
        × (noted lib name r loads ≡ (assign name d loads.0, loads.1))
  noted-clean name (ok d) (drivers, errs) h = (d, h, refl, refl)
  noted-clean name (err e) (drivers, []) h = cc
  noted-clean name (err e) (drivers, f ∷ errs) h = cc

  pub record Loaded (all_names names : List String) (before after : Loads lib) : Type 0 where
    pub clean : before.1 ≡ []
    pub others : (k : String) → contains names k ≡ false → lookup k after.0 ≡ lookup k before.0
    pub each :
        (k : String)
        → contains names k ≡ true
        → (d : DriverConfig) × (lookup k after.0 ≡ some d)
          × (load_driver lib src k all_names db ≡ ok d)

  load_drivers-Loaded :
      (all_names names : List String) (before : Loads lib)
      → (load_drivers lib src all_names db names before).1 ≡ []
      → Loaded all_names names before (load_drivers lib src all_names db names before)
  unfolding load_drivers
  load_drivers-Loaded all_names [] before h = record {
    clean = h;
    others = λ k p. refl;
    each = λ k p. ground (arith, contains-nil k);
  }
  load_drivers-Loaded all_names (name ∷ rest) before h =
      let r = load_driver lib src name all_names db in
      let ih = load_drivers-Loaded all_names rest (noted lib name r before) h in
      let (d, clean, loaded, next) = noted-clean name r before ih.clean in
      let after = load_drivers lib src all_names db rest (noted lib name r before) in
      record {
        clean = clean;
        others = λ k p.
            let apart : str_eq k name ≡ false = ground (arith, contains-cons k name rest) in
            let absent : contains rest k ≡ false = ground (arith, contains-cons k name rest) in
            let apart' : str_eq name k ≡ false =
              ground (arith, str_eq_iff k name, str_eq_iff name k) in
            ih.others k absent
            ∙ ap (λ l. lookup k l.0) next
            ∙ lookup-assign_other k name d before.0 apart';
        each = λ k p. elim (Bool-cases (contains rest k)) [
          | inl later ↦ ih.each k later
          | inr absent ↦
              let same : k ≡ name =
                (str_eq_iff k name).0 (ground (arith, contains-cons k name rest)) in
              subst
                (λ x.
                  (d : DriverConfig) × (lookup x after.0 ≡ some d)
                  × (load_driver lib src x all_names db ≡ ok d))
                (sym same)
                (
                  d,
                  ih.others name (subst (λ x. contains rest x ≡ false) same absent)
                      ∙ ap (λ l. lookup name l.0) next
                      ∙ lookup-assign_same name d before.0,
                  loaded,
                )
        ];
      }

  table_of-eq-ok :
      (streams : List (String × StreamConfig)) (loads : Loads lib) (c : BrokerConfig)
      → table_of lib streams loads ≡ ok c
      → (loads.1 ≡ []) × (c.streams ≡ streams) × (c.drivers ≡ loads.0)
  table_of-eq-ok streams (drivers, []) c h = rw (sym (ok_eq h)) (refl, refl, refl)
  table_of-eq-ok streams (drivers, e ∷ errs) c h = cc

  -- How a table was read: the names of its drivers, and what was checked of them.
  pub record Assembled (c : BrokerConfig) (names : List String) : Type 0 where
    pub streams : Added lib src (stream_names lib src) [] [] (c.streams, names)
    pub distinct : reject_colliding_names lib [] names ≡ ok tt
    pub drivers : Loaded names names ([], []) (c.drivers, [])

  pub load_brokers-Assembled :
      (c : BrokerConfig)
      → load_brokers lib src db ≡ ok c
      → (names : List String) × Assembled c names
  unfolding load_brokers
  load_brokers-Assembled c h =
      let added = bind-Passed _ _ c h in
      let (streams, names) = added.value in
      let distinct = bind-Passed _ _ c added.next in
      let loads = load_drivers lib src names db names ([], []) in
      let (clean, same_streams, same_drivers) = table_of-eq-ok streams loads c distinct.next in
      let all = load_drivers-Loaded names names ([], []) clean in
      (
        names,
        record {
          streams =
              subst (λ s. Added lib src (stream_names lib src) [] [] (s, names)) (sym same_streams)
                (add_streams-Added lib src (stream_names lib src) [] [] added.value added.first);
          distinct = distinct.first;
          drivers =
              subst (λ drivers. Loaded names names ([], []) (drivers, [])) (sym same_drivers)
                (record { clean = refl; others = all.others; each = all.each });
        },
      )
