-- ===== src/Config/Brokers/Complete.antt =====
-- The routing table as a whole: every stream that is listed is there, and its driver is.
use go_outbox.Base.{
  ◌≡◌, ◌∙◌, refl, ap, sym, Bool, true, false, none, some, List, [], String, if◌then◌else◌, lookup,
  some_eq, is_some, Bool-cases, inl, inr,
}
use go_outbox.Core.Errors.{ok}
use go_outbox.Config.{BrokerConfig}
use go_outbox.Config.Settings.{DbConfig, StreamConfig}
use go_outbox.Config.Environment.{Source, Library, contains}
use go_outbox.Config.Drivers.{DriverConfig}
use go_outbox.Config.Brokers.{driver_of, env_token, load_brokers, stream_names, stream_of}
use go_outbox.Config.Brokers.Streams.{listed, reject_colliding_names-distinct}
use go_outbox.Config.Brokers.Served.{Served, Assembled, load_brokers-Assembled, load_driver-Served}

module _ (lib : Library) (src : Source) (db : DbConfig) (c : BrokerConfig) where
  -- What a stream of the table is served by: the driver that it names, which was read from the
  -- environment under that name.
  pub record StreamServed (s : String) (t : StreamConfig) : Type 0 where
    pub named : t ≡ stream_of lib src s
    pub names : List String
    -- These are the names of the drivers of the table.
    pub all_drivers : (k : String) → contains names k ≡ is_some (lookup k c.drivers)
    pub among : contains names t.driver ≡ true
    pub driver : DriverConfig
    pub found : lookup t.driver c.drivers ≡ some driver
    pub served : Served lib src db t.driver names driver

module _ (lib : Library) (src : Source) (db : DbConfig) (c : BrokerConfig)
    (loaded : load_brokers lib src db ≡ ok c) where
  -- A routing table that is read without error has exactly the streams whose names the environment
  -- lists, up to the case of letters, or the default one where it lists none, each under its name
  -- and with the driver that the environment names for it.
  pub load_brokers-streams :
      (s : String)
      → lookup s c.streams
        ≡ (if listed lib s (stream_names lib src) then some (stream_of lib src s) else none)
  load_brokers-streams s =
      let (names, a) = load_brokers-Assembled lib src db c loaded in a.streams.at_each s

  stream_lem :
      (s : String) (t : StreamConfig)
      → lookup s c.streams ≡ some t
      → (listed lib s (stream_names lib src) ≡ true) × (t ≡ stream_of lib src s)
  stream_lem s t h =
      by_case (listed lib s (stream_names lib src)) (sym (load_brokers-streams s) ∙ h)
    where
      by_case :
          (b : Bool)
          → (if b then some (stream_of lib src s) else none) ≡ some t
          → (b ≡ true) × (t ≡ stream_of lib src s)
      by_case true e = (refl, sym (some_eq e))
      by_case false e = cc

  drivers_lem :
      (names : List String)
      → Assembled lib src db c names
      → (k : String) → contains names k ≡ is_some (lookup k c.drivers)
  drivers_lem names a k = elim (Bool-cases (contains names k)) [
    | inl there ↦ let (d, found, read) = a.drivers.each k there in rw (there, found) refl
    | inr absent ↦ rw (absent, a.drivers.others k absent) refl
  ]

  pub load_brokers-Served :
      (s : String) (t : StreamConfig) → lookup s c.streams ≡ some t → StreamServed lib src db c s t
  unfolding stream_of
  load_brokers-Served s t h =
      let (names, a) = load_brokers-Assembled lib src db c loaded in
      let (is_listed, same) = stream_lem s t h in
      let same_driver : t.driver ≡ driver_of lib src s = ap (λ (x : StreamConfig). x.driver) same in
      let among : contains names t.driver ≡ true = rw same_driver (a.streams.has s is_listed) in
      let (d, found, read) = a.drivers.each t.driver among in
      record {
        named = same;
        names = names;
        all_drivers = drivers_lem names a;
        among = among;
        driver = d;
        found = found;
        served = load_driver-Served lib src db t.driver names d read;
      }

  -- Where two streams of a routing table that was read without error have drivers which read the
  -- same settings, they have the same driver.
  pub load_brokers-distinct :
      (s s' : String) (t t' : StreamConfig)
      → lookup s c.streams ≡ some t
      → lookup s' c.streams ≡ some t'
      → env_token lib t.driver ≡ env_token lib t'.driver
      → t.driver ≡ t'.driver
  unfolding stream_of
  load_brokers-distinct s s' t t' h h' e =
      let (names, a) = load_brokers-Assembled lib src db c loaded in
      let (is_listed, same) = stream_lem s t h in
      let (is_listed', same') = stream_lem s' t' h' in
      let d : t.driver ≡ driver_of lib src s = ap (λ (x : StreamConfig). x.driver) same in
      let d' : t'.driver ≡ driver_of lib src s' = ap (λ (x : StreamConfig). x.driver) same' in
      reject_colliding_names-distinct lib names [] t.driver t'.driver a.distinct
        (rw d (a.streams.has s is_listed)) (rw d' (a.streams.has s' is_listed')) e
