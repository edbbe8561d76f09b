-- ===== src/Config/Drivers/Rabbitmq.antt =====
-- internal/config/driver_rabbitmq.go: reading the settings of a RabbitMQ driver.
use go_outbox.Base.{
  ◌≡◌, refl, sym, Bool, true, false, not, ◌||◌, String, str_eq, if◌then◌else◌, arith,
}
use go_outbox.Base.Int.{ℤ, pos, ltb_ℤ, ◌≤ℤ◌}
use go_outbox.Core.Errors.{Result, ok, wrapped, ok_eq}
use go_outbox.Broker.{Naming}
use go_outbox.Config.Environment.{
  Library, failed, ◌>>=◌, refuse, refuse-eq-ok, bind-Passed, int_or_default, bool_or_default,
  duration_or_default,
}
use go_outbox.Config.Drivers.{RabbitmqDriver}

abbrev default_rabbit_channels : ℤ
default_rabbit_channels = pos 4

abbrev default_rabbit_publish_timeout : ℤ
default_rabbit_publish_timeout = pos 15000000000

abbrev default_rabbit_reconnect_delay : ℤ
default_rabbit_reconnect_delay = pos 1000000000

abbrev max_rabbit_channels : ℤ
max_rabbit_channels = pos 128

unfoldable pub within_channels : ℤ → Result ℤ
within_channels n =
    if ltb_ℤ n (pos 1) || ltb_ℤ max_rabbit_channels n
    then failed "CHANNELS must be between 1 and 128"
    else ok n

within_channels-bounds : (n m : ℤ) → within_channels n ≡ ok m → (pos 1 ≤ℤ m) × (m ≤ℤ pos 128)
unfolding within_channels
within_channels-bounds n m h = ground arith

module _ (lib : Library) (get : String → String) where
  abbrev channels_of : Result ℤ
  channels_of = int_or_default lib (get "CHANNELS") default_rabbit_channels

  abbrev flag_of : String → Bool → Result Bool
  flag_of key default = bool_or_default lib (get key) default

  abbrev time_of : String → ℤ → Result ℤ
  time_of key default = duration_or_default lib (get key) default

  abbrev amqp_dsn : String → Bool
  amqp_dsn dsn = lib.has_prefix dsn "amqp://" || lib.has_prefix dsn "amqps://"

  abbrev assemble : String → Naming → ℤ → Bool → Bool → ℤ → ℤ → RabbitmqDriver
  assemble name naming channels declare mandatory publish_timeout reconnect_delay = record {
    name = name;
    naming = naming;
    dsn = get "DSN";
    channels = channels;
    declare = declare;
    mandatory = mandatory;
    publish_timeout = publish_timeout;
    reconnect_delay = reconnect_delay;
  }

  -- `buildRabbitDriver`
  unfoldable pub build_rabbit_driver : String → Naming → Result RabbitmqDriver
  unfolding int_or_default bool_or_default duration_or_default within_channels
  build_rabbit_driver name naming = refuse (str_eq (get "DSN") "") "DSN is required" (
      refuse (not (amqp_dsn (get "DSN"))) "DSN must start with amqp:// or amqps://" (do
        read ← wrapped "CHANNELS" channels_of
        channels ← within_channels read
        declare ← wrapped "DECLARE" (flag_of "DECLARE" false)
        mandatory ← wrapped "MANDATORY" (flag_of "MANDATORY" true)
        timeout ←
            wrapped "PUBLISH_TIMEOUT" (time_of "PUBLISH_TIMEOUT" default_rabbit_publish_timeout)
        delay ← wrapped "RECONNECT_DELAY" (time_of "RECONNECT_DELAY" default_rabbit_reconnect_delay)
        ok (assemble name naming channels declare mandatory timeout delay)))

  -- What a RabbitMQ driver that was read satisfies.
  pub record SoundRabbitmq (d : RabbitmqDriver) : Type 0 where
    pub dsn : amqp_dsn d.dsn ≡ true
    pub channels : (pos 1 ≤ℤ d.channels) × (d.channels ≤ℤ pos 128)

  pub build_rabbit_driver-Sound :
      (name : String) (naming : Naming) (d : RabbitmqDriver)
      → build_rabbit_driver name naming ≡ ok d
      → SoundRabbitmq d × (d.name ≡ name) × (d.naming ≡ naming)
  unfolding build_rabbit_driver
  build_rabbit_driver-Sound name naming d h =
      let (given, h) = refuse-eq-ok _ _ _ d h in
      let (amqp, h) = refuse-eq-ok _ _ _ d h in
      let read = bind-Passed _ _ d h in
      let channels = bind-Passed _ _ d read.next in
      let declare = bind-Passed _ _ d channels.next in
      let mandatory = bind-Passed _ _ d declare.next in
      let timeout = bind-Passed _ _ d mandatory.next in
      let delay = bind-Passed _ _ d timeout.next in
      let amqp : amqp_dsn (get "DSN") ≡ true = ground arith in
      rw (sym (ok_eq delay.next)) (
        record {
          dsn = amqp;
          channels = within_channels-bounds read.value channels.value channels.first;
        },
        refl,
        refl,
      )
