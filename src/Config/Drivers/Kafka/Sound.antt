-- ===== src/Config/Drivers/Kafka/Sound.antt =====
-- What the settings of a Kafka driver satisfy once they have been read.
use go_outbox.Base.{◌≡◌, refl, sym, true, false, String, str_eq, arith, ◌⊎◌, length, ◌==◌}
use go_outbox.Base.Int.{ℤ, pos, ◌≤ℤ◌}
use go_outbox.Core.Errors.{ok, ok_eq}
use go_outbox.Broker.{Naming}
use go_outbox.Config.Environment.{Library, refuse-eq-ok, bind-Passed, contains}
use go_outbox.Config.Drivers.{KafkaDriver}
use go_outbox.Config.Drivers.Kafka.{
  kafka_protocols, kafka_mechanisms, kafka_compression, kafka_acks, Sasl, Pems, Delivery,
  check_sasl, read_sasl, no_bytes, check_pair, read_pems, at_least_one, read_delivery,
  build_kafka_driver,
}

module _ (lib : Library) where
  -- What a Kafka driver that was read satisfies.
  pub record SoundKafka (d : KafkaDriver) : Type 0 where
    pub brokers : (length d.brokers == 0) ≡ false
    pub sasl :
        ((lib.has_prefix d.security_protocol "SASL" ≡ true)
          × (contains kafka_mechanisms d.sasl_mechanism ≡ true)
          × (str_eq d.sasl_username "" ≡ false)
          × (str_eq d.sasl_password "" ≡ false))
        ⊎ ((lib.has_prefix d.security_protocol "SASL" ≡ false)
            × (str_eq d.sasl_mechanism "" ≡ true))
    pub protocol :
        (str_eq d.security_protocol "" ≡ true)
        ⊎ (contains kafka_protocols d.security_protocol ≡ true)
    pub certificate : no_bytes lib d.ssl_cert_pem ≡ no_bytes lib d.ssl_key_pem
    pub compression : contains kafka_compression d.compression ≡ true
    pub acks : contains kafka_acks d.required_acks ≡ true
    pub attempts : pos 1 ≤ℤ d.max_attempts

  check_sasl-Sound :
      (s t : Sasl)
      → check_sasl lib s ≡ ok t
      → (((lib.has_prefix t.protocol "SASL" ≡ true)
            × (contains kafka_mechanisms t.mechanism ≡ true)
            × (str_eq t.username "" ≡ false)
            × (str_eq t.password "" ≡ false))
          ⊎ ((lib.has_prefix t.protocol "SASL" ≡ false) × (str_eq t.mechanism "" ≡ true)))
        × ((str_eq t.protocol "" ≡ true) ⊎ (contains kafka_protocols t.protocol ≡ true))
  unfolding check_sasl
  check_sasl-Sound s t h = ground arith

  check_pair-same :
      (p q : Pems) → check_pair lib p ≡ ok q → no_bytes lib q.cert ≡ no_bytes lib q.key
  unfolding check_pair
  check_pair-same p q h = ground arith

  read_pems-same :
      (get : String → String) (p : Pems)
      → read_pems lib get ≡ ok p
      → no_bytes lib p.cert ≡ no_bytes lib p.key
  unfolding read_pems
  read_pems-same get p h =
      let ca = bind-Passed _ _ p h in
      let cert = bind-Passed _ _ p ca.next in
      let key = bind-Passed _ _ p cert.next in check_pair-same _ p key.next

  at_least_one-le : (n m : ℤ) → at_least_one lib n ≡ ok m → pos 1 ≤ℤ m
  unfolding at_least_one
  at_least_one-le n m h = ground arith

  read_delivery-Sound :
      (get : String → String) (d : Delivery)
      → read_delivery lib get ≡ ok d
      → (contains kafka_compression d.compression ≡ true)
        × (contains kafka_acks d.acks ≡ true)
        × (pos 1 ≤ℤ d.max_attempts)
  unfolding read_delivery
  read_delivery-Sound get d h =
      let (compression, h) = refuse-eq-ok _ _ _ d h in
      let (acks, h) = refuse-eq-ok _ _ _ d h in
      let read = bind-Passed _ _ d h in
      let attempts = bind-Passed _ _ d read.next in
      let timeout = bind-Passed _ _ d attempts.next in
      let auto_create = bind-Passed _ _ d timeout.next in
      let e = ok_eq auto_create.next in
      let least = at_least_one-le read.value attempts.value attempts.first in
      (rw (sym e) (ground arith), rw (sym e) (ground arith), rw (sym e) least)

  pub build_kafka_driver-Sound :
      (name : String) (naming : Naming) (get : String → String) (d : KafkaDriver)
      → build_kafka_driver lib name naming get ≡ ok d
      → SoundKafka d × (d.name ≡ name) × (d.naming ≡ naming)
  unfolding build_kafka_driver
  build_kafka_driver-Sound name naming get d h =
      let (brokers, h) = refuse-eq-ok _ _ _ d h in
      let s = bind-Passed _ _ d h in
      let p = bind-Passed _ _ d s.next in
      let delivery = bind-Passed _ _ d p.next in
      let e = ok_eq delivery.next in
      let (sasl, protocol) = check_sasl-Sound (read_sasl lib get) s.value s.first in
      let (compression, acks, attempts) = read_delivery-Sound get delivery.value delivery.first in
      rw (sym e) (
        record {
          brokers = brokers;
          sasl = sasl;
          protocol = protocol;
          certificate = read_pems-same get p.value p.first;
          compression = compression;
          acks = acks;
          attempts = attempts;
        },
        refl,
        refl,
      )
