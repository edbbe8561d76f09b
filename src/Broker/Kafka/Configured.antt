-- ===== src/Broker/Kafka/Configured.antt =====
-- A publisher that was set up from settings that were read does what they say.
use go_outbox.Base.{
  ℕ, ◌≡◌, ◌∙◌, refl, ap, sym, Bool, true, false, not, ◌||◌, Option, none, List, [], ◌∷◌, String,
  str_eq, str_eq_iff, if◌then◌else◌, is_some, Bool-cases, inl, inr, ◌⊎◌, arith, All, subst,
}
use go_outbox.Core.Errors.{Err, Result, ok, ok_eq}
use go_outbox.Broker.{Naming}
use go_outbox.Config.Environment.{Library, contains, bind-Passed}
use go_outbox.Config.Drivers.{KafkaDriver}
use go_outbox.Config.Drivers.Kafka.{
  build_kafka_driver, kafka_mechanisms, kafka_compression, kafka_acks,
}
use go_outbox.Config.Drivers.Kafka.Sound.{SoundKafka, build_kafka_driver-Sound}
use go_outbox.Broker.Kafka.Transport.{
  Acks, require_none, require_one, require_all, Compression, uncompressed, gzip, snappy, lz4, zstd,
  Algorithm, required_acks, compression, TlsConfig, Writer, sasl_mechanism, has_bytes, over_tls,
  tls_of, tls_config, new_transport, new,
}

-- The setting that asks for an acknowledgement or a compression.
unfoldable pub acks_name : Acks → String
acks_name require_none = "none"
acks_name require_one = "one"
acks_name require_all = "all"

unfoldable pub compression_name : Compression → String
compression_name uncompressed = "none"
compression_name gzip = "gzip"
compression_name snappy = "snappy"
compression_name lz4 = "lz4"
compression_name zstd = "zstd"

-- What holds of each element of a list holds of one that is found in it.
All-contains {κ} :
    (P : String → Type κ) (xs : List String) (s : String) → All P xs → contains xs s ≡ true → P s
unfolding contains
All-contains P [] s all h = cc
All-contains P (x ∷ xs) s (p, all) h = elim (Bool-cases (str_eq s x)) [
  | inl same ↦ subst P (sym ((str_eq_iff s x).0 same)) p
  | inr other ↦ All-contains P xs s all (ground arith)
]

module _ (lower : String → String) where
  required_acks-name :
      (s : String)
      → All (λ x. lower x ≡ x) kafka_acks
      → contains kafka_acks s ≡ true
      → acks_name (required_acks lower s) ≡ s
  unfolding acks_name required_acks
  required_acks-name s (n, (o, (a, u))) =
      All-contains (λ s. acks_name (required_acks lower s) ≡ s) kafka_acks s
        (rw n refl, (rw o refl, (rw a refl, tt)))

  compression-name :
      (s : String)
      → All (λ x. lower x ≡ x) kafka_compression
      → contains kafka_compression s ≡ true
      → compression_name (compression lower s) ≡ s
  unfolding compression_name compression
  compression-name s (n, (g, (s', (l, (z, u))))) =
      All-contains (λ s. compression_name (compression lower s) ≡ s) kafka_compression s
        (rw n refl, (rw g refl, (rw s' refl, (rw l refl, (rw z refl, tt)))))

given-mechanism : (s : String) → contains kafka_mechanisms s ≡ true → str_eq s "" ≡ false
given-mechanism s =
    All-contains (λ s. str_eq s "" ≡ false) kafka_mechanisms s (refl, (refl, (refl, tt)))

module _ {Certificate Mechanism : Type 0} (lib : Library) (plain : String → String → Mechanism)
    (scram : Algorithm → String → String → Result Mechanism) (usable : List ℕ → Bool)
    (key_pair : List ℕ → List ℕ → Result Certificate) (dial : String → Option Err) where
  sasl_mechanism-is_some :
      (d : KafkaDriver) (m : Option Mechanism)
      → sasl_mechanism lib plain scram usable key_pair d ≡ ok m
      → is_some m ≡ not (str_eq d.sasl_mechanism "")
  unfolding sasl_mechanism
  sasl_mechanism-is_some d m h = ground arith

  sasl-by_protocol :
      (d : KafkaDriver) (m : Option Mechanism)
      → SoundKafka lib d
      → sasl_mechanism lib plain scram usable key_pair d ≡ ok m
      → is_some m ≡ lib.has_prefix d.security_protocol "SASL"
  sasl-by_protocol d m sound h = sasl_mechanism-is_some d m h ∙ elim sound.sasl [
    | inl (prefixed, mechanism, user, password) ↦
        rw (given-mechanism d.sasl_mechanism mechanism, prefixed) refl
    | inr (bare, none_given) ↦ rw (none_given, bare) refl
  ]

  tls_of-is_some :
      (d : KafkaDriver) (t : Option (TlsConfig Certificate))
      → tls_of lib plain scram usable key_pair d ≡ ok t
      → is_some t ≡ true
  tls_of-is_some d t h =
      let roots = bind-Passed _ _ t h in
      let own = bind-Passed _ _ t roots.next in ap is_some (sym (ok_eq own.next))

  tls_config-is_some :
      (d : KafkaDriver) (t : Option (TlsConfig Certificate))
      → tls_config lib plain scram usable key_pair d ≡ ok t
      → (over_tls lib plain scram usable key_pair d ≡ false) ⊎ (is_some t ≡ true)
  unfolding tls_config
  tls_config-is_some d t h = elim (Bool-cases (over_tls lib plain scram usable key_pair d)) [
    | inl yes_tls ↦ inr (
        tls_of-is_some d t (
          subst
            (λ b.
              (if not (b || (has_bytes d.ssl_ca_pem || has_bytes d.ssl_cert_pem))
                then ok none
                else tls_of lib plain scram usable key_pair d)
              ≡ ok t)
            yes_tls h))
    | inr no_tls ↦ inl no_tls
  ]

  -- A Kafka publisher that is set up from settings which were read from the environment asks for the
  -- acknowledgements and the compression that they name, and for no default in their place; it
  -- authenticates exactly when the protocol is one of SASL; and where the protocol is one over TLS,
  -- it connects over TLS. This takes it that the case of the names which the settings accept stays as
  -- it is when they are lowered.
  pub new-Configured :
      (name : String) (naming : Naming) (get : String → String) (d : KafkaDriver)
      (w : Writer Certificate Mechanism)
      → All (λ s. lib.lower s ≡ s) kafka_acks
      → All (λ s. lib.lower s ≡ s) kafka_compression
      → build_kafka_driver lib name naming get ≡ ok d
      → new lib plain scram usable key_pair dial d ≡ ok w
      → (acks_name w.required_acks ≡ d.required_acks)
        × (compression_name w.compression ≡ d.compression)
        × (is_some w.transport.sasl ≡ lib.has_prefix d.security_protocol "SASL")
        × ((over_tls lib plain scram usable key_pair d ≡ false) ⊎ (is_some w.transport.tls ≡ true))
  unfolding new new_transport
  new-Configured name naming get d w acks compressions built h =
      let (sound, n, m) = build_kafka_driver-Sound lib name naming get d built in
      let transport = bind-Passed _ _ w h in
      let answered = bind-Passed _ _ w transport.next in
      let tls = bind-Passed _ _ transport.value transport.first in
      let sasl = bind-Passed _ _ transport.value tls.next in
      let same = ok_eq sasl.next in
      rw (sym (ok_eq answered.next)) (
        required_acks-name lib.lower d.required_acks acks sound.acks,
        compression-name lib.lower d.compression compressions sound.compression,
        rw (sym same) (sasl-by_protocol d sasl.value sound sasl.first),
        rw (sym same) (tls_config-is_some d tls.value tls.first),
      )
