-- ===== src/Config/Drivers/Kafka.antt =====
-- internal/config/driver_kafka.go: reading the settings of a Kafka driver.
pub mod Sound
use go_outbox.Base.{
  ℕ, ◌≡◌, refl, sym, Bool, true, false, not, ◌&&◌, ◌||◌, List, [], ◌∷◌, String, str_eq,
  if◌then◌else◌, any, arith, ◌⊎◌, inl, inr, length, ◌==◌,
}
use go_outbox.Base.Int.{ℤ, pos, ltb_ℤ, ◌≤ℤ◌, leb_ℤ}
use go_outbox.Core.Errors.{Result, ok, err, wrapped, wrapped-eq-ok, ok_eq}
use go_outbox.Broker.{Naming}
use go_outbox.Config.Environment.{
  Library, failed, ◌>>=◌, refuse, refuse-eq-ok, bind-Passed, contains, parse_list, int_or_default,
  bool_or_default, duration_or_default, or_default,
}
use go_outbox.Config.Drivers.{KafkaDriver}

abbrev pub kafka_protocols : List String
kafka_protocols = "PLAINTEXT" ∷ "SSL" ∷ "SASL_PLAINTEXT" ∷ "SASL_SSL" ∷ []

abbrev pub kafka_mechanisms : List String
kafka_mechanisms = "PLAIN" ∷ "SCRAM-SHA-256" ∷ "SCRAM-SHA-512" ∷ []

abbrev pub kafka_compression : List String
kafka_compression = "none" ∷ "gzip" ∷ "snappy" ∷ "lz4" ∷ "zstd" ∷ []

abbrev pub kafka_acks : List String
kafka_acks = "none" ∷ "one" ∷ "all" ∷ []

abbrev default_kafka_max_attempts : ℤ
default_kafka_max_attempts = pos 3

abbrev default_kafka_write_timeout : ℤ
default_kafka_write_timeout = pos 15000000000

pub record Sasl : Type 0 where
  pub protocol : String
  pub mechanism : String
  pub username : String
  pub password : String

pub record Pems : Type 0 where
  pub ca : List ℕ
  pub cert : List ℕ
  pub key : List ℕ

pub record Delivery : Type 0 where
  pub compression : String
  pub acks : String
  pub max_attempts : ℤ
  pub write_timeout : ℤ
  pub auto_create : Bool

module _ (lib : Library) where
  -- The checks of the protocol and the three SASL settings.
  unfoldable pub check_sasl : Sasl → Result Sasl
  check_sasl s =
      if not (str_eq s.protocol "") && not (contains kafka_protocols s.protocol)
      then failed "SECURITY_PROTOCOL is not a protocol"
      else if not (str_eq s.mechanism "") && not (contains kafka_mechanisms s.mechanism)
      then failed "SASL_MECHANISM is not a mechanism"
      else if lib.has_prefix s.protocol "SASL"
      then if str_eq s.mechanism ""
        then failed "SECURITY_PROTOCOL requires SASL_MECHANISM"
        else if str_eq s.username "" || str_eq s.password ""
        then failed "SECURITY_PROTOCOL requires SASL_USERNAME and SASL_PASSWORD"
        else ok s
      else if not (str_eq s.mechanism "")
      then failed "SASL_MECHANISM is set but SECURITY_PROTOCOL is not a SASL_* protocol"
      else ok s

  unfoldable pub read_sasl : (String → String) → Sasl
  read_sasl get = record {
    protocol = lib.upper (get "SECURITY_PROTOCOL");
    mechanism = lib.upper (get "SASL_MECHANISM");
    username = get "SASL_USERNAME";
    password = get "SASL_PASSWORD";
  }

  -- `decodePEM`
  unfoldable pub decode_pem : String → Result (List ℕ)
  decode_pem src = if str_eq src "" then ok [] else do
    raw ← wrapped "not valid base64" (lib.decode_base64 src)
    refuse (not (lib.is_pem raw)) "decodes to something that is not PEM" (ok raw)

  abbrev pub no_bytes : List ℕ → Bool
  no_bytes [] = true
  no_bytes (b ∷ bytes) = false

  abbrev xor : Bool → Bool → Bool
  xor true b = not b
  xor false b = b

  unfoldable pub check_pair : Pems → Result Pems
  check_pair p =
      if xor (no_bytes p.cert) (no_bytes p.key)
      then failed "SSL_CERT_PEM_B64 and SSL_KEY_PEM_B64 must be set together"
      else ok p

  unfoldable pub read_pems : (String → String) → Result Pems
  unfolding check_pair decode_pem
  read_pems get = do
    ca ← wrapped "SSL_CA_PEM_B64" (decode_pem (get "SSL_CA_PEM_B64"))
    cert ← wrapped "SSL_CERT_PEM_B64" (decode_pem (get "SSL_CERT_PEM_B64"))
    key ← wrapped "SSL_KEY_PEM_B64" (decode_pem (get "SSL_KEY_PEM_B64"))
    check_pair (record { ca = ca; cert = cert; key = key })

  abbrev pub max_attempts_of : (String → String) → Result ℤ
  max_attempts_of get = int_or_default lib (get "MAX_ATTEMPTS") default_kafka_max_attempts

  unfoldable pub at_least_one : ℤ → Result ℤ
  at_least_one n = if ltb_ℤ n (pos 1) then failed "MAX_ATTEMPTS must be at least 1" else ok n

  abbrev pub delivery : String → String → ℤ → ℤ → Bool → Delivery
  delivery compression acks max_attempts write_timeout auto_create = record {
    compression = compression;
    acks = acks;
    max_attempts = max_attempts;
    write_timeout = write_timeout;
    auto_create = auto_create;
  }

  abbrev pub timeout_of : (String → String) → Result ℤ
  timeout_of get = duration_or_default lib (get "WRITE_TIMEOUT") default_kafka_write_timeout

  abbrev pub auto_create_of : (String → String) → Result Bool
  auto_create_of get = bool_or_default lib (get "ALLOW_AUTO_TOPIC_CREATION") false

  unfoldable pub read_delivery : (String → String) → Result Delivery
  unfolding int_or_default bool_or_default duration_or_default or_default at_least_one
  read_delivery get =
      let compression = lib.lower (or_default (get "COMPRESSION") "none") in
      let acks = lib.lower (or_default (get "REQUIRED_ACKS") "all") in
      refuse (not (contains kafka_compression compression)) "COMPRESSION is not a compression" (
        refuse (not (contains kafka_acks acks)) "REQUIRED_ACKS is not a setting of it" (do
          read ← wrapped "MAX_ATTEMPTS" (max_attempts_of get)
          max_attempts ← at_least_one read
          write_timeout ← wrapped "WRITE_TIMEOUT" (timeout_of get)
          auto_create ← wrapped "ALLOW_AUTO_TOPIC_CREATION" (auto_create_of get)
          ok (delivery compression acks max_attempts write_timeout auto_create)))

  abbrev pub assemble : String → Naming → List String → Sasl → Pems → Delivery → KafkaDriver
  assemble name naming brokers s p d = record {
    name = name;
    naming = naming;
    brokers = brokers;
    security_protocol = s.protocol;
    sasl_mechanism = s.mechanism;
    sasl_username = s.username;
    sasl_password = s.password;
    ssl_ca_pem = p.ca;
    ssl_cert_pem = p.cert;
    ssl_key_pem = p.key;
    compression = d.compression;
    required_acks = d.acks;
    max_attempts = d.max_attempts;
    write_timeout = d.write_timeout;
    allow_auto_topic_creation = d.auto_create;
  }

  -- `buildKafkaDriver`
  unfoldable pub build_kafka_driver : String → Naming → (String → String) → Result KafkaDriver
  unfolding check_sasl read_sasl read_pems read_delivery parse_list
  build_kafka_driver name naming get =
      let brokers = parse_list lib (get "BROKERS") in
      refuse (length brokers == 0) "BROKERS is required" (do
        s ← check_sasl (read_sasl get)
        p ← read_pems get
        d ← read_delivery get
        ok (assemble name naming brokers s p d))
