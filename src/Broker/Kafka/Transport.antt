-- ===== src/Broker/Kafka/Transport.antt =====
-- internal/broker/kafka/kafka.go: setting a publisher up from the settings of its driver.
--
-- Parameters, of the client library, crypto/tls and crypto/x509: the SASL mechanisms (`plain`,
-- `scram`), whether a pool takes a certificate from a bundle (`usable`), the pairing of a
-- certificate with its key (`key_pair`), and what dialling an address answers (`dial`).
use go_outbox.Base.{
  ℕ, Bool, true, false, not, ◌&&◌, ◌||◌, Option, none, some, List, [], ◌∷◌, ◌++◌, String, str_eq,
  if◌then◌else◌,
}
use go_outbox.Base.Int.{ℤ}
use go_outbox.Core.Errors.{Err, leaf, text, wrap, join, Result, ok, err}
use go_outbox.Config.Environment.{Library, ◌>>=◌, refuse}
use go_outbox.Config.Drivers.{KafkaDriver}

pub data Acks : Type 0 where
  require_none require_one require_all : Acks

pub data Compression : Type 0 where
  uncompressed gzip snappy lz4 zstd : Compression

pub data Algorithm : Type 0 where
  sha256 sha512 : Algorithm

-- `requiredAcks`
unfoldable pub required_acks : (String → String) → String → Acks
required_acks lower s =
    if str_eq (lower s) "none"
    then require_none
    else if str_eq (lower s) "one"
    then require_one
    else require_all

-- `compression`
unfoldable pub compression : (String → String) → String → Compression
compression lower s =
    if str_eq (lower s) "gzip"
    then gzip
    else if str_eq (lower s) "snappy"
    then snappy
    else if str_eq (lower s) "lz4"
    then lz4
    else if str_eq (lower s) "zstd"
    then zstd
    else uncompressed

abbrev pub has_bytes : List ℕ → Bool
has_bytes [] = false
has_bytes (b ∷ bytes) = true

pub record TlsConfig (Certificate : Type 0) : Type 0 where
  pub root_cas : Option (List ℕ)
  pub certificate : Option Certificate

pub record Transport (Certificate Mechanism : Type 0) : Type 0 where
  pub tls : Option (TlsConfig Certificate)
  pub sasl : Option Mechanism

-- kafka.Writer, by the fields that a setting decides.
pub record Writer (Certificate Mechanism : Type 0) : Type 0 where
  pub brokers : List String
  pub transport : Transport Certificate Mechanism
  pub required_acks : Acks
  pub compression : Compression
  pub max_attempts : ℤ
  pub write_timeout : ℤ
  pub allow_auto_topic_creation : Bool

module _ {Certificate Mechanism : Type 0} (lib : Library) (plain : String → String → Mechanism)
    (scram : Algorithm → String → String → Result Mechanism) (usable : List ℕ → Bool)
    (key_pair : List ℕ → List ℕ → Result Certificate) where
  abbrev pub optional : Result Mechanism → Result (Option Mechanism)
  optional (ok m) = ok (some m)
  optional (err e) = err e

  -- `saslMechanism`
  unfoldable pub sasl_mechanism : KafkaDriver → Result (Option Mechanism)
  sasl_mechanism d =
      if str_eq d.sasl_mechanism ""
      then ok none
      else if str_eq (lib.upper d.sasl_mechanism) "PLAIN"
      then ok (some (plain d.sasl_username d.sasl_password))
      else if str_eq (lib.upper d.sasl_mechanism) "SCRAM-SHA-256"
      then optional (scram sha256 d.sasl_username d.sasl_password)
      else if str_eq (lib.upper d.sasl_mechanism) "SCRAM-SHA-512"
      then optional (scram sha512 d.sasl_username d.sasl_password)
      else err (leaf (text "kafka: unsupported SASL mechanism"))

  abbrev pub over_tls : KafkaDriver → Bool
  over_tls d =
      lib.equal_fold d.security_protocol "SSL" || lib.equal_fold d.security_protocol "SASL_SSL"

  abbrev pub needs_tls : KafkaDriver → Bool
  needs_tls d = over_tls d || (has_bytes d.ssl_ca_pem || has_bytes d.ssl_cert_pem)

  abbrev pub root_cas : KafkaDriver → Result (Option (List ℕ))
  root_cas d =
      if has_bytes d.ssl_ca_pem
      then refuse (not (usable d.ssl_ca_pem)) "kafka: the CA bundle contains no usable certificate"
          (ok (some d.ssl_ca_pem))
      else ok none

  abbrev one_certificate : Result Certificate → Result (Option Certificate)
  one_certificate (ok c) = ok (some c)
  one_certificate (err e) = err (wrap "kafka: client certificate" e)

  abbrev pub certificate : KafkaDriver → Result (Option Certificate)
  certificate d =
      if has_bytes d.ssl_cert_pem && has_bytes d.ssl_key_pem
      then one_certificate (key_pair d.ssl_cert_pem d.ssl_key_pem)
      else ok none

  abbrev pub tls_of : KafkaDriver → Result (Option (TlsConfig Certificate))
  tls_of d = do
    roots ← root_cas d
    own ← certificate d
    ok (some (record { root_cas = roots; certificate = own }))

  -- `tlsConfig`
  unfoldable pub tls_config : KafkaDriver → Result (Option (TlsConfig Certificate))
  tls_config d = if not (needs_tls d) then ok none else tls_of d

  -- `newTransport`
  unfoldable pub new_transport : KafkaDriver → Result (Transport Certificate Mechanism)
  unfolding tls_config sasl_mechanism
  new_transport d = do
    tls ← tls_config d
    sasl ← sasl_mechanism d
    ok (record { tls = tls; sasl = sasl })

  abbrev join_errors : List Err → Err
  join_errors [] = leaf (text "")
  join_errors (e ∷ []) = e
  join_errors (e ∷ f ∷ errs) = join e (join_errors (f ∷ errs))

  module _ (dial : String → Option Err) where
    -- The loop of `probe`, with the errors so far.
    unfoldable pub probe : List Err → List String → Option Err
    probe errs [] = some (wrap "kafka: no broker answered" (join_errors errs))
    probe errs (addr ∷ rest) = elim (dial addr) [
      | none ↦ none
      | some e ↦ probe (errs ++ wrap addr e ∷ []) rest
    ]

    abbrev pub probed : Option Err → Result (Unit {0})
    probed none = ok tt
    probed (some e) = err e

    -- `New`
    unfoldable pub new : KafkaDriver → Result (Writer Certificate Mechanism)
    unfolding new_transport probe required_acks compression
    new d = do
      transport ← new_transport d
      answered ← probed (probe [] d.brokers)
      ok (record {
        brokers = d.brokers;
        transport = transport;
        required_acks = required_acks lib.lower d.required_acks;
        compression = compression lib.lower d.compression;
        max_attempts = d.max_attempts;
        write_timeout = d.write_timeout;
        allow_auto_topic_creation = d.allow_auto_topic_creation;
      })

-- `HealthCheck` and `Close`, by what the client library answers.
unfoldable pub health_check : Option Err → Option Err
health_check none = none
health_check (some e) = some (wrap "kafka: metadata" e)

unfoldable pub close : Option Err → Option Err
close none = none
close (some e) = some (wrap "kafka: close writer" e)
