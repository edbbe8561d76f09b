-- ===== src/Broker/Kafka.antt =====
-- internal/broker/kafka/kafka.go: `classify`, what a failed write means, and `Publish`, which says
-- so for each message of a batch.
--
-- `title` and `temporary` are the methods of kafka.Error, of the client library.
pub mod Batches
pub mod Records
pub mod Transport
pub mod Configured
use go_outbox.Base.{
  List, length, replicate, map, ◌==◌, ◌≡◌, refl, Bool, true, false, ◌&&◌, ◌||◌, Option, none, some,
  String, if◌then◌else◌, is_some, arith, ◌⊎◌, some_eq,
}
use go_outbox.Core.{Message}
use go_outbox.Core.Errors.{
  Err, Leaf, KafkaError, kafka, eof, unexpected_eof, permanent, unavailable, find_leaf,
  is_permanent, is_unavailable,
}
use go_outbox.Broker.Postgres.{as_deadline, as_canceled, as_network}

abbrev pub as_kafka : Leaf → Option KafkaError
as_kafka (kafka k) = some k
as_kafka _ = none

abbrev pub as_eof : Leaf → Option Bool
as_eof eof = some true
as_eof unexpected_eof = some true
as_eof _ = none

-- The verdict of the switch on a protocol error.
pub data Verdict : Type 0 where
  condemned unknown_topic out_of_service by_protocol : Verdict

unfoldable pub verdict : KafkaError → Verdict
verdict KafkaError.message_size_too_large = condemned
verdict KafkaError.record_list_too_large = condemned
verdict KafkaError.invalid_topic = condemned
verdict KafkaError.invalid_record = condemned
verdict KafkaError.topic_authorization_failed = condemned
verdict KafkaError.cluster_authorization_failed = condemned
verdict KafkaError.sasl_authentication_failed = condemned
verdict KafkaError.unsupported_for_message_format = condemned
verdict KafkaError.unknown_topic_or_partition = unknown_topic
verdict KafkaError.leader_not_available = out_of_service
verdict KafkaError.not_leader_for_partition = out_of_service
verdict KafkaError.broker_not_available = out_of_service
verdict KafkaError.replica_not_available = out_of_service
verdict KafkaError.listener_not_found = out_of_service
verdict KafkaError.network_exception = out_of_service
verdict KafkaError.request_timed_out = out_of_service
verdict KafkaError.kafka_storage_error = out_of_service
verdict KafkaError.not_enough_replicas = out_of_service
verdict KafkaError.not_enough_replicas_after_append = out_of_service
verdict (KafkaError.other_kafka n) = by_protocol

module _ (title : KafkaError → String) (temporary : KafkaError → Bool) where
  unfoldable pub classify_protocol : KafkaError → Err → Err
  unfolding verdict
  classify_protocol k e = elim (verdict k) [
    | condemned ↦ permanent (title k) e
    | unknown_topic ↦ permanent "unknown topic" e
    | out_of_service ↦ unavailable (title k) e
    | by_protocol ↦ if temporary k then e else permanent (title k) e
  ]

  -- What is left when nothing spoke Kafka back.
  unfoldable pub classify_silence : Bool → Err → Err
  classify_silence parent_live e =
      if is_some (find_leaf as_deadline e) || is_some (find_leaf as_canceled e)
      then (if parent_live && is_some (find_leaf as_deadline e)
          then unavailable "write timed out" e
          else e)
      else if is_some (find_leaf as_network e)
      then unavailable "network" e
      else if is_some (find_leaf as_eof e)
      then unavailable "connection lost" e
      else e

  -- `classify` of an error; the absence of one stays so.
  unfoldable pub classify : Bool → Option Err → Option Err
  unfolding classify_protocol classify_silence
  classify parent_live none = none
  classify parent_live (some e) = some (elim (find_leaf as_kafka e) [
    | some k ↦ classify_protocol k e
    | none ↦ classify_silence parent_live e
  ])

  -- `Publish`, after the client library's write: no error, or an error for the batch, which may
  -- hold one answer for each message (kafka.WriteErrors).
  unfoldable pub publish :
      Bool → List Message → Option (Option (List (Option Err)) × Err) → List (Option Err)
  unfolding classify
  publish parent_live msgs none = replicate (length msgs) none
  publish parent_live msgs (some (none, e)) =
      replicate (length msgs) (classify parent_live (some e))
  publish parent_live msgs (some (some partial, e)) =
      if length partial == length msgs
      then map (classify parent_live) partial
      else replicate (length msgs) (classify parent_live (some e))

  -- What the cluster said when it could not take the write, or what its silence came with.
  abbrev pub Outage : Bool → Err → Option KafkaError → Type 0
  Outage live e (some k) = verdict k ≡ out_of_service
  Outage live e none =
      ((live ≡ true) × (is_some (find_leaf as_deadline e) ≡ true))
      ⊎ ((is_some (find_leaf as_canceled e) ≡ false)
          × ((is_some (find_leaf as_network e) ≡ true) ⊎ (is_some (find_leaf as_eof e) ≡ true)))

  protocol-Outage :
      (live : Bool) (k : KafkaError) (e : Err)
      → is_unavailable e ≡ false
      → is_permanent e ≡ false
      → is_unavailable (classify_protocol k e) ≡ true
      → Outage live e (some k) × (is_permanent (classify_protocol k e) ≡ false)
  unfolding classify_protocol permanent unavailable is_permanent is_unavailable
  protocol-Outage live k e u p h = by_verdict (verdict k) h
    where
      by_verdict :
          (v : Verdict)
          → let answer : Err = elim v [
            | condemned ↦ permanent (title k) e
            | unknown_topic ↦ permanent "unknown topic" e
            | out_of_service ↦ unavailable (title k) e
            | by_protocol ↦ if temporary k then e else permanent (title k) e
          ] in
            is_unavailable answer ≡ true → (v ≡ out_of_service) × (is_permanent answer ≡ false)
      by_verdict condemned h = cc
      by_verdict unknown_topic h = cc
      by_verdict out_of_service h = (refl, p)
      by_verdict by_protocol h = ground arith

  silence-Outage :
      (live : Bool) (e : Err)
      → is_unavailable e ≡ false
      → is_permanent e ≡ false
      → is_unavailable (classify_silence live e) ≡ true
      → Outage live e none × (is_permanent (classify_silence live e) ≡ false)
  unfolding classify_silence permanent unavailable is_permanent is_unavailable
  silence-Outage live e u p h = ground arith

  -- A failed write is put down to the cluster being out of reach only where a protocol error says
  -- that it cannot take the write, or nothing spoke Kafka back and either the write's own deadline
  -- passed while the caller was still running, or nothing was cancelled and the network failed or
  -- the connection ended. Such a failure is never permanent as well.
  pub kafka-Outage :
      (live : Bool) (e a : Err)
      → is_unavailable e ≡ false
      → is_permanent e ≡ false
      → classify live (some e) ≡ some a
      → is_unavailable a ≡ true
      → Outage live e (find_leaf as_kafka e) × (is_permanent a ≡ false)
  unfolding classify
  kafka-Outage live e a u p c h = by_answer (find_leaf as_kafka e) c
    where
      by_answer :
          (o : Option KafkaError)
          → some (elim o [ some k ↦ classify_protocol k e | none ↦ classify_silence live e ])
            ≡ some a
          → Outage live e o × (is_permanent a ≡ false)
      by_answer (some k) x =
          let same : classify_protocol k e ≡ a = some_eq x in
          rw (← same) (protocol-Outage live k e u p (rw (same) h))
      by_answer none x =
          let same : classify_silence live e ≡ a = some_eq x in
          rw (← same) (silence-Outage live e u p (rw (same) h))
