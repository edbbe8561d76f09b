-- ===== src/Core/Errors.antt =====
-- internal/core/errors.go: error values, and the two questions that the dispatcher asks of one.
--
-- A Go error is a tree: `Unwrap` leads from a wrapper to what it wraps, and `errors.Join` joins
-- several. `errors.As` searches it in preorder.
use go_outbox.Base.{◌≡◌, ap, ℕ, String, Bool, true, false, ◌||◌, Option, none, some}

-- The errors that wrap nothing, those of other packages included as far as the source tells them
-- apart, are `Leaf`. A foreign error that wraps another is the join of a leaf and what it wraps,
-- which `errors.As` searches in the same order.
--
-- The protocol errors of Kafka that the source names, and the others.
pub data KafkaError : Type 0 where
  message_size_too_large record_list_too_large invalid_topic invalid_record : KafkaError
  topic_authorization_failed cluster_authorization_failed : KafkaError
  sasl_authentication_failed unsupported_for_message_format : KafkaError
  unknown_topic_or_partition : KafkaError
  leader_not_available not_leader_for_partition broker_not_available : KafkaError
  replica_not_available listener_not_found network_exception request_timed_out : KafkaError
  kafka_storage_error not_enough_replicas not_enough_replicas_after_append : KafkaError
  other_kafka : ℕ → KafkaError

pub data Leaf : Type 0 where
  text : String → Leaf
  unknown_stream unknown_driver lease_lost : Leaf
  -- context.DeadlineExceeded and context.Canceled
  deadline_exceeded canceled : Leaf
  -- kafka.Error
  kafka : KafkaError → Leaf
  -- pgconn.PgError, by its SQLSTATE and message
  server : String → String → Leaf
  -- pgconn.ConnectError, an error that is a net.Error and nothing else, io.EOF,
  -- io.ErrUnexpectedEOF
  connect network eof unexpected_eof : Leaf
  -- rabbitmq.ErrNotConnected and amqp.ErrClosed
  not_connected amqp_closed : Leaf

pub data Err : Type 0 where
  leaf : Leaf → Err
  -- fmt.Errorf with %w
  wrap : String → Err → Err
  join : Err → Err → Err
  permanent_error unavailable_error : String → Err → Err
  -- the same with a nil `Err` field
  permanent_bare unavailable_bare : String → Err

unfoldable pub permanent : String → Err → Err
permanent reason err = permanent_error reason err

unfoldable pub unavailable : String → Err → Err
unavailable reason err = unavailable_error reason err

-- `errors.As` with a *PermanentError.
unfoldable pub is_permanent : Err → Bool
is_permanent (leaf l) = false
is_permanent (wrap s e) = is_permanent e
is_permanent (join e f) = is_permanent e || is_permanent f
is_permanent (permanent_error r e) = true
is_permanent (unavailable_error r e) = is_permanent e
is_permanent (permanent_bare r) = true
is_permanent (unavailable_bare r) = false

-- `errors.As` with an *UnavailableError.
unfoldable pub is_unavailable : Err → Bool
is_unavailable (leaf l) = false
is_unavailable (wrap s e) = is_unavailable e
is_unavailable (join e f) = is_unavailable e || is_unavailable f
is_unavailable (permanent_error r e) = is_unavailable e
is_unavailable (unavailable_error r e) = true
is_unavailable (permanent_bare r) = false
is_unavailable (unavailable_bare r) = true

abbrev first_some {ℓ} : {A : Type ℓ} → Option A → Option A → Option A
first_some none b = b
first_some (some a) b = some a

-- The preorder search of `errors.As` and `errors.Is` for a leaf that a test accepts.
unfoldable pub find_leaf {ℓ} : {A : Type ℓ} → (Leaf → Option A) → Err → Option A
find_leaf p (leaf l) = p l
find_leaf p (wrap s e) = find_leaf p e
find_leaf p (join e f) = first_some (find_leaf p e) (find_leaf p f)
find_leaf p (permanent_error r e) = find_leaf p e
find_leaf p (unavailable_error r e) = find_leaf p e
find_leaf p (permanent_bare r) = none
find_leaf p (unavailable_bare r) = none

-- A value or an error, as a Go function returns them.
pub data Result {ℓ} (A : Type ℓ) : Type ℓ where
  ok : A → Result A
  err : Err → Result A

infixl 5 ◌>>=◌
abbrev pub ◌>>=◌ {ℓ κ} : {A : Type ℓ} {B : Type κ} → Result A → (A → Result B) → Result B
ok a >>= f = f a
err e >>= f = err e

-- `fmt.Errorf("…: %w", err)` round a call.
abbrev pub wrapped {ℓ} : {A : Type ℓ} → String → Result A → Result A
wrapped s (ok a) = ok a
wrapped s (err e) = err (wrap s e)

pub wrapped-eq-ok {ℓ} :
    {A : Type ℓ} (s : String) (m : Result A) {a : A} → wrapped s m ≡ ok a → m ≡ ok a
wrapped-eq-ok s (ok a) h = h
wrapped-eq-ok s (err e) h = cc

pub ok_eq {ℓ} : {A : Type ℓ} {a b : A} → ok a ≡ ok b → a ≡ b
ok_eq {a = a} h = ap (λ r. elim r [ ok x ↦ x | err e ↦ a ]) h
