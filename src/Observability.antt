-- ===== src/Observability.antt =====
-- internal/observability (metrics.go, observer.go) and the events of internal/events: what each
-- event adds to the metrics.
--
-- A series is the name of its metric followed by its label values. Of the client library the model
-- has that a counter or gauge is a value for each series, made when it is first asked for (`add`,
-- `set_gauge`). A histogram is the number of its observations, since the durations are not modelled.
-- Values are integers, where the client library has float64.
pub mod Start
pub mod Labels
pub mod Counts
pub mod Accounts
pub mod Preserved
pub mod Cardinality
use go_outbox.Base.{
  ℕ, ◌+◌, ◌-◌, Bool, true, false, ◌&&◌, Option, none, some, List, [], ◌∷◌, ◌++◌, String, str_eq,
  map, if◌then◌else◌, length, is_some, ltb,
}
use go_outbox.Base.Int.{ℤ, pos, pos_part}
use go_outbox.Core.Errors.{Err}
use go_outbox.Config.Environment.{contains}
use go_outbox.Store.Operations.{Delivered}
use go_outbox.Dispatch.Pipeline.{Iteration, Terminal}
use go_outbox.Dispatch.Publish.{Published}

abbrev pub Series : Type 0
Series = List String

abbrev pub same_series : Series → Series → Bool
same_series [] [] = true
same_series [] (b ∷ t) = false
same_series (a ∷ s) [] = false
same_series (a ∷ s) (b ∷ t) = str_eq a b && same_series s t

-- `WithLabelValues`, which makes the series if it is not there, with `Add`.
unfoldable pub add : Series → ℕ → List (Series × ℕ) → List (Series × ℕ)
add s n [] = (s, n) ∷ []
add s n ((t, m) ∷ rest) = if same_series t s then (t, m + n) ∷ rest else (t, m) ∷ add s n rest

unfoldable pub add_all : List (Series × ℕ) → List (Series × ℕ) → List (Series × ℕ)
add_all [] counters = counters
add_all ((s, n) ∷ rest) counters = add_all rest (add s n counters)

-- `Set` of a gauge.
unfoldable pub set_gauge : Series → ℤ → List (Series × ℤ) → List (Series × ℤ)
set_gauge s v [] = (s, v) ∷ []
set_gauge s v ((t, w) ∷ rest) =
    if same_series t s then (t, v) ∷ rest else (t, w) ∷ set_gauge s v rest

pub record Metrics : Type 0 where
  pub known_streams : List String
  pub known_drivers : List String
  pub counters : List (Series × ℕ)
  pub gauges : List (Series × ℤ)

abbrev pub unknown_label : String
unknown_label = "__unknown__"

abbrev pub bounded : List String → String → String
bounded known name = if contains known name then name else unknown_label

-- `Metrics.Stream`
unfoldable pub stream_label : Metrics → String → String
stream_label m name = bounded m.known_streams name

-- `Metrics.Driver`
unfoldable pub driver_label : Metrics → String → String
driver_label m name = bounded m.known_drivers name

-- `Attempt`
unfoldable pub attempt : ℕ → String
attempt n = if ltb 0 n then "retry" else "initial"

-- `ErrorKind`
unfoldable pub error_kind : Bool → Bool → String
error_kind permanent deferred =
    if permanent then "permanent" else if deferred then "unavailable" else "retryable"

-- The switch on a message that stopped being retried.
unfoldable pub failure_reason : Terminal → String
failure_reason f =
    if f.permanent then "permanent" else if f.deferred then "unreachable" else "attempts_exhausted"

abbrev pub some_of : Series → ℕ → List (Series × ℕ)
some_of s n = if ltb 0 n then (s, n) ∷ [] else []

-- What the loop over the publishes adds.
unfoldable pub publish_counts : String → String → List Published → List (Series × ℕ)
unfolding error_kind
publish_counts stream driver [] = []
publish_counts stream driver (p ∷ rest) =
    let others = publish_counts stream driver rest in
    if is_some p.err
    then (
      "broker_errors_total" ∷ stream ∷ driver ∷ "publish" ∷ error_kind p.permanent p.deferred ∷ [],
      1,
    )
      ∷ ("publish_duration_seconds" ∷ stream ∷ driver ∷ "error" ∷ [], 1)
      ∷ others
    else ("publish_duration_seconds" ∷ stream ∷ driver ∷ "success" ∷ [], 1) ∷ others

-- What the loop over the deliveries adds.
unfoldable pub delivery_counts : String → String → List Delivered → List (Series × ℕ)
delivery_counts stream driver [] = []
delivery_counts stream driver (d ∷ rest) =
    ("messages_dispatched_total" ∷ stream ∷ driver ∷ [], 1)
    ∷ ("delivery_lag_seconds" ∷ stream ∷ driver ∷ [], 1)
    ∷ delivery_counts stream driver rest

-- What the loop over the failures adds.
unfoldable pub failure_counts : String → String → List Terminal → List (Series × ℕ)
unfolding failure_reason
failure_counts stream driver [] = []
failure_counts stream driver (f ∷ rest) =
    ("messages_failed_total" ∷ stream ∷ driver ∷ failure_reason f ∷ [], 1)
    ∷ failure_counts stream driver rest

-- `onIteration`, at the bounded labels: what it adds, in order. `Claimed - Retries` is an integer,
-- and nothing is added where it is not positive.
unfoldable pub iteration_counts : String → String → Iteration → List (Series × ℕ)
unfolding publish_counts delivery_counts failure_counts
iteration_counts stream driver ev =
    ("batch_size" ∷ stream ∷ [], 1)
    ∷ ("iteration_duration_seconds" ∷ stream ∷ [], 1)
    ∷ (some_of ("messages_claimed_total" ∷ stream ∷ driver ∷ "initial" ∷ [])
          (ev.claimed - ev.retries)
        ++ (some_of ("messages_claimed_total" ∷ stream ∷ driver ∷ "retry" ∷ []) ev.retries
            ++ (publish_counts stream driver ev.publishes
                ++ (delivery_counts stream driver ev.delivered
                    ++ (some_of ("messages_retried_total" ∷ stream ∷ driver ∷ [])
                          (length ev.requeued)
                        ++ (some_of ("messages_deferred_total" ∷ stream ∷ driver ∷ [])
                              (length ev.deferred)
                            ++ (failure_counts stream driver ev.failed
                                ++ some_of ("lease_conflicts_total" ∷ stream ∷ [])
                                    (pos_part ev.conflicts))))))))

-- The events on the bus.
pub data DomainEvent : Type 0 where
  iteration : String → String → Iteration → DomainEvent
  reclaimed : String → DomainEvent
  -- pending, processing, failed, deferred, and the age of the oldest
  stats : ℤ → ℤ → ℤ → ℤ → ℤ → DomainEvent
  partitions : ℕ → ℤ → DomainEvent
  retention : ℕ → DomainEvent
  breaker : String → Bool → DomainEvent
  dead_letter : String → Option Err → DomainEvent

abbrev pub count : List (Series × ℕ) → Metrics → Metrics
count added m = record m { counters = add_all added m.counters }

abbrev pub gauge : String → List String → ℤ → List (Series × ℤ) → List (Series × ℤ)
gauge name labels v gauges = set_gauge (name ∷ labels) v gauges

abbrev pub flag : Bool → ℤ
flag true = pos 1
flag false = pos 0

abbrev pub outcome : Option Err → String
outcome none = "success"
outcome (some e) = "error"

abbrev pub reclaimed_counts : String → List (Series × ℕ)
reclaimed_counts stream =
    ("messages_reclaimed_total" ∷ stream ∷ [], 1)
    ∷ ("reclaimed_processing_age_seconds" ∷ stream ∷ [], 1)
    ∷ []

abbrev pub partition_counts : ℕ → List (Series × ℕ)
partition_counts dropped = ("partitions_dropped_total" ∷ [], dropped) ∷ []

abbrev pub retention_counts : ℕ → List (Series × ℕ)
retention_counts deleted = ("retention_deleted_total" ∷ [], deleted) ∷ []

abbrev pub dead_letter_counts : String → Option Err → List (Series × ℕ)
dead_letter_counts stream e = ("dlq_published_total" ∷ stream ∷ outcome e ∷ [], 1) ∷ []

-- `ObserveStatusCounts`
unfoldable pub observe_status_counts : ℤ → ℤ → ℤ → ℤ → ℤ → List (Series × ℤ) → List (Series × ℤ)
unfolding set_gauge
observe_status_counts pending processing failed deferred oldest gauges =
    gauge "oldest_pending_age_seconds" [] oldest (
      gauge "messages_deferred" [] deferred (
        gauge "messages_by_status" ("failed" ∷ []) failed (
          gauge "messages_by_status" ("processing" ∷ []) processing
            (gauge "messages_by_status" ("pending" ∷ []) pending gauges))))

-- The handlers that `Subscribe` wires: onIteration, onReclaimed, onStats, onPartitions, onRetention,
-- onBreaker and onDeadLetter.
unfoldable pub observe : DomainEvent → Metrics → Metrics
unfolding stream_label driver_label iteration_counts add_all set_gauge observe_status_counts
observe (iteration stream driver ev) m =
    count (iteration_counts (stream_label m stream) (driver_label m driver) ev) m
observe (reclaimed stream) m = count (reclaimed_counts (stream_label m stream)) m
observe (stats pending processing failed deferred oldest) m = record m {
  gauges = observe_status_counts pending processing failed deferred oldest m.gauges;
}
observe (partitions dropped default_rows) m = record m {
  counters = add_all (partition_counts dropped) m.counters;
  gauges = gauge "default_partition_rows" [] default_rows m.gauges;
}
observe (retention deleted) m = count (retention_counts deleted) m
observe (breaker stream paused) m = record m {
  gauges = gauge "stream_paused" (stream_label m stream ∷ []) (flag paused) m.gauges;
}
observe (dead_letter stream e) m = count (dead_letter_counts (stream_label m stream) e) m

unfoldable pub observe_all : List DomainEvent → Metrics → Metrics
unfolding observe
observe_all [] m = m
observe_all (e ∷ rest) m = observe_all rest (observe e m)

-- `emit`: without a bus nothing is published, and an error of the bus is swallowed; `bus` is what
-- publishing on it does, of the client library.
unfoldable pub emit :
    Option (DomainEvent → Metrics → Option Err × Metrics) → DomainEvent → Metrics → Metrics
emit none e m = m
emit (some bus) e m = (bus e m).1
