-- ===== src/Observability/Start.antt =====
-- `New` and `preCreate` of internal/observability/metrics.go: the metric set of a process that starts.
use go_outbox.Base.{ℕ, List, [], ◌∷◌, ◌++◌, String, map}
use go_outbox.Base.Int.{ℤ, pos}
use go_outbox.Config.{BrokerConfig}
use go_outbox.Observability.{Series, Metrics}

-- The series that `preCreate` makes for a stream and a driver.
abbrev pub pair_series : String → String → List (Series × ℕ)
pair_series stream driver =
    ("messages_dispatched_total" ∷ stream ∷ driver ∷ [], 0)
    ∷ ("messages_retried_total" ∷ stream ∷ driver ∷ [], 0)
    ∷ ("messages_deferred_total" ∷ stream ∷ driver ∷ [], 0)
    ∷ ("messages_claimed_total" ∷ stream ∷ driver ∷ "initial" ∷ [], 0)
    ∷ ("messages_claimed_total" ∷ stream ∷ driver ∷ "retry" ∷ [], 0)
    ∷ ("messages_failed_total" ∷ stream ∷ driver ∷ "permanent" ∷ [], 0)
    ∷ ("messages_failed_total" ∷ stream ∷ driver ∷ "attempts_exhausted" ∷ [], 0)
    ∷ ("messages_failed_total" ∷ stream ∷ driver ∷ "unreachable" ∷ [], 0)
    ∷ []

abbrev pub driver_series : String → List String → List (Series × ℕ)
driver_series stream [] = []
driver_series stream (d ∷ rest) = pair_series stream d ++ driver_series stream rest

-- The loops of `preCreate`.
unfoldable pub stream_series : List String → List String → List (Series × ℕ)
stream_series [] drivers = []
stream_series (s ∷ rest) drivers =
    ("messages_reclaimed_total" ∷ s ∷ [], 0)
    ∷ ("lease_conflicts_total" ∷ s ∷ [], 0)
    ∷ (driver_series s drivers ++ stream_series rest drivers)

abbrev pub paused_series : List String → List (Series × ℤ)
paused_series [] = []
paused_series (s ∷ rest) = ("stream_paused" ∷ s ∷ [], pos 0) ∷ paused_series rest

-- `New`, with `preCreate`; `sort` is slices.Sort.
unfoldable pub new : (List String → List String) → BrokerConfig → Metrics
unfolding stream_series
new sort brokers =
    let streams = sort (map (λ (name, s). name) brokers.streams) in
    let drivers = sort (map (λ (name, d). name) brokers.drivers) in
    record {
      known_streams = streams;
      known_drivers = drivers;
      counters =
          stream_series streams drivers
          ++ (("partitions_dropped_total" ∷ [], 0) ∷ ("retention_deleted_total" ∷ [], 0) ∷ []);
      gauges =
          paused_series streams
          ++ (("messages_by_status" ∷ "pending" ∷ [], pos 0)
              ∷ ("messages_by_status" ∷ "processing" ∷ [], pos 0)
              ∷ ("messages_by_status" ∷ "failed" ∷ [], pos 0)
              ∷ ("oldest_pending_age_seconds" ∷ [], pos 0)
              ∷ ("messages_deferred" ∷ [], pos 0)
              ∷ ("default_partition_rows" ∷ [], pos 0)
              ∷ []);
    }
