-- ===== src/Tests/OnMetrics.antt =====
-- The theorems on the metrics at concrete inputs.
use go_outbox.Base.{◌+◌, ◌≡◌, true, false, List, [], ◌∷◌, String, arith}
use go_outbox.Base.Int.{pos}
use go_outbox.Dispatch.Pipeline.{Iteration}
use go_outbox.Observability.{
  Metrics, iteration, reclaimed, observe, observe_all, stream_label, driver_label,
}
use go_outbox.Observability.Start.{new}
use go_outbox.Observability.Counts.{
  value, claimed, retried, deferrals, conflicts, dispatched, failed,
}
use go_outbox.Observability.Accounts.{observe-adds}
use go_outbox.Observability.Preserved.{Bounded}
use go_outbox.Observability.Cardinality.{metrics-Bounded}
use go_outbox.Tests.OnConfig.{settings}

abbrev unsorted : List String → List String
unsorted names = names

abbrev metrics : Metrics
metrics = new unsorted settings.brokers

-- Three messages, one of them a retry: accepted, refused for good, and returned.
abbrev cycle : Iteration
cycle = record {
  claimed = 3;
  retries = 1;
  publishes = [];
  released = 0;
  conflicts = pos 0;
  delivered = record { id = 1; stream = "orders"; lag = pos 5 } ∷ [];
  failed = record { id = 2; attempts = 1; permanent = true; deferred = false } ∷ [];
  deferred = [];
  requeued = 3 ∷ [];
}

observe-adds_example :
    let a = stream_label metrics "orders" in
    let d = driver_label metrics "forged" in
    let before = metrics.counters in
    let after = (observe (iteration "orders" "forged" cycle) metrics).counters in
    (value (dispatched a d) after ≡ value (dispatched a d) before + 1)
    × (value (retried a d) after ≡ value (retried a d) before + 1)
    × (value (deferrals a d) after ≡ value (deferrals a d) before + 0)
    × (value (conflicts a d) after ≡ value (conflicts a d) before + 0)
    × (value (failed a d "permanent") after
          + value (failed a d "unreachable") after
          + value (failed a d "attempts_exhausted") after
        ≡ value (failed a d "permanent") before
          + value (failed a d "unreachable") before
          + value (failed a d "attempts_exhausted") before
          + 1)
    × (value (claimed a d "initial") after + value (claimed a d "retry") after
        ≡ value (claimed a d "initial") before + value (claimed a d "retry") before + 3)
observe-adds_example = observe-adds metrics "orders" "forged" cycle (omega arith)

metrics-Bounded_example :
    let m =
      observe_all
        (reclaimed "forged" ∷ iteration "orders" "events" cycle ∷ [])
        (new unsorted settings.brokers) in
    Bounded m × (m.known_streams ≡ "orders" ∷ []) × (m.known_drivers ≡ "events" ∷ [])
metrics-Bounded_example =
    metrics-Bounded unsorted settings.brokers
      (reclaimed "forged" ∷ iteration "orders" "events" cycle ∷ [])
