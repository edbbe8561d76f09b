-- ===== src/Observability/Preserved.antt =====
-- The labels of the series stay among the known ones, whatever is observed.
use go_outbox.Base.{ℕ, ◌≡◌, refl, Option, none, some, List, [], ◌∷◌, String, inr, ◌∙◌}
use go_outbox.Base.Int.{ℤ}
use go_outbox.Core.Errors.{Err}
use go_outbox.Config.Environment.{contains}
use go_outbox.Observability.{
  Series, add_all, Metrics, stream_label, driver_label, iteration_counts, DomainEvent, iteration,
  reclaimed, stats, partitions, retention, breaker, dead_letter, observe, observe_all, outcome,
  observe_status_counts, reclaimed_counts, partition_counts, retention_counts, dead_letter_counts,
}
use go_outbox.Observability.Labels.{
  Known, KnownSeries, stream-Known, driver-Known, add_all-KnownSeries, set_gauge-KnownSeries,
  iteration_counts-KnownSeries,
}

-- The labels of all series that a metric set has.
pub record Bounded (m : Metrics) : Type 0 where
  pub counters : KnownSeries m.known_streams m.known_drivers m.counters
  pub gauges : KnownSeries m.known_streams m.known_drivers m.gauges

count-Bounded :
    (m : Metrics) (added : List (Series × ℕ))
    → KnownSeries m.known_streams m.known_drivers added
    → Bounded m
    → Bounded (record m { counters = add_all added m.counters })
count-Bounded m added k b = record {
  counters = add_all-KnownSeries m.known_streams m.known_drivers added m.counters k b.counters;
  gauges = b.gauges;
}

status-KnownSeries :
    (streams drivers : List String) (pending processing failed deferred oldest : ℤ)
    (gauges : List (Series × ℤ))
    → KnownSeries streams drivers gauges
    → KnownSeries streams drivers
        (observe_status_counts pending processing failed deferred oldest gauges)
unfolding observe_status_counts contains
status-KnownSeries streams drivers pending processing failed deferred oldest gauges k =
    let set = set_gauge-KnownSeries streams drivers in
    set _ oldest _ tt (
      set _ deferred _ tt (
        set _ failed _ (inr (inr refl), tt)
          (set _ processing _ (inr (inr refl), tt) (set _ pending _ (inr (inr refl), tt) k))))

outcome-Known : (streams drivers : List String) (e : Option Err) → Known streams drivers (outcome e)
unfolding contains
outcome-Known streams drivers none = inr (inr refl)
outcome-Known streams drivers (some e) = inr (inr refl)

observe-Bounded : (e : DomainEvent) (m : Metrics) → Bounded m → Bounded (observe e m)
unfolding observe stream_label driver_label
observe-Bounded (iteration stream driver ev) m b =
    count-Bounded m (iteration_counts (stream_label m stream) (driver_label m driver) ev)
      (iteration_counts-KnownSeries m.known_streams m.known_drivers _ _
        (stream-Known m.known_streams m.known_drivers stream)
        (driver-Known m.known_streams m.known_drivers driver) ev)
      b
observe-Bounded (reclaimed stream) m b =
    let known = stream-Known m.known_streams m.known_drivers stream in
    count-Bounded m (reclaimed_counts (stream_label m stream)) ((known, tt), ((known, tt), tt)) b
observe-Bounded (stats pending processing failed deferred oldest) m b = record {
  counters = b.counters;
  gauges =
      status-KnownSeries m.known_streams m.known_drivers pending processing failed deferred oldest
        m.gauges b.gauges;
}
observe-Bounded (partitions dropped default_rows) m b = record {
  counters =
      add_all-KnownSeries m.known_streams m.known_drivers (partition_counts dropped) m.counters
        (tt, tt) b.counters;
  gauges =
      set_gauge-KnownSeries m.known_streams m.known_drivers _ default_rows m.gauges tt b.gauges;
}
observe-Bounded (retention deleted) m b = count-Bounded m (retention_counts deleted) (tt, tt) b
observe-Bounded (breaker stream paused) m b = record {
  counters = b.counters;
  gauges =
      set_gauge-KnownSeries m.known_streams m.known_drivers _ _ m.gauges
        (stream-Known m.known_streams m.known_drivers stream, tt) b.gauges;
}
observe-Bounded (dead_letter stream e) m b =
    count-Bounded m (dead_letter_counts (stream_label m stream) e)
      (
        (
          stream-Known m.known_streams m.known_drivers stream,
          (outcome-Known m.known_streams m.known_drivers e, tt),
        ),
        tt,
      )
      b

pub observe_all-Bounded :
    (events : List DomainEvent) (m : Metrics) → Bounded m → Bounded (observe_all events m)
unfolding observe_all
observe_all-Bounded [] m b = b
observe_all-Bounded (e ∷ rest) m b = observe_all-Bounded rest (observe e m) (observe-Bounded e m b)

-- The known names stay those of the start.
pub observe_all-known :
    (events : List DomainEvent) (m : Metrics)
    → ((observe_all events m).known_streams ≡ m.known_streams)
      × ((observe_all events m).known_drivers ≡ m.known_drivers)
unfolding observe_all
observe_all-known [] m = (refl, refl)
observe_all-known (e ∷ rest) m =
    let (s, d) = observe_all-known rest (observe e m) in let (s', d') = known e in (s ∙ s', d ∙ d')
  where
    known :
        (e : DomainEvent)
        → ((observe e m).known_streams ≡ m.known_streams)
          × ((observe e m).known_drivers ≡ m.known_drivers)
    known (iteration stream driver ev) = unfold observe in (refl, refl)
    known (reclaimed stream) = unfold observe in (refl, refl)
    known (stats p q r s t) = unfold observe in (refl, refl)
    known (partitions n v) = unfold observe in (refl, refl)
    known (retention n) = unfold observe in (refl, refl)
    known (breaker stream p) = unfold observe in (refl, refl)
    known (dead_letter stream e) = unfold observe in (refl, refl)
