-- ===== src/Observability/Cardinality.antt =====
-- The labels of the metrics are bounded by the configuration.
use go_outbox.Base.{◌≡◌, refl, true, List, [], ◌∷◌, String, All, inl, inr, str_eq_iff, arith, map}
use go_outbox.Config.Environment.{contains}
use go_outbox.Observability.{DomainEvent, observe_all}
use go_outbox.Config.{BrokerConfig}
use go_outbox.Observability.Start.{new, stream_series, driver_series, pair_series, paused_series}
use go_outbox.Observability.Labels.{own_labels, Known, KnownSeries, append-KnownSeries}
use go_outbox.Observability.Preserved.{Bounded, observe_all-Bounded, observe_all-known}

All-mono :
    (P Q : String → Type 0) (xs : List String) → ((s : String) → P s → Q s) → All P xs → All Q xs
All-mono P Q [] step all = tt
All-mono P Q (x ∷ xs) step (p, all) = (step x p, All-mono P Q xs step all)

-- A list has each of its elements.
All-contains_self : (xs : List String) → All (λ s. contains xs s ≡ true) xs
unfolding contains
All-contains_self [] = tt
All-contains_self (x ∷ xs) = (
  ground (arith, str_eq_iff x x),
  All-mono (λ s. contains xs s ≡ true) (λ s. contains (x ∷ xs) s ≡ true) xs (λ s h. ground arith)
      (All-contains_self xs),
)

module _ (streams drivers : List String) where
  driver_series-KnownSeries :
      (a : String) (ds : List String)
      → contains streams a ≡ true
      → All (λ d. contains drivers d ≡ true) ds
      → KnownSeries streams drivers (driver_series a ds)
  unfolding contains
  driver_series-KnownSeries a [] s all = tt
  driver_series-KnownSeries a (d ∷ ds) s (p, all) =
      let stream : Known streams drivers a = inl s in
      let driver : Known streams drivers d = inr (inl p) in
      append-KnownSeries streams drivers (pair_series a d) (driver_series a ds)
        (
          (stream, (driver, tt)),
          (
            (stream, (driver, tt)),
            (
              (stream, (driver, tt)),
              (
                (stream, (driver, (inr (inr refl), tt))),
                (
                  (stream, (driver, (inr (inr refl), tt))),
                  (
                    (stream, (driver, (inr (inr refl), tt))),
                    (
                      (stream, (driver, (inr (inr refl), tt))),
                      ((stream, (driver, (inr (inr refl), tt))), tt),
                    ),
                  ),
                ),
              ),
            ),
          ),
        )
        (driver_series-KnownSeries a ds s all)

  stream_series-KnownSeries :
      (ss : List String)
      → All (λ s. contains streams s ≡ true) ss
      → KnownSeries streams drivers (stream_series ss drivers)
  unfolding stream_series
  stream_series-KnownSeries [] all = tt
  stream_series-KnownSeries (s ∷ ss) (p, all) = (
    (inl p, tt),
    (
      (inl p, tt),
      append-KnownSeries streams drivers (driver_series s drivers) (stream_series ss drivers)
          (driver_series-KnownSeries s drivers p (All-contains_self drivers))
          (stream_series-KnownSeries ss all),
    ),
  )

  paused_series-KnownSeries :
      (ss : List String)
      → All (λ s. contains streams s ≡ true) ss
      → KnownSeries streams drivers (paused_series ss)
  paused_series-KnownSeries [] all = tt
  paused_series-KnownSeries (s ∷ ss) (p, all) = ((inl p, tt), paused_series-KnownSeries ss all)

new-Bounded :
    (sort : List String → List String) (brokers : BrokerConfig) → Bounded (new sort brokers)
unfolding new contains
new-Bounded sort brokers =
    let streams = sort (map (λ (name, s). name) brokers.streams) in
    let drivers = sort (map (λ (name, d). name) brokers.drivers) in
    let own : (l : String) → contains own_labels l ≡ true → Known streams drivers l =
      λ l h. inr (inr h) in
    record {
      counters =
          append-KnownSeries streams drivers (stream_series streams drivers) _
            (stream_series-KnownSeries streams drivers streams (All-contains_self streams))
            (tt, (tt, tt));
      gauges =
          append-KnownSeries streams drivers (paused_series streams) _
            (paused_series-KnownSeries streams drivers streams (All-contains_self streams))
            (
              (own "pending" refl, tt),
              ((own "processing" refl, tt), ((own "failed" refl, tt), (tt, (tt, (tt, tt))))),
            );
    }

-- Whatever events a process observes, of whatever streams and drivers, the labels of every series
-- of its metrics are names of the streams and drivers that were configured when it started, or
-- among the few that the code itself writes.
pub metrics-Bounded :
    (sort : List String → List String) (brokers : BrokerConfig) (events : List DomainEvent)
    → let m = observe_all events (new sort brokers) in
      Bounded m
      × (m.known_streams ≡ sort (map (λ (name, s). name) brokers.streams))
      × (m.known_drivers ≡ sort (map (λ (name, d). name) brokers.drivers))
unfolding new
metrics-Bounded sort brokers events =
    let (streams, drivers) = observe_all-known events (new sort brokers) in
    (observe_all-Bounded events (new sort brokers) (new-Bounded sort brokers), streams, drivers)
