-- ===== src/Observability/Accounts.antt =====
-- What one cycle adds to the counters.
use go_outbox.Base.{
  ℕ, ◌+◌, ◌-◌, ◌≤◌, ◌≡◌, ◌∙◌, refl, [], ◌∷◌, String, str_eq_iff, if◌then◌else◌, length, arith,
}
use go_outbox.Base.Int.{pos_part}
use go_outbox.Dispatch.Pipeline.{Iteration}
use go_outbox.Observability.{
  Series, same_series, Metrics, stream_label, driver_label, some_of, publish_counts,
  delivery_counts, failure_counts, iteration_counts, iteration, observe,
}
use go_outbox.Observability.Counts.{
  value, total, same_series_refl, value-add_all, total-append, publish-none, delivery-none,
  failure-none, claimed, retried, deferrals, conflicts, dispatched, failed, delivery-all,
  failure-all,
}

module _ (a d : String) (ev : Iteration) where
  total-iteration :
      (s : Series)
      → total s (iteration_counts a d ev)
        ≡ (if same_series ("batch_size" ∷ a ∷ []) s then 1 else 0)
          + ((if same_series ("iteration_duration_seconds" ∷ a ∷ []) s then 1 else 0)
              + (total s (some_of (claimed a d "initial") (ev.claimed - ev.retries))
                  + (total s (some_of (claimed a d "retry") ev.retries)
                      + (total s (publish_counts a d ev.publishes)
                          + (total s (delivery_counts a d ev.delivered)
                              + (total s (some_of (retried a d) (length ev.requeued))
                                  + (total s (some_of (deferrals a d) (length ev.deferred))
                                      + (total s (failure_counts a d ev.failed)
                                          + total s (
                                              some_of
                                                (conflicts a d)
                                                (pos_part ev.conflicts))))))))))
  unfolding iteration_counts
  total-iteration s = simp total-append

  some_of-total :
      (s t : Series) (n : ℕ) → total s (some_of t n) ≡ (if same_series t s then n else 0)
  some_of-total s t n = ground arith

  dispatched-total : total (dispatched a d) (iteration_counts a d ev) ≡ length ev.delivered
  dispatched-total =
      total-iteration (dispatched a d)
      ∙ ground (
        arith,
        delivery-all a d ev.delivered,
        publish-none a d "messages_dispatched_total" (a ∷ d ∷ []) ev.publishes refl refl,
        failure-none a d "messages_dispatched_total" (a ∷ d ∷ []) ev.failed refl,
      )

  retried-total : total (retried a d) (iteration_counts a d ev) ≡ length ev.requeued
  retried-total =
      total-iteration (retried a d)
      ∙ ground (
        arith,
        same_series_refl (retried a d),
        publish-none a d "messages_retried_total" (a ∷ d ∷ []) ev.publishes refl refl,
        delivery-none a d "messages_retried_total" (a ∷ d ∷ []) ev.delivered refl refl,
        failure-none a d "messages_retried_total" (a ∷ d ∷ []) ev.failed refl,
      )

  deferrals-total : total (deferrals a d) (iteration_counts a d ev) ≡ length ev.deferred
  deferrals-total =
      total-iteration (deferrals a d)
      ∙ ground (
        arith,
        same_series_refl (deferrals a d),
        publish-none a d "messages_deferred_total" (a ∷ d ∷ []) ev.publishes refl refl,
        delivery-none a d "messages_deferred_total" (a ∷ d ∷ []) ev.delivered refl refl,
        failure-none a d "messages_deferred_total" (a ∷ d ∷ []) ev.failed refl,
      )

  conflicts-total : total (conflicts a d) (iteration_counts a d ev) ≡ pos_part ev.conflicts
  conflicts-total =
      total-iteration (conflicts a d)
      ∙ ground (
        arith,
        same_series_refl (conflicts a d),
        publish-none a d "lease_conflicts_total" (a ∷ []) ev.publishes refl refl,
        delivery-none a d "lease_conflicts_total" (a ∷ []) ev.delivered refl refl,
        failure-none a d "lease_conflicts_total" (a ∷ []) ev.failed refl,
      )

  failed-total :
      (reason : String)
      → total (failed a d reason) (iteration_counts a d ev)
        ≡ total (failed a d reason) (failure_counts a d ev.failed)
  failed-total reason =
      total-iteration (failed a d reason)
      ∙ ground (
        arith,
        publish-none a d "messages_failed_total" (a ∷ d ∷ reason ∷ []) ev.publishes refl refl,
        delivery-none a d "messages_failed_total" (a ∷ d ∷ reason ∷ []) ev.delivered refl refl,
      )

  claimed-one :
      (kind : String)
      → total (claimed a d kind) (iteration_counts a d ev)
        ≡ (if same_series (claimed a d "initial") (claimed a d kind)
            then ev.claimed - ev.retries
            else 0)
          + (if same_series (claimed a d "retry") (claimed a d kind) then ev.retries else 0)
  claimed-one kind =
      total-iteration (claimed a d kind)
      ∙ ground (
        arith,
        some_of-total (claimed a d kind) (claimed a d "initial") (ev.claimed - ev.retries),
        some_of-total (claimed a d kind) (claimed a d "retry") ev.retries,
        publish-none a d "messages_claimed_total" (a ∷ d ∷ kind ∷ []) ev.publishes refl refl,
        delivery-none a d "messages_claimed_total" (a ∷ d ∷ kind ∷ []) ev.delivered refl refl,
        failure-none a d "messages_claimed_total" (a ∷ d ∷ kind ∷ []) ev.failed refl,
      )

  claimed-total :
      ev.retries ≤ ev.claimed
      → total (claimed a d "initial") (iteration_counts a d ev)
          + total (claimed a d "retry") (iteration_counts a d ev)
        ≡ ev.claimed
  claimed-total h =
      ground (arith, claimed-one "initial", claimed-one "retry", str_eq_iff a a, str_eq_iff d d)

-- What a cycle's event adds to the counters of its stream and driver: the accepted, the returned,
-- the deferred and the conflicting messages one each, the failed ones one each under one of the
-- three reasons, and the claimed ones one each as a first attempt or a retry, as long as no more of
-- them are retries than were claimed.
pub observe-adds :
    (m : Metrics) (stream driver : String) (ev : Iteration)
    → ev.retries ≤ ev.claimed
    → let a = stream_label m stream in
      let d = driver_label m driver in
      let before = m.counters in
      let after = (observe (iteration stream driver ev) m).counters in
      (value (dispatched a d) after ≡ value (dispatched a d) before + length ev.delivered)
      × (value (retried a d) after ≡ value (retried a d) before + length ev.requeued)
      × (value (deferrals a d) after ≡ value (deferrals a d) before + length ev.deferred)
      × (value (conflicts a d) after ≡ value (conflicts a d) before + pos_part ev.conflicts)
      × (value (failed a d "permanent") after
            + value (failed a d "unreachable") after
            + value (failed a d "attempts_exhausted") after
          ≡ value (failed a d "permanent") before
            + value (failed a d "unreachable") before
            + value (failed a d "attempts_exhausted") before
            + length ev.failed)
      × (value (claimed a d "initial") after + value (claimed a d "retry") after
          ≡ value (claimed a d "initial") before + value (claimed a d "retry") before + ev.claimed)
unfolding observe
observe-adds m stream driver ev h =
    let a = stream_label m stream in
    let d = driver_label m driver in
    let c = λ (s : Series). value-add_all s (iteration_counts a d ev) m.counters in
    (
      omega (arith, c (dispatched a d), dispatched-total a d ev),
      omega (arith, c (retried a d), retried-total a d ev),
      omega (arith, c (deferrals a d), deferrals-total a d ev),
      omega (arith, c (conflicts a d), conflicts-total a d ev),
      omega (
        arith,
        c (failed a d "permanent"),
        c (failed a d "unreachable"),
        c (failed a d "attempts_exhausted"),
        failed-total a d ev "permanent",
        failed-total a d ev "unreachable",
        failed-total a d ev "attempts_exhausted",
        failure-all a d ev.failed,
      ),
      omega (arith, c (claimed a d "initial"), c (claimed a d "retry"), claimed-total a d ev h),
    )
