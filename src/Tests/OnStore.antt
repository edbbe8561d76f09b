-- ===== src/Tests/OnStore.antt =====
-- The theorems on the table at concrete histories.
use go_outbox.Base.{
  ℕ, ◌≡◌, refl, true, false, none, some, List, [], ◌∷◌, ◌≤◌, arith, str_eq, inr, ◌⊎◌,
}
use go_outbox.Base.Int.{pos}
use go_outbox.Core.{pending, failed}
use go_outbox.Store.Table.{Row, find, WellFormed}
use go_outbox.Store.Queries.{
  claim_sql, release_sql, due, by_availability, lease_row, Failure, nack_sql,
}
use go_outbox.Store.System.{
  Statement, claims, acks, nacks, releases, requeues, reclaims, purges, exec, run,
}
use go_outbox.Store.Invariant.{run-WellFormed}
use go_outbox.Store.Lifecycle.{Transition}
use go_outbox.Store.Transitions.{Expired, exec-Transition}
use go_outbox.Store.Delivered.{run-sent}
use go_outbox.Store.Leases.{lost_lease}
use go_outbox.Store.Outcomes.{Ends, nack-outcome}
use go_outbox.Store.Budget.{Within, run-Within}
use go_outbox.Store.Claims.{claim-leases}
use go_outbox.Store.Order.{claim-in_order}
use go_outbox.Store.Unsent.{unsent, run-unsent}
use go_outbox.Tests.Fixtures.{waiting, leased, done, table, table-WellFormed, nobody, limits}

abbrev refusal : Failure
refusal = record { id = 2; err = "refused"; permanent = false; deferred = false; delay = pos 30 }

-- Another replica claims, the lease of `leased` expires and is reclaimed, and an operator requeues.
abbrev history : List (ℕ × Statement)
history =
    (50, claims nobody "orders" 10 8 60 "host-2")
    ∷ (101, reclaims nobody 100)
    ∷ (102, nacks limits (refusal ∷ []) 8)
    ∷ (103, requeues (3 ∷ 4 ∷ []))
    ∷ []

run-WellFormed_example : WellFormed (run history table)
run-WellFormed_example = run-WellFormed history table table-WellFormed

-- The row was sent at 20.
exec-Transition_example :
    ((s : Row) × (find 3 (exec 100 (purges nobody 30 10) table) ≡ some s) × Transition done s)
    ⊎ ((find 3 (exec 100 (purges nobody 30 10) table) ≡ none)
        × Expired 100 (purges nobody 30 10) done)
exec-Transition_example =
    exec-Transition 100 (purges nobody 30 10) 3 table {r = done} table-WellFormed refl

run-sent_example : find 3 (run history table) ≡ some done
run-sent_example =
    run-sent history 3 table {r = done} table-WellFormed (refl, (refl, (refl, (refl, tt)))) refl
      refl

lost_lease_example :
    find 2 (exec 110 (acks (2 ∷ []) 7) (run history (exec 49 (releases (2 ∷ []) 7) table)))
    ≡ find 2 (run history (exec 49 (releases (2 ∷ []) 7) table))
unfolding exec release_sql run
lost_lease_example =
    lost_lease history 110 (acks (2 ∷ []) 7) 7 2 (exec 49 (releases (2 ∷ []) 7) table)
      (run-WellFormed ((49, releases (2 ∷ []) 7) ∷ []) table table-WellFormed)
      (refl, (refl, (refl, (refl, tt)))) refl refl

nack-outcome_example :
    (s : Row) × (find 2 (nack_sql limits (refusal ∷ []) 7 60 table).1 ≡ some s)
    × (s.lease_token ≡ none)
    × (s.attempts ≡ 2)
    × (((s.status ≡ failed) × Ends limits 60 refusal leased × (s.deferred_since ≡ none))
        ⊎ ((s.status ≡ pending)
            × ¬ (Ends limits 60 refusal leased)
            × (s.available_at ≡ 90)
            × (s.deferred_since ≡ none)))
nack-outcome_example =
    nack-outcome limits (refusal ∷ []) 7 60 2 table {r = leased} {f = refusal} refl refl refl

run-Within_example : Within 5 (find 2 (run history table))
run-Within_example =
    run-Within 5 history 2 table (omega arith) table-WellFormed (tt, (tt, (refl, (tt, tt))))
      (record { within = omega arith; left_over = inr (inr (omega arith)) })

claim-leases_example :
    (r : Row) × (find 1 table ≡ some r)
    × (r.status ≡ pending)
    × (str_eq r.stream "orders" ≡ true)
    × (r.available_at ≤ 50)
    × (nobody 1 ≡ false)
    × (find 1 (claim_sql nobody "orders" 10 9 60 "host-1" 50 table).1
        ≡ some (lease_row 9 110 "host-1" r))
unfolding claim_sql due
claim-leases_example =
    claim-leases nobody "orders" 10 9 60 "host-1" 50 table 1 table-WellFormed refl

abbrev later : Row
later = record waiting { id = 5; available_at = 40 }

claim-in_order_example : by_availability waiting later ≡ true
unfolding due
claim-in_order_example =
    claim-in_order nobody "orders" 1 50 5 1 (later ∷ waiting ∷ []) {r = later} {s = waiting}
      (record {
        leases = (
          record { while_processing = refl; with_deadline = refl },
          (record { while_processing = refl; with_deadline = refl }, tt),
        );
        keys = (refl, (refl, tt));
      })
      refl refl refl refl refl

run-unsent_example : unsent (find 2 (run history table)) ≡ true
run-unsent_example =
    run-unsent history 2 table table-WellFormed (refl, (refl, (refl, (refl, tt)))) refl
