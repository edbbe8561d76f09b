-- ===== src/Tests/OnDispatch.antt =====
-- The theorems on the dispatcher at concrete cycles.
use mathlib.Core.List.{Permᴰ}
use go_outbox.Base.{
  ℕ, zero, suc, inr, ◌+◌, ◌≡◌, refl, true, false, Option, none, some, List, [], ◌∷◌, length, ◌≤◌,
  arith, ◌/◌, if◌then◌else◌, ◌^◌, ◌*◌, min, get_elem?, ltb,
}
use go_outbox.Base.Int.{pos}
use go_outbox.Core.{Message}
use go_outbox.Core.Errors.{Err, leaf, deadline_exceeded, text, permanent, ok, find_leaf}
use go_outbox.Store.Table.{Table, find}
use go_outbox.Store.Queries.{claim_sql, due, ack_sql, release_sql}
use go_outbox.Store.Operations.{cut, claim, ack, nack, release_lease, scan, scan_all}
use go_outbox.Store.Leases.{not_held}
use go_outbox.Store.System.{run}
use go_outbox.Dispatch.Breaker
use go_outbox.Dispatch.Breaker.{Breaker, new_breaker, is_open, blocks, observe, unreachable}
use go_outbox.Dispatch.Breaker.Pauses.{observe_all, observe_all-pause}
use go_outbox.Dispatch.Chunks.{Span, crew, chunk, Cover, Even, chunk-Cover, spans}
use go_outbox.Dispatch.Publish.{
  classified, unpublished, publish, started_spans, attempted, write_all, write_chunk,
}
use go_outbox.Dispatch.Publish.Results.{length-publish, publish-results}
use go_outbox.Dispatch.Pipeline.{Cycle, run_once, dispatch, split, write_back}
use go_outbox.Dispatch.Pipeline.Handback.{run_once-hands_back}
use go_outbox.Dispatch.Pipeline.Acceptance.{run_once-accepted}
use go_outbox.Dispatch.Loop.{stop, turn, is_context}
use go_outbox.Dispatch.Loop.Stops.{ack_timeout-stops}
use go_outbox.Core.Backoff.{next}
use go_outbox.Core.Backoff.Bounds.{next-bounded}
use go_outbox.Store.System.{Insert, Statement, inserts}
use go_outbox.Dispatch.Janitor.{Chunk, sweep}
use go_outbox.Dispatch.Janitor.Sweeps.{added, taken, Ends, sweep-Ends}
use go_outbox.Tests.Fixtures.{
  at, table, table-WellFormed, message, config, cycle, no_headers, no_target, no_text, least,
  nobody,
}

abbrev claimed_table : Table
claimed_table = (claim_sql nobody "orders" 10 9 60 "host-1" 50 table).1

run_once-hands_back_example :
    not_held 9 (find 1 (run_once least no_headers no_target no_text config cycle table).1) ≡ true
unfolding claim claim_sql due scan scan_all
run_once-hands_back_example =
    run_once-hands_back least no_headers no_target no_text config cycle table claimed_table message
      [] 1 table-WellFormed
      (record {
        releases_run = refl;
        acks_run = refl;
        nacks_run = refl;
        own_during = tt;
        own_before_ack = tt;
        own_before_nack = tt;
      })
      refl refl

run_once-accepted_example :
    (j : ℕ) × (n : Message) × (get_elem? (message ∷ []) j ≡ some n)
    × (n.id ≡ 1)
    × (get_elem? (cycle.answers (message ∷ [])) j ≡ some none)
unfolding claim claim_sql due scan scan_all started_spans chunk spans crew run_once dispatch publish
    split write_back ack release_lease ack_sql release_sql run attempted write_all write_chunk
    classified nack
run_once-accepted_example =
    run_once-accepted least no_headers no_target no_text config cycle table claimed_table message []
      1 table-WellFormed (record { none_during = tt; none_before_ack = tt; none_before_nack = tt })
      refl refl (Permᴰ.cons refl Permᴰ.nil) refl refl

abbrev unroutable : Err
unroutable = permanent "unroutable" (leaf (text "no queue"))

abbrev answers : List (Option Err)
answers = none ∷ some unroutable ∷ none ∷ []

abbrev pair : Span
pair = record { start = 0; end = 2 }

abbrev single : Span
single = record { start = 2; end = 3 }

-- Three messages, two workers, and the second chunk finishes first.
publish-results_example :
    let (results, done) =
      publish (message ∷ message ∷ message ∷ []) answers (pos 2) 2 (single ∷ pair ∷ []) in
    (done ≤ 3)
    × (get_elem? results 1
        ≡ some (if ltb 1 done then classified message (some unroutable) else unpublished))
unfolding started_spans chunk spans crew
publish-results_example =
    publish-results (message ∷ message ∷ message ∷ []) answers (pos 2) 2 (single ∷ pair ∷ []) 1
      {m = message} {e = some unroutable} (Permᴰ.swap refl refl) refl refl

length-publish_example :
    length (publish (message ∷ message ∷ message ∷ []) answers (pos 2) 1 (pair ∷ [])).0 ≡ 3
length-publish_example =
    length-publish (message ∷ message ∷ message ∷ []) answers (pos 2) 1 (pair ∷ [])

chunk-Cover_example :
    Cover 0 10 (chunk 10 (pos 4))
    × Even (10 / crew 10 (pos 4)) (chunk 10 (pos 4))
    × (length (chunk 10 (pos 4)) ≡ crew 10 (pos 4))
chunk-Cover_example = chunk-Cover 10 (pos 4)

abbrev outage : Breaker.Result
outage = record { claimed = 10; delivered = 0; deferred = 10 }

abbrev breaker : Breaker
breaker = new_breaker (pos 100) (pos 1000)

observe_all-pause_example :
    (observe_all breaker ((pos 5, outage) ∷ (pos 110, outage) ∷ (pos 400, outage) ∷ [])).pause
    ≡ pos (min (100 * 2 ^ 2) 1000)
unfolding unreachable
observe_all-pause_example =
    observe_all-pause 100 1000 (pos 5) outage ((pos 110, outage) ∷ (pos 400, outage) ∷ [])
      (omega arith) (omega arith) (omega arith) refl (refl, (refl, tt))

abbrev slow : Cycle
slow = record cycle {
  ack_at = record { now = 52; locked = nobody; fault = cut (leaf deadline_exceeded) };
}

ack_timeout-stops_example :
    (turn 10 breaker
      (pos 4)
      (pos 5)
      (dispatch least no_headers no_target no_text config slow (message ∷ []) claimed_table).0.0).2
    ≡ stop
unfolding blocks is_open new_breaker is_context find_leaf split publish started_spans chunk spans
    crew attempted write_all write_chunk classified
ack_timeout-stops_example =
    ack_timeout-stops least no_headers no_target no_text config slow breaker (pos 4) (pos 5)
      (message ∷ []) claimed_table 1 [] (leaf deadline_exceeded) refl (inr refl) refl refl

-- Before the second chunk another replica inserts a row, and the third chunk comes back short.
abbrev newcomer : Insert
newcomer = record {
  id = 9;
  stream = "orders";
  topic = "order.created";
  payload = [];
  headers = [];
  target = [];
  available_at = none;
}

abbrev meanwhile : ℕ → List (ℕ × Statement)
meanwhile zero = []
meanwhile (suc zero) = (101, inserts newcomer) ∷ []
meanwhile (suc (suc i)) = []

abbrev shared_chunks : ℕ → Chunk
shared_chunks i = record { others = meanwhile i; at = at (100 + i); shutdown = false }

one_added : (i : ℕ) → added shared_chunks i ≤ 1
one_added zero = omega arith
one_added (suc zero) = omega arith
one_added (suc (suc zero)) = omega arith
one_added (suc (suc (suc i))) = omega (arith, one_added (suc (suc i)))

none_taken : (i : ℕ) → taken shared_chunks i ≤ 0
none_taken zero = omega arith
none_taken (suc zero) = omega arith
none_taken (suc (suc zero)) = omega arith
none_taken (suc (suc (suc i))) = omega (arith, none_taken (suc (suc i)))

sweep-Ends_example : Ends 1 0 0 table (sweep 6 (ok true) shared_chunks (pos 30) 1 table)
sweep-Ends_example =
    sweep-Ends shared_chunks (pos 30) 1 1 0 one_added none_taken (omega arith) (ok true) table
      table-WellFormed

next-bounded_example :
    (n : ℕ) × (next least (record { base = pos 100; max = pos 1000; jitter = 200000 }) (pos 9) 12345
      ≡ pos n)
    × (n ≤ 1200)
next-bounded_example =
    next-bounded least (record { base = pos 100; max = pos 1000; jitter = 200000 }) (pos 9) 12345
      1000 refl (omega arith) (omega arith) (omega arith) (omega arith)
