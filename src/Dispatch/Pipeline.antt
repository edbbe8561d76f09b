-- ===== src/Dispatch/Pipeline.antt =====
-- internal/dispatch/pipeline.go: one claim, publish and write-back cycle.
--
-- What the surroundings decide in a cycle is a `Cycle`: the process clock, the fresh token, the
-- instants at which the statements run, the router's answers, the shutdown, the order of the
-- chunks and the random draws of the backoff. Between its statements any replicas run statements of
-- their own: `during`, `before_ack` and `before_nack`.
pub mod Splitting
pub mod Handback
pub mod Acceptance
use go_outbox.Base.{
  ℕ, zero, suc, ◌+◌, ◌≤◌, ◌<◌, ◌≡◌, refl, Bool, true, false, not, ◌&&◌, ◌||◌, Option, none, some,
  List, [], ◌∷◌, ◌++◌, map, String, length, take, drop, if◌then◌else◌, ltb, leb, ◌==◌, is_some,
}
use go_outbox.Base.Int.{ℤ, pos, ◌+ℤ◌}
use go_outbox.Core.{Status, is_failed, Message, Target, Lease, Outcome, RetryLimits}
use go_outbox.Core.Errors.{
  Err, Leaf, deadline_exceeded, canceled, join, leaf, find_leaf, Result, ok, err,
}
use go_outbox.Core.Backoff.{BackoffPolicy, next}
use go_outbox.Store.Table.{Table}
use go_outbox.Store.Operations.{
  At, AckResult, NackResult, NackOutcome, Delivered, claim, ack, nack, release_lease,
}
use go_outbox.Store.System.{Statement, run}
use go_outbox.Dispatch.Breaker
use go_outbox.Dispatch.Breaker.{Breaker, is_open, blocks, observe}
use go_outbox.Dispatch.Chunks.{Span}
use go_outbox.Dispatch.Publish.{Published, publish}

-- The settings of config.DispatchConfig that a pipeline reads.
pub record Config : Type 0 where
  pub stream : String
  pub owner : String
  pub batch_size : ℕ
  pub workers : ℤ
  pub lease_ttl : ℕ
  pub limits : RetryLimits
  pub backoff : BackoffPolicy

-- `countRetries`.
unfoldable pub count_retries : List Message → ℕ
count_retries [] = 0
count_retries (m ∷ ms) = if ltb 0 m.attempts then suc (count_retries ms) else count_retries ms

-- `split`: the identifiers to acknowledge, and the failures to record. `draws` are the random
-- numbers of the backoff, one for a failure; `out_of_range` is that of Core.Backoff.
unfoldable pub split :
    (ℕ → ℤ) → BackoffPolicy → (ℕ → ℕ) → List Message → List Published → List ℕ × List Outcome
split out_of_range backoff draws [] pubs = ([], [])
split out_of_range backoff draws (m ∷ ms) [] = ([], [])
split out_of_range backoff draws (m ∷ ms) (p ∷ ps) =
    let (acked, nacked) = split out_of_range backoff draws ms ps in
    if is_some p.err
    then (
      acked,
      record {
        id = m.id;
        err = p.err;
        permanent = p.permanent;
        deferred = p.deferred;
        delay = next out_of_range backoff (pos (m.attempts + 1)) (draws m.id);
      }
          ∷ nacked,
    )
    else (m.id ∷ acked, nacked)

-- `outcomeFor`.
unfoldable pub outcome_for : ℕ → List Outcome → Outcome
outcome_for i [] = record { id = i; err = none; permanent = false; deferred = false; delay = pos 0 }
outcome_for i (o ∷ os) = if o.id == i then o else outcome_for i os

-- `events.Terminal`.
pub record Terminal : Type 0 where
  pub id : ℕ
  pub attempts : ℕ
  pub permanent : Bool
  pub deferred : Bool

-- `events.Iteration`, without the stream, the driver and the durations.
pub record Iteration : Type 0 where
  pub claimed : ℕ
  pub retries : ℕ
  pub publishes : List Published
  pub released : ℕ
  pub conflicts : ℤ
  pub delivered : List Delivered
  pub failed : List Terminal
  pub deferred : List ℕ
  pub requeued : List ℕ

-- The loop over the outcomes that `Nack` reports.
unfoldable pub report : List Outcome → List NackOutcome → Iteration → Iteration
report nacked [] ev = ev
report nacked (o ∷ os) ev = report nacked os (
    if is_failed o.status
    then (let outcome = outcome_for o.id nacked in
        record ev {
          failed =
              ev.failed
              ++ (record {
                id = o.id;
                attempts = o.attempts;
                permanent = outcome.permanent;
                deferred = outcome.deferred && not outcome.permanent;
              }
                  ∷ []);
        })
    else if o.deferred
    then record ev { deferred = ev.deferred ++ (o.id ∷ []) }
    else record ev { requeued = ev.requeued ++ (o.id ∷ []) })

-- `errors.Join` of what the two statements returned; no error is `none`.
abbrev pub joined : Option Err → Option Err → Option Err
joined none b = b
joined (some a) none = some a
joined (some a) (some b) = some (join a b)

abbrev pub after_ack : Result AckResult → Iteration → Iteration × Option Err
after_ack (ok r) ev = (
  record ev { conflicts = ev.conflicts +ℤ r.conflicts; delivered = ev.delivered ++ r.delivered },
  none,
)
after_ack (err e) ev = (ev, some e)

abbrev pub after_nack : List Outcome → Result NackResult → Iteration → Iteration × Option Err
after_nack nacked (ok r) ev =
    (report nacked r.outcomes (record ev { conflicts = ev.conflicts +ℤ r.conflicts }), none)
after_nack nacked (err e) ev = (ev, some e)

pub record Cycle : Type 0 where
  pub clock : ℕ
  pub claim_clock : ℕ
  pub token : ℕ
  pub claim_at : At
  pub answers : List Message → List (Option Err)
  pub started : ℕ
  pub order : List Span
  pub during : List (ℕ × Statement)
  pub release_at : At
  pub before_ack : List (ℕ × Statement)
  pub ack_at : At
  pub before_nack : List (ℕ × Statement)
  pub nack_at : At
  pub draws : ℕ → ℕ

abbrev pub count_of : Result ℕ → ℕ
count_of (ok n) = n
count_of (err e) = 0

-- `writeBack`: the event, the joined error and the table.
unfoldable pub write_back :
    (Err → String)
    → Config
    → Cycle
    → List ℕ
    → List Outcome
    → Iteration
    → Table
    → (Iteration × Option Err) × Table
write_back describe cfg env acked nacked ev t =
    let (a, t₁) = ack env.ack_at acked env.token (run env.before_ack t) in
    let (ev₁, e₁) = after_ack a ev in
    let (n, t₂) = nack describe env.nack_at nacked env.token cfg.limits (run env.before_nack t₁) in
    let (ev₂, e₂) = after_nack nacked n ev₁ in ((ev₂, joined e₁ e₂), t₂)

module _ (out_of_range : ℕ → ℤ) (decode_headers : List ℕ → Result (List (String × String)))
    (decode_target : List ℕ → Result Target) (describe : Err → String) where
  -- The part of `RunOnce` that follows a claim which returned messages.
  unfoldable pub dispatch :
      Config → Cycle → List Message → Table → (Result Breaker.Result × Option Iteration) × Table
  dispatch cfg env messages t =
      let (publishes, attempted) =
        publish messages (env.answers messages) cfg.workers env.started env.order in
      let untried = map (λ m. m.id) (drop attempted messages) in
      let (released, t₁) = release_lease env.release_at untried env.token (run env.during t) in
      let (acked, nacked) =
        split out_of_range cfg.backoff env.draws (take attempted messages) publishes in
      let ev : Iteration = record {
        claimed = length messages;
        retries = count_retries messages;
        publishes = publishes;
        released = count_of released;
        conflicts = pos 0;
        delivered = [];
        failed = [];
        deferred = [];
        requeued = [];
      } in
      let ((ev', e), t₂) = write_back describe cfg env acked nacked ev t₁ in
      (
        elim e [
          | some x ↦ (err x, none)
          | none ↦ (
            ok (record {
              claimed = length messages;
              delivered = length ev'.delivered;
              deferred = length ev'.deferred;
            }),
            some ev',
          )
        ],
        t₂,
      )

  abbrev pub claimed_then :
      Config
      → Cycle
      → Result (List Message) × Table
      → (Result Breaker.Result × Option Iteration) × Table
  claimed_then cfg env (err e, t) = ((err e, none), t)
  claimed_then cfg env (ok [], t) =
      ((ok (record { claimed = 0; delivered = 0; deferred = 0 }), none), t)
  claimed_then cfg env (ok (m ∷ ms), t) = dispatch cfg env (m ∷ ms) t

  -- `RunOnce`: the result, the event that it emits if any, and the table.
  unfoldable pub run_once :
      Config → Cycle → Table → (Result Breaker.Result × Option Iteration) × Table
  run_once cfg env t = claimed_then cfg env (
      claim decode_headers decode_target env.claim_at env.claim_clock cfg.stream cfg.batch_size
        (record { token = env.token; owner = cfg.owner; until = env.clock + cfg.lease_ttl }) t)
