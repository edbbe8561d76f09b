-- ===== src/Dispatch/Loop/Stops.antt =====
-- What an acknowledgement that fails in the end does to the loop of a pipeline.
use go_outbox.Base.{
  ℕ, ◌≡◌, refl, true, false, Option, none, some, String, List, ◌∷◌, arith, ◌⊎◌, inl, inr, take,
}
use go_outbox.Base.Int.{ℤ}
use go_outbox.Core.{Message, Target, Outcome}
use go_outbox.Core.Errors.{Err, wrap, join, find_leaf, Result, ok, err}
use go_outbox.Store.Table.{Table}
use go_outbox.Store.Operations.{refused, cut, ack}
use go_outbox.Dispatch.Breaker
use go_outbox.Dispatch.Breaker.{Breaker, is_open, blocks, observe}
use go_outbox.Dispatch.Loop.{stop, is_context, after_cycle, turn}
use go_outbox.Dispatch.Publish.{publish}
use go_outbox.Dispatch.Pipeline.{Config, Cycle, Iteration, split, write_back, dispatch, joined}

joined-context :
    (e : Err) (o : Option Err)
    → is_context e ≡ true
    → (x : Err) × (joined (some (wrap "ack" e)) o ≡ some x) × (is_context x ≡ true)
unfolding is_context find_leaf
joined-context e none h = (wrap "ack" e, refl, h)
joined-context e (some f) h = (join (wrap "ack" e) f, refl, ground arith)

module _ (out_of_range : ℕ → ℤ) (decode_headers : List ℕ → Result (List (String × String)))
    (decode_target : List ℕ → Result Target) (describe : Err → String) where
  write_back-context :
      (cfg : Config) (env : Cycle) (i : ℕ) (acked : List ℕ) (nacked : List Outcome) (ev : Iteration)
      (t : Table) (e : Err)
      → (env.ack_at.fault ≡ refused e) ⊎ (env.ack_at.fault ≡ cut e)
      → is_context e ≡ true
      → (x : Err) × ((write_back describe cfg env (i ∷ acked) nacked ev t).0.1 ≡ some x)
        × (is_context x ≡ true)
  unfolding write_back ack
  write_back-context cfg env i acked nacked ev t e (inl f) h = rw f (joined-context e _ h)
  write_back-context cfg env i acked nacked ev t e (inr f) h = rw f (joined-context e _ h)

  turn-context :
      (batch_size : ℕ) (b : Breaker) (before now : ℤ) (o : Option Err) (done : Breaker.Result)
      (ev : Option Iteration)
      → blocks b before ≡ false
      → (x : Err) × (o ≡ some x) × (is_context x ≡ true)
      → (turn batch_size b before now
          (elim o as (λ _. Result Breaker.Result × Option Iteration) [
            | some x ↦ (err x, none)
            | none ↦ (ok done, ev)
          ]).0).2
        ≡ stop
  unfolding turn after_cycle
  turn-context batch_size b before now o done ev u (x, q, c) = rw (q, u, c) refl

  -- A cycle that is run, has at least one message to acknowledge, and whose acknowledgement fails
  -- with an error that comes from a context, such as the write-back's own timeout, ends the loop of
  -- its stream, whether or not the statement had been executed and whether or not the process is
  -- shutting down.
  pub ack_timeout-stops :
      (cfg : Config) (env : Cycle) (b : Breaker) (before now : ℤ) (messages : List Message)
      (t : Table) (i : ℕ) (acked : List ℕ) (e : Err)
      → blocks b before ≡ false
      → (env.ack_at.fault ≡ refused e) ⊎ (env.ack_at.fault ≡ cut e)
      → is_context e ≡ true
      → let (publishes, attempted) =
          publish messages (env.answers messages) cfg.workers env.started env.order in
        (split out_of_range cfg.backoff env.draws (take attempted messages) publishes).0 ≡ i ∷ acked
        → (turn cfg.batch_size b before now
            (dispatch out_of_range decode_headers decode_target describe cfg env messages t).0.0).2
          ≡ stop
  unfolding dispatch
  ack_timeout-stops cfg env b before now messages t i acked e u f h s =
      rw (dispatch, s)
        (turn-context cfg.batch_size b before now _ _ _ u
          (write_back-context cfg env i acked _ _ _ e f h))
