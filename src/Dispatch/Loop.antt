-- ===== src/Dispatch/Loop.antt =====
-- internal/dispatch/pipeline.go: `Run`, one turn of the loop, with `observe`.
--
-- A turn asks the breaker, runs a cycle unless claims are held back, and decides whether to stop, to
-- go on at once, or to wait for the ticker, a notification or the shutdown. Logs are left out.
pub mod Stops
use go_outbox.Base.{
  ℕ, ◌≡◌, refl, Bool, true, false, not, ◌&&◌, ◌||◌, Option, none, some, if◌then◌else◌, leb, is_some,
  arith, ◌⊎◌, inl, inr, ◌↔◌, Bool-cases,
}
use go_outbox.Base.Int.{ℤ}
use go_outbox.Core.Errors.{Err, Leaf, leaf, deadline_exceeded, canceled, find_leaf, Result, ok, err}
use go_outbox.Dispatch.Breaker
use go_outbox.Dispatch.Breaker.{Breaker, is_open, blocks, observe}

abbrev pub as_context : Leaf → Option Bool
as_context canceled = some true
as_context deadline_exceeded = some true
as_context _ = none

-- `errors.Is` with context.Canceled or context.DeadlineExceeded.
unfoldable pub is_context : Err → Bool
is_context e = is_some (find_leaf as_context e)

pub data Next : Type 0 where
  stop again wait : Next

-- One turn: the breaker that it leaves, what it announces of the breaker, and what comes next.
-- `res` is what `RunOnce` gives if it is called.
unfoldable pub after_cycle : ℕ → Breaker → ℤ → Result Breaker.Result → Breaker × Option Bool × Next
unfolding is_context
after_cycle batch_size b now (err e) = (b, none, if is_context e then stop else wait)
after_cycle batch_size b now (ok res) =
    let (b', changed) = observe b now res in
    (
      b',
      if changed then some (is_open b') else none,
      if not (is_open b') && leb batch_size res.claimed then again else wait,
    )

-- `before` is the instant at which the breaker is asked, and `now` that at which it is told.
unfoldable pub turn : ℕ → Breaker → ℤ → ℤ → Result Breaker.Result → Breaker × Option Bool × Next
unfolding after_cycle
turn batch_size b before now res =
    if blocks b before then (b, none, wait) else after_cycle batch_size b now res
