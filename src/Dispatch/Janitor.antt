-- ===== src/Dispatch/Janitor.antt =====
-- internal/dispatch/janitor.go: the periodic tasks that one replica at a time runs, under an
-- advisory lock.
--
-- The lock is what `TryLock` answers. A sweep shares the table: before each of its chunks, others
-- commit any statements. The instants, the locked rows, the faults of its own statements and the
-- shutdown are arbitrary too, one set for each chunk.
-- Partitioned tables, events and logs are left out, but for what a reclaim reports.
pub mod Sharing
pub mod Sweeps
use go_outbox.Base.{ℕ, zero, suc, ◌+◌, Bool, true, false, List, [], if◌then◌else◌, ltb}
use go_outbox.Base.Int.{ℤ, pos, leb_ℤ, pos_part}
use go_outbox.Core.Errors.{Err, Result, ok, err}
use go_outbox.Store.Table.{Table}
use go_outbox.Store.System.{Statement, run}
use go_outbox.Store.Operations.{At, purge, Reclaimed, reclaim}

-- `retentionInterval`; an hour where retention is off.
unfoldable pub retention_interval : ℤ → ℤ → ℤ
retention_interval retention interval =
    if leb_ℤ retention (pos 0)
    then pos 3600000000000
    else if leb_ℤ interval (pos 0)
    then pos 3600000000000
    else interval

-- `exclusive`: the task runs only under the lock.
unfoldable pub exclusive {ℓ} :
    {A : Type ℓ} → Result Bool → A → (Table → A × Table) → Table → A × Table
exclusive (err e) skipped task t = (skipped, t)
exclusive (ok false) skipped task t = (skipped, t)
exclusive (ok true) skipped task t = task t

abbrev pub reported : Result (List Reclaimed) × Table → List Reclaimed × Table
reported (ok rs, t) = (rs, t)
reported (err e, t) = ([], t)

-- `ReclaimExpired`: the leases that it reports.
unfoldable pub reclaim_expired : Result Bool → At → ℕ → Table → List Reclaimed × Table
unfolding exclusive
reclaim_expired lock at limit t = exclusive lock [] (λ u. reported (reclaim at limit u)) t

-- One chunk: what others commit before it, while the sweep pauses, when its statement runs, and
-- whether the shutdown comes in the pause after it.
pub record Chunk : Type 0 where
  pub others : List (ℕ × Statement)
  pub at : At
  pub shutdown : Bool

pub data Swept : Type 0 where
  skipped unfinished cancelled : Swept
  failed : Err → Swept
  finished : ℕ → Swept

-- The loop of `Sweep`, from the `i`th chunk on, with the rows deleted so far.
unfoldable pub sweep_chunks : ℕ → (ℕ → Chunk) → ℕ → ℕ → ℕ → ℕ → Table → Swept × Table
sweep_chunks zero chunks i retention limit total t = (unfinished, t)
sweep_chunks (suc fuel) chunks i retention limit total t =
    let (answer, u) = purge (chunks i).at retention limit (run (chunks i).others t) in
    elim answer [
      | err e ↦ (failed e, u)
      | ok n ↦ elim (ltb n limit) [
        | true ↦ (finished (total + n), u)
        | false ↦ elim (chunks i).shutdown [
          | true ↦ (cancelled, u)
          | false ↦ sweep_chunks fuel chunks (suc i) retention limit (total + n) u
        ]
      ]
    ]

-- `Sweep`, on a table that is not partitioned.
unfoldable pub sweep : ℕ → Result Bool → (ℕ → Chunk) → ℤ → ℕ → Table → Swept × Table
unfolding exclusive sweep_chunks
sweep fuel lock chunks retention limit t =
    if leb_ℤ retention (pos 0)
    then (skipped, t)
    else exclusive lock skipped (sweep_chunks fuel chunks 0 (pos_part retention) limit 0) t
