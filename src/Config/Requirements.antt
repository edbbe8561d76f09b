-- ===== src/Config/Requirements.antt =====
-- What the validation of a configuration establishes.
--
-- Two things are not among it, since `validate` does not look at them: the write-back's timeout is
-- not required to be positive, and the notification channel is required to be an identifier only
-- where notifications are on, although the migration of the trigger writes it into SQL either way.
use go_outbox.Base.{◌≡◌, true, false, List, [], ◌∷◌, String, is_some, ◌⊎◌, lookup}
use go_outbox.Base.Int.{pos, ◌<ℤ◌, ◌≤ℤ◌}
use go_outbox.Core.Identifiers.{is_identifier}
use go_outbox.Config.{Config}
use go_outbox.Config.Settings.{DispatchConfig, StreamConfig}

-- The limits of a pipeline: those that `Store.Budget`, the chunks and the breaker ask for, and a
-- lease that outlives a publish.
pub record CheckedDispatch (d : DispatchConfig) : Type 0 where
  pub batch : pos 0 <ℤ d.batch_size
  pub workers : pos 0 <ℤ d.workers
  pub attempts : pos 0 <ℤ d.max_attempts
  pub deferral : pos 0 ≤ℤ d.max_defer
  pub window : (d.max_defer ≤ℤ pos 0) ⊎ (d.backoff_base ≤ℤ d.max_defer)
  pub pause : (pos 0 <ℤ d.poll_interval) × (pos 0 ≤ℤ d.pause_max)
  pub lease : (pos 0 <ℤ d.publish_timeout) × (d.publish_timeout <ℤ d.lease_ttl)
  pub backoff :
      (pos 0 <ℤ d.backoff_base) × ((d.backoff_max ≤ℤ pos 0) ⊎ (d.backoff_base ≤ℤ d.backoff_max))
  pub channel : (d.notify_enabled ≡ false) ⊎ (is_identifier d.notify_channel ≡ true)

pub record Checked (lower : String → String) (c : Config) : Type 0 where
  pub dispatch : CheckedDispatch c.dispatch
  -- The names of the schema and of the table are identifiers.
  pub names : (is_identifier c.db.schema ≡ true) × (is_identifier c.db.table ≡ true)
  pub connections : c.db.min_conns ≤ℤ c.db.max_conns
  -- The chunks of a sweep are not empty.
  pub chunks :
      (c.janitor.enabled ≡ false)
      ⊎ (c.janitor.retention ≤ℤ pos 0)
      ⊎ (pos 0 <ℤ c.janitor.retention_batch)
  -- Dead letters go to a stream that is there.
  pub dead_letters :
      (c.dlq.enabled ≡ false) ⊎ (is_some (lookup (lower c.dlq.stream) c.brokers.streams) ≡ true)

-- The routing table, as `NewRouter` reads it.
abbrev pub routes : List (String × StreamConfig) → List (String × String)
routes [] = []
routes ((name, s) ∷ rest) = (name, s.driver) ∷ routes rest
