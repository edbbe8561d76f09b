-- ===== src/Dispatch/Upkeep.antt =====
-- internal/dispatch/janitor.go: `maintainPartitions`, retention on a partitioned table, and `Sweep`
-- on a table of either kind.
pub mod Ahead
use go_outbox.Base.{
  ℕ, zero, suc, ◌+◌, Bool, true, false, Option, none, some, List, [], ◌∷◌, String, length,
  if◌then◌else◌, ◌==◌, ◌&&◌,
}
use go_outbox.Base.Int.{ℤ, pos, leb_ℤ, pos_part}
use go_outbox.Core.Errors.{Err, Result, ok, err}
use go_outbox.Store.Partitions.{Part, Visit, ensure, drop_expired, default_rows}
use go_outbox.Dispatch.Janitor.{exclusive}

-- `events.Partitions`
pub record Partitions : Type 0 where
  pub created : ℕ
  pub dropped : ℕ
  pub default_rows : ℕ

-- What the database answers in one maintenance: its date, the errors of the CREATEs, of the list
-- of partitions and of the count, and the turn of each partition.
pub record Answers : Type 0 where
  pub today : Result ℕ
  pub lost : ℕ → Option Err
  pub listed : Option Err
  pub visits : ℕ → Visit
  pub counted : Option Err

module _ (name_of : ℕ → String) (day_of : ℕ → ℕ) where
  abbrev pub report : Option Err → ℕ → ℕ → ℕ → Result (Option Partitions)
  report (some e) created dropped orphans = err e
  report none created dropped orphans =
      if dropped == 0 && orphans == 0
      then ok none
      else ok (some (record { created = created; dropped = dropped; default_rows = orphans }))

  abbrev pub after_drop :
      Answers → ℕ → (List String × Option Err) × List Part → Result (Option Partitions) × List Part
  after_drop a created ((dropped, some e), parts) = (err e, parts)
  after_drop a created ((dropped, none), parts) =
      (report a.counted created (length dropped) (default_rows parts), parts)

  abbrev pub after_ensure :
      Answers → ℤ → (List String × Option Err) × List Part → Result (Option Partitions) × List Part
  unfolding drop_expired
  after_ensure a retention ((created, some e), parts) = (err e, parts)
  after_ensure a retention ((created, none), parts) =
      after_drop a (length created) (drop_expired a.listed a.visits retention parts)

  -- `maintainPartitions`: the event that it emits, if any.
  unfoldable pub maintain : Answers → ℤ → ℤ → List Part → Result (Option Partitions) × List Part
  unfolding ensure after_ensure
  maintain a ahead retention parts =
      after_ensure a retention (ensure name_of day_of a.lost a.today ahead parts)
