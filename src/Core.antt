-- ===== src/Core.antt =====
-- internal/core: what a message is, how a failure is classified (`Core.Errors`) and how the next
-- attempt is scheduled (`Core.Backoff`).
--
-- Identifiers and lease tokens are UUIDs, taken as the numbers that they spell. A header map is an
-- association list with one entry for a key. Instants and durations count nanoseconds.
pub mod Errors
pub mod Backoff
pub mod Identifiers
use go_outbox.Base.{ℕ, String, Bool, false, true, ◌&&◌, Option, List, if◌then◌else◌}
use go_outbox.Base.Int.{ℤ, pos, leb_ℤ}
use Errors.{Err}

-- The lifecycle of a row. The table's CHECK constraint admits these four and no other.
pub data Status : Type 0 where
  pending processing sent failed : Status

-- The SMALLINT that stands for a status.
unfoldable pub code : Status → ℕ
code pending = 0
code processing = 1
code sent = 2
code failed = 3

abbrev pub is_pending : Status → Bool
is_pending pending = true
is_pending processing = false
is_pending sent = false
is_pending failed = false

abbrev pub is_processing : Status → Bool
is_processing pending = false
is_processing processing = true
is_processing sent = false
is_processing failed = false

abbrev pub is_sent : Status → Bool
is_sent pending = false
is_sent processing = false
is_sent sent = true
is_sent failed = false

abbrev pub is_failed : Status → Bool
is_failed pending = false
is_failed processing = false
is_failed sent = false
is_failed failed = true

-- `Status.String`.
unfoldable pub name : Status → String
name pending = "pending"
name processing = "processing"
name sent = "sent"
name failed = "failed"

-- `Status.Valid`, over every int16.
unfoldable pub valid : ℤ → Bool
valid s = leb_ℤ (pos 0) s && leb_ℤ s (pos 3)

pub record Target : Type 0 where
  pub key : String
  pub version : ℤ
  pub exchange : String
  pub routing_key : String

pub record Message : Type 0 where
  pub id : ℕ
  pub stream : String
  pub topic : String
  pub payload : List ℕ
  pub headers : List (String × String)
  pub target : Target
  pub attempts : ℕ
  pub created_at : ℕ

pub record Lease : Type 0 where
  pub token : ℕ
  pub owner : String
  pub until : ℕ

-- One failed publish on its way back to the database.
pub record Outcome : Type 0 where
  pub id : ℕ
  pub err : Option Err
  pub permanent : Bool
  pub deferred : Bool
  pub delay : ℤ

pub record RetryLimits : Type 0 where
  pub max_attempts : ℤ
  pub max_defer : ℤ
