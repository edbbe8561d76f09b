-- ===== src/Dispatch/Publish.antt =====
-- internal/dispatch/publish.go: publishing a batch in chunks, concurrently.
--
-- `answers` holds what the router answers for each message of the batch; a chunk sees its slice.
-- The goroutines finish in any order, each writing its own entries of the result under the mutex:
-- `order` is the list of the chunks as they finish. Durations and trace spans are left out.
pub mod Results
use go_outbox.Base.{
  ℕ, zero, suc, ◌+◌, ◌-◌, ◌≤◌, ◌<◌, ◌≡◌, refl, Bool, true, false, not, ◌&&◌, Option, none, some,
  List, [], ◌∷◌, length, take, replicate, get_elem?, set, if◌then◌else◌,
}
use go_outbox.Base.Int.{ℤ}
use go_outbox.Core.{Message}
use go_outbox.Core.Errors.{Err, is_permanent, is_unavailable}
use go_outbox.Dispatch.Chunks.{Span, chunk}

-- `events.Publish`, without the duration.
pub record Published : Type 0 where
  pub id : ℕ
  pub err : Option Err
  pub permanent : Bool
  pub deferred : Bool

-- The zero value that `make` leaves.
abbrev pub unpublished : Published
unpublished = record { id = 0; err = none; permanent = false; deferred = false }

abbrev pub permanent_of : Option Err → Bool
permanent_of none = false
permanent_of (some e) = is_permanent e

abbrev pub unavailable_of : Option Err → Bool
unavailable_of none = false
unavailable_of (some e) = is_unavailable e

-- The entry of one message: permanence is decided first.
unfoldable pub classified : Message → Option Err → Published
classified m e = record {
  id = m.id;
  err = e;
  permanent = permanent_of e;
  deferred = not (permanent_of e) && unavailable_of e;
}

-- The write of one entry, at a position of the batch.
abbrev pub put : Option Message → Option (Option Err) → ℕ → List Published → List Published
put none e i results = results
put (some m) none i results = results
put (some m) (some e) i results = set results i (classified m e)

abbrev pub write_entry : List Message → List (Option Err) → ℕ → List Published → List Published
write_entry msgs answers i results = put (get_elem? msgs i) (get_elem? answers i) i results

-- The loop over a chunk: `k` entries from position `i` on.
unfoldable pub write_chunk :
    List Message → List (Option Err) → ℕ → ℕ → List Published → List Published
write_chunk msgs answers i zero results = results
write_chunk msgs answers i (suc k) results =
    write_chunk msgs answers (suc i) k (write_entry msgs answers i results)

unfoldable pub write_all :
    List Message → List (Option Err) → List Span → List Published → List Published
write_all msgs answers [] results = results
write_all msgs answers (s ∷ order) results =
    write_all msgs answers order (write_chunk msgs answers s.start (s.end - s.start) results)

-- How many messages the chunks that were started cover: the end of the last of them.
unfoldable pub attempted : List Span → ℕ
attempted [] = 0
attempted (s ∷ []) = s.end
attempted (s ∷ u ∷ ss) = attempted (u ∷ ss)

-- The chunks started before a shutdown: the first `started` of them.
unfoldable pub started_spans : ℕ → ℤ → ℕ → List Span
started_spans n workers started = take started (chunk n workers)

-- `publish`, where the started chunks finish in the given order.
unfoldable pub publish : List Message → List (Option Err) → ℤ → ℕ → List Span → List Published × ℕ
publish msgs answers workers started order = (
  write_all msgs answers order (replicate (length msgs) unpublished),
  attempted (started_spans (length msgs) workers started),
)
