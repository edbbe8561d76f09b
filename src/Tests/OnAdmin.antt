-- ===== src/Tests/OnAdmin.antt =====
-- The theorem on the requeue command at a table with failed messages.
use go_outbox.Base.{
  ℕ, ◌≡◌, refl, true, false, Option, none, some, inl, inr, List, [], ◌∷◌, String, arith,
}
use go_outbox.Base.Int.{pos}
use go_outbox.Core.Errors.{Err, leaf, text}
use go_outbox.App.{handle_requeue, returned}
use go_outbox.Admin.{RequeueOpts, requeue_calls}
use go_outbox.Admin.Agreement.{body_of, requeue-Agrees}
use go_outbox.Tests.Fixtures.{at}
use go_outbox.Tests.OnApi.{rows, one, read_cursor}
use go_outbox.Tests.OnConfig.{no_description}

abbrev at_seven : String → Option ℕ
at_seven s = some 7

abbrev never : String → Option ℕ
never s = none

abbrev negative : Err
negative = leaf (text "LIMIT must not be negative")

abbrev one_field : String → List String
one_field s = s ∷ []

abbrev bytes : String → ℕ
bytes s = 0

abbrev first : ℕ → String → String
first n s = s

abbrev unsorted : List String → List String
unsorted names = names

abbrev by_time : RequeueOpts
by_time = record { ids = []; before = "2026-01-31T23:00:00Z"; limit = pos 1000; as_json = false }

-- A command for identifiers has no time.
abbrev by_ids : RequeueOpts
by_ids = record { ids = 3 ∷ 4 ∷ []; before = ""; limit = pos 0; as_json = false }

requeue-Agrees_example :
    (handle_requeue one read_cursor no_description true (at 50) (some (body_of by_ids 0)) rows
      ≡ returned one read_cursor no_description
          (requeue_calls never negative one_field bytes first unsorted (at 50) by_ids rows))
    × (handle_requeue one read_cursor no_description true (at 50) (some (body_of by_time 7)) rows
        ≡ returned one read_cursor no_description
            (requeue_calls at_seven negative one_field bytes first unsorted (at 50) by_time rows))
requeue-Agrees_example = (
  requeue-Agrees one read_cursor no_description never negative one_field bytes first unsorted
      (at 50) by_ids 0 rows (inl (omega arith, omega arith)),
  requeue-Agrees one read_cursor no_description at_seven negative one_field bytes first unsorted
      (at 50) by_time 7 rows (inr (refl, refl, omega arith, omega arith)),
)
