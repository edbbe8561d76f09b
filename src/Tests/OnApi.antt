-- ===== src/Tests/OnApi.antt =====
-- The theorem on the pages of failed messages at a table with two of them.
use go_outbox.Base.{ℕ, ◌≡◌, refl, Option, none, some, [], ◌∷◌, String, ◌+◌}
use go_outbox.Base.Int.{ℤ, pos}
use go_outbox.Core.{failed}
use go_outbox.Core.Errors.{Err, ok}
use go_outbox.Store.Table.{Row, Table}
use go_outbox.Store.Operations.{Cursor, FailedMessage, list_failed}
use go_outbox.App.{cursor_of, handle_list_failed, int_param}
use go_outbox.App.Pages.{handle_list_failed-pages}
use go_outbox.Tests.Fixtures.{row, waiting, dead, at}

abbrev later : Row
later = row 6 failed none none none

abbrev pub rows : Table
rows = later ∷ waiting ∷ dead ∷ []

abbrev pub one : String → Option ℤ
one s = some (pos 1)

abbrev reported : ℕ → FailedMessage
reported i = record {
  id = i;
  stream = "orders";
  topic = "order.created";
  attempts = 1;
  last_error = "";
  created_at = 5;
}

abbrev after_dead : Cursor
after_dead = record { created_at = 5; id = some 4 }

abbrev pub read_cursor : String → Option Cursor
read_cursor s = some after_dead

abbrev no_description : Err → String
no_description e = ""

handle_list_failed-pages_example :
    (start : Cursor) × (cursor_of one read_cursor no_description "" ≡ some start)
    × (list_failed (at 50) start (1 + int_param one read_cursor no_description "1" 50 500) "" rows
        ≡ ok (reported 4 ∷ reported 6 ∷ []))
unfolding handle_list_failed cursor_of int_param
handle_list_failed-pages_example =
    handle_list_failed-pages one read_cursor no_description (at 50) (at 60) "1" "1" "" "next" ""
      rows (reported 4 ∷ []) (reported 6 ∷ []) after_dead
      (some (record { created_at = 5; id = some 6 })) (refl, (refl, (refl, tt))) refl refl refl
