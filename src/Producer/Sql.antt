-- ===== src/Producer/Sql.antt =====
-- pkg/outboxsql/client.go: the client for database/sql.
use go_outbox.Base.{ℕ, Option, none, some, List, [], ◌∷◌, String, if◌then◌else◌, str_eq}
use go_outbox.Core.{Target}
use go_outbox.Core.Errors.{Err, leaf, wrap, text, Result, ok, err, ◌>>=◌, wrapped}
use go_outbox.Store.Table.{Table}
use go_outbox.Store.System.{Insert}
use go_outbox.Store.Operations.{At}
use go_outbox.Producer.{Draft, no_headers, execute}

module _ (encode_headers : List (String × String) → Result (List ℕ))
    (encode_target : Target → Result (List ℕ)) where
  unfoldable pub with_target : Draft → ℕ → List ℕ → Result Insert
  with_target d id headers = do
    target ← wrapped "encode target" (encode_target d.target)
    ok (record {
      id = id;
      stream = d.stream;
      topic = d.topic;
      payload = d.payload;
      headers = headers;
      target = target;
      available_at = d.available_at;
    })

  unfoldable pub with_headers : Draft → ℕ → Option (List (String × String)) → Result Insert
  unfolding with_target
  with_headers d id none = with_target d id no_headers
  with_headers d id (some hs) = wrapped "encode headers" (encode_headers hs) >>= with_target d id

  unfoldable pub with_id : Result ℕ → Draft → Option ℕ → Result Insert
  unfolding with_headers
  with_id new_id d none = do id ← wrapped "generate message id" new_id; with_headers d id d.headers
  with_id new_id d (some id) = with_headers d id d.headers

  -- `prepare`, which renders the statement's arguments.
  unfoldable pub prepare : Result ℕ → Draft → Result Insert
  unfolding with_id
  prepare new_id d =
      if str_eq d.stream ""
      then err (leaf (text "stream must not be empty"))
      else if str_eq d.topic ""
      then err (leaf (text "topic must not be empty"))
      else with_id new_id d d.id

  abbrev pub answered : Option Err × Table → Option Err × Table
  answered (none, t) = (none, t)
  answered (some e, t) = (some (wrap "enqueue outbox message" e), t)

  abbrev pub send : At → Result Insert → Table → Option Err × Table
  send at (err e) t = (some e, t)
  send at (ok m) t = answered (execute at m t)

  -- `Enqueue`
  unfoldable pub enqueue : At → Result ℕ → Draft → Table → Option Err × Table
  unfolding prepare execute
  enqueue at new_id d t = send at (prepare new_id d) t

  abbrev pub then_all : (Table → Option Err × Table) → Option Err × Table → Option Err × Table
  then_all next (some e, t) = (some (wrap "enqueue message" e), t)
  then_all next (none, t) = next t

  -- `EnqueueBatch`: one message after the other, up to the first error.
  unfoldable pub enqueue_batch : List (At × Result ℕ × Draft) → Table → Option Err × Table
  unfolding enqueue
  enqueue_batch [] t = (none, t)
  enqueue_batch ((at, new_id, d) ∷ rest) t = then_all (enqueue_batch rest) (enqueue at new_id d t)
