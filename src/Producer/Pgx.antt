-- ===== src/Producer/Pgx.antt =====
-- pkg/outboxclient/client.go: the client for pgx.
use go_outbox.Base.{ℕ, Option, none, some, List, [], ◌∷◌, String, if◌then◌else◌, str_eq}
use go_outbox.Core.{Target}
use go_outbox.Core.Errors.{Err, leaf, wrap, text, Result, ok, err, ◌>>=◌, wrapped}
use go_outbox.Store.Table.{Table}
use go_outbox.Store.System.{Insert}
use go_outbox.Store.Operations.{At}
use go_outbox.Producer.{Draft, no_headers, execute}

-- What `prepare` returns.
pub record Prepared : Type 0 where
  pub id : ℕ
  pub headers : List ℕ
  pub target : List ℕ

module _ (encode_headers : List (String × String) → Result (List ℕ))
    (encode_target : Target → Result (List ℕ)) where
  unfoldable pub id_of : Result ℕ → Option ℕ → Result ℕ
  id_of new_id none = wrapped "generate message id" new_id
  id_of new_id (some i) = ok i

  unfoldable pub headers_of : Option (List (String × String)) → Result (List ℕ)
  headers_of none = ok no_headers
  headers_of (some hs) = wrapped "encode headers" (encode_headers hs)

  unfoldable pub prepare : Result ℕ → Draft → Result Prepared
  unfolding id_of headers_of
  prepare new_id d =
      if str_eq d.stream ""
      then err (leaf (text "stream must not be empty"))
      else if str_eq d.topic ""
      then err (leaf (text "topic must not be empty"))
      else do
        id ← id_of new_id d.id
        headers ← headers_of d.headers
        target ← wrapped "encode target" (encode_target d.target)
        ok (record { id = id; headers = headers; target = target })

  -- The arguments of the statement.
  abbrev pub arguments : Draft → Prepared → Insert
  arguments d p = record {
    id = p.id;
    stream = d.stream;
    topic = d.topic;
    payload = d.payload;
    headers = p.headers;
    target = p.target;
    available_at = d.available_at;
  }

  abbrev pub answered : String → Option Err × Table → Option Err × Table
  answered op (none, t) = (none, t)
  answered op (some e, t) = (some (wrap op e), t)

  abbrev pub send : At → Draft → Result Prepared → Table → Option Err × Table
  send at d (err e) t = (some e, t)
  send at d (ok p) t = answered "enqueue outbox message" (execute at (arguments d p) t)

  -- `Enqueue`
  unfoldable pub enqueue : At → Result ℕ → Draft → Table → Option Err × Table
  unfolding prepare execute
  enqueue at new_id d t = send at d (prepare new_id d) t

  -- The first loop of `EnqueueBatch`: every message is prepared before any is sent.
  unfoldable pub prepare_all : List (At × Result ℕ × Draft) → Result (List (At × Insert))
  unfolding prepare
  prepare_all [] = ok []
  prepare_all ((at, new_id, d) ∷ rest) = do
    p ← prepare new_id d
    ms ← prepare_all rest
    ok ((at, arguments d p) ∷ ms)

  abbrev pub then_all : (Table → Option Err × Table) → Option Err × Table → Option Err × Table
  then_all next (some e, t) = (some (wrap "enqueue outbox message" e), t)
  then_all next (none, t) = next t

  -- The second: the results of the batch, up to the first error.
  unfoldable pub send_all : List (At × Insert) → Table → Option Err × Table
  unfolding execute
  send_all [] t = (none, t)
  send_all ((at, m) ∷ rest) t = then_all (send_all rest) (execute at m t)

  abbrev pub sent : Result (List (At × Insert)) → Table → Option Err × Table
  unfolding send_all
  sent (err e) t = (some e, t)
  sent (ok ms) t = send_all ms t

  -- `EnqueueBatch`
  unfoldable pub enqueue_batch : List (At × Result ℕ × Draft) → Table → Option Err × Table
  unfolding prepare_all send_all sent
  enqueue_batch drafts t = sent (prepare_all drafts) t
