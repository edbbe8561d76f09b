-- ===== src/Broker/Postgres/Inbox.antt =====
-- internal/broker/postgres/postgres.go: delivery into a table, the consumer's inbox.
--
-- `encode` is encoding/json on a header map, whose bytes are kept; `itoa` and `trim` are
-- strconv.Itoa and strings.TrimSpace. Each statement has its `Fault`: a refusal, by the consumer's
-- constraints too, leaves the inbox as it is, and an answer may be lost after the insert.
use go_outbox.Base.{
  ℕ, suc, Bool, false, Option, none, some, List, [], ◌∷◌, ◌++◌, String, length, replicate,
  if◌then◌else◌, is_some, ◌==◌,
}
use go_outbox.Base.Int.{ℤ}
use go_outbox.Core.{Message}
use go_outbox.Core.Errors.{Err, Result, ok, err, ◌>>=◌, wrap, permanent, is_unavailable}
use go_outbox.Store.Operations.{Fault, fine, refused, cut}
use go_outbox.Broker.{Naming, resolve}
use go_outbox.Broker.Postgres.{classify}

-- The columns of the inbox that the dispatcher writes.
pub record Entry : Type 0 where
  pub id : ℕ
  pub stream : String
  pub topic : String
  pub payload : List ℕ
  pub headers : List ℕ

unfoldable pub entry_of : ℕ → List Entry → Option Entry
entry_of i [] = none
entry_of i (e ∷ es) = if e.id == i then some e else entry_of i es

-- One row of the INSERT: ON CONFLICT (id) DO NOTHING.
unfoldable pub insert_entry : Entry → List Entry → List Entry
unfolding entry_of
insert_entry e inbox = if is_some (entry_of e.id inbox) then inbox else inbox ++ (e ∷ [])

unfoldable pub insert_all : List Entry → List Entry → List Entry
unfolding insert_entry
insert_all [] inbox = inbox
insert_all (e ∷ es) inbox = insert_all es (insert_entry e inbox)

-- `Exec`
unfoldable pub execute : Fault → List Entry → List Entry → Option Err × List Entry
unfolding insert_all
execute fine es inbox = (none, insert_all es inbox)
execute (refused e) es inbox = (some e, inbox)
execute (cut e) es inbox = (some e, insert_all es inbox)

module _ (itoa : ℤ → String) (trim : String → String)
    (encode : List (String × String) → Result (List ℕ)) (naming : Naming) where
  -- `encodeHeaders`
  unfoldable pub encode_headers : List (String × String) → Result (List ℕ)
  unfolding permanent
  encode_headers [] = ok (b'{' ∷ b'}' ∷ [])
  encode_headers (h ∷ hs) = elim (encode (h ∷ hs)) [
    | ok bs ↦ ok bs
    | err e ↦ err (permanent "headers are not encodable" (wrap "message" e))
  ]

  abbrev pub entry : Message → List ℕ → Entry
  entry m headers = record {
    id = m.id;
    stream = m.stream;
    topic = (resolve itoa trim naming m).topic;
    payload = m.payload;
    headers = headers;
  }

  -- The loop of `insertBatch`.
  unfoldable pub entries : List Message → Result (List Entry)
  unfolding encode_headers
  entries [] = ok []
  entries (m ∷ ms) = do
    headers ← encode_headers m.headers
    rest ← entries ms
    ok (entry m headers ∷ rest)

  unfoldable pub inserted : Fault → Result (List Entry) → List Entry → Option Err × List Entry
  unfolding execute
  inserted fault (err e) inbox = (some e, inbox)
  inserted fault (ok es) inbox = execute fault es inbox

  -- `insertBatch`
  unfoldable pub insert_batch : Fault → List Message → List Entry → Option Err × List Entry
  unfolding entries inserted
  insert_batch fault msgs inbox = inserted fault (entries msgs) inbox

  -- The second pass, one message at a time. `live` says whether the caller was still running when
  -- the statement for the `i`th message ended.
  unfoldable pub replay :
      (ℕ → Fault) → (ℕ → Bool) → ℕ → List Message → List Entry → List (Option Err) × List Entry
  unfolding insert_batch classify
  replay faults live i [] inbox = ([], inbox)
  replay faults live i (m ∷ ms) inbox =
      let (e, after) = insert_batch (faults i) (m ∷ []) inbox in
      let (results, final) = replay faults live (suc i) ms after in
      (classify (live i) e ∷ results, final)

  unfoldable pub unavailable_or_none : Option Err → Bool
  unfolding is_unavailable
  unavailable_or_none none = false
  unavailable_or_none (some e) = is_unavailable e

  -- After the statement for the whole batch.
  unfoldable pub after_batch :
      (ℕ → Fault)
      → (ℕ → Bool)
      → Bool
      → List Message
      → Option Err × List Entry
      → List (Option Err) × List Entry
  unfolding replay classify unavailable_or_none
  after_batch faults live batch_live msgs (none, inbox) = (replicate (length msgs) none, inbox)
  after_batch faults live batch_live msgs (some e, inbox) =
      if unavailable_or_none (classify batch_live (some e))
      then (replicate (length msgs) (classify batch_live (some e)), inbox)
      else replay faults live 0 msgs inbox

  -- `Publish`
  unfoldable pub publish :
      Fault
      → Bool
      → (ℕ → Fault)
      → (ℕ → Bool)
      → List Message
      → List Entry
      → List (Option Err) × List Entry
  unfolding after_batch insert_batch
  publish batch batch_live faults live [] inbox = ([], inbox)
  publish batch batch_live faults live (m ∷ ms) inbox =
      after_batch faults live batch_live (m ∷ ms) (insert_batch batch (m ∷ ms) inbox)
