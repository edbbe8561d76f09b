-- ===== src/Store/Operations.antt =====
-- internal/store/store.go: the methods of Store round the statements.
--
-- Each takes the instant at which its statement runs (`At`: the database clock, the rows that other
-- transactions hold, and whether the database fails), and gives the table that it leaves.
-- encoding/json (`decode_headers`, `decode_target`) and the text of an error (`describe`) are
-- parameters.
use go_outbox.Base.{
  ℕ, ◌-◌, Bool, not, ◌&&◌, Option, none, some, List, [], ◌∷◌, map, String, length, keep,
  if◌then◌else◌, leb, coalesce, is_some,
}
use go_outbox.Base.Int.{ℤ, sub_ℕ}
use go_outbox.Core.{Status, is_pending, is_failed, Message, Target, Lease, Outcome, RetryLimits}
use go_outbox.Core.Errors.{Err, leaf, text, wrap, Result, ok, err, ◌>>=◌, wrapped}
use go_outbox.Store.Table.{Row, Table, ids}
use go_outbox.Store.Queries.{
  claim_sql, ack_sql, Failure, nack_sql, release_sql, reclaim_sql, purge_sql, requeue_sql,
  requeue_before_sql, list_failed_sql, fetch_sql, stats_sql,
}

-- How a statement ends: it runs, it is not executed, or it runs and reading its rows fails.
pub data Fault : Type 0 where
  fine : Fault
  refused cut : Err → Fault

pub record At : Type 0 where
  pub now : ℕ
  pub locked : ℕ → Bool
  pub fault : Fault

-- A statement under a fault, with its rows read by `read`.
abbrev pub perform {ℓ κ} :
    {R : Type ℓ} {A : Type κ}
    → Fault
    → String
    → (R → Result A)
    → R × Table
    → Table
    → Result A × Table
perform fine op read (rows, t') t = (read rows, t')
perform (refused e) op read (rows, t') t = (err (wrap op e), t)
perform (cut e) op read (rows, t') t = (err (wrap op e), t')

pub record Delivered : Type 0 where
  pub id : ℕ
  pub stream : String
  pub lag : ℤ

pub record AckResult : Type 0 where
  pub delivered : List Delivered
  pub conflicts : ℤ

pub record NackOutcome : Type 0 where
  pub id : ℕ
  pub stream : String
  pub status : Status
  pub attempts : ℕ
  pub deferred : Bool

pub record NackResult : Type 0 where
  pub outcomes : List NackOutcome
  pub conflicts : ℤ

-- `NackResult.Retried`, `Failed` and `Deferred`.
unfoldable pub retried : NackResult → List NackOutcome
retried r = keep (λ o. is_pending o.status) r.outcomes

unfoldable pub failures : NackResult → List NackOutcome
failures r = keep (λ o. is_failed o.status) r.outcomes

unfoldable pub deferrals : NackResult → List NackOutcome
deferrals r = keep (λ o. o.deferred) r.outcomes

abbrev pub delivered_row : ℕ → Row → Delivered
delivered_row now r = record { id = r.id; stream = r.stream; lag = sub_ℕ now r.created_at }

abbrev pub nack_outcome : Row → NackOutcome
nack_outcome r = record {
  id = r.id;
  stream = r.stream;
  status = r.status;
  attempts = r.attempts;
  deferred = is_some r.deferred_since;
}

abbrev pub ack_read : ℕ → List ℕ → List Row → Result AckResult
ack_read now given rows =
    let d = map (delivered_row now) rows in
    ok (record { delivered = d; conflicts = sub_ℕ (length given) (length d) })

-- `Store.Ack`.
unfoldable pub ack : At → List ℕ → ℕ → Table → Result AckResult × Table
unfolding ack_sql
ack at [] token t = (ok (record { delivered = []; conflicts = sub_ℕ 0 0 }), t)
ack at (i ∷ is) token t =
    perform at.fault "ack" (ack_read at.now (i ∷ is)) (ack_sql (i ∷ is) token at.now t) t

abbrev pub nack_read : ℕ → List Row → Result NackResult
nack_read n rows =
    let o = map nack_outcome rows in ok (record { outcomes = o; conflicts = sub_ℕ n (length o) })

-- `Store.ReleaseLease`.
unfoldable pub release_lease : At → List ℕ → ℕ → Table → Result ℕ × Table
unfolding release_sql
release_lease at [] token t = (ok 0, t)
release_lease at (i ∷ is) token t =
    perform at.fault "release lease" (λ rows. ok (length rows))
      (release_sql (i ∷ is) token at.now t) t

pub record Reclaimed : Type 0 where
  pub id : ℕ
  pub stream : String
  pub owner : String
  pub overdue : ℤ

abbrev pub reclaimed_row : ℕ → Row → Reclaimed
reclaimed_row now r = record {
  id = r.id;
  stream = r.stream;
  owner = coalesce r.owner "";
  overdue = sub_ℕ now (coalesce r.lease_until 0);
}

-- `Store.Reclaim`.
unfoldable pub reclaim : At → ℕ → Table → Result (List Reclaimed) × Table
unfolding reclaim_sql
reclaim at limit t =
    perform at.fault "reclaim" (λ rows. ok (map (reclaimed_row at.now) rows))
      (reclaim_sql at.locked limit at.now t) t

-- `Store.Purge`.
unfoldable pub purge : At → ℕ → ℕ → Table → Result ℕ × Table
unfolding purge_sql
purge at retention limit t =
    perform at.fault "purge" (λ rows. ok (length rows))
      (purge_sql at.locked retention limit at.now t) t

-- `Store.Requeue` and `Store.RequeueFailedBefore`.
unfoldable pub requeue : At → List ℕ → Table → Result (List ℕ) × Table
unfolding requeue_sql
requeue at [] t = (ok [], t)
requeue at (i ∷ is) t =
    perform at.fault "requeue" (λ rows. ok (ids rows)) (requeue_sql (i ∷ is) at.now t) t

unfoldable pub requeue_failed_before : At → ℕ → ℕ → Table → Result (List ℕ) × Table
unfolding requeue_before_sql
requeue_failed_before at before limit t =
    perform at.fault "requeue failed" (λ rows. ok (ids rows))
      (requeue_before_sql before limit at.now t) t

pub record FailedMessage : Type 0 where
  pub id : ℕ
  pub stream : String
  pub topic : String
  pub attempts : ℕ
  pub last_error : String
  pub created_at : ℕ

abbrev pub failed_message : Row → FailedMessage
failed_message r = record {
  id = r.id;
  stream = r.stream;
  topic = r.topic;
  attempts = r.attempts;
  last_error = coalesce r.last_error "";
  created_at = r.created_at;
}

-- The zero value starts at the beginning; an empty ID stands for the nil UUID, 0.
pub record Cursor : Type 0 where
  pub created_at : ℕ
  pub id : Option ℕ

-- `Store.ListFailed`.
unfoldable pub list_failed : At → Cursor → ℕ → String → Table → Result (List FailedMessage)
unfolding list_failed_sql
list_failed at after limit stream t =
    (perform at.fault "list failed" (λ rows. ok (map failed_message rows))
      (list_failed_sql after.created_at (coalesce after.id 0) limit stream t, t) t).0

pub record Stats : Type 0 where
  pub pending : ℕ
  pub processing : ℕ
  pub failed : ℕ
  pub oldest_pending : ℕ
  pub deferred : ℕ

-- `Store.Stats`.
unfoldable pub stats : At → Table → Result Stats
unfolding stats_sql
stats at t =
    (perform {R = ℕ × ℕ × ℕ × ℕ × ℕ} at.fault "stats"
      (λ (p, q, f, o, d).
        ok (record { pending = p; processing = q; failed = f; oldest_pending = o; deferred = d }))
      (stats_sql at.now t, t) t).0

-- The methods that decode jsonb, or render an error.
module _ (decode_headers : List ℕ → Result (List (String × String)))
    (decode_target : List ℕ → Result Target) where
  -- `decodeJSON`, which leaves the zero value where the column is empty.
  abbrev pub headers_of : List ℕ → Result (List (String × String))
  headers_of [] = ok []
  headers_of (b ∷ bs) = decode_headers (b ∷ bs)

  abbrev pub target_of : List ℕ → Result Target
  target_of [] = ok (record { key = ""; version = ℤ.pos 0; exchange = ""; routing_key = "" })
  target_of (b ∷ bs) = decode_target (b ∷ bs)

  -- One row scanned into a message.
  unfoldable pub scan : Row → Result Message
  scan r = do
    headers ← wrapped "decode headers" (headers_of r.headers)
    target ← wrapped "decode target" (target_of r.target)
    ok (record {
      id = r.id;
      stream = r.stream;
      topic = r.topic;
      payload = r.payload;
      headers = headers;
      target = target;
      attempts = r.attempts;
      created_at = r.created_at;
    })

  unfoldable pub scan_all : List Row → Result (List Message)
  scan_all [] = ok []
  scan_all (r ∷ rs) = do m ← scan r; ms ← scan_all rs; ok (m ∷ ms)

  -- `Store.Claim`. `clock` is the process's clock, from which the time to live is measured.
  unfoldable pub claim : At → ℕ → String → ℕ → Lease → Table → Result (List Message) × Table
  unfolding claim_sql
  claim at clock stream limit lease t =
      if leb lease.until clock
      then (err (leaf (text "lease already expired")), t)
      else (perform at.fault "claim" scan_all
          (claim_sql at.locked stream limit lease.token (lease.until - clock) lease.owner at.now t)
          t)

  -- `Store.FetchByIDs`.
  unfoldable pub fetch_by_ids : At → List ℕ → Table → Result (List Message)
  unfolding fetch_sql
  fetch_by_ids at [] t = ok []
  fetch_by_ids at (i ∷ is) t =
      (perform at.fault "fetch messages" scan_all (fetch_sql (i ∷ is) t, t) t).0

module _ (describe : Err → String) where
  -- `errText`.
  abbrev pub err_text : Option Err → String
  err_text none = ""
  err_text (some e) = describe e

  abbrev pub failure : Outcome → Failure
  failure o = record {
    id = o.id;
    err = err_text o.err;
    permanent = o.permanent;
    deferred = o.deferred && not o.permanent;
    delay = o.delay;
  }

  -- `Store.Nack`.
  unfoldable pub nack : At → List Outcome → ℕ → RetryLimits → Table → Result NackResult × Table
  unfolding nack_sql
  nack at [] token limits t = (ok (record { outcomes = []; conflicts = sub_ℕ 0 0 }), t)
  nack at (o ∷ os) token limits t =
      perform at.fault "nack" (nack_read (length (o ∷ os)))
        (nack_sql limits (map failure (o ∷ os)) token at.now t) t
