-- ===== src/Store/System.antt =====
-- Everything that touches the table, from any replica, in the order in which the database commits
-- it: the statements of queries.go, and the producer's INSERT (pkg/outboxsql, migrations/0001).
--
-- Nothing is assumed of who runs what: tokens, identifiers and clocks are arbitrary.
use go_outbox.Base.{
  ℕ, Bool, true, false, Option, none, coalesce, List, [], ◌∷◌, String, elem, if◌then◌else◌,
}
use go_outbox.Core.{RetryLimits, pending}
use go_outbox.Store.Table.{Row, Table, ids}
use go_outbox.Store.Queries.{
  claim_sql, ack_sql, Failure, nack_sql, release_sql, reclaim_sql, purge_sql, requeue_sql,
  requeue_before_sql,
}

-- What a producer writes.
pub record Insert : Type 0 where
  pub id : ℕ
  pub stream : String
  pub topic : String
  pub payload : List ℕ
  pub headers : List ℕ
  pub target : List ℕ
  -- `coalesce($7, now())`
  pub available_at : Option ℕ

-- The row with the column defaults of the table.
abbrev pub new_row : ℕ → Insert → Row
new_row now m = record {
  id = m.id;
  stream = m.stream;
  topic = m.topic;
  payload = m.payload;
  headers = m.headers;
  target = m.target;
  status = pending;
  attempts = 0;
  available_at = coalesce m.available_at now;
  lease_token = none;
  lease_until = none;
  owner = none;
  last_error = none;
  created_at = now;
  dispatched_at = none;
  deferred_since = none;
}

-- An identifier that is there already violates the primary key, and nothing is inserted.
unfoldable pub insert_sql : ℕ → Insert → Table → Table
insert_sql now m t = if elem m.id (ids t) then t else new_row now m ∷ t

pub data Statement : Type 0 where
  inserts : Insert → Statement
  claims : (ℕ → Bool) → String → ℕ → ℕ → ℕ → String → Statement
  acks : List ℕ → ℕ → Statement
  nacks : RetryLimits → List Failure → ℕ → Statement
  releases : List ℕ → ℕ → Statement
  reclaims : (ℕ → Bool) → ℕ → Statement
  purges : (ℕ → Bool) → ℕ → ℕ → Statement
  requeues : List ℕ → Statement
  requeues_before : ℕ → ℕ → Statement

unfoldable pub exec : ℕ → Statement → Table → Table
exec now (inserts m) t = insert_sql now m t
exec now (claims locked stream limit token ttl owner) t =
    (claim_sql locked stream limit token ttl owner now t).1
exec now (acks given token) t = (ack_sql given token now t).1
exec now (nacks limits fs token) t = (nack_sql limits fs token now t).1
exec now (releases given token) t = (release_sql given token now t).1
exec now (reclaims locked limit) t = (reclaim_sql locked limit now t).1
exec now (purges locked retention limit) t = (purge_sql locked retention limit now t).1
exec now (requeues given) t = (requeue_sql given now t).1
exec now (requeues_before before limit) t = (requeue_before_sql before limit now t).1

unfoldable pub run : List (ℕ × Statement) → Table → Table
run [] t = t
run ((now, s) ∷ rest) t = run rest (exec now s t)

abbrev pub is_purge : Statement → Bool
is_purge (purges locked retention limit) = true
is_purge (inserts m) = false
is_purge (claims locked stream limit token ttl owner) = false
is_purge (acks given token) = false
is_purge (nacks limits fs token) = false
is_purge (releases given token) = false
is_purge (reclaims locked limit) = false
is_purge (requeues given) = false
is_purge (requeues_before before limit) = false
