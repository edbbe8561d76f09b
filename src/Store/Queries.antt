-- ===== src/Store/Queries.antt =====
-- internal/store/queries.go, and the two functions of migrations/0004_deferral.sql that it calls:
-- each statement as a function of the table.
--
-- Every statement runs in a transaction of its own at one instant, `now`. What `FOR UPDATE SKIP
-- LOCKED` passes over is a test of identifiers, `locked`: the rows that other transactions hold.
-- RETURNING gives the rows in the table's order.
use go_outbox.Base.{
  ℕ, zero, suc, ◌+◌, ◌-◌, Bool, false, not, ◌&&◌, ◌||◌, Option, none, some, List, [], ◌∷◌, map,
  String, length, keep, elem, take, sort, holds, is_some, coalesce, if◌then◌else◌, ltb, leb, ◌==◌,
  str_eq,
}
use go_outbox.Base.Int.{ℤ, pos, leb_ℤ, ltb_ℤ, pos_part}
use go_outbox.Core.{
  pending, processing, sent, failed, is_pending, is_processing, is_sent, is_failed, RetryLimits,
}
use go_outbox.Store.Table.{Row, Table, update, remove, ids, shift}

-- The orders of the ORDER BY clauses.
abbrev pub by_availability : Row → Row → Bool
by_availability r s =
    ltb r.available_at s.available_at || (r.available_at == s.available_at && leb r.id s.id)

abbrev pub by_creation : Row → Row → Bool
by_creation r s = ltb r.created_at s.created_at || (r.created_at == s.created_at && leb r.id s.id)

abbrev pub by_deadline : Row → Row → Bool
by_deadline r s = leb (coalesce r.lease_until 0) (coalesce s.lease_until 0)

abbrev pub by_dispatch : Row → Row → Bool
by_dispatch r s = leb (coalesce r.dispatched_at 0) (coalesce s.dispatched_at 0)

-- A comparison with a nullable time: NULL satisfies none.
abbrev pub at_most : Option ℕ → ℕ → Bool
at_most none t = false
at_most (some u) t = leb u t

-- `SELECT … WHERE … ORDER BY … LIMIT`.
abbrev pub batch : (Row → Row → Bool) → ℕ → (Row → Bool) → Table → List Row
batch before limit test t = take limit (sort before (keep test t))

-- claimSQL.
abbrev pub is_due : String → ℕ → Row → Bool
is_due stream now r = is_pending r.status && (str_eq r.stream stream && leb r.available_at now)

unfoldable pub due : (ℕ → Bool) → String → ℕ → ℕ → Table → List Row
due locked stream limit now t =
    batch by_availability limit (λ r. is_due stream now r && not (locked r.id)) t

abbrev pub lease_row : ℕ → ℕ → String → Row → Row
lease_row token until owner r = record r {
  status = processing;
  lease_token = some token;
  lease_until = some until;
  owner = some owner;
}

abbrev pub in_rows : List Row → Row → Bool
in_rows rs r = elem r.id (ids rs)

unfoldable pub claim_sql : (ℕ → Bool) → String → ℕ → ℕ → ℕ → String → ℕ → Table → List Row × Table
unfolding due
claim_sql locked stream limit token ttl owner now t =
    let chosen = due locked stream limit now t in
    (keep (in_rows chosen) t, update (in_rows chosen) (lease_row token (now + ttl) owner) t)

-- ackSQL.
abbrev pub owned : List ℕ → ℕ → Row → Bool
owned given token r = elem r.id given && holds r.lease_token token

abbrev pub ack_row : ℕ → Row → Row
ack_row now r = record r {
  status = sent;
  dispatched_at = some now;
  lease_token = none;
  lease_until = none;
  owner = none;
  last_error = none;
  deferred_since = none;
}

unfoldable pub ack_sql : List ℕ → ℕ → ℕ → Table → List Row × Table
ack_sql given token now t = (keep (owned given token) t, update (owned given token) (ack_row now) t)

-- nackSQL: one row of the `input` CTE.
pub record Failure : Type 0 where
  pub id : ℕ
  pub err : String
  pub permanent : Bool
  pub deferred : Bool
  pub delay : ℤ

-- The join on the identifier; it takes the first of several.
abbrev pub input_for : ℕ → List Failure → Option Failure
input_for i [] = none
input_for i (f ∷ fs) = if f.id == i then some f else input_for i fs

-- `left(text, n)`.
unfoldable pub left : ℕ → String → String
left zero s = String.[]
left (suc n) String.[] = String.[]
left (suc n) (String.◌∷◌ c s) = String.◌∷◌ c (left n s)

abbrev pub since : ℕ → Row → ℕ
since now r = coalesce r.deferred_since now

-- The `terminal` column of the `plan` CTE.
unfoldable pub terminal : RetryLimits → ℕ → Failure → Row → Bool
terminal limits now f r =
    f.permanent
    || (not f.deferred && leb_ℤ limits.max_attempts (pos (r.attempts + 1)))
    || (f.deferred
        && ltb_ℤ (pos 0) limits.max_defer
        && leb (since now r + pos_part limits.max_defer) now)

unfoldable pub nack_row : RetryLimits → ℕ → Failure → Row → Row
unfolding terminal left
nack_row limits now f r =
    let ends = terminal limits now f r in
    record r {
      attempts = if f.deferred then r.attempts else r.attempts + 1;
      last_error = some (left 2000 f.err);
      lease_token = none;
      lease_until = none;
      owner = none;
      deferred_since = if ends || not f.deferred then none else some (since now r);
      status = if ends then failed else pending;
      available_at = if ends then r.available_at else shift now f.delay;
    }

abbrev pub nack_hit : List Failure → ℕ → Row → Bool
nack_hit fs token r = is_some (input_for r.id fs) && holds r.lease_token token

abbrev pub nack_input : RetryLimits → ℕ → Option Failure → Row → Row
nack_input limits now none r = r
nack_input limits now (some f) r = nack_row limits now f r

abbrev pub nack_set : RetryLimits → ℕ → List Failure → Row → Row
nack_set limits now fs r = nack_input limits now (input_for r.id fs) r

unfoldable pub nack_sql : RetryLimits → List Failure → ℕ → ℕ → Table → List Row × Table
nack_sql limits fs token now t = (
  map (nack_set limits now fs) (keep (nack_hit fs token) t),
  update (nack_hit fs token) (nack_set limits now fs) t,
)

-- releaseLeaseSQL, and the SET clause that it shares with reclaimSQL.
abbrev pub release_row : ℕ → Row → Row
release_row now r = record r {
  status = pending;
  available_at = now;
  lease_token = none;
  lease_until = none;
  owner = none;
}

abbrev pub release_hit : List ℕ → ℕ → Row → Bool
release_hit given token r = elem r.id given && (holds r.lease_token token && is_processing r.status)

unfoldable pub release_sql : List ℕ → ℕ → ℕ → Table → List Row × Table
release_sql given token now t =
    (keep (release_hit given token) t, update (release_hit given token) (release_row now) t)

-- reclaimSQL. The rows returned are those of the `expired` CTE, from before the update.
abbrev pub is_expired : ℕ → Row → Bool
is_expired now r = is_processing r.status && at_most r.lease_until now

unfoldable pub expired : (ℕ → Bool) → ℕ → ℕ → Table → List Row
expired locked limit now t = batch by_deadline limit (λ r. is_expired now r && not (locked r.id)) t

unfoldable pub reclaim_sql : (ℕ → Bool) → ℕ → ℕ → Table → List Row × Table
unfolding expired
reclaim_sql locked limit now t =
    let chosen = expired locked limit now t in
    (keep (in_rows chosen) t, update (in_rows chosen) (release_row now) t)

-- purgeSQL: delivered rows past their retention.
abbrev pub is_doomed : ℕ → ℕ → Row → Bool
is_doomed retention now r =
    is_sent r.status
    && (is_some r.dispatched_at && ltb (coalesce r.dispatched_at 0 + retention) now)

unfoldable pub doomed : (ℕ → Bool) → ℕ → ℕ → ℕ → Table → List Row
doomed locked retention limit now t =
    batch by_dispatch limit (λ r. is_doomed retention now r && not (locked r.id)) t

unfoldable pub purge_sql : (ℕ → Bool) → ℕ → ℕ → ℕ → Table → List Row × Table
unfolding doomed
purge_sql locked retention limit now t =
    let chosen = doomed locked retention limit now t in
    (keep (in_rows chosen) t, remove (in_rows chosen) t)

-- requeueSQL and requeueBeforeSQL, by the functions that they call.
abbrev pub requeue_row : ℕ → Row → Row
requeue_row now r = record r {
  status = pending;
  attempts = 0;
  available_at = now;
  last_error = none;
  lease_token = none;
  lease_until = none;
  owner = none;
  dispatched_at = none;
  deferred_since = none;
}

abbrev pub requeue_hit : List ℕ → Row → Bool
requeue_hit given r = elem r.id given && is_failed r.status

unfoldable pub requeue_sql : List ℕ → ℕ → Table → List Row × Table
requeue_sql given now t =
    (keep (requeue_hit given) t, update (requeue_hit given) (requeue_row now) t)

unfoldable pub failed_before : ℕ → ℕ → Table → List Row
failed_before before limit t =
    batch by_creation limit (λ r. is_failed r.status && ltb r.created_at before) t

unfoldable pub requeue_before_sql : ℕ → ℕ → ℕ → Table → List Row × Table
unfolding failed_before
requeue_before_sql before limit now t =
    let chosen = failed_before before limit t in
    (keep (in_rows chosen) t, update (in_rows chosen) (requeue_row now) t)

-- listFailedSQL.
abbrev pub is_listed : ℕ → ℕ → String → Row → Bool
is_listed after_created after_id stream r =
    is_failed r.status
    && ((str_eq stream "" || str_eq r.stream stream)
        && (ltb after_created r.created_at || (after_created == r.created_at && ltb after_id r.id)))

unfoldable pub list_failed_sql : ℕ → ℕ → ℕ → String → Table → List Row
list_failed_sql after_created after_id limit stream t =
    batch by_creation limit (is_listed after_created after_id stream) t

-- fetchByIDsSQL.
unfoldable pub fetch_sql : List ℕ → Table → List Row
fetch_sql given t = keep (λ r. elem r.id given) t

-- statsSQL: three counts, the age of the oldest pending row, and the deferred rows.
abbrev pub oldest : Option ℕ → Table → Option ℕ
oldest acc [] = acc
oldest acc (r ∷ t) =
    oldest
      (if is_pending r.status
        then some (elim acc [
          | none ↦ r.created_at
          | some m ↦ if ltb r.created_at m then r.created_at else m
        ])
        else acc)
      t

unfoldable pub stats_sql : ℕ → Table → ℕ × ℕ × ℕ × ℕ × ℕ
stats_sql now t = (
  length (keep (λ r. is_pending r.status) t),
  length (keep (λ r. is_processing r.status) t),
  length (keep (λ r. is_failed r.status) t),
  elim (oldest none t) [ none ↦ 0 | some m ↦ now - m ],
  length (keep (λ r. is_some r.deferred_since) t),
)
