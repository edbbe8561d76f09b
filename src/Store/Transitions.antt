-- ===== src/Store/Transitions.antt =====
-- What one statement does to one row.
use go_outbox.Base.{
  ℕ, ◌+◌, ◌<◌, ◌⊎◌, coalesce, false, ◌≡◌, refl, Bool, ◌&&◌, not, inl, inr, none, some, arith, ltb,
}
use go_outbox.Core.{sent, is_failed}
use go_outbox.Store.Table.{Row, Table, find, find-absent, find-id, find-remove, WellFormed}
use go_outbox.Store.Queries.{
  claim_sql, ack_sql, nack_sql, release_sql, reclaim_sql, purge_sql, requeue_sql,
  requeue_before_sql, in_rows, due, expired, failed_before, doomed, by_availability, by_deadline,
  by_creation, is_due, is_expired,
}
use go_outbox.Store.Batches.{batch-test}
use go_outbox.Store.Invariant.{nack_set-id}
use go_outbox.Store.System.{
  Statement, inserts, claims, acks, nacks, releases, reclaims, purges, requeues, requeues_before,
  insert_sql, exec, is_purge,
}
use go_outbox.Store.Removal.{exec-keeps, purge-only_expired}
use go_outbox.Store.Lifecycle.{
  Transition, same, claimed, delivered, returned, requeued, pending-eq, processing-eq, failed-eq,
  holds-processing, find-Leased, nack-Transition, update-Transition,
}

pub find-exec-Transition :
    (now : ℕ) (st : Statement) (i : ℕ) (t : Table) {r s : Row}
    → WellFormed t
    → find i t ≡ some r
    → find i (exec now st t) ≡ some s
    → Transition r s
unfolding exec insert_sql claim_sql ack_sql nack_sql release_sql reclaim_sql purge_sql requeue_sql
    requeue_before_sql due expired failed_before doomed
find-exec-Transition now (inserts m) i t {r} {s} w f g =
    same (ground (arith, find-absent i t, find-id i t {r = r} f))
find-exec-Transition now (claims locked stream limit token ttl owner) i t {r} {s} w f g =
    update-Transition _ _ (λ x. refl) i t {r = r} {s = s}
      (λ h.
        claimed
          (pending-eq r.status (
            ground (
              arith,
              batch-test by_availability limit (λ x. is_due stream now x && not (locked x.id)) i t
                  {r = r} w.keys f h,
            )))
          refl refl refl)
      f g
find-exec-Transition now (acks given token) i t {r} {s} w f g =
    update-Transition _ _ (λ x. refl) i t {r = r} {s = s}
      (λ h. delivered (holds-processing r token (find-Leased i t w f) (ground arith)) refl) f g
find-exec-Transition now (nacks limits fs token) i t {r} {s} w f g =
    update-Transition _ _ (nack_set-id limits now fs) i t {r = r} {s = s}
      (λ h.
        nack-Transition limits now fs r
          (holds-processing r token (find-Leased i t w f) (ground arith)))
      f g
find-exec-Transition now (releases given token) i t {r} {s} w f g =
    update-Transition _ _ (λ x. refl) i t {r = r} {s = s}
      (λ h. returned (processing-eq r.status (ground arith)) refl refl refl) f g
find-exec-Transition now (reclaims locked limit) i t {r} {s} w f g =
    update-Transition _ _ (λ x. refl) i t {r = r} {s = s}
      (λ h.
        returned
          (processing-eq r.status (
            ground (
              arith,
              batch-test by_deadline limit (λ x. is_expired now x && not (locked x.id)) i t {r = r}
                  w.keys f h,
            )))
          refl refl refl)
      f g
find-exec-Transition now (purges locked retention limit) i t {r} {s} w f g = same (
    ground
      (arith, find-remove (in_rows (doomed locked retention limit now t)) i t {r = r} w.keys f))
find-exec-Transition now (requeues given) i t {r} {s} w f g =
    update-Transition _ _ (λ x. refl) i t {r = r} {s = s}
      (λ h. requeued (failed-eq r.status (ground arith)) refl refl refl) f g
find-exec-Transition now (requeues_before before limit) i t {r} {s} w f g =
    update-Transition _ _ (λ x. refl) i t {r = r} {s = s}
      (λ h.
        requeued
          (failed-eq r.status (
            ground (
              arith,
              batch-test by_creation limit (λ x. is_failed x.status && ltb x.created_at before) i t
                  {r = r} w.keys f h,
            )))
          refl refl refl)
      f g

-- A delivered row whose retention is over, removed by a purge.
pub record Expired (now : ℕ) (st : Statement) (r : Row) : Type 0 where
  pub locked : ℕ → Bool
  pub retention : ℕ
  pub limit : ℕ
  pub purge : st ≡ purges locked retention limit
  pub was_sent : r.status ≡ sent
  pub over : coalesce r.dispatched_at now + retention < now

kept-Transition :
    (now : ℕ) (st : Statement) (i : ℕ) (t : Table) {r : Row}
    → WellFormed t
    → find i t ≡ some r
    → is_purge st ≡ false
    → (s : Row) × (find i (exec now st t) ≡ some s) × Transition r s
kept-Transition now st i t {r} w f k =
    let (s, g) = exec-keeps now st i t {r = r} k f in
    (s, g, find-exec-Transition now st i t {r = r} {s = s} w f g)

-- After any statement on a table that satisfies its constraints, a row that was there is either
-- still there, changed by one of the transitions of its life or not at all, or it is gone, and then
-- the statement was a purge, and the row had been sent and its retention was over.
pub exec-Transition :
    (now : ℕ) (st : Statement) (i : ℕ) (t : Table) {r : Row}
    → WellFormed t
    → find i t ≡ some r
    → ((s : Row) × (find i (exec now st t) ≡ some s) × Transition r s)
      ⊎ ((find i (exec now st t) ≡ none) × Expired now st r)
unfolding exec
exec-Transition now (purges locked retention limit) i t {r} w f =
    by_purge (purge-only_expired locked retention limit now i t {r = r} w f)
  where
    by_purge :
        (find i (exec now (purges locked retention limit) t) ≡ some r)
          ⊎ ((find i (exec now (purges locked retention limit) t) ≡ none)
              × (r.status ≡ sent)
              × (locked i ≡ false)
              × (coalesce r.dispatched_at now + retention < now))
        → ((s : Row) × (find i (exec now (purges locked retention limit) t) ≡ some s)
            × Transition r s)
          ⊎ ((find i (exec now (purges locked retention limit) t) ≡ none)
              × Expired now (purges locked retention limit) r)
    by_purge (inl kept) = inl (r, kept, same refl)
    by_purge (inr (gone, done, free, late)) = inr (
      gone,
      record {
        locked = locked;
        retention = retention;
        limit = limit;
        purge = refl;
        was_sent = done;
        over = late;
      },
    )
exec-Transition now (inserts m) i t {r} w f =
    inl (kept-Transition now (inserts m) i t {r = r} w f refl)
exec-Transition now (claims locked stream limit token ttl owner) i t {r} w f =
    inl (kept-Transition now (claims locked stream limit token ttl owner) i t {r = r} w f refl)
exec-Transition now (acks given token) i t {r} w f =
    inl (kept-Transition now (acks given token) i t {r = r} w f refl)
exec-Transition now (nacks limits fs token) i t {r} w f =
    inl (kept-Transition now (nacks limits fs token) i t {r = r} w f refl)
exec-Transition now (releases given token) i t {r} w f =
    inl (kept-Transition now (releases given token) i t {r = r} w f refl)
exec-Transition now (reclaims locked limit) i t {r} w f =
    inl (kept-Transition now (reclaims locked limit) i t {r = r} w f refl)
exec-Transition now (requeues given) i t {r} w f =
    inl (kept-Transition now (requeues given) i t {r = r} w f refl)
exec-Transition now (requeues_before before limit) i t {r} w f =
    inl (kept-Transition now (requeues_before before limit) i t {r = r} w f refl)
