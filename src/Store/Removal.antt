-- ===== src/Store/Removal.antt =====
-- Which statement removes a row, and which row.
use go_outbox.Base.{
  ℕ, ◌+◌, ◌<◌, ◌≡◌, refl, ◌∙◌, Bool, true, false, ◌&&◌, not, ◌⊎◌, inl, inr, none, some, arith,
  coalesce, Bool-cases,
}
use go_outbox.Core.{sent}
use go_outbox.Store.Table.{
  Row, Table, find, find-update-some, find-remove, find-absent, find-id, WellFormed,
}
use go_outbox.Store.Queries.{
  claim_sql, ack_sql, nack_sql, release_sql, purge_sql, reclaim_sql, requeue_sql,
  requeue_before_sql, doomed, in_rows, by_dispatch, is_doomed,
}
use go_outbox.Store.Batches.{batch-test}
use go_outbox.Store.Invariant.{nack_set-id}
use go_outbox.Store.System.{
  Statement, inserts, claims, acks, nacks, releases, reclaims, purges, requeues, requeues_before,
  insert_sql, exec, is_purge,
}

-- Every statement but a purge keeps the row.
pub exec-keeps :
    (now : ℕ) (st : Statement) (i : ℕ) (t : Table) {r : Row}
    → is_purge st ≡ false
    → find i t ≡ some r
    → (s : Row) × (find i (exec now st t) ≡ some s)
unfolding exec insert_sql claim_sql ack_sql nack_sql release_sql reclaim_sql requeue_sql
    requeue_before_sql
exec-keeps now (inserts m) i t {r} k f = (r, ground (arith, find-absent i t, find-id i t {r = r} f))
exec-keeps now (claims locked stream limit token ttl owner) i t {r} k f =
    find-update-some _ _ (λ x. refl) i t {r = r} f
exec-keeps now (acks given token) i t {r} k f = find-update-some _ _ (λ x. refl) i t {r = r} f
exec-keeps now (nacks limits fs token) i t {r} k f =
    find-update-some _ _ (nack_set-id limits now fs) i t {r = r} f
exec-keeps now (releases given token) i t {r} k f = find-update-some _ _ (λ x. refl) i t {r = r} f
exec-keeps now (reclaims locked limit) i t {r} k f = find-update-some _ _ (λ x. refl) i t {r = r} f
exec-keeps now (purges locked retention limit) i t k f = cc
exec-keeps now (requeues given) i t {r} k f = find-update-some _ _ (λ x. refl) i t {r = r} f
exec-keeps now (requeues_before before limit) i t {r} k f =
    find-update-some _ _ (λ x. refl) i t {r = r} f

-- A purge removes only rows that were sent longer ago than the retention, and leaves every other
-- row as it was.
pub purge-only_expired :
    (locked : ℕ → Bool) (retention limit now i : ℕ) (t : Table) {r : Row}
    → WellFormed t
    → find i t ≡ some r
    → (find i (purge_sql locked retention limit now t).1 ≡ some r)
      ⊎ ((find i (purge_sql locked retention limit now t).1 ≡ none)
          × (r.status ≡ sent)
          × (locked i ≡ false)
          × (coalesce r.dispatched_at now + retention < now))
unfolding purge_sql doomed
purge-only_expired locked retention limit now i t {r} w f =
    elim (Bool-cases (in_rows (doomed locked retention limit now t) r)) [
      | inl hit ↦ inr (
        find-remove (in_rows (doomed locked retention limit now t)) i t {r = r} w.keys f
            ∙ rw hit refl,
        ground (arith, tested hit, find-id i t {r = r} f),
        ground (arith, tested hit, find-id i t {r = r} f),
        ground (arith, tested hit, find-id i t {r = r} f),
      )
      | inr miss ↦ inl (
          find-remove (in_rows (doomed locked retention limit now t)) i t {r = r} w.keys f
          ∙ rw miss refl)
    ]
  where
    tested :
        in_rows (doomed locked retention limit now t) r ≡ true
        → (is_doomed retention now r && not (locked r.id)) ≡ true
    tested h =
        batch-test by_dispatch limit (λ x. is_doomed retention now x && not (locked x.id)) i t
          {r = r} w.keys f h
