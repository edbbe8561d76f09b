-- ===== src/Store/Partitions/Spent.antt =====
-- What a dropped partition held.
use go_outbox.Base.{
  ℕ, ◌≡◌, refl, sym, ap, ◌∙◌, Bool, true, false, ◌&&◌, Option, none, some, List, [], ◌∷◌, arith,
  Bool-cases, Option-cases, inl, inr, some_eq, subst, ◌==◌,
}
use go_outbox.Core.{Status, sent, is_sent}
use go_outbox.Store.Table.{
  Row, Table, find, update, find-update, find-remove-none, rewrite, WellFormed,
}
use go_outbox.Store.Queries.{
  claim_sql, ack_sql, nack_sql, release_sql, reclaim_sql, purge_sql, requeue_sql,
  requeue_before_sql,
}
use go_outbox.Store.Invariant.{nack_set-id}
use go_outbox.Store.System.{
  Statement, inserts, claims, acks, nacks, releases, reclaims, purges, requeues, requeues_before,
  exec, run,
}
use go_outbox.Store.Delivered.{NoPurge, run-sent}
use go_outbox.Store.Partitions.{
  Part, is_default, last_dispatch, before_window, is_spent, Visit, Visited, kept, dropped, stopped,
  visit, latest,
}

-- The statement is no INSERT.
abbrev pub is_insert : Statement → Bool
is_insert (inserts m) = true
is_insert (claims locked stream limit token ttl owner) = false
is_insert (acks given token) = false
is_insert (nacks limits fs token) = false
is_insert (releases given token) = false
is_insert (reclaims locked limit) = false
is_insert (purges locked retention limit) = false
is_insert (requeues given) = false
is_insert (requeues_before before limit) = false

abbrev pub NoInsert : List (ℕ × Statement) → Type 0
NoInsert [] = Unit
NoInsert ((now, st) ∷ rest) = (is_insert st ≡ false) × NoInsert rest

update-absent :
    (hit : Row → Bool) (set : Row → Row)
    → ((r : Row) → (set r).id ≡ r.id)
    → (i : ℕ) (t : Table) → find i t ≡ none
    → find i (update hit set t) ≡ none
update-absent hit set keeps i t n = find-update hit set keeps i t ∙ ap (rewrite hit set) n

exec-absent :
    (now : ℕ) (st : Statement) (i : ℕ) (t : Table)
    → is_insert st ≡ false
    → find i t ≡ none
    → find i (exec now st t) ≡ none
unfolding exec claim_sql ack_sql nack_sql release_sql reclaim_sql purge_sql requeue_sql
    requeue_before_sql
exec-absent now (inserts m) i t k n = cc
exec-absent now (claims locked stream limit token ttl owner) i t k n =
    update-absent _ _ (λ x. refl) i t n
exec-absent now (acks given token) i t k n = update-absent _ _ (λ x. refl) i t n
exec-absent now (nacks limits fs token) i t k n =
    update-absent _ _ (nack_set-id limits now fs) i t n
exec-absent now (releases given token) i t k n = update-absent _ _ (λ x. refl) i t n
exec-absent now (reclaims locked limit) i t k n = update-absent _ _ (λ x. refl) i t n
exec-absent now (purges locked retention limit) i t k n = find-remove-none _ i t n
exec-absent now (requeues given) i t k n = update-absent _ _ (λ x. refl) i t n
exec-absent now (requeues_before before limit) i t k n = update-absent _ _ (λ x. refl) i t n

run-absent :
    (h : List (ℕ × Statement)) (i : ℕ) (t : Table)
    → NoInsert h
    → find i t ≡ none
    → find i (run h t) ≡ none
unfolding run
run-absent [] i t k n = n
run-absent ((now, st) ∷ rest) i t k n =
    run-absent rest i (exec now st t) k.1 (exec-absent now st i t k.0 n)

sent-eq : (s : Status) → is_sent s ≡ true → s ≡ sent
sent-eq s h = ground arith

window-latest :
    (retention now : ℕ) (d m : Option ℕ)
    → before_window retention now (latest d m) ≡ true
    → (before_window retention now d ≡ true) × (before_window retention now m ≡ true)
window-latest retention now d m h = ground arith

spent-cons :
    (retention now : ℕ) (x : Row) (t : Table)
    → is_spent retention now (x ∷ t) ≡ true
    → (x.status ≡ sent)
      × (before_window retention now x.dispatched_at ≡ true)
      × (is_spent retention now t ≡ true)
unfolding is_spent
spent-cons retention now x t s =
    let (sents, window) = both _ _ s in
    let (here, rest) = both _ _ sents in
    let (old, older) =
      window-latest retention now x.dispatched_at (last_dispatch t)
        (unfold last_dispatch in window) in
    (sent-eq x.status here, old, rw (rest, older) refl)
  where
    both : (a b : Bool) → (a && b) ≡ true → (a ≡ true) × (b ≡ true)
    both a b h = ground arith

-- Every row of a spent partition was delivered, and longer ago than the retention.
spent-row :
    (retention now i : ℕ) (t : Table) {r : Row}
    → is_spent retention now t ≡ true
    → find i t ≡ some r
    → (r.status ≡ sent) × (before_window retention now r.dispatched_at ≡ true)
spent-row retention now i [] s f = cc
spent-row retention now i (x ∷ t) {r} s f =
    let (here, old, rest) = spent-cons retention now x t s in
    elim (Bool-cases (x.id == i)) [
      | inl e ↦
          subst
            (λ (y : Row). (y.status ≡ sent) × (before_window retention now y.dispatched_at ≡ true))
            (some_eq (rw e at f)) (here, old)
      | inr e ↦ spent-row retention now i t rest (rw e at f)
    ]

-- The rows that go are those of the partition when it was spent.
abbrev gone_rows : Visited → Table → Table
gone_rows (dropped t) u = t
gone_rows (kept p) u = u
gone_rows (stopped e p) u = u

-- A partition is dropped only once every row in it was delivered and longer ago than the retention:
-- if nobody inserts into the partition between the query and the DROP, that holds of each row that
-- goes with it, whatever else was committed meanwhile but a purge.
pub dropped-spent :
    (v : Visit) (retention i : ℕ) (p : Part) (gone : Table) {r : Row}
    → WellFormed p.rows
    → NoInsert v.between
    → NoPurge v.between
    → visit v retention p ≡ dropped gone
    → find i gone ≡ some r
    → (r.status ≡ sent)
      × (before_window retention v.now r.dispatched_at ≡ true)
      × (is_default p ≡ false)
      × (find i p.rows ≡ some r)
unfolding visit
dropped-spent v retention i p gone {r} w k n h f = elim (Bool-cases (is_default p)) [
  | inl default ↦ cc (rw default at h)
  | inr daily ↦ elim (Option-cases v.query) [
    | inr (e, q) ↦ cc (rw (daily, q) at h)
    | inl q ↦ elim (Bool-cases (is_spent retention v.now p.rows)) [
      | inr fresh ↦ cc (rw (daily, q, fresh) at h)
      | inl spent ↦ elim (Option-cases v.drop) [
        | inr (e, d) ↦ cc (rw (daily, q, spent, d) at h)
        | inl d ↦
            let same : run v.between p.rows ≡ gone =
              ap (λ x. gone_rows x []) (rw (daily, q, spent, d) at h) in
            let found : find i (run v.between p.rows) ≡ some r = rw same f in
            elim (Option-cases (find i p.rows)) [
              | inl e ↦ cc (run-absent v.between i p.rows k e, found)
              | inr (x, e) ↦
                  let (was_sent, old) = spent-row retention v.now i p.rows {r = x} spent e in
                  let is_same : x ≡ r =
                    some_eq (sym (run-sent v.between i p.rows {r = x} w n e was_sent) ∙ found) in
                  (rw (← is_same) was_sent, rw (← is_same) old, daily, rw (← is_same) e)
            ]
      ]
    ]
  ]
]
